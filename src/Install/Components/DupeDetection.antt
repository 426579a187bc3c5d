-- ===== src/Install/Components/DupeDetection.antt =====
-- cmd/install.go: `installDupeDetection`. `config_text` is the text of config.ini with the
-- directories filled in.
use pastelup.Base.{
  Str, str, Bool, false, ◌&&◌, List, [], ◌∷◌, ◌++◌, map, Error, ◌⊎◌, Action, pure, query, modify,
  ◌>>=◌, ◌>>◌, if◌then◌else◌, str_eq, contains,
}
use pastelup.Path.{join, join_three}
use pastelup.Constants.{
  OsType, windows, dd_service, dupe_detection_sub_folder, dupe_detection_service_dir,
  dupe_detection_support_file_path, dupe_detection_config_filename,
}
use pastelup.Constants.Packages.{
  pip_requirments_file_name, dupe_detection_configs, dupe_detection_support_download_url,
  dupe_detection_support_checksum,
}
use pastelup.Configs.{Config}
use pastelup.Host.{Host, present, check_file_exist}
use pastelup.Masternode.Address.{split_on}
use pastelup.Start.Pasteld.{get_checksum}
use pastelup.Disk.{Disk, create_folder, create_and_write, download_file, copy_file}
use pastelup.Install.{is_install, is_update}
use pastelup.Install.Files.{download_components, process_archive}
use pastelup.Install.System.{install_or_update_chrome}

-- `path.Base` of an address with no slash at its end
unfoldable pub last_of : List Str → Str
last_of [] = []
last_of (s ∷ []) = s
last_of (s ∷ t ∷ rest) = last_of (t ∷ rest)

unfoldable pub base_of : Str → Str
unfolding last_of split_on
base_of url = last_of (split_on b'/' url)

module _ {W : Type 0} (host : Host W) (disk : Disk W) (os : OsType) (parse_url : Str → Error ⊎ Str)
    (sha256_hex : Str → Str) (config_text : List Str → Str) where
  abbrev pub python_cmd : Str
  python_cmd = elim os [ windows ↦ str "python" | _ ↦ str "python3" ]

  -- The packages of Python
  unfoldable pub install_python_packages : Config → Action W (Unit {0})
  install_python_packages config = do
    let venv = join_three config.pastel_exec_dir dupe_detection_sub_folder (str "venv")
    let activate = str "source " ++ (venv ++ str "/bin/activate && ")
    let requirements =
        join_three config.pastel_exec_dir dupe_detection_sub_folder pip_requirments_file_name
    let cache : Str = if config.no_cache then str " --no-cache-dir" else []
    disk.interactive python_cmd (str "-m" ∷ str "venv" ∷ venv ∷ [])
    disk.interactive (str "bash")
        (str "-c" ∷ (activate ++ (python_cmd ++ str " -m pip install --upgrade pip")) ∷ [])
    disk.interactive (str "bash")
        (str "-c" ∷ (activate ++ (str "pip install --upgrade -r " ++ (requirements ++ cache))) ∷ [])

  -- The loop over the directories
  unfoldable pub create_folders : Config → List Str → Action W (Unit {0})
  create_folders config [] = pure tt
  create_folders config (path ∷ rest) =
      create_folder host disk os path config.force >> create_folders config rest

  -- Whether a support file is there with its checksum
  unfoldable pub is_current : Str → Str → Action W Bool
  is_current dir name = do
    let path = join dir name
    st ← query (host.stat path)
    folder ← query (disk.is_dir path)
    let sum = if folder then disk.checksum_of_folder path else get_checksum host os sha256_hex path
    let checked = do s ← sum; pure (str_eq s (dupe_detection_support_checksum name))
    elim st as (λ x. Action W Bool) [ present ↦ checked | _ ↦ pure false ]

  -- The body of the loop over the support files
  unfoldable pub load_support_file : Str → Str → Action W (Unit {0})
  load_support_file dir url = do
    let tmp = join dir (str "temp.zip")
    let archive =
        download_file host disk os tmp url
        >> process_archive host disk os parse_url sha256_hex dir tmp
    let plain = download_file host disk os (join dir (base_of url)) url
    let load = if contains url (str ".zip") then archive else plain
    current ← is_current dir (base_of url)
    if current then pure tt else load

  unfoldable pub load_support_files : Str → List Str → Action W (Unit {0})
  load_support_files dir [] = pure tt
  load_support_files dir (url ∷ rest) = load_support_file dir url >> load_support_files dir rest

  -- The part for config.ini, of an installation
  unfoldable pub write_dd_config : Config → Str → List Str → Action W (Unit {0})
  write_dd_config config dir paths = do
    let sample =
        join_three config.pastel_exec_dir dupe_detection_sub_folder (str "config.ini.sample")
    let target = join dir dupe_detection_config_filename
    exists ← query (check_file_exist host sample)
    if exists
        then copy_file host disk os sample dir dupe_detection_config_filename
        else create_and_write host disk os config.force target (config_text paths)
    modify (disk.setenv (str "DUPEDETECTIONCONFIGPATH") target)

  -- `installDupeDetection`
  unfoldable pub install_dupe_detection : Config → Action W (Unit {0})
  install_dupe_detection config = do
    let base = join config.configurer.home_dir dupe_detection_service_dir
    let support = join base dupe_detection_support_file_path
    let paths = map (λ name. join base name) dupe_detection_configs
    let chrome = install_or_update_chrome host disk os parse_url config
    let python = install_python_packages config
    let files = load_support_files support dupe_detection_support_download_url
    download_components host disk os parse_url sha256_hex config dd_service
        dupe_detection_sub_folder
    if is_update config && config.skip_system_update then pure tt else chrome
    if is_update config && config.skip_dd_packages_update then pure tt else python
    create_folders config paths
    if is_update config && config.skip_dd_supporting_files_update then pure tt else files
    if is_install config then write_dd_config config support paths else pure tt
