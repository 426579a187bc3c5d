-- ===== src/Install/Files.antt =====
-- cmd/install.go: downloads and archives, the configuration files and the parameter files.
-- `parse_url` is `url.Parse` with `String` of its result, and `sha256_hex` the hash of Go's library
-- in hexadecimal.
use pastelup.Base.{
  Str, str, Bool, true, false, not, ◌&&◌, ◌||◌, List, [], ◌∷◌, ◌++◌, none, some, Error, os_error,
  errorf, wrapf, ◌⊎◌, inl, inr, Action, pure, fail, lift, attempt, query, perform, wrap_error,
  ◌>>=◌, ◌>>◌, if◌then◌else◌, str_eq, contains,
}
use pastelup.Path.{join}
use pastelup.Constants.{OsType, linux, mac, ToolType, pastel_up, pastel_conf_name}
use pastelup.Configurer.{get_download_url, default_zksnark_dir}
use pastelup.Configs.{Config}
use pastelup.Host.{Host, present, not_exist}
use pastelup.PastelConf.{update_pastel_config_file}
use pastelup.Start.Pasteld.{get_checksum, pastel_params_check_sums, zksnark_params_names}
use pastelup.Disk.{Disk, create_folder, create_file, create_and_write, download_file}
use pastelup.Disk.Unzip.{unzip}
use pastelup.Install.{is_install}

abbrev pub zksnark_params_url : Str
zksnark_params_url = str "https://download.pastel.network/other/pastel-params/"

-- `constants.Pastelup` is in the root of the downloads, for every network and version.
abbrev pub is_pastelup : ToolType → Bool
is_pastelup pastel_up = true
is_pastelup _ = false

-- `os.IsExist`
unfoldable pub is_exist : Error → Bool
is_exist (os_error s) =
    str_eq (str s) (str "file already exists") || str_eq (str s) (str "file exists")
is_exist _ = false

module _ {W : Type 0} (host : Host W) (disk : Disk W) (os : OsType) (parse_url : Str → Error ⊎ Str)
    (sha256_hex : Str → Str) where
  -- `processArchive`
  unfoldable pub process_archive : Str → Str → Action W (Unit {0})
  process_archive dst path = do
    st ← query (host.stat path)
    elim st [ not_exist ↦ fail (os_error "no such file") | _ ↦ pure tt ]
    unzip host disk os path dst
    host.remove path

  -- The part of `downloadComponents` behind the address and the name of the file
  unfoldable pub load_component : Config → Str → Str × Str → Action W (Unit {0})
  load_component config dst_folder (url, archive) = do
    wrap_error "failed to download executable file"
        (download_file host disk os (join config.pastel_exec_dir archive) url)
    let extracted = wrap_error "failed to process downloaded file" (
        process_archive (join config.pastel_exec_dir dst_folder)
          (join config.pastel_exec_dir archive))
    if contains archive (str ".zip") then extracted else pure tt

  -- The address and the name of the file; pastelup has neither network nor version.
  unfoldable pub download_of_tool : Config → ToolType → Error ⊎ (Str × Str)
  download_of_tool config tool =
      let network : Str = if is_pastelup tool then [] else config.network in
      let version : Str = if is_pastelup tool then [] else config.version in
      get_download_url parse_url config.configurer network version tool

  -- `downloadComponents`
  unfoldable pub download_components : Config → ToolType → Str → Action W (Unit {0})
  download_components config tool dst_folder = do
    st ← query (host.stat config.pastel_exec_dir)
    elim st [
      | not_exist ↦ create_folder host disk os config.pastel_exec_dir config.force
      | _ ↦ pure tt
    ]
    found ← wrap_error "failed to get download url" (lift (download_of_tool config tool))
    load_component config dst_folder found

  -- `makeExecutable`: on Linux and macOS
  unfoldable pub make_executable : Str → Str → Action W (Unit {0})
  make_executable dir name =
      let chmod = perform (host.run_cmd (str "chmod") (str "755" ∷ join dir name ∷ [])) >>= λ ran.
      elim ran.failure as (λ x. Action W (Unit {0})) [ none ↦ pure tt | some e ↦ fail e ] in
      elim os [ linux ↦ chmod | mac ↦ chmod | _ ↦ pure tt ]

  -- `setupComponentConfigFile`: only an installation writes it.
  unfoldable pub setup_component_config_file : Config → Str → Str → Action W (Unit {0})
  setup_component_config_file config path text =
      if is_install config then create_and_write host disk os config.force path text else pure tt

  -- The body of the loop of `downloadZksnarkParams`
  unfoldable pub download_zksnark_file : Str → Bool → Str → Action W (Unit {0})
  download_zksnark_file dir force name = do
    st ← query (host.stat (join dir name))
    let sum_there =
        if force
        then get_checksum host os sha256_hex (join dir name)
        else fail (errorf "pastel-param exists")
    sum ← elim st as (λ x. Action W Str) [ present ↦ sum_there | _ ↦ pure [] ]
    let load = download_file host disk os (join dir name) (zksnark_params_url ++ name)
    if str_eq sum (pastel_params_check_sums name) then pure tt else load

  unfoldable pub download_zksnark_files : Str → Bool → List Str → Action W (Unit {0})
  download_zksnark_files dir force [] = pure tt
  download_zksnark_files dir force (name ∷ names) =
      download_zksnark_file dir force name >> download_zksnark_files dir force names

  -- `downloadZksnarkParams`
  unfoldable pub download_zksnark_params : Str → Bool → Bool → Action W (Unit {0})
  download_zksnark_params dir force legacy =
      download_zksnark_files dir force (zksnark_params_names legacy)

  -- The steps of `setupBasePastelWorkingEnvironment`
  unfoldable pub setup_base : Config → Action W (Unit {0})
  setup_base config = do
    let conf = join config.working_dir pastel_conf_name
    create_folder host disk os config.working_dir config.force
    wrap_error "failed to create pastel.conf" (create_file host disk os conf config.force)
    wrap_error "failed to update pastel.conf" (update_pastel_config_file host conf config)
    let params = default_zksnark_dir config.configurer
    wrap_error "failed to update folder" (create_folder host disk os params config.force)
    loaded ← attempt (download_zksnark_params params config.force config.legacy)
    elim loaded [
      | inr done ↦ pure tt
      | inl e ↦
          if is_exist e && not config.force
          then pure tt
          else fail (wrapf "failed to download Zksnark parameters" e)
    ]

  -- `setupBasePastelWorkingEnvironment`: only for an installation
  unfoldable pub setup_base_pastel_working_environment : Config → Action W (Unit {0})
  setup_base_pastel_working_environment config =
      if is_install config then setup_base config else pure tt
