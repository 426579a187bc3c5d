-- ===== src/Install/Untouched/Parts.antt =====
-- What the installation of each component leaves alone if it is part of an update.
pub mod Update
use pastelup.Base.{
  Str, str, Bool, true, false, not, ◌&&◌, ◌||◌, List, [], ◌∷◌, ◌++◌, map, Option, none, some, Error,
  errorf, ◌⊎◌, inl, inr, Action, pure, fail, lift, attempt, query, perform, modify, wrap_error,
  ◌>>=◌, ◌>>◌, if◌then◌else◌, has_prefix, differs_prefix, ◌≡◌, ◌≢◌, refl, Keeps, bind-Keeps,
  then-Keeps, attempt-Keeps, wrap_error-Keeps, lift-Keeps, if-Keeps, query-Keeps, pure-Keeps,
  fail-Keeps, perform-Keeps, option-Keeps, else-Keeps, contains, str_eq,
}
use pastelup.Path.{join, not_below}
use pastelup.Constants.{
  OsType, ToolType, wallet_node, super_node, pasteld, dd_service, rq_service, hermes,
  dupe_detection_sub_folder, dupe_detection_service_dir, dupe_detection_support_file_path,
}
use pastelup.Constants.Packages.{
  dupe_detection_support_checksum, dupe_detection_support_download_url, dupe_detection_configs,
}
use pastelup.Configs.{Config}
use pastelup.Host.{Host, sudo_or_fail, Stat, present, not_exist, stat_error}
use pastelup.Start.Pasteld.{get_checksum}
use pastelup.Disk.{Disk, create_folder, download_file}
use pastelup.Disk.Clean.{clean}
use pastelup.Install.{is_install, is_update}
use pastelup.Install.Files.{setup_base_pastel_working_environment}
use pastelup.Install.System.{
  install_or_update_chrome, install_chrome, chrome_deb_name, get_chrome_download_url,
}
use pastelup.Install.Texts.{Templates, wallet_node_config, super_node_config, hermes_config}
use pastelup.Install.Components.{
  download, executable, config_file, install_pastel_core, install_raptor_q_service,
  install_wallet_node_service, install_hermes, install_super_node_service, place_super_node,
}
use pastelup.Install.Components.DupeDetection.{
  install_python_packages, create_folders, is_current, load_support_file, load_support_files,
  install_dupe_detection, base_of,
}
use pastelup.Install.Untouched.{
  LeavesFile, create_folder-Keeps, download_below-Keeps, sudo-Keeps, sudo_or_fail-Keeps,
  make_executable-Keeps, process_archive-Keeps, download_components-Keeps,
  setup_component_config_file-Keeps,
}

abbrev pub support_dir : Config → Str
support_dir config =
    join (join config.configurer.home_dir dupe_detection_service_dir)
      dupe_detection_support_file_path

-- The path begins neither with the directory of the programs nor with the one of the support files,
-- as they are written or cleaned.
pub record IsOutside (p : Str) (config : Config) : Type 0 where
  pub programs : has_prefix p config.pastel_exec_dir ≡ false
  pub programs_cleaned : has_prefix p (clean (join config.pastel_exec_dir []) ++ str "/") ≡ false
  pub dd_cleaned :
      has_prefix p (clean (join config.pastel_exec_dir dupe_detection_sub_folder) ++ str "/")
      ≡ false
  pub support : has_prefix p (support_dir config) ≡ false
  pub support_cleaned : has_prefix p (clean (support_dir config) ++ str "/") ≡ false

module _ {W : Type 0} (host : Host W) (disk : Disk W) (os : OsType) (p : Str) (P : W → Type 0)
    (laws : LeavesFile host disk p P) (parse_url : Str → Error ⊎ Str) (sha256_hex : Str → Str)
    (templates : Templates) (config : Config) (outside : IsOutside p config)
    (update : is_install config ≡ false) where
  download-Keeps :
      (tool : ToolType) → Keeps P (download host disk os parse_url sha256_hex templates config tool)
  unfolding download
  download-Keeps tool =
      download_components-Keeps host disk os p P laws parse_url sha256_hex config tool []
        outside.programs outside.programs_cleaned

  executable-Keeps :
      (name : Str) → Keeps P (executable host disk os parse_url sha256_hex templates config name)
  unfolding executable
  executable-Keeps name =
      make_executable-Keeps host disk p P laws parse_url sha256_hex os config.pastel_exec_dir name

  config_file-Keeps :
      (path text : Str)
      → Keeps P (config_file host disk os parse_url sha256_hex templates config path text)
  unfolding config_file
  config_file-Keeps path text =
      setup_component_config_file-Keeps host disk os p P laws parse_url sha256_hex config path text
        update

  folder-Keeps : (path : Str) → Keeps P (create_folder host disk os path config.force)
  folder-Keeps path = create_folder-Keeps host disk os p P laws path config.force

  pub install_pastel_core-Keeps :
      Keeps P (install_pastel_core host disk os parse_url sha256_hex templates config)
  unfolding install_pastel_core setup_base_pastel_working_environment
  install_pastel_core-Keeps = then-Keeps P _ _ (download-Keeps pasteld) (
      then-Keeps P _ _ (executable-Keeps _) (
        then-Keeps P _ _ (executable-Keeps _)
          (else-Keeps P (is_install config) _ _ update (pure-Keeps P tt))))

  pub install_raptor_q_service-Keeps :
      Keeps P (install_raptor_q_service host disk os parse_url sha256_hex templates config)
  unfolding install_raptor_q_service
  install_raptor_q_service-Keeps =
      bind-Keeps P _ _ (wrap_error-Keeps P "failed to get rqservice config" _ (lift-Keeps P _))
        (λ text. then-Keeps P _ _ (download-Keeps rq_service) (
          then-Keeps P _ _ (executable-Keeps _)
            (then-Keeps P _ _ (folder-Keeps _) (config_file-Keeps _ text))))

  pub install_wallet_node_service-Keeps :
      Keeps P (install_wallet_node_service host disk os parse_url sha256_hex templates config)
  unfolding install_wallet_node_service
  install_wallet_node_service-Keeps =
      bind-Keeps P _ _ (wrap_error-Keeps P "failed to get walletnode config" _ (lift-Keeps P _))
        (λ text.
          then-Keeps P _ _ (download-Keeps wallet_node)
            (then-Keeps P _ _ (executable-Keeps _) (config_file-Keeps _ text)))

  pub install_hermes-Keeps :
      Keeps P (install_hermes host disk os parse_url sha256_hex templates config)
  unfolding install_hermes
  install_hermes-Keeps =
      bind-Keeps P _ _ (wrap_error-Keeps P "failed to get hermes config" _ (lift-Keeps P _))
        (λ text.
          then-Keeps P _ _ (download-Keeps hermes)
            (then-Keeps P _ _ (executable-Keeps _) (config_file-Keeps _ text)))

  place_super_node-Keeps :
      (text hermes_text : Str)
      → Keeps P (
          place_super_node host disk os parse_url sha256_hex templates config
            (is_install config)
            text
            hermes_text)
  unfolding place_super_node
  place_super_node-Keeps text hermes_text = then-Keeps P _ _ (download-Keeps super_node) (
      then-Keeps P _ _ (download-Keeps hermes) (
        then-Keeps P _ _ (executable-Keeps _) (
          then-Keeps P _ _ (executable-Keeps _) (
            then-Keeps P _ _ (config_file-Keeps _ text) (
              then-Keeps P _ _ (config_file-Keeps _ hermes_text) (
                then-Keeps P _ _ (folder-Keeps _) (
                  then-Keeps P _ _ (folder-Keeps _) (
                    then-Keeps P _ _ (folder-Keeps _)
                      (else-Keeps P (is_install config) _ _ update (pure-Keeps P tt))))))))))

  pub install_super_node_service-Keeps : Keeps P (
      install_super_node_service host disk os parse_url sha256_hex templates config
        (is_install config))
  unfolding install_super_node_service
  install_super_node_service-Keeps =
      bind-Keeps P _ _
        (wrap_error-Keeps P "failed to get supernode config" _
          (lift-Keeps P (templates.super_node_text (super_node_config config))))
        (λ text.
          bind-Keeps P _ _
            (wrap_error-Keeps P "failed to get hermes config" _
              (lift-Keeps P (templates.hermes_text (hermes_config config))))
            (place_super_node-Keeps text))

  pin-Keeps :
      (deb : Str)
      → Keeps P (
          sudo_or_fail host config (str "dpkg" ∷ str "-i" ∷ deb ∷ [])
          >> sudo_or_fail host config
              (str "apt-mark" ∷ str "hold" ∷ str "google-chrome-stable" ∷ []))
  pin-Keeps deb =
      then-Keeps P _ _
        (sudo_or_fail-Keeps host disk os p P laws config (str "dpkg" ∷ str "-i" ∷ deb ∷ []))
        (sudo_or_fail-Keeps host disk os p P laws config
          (str "apt-mark" ∷ str "hold" ∷ str "google-chrome-stable" ∷ []))

  pub chrome-Keeps : Keeps P (install_or_update_chrome host disk os parse_url config)
  unfolding install_or_update_chrome
  chrome-Keeps =
      bind-Keeps P _ _
        (sudo-Keeps host disk os p P laws config
          (str "apt-mark" ∷ str "unhold" ∷ str "google-chrome-stable" ∷ []))
        (λ unpinned.
          then-Keeps P _ _
            (else-Keeps P (is_install config) (install_chrome host disk os parse_url config) _
              update (pure-Keeps P tt))
            (bind-Keeps P _ _
              (wrap_error-Keeps P "failed to get download url for google-chrome-stable.deb" _
                (lift-Keeps P (parse_url (get_chrome_download_url config.network config.version))))
              (λ url.
                then-Keeps P _ _
                  (download_below-Keeps host disk os p P laws config.pastel_exec_dir chrome_deb_name
                    url outside.programs)
                  (pin-Keeps (join config.pastel_exec_dir chrome_deb_name)))))
