-- ===== src/Install/Untouched/Parts/Update.antt =====
-- An update of components leaves a file outside the directories of the programs alone.
use pastelup.Base.{
  Str, Bool, false, ◌&&◌, List, Option, Error, ◌⊎◌, Action, pure, if◌then◌else◌, ◌≡◌, Keeps,
  then-Keeps, attempt-Keeps, if-Keeps, pure-Keeps, else-Keeps,
}
use pastelup.Constants.{OsType, ToolType, dd_service, dupe_detection_sub_folder}
use pastelup.Constants.Packages.{dupe_detection_support_download_url}
use pastelup.Configs.{Config}
use pastelup.Host.{Host}
use pastelup.Service.Manager.{ServiceManager}
use pastelup.Disk.{Disk}
use pastelup.Install.{is_install, is_update}
use pastelup.Install.Snapshot.{TarEntry}
use pastelup.Install.Texts.{Templates}
use pastelup.Install.Components.DupeDetection.{install_dupe_detection}
use pastelup.Install.Services.{install_core_and_snapshot, install_components}
use pastelup.Install.Untouched.{LeavesFile, download_components-Keeps}
use pastelup.Install.Untouched.SevenZip.{install_7z-Keeps}
use pastelup.Install.Untouched.Parts.{
  IsOutside, support_dir, install_pastel_core-Keeps, install_raptor_q_service-Keeps,
  install_wallet_node_service-Keeps, install_hermes-Keeps, install_super_node_service-Keeps,
  chrome-Keeps,
}
use pastelup.Install.Untouched.DupeDetection.{python-Keeps, folders-Keeps, support_files-Keeps}

module _ {W : Type 0} (host : Host W) (disk : Disk W) (os : OsType) (p : Str) (P : W → Type 0)
    (laws : LeavesFile host disk p P) (parse_url : Str → Error ⊎ Str) (sha256_hex : Str → Str)
    (templates : Templates) (config_text : List Str → Str) (temp_dir : Str)
    (tar_entries : Str → Bool → Action W (List TarEntry × Option Error))
    (manager : ServiceManager W × Option Error) (config : Config) (outside : IsOutside p config)
    (update : is_install config ≡ false) (plain : config.use_snapshot ≡ false) where
  dupe_detection-Keeps :
      Keeps P (install_dupe_detection host disk os parse_url sha256_hex config_text config)
  unfolding install_dupe_detection
  dupe_detection-Keeps =
      then-Keeps P _ _
        (download_components-Keeps host disk os p P laws parse_url sha256_hex config dd_service
          dupe_detection_sub_folder outside.programs outside.dd_cleaned)
        (then-Keeps P _ _
          (if-Keeps P (is_update config && config.skip_system_update) _ _ (pure-Keeps P tt) (
            chrome-Keeps host disk os p P laws parse_url sha256_hex templates config outside
              update))
          (then-Keeps P _ _
            (if-Keeps P (is_update config && config.skip_dd_packages_update) _ _ (pure-Keeps P tt)
              (python-Keeps host disk os p P laws parse_url sha256_hex config_text config))
            (then-Keeps P _ _
              (folders-Keeps host disk os p P laws parse_url sha256_hex config_text config _)
              (then-Keeps P _ _
                (if-Keeps P (is_update config && config.skip_dd_supporting_files_update) _ _
                  (pure-Keeps P tt)
                  (support_files-Keeps host disk os p P laws parse_url sha256_hex config_text
                    (support_dir config) dupe_detection_support_download_url outside.support
                    outside.support_cleaned))
                (else-Keeps P (is_install config) _ _ update (pure-Keeps P tt))))))

  core-Keeps :
      (tool : ToolType)
      → Keeps P (
          install_core_and_snapshot host disk os parse_url sha256_hex templates config_text temp_dir
            tar_entries manager config tool)
  unfolding install_core_and_snapshot
  core-Keeps tool =
      then-Keeps P _ _
        (install_pastel_core-Keeps host disk os p P laws parse_url sha256_hex templates config
          outside update)
        (else-Keeps P config.use_snapshot _ _ plain (pure-Keeps P tt))

  when-Keeps : (b : Bool) (m : Action W (Unit {0})) → Keeps P m → Keeps P (if b then m else pure tt)
  when-Keeps b m hm = if-Keeps P b m (pure tt) hm (pure-Keeps P tt)

  pub install_components-Keeps :
      (tool : ToolType) (with_dependencies : Bool)
      → Keeps P (
          install_components host disk os parse_url sha256_hex templates config_text temp_dir
            tar_entries manager config tool with_dependencies)
  unfolding install_components
  install_components-Keeps tool with_dependencies =
      then-Keeps P _ _ (when-Keeps _ _ (core-Keeps tool)) (
        then-Keeps P _ _
          (when-Keeps _ _ (
            install_raptor_q_service-Keeps host disk os p P laws parse_url sha256_hex templates
              config outside update))
          (then-Keeps P _ _
            (when-Keeps _ _ (
              then-Keeps P _ _
                (install_wallet_node_service-Keeps host disk os p P laws parse_url sha256_hex
                  templates config outside update)
                (then-Keeps P _ _ (attempt-Keeps P _ (install_7z-Keeps host disk os p P laws))
                  (pure-Keeps P tt))))
            (then-Keeps P _ _
              (when-Keeps _ _ (
                install_super_node_service-Keeps host disk os p P laws parse_url sha256_hex
                  templates config outside update))
              (then-Keeps P _ _ (when-Keeps _ _ dupe_detection-Keeps) (
                when-Keeps _ _ (
                  install_hermes-Keeps host disk os p P laws parse_url sha256_hex templates config
                    outside update))))))
