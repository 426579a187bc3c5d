-- ===== src/Update/Order.antt =====
-- What an update that succeeds has done, in order.
use pastelup.Base.{
  Str, str, Bool, ◌++◌, ◌&&◌, List, [], ◌∷◌, Option, none, some, Error, ◌⊎◌, Action, pure,
  if◌then◌else◌,
}
use pastelup.Constants.{OsType, ToolType}
use pastelup.Configs.{Config}
use pastelup.Host.{Host}
use pastelup.Service.Manager.{ServiceManager}
use pastelup.Stop.{stop_services_with_confirmation}
use pastelup.Path.{join}
use pastelup.Archive.{back_up_dd_dir, work_dir_files}
use pastelup.Archive.Saved.{Saved}
use pastelup.Clear.{Entries}
use pastelup.Disk.{Disk}
use pastelup.Install.{app_to_service_map}
use pastelup.Install.Snapshot.{TarEntry}
use pastelup.Install.Texts.{Templates}
use pastelup.Update.{update_solution, back_up_work_dir}

module _ {W : Type 0} (host : Host W) (os : OsType) (tree : Str → W → Entries)
    (put_tree : Str → Entries → W → W) (unreadable stuck : Str → Option Error) (disk : Disk W)
    (parse_url : Str → Error ⊎ Str) (sha256_hex : Str → Str) (templates : Templates)
    (config_text : List Str → Str) (temp_dir : Str)
    (tar_entries : Str → Bool → Action W (List TarEntry × Option Error))
    (manager : ServiceManager W × Option Error) (ignore_dependencies : Bool) where
  abbrev pub stopping : Config → ToolType → Bool → Action W (Unit {0})
  stopping config tool deps =
      stop_services_with_confirmation host os manager config
        (if deps then app_to_service_map tool else tool ∷ [])

  abbrev pub backing_up : Config → Action W (Unit {0})
  backing_up =
      back_up_work_dir host os tree put_tree unreadable stuck disk parse_url sha256_hex templates
        config_text temp_dir tar_entries manager ignore_dependencies

  -- What the working directory was copied as, in the directory of the archives: all of it with
  -- `--backup-all`, or else the listed files that are there.
  abbrev pub IsSaved : Config → W → Type 0
  IsSaved config u =
      Saved host config config.working_dir
        (join config.archive_dir
          (config.configurer.working_dir ++ (str "_archive_" ++ host.unix_time u)))
        (if config.backup_all then none else some work_dir_files)

  abbrev pub backing_up_dd : Config → Bool → Action W (Unit {0})
  backing_up_dd config dd =
      if dd && config.backup_all
      then back_up_dd_dir host config config.configurer.home_dir
      else pure tt

  abbrev pub updating : Config → ToolType → Bool → Action W (Unit {0})
  updating =
      update_solution host os tree put_tree unreadable stuck disk parse_url sha256_hex templates
        config_text temp_dir tar_entries manager ignore_dependencies
