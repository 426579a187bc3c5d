-- ===== src/Update.antt =====
-- cmd/update.go: an update stops the services, copies the directories, and installs the new
-- programs. `tree` and `put_tree` read and write the entries below a directory, `unreadable` and
-- `stuck` say what of it cannot be read and removed. The other parameters are those of the
-- installation.
pub mod Order
use pastelup.Base.{
  Str, str, Bool, true, false, not, ◌&&◌, List, [], ◌∷◌, Option, none, some, Error, errorf, ◌⊎◌,
  Action, pure, fail, lift, query, modify, ◌>>=◌, ◌>>◌, if◌then◌else◌,
}
use pastelup.Constants.{OsType, ToolType, wallet_node, super_node, pasteld, dd_service, rq_service}
use pastelup.Configs.{Config}
use pastelup.Host.{Host}
use pastelup.Service.Manager.{ServiceManager}
use pastelup.Stop.{stop_services_with_confirmation}
use pastelup.Archive.{back_up_dir, back_up_dd_dir, work_dir_files}
use pastelup.Clear.{Entries, clear_dir}
use pastelup.Disk.{Disk}
use pastelup.Install.{app_to_service_map}
use pastelup.Install.Snapshot.{TarEntry}
use pastelup.Install.Texts.{Templates}
use pastelup.Install.Services.{run_services_install}

-- What `--clean` preserves
unfoldable pub files_to_preserve : List Str
files_to_preserve =
    str "pastel.conf"
    ∷ str "wallet.dat"
    ∷ str "masternode.conf"
    ∷ str "supernode.yml"
    ∷ str "hermes.yml"
    ∷ str "walletnode.yml"
    ∷ str "bridge.yml"
    ∷ []

unfoldable pub dirs_to_preserve : List Str
dirs_to_preserve = str "pastelkeys" ∷ []

module _ {W : Type 0} (host : Host W) (os : OsType) (tree : Str → W → Entries)
    (put_tree : Str → Entries → W → W) (unreadable stuck : Str → Option Error) (disk : Disk W)
    (parse_url : Str → Error ⊎ Str) (sha256_hex : Str → Str) (templates : Templates)
    (config_text : List Str → Str) (temp_dir : Str)
    (tar_entries : Str → Bool → Action W (List TarEntry × Option Error))
    (manager : ServiceManager W × Option Error) (ignore_dependencies : Bool) where
  -- `updateSolution`
  unfoldable pub update_solution : Config → ToolType → Bool → Action W (Unit {0})
  update_solution =
      run_services_install host disk os parse_url sha256_hex templates config_text temp_dir
        tar_entries manager ignore_dependencies

  -- `ClearDir` of the working directory
  unfoldable pub clear_work_dir : Str → Action W Bool
  clear_work_dir path = do
    entries ← query (tree path)
    let (left, result) = clear_dir unreadable stuck files_to_preserve dirs_to_preserve path entries
    modify (put_tree path left)
    lift result

  -- `backUpWorkDir`
  unfoldable pub back_up_work_dir : Config → Action W (Unit {0})
  back_up_work_dir config = do
    let what = if config.backup_all then none else some work_dir_files
    back_up_dir host config config.working_dir config.configurer.working_dir what
    let clean = clear_work_dir config.working_dir >> pure tt
    if config.clean then clean else pure tt

  -- The steps of `stopAndUpdateService` behind its test of the flags
  unfoldable pub update_steps : Config → ToolType → Bool → Bool → Bool → Action W (Unit {0})
  update_steps config tool back_up_work back_up_dd with_dependencies = do
    let services = if with_dependencies then app_to_service_map tool else tool ∷ []
    stop_services_with_confirmation host os manager config services
    if back_up_work && not config.no_backup then back_up_work_dir config else pure tt
    if back_up_dd && config.backup_all
        then back_up_dd_dir host config config.configurer.home_dir
        else pure tt
    update_solution config tool with_dependencies

  -- `stopAndUpdateService`
  unfoldable pub stop_and_update_service :
      Config → ToolType → Bool → Bool → Bool → Action W (Unit {0})
  stop_and_update_service config tool back_up_work back_up_dd with_dependencies =
      if config.no_backup && config.backup_all
      then fail (errorf "cannot use --no-backup and --backup-all together")
      else update_steps config tool back_up_work back_up_dd with_dependencies

  -- The commands
  unfoldable pub run_update_node : Config → Action W (Unit {0})
  run_update_node config = stop_and_update_service config pasteld true false true

  unfoldable pub run_update_super_node : Config → Action W (Unit {0})
  run_update_super_node config = stop_and_update_service config super_node true true true

  unfoldable pub run_update_wallet_node : Config → Action W (Unit {0})
  run_update_wallet_node config = stop_and_update_service config wallet_node true false true

  unfoldable pub run_update_rq_service : Config → Action W (Unit {0})
  run_update_rq_service config = stop_and_update_service config rq_service false false false

  unfoldable pub run_update_dd_service : Config → Action W (Unit {0})
  run_update_dd_service config = stop_and_update_service config dd_service false true false

  unfoldable pub run_update_wn_service : Config → Action W (Unit {0})
  run_update_wn_service config = stop_and_update_service config wallet_node false false false

  unfoldable pub run_update_sn_service : Config → Action W (Unit {0})
  run_update_sn_service config = stop_and_update_service config super_node false false false
