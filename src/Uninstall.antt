-- ===== src/Uninstall.antt =====
-- cmd/uninstall.go: the removal of the components. The flag `purge` is the global variable
-- `flagPurge`; the manager and its error are those of `NewServiceManager`.
pub mod Keeps
use pastelup.Base.{
  Str, str, Bool, true, false, List, [], ◌∷◌, ◌++◌, Option, Error, Action, pure, attempt, ◌>>◌,
  if◌then◌else◌, ◌>>=◌,
}
use pastelup.Path.{join}
use pastelup.Constants.{
  OsType, wallet_node, super_node, pasteld, dd_service, rq_service, hermes,
  dupe_detection_sub_folder, dupe_detection_service_dir,
}
use pastelup.Constants.Execs.{
  pasteld_name, pastel_cli_name, wallet_node_exec_name, super_node_exec_name, hermes_exec_name,
  rq_service_exec_name,
}
use pastelup.Configurer.{
  get_super_node_conf_file, get_hermes_conf_file, get_wallet_node_conf_file,
  get_rq_service_conf_file, get_super_node_log_file, get_wallet_node_log_file, get_hermes_log_file,
}
use pastelup.Configs.{Config}
use pastelup.Host.{Host}
use pastelup.Prompt.{ask_user_to_continue}
use pastelup.Service.Manager.{ServiceManager}
use pastelup.Stop.{stop_services, wallet_services, super_node_services}

module _ {W : Type 0} (host : Host W) (os : OsType) where
  -- `removeFile`, `removeDir`: a failure is logged.
  unfoldable pub remove_file : Str → Str → Action W (Unit {0})
  remove_file dir name = attempt (host.remove (join dir name)) >> pure tt

  unfoldable pub remove_dir : Str → Str → Action W (Unit {0})
  remove_dir parent dir = attempt (host.remove_all (join parent dir)) >> pure tt

  unfoldable pub remove_files : Str → List Str → Action W (Unit {0})
  remove_files dir [] = pure tt
  remove_files dir (name ∷ rest) = remove_file dir name >> remove_files dir rest

  -- `askToContinue`
  unfoldable pub ask_to_continue : Config → Str → Action W Bool
  ask_to_continue config what = do
    let ask = do
      (yes?, line) ←
          ask_user_to_continue host (str "Do you want to remove " ++ (what ++ str "? Y/N"))
      pure yes?
    if config.force then pure true else ask

  -- What all the commands do: ask, remove the program, and with the flag ask again and remove its
  -- data.
  unfoldable pub uninstall :
      Config → Bool → Str → Action W (Unit {0}) → Str → Action W (Unit {0}) → Action W (Unit {0})
  uninstall config purge what program all what_else = do
    agreed ← ask_to_continue config what
    let purged = do again ← ask_to_continue config all; if again then what_else else pure tt
    let removed = program >> (if purge then purged else pure tt)
    if agreed then removed else pure tt

  module _ (manager : ServiceManager W × Option Error) (config : Config) (purge : Bool) where
    -- The data of rq-service
    unfoldable pub remove_rq_data : Action W (Unit {0})
    remove_rq_data = do
      remove_file [] (get_rq_service_conf_file config.configurer config.working_dir)
      remove_file config.working_dir (str "rqservice.log")
      remove_dir config.working_dir (str "rqfiles")

    unfoldable pub run_uninstall_node : Action W (Unit {0})
    run_uninstall_node =
        uninstall config false (str "Pastel Node")
          (do
            stop_services host os manager config (pasteld ∷ [])
            remove_files config.pastel_exec_dir (pasteld_name os ∷ pastel_cli_name os ∷ []))
          [] (pure tt)

    unfoldable pub run_uninstall_wallet_node : Action W (Unit {0})
    run_uninstall_wallet_node =
        uninstall config purge (str "Wallet Node")
          (do
            stop_services host os manager config wallet_services
            remove_files config.pastel_exec_dir (
                pasteld_name os
                ∷ pastel_cli_name os
                ∷ wallet_node_exec_name os
                ∷ rq_service_exec_name os
                ∷ []))
          (str "all data and configuration of Walletnode service")
          (do
            remove_file [] (get_wallet_node_conf_file config.configurer config.working_dir)
            remove_file [] (get_wallet_node_log_file config.configurer config.working_dir)
            remove_rq_data)

    unfoldable pub run_uninstall_super_node : Action W (Unit {0})
    run_uninstall_super_node = do
      (yes?, line) ← ask_user_to_continue host (str "Do you want to remove Super Node? Y/N")
      let removed =
          uninstall config purge (str "Wallet Node")
            (do
              stop_services host os manager config super_node_services
              remove_files config.pastel_exec_dir (
                  pasteld_name os
                  ∷ pastel_cli_name os
                  ∷ super_node_exec_name os
                  ∷ rq_service_exec_name os
                  ∷ hermes_exec_name os
                  ∷ [])
              remove_dir config.pastel_exec_dir dupe_detection_sub_folder)
            (str "all data and configuration of supernode")
            (do
              remove_file [] (get_super_node_conf_file config.configurer config.working_dir)
              remove_file [] (get_super_node_log_file config.configurer config.working_dir)
              remove_dir config.working_dir (str "p2pdata")
              remove_dir config.working_dir (str "tmp")
              remove_rq_data
              remove_file [] (get_hermes_conf_file config.configurer config.working_dir)
              remove_file [] (get_hermes_log_file config.configurer config.working_dir)
              remove_dir config.configurer.home_dir dupe_detection_service_dir
              remove_dir config.working_dir (str "dd-server"))
      if yes? then removed else pure tt

    unfoldable pub run_uninstall_rq_service : Action W (Unit {0})
    run_uninstall_rq_service =
        uninstall config purge (str "RQ service")
          (do
            stop_services host os manager config (rq_service ∷ [])
            remove_file config.pastel_exec_dir (rq_service_exec_name os))
          (str "all data and configuration of DD service") remove_rq_data

    unfoldable pub run_uninstall_dd_service : Action W (Unit {0})
    run_uninstall_dd_service =
        uninstall config purge (str "DD service")
          (do
            stop_services host os manager config (dd_service ∷ [])
            remove_dir config.pastel_exec_dir dupe_detection_sub_folder)
          (str "all data and configuration of RQ service")
          (do
            remove_dir config.configurer.home_dir dupe_detection_service_dir
            remove_dir config.working_dir (str "dd-server"))

    unfoldable pub run_uninstall_wallet_node_service : Action W (Unit {0})
    run_uninstall_wallet_node_service =
        uninstall config purge (str "Walletnode service")
          (do
            stop_services host os manager config (wallet_node ∷ [])
            remove_file config.pastel_exec_dir (wallet_node_exec_name os))
          (str "all data and configuration of Walletnode service")
          (do
            remove_file [] (get_wallet_node_conf_file config.configurer config.working_dir)
            remove_file [] (get_wallet_node_log_file config.configurer config.working_dir))

    unfoldable pub run_uninstall_super_node_service : Action W (Unit {0})
    run_uninstall_super_node_service =
        uninstall config purge (str "Supernode service")
          (do
            stop_services host os manager config (super_node ∷ hermes ∷ [])
            remove_file config.pastel_exec_dir (super_node_exec_name os))
          (str "all data and configuration of Supernode service")
          (do
            remove_file [] (get_super_node_conf_file config.configurer config.working_dir)
            remove_file [] (get_super_node_log_file config.configurer config.working_dir)
            remove_dir config.working_dir (str "p2pdata")
            remove_dir config.working_dir (str "tmp"))

    unfoldable pub run_uninstall_hermes_service : Action W (Unit {0})
    run_uninstall_hermes_service =
        uninstall config purge (str "Hermes service")
          (do
            stop_services host os manager config (hermes ∷ [])
            remove_file config.pastel_exec_dir (hermes_exec_name os))
          (str "all data and configuration of Hermes service")
          (do
            remove_file [] (get_hermes_conf_file config.configurer config.working_dir)
            remove_file [] (get_hermes_log_file config.configurer config.working_dir))
