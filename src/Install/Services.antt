-- ===== src/Install/Services.antt =====
-- cmd/install.go: `runServicesInstall`: which components a command installs, and in which order.
use pastelup.Base.{
  Str, str, Bool, true, false, not, ◌&&◌, ◌||◌, List, Option, none, some, Error, errorf, ◌⊎◌, inl,
  inr, Action, pure, fail, attempt, perform, ◌>>=◌, ◌>>◌, if◌then◌else◌,
}
use pastelup.Constants.{
  OsType, ToolType, wallet_node, super_node, pasteld, dd_service, rq_service, hermes,
}
use pastelup.Configs.{Config}
use pastelup.Host.{Host}
use pastelup.PastelConf.{parse_pastel_conf}
use pastelup.Prompt.{ask_user_to_continue}
use pastelup.Service.Manager.{ServiceManager}
use pastelup.Node.{check_process_running, kill_process, get_pastel_info}
use pastelup.Stop.{stop_pastel_cli, is_pasteld}
use pastelup.Disk.{Disk, is_valid_network_opt}
use pastelup.Install.{is_install, get_default_rpc_parameters, check_install_dir}
use pastelup.Install.Packages.{check_installed_packages}
use pastelup.Install.SevenZip.{install_7z}
use pastelup.Install.Snapshot.{TarEntry, download_latest_snapshot}
use pastelup.Install.Texts.{Templates}
use pastelup.Install.Components.{
  install_pastel_core, install_raptor_q_service, install_wallet_node_service,
  install_super_node_service, install_hermes,
}
use pastelup.Install.Components.DupeDetection.{install_dupe_detection}

abbrev pub is_wallet_node : ToolType → Bool
is_wallet_node wallet_node = true
is_wallet_node _ = false

abbrev pub is_super_node : ToolType → Bool
is_super_node super_node = true
is_super_node _ = false

abbrev pub is_rq_service : ToolType → Bool
is_rq_service rq_service = true
is_rq_service _ = false

abbrev pub is_dd_service : ToolType → Bool
is_dd_service dd_service = true
is_dd_service _ = false

abbrev pub is_hermes : ToolType → Bool
is_hermes hermes = true
is_hermes _ = false

-- Wallet node or supernode with what they depend on
abbrev pub is_solution : ToolType → Bool → Bool
is_solution tool with_dependencies =
    (is_wallet_node tool && with_dependencies) || (is_super_node tool && with_dependencies)

module _ {W : Type 0} (host : Host W) (disk : Disk W) (os : OsType) (parse_url : Str → Error ⊎ Str)
    (sha256_hex : Str → Str) (templates : Templates) (config_text : List Str → Str) (temp_dir : Str)
    (tar_entries : Str → Bool → Action W (List TarEntry × Option Error))
    (manager : ServiceManager W × Option Error) where
  -- The end of pasteld that did not stop as a service: the configuration that `ParsePastelConf`
  -- leaves.
  unfoldable pub stop_or_kill_pasteld : Config → Action W Config
  stop_or_kill_pasteld config = do
    parsed ← parse_pastel_conf host config
    stopped ← attempt (stop_pastel_cli host os)
    elim stopped as (λ x. Action W (Unit {0})) [
      | inl e ↦ attempt (kill_process host os pasteld) >> pure tt
      | inr done ↦ pure tt
    ]
    pure parsed

  -- A node that answers is stopped, if the user agrees.
  unfoldable pub stop_answering_pasteld : Config → Action W Config
  stop_answering_pasteld config = do
    (yes?, line) ← ask_user_to_continue host (str "Do you want to stop it and continue? Y/N")
    if yes? then pure tt else fail (errorf "user terminated installation")
    elim manager.1 as (λ x. Action W (Unit {0})) [
      | none ↦ attempt (manager.0.stop_service config pasteld) >> pure tt
      | some e ↦ pure tt
    ]
    runs ← check_process_running host os pasteld
    if runs then stop_or_kill_pasteld config else pure config

  unfoldable pub stop_running_pasteld : Config → Action W Config
  stop_running_pasteld config = do
    let look = perform (get_pastel_info host) >>= λ (info, failure).
        elim failure as (λ x. Action W Config) [
          | none ↦ stop_answering_pasteld config
          | some e ↦ pure config
        ]
    running ← check_process_running host os pasteld
    if running then look else pure config

  -- pasteld and pastel-cli, and the snapshot, whose failure is logged
  unfoldable pub install_core_and_snapshot : Config → ToolType → Action W (Unit {0})
  install_core_and_snapshot config tool = do
    install_pastel_core host disk os parse_url sha256_hex templates config
    let from_snapshot =
        attempt (download_latest_snapshot host disk os temp_dir tar_entries config tool) >> pure tt
    if config.use_snapshot then from_snapshot else pure tt

  -- The components, after the preparation
  unfoldable pub install_components : Config → ToolType → Bool → Action W (Unit {0})
  install_components config tool with_dependencies = do
    let solution = is_solution tool with_dependencies
    let core = install_core_and_snapshot config tool
    let rq = install_raptor_q_service host disk os parse_url sha256_hex templates config
    let wallet =
        install_wallet_node_service host disk os parse_url sha256_hex templates config
        >> (attempt (install_7z host disk os) >> pure tt)
    let super =
        install_super_node_service host disk os parse_url sha256_hex templates config
          (is_install config)
    let dd = install_dupe_detection host disk os parse_url sha256_hex config_text config
    let her = install_hermes host disk os parse_url sha256_hex templates config
    if is_pasteld tool || solution then core else pure tt
    if is_rq_service tool || solution then rq else pure tt
    if is_wallet_node tool then wallet else pure tt
    if is_super_node tool then super else pure tt
    if is_dd_service tool || (is_super_node tool && with_dependencies) then dd else pure tt
    if is_hermes tool then her else pure tt

  -- The test of the network, for an installation
  unfoldable pub check_network : Config → Action W (Unit {0})
  check_network config =
      if is_install config && not (is_valid_network_opt config.network)
      then fail (errorf "invalid --network provided")
      else pure tt

  -- `runServicesInstall`
  unfoldable pub run_services_install : Bool → Config → ToolType → Bool → Action W (Unit {0})
  run_services_install ignore_dependencies config tool with_dependencies = do
    check_network config
    with_rpc ← perform (get_default_rpc_parameters host disk os config)
    stopped ←
        (if is_pasteld tool || is_solution tool with_dependencies
          then stop_running_pasteld with_rpc
          else pure with_rpc)
    ready ← check_install_dir host disk os stopped stopped.pastel_exec_dir stopped.op_mode
    if ignore_dependencies
        then pure tt
        else check_installed_packages host disk os ready tool with_dependencies
    install_components ready tool with_dependencies
