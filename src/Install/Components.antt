-- ===== src/Install/Components.antt =====
-- cmd/install.go: the installation of each component.
pub mod DupeDetection
use pastelup.Base.{
  ℕ, Str, str, Bool, true, false, List, [], ◌∷◌, ◌++◌, Error, ◌⊎◌, inl, inr, Action, pure, fail,
  lift, wrap_error, ◌>>=◌, ◌>>◌, if◌then◌else◌, str_eq,
}
use pastelup.Path.{join}
use pastelup.Constants.{
  OsType, ToolType, pastel_up, wallet_node, super_node, pasteld, rq_service, hermes,
  dupe_detection_service_dir, network_testnet, network_devnet, network_regtest,
}
use pastelup.Constants.Execs.{
  pastelup_exec_name, pastelup_name, pasteld_name, pastel_cli_name, wallet_node_exec_name,
  super_node_exec_name, hermes_exec_name, rq_service_exec_name,
}
use pastelup.Constants.Packages.{
  rq_service_dir, p2p_data_dir, mdl_data_dir, temp_dir, rq_service_default_port,
  bridge_service_default_port, dd_server_default_port, burn_address_devnet, burn_address_testnet,
  burn_address_mainnet,
}
use pastelup.Constants.Ports.{get_sn_port_list, sn_port, p2p_port}
use pastelup.Configurer.{
  get_super_node_conf_file, get_hermes_conf_file, get_wallet_node_conf_file,
  get_rq_service_conf_file, get_super_node_log_file, get_wallet_node_log_file, get_hermes_log_file,
}
use pastelup.Configs.{Config}
use pastelup.Host.{Host}
use pastelup.Start.{port_at}
use pastelup.Disk.{Disk, create_folder}
use pastelup.Install.{is_install}
use pastelup.Install.Files.{
  download_components, make_executable, setup_component_config_file,
  setup_base_pastel_working_environment,
}
use pastelup.Install.System.{open_ports, increase_open_files_on_linux}
use pastelup.Install.Texts.{Templates, super_node_config, hermes_config, wallet_node_config}

module _ {W : Type 0} (host : Host W) (disk : Disk W) (os : OsType) (parse_url : Str → Error ⊎ Str)
    (sha256_hex : Str → Str) (templates : Templates) where
  -- Download, and permission to run
  unfoldable pub download : Config → ToolType → Action W (Unit {0})
  download config tool = download_components host disk os parse_url sha256_hex config tool []

  unfoldable pub executable : Config → Str → Action W (Unit {0})
  executable config name =
      make_executable host disk os parse_url sha256_hex config.pastel_exec_dir name

  unfoldable pub config_file : Config → Str → Str → Action W (Unit {0})
  config_file config path text =
      setup_component_config_file host disk os parse_url sha256_hex config path text

  -- `installPastelUp`
  unfoldable pub install_pastelup : Config → Action W (Unit {0})
  install_pastelup config = do
    download config pastel_up
    host.rename (join config.pastel_exec_dir (pastelup_exec_name os)) (pastelup_name os)
    make_executable host disk os parse_url sha256_hex [] (pastelup_name os)

  -- `installPastelCore`
  unfoldable pub install_pastel_core : Config → Action W (Unit {0})
  install_pastel_core config = do
    download config pasteld
    executable config (pasteld_name os)
    executable config (pastel_cli_name os)
    setup_base_pastel_working_environment host disk os parse_url sha256_hex config

  -- `installRaptorQService`
  unfoldable pub install_raptor_q_service : Config → Action W (Unit {0})
  install_raptor_q_service config = do
    text ← wrap_error "failed to get rqservice config" (
        lift (
          templates.rq_service_text
            (record { host_name = str "127.0.0.1"; port = rq_service_default_port })))
    download config rq_service
    executable config (rq_service_exec_name os)
    create_folder host disk os (join config.working_dir rq_service_dir) config.force
    config_file config (get_rq_service_conf_file config.configurer config.working_dir) text

  -- `installWalletNodeService`, without the part for the bridge, which is never on
  unfoldable pub install_wallet_node_service : Config → Action W (Unit {0})
  install_wallet_node_service config = do
    text ←
        wrap_error "failed to get walletnode config"
          (lift (templates.wallet_node_text (wallet_node_config config)))
    download config wallet_node
    executable config (wallet_node_exec_name os)
    config_file config (get_wallet_node_conf_file config.configurer config.working_dir) text

  -- `installHermes`
  unfoldable pub install_hermes : Config → Action W (Unit {0})
  install_hermes config = do
    text ←
        wrap_error "failed to get hermes config"
          (lift (templates.hermes_text (hermes_config config)))
    download config hermes
    executable config (hermes_exec_name os)
    config_file config (get_hermes_conf_file config.configurer config.working_dir) text

  -- The steps of `installSuperNodeService` behind the texts
  unfoldable pub place_super_node : Config → Bool → Str → Str → Action W (Unit {0})
  place_super_node config try_open_ports text hermes_text = do
    download config super_node
    download config hermes
    executable config (super_node_exec_name os)
    executable config (hermes_exec_name os)
    config_file config (get_super_node_conf_file config.configurer config.working_dir) text
    config_file config (get_hermes_conf_file config.configurer config.working_dir) hermes_text
    create_folder host disk os (join config.working_dir temp_dir) config.force
    create_folder host disk os (join config.working_dir p2p_data_dir) config.force
    create_folder host disk os (join config.working_dir mdl_data_dir) config.force
    let ports = do
      open_ports host disk os parse_url config (get_sn_port_list config.network)
      increase_open_files_on_linux host disk config
    if try_open_ports then ports else pure tt

  -- `installSuperNodeService`
  unfoldable pub install_super_node_service : Config → Bool → Action W (Unit {0})
  install_super_node_service config try_open_ports = do
    text ←
        wrap_error "failed to get supernode config"
          (lift (templates.super_node_text (super_node_config config)))
    hermes_text ←
        wrap_error "failed to get hermes config"
          (lift (templates.hermes_text (hermes_config config)))
    place_super_node config try_open_ports text hermes_text
