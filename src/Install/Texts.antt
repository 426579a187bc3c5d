-- ===== src/Install/Texts.antt =====
-- cmd/configs.go, cmd/install.go and configs/config.go: the values that fill the templates of the
-- configuration files. `Templates` is `GetServiceConfig` of utils/utils.go: the text of a file, or
-- the error of the template library.
use pastelup.Base.{ℕ, Str, str, Bool, true, false, [], Error, ◌⊎◌, if◌then◌else◌, str_eq}
use pastelup.Path.{join}
use pastelup.Constants.{
  dupe_detection_service_dir, network_testnet, network_devnet, network_regtest,
}
use pastelup.Constants.Packages.{
  rq_service_dir, p2p_data_dir, mdl_data_dir, temp_dir, rq_service_default_port,
  bridge_service_default_port, dd_server_default_port, burn_address_devnet, burn_address_testnet,
  burn_address_mainnet,
}
use pastelup.Constants.Ports.{get_sn_port_list, sn_port, p2p_port}
use pastelup.Configurer.{get_super_node_log_file, get_wallet_node_log_file, get_hermes_log_file}
use pastelup.Configs.{Config}
use pastelup.Start.{port_at}

-- The part of a configuration that is about its log.
pub record LogConfig : Type 0 where
  pub log_file_path : Str
  pub log_compress : Bool
  pub log_max_size_mb : ℕ
  pub log_max_age_days : ℕ
  pub log_max_backups : ℕ

-- The levels of the logs of a supernode.
pub record LogLevels : Type 0 where
  pub log_level_common : Str
  pub log_level_p2p : Str
  pub log_level_metadb : Str
  pub log_level_dd : Str

pub record WalletNodeConfig : Type 0 where
  pub log_level : Str
  pub log : LogConfig
  pub wn_temp_dir : Str
  pub wn_work_dir : Str
  pub rq_dir : Str
  pub raptorq_port : ℕ
  pub burn_address : Str
  pub bridge_port : ℕ
  pub bridge_on : Bool

pub record SuperNodeConfig : Type 0 where
  pub log : LogConfig
  pub levels : LogLevels
  pub sn_temp_dir : Str
  pub sn_work_dir : Str
  pub rq_dir : Str
  pub dd_dir : Str
  pub paste_id : Str
  pub passphrase : Str
  pub super_node_port : ℕ
  pub p2p_port_number : ℕ
  pub p2p_data_path : Str
  pub mdl_port : ℕ
  pub raft_port : ℕ
  pub mdl_data_path : Str
  pub raptorq_port : ℕ
  pub dd_server_port : ℕ
  pub number_of_challenge_replicas : ℕ
  pub storage_challenge_expired_duration : Str

pub record HermesConfig : Type 0 where
  pub log : LogConfig
  pub levels : LogLevels
  pub sn_temp_dir : Str
  pub sn_work_dir : Str
  pub dd_dir : Str
  pub pastel_id : Str
  pub passphrase : Str
  pub sn_host : Str
  pub sn_port_number : ℕ

pub record RqServiceConfig : Type 0 where
  pub host_name : Str
  pub port : ℕ

pub record Templates : Type 0 where
  pub wallet_node_text : WalletNodeConfig → Error ⊎ Str
  pub super_node_text : SuperNodeConfig → Error ⊎ Str
  pub hermes_text : HermesConfig → Error ⊎ Str
  pub rq_service_text : RqServiceConfig → Error ⊎ Str

abbrev pub log_of : Str → LogConfig
log_of path = record {
  log_file_path = path;
  log_compress = true;
  log_max_size_mb = 100;
  log_max_age_days = 3;
  log_max_backups = 10;
}

abbrev pub super_node_levels : LogLevels
super_node_levels = record {
  log_level_common = str "info";
  log_level_p2p = str "error";
  log_level_metadb = str "error";
  log_level_dd = str "error";
}

abbrev pub mdl_port_index : ℕ
mdl_port_index = 4

abbrev pub raft_port_index : ℕ
raft_port_index = 5

-- The value that `GetSNConfigs` puts into the template
unfoldable pub super_node_config : Config → SuperNodeConfig
super_node_config config =
    let ports = get_sn_port_list config.network in
    record {
      log = log_of (get_super_node_log_file config.configurer config.working_dir);
      levels = super_node_levels;
      sn_temp_dir = join config.working_dir temp_dir;
      sn_work_dir = config.working_dir;
      rq_dir = join config.working_dir rq_service_dir;
      dd_dir = join config.configurer.home_dir dupe_detection_service_dir;
      paste_id = [];
      passphrase = [];
      super_node_port = port_at ports sn_port;
      p2p_port_number = port_at ports p2p_port;
      p2p_data_path = join config.working_dir p2p_data_dir;
      mdl_port = port_at ports mdl_port_index;
      raft_port = port_at ports raft_port_index;
      mdl_data_path = join config.working_dir mdl_data_dir;
      raptorq_port = rq_service_default_port;
      dd_server_port = dd_server_default_port;
      number_of_challenge_replicas = 1;
      storage_challenge_expired_duration = str "3m";
    }

-- The value that `GetHermesConfigs` puts into the template
unfoldable pub hermes_config : Config → HermesConfig
hermes_config config = record {
  log = log_of (get_hermes_log_file config.configurer config.working_dir);
  levels = super_node_levels;
  sn_temp_dir = join config.working_dir temp_dir;
  sn_work_dir = config.working_dir;
  dd_dir = join config.configurer.home_dir dupe_detection_service_dir;
  pastel_id = [];
  passphrase = [];
  sn_host = str "localhost";
  sn_port_number = port_at (get_sn_port_list config.network) sn_port;
}

-- The burn address of a network
unfoldable pub burn_address_of : Str → Str
burn_address_of network =
    if str_eq network network_testnet
    then burn_address_testnet
    else if str_eq network network_devnet
    then burn_address_devnet
    else if str_eq network network_regtest
    then burn_address_testnet
    else burn_address_mainnet

-- The value of `installWalletNodeService`; the bridge is off.
unfoldable pub wallet_node_config : Config → WalletNodeConfig
unfolding burn_address_of
wallet_node_config config = record {
  log_level = str "info";
  log = log_of (get_wallet_node_log_file config.configurer config.working_dir);
  wn_temp_dir = join config.working_dir temp_dir;
  wn_work_dir = config.working_dir;
  rq_dir = join config.working_dir rq_service_dir;
  raptorq_port = rq_service_default_port;
  burn_address = burn_address_of config.network;
  bridge_port = bridge_service_default_port;
  bridge_on = false;
}
