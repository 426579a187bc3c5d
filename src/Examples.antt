-- ===== src/Examples.antt =====
-- Concrete runs of the theorems: a sample configuration on the sample host.
pub mod Services
pub mod Units
pub mod Distances
pub mod Encoding
pub mod Files
pub mod Nodes
pub mod Folders
pub mod Starts
pub mod Masternodes
pub mod Remotes
pub mod Installs
pub mod Updates
pub mod Removals
use pastelup.Base.{pos, str, true, false, []}
use pastelup.Configurer.{new_linux_configurer}
use pastelup.Configs.{Config}

abbrev pub sample_config : Config
sample_config = record {
  working_dir = str "w";
  network = str "testnet";
  rpc_port = pos 19932;
  rpc_user = str "u";
  rpc_pwd = str "p";
  force = true;
  clean = false;
  pastel_exec_dir = str "x";
  user_pw = [];
  archive_dir = str "a";
  peers = [];
  extra_flags = [];
  op_mode = [];
  inventory_file = [];
  legacy = false;
  reindex = false;
  tx_index = pos 0;
  no_backup = false;
  backup_all = false;
  is_testnet = false;
  is_devnet = false;
  enable_service = true;
  start_service = true;
  service_tool = str "node";
  service_solution = str "walletnode";
  dev_mode = false;
  node_ext_ip = str "1.2.3.4";
  activate_master_node = false;
  master_node_name = str "mn1";
  create_new_master_node_conf = false;
  add_to_master_node_conf = true;
  master_node_port = 19933;
  master_node_rpc_ip = [];
  master_node_rpc_port = 14444;
  master_node_p2p_ip = str "1.2.3.4";
  master_node_p2p_port = 14445;
  remote_ip = [];
  remote_port = pos 22;
  remote_user = [];
  remote_ssh_key = [];
  remote_hot_working_dir = str "r";
  inventory_filter = [];
  async_remote = false;
  version = [];
  skip_system_update = false;
  skip_dd_packages_update = false;
  skip_dd_supporting_files_update = false;
  snapshot_name = [];
  snapshot_type = [];
  regen_rpc = false;
  use_snapshot = false;
  no_cache = false;
  configurer = new_linux_configurer (str "h");
}
