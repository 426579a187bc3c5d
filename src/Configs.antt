-- ===== src/Configs.antt =====
-- configs/init.go, configs/config.go: the configuration that every command reads and changes. A Go
-- command writes through a pointer to it; here an operation that does returns the new record.
-- The fields are those that the modelled commands use.
use pastelup.Base.{ℕ, ℤ, Str, Bool}
use pastelup.Configurer.{Configurer}

pub record Config : Type 0 where
  pub working_dir : Str
  pub network : Str
  pub rpc_port : ℤ
  pub rpc_user : Str
  pub rpc_pwd : Str
  pub force : Bool
  pub clean : Bool
  pub pastel_exec_dir : Str
  pub user_pw : Str
  pub archive_dir : Str
  pub peers : Str
  pub extra_flags : Str
  pub op_mode : Str
  pub inventory_file : Str
  pub legacy : Bool
  pub reindex : Bool
  pub tx_index : ℤ
  pub no_backup : Bool
  pub backup_all : Bool
  pub is_testnet : Bool
  pub is_devnet : Bool
  pub enable_service : Bool
  pub start_service : Bool
  pub service_tool : Str
  pub service_solution : Str
  pub dev_mode : Bool
  pub node_ext_ip : Str
  pub activate_master_node : Bool
  pub master_node_name : Str
  pub create_new_master_node_conf : Bool
  pub add_to_master_node_conf : Bool
  pub master_node_port : ℕ
  pub master_node_rpc_ip : Str
  pub master_node_rpc_port : ℕ
  pub master_node_p2p_ip : Str
  pub master_node_p2p_port : ℕ
  pub remote_ip : Str
  pub remote_port : ℤ
  pub remote_user : Str
  pub remote_ssh_key : Str
  pub remote_hot_working_dir : Str
  pub inventory_filter : Str
  pub async_remote : Bool
  pub version : Str
  pub skip_system_update : Bool
  pub skip_dd_packages_update : Bool
  pub skip_dd_supporting_files_update : Bool
  pub snapshot_name : Str
  pub snapshot_type : Str
  pub regen_rpc : Bool
  pub use_snapshot : Bool
  pub no_cache : Bool
  pub configurer : Configurer
