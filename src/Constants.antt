-- ===== src/Constants.antt =====
-- constants/constants.go: tool and operating system types, the tables of executable names, the
-- networks and their ports, and the version part of a download address.
pub mod Execs
pub mod Ports
pub mod Packages
use pastelup.Base.{Str, str, ◌++◌, str_eq, is_empty, if◌then◌else◌}

-- `OSType`: the constants are all the values that `GetOS` returns.
pub data OsType : Type 0 where
  windows linux mac unknown : OsType

-- `ToolType` is a string type: `other` stands for a string that is none of the constants.
pub data ToolType : Type 0 where
  pastel_up wallet_node super_node go_node pasteld dd_service : ToolType
  rq_service hermes bridge dd_img_service : ToolType
  other : Str → ToolType

unfoldable pub tool_string : ToolType → Str
tool_string pastel_up = str "pastelup"
tool_string wallet_node = str "walletnode"
tool_string super_node = str "supernode"
tool_string go_node = str "gonode"
tool_string pasteld = str "pasteld"
tool_string dd_service = str "dd-service"
tool_string rq_service = str "rq-service"
tool_string hermes = str "hermes"
tool_string bridge = str "bridge"
tool_string dd_img_service = str "dd-img-server"
tool_string (other s) = s

abbrev pub download_base_url : Str
download_base_url = str "https://download.pastel.network"

abbrev pub remote_pastelup_path : Str
remote_pastelup_path = str "/tmp/pastelup"

abbrev pub pastel_conf_name : Str
pastel_conf_name = str "pastel.conf"

abbrev pub systemd_service_prefix : Str
systemd_service_prefix = str "pastel-"

abbrev pub systemd_system_dir : Str
systemd_system_dir = str "/etc/systemd/system"

abbrev pub dupe_detection_archive_name : Str
dupe_detection_archive_name = str "dupe-detection-server.zip"

abbrev pub dupe_detection_sub_folder : Str
dupe_detection_sub_folder = str "dd-service"

abbrev pub dupe_detection_config_filename : Str
dupe_detection_config_filename = str "config.ini"

abbrev pub dupe_detection_exec_file_name : Str
dupe_detection_exec_file_name = str "dupe_detection_server.py"

abbrev pub dupe_detection_service_dir : Str
dupe_detection_service_dir = str "pastel_dupe_detection_service"

abbrev pub dupe_detection_support_file_path : Str
dupe_detection_support_file_path = str "support_files"

abbrev pub network_regtest : Str
network_regtest = str "regtest"

abbrev pub network_testnet : Str
network_testnet = str "testnet"

abbrev pub network_devnet : Str
network_devnet = str "devnet"

abbrev pub network_mainnet : Str
network_mainnet = str "mainnet"

-- `GetVersionSubURL`
unfoldable pub get_version_sub_url : Str → Str → Str
get_version_sub_url network version =
    if is_empty version
    then (if is_empty network then str "latest-release" else str "latest-release/" ++ network)
    else str "other/archive/" ++ (network ++ (str "/" ++ version))
