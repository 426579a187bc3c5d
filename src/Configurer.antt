-- ===== src/Configurer.antt =====
-- configurer/configurer.go: default names and places of the program's files, and the download
-- addresses. `url.Parse` is a parameter of the addresses: it may refuse a text.
use pastelup.Base.{
  Str, str, Option, none, some, [], ◌∷◌, ◌++◌, Error, errorf, wrapf, ◌==◌, if◌then◌else◌, ◌⊎◌, inl,
  inr,
}
use pastelup.Path.{join, join_three}
use pastelup.Constants.{
  OsType, windows, linux, mac, unknown, ToolType, pastel_up, wallet_node, super_node, go_node,
  pasteld, dd_service, rq_service, hermes, bridge, tool_string, download_base_url,
  dupe_detection_archive_name, get_version_sub_url,
}
use pastelup.Constants.Execs.{
  pastelup_exec_name, wallet_node_exec_name, super_node_exec_name, hermes_exec_name,
  bridge_exec_name, pastel_exec_archive_name, rq_service_exec_name,
}

pub record Configurer : Type 0 where
  pub working_dir : Str
  pub super_node_log_file : Str
  pub wallet_node_log_file : Str
  pub super_node_conf_file : Str
  pub hermes_conf_file : Str
  pub hermes_log_file : Str
  pub bridge_log_file : Str
  pub bridge_conf_file : Str
  pub wallet_node_conf_file : Str
  pub rq_service_conf_file : Str
  pub zksnark_dir : Str
  pub pastel_executable_dir : Str
  pub home_dir : Str
  pub archive_dir : Str
  pub os_type : OsType

-- `getAppDir`, `getAppDataDir`, without a slash at the end, which `Join` drops.
unfoldable pub get_app_dir : OsType → Str
get_app_dir windows = str "AppData\\Roaming"
get_app_dir mac = str "Applications"
get_app_dir _ = []

unfoldable pub get_app_data_dir : OsType → Str
get_app_data_dir windows = str "AppData\\Roaming"
get_app_data_dir mac = str "Library/Application Support"
get_app_data_dir _ = []

unfoldable pub default_working_dir : Configurer → Str
default_working_dir c = join_three c.home_dir (get_app_data_dir c.os_type) c.working_dir

unfoldable pub default_zksnark_dir : Configurer → Str
default_zksnark_dir c = join_three c.home_dir (get_app_data_dir c.os_type) c.zksnark_dir

unfoldable pub default_pastel_executable_dir : Configurer → Str
default_pastel_executable_dir c =
    join_three c.home_dir (get_app_dir c.os_type) c.pastel_executable_dir

unfoldable pub default_archive_dir : Configurer → Str
default_archive_dir c = join_three c.home_dir (get_app_data_dir c.os_type) c.archive_dir

unfoldable pub get_super_node_conf_file : Configurer → Str → Str
unfolding join
get_super_node_conf_file c dir = join dir c.super_node_conf_file

unfoldable pub get_hermes_conf_file : Configurer → Str → Str
unfolding join
get_hermes_conf_file c dir = join dir c.hermes_conf_file

unfoldable pub get_bridge_conf_file : Configurer → Str → Str
unfolding join
get_bridge_conf_file c dir = join dir c.bridge_conf_file

unfoldable pub get_wallet_node_conf_file : Configurer → Str → Str
unfolding join
get_wallet_node_conf_file c dir = join dir c.wallet_node_conf_file

unfoldable pub get_rq_service_conf_file : Configurer → Str → Str
unfolding join
get_rq_service_conf_file c dir = join dir c.rq_service_conf_file

unfoldable pub get_super_node_log_file : Configurer → Str → Str
get_super_node_log_file c dir = join dir c.super_node_log_file

unfoldable pub get_wallet_node_log_file : Configurer → Str → Str
get_wallet_node_log_file c dir = join dir c.wallet_node_log_file

unfoldable pub get_hermes_log_file : Configurer → Str → Str
get_hermes_log_file c dir = join dir c.hermes_log_file

abbrev common : Str → OsType → Configurer
common home os = record {
  working_dir = str "Pastel";
  super_node_log_file = str "supernode.log";
  wallet_node_log_file = str "walletnode.log";
  super_node_conf_file = str "supernode.yml";
  hermes_conf_file = str "hermes.yml";
  hermes_log_file = [];
  bridge_log_file = [];
  bridge_conf_file = str "bridge.yml";
  wallet_node_conf_file = str "walletnode.yml";
  rq_service_conf_file = str "rqservice.toml";
  zksnark_dir = str "PastelParams";
  pastel_executable_dir = str "PastelWallet";
  home_dir = home;
  archive_dir = str "PastelArchives";
  os_type = os;
}

unfoldable pub new_linux_configurer : Str → Configurer
new_linux_configurer home = record {
  working_dir = str ".pastel";
  super_node_log_file = str "supernode.log";
  wallet_node_log_file = str "walletnode.log";
  super_node_conf_file = str "supernode.yml";
  hermes_conf_file = str "hermes.yml";
  hermes_log_file = str "hermes.log";
  bridge_log_file = str "bridge.log";
  bridge_conf_file = str "bridge.yml";
  wallet_node_conf_file = str "walletnode.yml";
  rq_service_conf_file = str "rqservice.toml";
  zksnark_dir = str ".pastel-params";
  pastel_executable_dir = str "pastel";
  home_dir = home;
  archive_dir = str ".pastel_archives";
  os_type = linux;
}

-- `newDarwinConfigurer` and `newWindowsConfigurer` differ in the operating system alone.
unfoldable pub new_darwin_configurer : Str → Configurer
new_darwin_configurer home = common home mac

unfoldable pub new_windows_configurer : Str → Configurer
new_windows_configurer home = common home windows

-- `NewConfigurer`, of the result of `os.UserHomeDir`
unfoldable pub new_configurer : Error ⊎ Str → OsType → Error ⊎ Configurer
unfolding new_linux_configurer new_darwin_configurer new_windows_configurer
new_configurer (inl e) os = inl (wrapf "failed to get user home dir" e)
new_configurer (inr home) linux = inr (new_linux_configurer home)
new_configurer (inr home) mac = inr (new_darwin_configurer home)
new_configurer (inr home) windows = inr (new_windows_configurer home)
new_configurer (inr home) unknown = inl (errorf "unknown os")

-- The `switch` of `GetDownloadURL`: the file's name, and the folder's tool.
unfoldable pub download_of : OsType → ToolType → Option (Str × ToolType)
unfolding pastelup_exec_name wallet_node_exec_name super_node_exec_name hermes_exec_name
    bridge_exec_name pastel_exec_archive_name rq_service_exec_name
download_of os wallet_node = some (wallet_node_exec_name os, go_node)
download_of os rq_service = some (rq_service_exec_name os, rq_service)
download_of os pasteld = some (pastel_exec_archive_name os, pasteld)
download_of os super_node = some (super_node_exec_name os, go_node)
download_of os dd_service = some (dupe_detection_archive_name, dd_service)
download_of os pastel_up = some (pastelup_exec_name os, pastel_up)
download_of os hermes = some (hermes_exec_name os, go_node)
download_of os bridge = some (bridge_exec_name os, go_node)
download_of _ _ = none

-- `templateDownloadURL`
unfoldable pub download_url : Str → Str → Str → Str
download_url version tool name =
    download_base_url ++ (str "/" ++ (version ++ (str "/" ++ (tool ++ (str "/" ++ name)))))

-- `tokens[len(tokens)-1]` for the tokens between slashes
after_last_slash : Str → Str → Str
after_last_slash token [] = token
after_last_slash token (c ∷ s) = after_last_slash (if c == b'/' then [] else token ++ c ∷ []) s

-- `GetDownloadURL`. `parse` is `url.Parse`: an error, or the address.
unfoldable pub get_download_url :
    {Url : Type 0} → (Str → Error ⊎ Url) → Configurer → Str → Str → ToolType → Error ⊎ (Url × Str)
unfolding download_of download_url after_last_slash tool_string get_version_sub_url
get_download_url parse c network version tool = elim (download_of c.os_type tool) [
  | none ↦ inl (errorf "unknown tool")
  | some (name, folder) ↦
      let url = download_url (get_version_sub_url network version) (tool_string folder) name in
      elim (parse url) [
        | inl e ↦ inl (wrapf "failed to parse url" e)
        | inr u ↦ inr (u, after_last_slash [] url)
      ]
]
