-- ===== src/Constants/Execs.antt =====
-- constants/constants.go: executable and archive names by operating system. A missing key of a
-- Go map reads as the empty string.
use pastelup.Base.{Str, str, []}
use pastelup.Constants.{
  OsType, windows, linux, mac, unknown, ToolType, pastel_up, wallet_node, super_node, pasteld,
  rq_service, hermes, bridge,
}

unfoldable pub pastelup_name : OsType → Str
pastelup_name windows = str "pastelup-win-amd64.exe"
pastelup_name linux = str "pastelup-linux-amd64"
pastelup_name mac = str "pastelup-darwin-amd64"
pastelup_name unknown = []

unfoldable pub pasteld_name : OsType → Str
pasteld_name windows = str "pasteld.exe"
pasteld_name linux = str "pasteld"
pasteld_name mac = str "pasteld"
pasteld_name unknown = []

unfoldable pub pastel_cli_name : OsType → Str
pastel_cli_name windows = str "pastel-cli.exe"
pastel_cli_name linux = str "pastel-cli"
pastel_cli_name mac = str "pastel-cli"
pastel_cli_name unknown = []

unfoldable pub wallet_node_exec_name : OsType → Str
wallet_node_exec_name windows = str "walletnode-win-amd64.exe"
wallet_node_exec_name linux = str "walletnode-linux-amd64"
wallet_node_exec_name mac = str "walletnode-darwin-amd64"
wallet_node_exec_name unknown = []

unfoldable pub super_node_exec_name : OsType → Str
super_node_exec_name linux = str "supernode-linux-amd64"
super_node_exec_name _ = []

unfoldable pub pastelup_exec_name : OsType → Str
pastelup_exec_name windows = str "pastelup-win-amd64.exe"
pastelup_exec_name linux = str "pastelup-linux-amd64"
pastelup_exec_name mac = str "pastelup-darwin-amd64"
pastelup_exec_name unknown = []

unfoldable pub hermes_exec_name : OsType → Str
hermes_exec_name linux = str "hermes-linux-amd64"
hermes_exec_name _ = []

unfoldable pub bridge_exec_name : OsType → Str
bridge_exec_name windows = str "bridge-win-amd64.exe"
bridge_exec_name linux = str "bridge-linux-amd64"
bridge_exec_name mac = str "bridge-darwin-amd64"
bridge_exec_name unknown = []

unfoldable pub pastel_exec_archive_name : OsType → Str
pastel_exec_archive_name windows = str "pastel-win-amd64.zip"
pastel_exec_archive_name linux = str "pastel-linux-amd64.zip"
pastel_exec_archive_name mac = str "pastel-darwin-amd64.zip"
pastel_exec_archive_name unknown = []

unfoldable pub rq_service_exec_name : OsType → Str
rq_service_exec_name windows = str "rq-service-win-amd64.exe"
rq_service_exec_name linux = str "rq-service-linux-amd64"
rq_service_exec_name mac = str "rq-service-darwin-amd64"
rq_service_exec_name unknown = []

-- `ServiceName[tool][os]`: the tools with no entry have the empty name.
unfoldable pub service_name : ToolType → OsType → Str
unfolding pastelup_name pasteld_name wallet_node_exec_name super_node_exec_name hermes_exec_name
    bridge_exec_name rq_service_exec_name
service_name pasteld = pasteld_name
service_name wallet_node = wallet_node_exec_name
service_name super_node = super_node_exec_name
service_name bridge = bridge_exec_name
service_name hermes = hermes_exec_name
service_name rq_service = rq_service_exec_name
service_name pastel_up = pastelup_name
service_name _ = λ os. []
