-- ===== src/Constants/Ports.antt =====
-- constants/constants.go: the ports of each network; cmd/common.go: `GetSNPortList`,
-- `getMasternodeConfPath`.
use pastelup.Base.{ℕ, Str, List, [], ◌∷◌, str_eq, if◌then◌else◌}
use pastelup.Constants.{network_regtest, network_testnet, network_devnet}

abbrev pub mainnet_port_list : List ℕ
mainnet_port_list = 9933 ∷ 9932 ∷ 4444 ∷ 4445 ∷ 4446 ∷ 4447 ∷ []

abbrev pub testnet_port_list : List ℕ
testnet_port_list = 19933 ∷ 19932 ∷ 14444 ∷ 14445 ∷ 14446 ∷ 14447 ∷ []

abbrev pub devnet_port_list : List ℕ
devnet_port_list = 29933 ∷ 29932 ∷ 24444 ∷ 24445 ∷ 24446 ∷ 24447 ∷ []

abbrev pub regtest_port_list : List ℕ
regtest_port_list = 18344 ∷ 18343 ∷ 14444 ∷ 14445 ∷ 14446 ∷ 14447 ∷ []

abbrev pub node_port : ℕ
node_port = 0

abbrev pub node_rpc_port : ℕ
node_rpc_port = 1

abbrev pub sn_port : ℕ
sn_port = 2

abbrev pub p2p_port : ℕ
p2p_port = 3

-- `GetSNPortList`, of `config.Network`
unfoldable pub get_sn_port_list : Str → List ℕ
get_sn_port_list network =
    if str_eq network network_testnet
    then testnet_port_list
    else if str_eq network network_regtest
    then regtest_port_list
    else if str_eq network network_devnet
    then devnet_port_list
    else mainnet_port_list
