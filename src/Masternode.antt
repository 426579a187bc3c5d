-- ===== src/Masternode.antt =====
-- cmd/init.go and cmd/common.go: the file masternode.conf. `encoding/json` is the parameter
-- `Codec`. A Go map is an association list whose order stands for the order of iteration.
pub mod Address
pub mod RoundTrip
use pastelup.Base.{
  ℕ, Str, str, Bool, true, false, not, List, [], ◌∷◌, ◌++◌, Option, none, some, ◌⊎◌, inl, inr,
  Error, errorf, Out, ok, err, panic, Action, pure, fail, lift, attempt, query, ◌>>=◌, ◌>>◌, str_eq,
  if◌then◌else◌, ◌||◌, ◌&&◌, ◌==◌,
}
use pastelup.Path.{join, join_three}
use pastelup.Constants.{network_regtest, network_testnet, network_devnet}
use pastelup.Configs.{Config}
use pastelup.Host.{Host, Stat, present, not_exist, stat_error}
use pastelup.Prompt.{ask_user_to_continue}
use pastelup.Masternode.Address.{split_on, endpoint}

pub record MasterNodeConf : Type 0 where
  pub mn_address : Str
  pub mn_priv_key : Str
  pub txid : Str
  pub out_index : Str
  pub ext_address : Str
  pub ext_p2p : Str
  pub ext_cfg : Str
  pub ext_key : Str

abbrev pub Conf : Type 0
Conf = List (Str × MasterNodeConf)

-- `json.Marshal` and `json.Unmarshal`
pub record Codec : Type 0 where
  pub marshal : Conf → Error ⊎ Str
  pub unmarshal : Str → Error ⊎ Conf

unfoldable pub lookup : Str → Conf → Option MasterNodeConf
lookup name [] = none
lookup name ((n, c) ∷ conf) = if str_eq n name then some c else lookup name conf

-- `conf[name] = c`
unfoldable pub insert : Str → MasterNodeConf → Conf → Conf
insert name c [] = (name, c) ∷ []
insert name c ((n, d) ∷ conf) = if str_eq n name then (n, c) ∷ conf else (n, d) ∷ insert name c conf

-- `getMasternodeConfPath`
unfoldable pub get_masternode_conf_path : Str → Str → Str → Str
unfolding join_three join
get_masternode_conf_path network dir file =
    if str_eq network network_testnet
    then join_three dir (str "testnet3") file
    else if str_eq network network_regtest
    then join_three dir (str "regtest") file
    else if str_eq network network_devnet
    then join_three dir (str "devnet") file
    else join dir file

-- `fmt.Sprintf(format, s)` for a format with one `%s`
unfoldable pub format_string : Str → Str → Str
format_string [] s = []
format_string (a ∷ []) s = a ∷ []
format_string (a ∷ b ∷ rest) s =
    let later = a ∷ format_string (b ∷ rest) s in
    if a == b'%' && b == b's' then s ++ rest else later

-- The entry that `createOrUpdateMasternodeConf` writes.
unfoldable pub entry_of : Config → Str → Str → Str → Str → MasterNodeConf
entry_of config priv_key tx_id tx_ind pastel_id = record {
  mn_address = endpoint config.node_ext_ip config.master_node_port;
  mn_priv_key = priv_key;
  txid = tx_id;
  out_index = tx_ind;
  ext_address = endpoint config.node_ext_ip config.master_node_rpc_port;
  ext_p2p = endpoint config.master_node_p2p_ip config.master_node_p2p_port;
  ext_cfg = [];
  ext_key = pastel_id;
}

-- The first two parts of an address, by index: fewer than two parts is a run-time panic.
unfoldable pub address_parts : {W : Type 0} → Str → Str → Action W (Str × Str × Str)
address_parts key address w = elim (split_on b':' address) [
  | ip ∷ port ∷ rest ↦ ok (key, ip, port) w
  | _ ↦ panic w
]

module _ {W : Type 0} (host : Host W) (codec : Codec) where
  unfoldable pub backup_master_node_conf_file : Config → Str → Action W (Unit {0})
  backup_master_node_conf_file config path = query (host.stat path) >>= λ st. elim st [
    | present ↦ do
      let pattern =
          get_masternode_conf_path config.network config.working_dir (str "masternode_%s.conf")
      (yes?, line) ← ask_user_to_continue host path
      let go_on = do
        stamp ← query host.time_stamp
        host.rename path (format_string pattern stamp)
        again ← query (host.stat path)
        elim again [ present ↦ host.remove path | _ ↦ pure tt ]
      if yes? then go_on else fail (errorf "masternode.conf already exists")
    | _ ↦ pure tt
  ]

  unfoldable pub write_master_node_conf_file : Config → Conf → Action W (Unit {0})
  write_master_node_conf_file config conf = do
    let path = get_masternode_conf_path config.network config.working_dir (str "masternode.conf")
    bytes ← lift (codec.marshal conf)
    backup_master_node_conf_file config path
    host.write_file path bytes

  unfoldable pub load_masternode_conf_file : Config → Action W Conf
  load_masternode_conf_file config = do
    let path = get_masternode_conf_path config.network config.working_dir (str "masternode.conf")
    bytes ← host.read_file path
    lift (codec.unmarshal bytes)

  -- The map that the new entry goes into: the file's, or an empty one.
  unfoldable pub existing_conf : Config → Action W Conf
  existing_conf config =
      if config.add_to_master_node_conf then load_masternode_conf_file config else pure []

  -- `createOrUpdateMasternodeConf`: the key, the collateral and the Pastel ID are the fields
  -- `MasterNodePrivateKey`, `MasterNodeTxID`, `MasterNodeTxInd` and `MasterNodePastelID`.
  unfoldable pub create_or_update_masternode_conf :
      Config → Str → Str → Str → Str → Action W (Unit {0})
  create_or_update_masternode_conf config priv_key tx_id tx_ind pastel_id =
      if not config.create_new_master_node_conf && not config.add_to_master_node_conf
      then pure tt
      else do
        conf ← existing_conf config
        write_master_node_conf_file config
            (insert config.master_node_name (entry_of config priv_key tx_id tx_ind pastel_id) conf)

  -- The loop of `getMasternodeConfData` over the entries, by external address.
  unfoldable pub find_by_ip : Conf → Str → Action W (Str × Str × Str)
  find_by_ip [] ext_ip = fail (errorf "masternode.conf doesn't have node with name or external IP")
  find_by_ip ((n, c) ∷ conf) ext_ip = do
    found ← address_parts c.mn_priv_key c.mn_address
    let later = find_by_ip conf ext_ip
    if str_eq found.1 ext_ip then pure found else later

  -- `getMasternodeConfData`: the private key, the address and the port
  unfoldable pub get_masternode_conf_data : Config → Str → Str → Action W (Str × Str × Str)
  get_masternode_conf_data config name ext_ip = do
    conf ← load_masternode_conf_file config
    elim (lookup name conf) [
      | some c ↦ address_parts c.mn_priv_key c.mn_address
      | none ↦ find_by_ip conf ext_ip
    ]
