-- ===== src/PastelConf.antt =====
-- The file pastel.conf: `ParsePastelConf` and `getNetworkModeFromRemote` of cmd/common.go read it,
-- `updatePastelConfigFile` of cmd/install.go writes it.
pub mod Lines
pub mod Networks
pub mod RoundTrip
use pastelup.Base.{
  ℕ, ℤ, pos, Str, str, Bool, true, false, List, [], ◌∷◌, ◌++◌, map, Option, none, some, ◌⊎◌, inl,
  inr, Error, os_error, errorf, Action, pure, fail, lift, query, ◌>>=◌, ◌>>◌, str_eq, has_prefix,
  trim_prefix, is_empty, atoi, itoa, if◌then◌else◌, ◌==◌, wrap_error,
}
use pastelup.Path.{join}
use pastelup.Constants.{
  pastel_conf_name, network_mainnet, network_testnet, network_devnet, network_regtest,
}
use pastelup.Configs.{Config}
use pastelup.Host.{Host, Stat, present, not_exist, stat_error}
use pastelup.Masternode.Address.{split_on}
use pastelup.PastelConf.Lines.{scan_lines, unlines}

-- `strconv.ParseBool`: none is its error, and its value is then false.
unfoldable pub parse_bool : Str → Option Bool
parse_bool s =
    if str_eq s (str "1")
    then some true
    else if str_eq s (str "t")
    then some true
    else if str_eq s (str "T")
    then some true
    else if str_eq s (str "true")
    then some true
    else if str_eq s (str "TRUE")
    then some true
    else if str_eq s (str "True")
    then some true
    else if str_eq s (str "0")
    then some false
    else if str_eq s (str "f")
    then some false
    else if str_eq s (str "F")
    then some false
    else if str_eq s (str "false")
    then some false
    else if str_eq s (str "FALSE")
    then some false
    else if str_eq s (str "False")
    then some false
    else none

-- `b, _ := strconv.ParseBool(s)`
unfoldable pub parse_bool_or_false : Str → Bool
parse_bool_or_false s = elim (parse_bool s) [ none ↦ false | some b ↦ b ]

-- `if strings.HasPrefix(line, key) { ... }`
abbrev pub on_key : Str → Str → (Str → Config → Config) → Config → Config
on_key key line f c = if has_prefix line key then f (trim_prefix line key) c else c

abbrev pub set_network : Str → Bool → Config → Config
set_network network on c = if on then record c { network = network } else c

-- The seven tests of the scanner loop.
unfoldable pub read_rpc_user : Str → Config → Config
read_rpc_user line = on_key (str "rpcuser=") line (λ v c. record c { rpc_user = v })

unfoldable pub read_rpc_pwd : Str → Config → Config
read_rpc_pwd line = on_key (str "rpcpassword=") line (λ v c. record c { rpc_pwd = v })

unfoldable pub read_rpc_port : Str → Config → Config
read_rpc_port line = on_key (str "rpcport=") line (λ v c. record c { rpc_port = atoi v })

unfoldable pub read_testnet : Str → Config → Config
read_testnet line = on_key (str "testnet=") line (λ v c.
    set_network network_testnet (parse_bool_or_false v)
      (record c { is_testnet = parse_bool_or_false v }))

unfoldable pub read_devnet : Str → Config → Config
read_devnet line = on_key (str "devnet=") line (λ v c.
    set_network network_devnet (parse_bool_or_false v)
      (record c { is_devnet = parse_bool_or_false v }))

unfoldable pub read_regtest : Str → Config → Config
read_regtest line =
    on_key (str "regtest=") line (λ v c. set_network network_regtest (parse_bool_or_false v) c)

unfoldable pub read_tx_index : Str → Config → Config
read_tx_index line = on_key (str "txindex=") line (λ v c. record c { tx_index = atoi v })

-- The body of the loop, in the code's order.
unfoldable pub apply_line : Config → Str → Config
apply_line c line = read_tx_index line (
    read_regtest line (
      read_devnet line
        (read_testnet line (read_rpc_port line (read_rpc_pwd line (read_rpc_user line c))))))

unfoldable pub apply_lines : Config → List Str → Config
apply_lines c [] = c
apply_lines c (line ∷ lines) = apply_lines (apply_line c line) lines

-- Neither of the networks is set: the main network.
unfoldable pub default_network : Config → Config
default_network c = if is_empty c.network then record c { network = network_mainnet } else c

-- `ParsePastelConf` on the lines of the file
unfoldable pub parse_lines : Config → List Str → Config
parse_lines c lines = default_network (apply_lines c lines)

-- The loop of `getNetworkModeFromRemote`: a value that is no boolean is an error here.
abbrev pub network_line : Str → Str → Str → (Error ⊎ Str) → Error ⊎ Str
network_line key network line later =
    if has_prefix line key
    then (elim (parse_bool (trim_prefix line key)) [
      | none ↦ inl (os_error "invalid syntax")
      | some true ↦ inr network
      | some false ↦ later
    ])
    else later

unfoldable pub remote_network : List Str → Error ⊎ Str
remote_network [] = inr network_mainnet
remote_network (line ∷ lines) = network_line (str "testnet=") network_testnet line (
    network_line (str "devnet=") network_devnet line
      (network_line (str "regtest=") network_regtest line (remote_network lines)))

-- The lines that `updatePastelConfigFile` writes.
unfoldable pub conf_lines : Config → List Str
conf_lines c =
    str "server=1"
    ∷ str "listen=1"
    ∷ []
    ∷ (str "rpcuser=" ++ c.rpc_user)
    ∷ (str "rpcpassword=" ++ c.rpc_pwd)
    ∷ (str "rpcport=" ++ itoa c.rpc_port)
    ∷ str "maxmempool=20000"
    ∷ str "rpcworkqueue=512"
    ∷ ((if str_eq c.network network_testnet then str "testnet=1" ∷ [] else [])
        ++ ((if str_eq c.network network_devnet then str "devnet=1" ∷ [] else [])
            ++ ((if str_eq c.network network_regtest then str "regtest=1" ∷ [] else [])
                ++ ((if is_empty c.peers
                      then []
                      else map (λ node. str "addnode=" ++ node) (split_on b',' c.peers))
                    ++ (if is_empty c.extra_flags then [] else split_on b',' c.extra_flags)))))

module _ {W : Type 0} (host : Host W) where
  -- `ParsePastelConf`
  unfoldable pub parse_pastel_conf : Config → Action W Config
  parse_pastel_conf config = do
    let path = join config.working_dir pastel_conf_name
    st ← query (host.stat path)
    elim st [
      | not_exist ↦ fail (os_error "file does not exist")
      | stat_error e ↦ fail e
      | present ↦ do bytes ← host.read_file path; pure (parse_lines config (scan_lines bytes))
    ]

  -- `getNetworkModeFromRemote`
  unfoldable pub get_network_mode_from_remote : Str → Action W Str
  get_network_mode_from_remote path = do
    bytes ← host.read_file path
    lift (remote_network (scan_lines bytes))

  -- `updatePastelConfigFile`
  unfoldable pub update_pastel_config_file : Str → Config → Action W (Unit {0})
  update_pastel_config_file path config =
      wrap_error "failed to save file changes" (host.write_file path (unlines (conf_lines config)))
