-- ===== src/Install/Frame.antt =====
-- What the preparation of an installation keeps of the configuration: the directory of the
-- programs, the configurer, the mode, and the flag for the snapshot.
use pastelup.Base.{
  Str, str, atoi, Bool, true, false, ◌||◌, List, [], ◌∷◌, if◌then◌else◌, has_prefix, trim_prefix,
  is_empty, ◌≡◌, refl, ◌∙◌,
}
use pastelup.Configurer.{Configurer}
use pastelup.Configs.{Config}
use pastelup.PastelConf.{
  on_key, set_network, read_rpc_user, read_rpc_pwd, read_rpc_port, read_testnet, read_devnet,
  read_regtest, read_tx_index, apply_line, apply_lines, default_network, parse_lines,
  parse_bool_or_false,
}
use pastelup.Constants.{network_testnet, network_devnet, network_regtest}
use pastelup.Constants.{OsType}
use pastelup.Host.{Host}
use pastelup.Disk.{Disk}
use pastelup.Install.{
  is_no_port, default_rpc_port, default_rpc_user, default_rpc_pwd, get_default_rpc_parameters,
}

abbrev pub frame : Config → Str × Configurer × Str × Bool
frame c = (c.pastel_exec_dir, c.configurer, c.op_mode, c.use_snapshot)

frame-if : (b : Bool) (c d : Config) → frame c ≡ frame d → frame (if b then c else d) ≡ frame d
frame-if true c d h = h
frame-if false c d h = refl

frame-on_key :
    (key line : Str) (f : Str → Config → Config) (c : Config)
    → ((v : Str) → frame (f v c) ≡ frame c)
    → frame (on_key key line f c) ≡ frame c
frame-on_key key line f c h = frame-if (has_prefix line key) _ c (h (trim_prefix line key))

frame-set_network :
    (network : Str) (on : Bool) (c : Config) → frame (set_network network on c) ≡ frame c
frame-set_network network on c = frame-if on (record c { network = network }) c refl

frame-read_rpc_user : (line : Str) (c : Config) → frame (read_rpc_user line c) ≡ frame c
unfolding read_rpc_user
frame-read_rpc_user line c =
    frame-on_key (str "rpcuser=") line (λ v d. record d { rpc_user = v }) c (λ v. refl)

frame-read_rpc_pwd : (line : Str) (c : Config) → frame (read_rpc_pwd line c) ≡ frame c
unfolding read_rpc_pwd
frame-read_rpc_pwd line c =
    frame-on_key (str "rpcpassword=") line (λ v d. record d { rpc_pwd = v }) c (λ v. refl)

frame-read_rpc_port : (line : Str) (c : Config) → frame (read_rpc_port line c) ≡ frame c
unfolding read_rpc_port
frame-read_rpc_port line c =
    frame-on_key (str "rpcport=") line (λ v d. record d { rpc_port = atoi v }) c (λ v. refl)

frame-read_tx_index : (line : Str) (c : Config) → frame (read_tx_index line c) ≡ frame c
unfolding read_tx_index
frame-read_tx_index line c =
    frame-on_key (str "txindex=") line (λ v d. record d { tx_index = atoi v }) c (λ v. refl)

frame-read_testnet : (line : Str) (c : Config) → frame (read_testnet line c) ≡ frame c
unfolding read_testnet
frame-read_testnet line c =
    frame-on_key (str "testnet=") line
      (λ v d.
        set_network network_testnet (parse_bool_or_false v)
          (record d { is_testnet = parse_bool_or_false v }))
      c
      (λ v.
        frame-set_network network_testnet (parse_bool_or_false v)
          (record c { is_testnet = parse_bool_or_false v }))

frame-read_devnet : (line : Str) (c : Config) → frame (read_devnet line c) ≡ frame c
unfolding read_devnet
frame-read_devnet line c =
    frame-on_key (str "devnet=") line
      (λ v d.
        set_network network_devnet (parse_bool_or_false v)
          (record d { is_devnet = parse_bool_or_false v }))
      c
      (λ v.
        frame-set_network network_devnet (parse_bool_or_false v)
          (record c { is_devnet = parse_bool_or_false v }))

frame-read_regtest : (line : Str) (c : Config) → frame (read_regtest line c) ≡ frame c
unfolding read_regtest
frame-read_regtest line c =
    frame-on_key (str "regtest=") line
      (λ v d. set_network network_regtest (parse_bool_or_false v) d) c
      (λ v. frame-set_network network_regtest (parse_bool_or_false v) c)

frame-apply_line : (c : Config) (line : Str) → frame (apply_line c line) ≡ frame c
unfolding apply_line
frame-apply_line c line =
    let user = read_rpc_user line c in
    let pwd = read_rpc_pwd line user in
    let port = read_rpc_port line pwd in
    let testnet = read_testnet line port in
    let devnet = read_devnet line testnet in
    frame-read_tx_index line (read_regtest line devnet)
    ∙ frame-read_regtest line devnet
    ∙ frame-read_devnet line testnet
    ∙ frame-read_testnet line port
    ∙ frame-read_rpc_port line pwd
    ∙ frame-read_rpc_pwd line user
    ∙ frame-read_rpc_user line c

frame-apply_lines : (c : Config) (lines : List Str) → frame (apply_lines c lines) ≡ frame c
unfolding apply_lines
frame-apply_lines c [] = refl
frame-apply_lines c (line ∷ lines) =
    frame-apply_lines (apply_line c line) lines ∙ frame-apply_line c line

pub frame-parse_lines : (c : Config) (lines : List Str) → frame (parse_lines c lines) ≡ frame c
unfolding parse_lines default_network
frame-parse_lines c lines =
    frame-if (is_empty (apply_lines c lines).network) _ (apply_lines c lines) refl
    ∙ frame-apply_lines c lines

module _ {W : Type 0} (host : Host W) (disk : Disk W) (os : OsType) where
  frame-if_pair :
      (b : Bool) (x y : Config × W) (c : Config)
      → frame x.0 ≡ frame c
      → frame y.0 ≡ frame c
      → frame (if b then x else y).0 ≡ frame c
  frame-if_pair true x y c hx hy = hx
  frame-if_pair false x y c hx hy = hy

  frame-default_rpc_port :
      (config : Config) → frame (default_rpc_port host disk os config) ≡ frame config
  unfolding default_rpc_port
  frame-default_rpc_port config =
      frame-if (is_no_port config.rpc_port || config.regen_rpc) _ config refl

  frame-default_rpc_user :
      (config : Config) (w : W) → frame (default_rpc_user host disk os config w).0 ≡ frame config
  unfolding default_rpc_user
  frame-default_rpc_user config w =
      frame-if_pair (is_empty config.rpc_user || config.regen_rpc) _ _ config refl refl

  frame-default_rpc_pwd :
      (config : Config) (w : W) → frame (default_rpc_pwd host disk os config w).0 ≡ frame config
  unfolding default_rpc_pwd
  frame-default_rpc_pwd config w =
      frame-if_pair (is_empty config.rpc_pwd || config.regen_rpc) _ _ config refl refl

  pub frame-get_default_rpc_parameters :
      (config : Config) (w : W)
      → frame (get_default_rpc_parameters host disk os config w).0 ≡ frame config
  unfolding get_default_rpc_parameters
  frame-get_default_rpc_parameters config w =
      let ported = default_rpc_port host disk os config in
      let named = default_rpc_user host disk os ported w in
      frame-default_rpc_pwd named.0 named.1
      ∙ frame-default_rpc_user ported w
      ∙ frame-default_rpc_port config
