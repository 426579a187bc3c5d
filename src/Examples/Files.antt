-- ===== src/Examples/Files.antt =====
-- The files masternode.conf and pastel.conf on the sample host.
use pastelup.Base.{
  Str, str, Bool, true, List, [], ◌∷◌, some, inl, inr, ok, state_of, ◌≡◌, refl, sym, ap, ◌∙◌, All,
  decimal, arith, str_eq, str_eq_iff, digits, itoa, has_prefix, trim_prefix, equal_fold, trim_space,
  ◌==◌, ◌&&◌, not, if◌then◌else◌,
}
use pastelup.Path.{join}
use pastelup.Configs.{Config}
use pastelup.Host.Sample.{World, sample_host, empty_world}
use pastelup.Masternode.{
  MasterNodeConf, Conf, lookup, address_parts, backup_master_node_conf_file,
  write_master_node_conf_file, load_masternode_conf_file, existing_conf,
  create_or_update_masternode_conf, get_masternode_conf_data, get_masternode_conf_path,
}
use pastelup.Masternode.Address.{split_on}
use pastelup.Masternode.RoundTrip.{
  StoresFiles, str_eq_refl, get_masternode_conf_data-create_or_update,
  get_masternode_conf_data-other,
}
use pastelup.PastelConf.{
  conf_lines, parse_pastel_conf, update_pastel_config_file, parse_lines, remote_network, parse_bool,
  parse_bool_or_false,
}
use pastelup.PastelConf.Lines.{IsLine}
use pastelup.PastelConf.Networks.{parse_lines-last, parse_lines-remote_network}
use pastelup.PastelConf.RoundTrip.{Agrees, parse_pastel_conf-update_pastel_config_file}
use pastelup.Prompt.{ask_user_to_continue}
use pastelup.Examples.{sample_config}
use pastelup.Examples.Encoding.{sample_codec, sample-Decodes}

read_back :
    (path bytes : Str) (w : World)
    → let u : World = record w { files = λ p. if str_eq path p then some bytes else w.files p } in
      sample_host.read_file path u ≡ ok bytes u
unfolding sample_host
read_back path bytes w = rw (str_eq_refl path, sample_host) refl

sample_store : StoresFiles sample_host
unfolding sample_host
sample_store = record {
  read-write = λ path bytes w v h.
      let same : record w { files = λ p. if str_eq path p then some bytes else w.files p } ≡ v =
        cc in
      ap (λ (u : World). sample_host.read_file path u) (sym same)
      ∙ read_back path bytes w
      ∙ ap (ok bytes) same;
}

-- `is_line s` decides `IsLine s`.
is_line : Str → Bool
is_line [] = true
is_line (c ∷ s) = not (c == b'\n') && not (c == b'\r') && is_line s

is_line_lem : (s : Str) → is_line s ≡ true → IsLine s
unfolding is_line
is_line_lem [] h = tt
is_line_lem (c ∷ s) h = ((ground arith, ground arith), is_line_lem s (ground arith))

are_lines : List Str → Bool
unfolding is_line
are_lines [] = true
are_lines (l ∷ ls) = is_line l && are_lines ls

are_lines_lem : (ls : List Str) → are_lines ls ≡ true → All IsLine ls
unfolding are_lines
are_lines_lem [] h = tt
are_lines_lem (l ∷ ls) h = (is_line_lem l (ground arith), are_lines_lem ls (ground arith))

abbrev new_config : Config
new_config = record sample_config { network = [] }

saved_world : World
unfolding update_pastel_config_file sample_host
saved_world =
    state_of (update_pastel_config_file sample_host (str "w/pastel.conf") sample_config empty_world)

parse_pastel_conf-update_pastel_config_file_example :
    (r : Config) × (parse_pastel_conf sample_host new_config saved_world ≡ ok r saved_world)
    × Agrees r sample_config
unfolding saved_world update_pastel_config_file sample_host are_lines conf_lines join itoa digits
    str_eq split_on
parse_pastel_conf-update_pastel_config_file_example =
    parse_pastel_conf-update_pastel_config_file sample_host sample_store new_config sample_config
      19932 empty_world saved_world refl refl (inr (inl refl)) refl (omega arith)
      (are_lines_lem (conf_lines sample_config) refl) refl refl

abbrev two_networks : List Str
two_networks = str "testnet=1" ∷ str "rpcuser=u" ∷ str "regtest=1" ∷ []

abbrev one_network : List Str
one_network = str "rpcuser=u" ∷ str "devnet=1" ∷ str "regtest=0" ∷ []

parse_lines-last_example : (parse_lines new_config two_networks).network ≡ str "regtest"
unfolding has_prefix trim_prefix parse_bool parse_bool_or_false str_eq
parse_lines-last_example = parse_lines-last two_networks new_config refl

parse_lines-remote_network_example :
    remote_network one_network ≡ inr (parse_lines new_config one_network).network
unfolding has_prefix trim_prefix parse_bool parse_bool_or_false str_eq
parse_lines-remote_network_example =
    parse_lines-remote_network one_network new_config
      (
        (λ hit no. cc, λ hit no. cc, λ hit no. cc),
        (
          (λ hit no. cc, λ hit no. cc, λ hit no. cc),
          ((λ hit no. cc, λ hit no. cc, λ hit no. cc), tt),
        ),
      )
      (omega arith) refl

abbrev old_entry : MasterNodeConf
old_entry = record {
  mn_address = str "9.9.9.9:19933";
  mn_priv_key = str "k0";
  txid = str "t0";
  out_index = str "0";
  ext_address = str "9.9.9.9:14444";
  ext_p2p = str "9.9.9.9:14445";
  ext_cfg = [];
  ext_key = str "id0";
}

abbrev sample_master_conf : Conf
sample_master_conf = (str "mn0", old_entry) ∷ []

-- masternode.conf is there, and another node stands in it.
master_world : World
unfolding sample_host write_master_node_conf_file get_masternode_conf_path
    backup_master_node_conf_file
master_world = state_of (
    write_master_node_conf_file sample_host sample_codec sample_config sample_master_conf
      empty_world)

updated_world : World
unfolding sample_host master_world create_or_update_masternode_conf
updated_world = state_of (
    create_or_update_masternode_conf sample_host sample_codec sample_config (str "k1") (str "t1")
      (str "1") (str "id1") master_world)

get_masternode_conf_data-create_or_update_example :
    get_masternode_conf_data sample_host sample_codec sample_config
      (str "mn1")
      (str "8.8.8.8")
      updated_world
    ≡ ok (str "k1", str "1.2.3.4", decimal 19933) updated_world
unfolding updated_world master_world create_or_update_masternode_conf existing_conf
    load_masternode_conf_file write_master_node_conf_file backup_master_node_conf_file sample_host
    str_eq ask_user_to_continue equal_fold trim_space
get_masternode_conf_data-create_or_update_example =
    get_masternode_conf_data-create_or_update sample_host sample_codec sample_store sample-Decodes
      sample_config (str "k1") (str "t1") (str "1") (str "id1") (str "8.8.8.8") master_world
      updated_world refl (refl, (refl, (refl, (refl, (refl, (refl, (refl, tt))))))) refl

get_masternode_conf_data-other_example :
    get_masternode_conf_data sample_host sample_codec sample_config
      (str "mn0")
      (str "8.8.8.8")
      updated_world
    ≡ address_parts (str "k0") (str "9.9.9.9:19933") updated_world
unfolding updated_world master_world create_or_update_masternode_conf existing_conf
    load_masternode_conf_file write_master_node_conf_file backup_master_node_conf_file sample_host
    lookup str_eq ask_user_to_continue equal_fold trim_space
get_masternode_conf_data-other_example =
    get_masternode_conf_data-other sample_host sample_codec sample_store sample-Decodes
      sample_config (str "k1") (str "t1") (str "1") (str "id1") (str "mn0") (str "8.8.8.8")
      sample_master_conf old_entry master_world master_world updated_world refl refl refl
      (λ same. let clash = (str_eq_iff (str "mn0") (str "mn1")).1 same in cc) refl
