-- ===== src/PastelConf/RoundTrip.antt =====
-- The file that `updatePastelConfigFile` writes, read back by `ParsePastelConf`.
use mathlib.Core.List.{append-nil}
use pastelup.Base.{
  Bool-cases, ℕ, ◌<◌, ◌^◌, pos, Str, str, Bool, true, List, [], ◌∷◌, ◌++◌, map, ◌⊎◌, inl, inr, ok,
  ◌≡◌, refl, sym, All, atoi, itoa, atoi-decimal, is_empty, if◌then◌else◌, ◌>>=◌, wrap_error-eq-ok,
  has_prefix, trim_prefix, str_eq,
}
use pastelup.Path.{join}
use pastelup.Constants.{
  pastel_conf_name, network_mainnet, network_testnet, network_devnet, network_regtest,
}
use pastelup.Configs.{Config}
use pastelup.Host.{Host, present}
use pastelup.Masternode.Address.{split_on}
use pastelup.Masternode.RoundTrip.{StoresFiles}
use pastelup.PastelConf.Lines.{IsLine, unlines, scan_lines-unlines}
use pastelup.PastelConf.{
  read_rpc_user, read_rpc_pwd, read_rpc_port, read_testnet, read_devnet, read_regtest,
  read_tx_index, parse_bool, parse_bool_or_false, apply_line, apply_lines, default_network,
  parse_lines, conf_lines, parse_pastel_conf, update_pastel_config_file,
}

-- One of the four networks that the program knows.
abbrev pub IsNetwork : Str → Type 0
IsNetwork n =
    (n ≡ network_mainnet) ⊎ (n ≡ network_testnet) ⊎ (n ≡ network_devnet) ⊎ (n ≡ network_regtest)

-- What the file keeps of the configuration.
abbrev pub Agrees : Config → Config → Type 0
Agrees r c =
    (r.rpc_user ≡ c.rpc_user)
    × (r.rpc_pwd ≡ c.rpc_pwd)
    × (r.rpc_port ≡ c.rpc_port)
    × (r.network ≡ c.network)

apply_lines-nodes :
    (c : Config) (nodes : List Str) → apply_lines c (map (λ node. str "addnode=" ++ node) nodes) ≡ c
unfolding apply_lines apply_line read_rpc_user read_rpc_pwd read_rpc_port read_testnet read_devnet
    read_regtest read_tx_index has_prefix
apply_lines-nodes c [] = refl
apply_lines-nodes c (node ∷ nodes) = apply_lines-nodes c nodes

tail_lines : Config → List Str
tail_lines c =
    (if is_empty c.peers then [] else map (λ node. str "addnode=" ++ node) (split_on b',' c.peers))
    ++ (if is_empty c.extra_flags then [] else split_on b',' c.extra_flags)

apply_lines-tail : (x c : Config) → c.extra_flags ≡ [] → apply_lines x (tail_lines c) ≡ x
unfolding tail_lines apply_lines
apply_lines-tail x c flags = elim (Bool-cases (is_empty c.peers)) [
  | inl none_given ↦ rw (none_given, flags, apply_lines) refl
  | inr given ↦ rw (given, flags, append-nil) (apply_lines-nodes x (split_on b',' c.peers))
]

-- The configuration behind the lines in front of the peers.
abbrev header : Config → Config → Str → Bool → Bool → Config
header start c network testnet devnet = record start {
  rpc_user = c.rpc_user;
  rpc_pwd = c.rpc_pwd;
  rpc_port = atoi (itoa c.rpc_port);
  network = network;
  is_testnet = testnet;
  is_devnet = devnet;
}

-- The configuration that is read, by the network of the one that was written.
abbrev Reads : Config → Config → Type 0
Reads start c =
    (network : Str) × (testnet : Bool) × (devnet : Bool) × (parse_lines start (conf_lines c)
      ≡ header start c network testnet devnet)
    × (network ≡ c.network)

parse_lines-conf_lines :
    (start c : Config)
    → start.network ≡ []
    → c.extra_flags ≡ []
    → IsNetwork c.network
    → Reads start c
unfolding apply_lines apply_line read_rpc_user read_rpc_pwd read_rpc_port read_testnet read_devnet
    read_regtest read_tx_index has_prefix trim_prefix conf_lines tail_lines parse_lines
    default_network parse_bool_or_false parse_bool str_eq
parse_lines-conf_lines start c none_chosen flags known = elim known [
  | inr (inl n) ↦
      (network_testnet, true, start.is_devnet, rw (n, apply_lines-tail _ c flags) refl, sym n)
  | inr (inr (inl n)) ↦
      (network_devnet, start.is_testnet, true, rw (n, apply_lines-tail _ c flags) refl, sym n)
  | inr (inr (inr n)) ↦ (
    network_regtest,
    start.is_testnet,
    start.is_devnet,
    rw (n, apply_lines-tail _ c flags) refl,
    sym n,
  )
  | inl n ↦ (
    network_mainnet,
    start.is_testnet,
    start.is_devnet,
    rw (n, apply_lines-tail _ c flags, none_chosen) refl,
    sym n,
  )
]

agrees :
    (start c : Config) (p : ℕ)
    → Reads start c
    → c.rpc_port ≡ pos p
    → p < 2 ^ 63
    → Agrees (parse_lines start (conf_lines c)) c
unfolding itoa
agrees start c p (network, testnet, devnet, read, same) port small =
    rw read (refl, refl, rw port (atoi-decimal p small), same)

module _ {W : Type 0} (host : Host W) (store : StoresFiles host) where
  -- If `updatePastelConfigFile` succeeds on the file pastel.conf of the working directory, then
  -- `ParsePastelConf`, called with no network chosen, succeeds and reads the RPC user, the password,
  -- the port and the network that were written. The conditions: no extra flags, one of the four
  -- networks, a port in the range of `int` that is not negative, no line feed or carriage return in a line, `os.Stat`
  -- finds the file, and files that are written read back.
  pub parse_pastel_conf-update_pastel_config_file :
      (start c : Config) (p : ℕ) (w v : W)
      → start.network ≡ []
      → c.extra_flags ≡ []
      → IsNetwork c.network
      → c.rpc_port ≡ pos p
      → p < 2 ^ 63
      → All IsLine (conf_lines c)
      → host.stat (join start.working_dir pastel_conf_name) v ≡ present
      → update_pastel_config_file host (join start.working_dir pastel_conf_name) c w ≡ ok tt v
      → (r : Config) × (parse_pastel_conf host start v ≡ ok r v) × Agrees r c
  unfolding update_pastel_config_file parse_pastel_conf
  parse_pastel_conf-update_pastel_config_file start c p w v none_chosen flags known port small lines
        there h =
      let path = join start.working_dir pastel_conf_name in
      let wrote = wrap_error-eq-ok _ (host.write_file path (unlines (conf_lines c))) w h in
      let read = store.read-write path (unlines (conf_lines c)) w v wrote in
      (
        parse_lines start (conf_lines c),
        rw (there, read, ◌>>=◌, scan_lines-unlines (conf_lines c) lines) refl,
        agrees start c p (parse_lines-conf_lines start c none_chosen flags known) port small,
      )
