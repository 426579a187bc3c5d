-- ===== src/PastelConf/Networks/Lines.antt =====
-- What one line of pastel.conf says of the network, and what reading it does to the network.
use pastelup.Base.{
  Str, str, Bool, true, false, ◌&&◌, List, [], ◌∷◌, none, inl, inr, atoi, has_prefix, trim_prefix,
  if◌then◌else◌, ◌≡◌, ◌≢◌, refl, sym, ap, ◌∙◌, arith, Bool-cases, All,
}
use pastelup.Constants.{network_testnet, network_devnet, network_regtest}
use pastelup.Configs.{Config}
use pastelup.PastelConf.{
  read_rpc_user, read_rpc_pwd, read_rpc_port, read_testnet, read_devnet, read_regtest,
  read_tx_index, parse_bool, parse_bool_or_false, on_key, set_network, apply_line, apply_lines,
}

-- A line switches a network on.
abbrev pub switches : Str → Str → Bool
switches key line = has_prefix line key && parse_bool_or_false (trim_prefix line key)

-- The networks that the lines switch on, in their order.
abbrev pub networks : List Str → List Str
networks [] = []
networks (line ∷ lines) =
    let rest = networks lines in
    if switches (str "testnet=") line
    then network_testnet ∷ rest
    else if switches (str "devnet=") line
    then network_devnet ∷ rest
    else if switches (str "regtest=") line
    then network_regtest ∷ rest
    else rest

abbrev pub first_or : Str → List Str → Str
first_or d [] = d
first_or d (n ∷ ns) = n

abbrev pub last_or : Str → List Str → Str
last_or d [] = d
last_or d (n ∷ ns) = last_or n ns

-- Each network line has a value that `ParseBool` accepts.
abbrev pub HasBool : Str → Str → Type 0
HasBool key line = has_prefix line key ≡ true → parse_bool (trim_prefix line key) ≢ none

abbrev pub IsReadable : List Str → Type 0
IsReadable = All (λ line.
    HasBool (str "testnet=") line × HasBool (str "devnet=") line × HasBool (str "regtest=") line)

-- No line starts with two of the keys.
one_key :
    (line : Str)
    → (has_prefix line (str "testnet=") ≡ true
        → (has_prefix line (str "devnet=") ≡ false) × (has_prefix line (str "regtest=") ≡ false))
      × (has_prefix line (str "devnet=") ≡ true → has_prefix line (str "regtest=") ≡ false)
unfolding has_prefix
one_key [] = ground arith
one_key (c ∷ line) = ground arith

on_key-network :
    (key line : Str) (f : Str → Config → Config) (c : Config)
    → ((v : Str) (c : Config) → (f v c).network ≡ c.network)
    → (on_key key line f c).network ≡ c.network
on_key-network key line f c keeps = elim (Bool-cases (has_prefix line key)) [
  | inl hit ↦ rw hit (keeps (trim_prefix line key) c)
  | inr miss ↦ rw miss
]

on_key-set :
    (key line n : Str) (g : Bool → Config → Config) (c : Config)
    → ((b : Bool) (c : Config) → (g b c).network ≡ c.network)
    → (on_key key line
        (λ v c. set_network n (parse_bool_or_false v) (g (parse_bool_or_false v) c))
        c).network
      ≡ (if switches key line then n else c.network)
on_key-set key line n g c keeps = elim (Bool-cases (has_prefix line key)) [
  | inr miss ↦ rw miss
  | inl hit ↦ elim (Bool-cases (parse_bool_or_false (trim_prefix line key))) [
    | inl on ↦ rw (hit, on) refl
    | inr off ↦ rw (hit, off) (keeps false c)
  ]
]

-- The network of a line, as the code's order of tests decides it.
abbrev pub line_network : Str → Str → Str
line_network line n =
    if switches (str "regtest=") line
    then network_regtest
    else if switches (str "devnet=") line
    then network_devnet
    else if switches (str "testnet=") line
    then network_testnet
    else n

read_rpc_user-network : (line : Str) (c : Config) → (read_rpc_user line c).network ≡ c.network
unfolding read_rpc_user
read_rpc_user-network line c =
    on_key-network (str "rpcuser=") line (λ v c. record c { rpc_user = v }) c (λ v c. refl)

read_rpc_pwd-network : (line : Str) (c : Config) → (read_rpc_pwd line c).network ≡ c.network
unfolding read_rpc_pwd
read_rpc_pwd-network line c =
    on_key-network (str "rpcpassword=") line (λ v c. record c { rpc_pwd = v }) c (λ v c. refl)

read_rpc_port-network : (line : Str) (c : Config) → (read_rpc_port line c).network ≡ c.network
unfolding read_rpc_port
read_rpc_port-network line c =
    on_key-network (str "rpcport=") line (λ v c. record c { rpc_port = atoi v }) c (λ v c. refl)

read_tx_index-network : (line : Str) (c : Config) → (read_tx_index line c).network ≡ c.network
unfolding read_tx_index
read_tx_index-network line c =
    on_key-network (str "txindex=") line (λ v c. record c { tx_index = atoi v }) c (λ v c. refl)

read_testnet-network :
    (line : Str) (c : Config)
    → (read_testnet line c).network
      ≡ (if switches (str "testnet=") line then network_testnet else c.network)
unfolding read_testnet
read_testnet-network line c =
    on_key-set (str "testnet=") line network_testnet (λ b c. record c { is_testnet = b }) c
      (λ b c. refl)

read_devnet-network :
    (line : Str) (c : Config)
    → (read_devnet line c).network
      ≡ (if switches (str "devnet=") line then network_devnet else c.network)
unfolding read_devnet
read_devnet-network line c =
    on_key-set (str "devnet=") line network_devnet (λ b c. record c { is_devnet = b }) c
      (λ b c. refl)

read_regtest-network :
    (line : Str) (c : Config)
    → (read_regtest line c).network
      ≡ (if switches (str "regtest=") line then network_regtest else c.network)
unfolding read_regtest
read_regtest-network line c =
    on_key-set (str "regtest=") line network_regtest (λ b c. c) c (λ b c. refl)

ruleset reads = (
  read_tx_index-network, read_regtest-network, read_devnet-network, read_testnet-network,
  read_rpc_port-network, read_rpc_pwd-network, read_rpc_user-network,
)

apply_line-network :
    (c : Config) (line : Str) → (apply_line c line).network ≡ line_network line c.network
unfolding apply_line
apply_line-network c line = simp reads

last_or-networks :
    (line : Str) (lines : List Str) (n : Str)
    → last_or n (networks (line ∷ lines)) ≡ last_or (line_network line n) (networks lines)
last_or-networks line lines n = ground (arith, one_key line)

pub apply_lines-network :
    (lines : List Str) (c : Config)
    → (apply_lines c lines).network ≡ last_or c.network (networks lines)
unfolding apply_lines
apply_lines-network [] c = refl
apply_lines-network (line ∷ lines) c =
    apply_lines-network lines (apply_line c line)
    ∙ ap (λ (n : Str). last_or n (networks lines)) (apply_line-network c line)
    ∙ sym (last_or-networks line lines c.network)
