-- ===== src/PastelConf/Networks.antt =====
-- Which network the two readers of pastel.conf take from its lines: the local one
-- (`ParsePastelConf`) and the one that reads the file of the remote node.
pub mod Lines
use pastelup.Base.{
  ◌≤◌, Str, str, false, List, [], ◌∷◌, ◌⊎◌, inl, inr, Error, is_empty, if◌then◌else◌, ◌≡◌, refl,
  sym, ap, ◌∙◌, arith, Bool-cases, length, All,
}
use pastelup.Constants.{network_mainnet, network_testnet, network_devnet, network_regtest}
use pastelup.Configs.{Config}
use pastelup.PastelConf.{
  parse_bool_or_false, apply_lines, default_network, parse_lines, network_line, remote_network,
}
use pastelup.PastelConf.Networks.Lines.{
  switches, networks, first_or, last_or, HasBool, IsReadable, apply_lines-network,
}

network_line_lem :
    (key n line : Str) (later : Error ⊎ Str)
    → HasBool key line
    → network_line key n line later ≡ (if switches key line then inr n else later)
unfolding parse_bool_or_false
network_line_lem key n line later h = ground arith

-- If each network line has a boolean that `ParseBool` accepts, the reader of the remote file takes
-- the first network that is switched on, and the main network if there is none.
get_network_mode-first :
    (lines : List Str)
    → IsReadable lines
    → remote_network lines ≡ inr (first_or network_mainnet (networks lines))
unfolding remote_network
get_network_mode-first [] h = refl
get_network_mode-first (line ∷ lines) h =
    rw
      (
        network_line_lem (str "testnet=") network_testnet line _ h.0.0,
        network_line_lem (str "devnet=") network_devnet line _ h.0.1,
        network_line_lem (str "regtest=") network_regtest line _ h.0.2,
        get_network_mode-first lines h.1,
      )
      (ground arith)

default_network_lem :
    (c : Config)
    → (default_network c).network ≡ (if is_empty c.network then network_mainnet else c.network)
unfolding default_network
default_network_lem c = elim (Bool-cases (is_empty c.network)) [
  | inl empty ↦ rw empty refl
  | inr set ↦ rw set refl
]

last_or-full :
    (n : Str) (ns : List Str)
    → is_empty n ≡ false
    → All (λ n. is_empty n ≡ false) ns
    → is_empty (last_or n ns) ≡ false
last_or-full n [] h hs = h
last_or-full n (m ∷ ns) h hs = last_or-full m ns hs.0 hs.1

last_or-mainnet :
    (ns : List Str)
    → All (λ n. is_empty n ≡ false) ns
    → (if is_empty (last_or [] ns) then network_mainnet else last_or [] ns)
      ≡ last_or network_mainnet ns
last_or-mainnet [] h = refl
last_or-mainnet (n ∷ ns) h = rw (last_or-full n ns h.0 h.1)

networks-full : (lines : List Str) → All (λ n. is_empty n ≡ false) (networks lines)
networks-full [] = tt
networks-full (line ∷ lines) = elim (Bool-cases (switches (str "testnet=") line)) [
  | inl on ↦ rw on (refl, networks-full lines)
  | inr off ↦ elim (Bool-cases (switches (str "devnet=") line)) [
    | inl on ↦ rw (off, on) (refl, networks-full lines)
    | inr off₂ ↦ elim (Bool-cases (switches (str "regtest=") line)) [
      | inl on ↦ rw (off, off₂, on) (refl, networks-full lines)
      | inr off₃ ↦ rw (off, off₂, off₃) (networks-full lines)
    ]
  ]
]

-- If no network is chosen yet, the reader of the local file takes the last network that is switched
-- on, and the main network if there is none.
pub parse_lines-last :
    (lines : List Str) (c : Config)
    → c.network ≡ []
    → (parse_lines c lines).network ≡ last_or network_mainnet (networks lines)
unfolding parse_lines
parse_lines-last lines c h =
    let read : (apply_lines c lines).network ≡ last_or [] (networks lines) =
      apply_lines-network lines c ∙ ap (λ (n : Str). last_or n (networks lines)) h in
    default_network_lem (apply_lines c lines)
    ∙ rw read (last_or-mainnet (networks lines) (networks-full lines))

first-last : (d : Str) (ns : List Str) → length ns ≤ 1 → first_or d ns ≡ last_or d ns
first-last d [] h = refl
first-last d (n ∷ []) h = refl
first-last d (n ∷ m ∷ ns) h = absurd (omega arith)

-- On a file with readable network lines that switch at most one network on, a node that has chosen
-- no network yet reads the same network as the host that connects to it.
pub parse_lines-remote_network :
    (lines : List Str) (c : Config)
    → IsReadable lines
    → length (networks lines) ≤ 1
    → c.network ≡ []
    → remote_network lines ≡ inr (parse_lines c lines).network
parse_lines-remote_network lines c readable one h =
    get_network_mode-first lines readable
    ∙ ap inr (first-last network_mainnet (networks lines) one ∙ sym (parse_lines-last lines c h))
