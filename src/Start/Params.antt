-- ===== src/Start/Params.antt =====
-- What `checkStartMasterNodeParams` leaves in the configuration.
use pastelup.Base.{
  ℕ, ◌<◌, Str, Bool, true, false, Error, errorf, ◌⊎◌, inl, inr, ok, Action, pure, fail, attempt,
  ◌>>=◌, >>=-eq-ok, >>-eq-ok, then_lem, else_lem, is_empty, ◌&&◌, not, str_eq, ◌≡◌, ◌≢◌, refl, sym,
  ◌∙◌, arith, Bool-cases,
}
use pastelup.Constants.{network_regtest, network_testnet, network_devnet}
use pastelup.Constants.Ports.{get_sn_port_list, node_port, sn_port, p2p_port}
use pastelup.Configs.{Config}
use pastelup.Constants.{OsType}
use pastelup.Host.{Host}
use pastelup.Start.{
  port_at, port_or, with_defaults, with_ext_ip, check_files, check_start_master_node_params,
}

-- The three ports of a network are in this order, and none is 0.
ports_lem :
    (network : Str)
    → let ports = get_sn_port_list network in
      (0 < port_at ports sn_port)
      × (port_at ports sn_port < port_at ports p2p_port)
      × (port_at ports p2p_port < port_at ports node_port)
unfolding get_sn_port_list port_at
ports_lem network = elim (Bool-cases (str_eq network network_testnet)) [
  | inl t ↦ rw t (omega arith, omega arith, omega arith)
  | inr t ↦ elim (Bool-cases (str_eq network network_regtest)) [
    | inl r ↦ rw (t, r) (omega arith, omega arith, omega arith)
    | inr r ↦ elim (Bool-cases (str_eq network network_devnet)) [
      | inl d ↦ rw (t, r, d) (omega arith, omega arith, omega arith)
      | inr d ↦ rw (t, r, d) (omega arith, omega arith, omega arith)
    ]
  ]
]

-- A port as it was given, or the network's if none was given.
abbrev pub IsPort : ℕ → ℕ → Type 0
IsPort given port = (port ≢ 0) × (given ≢ 0 → port ≡ given)

port_or-IsPort :
    (given default_port : ℕ) → 0 < default_port → IsPort given (port_or given default_port)
port_or-IsPort given default_port h = ground arith

port_or-none : (given default_port : ℕ) → given ≡ 0 → port_or given default_port ≡ default_port
port_or-none given default_port h = rw h

-- Ports that were not given are in the order of the defaults.
port_or-order : (a b m n : ℕ) → m < n → a ≡ 0 → b ≡ 0 → port_or a m < port_or b n
port_or-order a b m n lt a0 b0 = omega (arith, port_or-none a m a0, port_or-none b n b0)

-- What the check guarantees of the configuration `c`, for the configuration `config`.
abbrev pub IsComplete : Config → Config → Type 0
IsComplete config c =
    IsPort config.master_node_port c.master_node_port
    × IsPort config.master_node_rpc_port c.master_node_rpc_port
    × IsPort config.master_node_p2p_port c.master_node_p2p_port
    × (config.master_node_port ≡ 0
        → config.master_node_rpc_port ≡ 0
        → config.master_node_p2p_port ≡ 0
        → (c.master_node_rpc_port < c.master_node_p2p_port)
          × (c.master_node_p2p_port < c.master_node_port))
    × (is_empty config.node_ext_ip ≡ false → c.node_ext_ip ≡ config.node_ext_ip)
    × (is_empty config.master_node_p2p_ip ≡ true → c.master_node_p2p_ip ≡ c.node_ext_ip)
    × (is_empty config.master_node_p2p_ip ≡ false
        → c.master_node_p2p_ip ≡ config.master_node_p2p_ip)

and-left : (a b : Bool) → (a && b) ≡ true → a ≡ true
and-left true b h = refl
and-left false b h = h

ok-value : {W A : Type 0} (a b : A) {w v : W} → ok a w ≡ ok b v → b ≡ a
ok-value a b h = cc

-- What the answer to the question for the address makes of the configuration.
abbrev with_answer : {W : Type 0} → Config → Error ⊎ Str → Action W Config
with_answer config found = elim found [
  | inl e ↦ fail (errorf "cannot get external ip address")
  | inr ip ↦ pure (record config { node_ext_ip = ip })
]

module _ {W : Type 0} (host : Host W) (os : OsType) where
  -- The configuration with an address in it.
  with_ext_ip_lem :
      (config c : Config) (cold_hot : Bool) (w v : W)
      → with_ext_ip host os config cold_hot w ≡ ok c v
      → (ip : Str) × (c ≡ record config { node_ext_ip = ip })
        × (is_empty config.node_ext_ip ≡ false → ip ≡ config.node_ext_ip)
  unfolding with_ext_ip
  with_ext_ip_lem config c cold_hot w v h =
      elim (Bool-cases (is_empty config.node_ext_ip && not cold_hot)) [
        | inr given ↦
            let same : c ≡ config =
              ok-value config c (sym (else_lem _ _ (pure config) w given) ∙ h) in
            (config.node_ext_ip, same, λ e. refl)
        | inl missing ↦
            let (found, u, _, rest) = >>=-eq-ok (attempt host.external_ip) (with_answer config) w (
              sym (
                then_lem _ (attempt host.external_ip >>= with_answer config) (pure config) w
                  missing)
              ∙ h) in
            answered found u rest (and-left (is_empty config.node_ext_ip) (not cold_hot) missing)
      ]
    where
      answered :
          (found : Error ⊎ Str) (u : W)
          → with_answer {W = W} config found u ≡ ok c v
          → is_empty config.node_ext_ip ≡ true
          → (ip : Str) × (c ≡ record config { node_ext_ip = ip })
            × (is_empty config.node_ext_ip ≡ false → ip ≡ config.node_ext_ip)
      answered (inl e) u rest missing = cc
      answered (inr ip) u rest missing =
          (ip, ok-value (record config { node_ext_ip = ip }) c rest, λ given. cc)

  with_defaults-IsComplete :
      (config : Config) (ip : Str)
      → (is_empty config.node_ext_ip ≡ false → ip ≡ config.node_ext_ip)
      → IsComplete config (with_defaults (record config { node_ext_ip = ip }))
  unfolding with_defaults
  with_defaults-IsComplete config ip h =
      let (first, second, third) = ports_lem config.network in
      (
        port_or-IsPort config.master_node_port _ (omega (arith, first, second, third)),
        port_or-IsPort config.master_node_rpc_port _ first,
        port_or-IsPort config.master_node_p2p_port _ (omega (arith, first, second)),
        (λ node0 rpc0 p2p0. (
          port_or-order config.master_node_rpc_port config.master_node_p2p_port _ _ second rpc0
              p2p0,
          port_or-order config.master_node_p2p_port config.master_node_port _ _ third p2p0 node0,
        )),
        h,
        (λ e. rw e),
        (λ e. rw e),
      )

  -- If `checkStartMasterNodeParams` succeeds, the configuration has its three ports, none of them 0,
  -- each as it was given if it was, and if none was given the port for RPC is below the one for P2P
  -- and this one below the port of the node; the external address is the given one if one was given; and the
  -- address for P2P is the given one, or the external address.
  pub check_start_master_node_params-IsComplete :
      (config c : Config) (cold_hot : Bool) (w v : W)
      → check_start_master_node_params host os config cold_hot w ≡ ok c v
      → IsComplete config c
  unfolding check_start_master_node_params
  check_start_master_node_params-IsComplete config c cold_hot w v h =
      let (with_ip, u, asked, rest) = >>=-eq-ok (with_ext_ip host os config cold_hot) _ w h in
      let (_, u', _, done) =
        >>-eq-ok (check_files host os with_ip cold_hot) (pure (with_defaults with_ip)) u rest in
      let (ip, same, given) = with_ext_ip_lem config with_ip cold_hot w u asked in
      rw (ok-value (with_defaults with_ip) c done, same) (with_defaults-IsComplete config ip given)
