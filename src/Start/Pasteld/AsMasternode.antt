-- ===== src/Start/Pasteld/AsMasternode.antt =====
-- What the success of `runStartMasternode` means.
use pastelup.Base.{
  ℕ, zero, suc, ◌+◌, ◌≤◌, ◌<◌, leb, Option-cases, ap, Str, Bool, true, false, Option, none, some,
  Error, errorf, ◌⊎◌, inl, inr, ok, Action, pure, fail, attempt, ◌>>=◌, >>=-eq-ok, >>-eq-ok,
  then_lem, else_lem, str_eq, str_eq_iff, is_empty, if◌then◌else◌, ◌≡◌, refl, sym, ◌∙◌, arith,
  Bool-cases,
}
use pastelup.Constants.{OsType}
use pastelup.Configs.{Config}
use pastelup.Host.{Host}
use pastelup.Masternode.{Codec, get_masternode_conf_data}
use pastelup.PastelConf.{parse_pastel_conf}
use pastelup.Service.Manager.{ServiceManager}
use pastelup.Node.{get_pastel_info, waiting_loop, waiting_for_pasteld_to_start}
use pastelup.Node.Waiting.{waiting_loop-up, waiting_loop-down, waiting_loop-over}
use pastelup.Start.Pasteld.{
  start_attempt, spawn_pasteld, run_pastel_node, wait_for_node, ext_ip_or, start_as_masternode,
  run_start_masternode,
}

le_or_lt : (m n : ℕ) → (m ≤ n) ⊎ (n < m)
le_or_lt m n = elim (Bool-cases (leb m n)) [
  | inl t ↦ inl (ground arith)
  | inr f ↦ inr (ground arith)
]

module _ {W : Type 0} (host : Host W) where
  -- The last thing that was done is a call of the node that it answered.
  abbrev pub HasAnswered : W → Type 0
  HasAnswered v = (u : W) × ((get_pastel_info host u).0.1 ≡ none) × ((get_pastel_info host u).1 ≡ v)

  waiting_loop-HasAnswered :
      (fuel attempts max_attempts : ℕ) (w v : W)
      → waiting_loop host fuel attempts max_attempts w ≡ (some true, v)
      → HasAnswered v
  unfolding waiting_loop
  waiting_loop-HasAnswered zero attempts max_attempts w v h = cc
  waiting_loop-HasAnswered (suc fuel) attempts max_attempts w v h =
      elim (le_or_lt attempts max_attempts) [
        | inr lt ↦ let over = waiting_loop-over host fuel attempts max_attempts w lt in cc
        | inl le ↦ elim (Option-cases (get_pastel_info host w).0.1) [
          | inl up ↦
              let done = sym (waiting_loop-up host fuel attempts max_attempts w le up) ∙ h in
              (w, up, (ap (λ r. r.1) done))
          | inr (e, down) ↦
              waiting_loop-HasAnswered fuel (attempts + 1) _ _ v
                (sym (waiting_loop-down host fuel attempts max_attempts w le (rw down refl)) ∙ h)
        ]
      ]

module _ {W : Type 0} (host : Host W) (os : OsType) (sha256_hex : Str → Str) where
  abbrev answer : Option Bool → Action W (Option (Unit {0}))
  answer none = pure none
  answer (some true) = pure (some tt)
  answer (some false) = fail (errorf "pasteld was not started")

  answer-true :
      (up : Option Bool) (u v : W) → answer up u ≡ ok (some tt) v → (up ≡ some true) × (u ≡ v)
  answer-true none u v h = cc
  answer-true (some true) u v h = (refl, cc)
  answer-true (some false) u v h = cc

  wait_for_node-HasAnswered :
      (fuel : ℕ) (w v : W)
      → wait_for_node host os sha256_hex fuel w ≡ ok (some tt) v
      → HasAnswered host v
  unfolding wait_for_node waiting_for_pasteld_to_start
  wait_for_node-HasAnswered fuel w v h =
      let (up, same) = answer-true (waiting_for_pasteld_to_start host fuel w).0 _ v h in
      waiting_loop-HasAnswered host fuel 0 30 w v (λ i. (up i, same i))

  -- A successful `runPastelNode` ends with an answer of the node.
  run_pastel_node-HasAnswered :
      (fuel : ℕ) (manager : ServiceManager W × Option Error) (config : Config)
      (tx_index_one reindex : Bool) (ext_ip mn_priv_key : Str) (w v : W)
      → run_pastel_node host os sha256_hex fuel manager config tx_index_one reindex ext_ip
          mn_priv_key w
        ≡ ok (some tt) v
      → HasAnswered host v
  unfolding run_pastel_node
  run_pastel_node-HasAnswered fuel manager config tx_index_one reindex ext_ip mn_priv_key w v h =
      let (started, u, _, rest) = >>=-eq-ok (start_attempt manager config) _ w h in
      let (_, u', _, waited) =
        >>-eq-ok
          (if started
            then pure tt
            else spawn_pasteld host os sha256_hex config tx_index_one reindex ext_ip mn_priv_key)
          (wait_for_node host os sha256_hex fuel) u rest in
      wait_for_node-HasAnswered fuel u' v waited

  -- What the address of the host is taken to be.
  abbrev asked_ip : Config → Action W Str
  asked_ip config = attempt (ext_ip_or host os sha256_hex config.node_ext_ip) >>= λ found.
      elim found [ inl e ↦ fail (errorf "cannot get external ip address") | inr a ↦ pure a ]

  asked_ip-given :
      (config : Config) (ip : Str) (w v : W)
      → is_empty config.node_ext_ip ≡ false
      → asked_ip config w ≡ ok ip v
      → ip ≡ config.node_ext_ip
  unfolding ext_ip_or
  asked_ip-given config ip w v given h =
      let asked : ok config.node_ext_ip w ≡ ok ip v = rw (given, ◌>>=◌) at h in cc

  -- With the address that masternode.conf has, the start goes on only if it is the host's.
  if-same :
      {A : Type 0} (ip ext_ip : Str) (go : Action W A) {a : A} (e : Error) (w v : W)
      → (if str_eq ip ext_ip then go else fail e) w ≡ ok a v
      → (ip ≡ ext_ip) × (go w ≡ ok a v)
  if-same ip ext_ip go e w v h = elim (Bool-cases (str_eq ip ext_ip)) [
    | inl same ↦
        ((str_eq_iff ip ext_ip).0 same, sym (then_lem (str_eq ip ext_ip) go (fail e) w same) ∙ h)
    | inr other ↦ let stopped = sym (else_lem (str_eq ip ext_ip) go (fail e) w other) ∙ h in cc
  ]

  -- What the start of a masternode establishes, with the configuration `c` that pastel.conf gives.
  abbrev pub IsStarted : Codec → Config → W → W → Type 0
  IsStarted codec c u v =
      (key : Str) × (ip : Str) × (port : Str) × (u' : W) × (get_masternode_conf_data host codec c
          c.master_node_name c.node_ext_ip u
        ≡ ok (key, ip, port) u')
      × (is_empty c.node_ext_ip ≡ false → ip ≡ c.node_ext_ip)
      × HasAnswered host v

  start_as_masternode-IsStarted :
      (fuel : ℕ) (codec : Codec) (manager : ServiceManager W × Option Error) (c : Config) (w v : W)
      → start_as_masternode host os sha256_hex fuel codec manager c w ≡ ok (some tt) v
      → IsStarted codec c w v
  unfolding start_as_masternode
  start_as_masternode-IsStarted fuel codec manager c w v h =
      let ((key, ip, port), u', read, rest) =
        >>=-eq-ok (get_masternode_conf_data host codec c c.master_node_name c.node_ext_ip) _ w h in
      let (ext_ip, u'', asked, last) = >>=-eq-ok (asked_ip c) _ u' rest in
      let (same, started) =
        if-same ip ext_ip
          (run_pastel_node host os sha256_hex fuel manager c true c.reindex ext_ip key) _ u'' v
          last in
      (
        key,
        ip,
        port,
        u',
        read,
        (λ given. same ∙ asked_ip-given c ext_ip u' u'' given asked),
        run_pastel_node-HasAnswered fuel manager c true c.reindex ext_ip key u'' v started,
      )

  -- If `runStartMasternode` succeeds, then pastel.conf was read, masternode.conf gave an entry by the
  -- name or the address of the masternode, whose address is the one of the configuration if that has
  -- one, and at the end the node answered a call; with a manager of services or without.
  pub run_start_masternode-IsStarted :
      (fuel : ℕ) (codec : Codec) (manager : ServiceManager W × Option Error) (config : Config)
      (w v : W)
      → run_start_masternode host os sha256_hex fuel codec manager config w ≡ ok (some tt) v
      → (c : Config) × (u : W) × (parse_pastel_conf host config w ≡ ok c u) × IsStarted codec c u v
  unfolding run_start_masternode
  run_start_masternode-IsStarted fuel codec manager config w v h =
      let (c, u, parsed, rest) =
        >>=-eq-ok (parse_pastel_conf host config)
          (start_as_masternode host os sha256_hex fuel codec manager) w h in
      (c, u, parsed, start_as_masternode-IsStarted fuel codec manager c u v rest)
