-- ===== src/Remote/Inventory/Targets.antt =====
-- Which remote hosts `ExecuteCommands` reaches.
use pastelup.Base.{
  Str, Bool, true, false, List, map, [], ◌∷◌, ◌++◌, Error, ◌⊎◌, inl, inr, Out, ok, err, panic,
  Action, pure, attempt, ◌>>=◌, bind-cong, bind-same, bind_assoc, is_empty, ◌≡◌, refl, sym, ap, ◌∙◌,
  arith, All, Bool-cases,
}
use pastelup.Constants.{OsType}
use pastelup.Configs.{Config}
use pastelup.Host.{Host}
use pastelup.Remote.{Ssh, execute_remote_commands}
use pastelup.Remote.Inventory.{
  InventoryServer, Inventory, enter_group, enter_server, filters, is_selected, run_servers,
  run_groups, execute_commands,
}
use pastelup.Remote.Inventory.Reached.{
  NoLeaks, own_configs, targets, left_by, left_by_all, enter_group-left_by, SameBut, reached,
  reached-NoLeaks,
}

module _ {W C : Type 0} (host : Host W) (ssh : Ssh W C) (os : OsType) (commands : List Str)
    (need_output : Bool) where
  -- The commands on each of the hosts, in this order. The output of a host where they failed is
  -- empty.
  abbrev pub run_each : List Config → Action W (List Str)
  run_each [] = pure []
  run_each (c ∷ cs) = do
    result ← attempt (execute_remote_commands host ssh os c commands false need_output)
    let out : Str = elim result [ inl e ↦ [] | inr o ↦ o ]
    outs ← run_each cs
    pure (out ∷ outs)

  abbrev with_config : Config → Action W (List Str) → Action W (Config × List Str)
  with_config left m = m >>= λ outs. pure (left, outs)

  -- A step in front of the rest.
  bind-with_config :
      {A : Type 0} (m : Action W A) (f : A → Action W (Config × List Str))
      (g : A → Action W (List Str)) (left : Config) (w : W)
      → ((a : A) (u : W) → f a u ≡ with_config left (g a) u)
      → (m >>= f) w ≡ with_config left (m >>= g) w
  bind-with_config {A} m f g left w same = outcome (m w) refl
    where
      outcome : (o : Out W A) → m w ≡ o → (m >>= f) w ≡ with_config left (m >>= g) w
      outcome (ok a u) e = rw (◌>>=◌, e, same a u) refl
      outcome (err x u) e = rw (◌>>=◌, e) refl
      outcome (panic u) e = rw (◌>>=◌, e) refl

  with_config-map :
      (m : Action W (List Str)) (left : Config) (f : List Str → List Str) (u : W)
      → (with_config left m >>= λ (l, outs). pure (l, f outs)) u
        ≡ with_config left (m >>= λ outs. pure (f outs)) u
  with_config-map m left f u = ground arith

  run_servers_lem :
      (servers : List InventoryServer) (c : Config) (w : W)
      → run_servers host ssh os commands need_output servers c w
        ≡ with_config (left_by servers c) (run_each (reached servers c)) w
  unfolding run_servers left_by
  run_servers_lem [] c w = refl
  run_servers_lem (s ∷ rest) c w =
      let here = enter_server s c in
      bind-with_config
        (attempt (execute_remote_commands host ssh os here commands false need_output)) _ _
        (left_by rest here) w
        (λ r u.
          bind-cong (run_servers host ssh os commands need_output rest here)
            (with_config (left_by rest here) (run_each (reached rest here))) _ u
            (run_servers_lem rest here u)
          ∙ with_config-map (run_each (reached rest here)) (left_by rest here) _ u)

  append-out :
      (m n : Action W (List Str)) (out : Str) (w : W)
      → ((m >>= λ a. n >>= λ b. pure (a ++ b)) >>= λ outs. pure (out ∷ outs)) w
        ≡ ((m >>= λ outs. pure (out ∷ outs)) >>= λ a. n >>= λ b. pure (a ++ b)) w
  append-out m n out w = ground arith

  -- The outputs of the first hosts, and then those of the others.
  abbrev then_each : List Config → List Str → Action W (List Str)
  then_each ys a = run_each ys >>= λ b. pure (a ++ b)

  abbrev attempt_on : Config → Action W (Error ⊎ Str)
  attempt_on c = attempt (execute_remote_commands host ssh os c commands false need_output)

  abbrev cons_result : Action W (List Str) → Error ⊎ Str → Action W (List Str)
  cons_result m r = m >>= λ outs. pure ((elim r [ inl e ↦ [] | inr o ↦ o ]) ∷ outs)

  run_each-append :
      (xs ys : List Config) (w : W) → run_each (xs ++ ys) w ≡ (run_each xs >>= then_each ys) w
  run_each-append [] ys w = ground arith
  run_each-append (x ∷ xs) ys w =
      bind-same (attempt_on x) (cons_result (run_each (xs ++ ys)))
        (λ r. cons_result (run_each xs) r >>= then_each ys) w
        (λ r u.
          bind-cong (run_each (xs ++ ys)) (run_each xs >>= then_each ys) _ u
            (run_each-append xs ys u)
          ∙ append-out (run_each xs) (run_each ys) _ u)
      ∙ bind_assoc (attempt_on x) (cons_result (run_each xs)) (then_each ys) w

  bind_assoc_pure :
      (c : Config) (m : Config → Action W (Config × List Str)) (w : W)
      → ((pure (c, [])) >>= λ (left, outs). m left >>= λ (last, later). pure (last, outs ++ later))
          w
        ≡ m c w
  bind_assoc_pure c m w = ground arith

  -- The groups behind one that left this configuration and these outputs.
  abbrev groups_behind : List Str → Inventory → Config × List Str → Action W (Config × List Str)
  groups_behind fs rest (left, outs) =
      run_groups host ssh os commands need_output fs rest left >>= λ (last, later).
      pure (last, outs ++ later)

  targets_reached :
      (inventory : Inventory) (fs : List Str) (c base : Config) (w : W)
      → SameBut c base
      → All (λ sg. NoLeaks sg.servers) inventory
      → run_groups host ssh os commands need_output fs inventory c w
        ≡ with_config (left_by_all fs inventory c) (run_each (targets fs base inventory)) w
  unfolding run_groups left_by_all enter_group
  targets_reached [] fs c base w same leaks = refl
  targets_reached (sg ∷ rest) fs c base w same leaks = elim (Bool-cases (is_selected fs sg)) [
    | inr passed ↦ rw passed (
        bind_assoc_pure c (run_groups host ssh os commands need_output fs rest) w
        ∙ targets_reached rest fs c base w same leaks.1)
    | inl chosen ↦ rw chosen (
        let here = enter_group sg.common c in
        let left = left_by sg.servers here in
        let last = left_by_all fs rest left in
        let later = targets fs base rest in
        let own = own_configs sg.common c sg.servers in
        bind-cong (run_servers host ssh os commands need_output sg.servers here)
          (with_config left (run_each (reached sg.servers here))) (groups_behind fs rest) w
          (run_servers_lem sg.servers here w)
        ∙ ap (λ (o : List Config). (with_config left (run_each o) >>= groups_behind fs rest) w)
            (reached-NoLeaks sg.servers here leaks.0)
        ∙ sym (bind_assoc (run_each own) (λ outs. pure (left, outs)) (groups_behind fs rest) w)
        ∙ bind-with_config (run_each own) (λ outs. groups_behind fs rest (left, outs))
            (then_each later) last w
            (λ outs u.
              bind-cong (run_groups host ssh os commands need_output fs rest left)
                (with_config last (run_each later)) _ u
                (targets_reached rest fs left base u
                  (λ k. enter_group-left_by k sg.servers here ∙ same k) leaks.1)
              ∙ with_config-map (run_each later) last (λ b. outs ++ b) u)
        ∙ sym (
            bind-cong (run_each (own ++ later)) (run_each own >>= then_each later) _ w
              (run_each-append own later w))
        ∙ ap (λ (o : List Config). with_config last (run_each (o ++ later)) w)
            (λ i. map (λ s. enter_server s (same sg.common i)) sg.servers))
  ]

  outs_of :
      (m : Action W (List Str)) (left : Config) (w : W)
      → (with_config left m >>= λ (l, outs). pure outs) w ≡ m w
  outs_of m left w = ground arith

  -- If no server of a group gives a user, a key or a port that a later server of the group leaves
  -- out, then `ExecuteCommands` runs the commands on the servers of the groups that the filter lets
  -- through, in the order of the inventory, each with its own user, key and port, or else those of
  -- its group, or else port 22; a failure on one of them stops none of the others, and the outputs
  -- are one for each of them.
  pub execute_commands-targets :
      (inventory : Inventory) (config : Config) (w : W)
      → All (λ sg. NoLeaks sg.servers) inventory
      → (execute_commands host ssh os inventory config commands need_output >>= λ (left, outs).
            pure outs)
          w
        ≡ run_each (targets (filters config) config inventory) w
  unfolding execute_commands
  execute_commands-targets inventory config w leaks =
      bind-cong (execute_commands host ssh os inventory config commands need_output)
        (with_config (left_by_all (filters config) inventory config)
          (run_each (targets (filters config) config inventory)))
        _ w (targets_reached inventory (filters config) config config w (λ k. refl) leaks)
      ∙ outs_of (run_each (targets (filters config) config inventory)) _ w

  -- If a server gives a user and the next one of its group leaves it out, then the commands run on
  -- the next one as the user of the first, whatever user the group has and whatever servers follow.
  pub run_servers-leak :
      (s t : InventoryServer) (rest : List InventoryServer) (c : Config) (w : W)
      → is_empty s.user ≡ false
      → is_empty t.user ≡ true
      → let d = enter_server t (enter_server s c) in
        ((run_servers host ssh os commands need_output (s ∷ t ∷ rest) c >>= λ (left, outs).
        pure outs)
            w
          ≡ run_each (enter_server s c ∷ d ∷ reached rest d) w)
        × (d.remote_user ≡ s.user)
  unfolding enter_server
  run_servers-leak s t rest c w given missing =
      let servers = s ∷ t ∷ rest in
      (
        bind-cong (run_servers host ssh os commands need_output servers c)
              (with_config (left_by servers c) (run_each (reached servers c))) _ w
              (run_servers_lem servers c w)
            ∙ outs_of (run_each (reached servers c)) _ w,
        rw (missing, given) refl,
      )
