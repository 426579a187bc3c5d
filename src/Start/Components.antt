-- ===== src/Start/Components.antt =====
-- What a successful start of a component means.
use pastelup.Base.{
  Str, str, ◌++◌, [], ◌∷◌, errorf, refl, Bool, true, false, List, Option, none, some, Error, ◌⊎◌,
  inl, inr, ok, err, Action, pure, fail, perform, modify, ◌>>=◌, ◌>>◌, >>=-eq-ok, if◌then◌else◌,
  ◌≡◌, Option-cases,
}
use pastelup.Path.{join}
use pastelup.Constants.{OsType, ToolType, wallet_node, rq_service}
use pastelup.Constants.Execs.{wallet_node_exec_name, rq_service_exec_name}
use pastelup.Configurer.{get_rq_service_conf_file, get_wallet_node_conf_file}
use pastelup.Configs.{Config}
use pastelup.Host.{Host, Stat, present, not_exist, stat_error}
use pastelup.Service.Manager.{ServiceManager}
use pastelup.Node.{check_process_running}
use pastelup.Start.{
  check_pastel_file_path, run_executable, run_pastel_service, start_as_service, run_rq_service,
  run_wallet_node_service,
}

module _ {W : Type 0} (host : Host W) (os : OsType) where
  -- The last thing that was done is that the executable at the path was started with the arguments,
  -- and ten seconds later a process of the tool was seen to run; or that it ran with them to its end
  -- in the foreground without a failure.
  abbrev pub IsProcess : ToolType → Str → List Str → W → Type 0
  IsProcess tool path args v =
      ((u : W) × (check_process_running host os tool (host.sleep 10 (host.spawn path args u))
          ≡ ok true v))
      ⊎ ((u : W) × ((host.run_cmd path args u).0.failure ≡ none)
          × ((host.run_cmd path args u).1 ≡ v))

  -- The last thing that was done is that the manager of services reported a start of the tool, and
  -- ten seconds later a process of it was seen to run.
  abbrev pub IsService : ServiceManager W × Option Error → Config → ToolType → W → Type 0
  IsService manager config tool v =
      (manager.1 ≡ none)
      × (w : W) × (u : W) × (manager.0.start_service config tool w ≡ ok true u)
      × (check_process_running host os tool (host.sleep 10 u) ≡ ok true v)

  -- One of the two, for an executable in the directory of the programs.
  abbrev pub WasRun :
      ServiceManager W × Option Error → Config → ToolType → Str → List Str → W → Type 0
  WasRun manager config tool file args v =
      IsService manager config tool v ⊎ IsProcess tool (join config.pastel_exec_dir file) args v

  abbrev foreground : Str → List Str → Action W (Unit {0})
  foreground path args = perform (host.run_cmd path args) >>= λ ran. elim ran.failure [
    | none ↦ pure tt
    | some e ↦ fail e
  ]

  foreground-IsProcess :
      (tool : ToolType) (path : Str) (args : List Str) (w v : W)
      → foreground path args w ≡ ok tt v
      → IsProcess tool path args v
  foreground-IsProcess tool path args w v h =
      elim (Option-cases (host.run_cmd path args w).0.failure) [
        | inl fine ↦ inr (
          w,
          fine,
          (let done : ok tt (host.run_cmd path args w).1 ≡ ok tt v = rw fine at h in cc),
        )
        | inr (e, failed) ↦
            let stopped : err e (host.run_cmd path args w).1 ≡ ok tt v = rw failed at h in cc
      ]

  run_executable-IsProcess :
      (tool : ToolType) (args : List Str) (path : Str) (w v : W)
      → run_executable host os tool args path w ≡ ok tt v
      → IsProcess tool path args v
  unfolding run_executable
  run_executable-IsProcess tool args path w v h =
      let started = host.sleep 10 (host.spawn path args w) in
      let (b, u, seen, rest) =
        >>=-eq-ok (check_process_running host os tool)
          (λ running. if running then pure tt else foreground path args) started h in
      decide b u seen rest
    where
      decide :
          (b : Bool) (u : W)
          → check_process_running host os tool (host.sleep 10 (host.spawn path args w)) ≡ ok b u
          → (if b then pure tt else foreground path args) u ≡ ok tt v
          → IsProcess tool path args v
      decide true u seen rest = let same : u ≡ v = cc in inl (w, rw same at seen)
      decide false u seen rest = foreground-IsProcess tool path args u v rest

  found_path :
      (dir file path : Str) (w u : W)
      → check_pastel_file_path host os dir file w ≡ ok path u
      → path ≡ join dir file
  unfolding check_pastel_file_path
  found_path dir file path w u found = decide (host.stat (join dir file) w) refl
    where
      decide : (st : Stat) → host.stat (join dir file) w ≡ st → path ≡ join dir file
      decide present e = let same : ok (join dir file) w ≡ ok path u = rw (e, ◌>>=◌) at found in cc
      decide not_exist e =
          let none_there : err (errorf "could not find path") w ≡ ok path u =
            rw (e, ◌>>=◌) at found in
          cc
      decide (stat_error x) e = let failed : err x w ≡ ok path u = rw (e, ◌>>=◌) at found in cc

  pub run_pastel_service-IsProcess :
      (config : Config) (tool : ToolType) (file : Str) (args : List Str) (w v : W)
      → run_pastel_service host os config tool file args w ≡ ok tt v
      → IsProcess tool (join config.pastel_exec_dir file) args v
  unfolding run_pastel_service
  run_pastel_service-IsProcess config tool file args w v h =
      let (path, u, found, rest) =
        >>=-eq-ok (check_pastel_file_path host os config.pastel_exec_dir file)
          (run_executable host os tool args) w h in
      let same = found_path config.pastel_exec_dir file path w u found in
      rw (← same) (run_executable-IsProcess tool args path u v rest)

  -- A component that is started as a service, or else by `k`.
  start_as_service-WasRun :
      (manager : ServiceManager W × Option Error) (config : Config) (tool : ToolType) (file : Str)
      (args : List Str) (k : Action W (Unit {0})) (w v : W)
      → ((w : W) → k w ≡ ok tt v → IsProcess tool (join config.pastel_exec_dir file) args v)
      → (start_as_service host os manager config tool >>= λ runs. if runs then pure tt else k) w
        ≡ ok tt v
      → WasRun manager config tool file args v
  unfolding start_as_service
  start_as_service-WasRun (sm, some e) config tool file args k w v later h = inr (later w h)
  start_as_service-WasRun (sm, none) config tool file args k w v later h =
      let (b, u, seen, rest) =
        >>=-eq-ok (start_as_service host os (sm, none) config tool)
          (λ runs. if runs then pure tt else k) w h in
      let (started, u', start, looked) =
        >>=-eq-ok (sm.start_service config tool) (λ started. if started then look else pure false) w
          seen in
      decide b started u u' start looked rest
    where
      look : Action W Bool
      look = modify (host.sleep 10) >> check_process_running host os tool

      decide :
          (b started : Bool) (u u' : W)
          → sm.start_service config tool w ≡ ok started u'
          → (if started then look else pure false) u' ≡ ok b u
          → (if b then pure tt else k) u ≡ ok tt v
          → WasRun (sm, none) config tool file args v
      decide false started u u' start looked rest = inr (later u rest)
      decide true true u u' start looked rest =
          let same : u ≡ v = cc in inl (refl, w, u', start, rw same at looked)
      decide true false u u' start looked rest = cc

  -- If `runRQService` succeeds, then either the manager of services reported the start of rq-service
  -- and a process of it was then seen to run, or its executable in the directory of the programs,
  -- with the argument for its configuration file, was started and a process of it was then seen to
  -- run, or that command ran in the foreground without a failure.
  pub run_rq_service-WasRun :
      (manager : ServiceManager W × Option Error) (config : Config) (w v : W)
      → run_rq_service host os manager config w ≡ ok tt v
      → WasRun manager config rq_service
          (rq_service_exec_name os)
          ((str "--config-file=" ++ get_rq_service_conf_file config.configurer config.working_dir)
            ∷ [])
          v
  unfolding run_rq_service
  run_rq_service-WasRun manager config w v h =
      start_as_service-WasRun manager config rq_service _ _ _ w v
        (λ w. run_pastel_service-IsProcess config rq_service (rq_service_exec_name os) _ w v) h

  -- If `runWalletNodeService` succeeds, then either the manager of services reported the start of
  -- walletnode and a process of it was then seen to run, or its executable in the directory of the
  -- programs, with the arguments for its configuration file, for pastel.conf and in the mode of
  -- development for swagger, was started and a process of it was then seen to run, or that command
  -- ran in the foreground without a failure.
  pub run_wallet_node_service-WasRun :
      (manager : ServiceManager W × Option Error) (config : Config) (w v : W)
      → run_wallet_node_service host os manager config w ≡ ok tt v
      → WasRun manager config wallet_node
          (wallet_node_exec_name os)
          ((str "--config-file=" ++ get_wallet_node_conf_file config.configurer config.working_dir)
            ∷ (str "--pastel-config-file=" ++ (config.working_dir ++ str "/pastel.conf"))
            ∷ (if config.dev_mode then str "--swagger" ∷ [] else []))
          v
  unfolding run_wallet_node_service
  run_wallet_node_service-WasRun manager config w v h =
      start_as_service-WasRun manager config wallet_node _ _ _ w v
        (λ w. run_pastel_service-IsProcess config wallet_node (wallet_node_exec_name os) _ w v) h
