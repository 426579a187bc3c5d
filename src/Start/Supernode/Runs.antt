-- ===== src/Start/Supernode/Runs.antt =====
-- What the success of the start of a supernode means.
use pastelup.Base.{
  Str, List, Bool, true, false, Option, none, some, Error, ◌⊎◌, inl, inr, ok, err, panic, Out,
  Action, pure, attempt, modify, ◌>>◌, >>=-eq-ok, >>-eq-ok, if◌then◌else◌, ◌≡◌, refl,
}
use pastelup.Constants.{OsType, ToolType, super_node, hermes}
use pastelup.Constants.Execs.{super_node_exec_name, hermes_exec_name}
use pastelup.Configurer.{get_super_node_conf_file, get_hermes_conf_file}
use pastelup.Configs.{Config}
use pastelup.Host.{Host}
use pastelup.Service.Manager.{ServiceManager}
use pastelup.Node.{check_process_running}
use pastelup.Start.{run_pastel_service}
use pastelup.Start.Components.{IsService, WasRun, run_pastel_service-IsProcess}
use pastelup.Start.Supernode.{
  Yaml, set_pastel_id_and_passphrase_in_hermes_conf, start_or_log, start_hermes, node_args,
  run_hermes_service, run_super_node_service,
}

attempt-failed :
    {W A : Type 0} (m : Action W A) (e : Error) (w v : W)
    → attempt m w ≡ ok (inl e) v
    → m w ≡ err e v
attempt-failed {W} {A} m e w v = outcome (m w)
  where
    outcome :
        (o : Out W A)
        → (elim o [ ok a u ↦ ok (inr a) u | err x u ↦ ok (inl x) u | panic u ↦ panic u ])
          ≡ ok (inl e) v
        → o ≡ err e v
    outcome (ok a u) h = cc
    outcome (err x u) h = cc
    outcome (panic u) h = cc

attempt-done :
    {W A : Type 0} (m : Action W A) (a : A) (w v : W) → attempt m w ≡ ok (inr a) v → m w ≡ ok a v
attempt-done {W} {A} m a w v = outcome (m w)
  where
    outcome :
        (o : Out W A)
        → (elim o [ ok a u ↦ ok (inr a) u | err x u ↦ ok (inl x) u | panic u ↦ panic u ])
          ≡ ok (inr a) v
        → o ≡ ok a v
    outcome (ok b u) h = cc
    outcome (err x u) h = cc
    outcome (panic u) h = cc

module _ {W V : Type 0} (host : Host W) (os : OsType) (yaml : Yaml V)
    (manager : ServiceManager W × Option Error) (config : Config) where
  start_or_log-IsService :
      (manager : ServiceManager W × Option Error) (tool : ToolType) (w v : W)
      → start_or_log host os yaml manager config tool w ≡ ok true v
      → IsService host os manager config tool v
  unfolding start_or_log
  start_or_log-IsService (sm, some e) tool w v h = cc
  start_or_log-IsService (sm, none) tool w v h =
      let (started, u, start, rest) = >>=-eq-ok (attempt (sm.start_service config tool)) look w h in
      looked started u start rest
    where
      look : Error ⊎ Bool → Action W Bool
      look (inl e) = pure false
      look (inr true) = modify (host.sleep 10) >> check_process_running host os tool
      look (inr false) = pure false

      looked :
          (started : Error ⊎ Bool) (u : W)
          → attempt (sm.start_service config tool) w ≡ ok started u
          → look started u ≡ ok true v
          → IsService host os (sm, none) config tool v
      looked (inl e) u start h = cc
      looked (inr true) u start h =
          (refl, w, u, attempt-done (sm.start_service config tool) true w u start, h)
      looked (inr false) u start h = cc

  -- A program that is started as a service, or else as a process.
  runs-WasRun :
      (tool : ToolType) (file : Str) (args : List Str) (runs : Bool) (w u v : W)
      → start_or_log host os yaml manager config tool w ≡ ok runs u
      → (if runs then pure tt else run_pastel_service host os config tool file args) u ≡ ok tt v
      → WasRun host os manager config tool file args v
  runs-WasRun tool file args true w u v seen h =
      let same : u ≡ v = cc in inl (start_or_log-IsService manager tool w v (rw same at seen))
  runs-WasRun tool file args false w u v seen h =
      inr (run_pastel_service-IsProcess host os config tool file args u v h)

  -- The executable of hermes, with its arguments
  abbrev pub HermesRan : W → Type 0
  HermesRan =
      WasRun host os manager config hermes (hermes_exec_name os)
        (node_args config (get_hermes_conf_file config.configurer config.working_dir))

  start_hermes-WasRun :
      (w v : W) → start_hermes host os yaml manager config w ≡ ok tt v → HermesRan v
  unfolding start_hermes
  start_hermes-WasRun w v h =
      let (runs, u, logged, rest) =
        >>=-eq-ok (start_or_log host os yaml manager config hermes) _ w h in
      runs-WasRun hermes (hermes_exec_name os)
        (node_args config (get_hermes_conf_file config.configurer config.working_dir)) runs w u v
        logged rest

  -- The update of the configuration of hermes failed and was the last thing that was done.
  abbrev pub HasFailed : W → Type 0
  HasFailed v =
      (u : W) × (e : Error) × (set_pastel_id_and_passphrase_in_hermes_conf host os yaml config u
        ≡ err e v)

  -- If `runHermesService` succeeds, then either the manager of services reported the start of hermes
  -- and a process of it was then seen to run, or its executable in the directory of the programs,
  -- with its arguments, was started and a process of it was then seen to run, or that command ran in
  -- the foreground without a failure; or the update of its configuration failed and hermes was not
  -- started at all.
  pub run_hermes_service-WasRun :
      (w v : W)
      → run_hermes_service host os yaml manager config w ≡ ok tt v
      → HermesRan v ⊎ HasFailed v
  unfolding run_hermes_service
  run_hermes_service-WasRun w v h =
      let (set, u, tried, rest) =
        >>=-eq-ok (attempt (set_pastel_id_and_passphrase_in_hermes_conf host os yaml config)) go_on
          w h in
      decide set u tried rest
    where
      go_on : Error ⊎ Unit {0} → Action W (Unit {0})
      go_on (inl e) = pure tt
      go_on (inr done) = start_hermes host os yaml manager config

      decide :
          (set : Error ⊎ Unit {0}) (u : W)
          → attempt (set_pastel_id_and_passphrase_in_hermes_conf host os yaml config) w ≡ ok set u
          → go_on set u ≡ ok tt v
          → HermesRan v ⊎ HasFailed v
      decide (inr done) u tried h = inl (start_hermes-WasRun u v h)
      decide (inl e) u tried h =
          let same : u ≡ v = cc in
          inr (
            w,
            e,
            attempt-failed (set_pastel_id_and_passphrase_in_hermes_conf host os yaml config) e w v
                (rw same at tried),
          )

  -- If `runSuperNodeService` succeeds, then there was a point at which either the manager of
  -- services had reported the start of the supernode and a process of it was then seen to run, or
  -- its executable in the directory of the programs, with its arguments, had been started and a
  -- process of it was then seen to run, or that command had run in the foreground without a failure;
  -- and behind that point the same holds of hermes, or the update of its configuration failed and
  -- hermes was not started.
  pub run_super_node_service-WasRun :
      (w v : W)
      → run_super_node_service host os yaml manager config w ≡ ok tt v
      → (x : W) × WasRun host os manager config super_node
          (super_node_exec_name os)
          (node_args config (get_super_node_conf_file config.configurer config.working_dir))
          x
        × (run_hermes_service host os yaml manager config x ≡ ok tt v)
        × (HermesRan v ⊎ HasFailed v)
  unfolding run_super_node_service
  run_super_node_service-WasRun w v h =
      let args = node_args config (get_super_node_conf_file config.configurer config.working_dir) in
      let (runs, u, logged, rest) =
        >>=-eq-ok (start_or_log host os yaml manager config super_node) _ w h in
      let (_, x, ran, then_hermes) =
        >>-eq-ok
          (if runs
            then pure tt
            else run_pastel_service host os config super_node (super_node_exec_name os) args)
          (run_hermes_service host os yaml manager config) u rest in
      (
        x,
        runs-WasRun super_node (super_node_exec_name os) args runs w u x logged ran,
        then_hermes,
        run_hermes_service-WasRun x v then_hermes,
      )
