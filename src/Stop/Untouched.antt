-- ===== src/Stop/Untouched.antt =====
-- What a stop of services leaves alone: whatever the calls of the host and of the manager that it
-- makes leave alone.
use pastelup.Base.{
  ℕ, ◌==◌, Str, false, not, List, [], ◌∷◌, Option, Error, errorf, inl, inr, pure, fail, modify, ◌⊎◌,
  take, Keeps, bind-Keeps, then-Keeps, attempt-Keeps, wrap_error-Keeps, if-Keeps, pure-Keeps,
  fail-Keeps, perform-Keeps, option-Keeps, still-Keeps,
}
use pastelup.Constants.{
  OsType, ToolType, pastel_up, go_node, wallet_node, super_node, pasteld, dd_service, rq_service,
  hermes, bridge, dd_img_service, other, dupe_detection_exec_file_name,
}
use pastelup.Configs.{Config}
use pastelup.Host.{Host, Info}
use pastelup.Masternode.Address.{split_on}
use pastelup.Service.Manager.{ServiceManager}
use pastelup.Node.{
  get_running_process_pid, check_process_running, kill_process, get_pastel_info,
  stop_pasteld_and_wait,
}
use pastelup.Stop.{
  find_running_process_pid, stop_pastel_cli, stop_process, stop_by_process, stop_one, stop_services,
  process_of, first_number, trim_blanks_left, trim_blanks_right,
}

pub record Untouched {W : Type 0} (host : Host W) (sm : ServiceManager W) (P : W → Type 0)
    : Type 0 where
  pub processes_lem : Keeps P host.processes
  pub kill_lem : (pid : ℕ) → Keeps P (host.kill pid)
  pub find_lem : (term : Str) → Keeps P (host.find_running_process term)
  pub info_lem : (w : W) → P w → P (host.get_info w).1
  pub stop_node_lem : Keeps P host.stop_node
  pub sleep_lem : (n : ℕ) (w : W) → P w → P (host.sleep n w)
  pub stop_service_lem : (config : Config) (app : ToolType) → Keeps P (sm.stop_service config app)
  pub is_registered_lem : (config : Config) (app : ToolType) → Keeps P (sm.is_registered config app)

module _ {W : Type 0} (host : Host W) (os : OsType) (sm : ServiceManager W) (P : W → Type 0)
    (laws : Untouched host sm P) where
  running_pid-Keeps : (tool : ToolType) → Keeps P (get_running_process_pid host os tool)
  unfolding get_running_process_pid
  running_pid-Keeps tool =
      bind-Keeps P _ _ (wrap_error-Keeps P _ _ laws.processes_lem) (λ ps. pure-Keeps P _)

  pub kill_process-Keeps : (tool : ToolType) → Keeps P (kill_process host os tool)
  unfolding kill_process
  kill_process-Keeps tool =
      bind-Keeps P _ _ (running_pid-Keeps tool)
        (λ pid. if-Keeps P (pid == 0) _ _ (pure-Keeps P tt) (laws.kill_lem pid))

  found-Keeps :
      (r : Error ⊎ ℕ) → Keeps P (elim r [ inl e ↦ pure false | inr pid ↦ pure (not (pid == 0)) ])
  found-Keeps (inl e) = pure-Keeps P false
  found-Keeps (inr pid) = pure-Keeps P (not (pid == 0))

  pub check_running-Keeps : (tool : ToolType) → Keeps P (check_process_running host os tool)
  unfolding check_process_running
  check_running-Keeps tool =
      bind-Keeps P _ _ (attempt-Keeps P _ (running_pid-Keeps tool)) found-Keeps

  pub stop_pastel_cli-Keeps : Keeps P (stop_pastel_cli host os)
  unfolding stop_pastel_cli get_pastel_info stop_pasteld_and_wait
  stop_pastel_cli-Keeps =
      bind-Keeps P _ _ (perform-Keeps P (get_pastel_info host) laws.info_lem)
        (λ (answer : Info × Option Error).
          option-Keeps P answer.1 _ _
            (bind-Keeps P _ _
              (attempt-Keeps P _ (
                then-Keeps P _ _ laws.stop_node_lem
                  (still-Keeps P (modify (host.sleep 10)) (laws.sleep_lem 10))))
              (λ stopped. bind-Keeps P _ _ (check_running-Keeps pasteld) (λ running.
                if-Keeps P running _ _ (fail-Keeps P (Unit {0}) (errorf "Failed to stop Pasteld"))
                  (pure-Keeps P tt))))
            (λ e. pure-Keeps P tt))

  term_pid-Keeps :
      (r : Error ⊎ Str)
      → Keeps P {A = ℕ} (elim r [
        | inl e ↦ fail e
        | inr output ↦
            pure
              (first_number (take 3 (split_on b' ' (trim_blanks_right (trim_blanks_left output)))))
      ])
  term_pid-Keeps (inl e) = fail-Keeps P ℕ e
  term_pid-Keeps (inr output) = pure-Keeps P _

  stop_process-Keeps : (tool : ToolType) → Keeps P (stop_process host os tool)
  unfolding stop_process find_running_process_pid process_of
  stop_process-Keeps pasteld = stop_pastel_cli-Keeps
  stop_process-Keeps dd_service =
      bind-Keeps P _ _
        (bind-Keeps P _ _ (attempt-Keeps P _ (laws.find_lem dupe_detection_exec_file_name))
          term_pid-Keeps)
        laws.kill_lem
  stop_process-Keeps pastel_up = kill_process-Keeps pastel_up
  stop_process-Keeps wallet_node = kill_process-Keeps wallet_node
  stop_process-Keeps super_node = kill_process-Keeps super_node
  stop_process-Keeps go_node = kill_process-Keeps go_node
  stop_process-Keeps rq_service = kill_process-Keeps rq_service
  stop_process-Keeps hermes = kill_process-Keeps hermes
  stop_process-Keeps bridge = kill_process-Keeps bridge
  stop_process-Keeps dd_img_service = kill_process-Keeps dd_img_service
  stop_process-Keeps (other name) = kill_process-Keeps (other name)

  stop_by_process-Keeps : (tool : ToolType) → Keeps P (stop_by_process host os tool)
  unfolding stop_by_process
  stop_by_process-Keeps tool =
      then-Keeps P _ _ (attempt-Keeps P _ (stop_process-Keeps tool)) (pure-Keeps P tt)

  stopped-Keeps :
      (tool : ToolType) (r : Error ⊎ Unit {0})
      → Keeps P {A = Unit {0}} (elim r [ inr _ ↦ pure tt | inl e ↦ stop_by_process host os tool ])
  stopped-Keeps tool (inl e) = stop_by_process-Keeps tool
  stopped-Keeps tool (inr done) = pure-Keeps P tt

  stop_one-Keeps :
      (unsupported : Option Error) (config : Config) (tool : ToolType)
      → Keeps P (stop_one host os (sm, unsupported) config tool)
  unfolding stop_one
  stop_one-Keeps unsupported config tool =
      option-Keeps P unsupported _ _
        (bind-Keeps P _ _ (laws.is_registered_lem config tool) (λ registered.
          if-Keeps P registered _ _
            (bind-Keeps P _ _ (attempt-Keeps P _ (laws.stop_service_lem config tool))
              (stopped-Keeps tool))
            (stop_by_process-Keeps tool)))
        (λ e. stop_by_process-Keeps tool)

  pub stop_services-Keeps :
      (unsupported : Option Error) (config : Config) (tools : List ToolType)
      → Keeps P (stop_services host os (sm, unsupported) config tools)
  unfolding stop_services
  stop_services-Keeps unsupported config [] = pure-Keeps P tt
  stop_services-Keeps unsupported config (tool ∷ rest) =
      then-Keeps P _ _ (stop_one-Keeps unsupported config tool)
        (stop_services-Keeps unsupported config rest)
