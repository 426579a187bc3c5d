-- ===== src/Stop.antt =====
-- cmd/stop.go: stopping the services of a command, as system services where they are registered and
-- by ending their processes else.
pub mod Services
pub mod Systemd
pub mod Untouched
use pastelup.Base.{
  ℕ, ◌+◌, ◌==◌, leb, Str, str, pos, negsuc, Bool, true, false, not, List, [], ◌∷◌, Option, none,
  some, Error, errorf, inl, inr, Action, pure, fail, attempt, perform, ◌>>=◌, ◌>>◌, if◌then◌else◌,
  ◌&&◌, is_empty, atoi, all_digits, take, length, ◌++◌, map,
}
use pastelup.Constants.{
  OsType, ToolType, tool_string, wallet_node, super_node, pasteld, dd_service, rq_service, hermes,
  bridge, dd_img_service, other, dupe_detection_exec_file_name,
}
use pastelup.Configs.{Config}
use pastelup.Host.{Host, join_args}
use pastelup.Prompt.{ask_user_to_continue}
use pastelup.Masternode.Address.{split_on}
use pastelup.Service.Manager.{ServiceManager}
use pastelup.Node.{
  get_running_process_pid, check_process_running, kill_process, get_pastel_info,
  stop_pasteld_and_wait,
}

-- `service == constants.PastelD`
abbrev pub is_pasteld : ToolType → Bool
is_pasteld pasteld = true
is_pasteld _ = false

-- `strings.Trim(s, " ")`
unfoldable pub trim_blanks_left : Str → Str
trim_blanks_left [] = []
trim_blanks_left (c ∷ s) = if c == b' ' then trim_blanks_left s else c ∷ s

unfoldable pub trim_blanks_right : Str → Str
trim_blanks_right [] = []
trim_blanks_right (c ∷ s) =
    let r = trim_blanks_right s in if is_empty r && c == b' ' then [] else c ∷ r

-- `pid, err := strconv.Atoi(s)` with `err == nil`, of a number that is a process identifier
unfoldable pub atoi_pid : Str → Option ℕ
unfolding all_digits atoi
atoi_pid [] = none
atoi_pid (c ∷ s) =
    if all_digits (c ∷ s) then (elim (atoi (c ∷ s)) [ pos n ↦ some n | negsuc n ↦ none ]) else none

-- The first of the items that is a number, else 0.
unfoldable pub first_number : List Str → ℕ
first_number [] = 0
first_number (s ∷ rest) = elim (atoi_pid s) [ some n ↦ n | none ↦ first_number rest ]

-- The lists of the sub-commands.
unfoldable pub wallet_services : List ToolType
wallet_services = wallet_node ∷ rq_service ∷ pasteld ∷ bridge ∷ []

unfoldable pub super_node_services : List ToolType
super_node_services = super_node ∷ rq_service ∷ dd_img_service ∷ dd_service ∷ pasteld ∷ hermes ∷ []

unfoldable pub all_services : List ToolType
all_services =
    super_node ∷ rq_service ∷ wallet_node ∷ dd_img_service ∷ dd_service ∷ pasteld ∷ hermes ∷ bridge
    ∷ []

-- `serviceToProcessOverrides`
unfoldable pub process_of : ToolType → ToolType
process_of dd_service = other dupe_detection_exec_file_name
process_of service = service

-- The question of `stopServicesWithConfirmation`
unfoldable pub kill_question : List ToolType → Str
kill_question to_stop =
    str "To perform this update, we need to kill these services: ["
    ++ (join_args (map tool_string to_stop) ++ str "]. Is this ok? Y/N")

module _ {W : Type 0} (host : Host W) (os : OsType) where
  -- `FindRunningProcessPid`
  unfoldable pub find_running_process_pid : Str → Action W ℕ
  find_running_process_pid term = do
    found ← attempt (host.find_running_process term)
    elim found [
      | inl e ↦ fail e
      | inr output ↦
          pure (first_number (take 3 (split_on b' ' (trim_blanks_right (trim_blanks_left output)))))
    ]

  -- `stopPatelCLI`
  unfoldable pub stop_pastel_cli : Action W (Unit {0})
  stop_pastel_cli = do
    (info, failure) ← perform (get_pastel_info host)
    let stop = do
      stopped ← attempt (stop_pasteld_and_wait host)
      running ← check_process_running host os pasteld
      if running then fail (errorf "Failed to stop Pasteld") else pure tt
    elim failure [ some e ↦ pure tt | none ↦ stop ]

  -- The `switch` of the loop of `stopServices`. An error is logged, and the loop goes on.
  unfoldable pub stop_process : ToolType → Action W (Unit {0})
  stop_process pasteld = stop_pastel_cli
  stop_process dd_service = find_running_process_pid dupe_detection_exec_file_name >>= host.kill
  stop_process service = kill_process host os (process_of service)

  unfoldable pub stop_by_process : ToolType → Action W (Unit {0})
  stop_by_process service = attempt (stop_process service) >> pure tt

  -- The body of the loop.
  unfoldable pub stop_one :
      ServiceManager W × Option Error → Config → ToolType → Action W (Unit {0})
  stop_one (sm, unsupported) config service = do
    let as_service = do
      stopped ← attempt (sm.stop_service config service)
      elim stopped [ inr _ ↦ pure tt | inl e ↦ stop_by_process service ]
    let managed = do
      registered ← sm.is_registered config service
      if registered then as_service else stop_by_process service
    elim unsupported [ none ↦ managed | some e ↦ stop_by_process service ]

  -- `stopServices`: the manager and its error are those of `NewServiceManager`.
  unfoldable pub stop_services :
      ServiceManager W × Option Error → Config → List ToolType → Action W (Unit {0})
  stop_services manager config [] = pure tt
  stop_services manager config (service ∷ rest) =
      stop_one manager config service >> stop_services manager config rest

  -- The first loop of `stopServicesWithConfirmation`: the services that run.
  unfoldable pub running_services : List ToolType → Action W (List ToolType)
  running_services [] = pure []
  running_services (service ∷ rest) = do
    let node_runs = do
      (info, failure) ← perform (get_pastel_info host)
      pure (elim failure [ none ↦ true | some e ↦ false ])
    let process_runs = do pid ← get_running_process_pid host os service; pure (not (pid == 0))
    runs ← if is_pasteld service then node_runs else process_runs
    later ← running_services rest
    pure (if runs then service ∷ later else later)

  -- `stopServicesWithConfirmation`
  unfoldable pub stop_services_with_confirmation :
      ServiceManager W × Option Error → Config → List ToolType → Action W (Unit {0})
  stop_services_with_confirmation manager config services = do
    to_stop ← running_services services
    let question = do
      (yes?, line) ← ask_user_to_continue host (kill_question to_stop)
      if yes? then pure tt else fail (errorf "user did not accept confirmation to stop services")
    let confirmed = if config.force then pure tt else question
    let stop = confirmed >> stop_services manager config to_stop
    if leb (length to_stop) 0 then pure tt else stop
