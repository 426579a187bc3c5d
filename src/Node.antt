-- ===== src/Node.antt =====
-- cmd/common.go: the running processes of the tools, and the RPC calls with which the commands wait
-- for the local node.
pub mod Waiting
pub mod Processes
use pastelup.Base.{
  ℕ, zero, suc, ◌+◌, ◌==◌, leb, Str, str, Bool, true, false, not, List, [], ◌∷◌, Option, none, some,
  Error, errorf, wrapf, ◌⊎◌, inl, inr, Out, ok, err, panic, Action, pure, fail, attempt, query,
  perform, modify, ◌>>=◌, ◌>>◌, str_eq, contains, take, length, if◌then◌else◌, ◌&&◌, ◌||◌, ltb,
  wrap_error,
}
use pastelup.Constants.{OsType, ToolType}
use pastelup.Constants.Execs.{service_name}
use pastelup.Host.{Host, Process, Info, SyncStatus}

-- The test of the loop of `GetRunningProcessPid`: the executable's name and the start of the tool's
-- name, as long as the shorter of the two.
unfoldable pub is_process_of : Str → Str → Bool
unfolding str_eq
is_process_of exec_name executable =
    let n = length executable in
    let n_test = if ltb (length exec_name) n then length exec_name else n in
    str_eq (take n_test exec_name) executable

-- The loop: the first match, or 0.
unfoldable pub find_pid : Str → List Process → ℕ
find_pid exec_name [] = 0
find_pid exec_name (p ∷ rest) =
    let later = find_pid exec_name rest in
    if is_process_of exec_name p.executable then p.pid else later

-- `containsAny`
unfoldable pub contains_any : Str → List Str → Bool
unfolding contains
contains_any s [] = false
contains_any s (p ∷ rest) = contains s p || contains_any s rest

-- The messages of a node that is still loading.
unfoldable pub is_busy : Option Str → Bool
unfolding contains_any
is_busy none = false
is_busy (some message) =
    contains_any message
      (str "Rescanning" ∷ str "Activating best chain" ∷ str "Loading block index" ∷ [])

module _ {W : Type 0} (host : Host W) (os : OsType) where
  -- `GetRunningProcessPid`
  unfoldable pub get_running_process_pid : ToolType → Action W ℕ
  unfolding find_pid
  get_running_process_pid tool = do
    processes ← wrap_error "failed to get list process" host.processes
    pure (find_pid (service_name tool os) processes)

  -- `CheckProcessRunning`
  unfoldable pub check_process_running : ToolType → Action W Bool
  check_process_running tool = do
    found ← attempt (get_running_process_pid tool)
    elim found [ inl e ↦ pure false | inr pid ↦ pure (not (pid == 0)) ]

  -- `KillProcess`; `KillProcessByPid` is the host's `kill`.
  unfoldable pub kill_process : ToolType → Action W (Unit {0})
  kill_process tool = do
    pid ← get_running_process_pid tool
    if pid == 0 then pure tt else host.kill pid

module _ {W : Type 0} (host : Host W) where
  -- `GetPastelInfo`: the error of the call, or that of an answer with version 0.
  unfoldable pub get_pastel_info : W → (Info × Option Error) × W
  get_pastel_info w =
      let ((info, failure), v) = host.get_info w in
      (
        (
          info,
          (elim failure [
            | some e ↦ some e
            | none ↦ if info.version == 0 then some (errorf "info response has errors") else none
          ]),
        ),
        v,
      )

  -- The loop of `WaitingForPastelDToStart`, on fuel: none if the fuel is used up. While the node
  -- says that it is loading at the last attempt but one, there are 30 more attempts.
  unfoldable pub waiting_loop : ℕ → ℕ → ℕ → W → Option Bool × W
  waiting_loop zero attempts max_attempts w = (none, w)
  waiting_loop (suc fuel) attempts max_attempts w = elim (leb attempts max_attempts) [
    | false ↦ (some false, w)
    | true ↦
        let ((info, failure), v) = get_pastel_info w in
        elim failure [
          | none ↦ (some true, v)
          | some e ↦
              let more = is_busy info.message && attempts + 1 == max_attempts in
              waiting_loop fuel (attempts + 1) (if more then max_attempts + 30 else max_attempts)
                (host.sleep 10 v)
        ]
  ]

  -- `WaitingForPastelDToStart`
  unfoldable pub waiting_for_pasteld_to_start : ℕ → W → Option Bool × W
  waiting_for_pasteld_to_start fuel = waiting_loop fuel 0 30

  -- `StopPastelDAndWait`
  unfoldable pub stop_pasteld_and_wait : Action W (Unit {0})
  stop_pasteld_and_wait = host.stop_node >> modify (host.sleep 10)

  -- The loop of `CheckMasterNodeSync`, on fuel, with the number of blocks of the last answer.
  unfoldable pub check_master_node_sync : ℕ → Action W (Option ℕ)
  check_master_node_sync zero = pure none
  check_master_node_sync (suc fuel) = do
    (info, failure) ← perform get_pastel_info
    status ← elim failure [ none ↦ host.mn_sync | some e ↦ fail e ]
    let reset = host.reset_sync >> modify (host.sleep 10)
    if str_eq status.asset_name (str "Initial") then reset else pure tt
    let again = modify (host.sleep 10) >> check_master_node_sync fuel
    if status.is_synced then pure (some info.blocks) else again
