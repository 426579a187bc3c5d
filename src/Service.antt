-- ===== src/Service.antt =====
-- cmd/servicemanager.go: the service manager of Linux, and the choice of a manager. The template
-- library (`GetServiceConfig`) is the parameter `render`: from the description, the command, the
-- working directory and the user it makes the text of a unit file, or an error.
pub mod Manager
pub mod Plan
pub mod Laws
pub mod Systemd
pub mod Install
pub mod Remove
pub mod Linux
use pastelup.Base.{
  Str, str, Bool, true, false, not, List, [], ◌∷◌, ◌++◌, Option, none, some, ◌⊎◌, inl, inr, Error,
  errorf, wrapf, Action, perform, pure, fail, lift, attempt, query, wrap_error, ◌>>=◌, ◌>>◌, str_eq,
  contains, trim_space, if◌then◌else◌, ◌||◌,
}
use pastelup.Path.{join}
use pastelup.Constants.{
  OsType, linux, ToolType, tool_string, systemd_service_prefix, systemd_system_dir,
}
use pastelup.Configs.{Config}
use pastelup.Host.{Host, run_sudo_cmd, sudo_or_fail}
use pastelup.Masternode.{Codec}
use pastelup.Service.Manager.{ServiceManager, noop_manager}
use pastelup.Service.Plan.{UnitPlan, unit, missing, skipped, plan}

abbrev pub Render : Type 0
Render = Str → Str → Str → Str → Error ⊎ Str

-- `LinuxSystemdManager.ServiceName`
unfoldable pub unit_name : ToolType → Str
unit_name app = systemd_service_prefix ++ (tool_string app ++ str ".service")

module _ {W : Type 0} (host : Host W) (codec : Codec) (render : Render) (os : OsType)
    (home_dir : Str) where
  -- `IsRunning`: the command's failure is ignored.
  unfoldable pub is_running : Config → ToolType → Action W Bool
  is_running config app = do
    r ← perform (run_sudo_cmd host config (str "systemctl" ∷ str "is-active" ∷ unit_name app ∷ []))
    let status = trim_space r.output
    pure (str_eq status (str "active") || str_eq status (str "activating"))

  -- `IsRegistered`
  unfoldable pub is_registered : Config → ToolType → Action W Bool
  is_registered config app = do
    r ←
        perform
          (run_sudo_cmd host config (str "systemctl" ∷ str "list-unit-files" ∷ unit_name app ∷ []))
    pure (not (contains (trim_space r.output) (str "0 unit files listed.")))

  -- The part of `RegisterService` behind the `switch`: the unit file is written to a temporary
  -- place, copied, and the daemon is told. A failed write is only logged.
  unfoldable pub install_unit : Config → ToolType → Str → Str → Str → Action W (Unit {0})
  install_unit config app user exec_cmd work_dir = do
    let temp = join (str "/tmp") (unit_name app)
    text ←
        wrap_error "unable ot create service file"
          (lift (render (tool_string app ++ str " daemon") exec_cmd work_dir user))
    written ← attempt (host.write_file temp text)
    sudo_or_fail host config (str "cp" ∷ temp ∷ join systemd_system_dir (unit_name app) ∷ [])
    wrap_error "unable to reload systemctl daemon"
        (sudo_or_fail host config (str "systemctl" ∷ str "daemon-reload" ∷ []))

  -- What `RegisterService` does with the plan. At a missing file it returns the variable `err`,
  -- which is the nil of the last successful call.
  unfoldable pub carry_out : Config → ToolType → Str → UnitPlan → Action W (Unit {0})
  carry_out config app user (unit exec_cmd work_dir) =
      install_unit config app user exec_cmd work_dir
  carry_out config app user missing = pure tt
  carry_out config app user skipped = pure tt

  -- The rest of `RegisterService` if the service is not registered yet.
  unfoldable pub register_new : Config → ToolType → Bool → Action W (Unit {0})
  register_new config app is_mn = do
    who ← perform (host.run_cmd (str "whoami") [])
    elim who.failure [
      | some e ↦ fail (wrapf "unable to get own user name" e)
      | none ↦ do
        p ← plan host codec os home_dir config app is_mn
        carry_out config app who.output p
    ]

  -- `RegisterService`
  unfoldable pub register_service : Config → ToolType → Bool → Action W (Unit {0})
  register_service config app is_mn = do
    registered ← is_registered config app
    if registered then pure tt else register_new config app is_mn

  -- `StartService`: a failed `systemctl start` is no error, and reports that nothing was started.
  unfoldable pub start_service : Config → ToolType → Action W Bool
  start_service config app = do
    registered ← is_registered config app
    let start = do
      r ← perform (run_sudo_cmd host config (str "systemctl" ∷ str "start" ∷ unit_name app ∷ []))
      elim r.failure [ none ↦ pure true | some e ↦ pure false ]
    let try_start = do running ← is_running config app; if running then pure true else start
    if registered then try_start else pure false

  -- `StopService`
  unfoldable pub stop_service : Config → ToolType → Action W (Unit {0})
  stop_service config app = do
    running ← is_running config app
    let stop =
        wrap_error "unable to stop service"
          (sudo_or_fail host config (str "systemctl" ∷ str "stop" ∷ unit_name app ∷ []))
    if running then stop else pure tt

  -- `EnableService`
  unfoldable pub enable_service : Config → ToolType → Action W (Unit {0})
  enable_service config app =
      wrap_error "err enabling"
        (sudo_or_fail host config (str "systemctl" ∷ str "enable" ∷ unit_name app ∷ []))

  -- `DisableService`
  unfoldable pub disable_service : Config → ToolType → Action W (Unit {0})
  disable_service config app =
      wrap_error "err enabling"
        (sudo_or_fail host config (str "systemctl" ∷ str "disable" ∷ unit_name app ∷ []))

  -- `RemoveService`
  unfoldable pub remove_service : Config → ToolType → Action W (Unit {0})
  remove_service config app = do
    wrap_error "err removing"
        (sudo_or_fail host config (str "rm" ∷ join systemd_system_dir (unit_name app) ∷ []))
    wrap_error "unable to reload systemctl daemon"
        (sudo_or_fail host config (str "systemctl" ∷ str "daemon-reload" ∷ []))

  unfoldable pub linux_systemd_manager : ServiceManager W
  linux_systemd_manager = record {
    register_service = register_service;
    start_service = start_service;
    stop_service = stop_service;
    enable_service = enable_service;
    disable_service = disable_service;
    remove_service = remove_service;
    is_running = is_running;
    is_registered = is_registered;
    service_name = unit_name;
  }

  -- `NewServiceManager`: the manager, and the error for a system that has none
  unfoldable pub new_service_manager : ServiceManager W × Option Error
  new_service_manager = elim os [
    | linux ↦ (linux_systemd_manager, none)
    | _ ↦ (noop_manager, some (errorf "services are not comptabile with your OS"))
  ]
