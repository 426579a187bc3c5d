-- ===== src/Service/Remove.antt =====
-- cmd/systemServicesHelper.go: `removeSystemService`.
use pastelup.Base.{
  Str, str, false, List, [], ◌∷◌, Option, none, some, inr, Error, ok, Action, pure, fail, lift,
  attempt, wrap_error, ◌>>=◌, ◌>>◌, if◌then◌else◌, ◌≡◌, refl,
}
use pastelup.Constants.{linux, ToolType}
use pastelup.Configs.{Config}
use pastelup.Host.{Host}
use pastelup.Masternode.{Codec}
use pastelup.Service.Manager.{ServiceManager}
use pastelup.Service.Install.{tool_to_process, tool_to_tool_type}
use pastelup.Service.Systemd.{Systemd, systemctl, is_registered_lem}
use pastelup.Service.{Render, unit_name, linux_systemd_manager, new_service_manager}

module _ {W : Type 0} (sm : ServiceManager W) (config : Config) where
  -- What is done for a registered tool. A failed `disable` or `rm` is only logged.
  unfoldable pub remove_one : ToolType → Action W (Unit {0})
  remove_one tool = do
    running ← sm.is_running config tool
    if running
        then wrap_error "unable to stop as a system service" (sm.stop_service config tool)
        else pure tt
    disabled ← attempt (sm.disable_service config tool)
    removed ← attempt (sm.remove_service config tool)
    pure tt

  -- The loop: at a tool that is not registered it returns nil.
  unfoldable pub remove_all : List Str → Action W (Unit {0})
  remove_all [] = pure tt
  remove_all (app ∷ rest) = do
    registered ← sm.is_registered config (tool_to_tool_type app)
    let go_on = remove_one (tool_to_tool_type app) >> remove_all rest
    if registered then go_on else pure tt

-- `removeSystemService`
unfoldable pub remove_system_service :
    {W : Type 0} → ServiceManager W × Option Error → Config → Action W (Unit {0})
remove_system_service (sm, unsupported) config = lift (tool_to_process config) >>= λ tools.
    elim unsupported [ some e ↦ fail e | none ↦ remove_all sm config tools ]

module _ {W : Type 0} (host : Host W) (codec : Codec) (render : Render) (home_dir : Str)
    (config : Config) (sd : Systemd host config) where
  -- Where systemctl works as documented, if the first tool of the command is not registered, the removal reports success, and every
  -- unit, those of the command's other tools too, is registered and active as it was.
  pub remove_system_service_stops_early :
      (app : Str) (rest : List Str) (w : W)
      → tool_to_process config ≡ inr (app ∷ rest)
      → sd.registered w (unit_name (tool_to_tool_type app)) ≡ false
      → (v : W) × (remove_system_service
            (new_service_manager host codec render linux home_dir)
            config
            w
          ≡ ok tt v)
        × ((u : Str) → (sd.registered v u ≡ sd.registered w u) × (sd.active v u ≡ sd.active w u))
  unfolding remove_system_service remove_all new_service_manager linux_systemd_manager
  remove_system_service_stops_early app rest w tools new =
      let u = unit_name (tool_to_tool_type app) in
      (
        (systemctl host config (str "list-unit-files") u w).1,
        rw tools (
            rw
              (
                is_registered_lem host codec render linux home_dir config sd (tool_to_tool_type app)
                    w,
                new,
                ◌>>=◌,
              )
              refl),
        λ u'. sd.list_keeps u u' w,
      )
