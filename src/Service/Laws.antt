-- ===== src/Service/Laws.antt =====
-- Registration of a tool whose executable is not there.
use pastelup.Base.{Str, str, Bool, false, [], none, ok, ◌≡◌, refl, ◌>>=◌}
use pastelup.Path.{join}
use pastelup.Constants.{
  OsType, ToolType, wallet_node, super_node, pasteld, dd_service, rq_service, hermes, bridge,
}
use pastelup.Constants.Execs.{
  pasteld_name, wallet_node_exec_name, super_node_exec_name, hermes_exec_name, bridge_exec_name,
  rq_service_exec_name,
}
use pastelup.Configs.{Config}
use pastelup.Host.{Host, not_exist, check_file_exist}
use pastelup.Masternode.{Codec}
use pastelup.Service.Plan.{
  missing, plan, exec_plan, pasteld_plan, dd_service_plan, get_dupe_detection_exec_name,
}
use pastelup.Service.Systemd.{Systemd, systemctl, is_registered_lem}
use pastelup.Service.{Render, unit_name, register_service, register_new, carry_out}

-- The file that the registration of a tool needs first, below `PastelExecDir`, is not there. The
-- tools that need none are never in this case.
abbrev pub IsMissing : {W : Type 0} → Host W → OsType → Config → ToolType → W → Type 0
IsMissing host os config pasteld w =
    host.stat (join config.pastel_exec_dir (pasteld_name os)) w ≡ not_exist
IsMissing host os config rq_service w =
    host.stat (join config.pastel_exec_dir (rq_service_exec_name os)) w ≡ not_exist
IsMissing host os config dd_service w =
    host.stat (join config.pastel_exec_dir get_dupe_detection_exec_name) w ≡ not_exist
IsMissing host os config super_node w =
    host.stat (join config.pastel_exec_dir (super_node_exec_name os)) w ≡ not_exist
IsMissing host os config hermes w =
    host.stat (join config.pastel_exec_dir (hermes_exec_name os)) w ≡ not_exist
IsMissing host os config wallet_node w =
    host.stat (join config.pastel_exec_dir (wallet_node_exec_name os)) w ≡ not_exist
IsMissing host os config bridge w =
    host.stat (join config.pastel_exec_dir (bridge_exec_name os)) w ≡ not_exist
IsMissing host os config _ w = ⊥

module _ {W : Type 0} (host : Host W) (codec : Codec) (os : OsType) (home_dir : Str)
    (config : Config) (w : W) where
  absent : (path : Str) → host.stat path w ≡ not_exist → check_file_exist host path w ≡ false
  unfolding check_file_exist
  absent path h = rw (h, check_file_exist) refl

  exec_plan-missing :
      (name : Str) (command : Str → Str)
      → host.stat (join config.pastel_exec_dir name) w ≡ not_exist
      → exec_plan host codec os home_dir config name command w ≡ ok missing w
  unfolding exec_plan
  exec_plan-missing name command h = rw (absent (join config.pastel_exec_dir name) h) refl

  plan-missing :
      (app : ToolType) (is_mn : Bool)
      → IsMissing host os config app w
      → plan host codec os home_dir config app is_mn w ≡ ok missing w
  unfolding plan pasteld_plan dd_service_plan
  plan-missing super_node is_mn h = exec_plan-missing _ _ h
  plan-missing rq_service is_mn h = exec_plan-missing _ _ h
  plan-missing hermes is_mn h = exec_plan-missing _ _ h
  plan-missing wallet_node is_mn h = exec_plan-missing _ _ h
  plan-missing bridge is_mn h = exec_plan-missing _ _ h
  plan-missing pasteld is_mn h = rw (absent _ h) refl
  plan-missing dd_service is_mn h = rw (absent _ h) refl
  plan-missing _ is_mn h = absurd h

module _ {W : Type 0} (host : Host W) (codec : Codec) (render : Render) (os : OsType)
    (home_dir : Str) (config : Config) (sd : Systemd host config) where
  -- Where systemctl works as documented and `whoami` succeeds, if a tool is not registered and its
  -- executable is missing, its registration reports success,
  -- and the host is as the two queries left it: `systemctl list-unit-files` and `whoami`.
  pub register_service_missing :
      (app : ToolType) (is_mn : Bool) (w : W)
      → let w₁ = (systemctl host config (str "list-unit-files") (unit_name app) w).1 in
        let ran = host.run_cmd (str "whoami") [] w₁ in
        sd.registered w (unit_name app) ≡ false
        → ran.0.failure ≡ none
        → IsMissing host os config app ran.1
        → register_service host codec render os home_dir config app is_mn w ≡ ok tt ran.1
  unfolding register_service register_new carry_out
  register_service_missing app is_mn w new known absent_file =
      rw (is_registered_lem host codec render os home_dir config sd app w, new, ◌>>=◌)
        (rw (known, ◌>>=◌)
          (rw (plan-missing host codec os home_dir config _ app is_mn absent_file, ◌>>=◌) refl))
