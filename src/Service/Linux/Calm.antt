-- ===== src/Service/Linux/Calm.antt =====
-- The registration of a service takes no unit down, if the calls that it makes take none down.
use pastelup.Base.{
  Str, str, Bool, true, List, [], ◌∷◌, ◌++◌, wrapf, ok, panic, pure, lift, attempt, query,
  wrap_error, state_of, str_eq, ◌≡◌, ◌∙◌, Keeps, bind-Keeps, then-Keeps, attempt-Keeps,
  wrap_error-Keeps, lift-Keeps, if-Keeps, option-Keeps, pure-Keeps, fail-Keeps, query-Keeps,
  perform-Keeps, still-Keeps,
}
use pastelup.Path.{join}
use pastelup.Constants.{
  OsType, ToolType, wallet_node, super_node, pasteld, dd_service, rq_service, hermes, bridge,
  dd_img_service, tool_string, systemd_system_dir,
}
use pastelup.Configs.{Config}
use pastelup.Host.{Host, run_sudo_cmd, sudo_or_fail, check_file_exist}
use pastelup.Masternode.{
  Codec, Conf, load_masternode_conf_file, find_by_ip, address_parts, get_masternode_conf_data,
  lookup,
}
use pastelup.Masternode.Address.{split_on}
use pastelup.Service.{
  Render, unit_name, is_registered, install_unit, carry_out, register_new, register_service,
  enable_service,
}
use pastelup.Service.Plan.{
  UnitPlan, unit, missing, skipped, exec_plan, masternode_plan, found_plan, pasteld_command,
  pasteld_plan, dd_service_plan, plan,
}
use pastelup.Constants.Execs.{pasteld_name}
use pastelup.Service.Systemd.{Systemd, systemctl, is_registered_lem}

-- The other commands and calls of a registration stop no unit.
pub record Undisturbed {W : Type 0} (host : Host W) (config : Config) (active : W → Str → Bool)
    : Type 0 where
  pub whoami_keeps :
      (u : Str) (w : W) → active w u ≡ true → active (host.run_cmd (str "whoami") [] w).1 u ≡ true
  pub copy_keeps :
      (from to u : Str) (w : W)
      → active w u ≡ true
      → active (run_sudo_cmd host config (str "cp" ∷ from ∷ to ∷ []) w).1 u ≡ true
  pub reload_keeps :
      (u : Str) (w : W)
      → active w u ≡ true
      → active (run_sudo_cmd host config (str "systemctl" ∷ str "daemon-reload" ∷ []) w).1 u ≡ true
  pub enable_keeps :
      (unit u : Str) (w : W)
      → active w u ≡ true
      → active (systemctl host config (str "enable") unit w).1 u ≡ true
  pub write_keeps :
      (path bytes u : Str) (w : W)
      → active w u ≡ true
      → active (state_of (host.write_file path bytes w)) u ≡ true
  pub read_keeps :
      (path u : Str) (w : W)
      → active w u ≡ true
      → active (state_of (host.read_file path w)) u ≡ true
  pub ip_keeps :
      (u : Str) (w : W) → active w u ≡ true → active (state_of (host.external_ip w)) u ≡ true

module _ {W : Type 0} (host : Host W) (codec : Codec) (render : Render) (os : OsType)
    (home_dir : Str) (config : Config) (sd : Systemd host config)
    (calm : Undisturbed host config sd.active) (u : Str) where
  -- The unit is active.
  abbrev pub On : W → Type 0
  On w = sd.active w u ≡ true

  sudo_or_fail-Keeps :
      (args : List Str)
      → ((w : W) → On w → On (run_sudo_cmd host config args w).1)
      → Keeps On (sudo_or_fail host config args)
  unfolding sudo_or_fail
  sudo_or_fail-Keeps args h =
      bind-Keeps On _ _ (perform-Keeps On (run_sudo_cmd host config args) h)
        (λ r. option-Keeps On r.failure _ _ (pure-Keeps On tt) (λ e. fail-Keeps On _ e))

  address_parts-Keeps : (key address : Str) → Keeps On (address_parts key address)
  unfolding address_parts
  address_parts-Keeps key address = still-Keeps On _ (λ w on. parts (split_on b':' address) w on)
    where
      parts :
          (ps : List Str) (w : W)
          → On w
          → On (
              state_of {A = Str × Str × Str}
                (elim ps [ ip ∷ port ∷ rest ↦ ok (key, ip, port) w | _ ↦ panic w ]))
      parts [] w on = on
      parts (ip ∷ []) w on = on
      parts (ip ∷ port ∷ rest) w on = on

  find_by_ip-Keeps : (conf : Conf) (ext_ip : Str) → Keeps On (find_by_ip host codec conf ext_ip)
  unfolding find_by_ip
  find_by_ip-Keeps [] ext_ip = fail-Keeps On _ _
  find_by_ip-Keeps ((n, c) ∷ conf) ext_ip =
      bind-Keeps On _ _ (address_parts-Keeps c.mn_priv_key c.mn_address) (λ found.
        if-Keeps On (str_eq found.1 ext_ip) _ _ (pure-Keeps On found)
          (find_by_ip-Keeps conf ext_ip))

  get_masternode_conf_data-Keeps :
      (name ext_ip : Str) → Keeps On (get_masternode_conf_data host codec config name ext_ip)
  unfolding get_masternode_conf_data load_masternode_conf_file
  get_masternode_conf_data-Keeps name ext_ip =
      bind-Keeps On _ _
        (bind-Keeps On _ _ (still-Keeps On _ (λ w. calm.read_keeps _ u w))
          (λ bytes. lift-Keeps On (codec.unmarshal bytes)))
        (λ conf.
          option-Keeps On (lookup name conf) _ _ (find_by_ip-Keeps conf ext_ip)
            (λ c. address_parts-Keeps c.mn_priv_key c.mn_address))

  masternode_plan-Keeps :
      (cmd ext_ip : Str) → Keeps On (masternode_plan host codec os home_dir config cmd ext_ip)
  unfolding masternode_plan
  masternode_plan-Keeps cmd ext_ip =
      bind-Keeps On (get_masternode_conf_data host codec config config.master_node_name ext_ip)
        (λ data_of. pure (
          unit (cmd ++ (str " --txindex=1 --masternode --masternodeprivkey=" ++ data_of.0))
            config.pastel_exec_dir))
        (get_masternode_conf_data-Keeps config.master_node_name ext_ip)
        (λ data_of. pure-Keeps On (
          unit (cmd ++ (str " --txindex=1 --masternode --masternodeprivkey=" ++ data_of.0))
            config.pastel_exec_dir))

  exec_plan-Keeps :
      (name : Str) (command : Str → Str)
      → Keeps On (exec_plan host codec os home_dir config name command)
  unfolding exec_plan
  exec_plan-Keeps name command =
      still-Keeps On (exec_plan host codec os home_dir config name command) (λ w on. on)

  found_plan-Keeps :
      (is_mn : Bool) (path : Str) → Keeps On (found_plan host codec os home_dir config is_mn path)
  unfolding found_plan
  found_plan-Keeps is_mn path =
      bind-Keeps On host.external_ip _ (still-Keeps On host.external_ip (calm.ip_keeps u))
        (λ ext_ip.
          if-Keeps On is_mn _ _ (masternode_plan-Keeps (pasteld_command config path ext_ip) ext_ip)
            (pure-Keeps On (unit (pasteld_command config path ext_ip) config.pastel_exec_dir)))

  pasteld_plan-Keeps : (is_mn : Bool) → Keeps On (pasteld_plan host codec os home_dir config is_mn)
  unfolding pasteld_plan
  pasteld_plan-Keeps is_mn =
      let path = join config.pastel_exec_dir (pasteld_name os) in
      bind-Keeps On (query (check_file_exist host path)) _
        (query-Keeps On (check_file_exist host path))
        (λ exists. if-Keeps On exists _ _ (found_plan-Keeps is_mn path) (pure-Keeps On missing))

  dd_service_plan-Keeps : Keeps On (dd_service_plan host codec os home_dir config)
  unfolding dd_service_plan
  dd_service_plan-Keeps =
      still-Keeps On (dd_service_plan host codec os home_dir config) (λ w on. on)

  plan-Keeps :
      (app : ToolType) (is_mn : Bool) → Keeps On (plan host codec os home_dir config app is_mn)
  unfolding plan
  plan-Keeps dd_img_service is_mn =
      still-Keeps On (plan host codec os home_dir config dd_img_service is_mn) (λ w on. on)
  plan-Keeps pasteld is_mn = pasteld_plan-Keeps is_mn
  plan-Keeps dd_service is_mn = dd_service_plan-Keeps
  plan-Keeps rq_service is_mn = exec_plan-Keeps _ _
  plan-Keeps super_node is_mn = exec_plan-Keeps _ _
  plan-Keeps hermes is_mn = exec_plan-Keeps _ _
  plan-Keeps wallet_node is_mn = exec_plan-Keeps _ _
  plan-Keeps bridge is_mn = exec_plan-Keeps _ _
  plan-Keeps _ is_mn = pure-Keeps On skipped

  reload-Keeps : Keeps On (sudo_or_fail host config (str "systemctl" ∷ str "daemon-reload" ∷ []))
  reload-Keeps = sudo_or_fail-Keeps _ (calm.reload_keeps u)

  install_unit-Keeps :
      (app : ToolType) (user cmd dir : Str)
      → Keeps On (install_unit host codec render os home_dir config app user cmd dir)
  unfolding install_unit
  install_unit-Keeps app user cmd dir =
      let temp = join (str "/tmp") (unit_name app) in
      let text = lift (render (tool_string app ++ str " daemon") cmd dir user) in
      bind-Keeps On (wrap_error "unable ot create service file" text) _
        (wrap_error-Keeps On "unable ot create service file" text
          (lift-Keeps On (render (tool_string app ++ str " daemon") cmd dir user)))
        (λ bytes.
          bind-Keeps On (attempt (host.write_file temp bytes)) _
            (attempt-Keeps On (host.write_file temp bytes)
              (still-Keeps On (host.write_file temp bytes) (calm.write_keeps temp bytes u)))
            (λ written.
              then-Keeps On
                (sudo_or_fail host config
                  (str "cp" ∷ temp ∷ join systemd_system_dir (unit_name app) ∷ []))
                (wrap_error "unable to reload systemctl daemon"
                  (sudo_or_fail host config (str "systemctl" ∷ str "daemon-reload" ∷ [])))
                (sudo_or_fail-Keeps (str "cp" ∷ temp ∷ join systemd_system_dir (unit_name app) ∷ [])
                  (calm.copy_keeps temp (join systemd_system_dir (unit_name app)) u))
                (wrap_error-Keeps On "unable to reload systemctl daemon"
                  (sudo_or_fail host config (str "systemctl" ∷ str "daemon-reload" ∷ []))
                  reload-Keeps)))

  carry_out-Keeps :
      (app : ToolType) (user : Str) (p : UnitPlan)
      → Keeps On (carry_out host codec render os home_dir config app user p)
  unfolding carry_out
  carry_out-Keeps app user (unit cmd dir) = install_unit-Keeps app user cmd dir
  carry_out-Keeps app user missing = pure-Keeps On tt
  carry_out-Keeps app user skipped = pure-Keeps On tt

  register_new-Keeps :
      (app : ToolType) (is_mn : Bool)
      → Keeps On (register_new host codec render os home_dir config app is_mn)
  unfolding register_new
  register_new-Keeps app is_mn =
      bind-Keeps On _ _ (perform-Keeps On (host.run_cmd (str "whoami") []) (calm.whoami_keeps u))
        (λ who.
          option-Keeps On who.failure _ _
            (bind-Keeps On _ _ (plan-Keeps app is_mn) (λ p. carry_out-Keeps app who.output p))
            (λ e. fail-Keeps On _ (wrapf "unable to get own user name" e)))

  is_registered-Keeps :
      (app : ToolType) → Keeps On (is_registered host codec render os home_dir config app)
  is_registered-Keeps app = still-Keeps On _ (λ w on.
      rw (is_registered_lem host codec render os home_dir config sd app w)
        ((sd.list_keeps (unit_name app) u w).1 ∙ on))

  -- A registration stops no unit, whatever its outcome.
  pub register_service-Keeps :
      (app : ToolType) (is_mn : Bool)
      → Keeps On (register_service host codec render os home_dir config app is_mn)
  unfolding register_service
  register_service-Keeps app is_mn =
      bind-Keeps On _ _ (is_registered-Keeps app)
        (λ registered. if-Keeps On registered _ _ (pure-Keeps On tt) (register_new-Keeps app is_mn))

  pub enable_service-Keeps :
      (app : ToolType) → Keeps On (enable_service host codec render os home_dir config app)
  unfolding enable_service
  enable_service-Keeps app =
      wrap_error-Keeps On _ _ (sudo_or_fail-Keeps _ (calm.enable_keeps (unit_name app) u))
