-- ===== src/Examples/Units.antt =====
-- Stopping and installing services with the manager of Linux on the sample host.
use pastelup.Base.{
  Option-cases, has_prefix, Str, str, true, false, List, [], ◌∷◌, none, some, errorf, inl, inr, ok,
  err, ◌≡◌, ◌≢◌, refl, sym, ◌∙◌, Bool-cases, str_eq, ◌>>=◌, contains, All, state_of, trim_space,
}
use pastelup.Constants.{linux, ToolType, hermes, rq_service, tool_string}
use pastelup.Host.{run_sudo_cmd, sudo_or_fail}
use pastelup.Host.Sample.{World, sample_host, empty_world}
use pastelup.Service.{
  unit_name, register_service, start_service, stop_service, new_service_manager,
  linux_systemd_manager, is_running, is_registered, enable_service,
}
use pastelup.Service.Install.{
  tool_to_process, is_solution_valid, is_flag_valid, solution_to_tools, install_all, install_one,
  enable_step, start_step,
}
use pastelup.Service.Manager.{ServiceManager, noop_manager}
use pastelup.Service.Install.{tool_to_tool_type}
use pastelup.Stop.{stop_services}
use pastelup.Stop.Services.{Stops, CanStop, stop_services-inactive, stop_services-never_fails}
use pastelup.Service.Linux.Calm.{Undisturbed}
use pastelup.Service.Linux.{install_system_service-active}
use pastelup.Service.Install.{install_system_service}
use pastelup.Stop.Systemd.{linux-Stops}
use pastelup.Service.Systemd.{systemctl, is_running_lem}
use pastelup.Examples.{sample_config}
use pastelup.Examples.Services.{sample_systemd, no_codec, sample_render, hermes_world}

-- On the sample host `systemctl stop` never fails.
hermes_stopped :
    (w : World)
    → (v : World) × (stop_service sample_host no_codec sample_render linux
          (str "h")
          sample_config
          hermes
          w
        ≡ ok tt v)
unfolding stop_service sample_host sudo_or_fail run_sudo_cmd
hermes_stopped w =
    let running =
      is_running_lem sample_host no_codec sample_render linux (str "h") sample_config sample_systemd
        hermes w in
    elim (Bool-cases (sample_systemd.active w (unit_name hermes))) [
      | inl on ↦ (
        (systemctl sample_host sample_config (str "stop") (unit_name hermes) w).1,
        rw (running, on, ◌>>=◌) refl,
      )
      | inr off ↦ (w, rw (running, off, ◌>>=◌) refl)
    ]

abbrev sample_manager : ServiceManager World
sample_manager = linux_systemd_manager sample_host no_codec sample_render linux (str "h")

abbrev sample_stops : Stops sample_manager sample_config
sample_stops =
    linux-Stops sample_host no_codec sample_render linux (str "h") sample_config sample_systemd

hermes_stops : CanStop sample_host linux sample_manager sample_config sample_stops hermes
unfolding linux_systemd_manager
hermes_stops w e v h =
    let (u, stopped) = hermes_stopped w in let clash : err e v ≡ ok tt u = sym h ∙ stopped in cc

stop_services-inactive_example :
    (v : World) × (stop_services sample_host linux
        (sample_manager, none)
        sample_config
        (hermes ∷ [])
        hermes_world
      ≡ ok tt v)
    × All (λ t. sample_stops.active v t ≡ false) (hermes ∷ [])
    × ((t : ToolType)
        → sample_stops.active hermes_world t ≡ false
        → sample_stops.active v t ≡ false)
unfolding linux-Stops sample_systemd
stop_services-inactive_example =
    stop_services-inactive sample_host linux sample_manager sample_config sample_stops (hermes ∷ [])
      hermes_world ((refl, hermes_stops), tt)

-- Where no service is registered, the processes are looked for.
stop_services-never_fails_example :
    stop_services sample_host linux
      (noop_manager, some (errorf "unsupported"))
      sample_config
      (hermes ∷ rq_service ∷ [])
      empty_world
    ≢ err (errorf "stopped") empty_world
unfolding noop_manager
stop_services-never_fails_example =
    stop_services-never_fails sample_host linux noop_manager sample_config
      (some (errorf "unsupported")) (hermes ∷ rq_service ∷ []) (λ service w e v h. cc) empty_world
      (errorf "stopped") empty_world

sample_calm : Undisturbed sample_host sample_config sample_systemd.active
unfolding sample_systemd sample_host run_sudo_cmd
sample_calm = record {
  whoami_keeps = λ u w on. on;
  copy_keeps = λ from to u w on. on;
  reload_keeps = λ u w on. on;
  enable_keeps = λ unit u w on. on;
  write_keeps = λ path bytes u w on. on;
  read_keeps = λ path u w on. elim (Option-cases (w.files path)) [
    | inl absent ↦ rw (absent, sample_host) on
    | inr (bytes, there) ↦ rw (there, sample_host) on
  ];
  ip_keeps = λ u w on. on;
}

abbrev wallet_tools : List Str
wallet_tools = str "node" ∷ str "walletnode" ∷ str "rq-service" ∷ []

installed_world : World
unfolding new_service_manager linux_systemd_manager install_system_service
installed_world = state_of (
    install_system_service (new_service_manager sample_host no_codec sample_render linux (str "h"))
      sample_config hermes_world)

install_system_service-active_example :
    All
      (λ app. sample_systemd.active installed_world (unit_name (tool_to_tool_type app)) ≡ true)
      wallet_tools
unfolding installed_world tool_to_process is_solution_valid is_flag_valid solution_to_tools str_eq
    install_all install_one register_service is_registered contains trim_space run_sudo_cmd
    sample_host enable_step enable_service sudo_or_fail start_step start_service is_running
    unit_name tool_string tool_to_tool_type install_system_service new_service_manager
    linux_systemd_manager has_prefix
install_system_service-active_example =
    install_system_service-active sample_host no_codec sample_render (str "h") sample_config
      sample_systemd sample_calm wallet_tools hermes_world installed_world refl refl refl
