-- ===== src/Examples/Services.antt =====
-- The sample host obeys the laws of systemd, and the theorems on services apply to it.
use pastelup.Base.{
  some, Str, str, Bool, true, false, not, List, [], ◌∷◌, Error, errorf, wrapf, ◌⊎◌, inl, inr, ok,
  err, ◌≡◌, ◌≢◌, refl, str_eq, contains, All, state_of, trim_space, if◌then◌else◌, ◌||◌,
}
use pastelup.Constants.{linux, hermes, rq_service, tool_string}
use pastelup.Host.{run_sudo_cmd}
use pastelup.Host.Sample.{World, sample_host, empty_world}
use pastelup.Masternode.{Codec}
use pastelup.Masternode.RoundTrip.{str_eq_refl, str_eq-ne}
use pastelup.Service.{
  Render, unit_name, register_service, start_service, stop_service, new_service_manager,
}
use pastelup.Service.Laws.{register_service_missing}
use pastelup.Service.Remove.{remove_system_service, remove_system_service_stops_early}
use pastelup.Service.Install.{
  tool_to_process, is_solution_valid, is_flag_valid, solution_to_tools, install_all, install_one,
  enable_step, start_step,
}
use pastelup.Service.Install.Active.{Installs, install_all-active}
use pastelup.Service.Manager.{ServiceManager, noop_manager}
use pastelup.Service.Install.{tool_to_tool_type}
use pastelup.Service.Systemd.{Systemd, stop_ran, start_service_lem, stop_service_lem}
use pastelup.Examples.{sample_config}

unfoldable pub list_text : Bool → Str
list_text b = if b then str "1 unit files listed." else str "0 unit files listed."

pub list_text-answer :
    (b : Bool) → contains (trim_space (list_text b)) (str "0 unit files listed.") ≡ not b
unfolding list_text contains trim_space
list_text-answer true = refl
list_text-answer false = refl

pub status_text-answer :
    (b : Bool)
    → let status = trim_space (if b then str "active" else str "inactive") in
      (str_eq status (str "active") || str_eq status (str "activating")) ≡ b
unfolding trim_space str_eq
status_text-answer true = refl
status_text-answer false = refl

unfoldable pub sample_systemd : Systemd sample_host sample_config
unfolding sample_host run_sudo_cmd list_text
sample_systemd = record {
  registered = λ w. w.registered;
  active = λ w. w.active;
  list_answer = λ u w. list_text-answer (w.registered u);
  list_keeps = λ u u' w. (refl, refl);
  active_answer = λ u w. status_text-answer (w.active u);
  active_keeps = λ u u' w. (refl, refl);
  start_activates = λ u w h. rw (str_eq_refl u) refl;
  start_keeps = λ u u' w d. rw (str_eq-ne u' u d) refl;
  stop_deactivates = λ u w h. rw (str_eq_refl u) refl;
  stop_keeps = λ u u' w d. rw (str_eq-ne u' u d) refl;
  stop_registered = λ u u' w. refl;
}

-- A codec and a template that are never reached here.
abbrev pub no_codec : Codec
no_codec = record {
  marshal = λ conf. inl (errorf "marshal");
  unmarshal = λ s. inl (errorf "unmarshal");
}

abbrev pub sample_render : Render
sample_render description command dir user = inr command

-- The unit of hermes is registered, and is not active.
abbrev pub hermes_world : World
hermes_world = record empty_world { registered = λ u. true }

start_service_lem_example :
    (b : Bool) × (v : World) × (start_service sample_host no_codec sample_render linux
        (str "h")
        sample_config
        hermes
        hermes_world
      ≡ ok b v)
    × (b ≡ true → sample_systemd.active v (unit_name hermes) ≡ true)
    × (sample_systemd.registered hermes_world (unit_name hermes) ≡ false → b ≡ false)
    × (sample_systemd.active hermes_world (unit_name hermes) ≡ true
        → sample_systemd.active v (unit_name hermes) ≡ true)
    × ((u' : Str)
        → u' ≢ unit_name hermes
        → sample_systemd.active v u' ≡ sample_systemd.active hermes_world u')
start_service_lem_example =
    start_service_lem sample_host no_codec sample_render linux (str "h") sample_config
      sample_systemd hermes hermes_world

stop_service_lem_example :
    (v : World) × (((stop_service sample_host no_codec sample_render linux
            (str "h")
            sample_config
            hermes
            hermes_world
          ≡ ok tt v)
        × (sample_systemd.active v (unit_name hermes) ≡ false))
      ⊎ ((e : Error) × (stop_service sample_host no_codec sample_render linux
              (str "h")
              sample_config
              hermes
              hermes_world
            ≡ err (wrapf "unable to stop service" e) v)
          × (sample_systemd.active hermes_world (unit_name hermes) ≡ true)
          × ((stop_ran sample_host sample_config (unit_name hermes) hermes_world).failure
              ≡ some e)))
    × ((u' : Str)
        → (sample_systemd.registered v u' ≡ sample_systemd.registered hermes_world u')
          × (u' ≢ unit_name hermes
              → sample_systemd.active v u' ≡ sample_systemd.active hermes_world u'))
stop_service_lem_example =
    stop_service_lem sample_host no_codec sample_render linux (str "h") sample_config sample_systemd
      hermes hermes_world

register_service_missing_example :
    register_service sample_host no_codec sample_render linux
      (str "h")
      sample_config
      rq_service
      true
      empty_world
    ≡ ok tt empty_world
unfolding sample_systemd sample_host
register_service_missing_example =
    register_service_missing sample_host no_codec sample_render linux (str "h") sample_config
      sample_systemd rq_service true empty_world refl refl refl

remove_system_service_stops_early_example :
    (v : World) × (remove_system_service
        (new_service_manager sample_host no_codec sample_render linux (str "h"))
        sample_config
        empty_world
      ≡ ok tt v)
    × ((u : Str)
        → (sample_systemd.registered v u ≡ sample_systemd.registered empty_world u)
          × (sample_systemd.active v u ≡ sample_systemd.active empty_world u))
unfolding sample_systemd tool_to_process is_solution_valid is_flag_valid solution_to_tools
remove_system_service_stops_early_example =
    remove_system_service_stops_early sample_host no_codec sample_render (str "h") sample_config
      sample_systemd (str "node") (str "walletnode" ∷ str "rq-service" ∷ []) empty_world refl refl

-- A manager that starts whatever it is asked to.
eager_manager : ServiceManager World
unfolding noop_manager
eager_manager = record noop_manager {
  start_service = λ config app w.
      ok true (record w { active = λ u. if str_eq u (tool_string app) then true else w.active u });
}

if-true : (b c : Bool) → c ≡ true → (if b then true else c) ≡ true
if-true true c h = refl
if-true false c h = h

eager_laws : Installs eager_manager sample_config
unfolding eager_manager noop_manager
eager_laws = record {
  active = λ w t. w.active (tool_string t);
  register_keeps = λ app t is_mn w v h on. let same : w ≡ v = cc in rw (← same) on;
  enable_keeps = λ app t w v h on. let same : w ≡ v = cc in rw (← same) on;
  start_keeps = λ app t w v b h on.
      let same : record w { active = λ u. if str_eq u (tool_string app) then true else w.active u }
          ≡ v =
        cc in
      rw (← same)
        (if-true (str_eq (tool_string t) (tool_string app)) (w.active (tool_string t)) on);
  start_activates = λ app w v h.
      let same : record w { active = λ u. if str_eq u (tool_string app) then true else w.active u }
          ≡ v =
        cc in
      rw (← same) (rw (str_eq_refl (tool_string app)) refl);
}

abbrev two_tools : List Str
two_tools = str "node" ∷ str "rq-service" ∷ []

both_active : World
unfolding eager_manager install_all
both_active = state_of (install_all eager_manager sample_config two_tools empty_world)

install_all-active_example :
    All (λ app. eager_laws.active both_active (tool_to_tool_type app) ≡ true) two_tools
unfolding both_active eager_manager noop_manager install_all install_one enable_step start_step
install_all-active_example =
    install_all-active eager_manager sample_config eager_laws refl two_tools empty_world both_active
      refl
