-- ===== src/Service/Systemd.antt =====
-- What systemd documents of the commands that the service manager runs (systemctl(1)), as laws on
-- the host, and what the manager's operations then achieve.
use pastelup.Base.{
  Str, str, Bool, true, false, not, [], ◌∷◌, none, ok, err, some, ◌≡◌, ◌≢◌, ◌⊎◌, refl, ◌∙◌, str_eq,
  ◌||◌, contains, trim_space, Bool-cases, inl, inr, ◌>>=◌, wrap_error, Option-cases, Error, wrapf,
}
use pastelup.Constants.{OsType, ToolType}
use pastelup.Configs.{Config}
use pastelup.Host.{Host, Ran, run_sudo_cmd, sudo_or_fail}
use pastelup.Masternode.{Codec}
use pastelup.Service.{Render, unit_name, is_running, is_registered, start_service, stop_service}

-- `sudo systemctl VERB UNIT`
abbrev pub systemctl : {W : Type 0} → Host W → Config → Str → Str → W → Ran × W
systemctl host config verb u = run_sudo_cmd host config (str "systemctl" ∷ verb ∷ u ∷ [])

-- How `systemctl stop` ends after the unit was found active.
abbrev pub stop_ran : {W : Type 0} → Host W → Config → Str → W → Ran
stop_ran host config u w =
    (systemctl host config (str "stop") u (systemctl host config (str "is-active") u w).1).0

-- Which units have a file, which are active or activating, and how the commands read and change
-- that. A start or stop that fails may leave its own unit in any state, and no command touches
-- another unit.
pub record Systemd {W : Type 0} (host : Host W) (config : Config) : Type 0 where
  pub registered : W → Str → Bool
  pub active : W → Str → Bool
  pub list_answer :
      (u : Str) (w : W)
      → contains
          (trim_space (systemctl host config (str "list-unit-files") u w).0.output)
          (str "0 unit files listed.")
        ≡ not (registered w u)
  pub list_keeps :
      (u u' : Str) (w : W)
      → let v = (systemctl host config (str "list-unit-files") u w).1 in
        (registered v u' ≡ registered w u') × (active v u' ≡ active w u')
  pub active_answer :
      (u : Str) (w : W)
      → let status = trim_space (systemctl host config (str "is-active") u w).0.output in
        (str_eq status (str "active") || str_eq status (str "activating")) ≡ active w u
  pub active_keeps :
      (u u' : Str) (w : W)
      → let v = (systemctl host config (str "is-active") u w).1 in
        (registered v u' ≡ registered w u') × (active v u' ≡ active w u')
  pub start_activates :
      (u : Str) (w : W)
      → (systemctl host config (str "start") u w).0.failure ≡ none
      → active (systemctl host config (str "start") u w).1 u ≡ true
  pub start_keeps :
      (u u' : Str) (w : W)
      → u' ≢ u
      → active (systemctl host config (str "start") u w).1 u' ≡ active w u'
  pub stop_deactivates :
      (u : Str) (w : W)
      → (systemctl host config (str "stop") u w).0.failure ≡ none
      → active (systemctl host config (str "stop") u w).1 u ≡ false
  pub stop_keeps :
      (u u' : Str) (w : W)
      → u' ≢ u
      → active (systemctl host config (str "stop") u w).1 u' ≡ active w u'
  pub stop_registered :
      (u u' : Str) (w : W)
      → registered (systemctl host config (str "stop") u w).1 u' ≡ registered w u'

not-not : (b : Bool) → not (not b) ≡ b
not-not true = refl
not-not false = refl

module _ {W : Type 0} (host : Host W) (codec : Codec) (render : Render) (os : OsType)
    (home_dir : Str) (config : Config) (sd : Systemd host config) where
  pub is_registered_lem :
      (app : ToolType) (w : W)
      → is_registered host codec render os home_dir config app w
        ≡ ok
            (sd.registered w (unit_name app))
            (systemctl host config (str "list-unit-files") (unit_name app) w).1
  unfolding is_registered
  is_registered_lem app w =
      rw (sd.list_answer (unit_name app) w, not-not (sd.registered w (unit_name app))) refl

  pub is_running_lem :
      (app : ToolType) (w : W)
      → is_running host codec render os home_dir config app w
        ≡ ok
            (sd.active w (unit_name app))
            (systemctl host config (str "is-active") (unit_name app) w).1
  unfolding is_running
  is_running_lem app w = rw (sd.active_answer (unit_name app) w) refl

  -- Where systemctl works as documented, starting a service never returns an error. If it reports a
  -- start, the unit is active; an unregistered service is never reported as started; the unit stays
  -- active if it was, and the other units stay as they were.
  pub start_service_lem :
      (app : ToolType) (w : W)
      → let u = unit_name app in
        (b : Bool) × (v : W) × (start_service host codec render os home_dir config app w ≡ ok b v)
        × (b ≡ true → sd.active v u ≡ true)
        × (sd.registered w u ≡ false → b ≡ false)
        × (sd.active w u ≡ true → sd.active v u ≡ true)
        × ((u' : Str) → u' ≢ u → sd.active v u' ≡ sd.active w u')
  unfolding start_service
  start_service_lem app w =
      let u = unit_name app in
      let w₁ = (systemctl host config (str "list-unit-files") u w).1 in
      let w₂ = (systemctl host config (str "is-active") u w₁).1 in
      let ran = systemctl host config (str "start") u w₂ in
      elim (Bool-cases (sd.registered w u)) [
        | inr new ↦ (
          false,
          w₁,
          rw (is_registered_lem app w, new, ◌>>=◌) refl,
          λ e. cc,
          λ e. refl,
          λ on. (sd.list_keeps u u w).1 ∙ on,
          λ u' d. (sd.list_keeps u u' w).1,
        )
        | inl old ↦ elim (Bool-cases (sd.active w₁ u)) [
          | inl on ↦ (
            true,
            w₂,
            rw (is_registered_lem app w, old, ◌>>=◌) (rw (is_running_lem app w₁, on, ◌>>=◌) refl),
            λ e. (sd.active_keeps u u w₁).1 ∙ on,
            λ e. cc,
            λ was. (sd.active_keeps u u w₁).1 ∙ on,
            λ u' d. (sd.active_keeps u u' w₁).1 ∙ (sd.list_keeps u u' w).1,
          )
          | inr off ↦
              let others : (u' : Str) → u' ≢ u → sd.active ran.1 u' ≡ sd.active w u' = λ u' d.
                sd.start_keeps u u' w₂ d ∙ (sd.active_keeps u u' w₁).1 ∙ (sd.list_keeps u u' w).1 in
              elim (Option-cases ran.0.failure) [
                | inl fine ↦ (
                  true,
                  ran.1,
                  rw (is_registered_lem app w, old, ◌>>=◌)
                      (rw (is_running_lem app w₁, off, ◌>>=◌) (rw (fine, ◌>>=◌) refl)),
                  λ e. sd.start_activates u w₂ fine,
                  λ e. cc,
                  λ on. sd.start_activates u w₂ fine,
                  others,
                )
                | inr (e, failed) ↦ (
                  false,
                  ran.1,
                  rw (is_registered_lem app w, old, ◌>>=◌)
                      (rw (is_running_lem app w₁, off, ◌>>=◌) (rw (failed, ◌>>=◌) refl)),
                  λ e. cc,
                  λ e. refl,
                  λ on. let was : sd.active w₁ u ≡ true = (sd.list_keeps u u w).1 ∙ on in cc,
                  others,
                )
              ]
        ]
      ]

  -- Where systemctl works as documented, stopping a service returns an error only if the unit is active and `systemctl stop` fails; else the unit
  -- is inactive afterwards. The other units stay as they were, and the same units are registered.
  pub stop_service_lem :
      (app : ToolType) (w : W)
      → let u = unit_name app in
        (v : W) × (((stop_service host codec render os home_dir config app w ≡ ok tt v)
            × (sd.active v u ≡ false))
          ⊎ ((e : Error) × (stop_service host codec render os home_dir config app w
                ≡ err (wrapf "unable to stop service" e) v)
              × (sd.active w u ≡ true)
              × ((stop_ran host config u w).failure ≡ some e)))
        × ((u' : Str)
            → (sd.registered v u' ≡ sd.registered w u')
              × (u' ≢ u → sd.active v u' ≡ sd.active w u'))
  unfolding stop_service sudo_or_fail
  stop_service_lem app w =
      let u = unit_name app in
      let w₁ = (systemctl host config (str "is-active") u w).1 in
      let ran = systemctl host config (str "stop") u w₁ in
      elim (Bool-cases (sd.active w u)) [
        | inr off ↦ (
          w₁,
          inl (rw (is_running_lem app w, off, ◌>>=◌) refl, (sd.active_keeps u u w).1 ∙ off),
          λ u'. ((sd.active_keeps u u' w).0, λ d. (sd.active_keeps u u' w).1),
        )
        | inl on ↦
            let others : (u' : Str)
                → (sd.registered ran.1 u' ≡ sd.registered w u')
                  × (u' ≢ u → sd.active ran.1 u' ≡ sd.active w u') =
              λ u'. (
                sd.stop_registered u u' w₁ ∙ (sd.active_keeps u u' w).0,
                λ d. sd.stop_keeps u u' w₁ d ∙ (sd.active_keeps u u' w).1,
              ) in
            elim (Option-cases ran.0.failure) [
              | inl fine ↦ (
                ran.1,
                inl (
                  rw (is_running_lem app w, on, ◌>>=◌) (rw (fine, wrap_error, ◌>>=◌) refl),
                  sd.stop_deactivates u w₁ fine,
                ),
                others,
              )
              | inr (e, failed) ↦ (
                ran.1,
                inr (
                  e,
                  rw (is_running_lem app w, on, ◌>>=◌) (rw (failed, wrap_error, ◌>>=◌) refl),
                  on,
                  failed,
                ),
                others,
              )
            ]
      ]
