-- ===== src/Service/Install/Active.antt =====
-- The interface that the installation relies on, and what it then achieves.
use pastelup.Base.{
  Str, str, Bool, true, false, List, [], ◌∷◌, inl, inr, errorf, ok, pure, fail, wrap_error,
  >>=-eq-ok, >>-eq-ok, wrap_error-eq-ok, str_eq, if◌then◌else◌, ◌≡◌, sym, ◌∙◌, then_lem, else_lem,
  All, Bool-cases,
}
use pastelup.Constants.{ToolType}
use pastelup.Configs.{Config}
use pastelup.Service.Manager.{ServiceManager}
use pastelup.Service.Install.{tool_to_tool_type, enable_step, start_step, install_one, install_all}

-- What a caller relies on of a manager: which tools are active, and that no operation of the
-- installation takes a tool down.
pub record Installs {W : Type 0} (sm : ServiceManager W) (config : Config) : Type 0 where
  pub active : W → ToolType → Bool
  pub register_keeps :
      (app t : ToolType) (is_mn : Bool) (w v : W)
      → sm.register_service config app is_mn w ≡ ok tt v
      → active w t ≡ true
      → active v t ≡ true
  pub enable_keeps :
      (app t : ToolType) (w v : W)
      → sm.enable_service config app w ≡ ok tt v
      → active w t ≡ true
      → active v t ≡ true
  pub start_keeps :
      (app t : ToolType) (w v : W) (b : Bool)
      → sm.start_service config app w ≡ ok b v
      → active w t ≡ true
      → active v t ≡ true
  pub start_activates :
      (app : ToolType) (w v : W) → sm.start_service config app w ≡ ok true v → active v app ≡ true

module _ {W : Type 0} (sm : ServiceManager W) (config : Config) (laws : Installs sm config)
    (starts : config.start_service ≡ true) where
  start_step-active :
      (tool : ToolType) (w v : W)
      → start_step sm config tool w ≡ ok tt v
      → (laws.active v tool ≡ true)
        × ((t : ToolType) → laws.active w t ≡ true → laws.active v t ≡ true)
  unfolding start_step
  start_step-active tool w v h =
      let (b, u, started, rest) =
        >>=-eq-ok (wrap_error "unable to start as a system service" (sm.start_service config tool))
          (λ running.
            if running then pure tt else fail (errorf "unable to start as a system service"))
          w (sym (then_lem config.start_service _ (pure tt) w starts) ∙ h) in
      after b u (wrap_error-eq-ok _ (sm.start_service config tool) w started) rest
    where
      after :
          (b : Bool) (u : W)
          → sm.start_service config tool w ≡ ok b u
          → (if b then pure tt else fail (errorf "unable to start as a system service")) u ≡ ok tt v
          → (laws.active v tool ≡ true)
            × ((t : ToolType) → laws.active w t ≡ true → laws.active v t ≡ true)
      after true u started rest =
          let same : u ≡ v = cc in
          (
            laws.start_activates tool w v (rw same at started),
            λ t on. laws.start_keeps tool t w v true (rw same at started) on,
          )
      after false u started rest = cc

  enable_step-keeps :
      (tool t : ToolType) (w v : W)
      → enable_step sm config tool w ≡ ok tt v
      → laws.active w t ≡ true
      → laws.active v t ≡ true
  unfolding enable_step
  enable_step-keeps tool t w v h on = elim (Bool-cases config.enable_service) [
    | inl yes_enable ↦
        laws.enable_keeps tool t w v
          (wrap_error-eq-ok _ (sm.enable_service config tool) w
            (sym (then_lem config.enable_service _ (pure tt) w yes_enable) ∙ h))
          on
    | inr not_enable ↦
        let done : pure {W = W} tt w ≡ ok tt v =
          sym (else_lem config.enable_service _ (pure tt) w not_enable) ∙ h in
        let same : w ≡ v = cc in rw (← same) on
  ]

  install_one-active :
      (app : Str) (w v : W)
      → install_one sm config app w ≡ ok tt v
      → (laws.active v (tool_to_tool_type app) ≡ true)
        × ((t : ToolType) → laws.active w t ≡ true → laws.active v t ≡ true)
  unfolding install_one
  install_one-active app w v h =
      let tool = tool_to_tool_type app in
      let (_, w₁, registered, rest) =
        >>-eq-ok (sm.register_service config tool (str_eq app (str "masternode"))) _ w h in
      let (_, w₂, enabled, started) =
        >>-eq-ok (enable_step sm config tool) (start_step sm config tool) w₁ rest in
      let (now, keeps) = start_step-active tool w₂ v started in
      (
        now,
        λ t on. keeps t (
            enable_step-keeps tool t w₁ w₂ enabled
              (laws.register_keeps tool t (str_eq app (str "masternode")) w w₁ registered on)),
      )

  install_all-keeps :
      (apps : List Str) (t : ToolType) (w v : W)
      → install_all sm config apps w ≡ ok tt v
      → laws.active w t ≡ true
      → laws.active v t ≡ true
  unfolding install_all
  install_all-keeps [] t w v h on = let same : w ≡ v = cc in rw (← same) on
  install_all-keeps (app ∷ rest) t w v h on =
      let (_, u, one, later) =
        >>-eq-ok (install_one sm config app) (install_all sm config rest) w h in
      install_all-keeps rest t u v later ((install_one-active app w u one).1 t on)

  -- If the installation of a list of tools is to start the services and succeeds, then each tool of
  -- the list is active afterwards, under a manager that starts what it reports as started and takes
  -- no tool down while it registers, enables or starts one.
  pub install_all-active :
      (apps : List Str) (w v : W)
      → install_all sm config apps w ≡ ok tt v
      → All (λ app. laws.active v (tool_to_tool_type app) ≡ true) apps
  unfolding install_all
  install_all-active [] w v h = tt
  install_all-active (app ∷ rest) w v h =
      let (_, u, one, later) =
        >>-eq-ok (install_one sm config app) (install_all sm config rest) w h in
      (
        install_all-keeps rest (tool_to_tool_type app) u v later (install_one-active app w u one).0,
        install_all-active rest u v later,
      )
