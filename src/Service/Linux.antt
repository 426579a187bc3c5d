-- ===== src/Service/Linux.antt =====
-- The manager of Linux is one that the installation can rely on, by what systemd documents.
pub mod Calm
use pastelup.Base.{
  All, Str, Bool, true, List, inl, inr, ok, ◌>>=◌, str_eq, str_eq_iff, ◌≡◌, refl, ◌∙◌, Bool-cases,
  Keeps-ok,
}
use pastelup.Constants.{OsType, linux, ToolType}
use pastelup.Configs.{Config}
use pastelup.Host.{Host}
use pastelup.Masternode.{Codec}
use pastelup.Service.{Render, unit_name, start_service, linux_systemd_manager, new_service_manager}
use pastelup.Service.Systemd.{Systemd, start_service_lem}
use pastelup.Service.Install.{install_system_service, tool_to_process, tool_to_tool_type}
use pastelup.Service.Install.Active.{Installs, install_all-active}
use pastelup.Service.Linux.Calm.{Undisturbed, On, register_service-Keeps, enable_service-Keeps}

module _ {W : Type 0} (host : Host W) (codec : Codec) (render : Render) (os : OsType)
    (home_dir : Str) (config : Config) (sd : Systemd host config)
    (calm : Undisturbed host config sd.active) where
  start_service-active :
      (app t : ToolType) (w v : W) (b : Bool)
      → start_service host codec render os home_dir config app w ≡ ok b v
      → (b ≡ true → sd.active v (unit_name app) ≡ true)
        × (sd.active w (unit_name t) ≡ true → sd.active v (unit_name t) ≡ true)
  start_service-active app t w v b h =
      let (c, u, started, on_start, _, stays, others) =
        start_service_lem host codec render os home_dir config sd app w in
      let same_state : u ≡ v = cc in
      let same_result : c ≡ b = cc in
      (
        (λ e. rw (← same_state) (on_start (same_result ∙ e))),
        (λ on. rw (← same_state) (elim (Bool-cases (str_eq (unit_name t) (unit_name app))) [
          | inl yes? ↦
              let same = (str_eq_iff (unit_name t) (unit_name app)).0 yes? in
              rw same (stays (rw same at on))
          | inr differs ↦
              others (unit_name t)
                (λ same. let yes? = (str_eq_iff (unit_name t) (unit_name app)).1 same in cc)
              ∙ on
        ])),
      )

  -- The manager of Linux starts what it reports as started, and registering, enabling or starting a
  -- service takes no service down.
  pub linux-Installs : Installs (linux_systemd_manager host codec render os home_dir) config
  unfolding linux_systemd_manager
  linux-Installs = record {
    active = λ w t. sd.active w (unit_name t);
    register_keeps = λ app t is_mn w v h on.
        Keeps-ok (On host codec render os home_dir config sd calm (unit_name t)) _
          (register_service-Keeps host codec render os home_dir config sd calm (unit_name t) app
            is_mn)
          h on;
    enable_keeps = λ app t w v h on.
        Keeps-ok (On host codec render os home_dir config sd calm (unit_name t)) _
          (enable_service-Keeps host codec render os home_dir config sd calm (unit_name t) app) h
          on;
    start_keeps = λ app t w v b h on. (start_service-active app t w v b h).1 on;
    start_activates = λ app w v h. (start_service-active app app w v true h).0 refl;
  }

module _ {W : Type 0} (host : Host W) (codec : Codec) (render : Render) (home_dir : Str)
    (config : Config) (sd : Systemd host config) (calm : Undisturbed host config sd.active) where
  -- On Linux, where systemctl works as documented and the other calls of a registration stop no
  -- unit: if `installSystemService` is to start the services and succeeds, then the unit of each tool
  -- that the command names is active afterwards.
  pub install_system_service-active :
      (tools : List Str) (w v : W)
      → config.start_service ≡ true
      → tool_to_process config ≡ inr tools
      → install_system_service (new_service_manager host codec render linux home_dir) config w
        ≡ ok tt v
      → All (λ app. sd.active v (unit_name (tool_to_tool_type app)) ≡ true) tools
  unfolding install_system_service new_service_manager linux-Installs
  install_system_service-active tools w v starts named h =
      install_all-active (linux_systemd_manager host codec render linux home_dir) config
        (linux-Installs host codec render linux home_dir config sd calm) starts tools w v
        (rw (named, ◌>>=◌) at h)
