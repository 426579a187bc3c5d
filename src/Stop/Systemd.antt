-- ===== src/Stop/Systemd.antt =====
-- The manager of Linux is one that `stopServices` can rely on.
use pastelup.Base.{Str, str, false, str_eq, str_eq_iff, ◌≡◌, inl, inr, ◌∙◌, Bool-cases, wrapf}
use pastelup.Constants.{OsType}
use pastelup.Configs.{Config}
use pastelup.Host.{Host}
use pastelup.Masternode.{Codec}
use pastelup.Service.{Render, unit_name, linux_systemd_manager}
use pastelup.Service.Systemd.{Systemd, systemctl, is_registered_lem, stop_service_lem}
use pastelup.Stop.Services.{Stops}

module _ {W : Type 0} (host : Host W) (codec : Codec) (render : Render) (os : OsType)
    (home_dir : Str) (config : Config) (sd : Systemd host config) where
  unfoldable pub linux-Stops : Stops (linux_systemd_manager host codec render os home_dir) config
  unfolding linux_systemd_manager
  linux-Stops = record {
    registered = λ w t. sd.registered w (unit_name t);
    active = λ w t. sd.active w (unit_name t);
    is_registered_lem = λ app w. (
      (systemctl host config (str "list-unit-files") (unit_name app) w).1,
      is_registered_lem host codec render os home_dir config sd app w,
      λ t. sd.list_keeps (unit_name app) (unit_name t) w,
    );
    stop_service_lem = λ app w.
        let (v, outcome, others) = stop_service_lem host codec render os home_dir config sd app w in
        (
          v,
          elim outcome [
            | inl fine ↦ inl fine
            | inr (e, failed, on, stuck) ↦ inr (wrapf "unable to stop service" e, failed)
          ],
          λ t. (
            (others (unit_name t)).0,
            λ off. elim (Bool-cases (str_eq (unit_name t) (unit_name app))) [
              | inr differs ↦
                  (others (unit_name t)).1
                    (λ same. let yes? = (str_eq_iff (unit_name t) (unit_name app)).1 same in cc)
                  ∙ off
              | inl yes? ↦
                  let same = (str_eq_iff (unit_name t) (unit_name app)).0 yes? in
                  elim outcome [
                    | inl (_, stopped) ↦ rw same stopped
                    | inr (_, _, on, _) ↦
                        let off_app : sd.active w (unit_name app) ≡ false = rw (← same) off in cc
                  ]
            ],
          ),
        );
  }
