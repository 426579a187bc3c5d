-- ===== src/Install/Untouched/Ready.antt =====
-- The steps of `runServicesInstall` before the components leave an update ready: it stays an update
-- with the same directories.
use pastelup.Base.{
  ℕ, zero, suc, Str, str, Bool, true, false, ◌||◌, [], ◌++◌, errorf, os_error, pure, fail, query,
  perform, ◌>>=◌, if◌then◌else◌, has_prefix, ◌≡◌, refl, ap, ◌∙◌, bind-Keeps, wrap_error-Keeps,
  if-Keeps, query-Keeps, pure-Keeps, fail-Keeps, Gives, after_Keeps-Gives, then-Gives, pure-Gives,
  fail-Gives, perform-Gives, if-Gives, is_empty, str_eq,
}
use pastelup.Path.{join}
use pastelup.Constants.{
  OsType, pastel_conf_name, dupe_detection_sub_folder, dupe_detection_service_dir,
  dupe_detection_support_file_path,
}
use pastelup.Configs.{Config}
use pastelup.Host.{Host, Stat, present, not_exist, stat_error, check_file_exist}
use pastelup.PastelConf.{parse_pastel_conf, parse_lines}
use pastelup.PastelConf.Lines.{scan_lines}
use pastelup.Disk.{Disk, generate_random_string}
use pastelup.Disk.Clean.{clean}
use pastelup.Install.{
  is_install, is_update, check_install_dir, overwrite_install_dir, default_rpc_port,
  default_rpc_user, default_rpc_pwd, get_default_rpc_parameters,
}
use pastelup.Install.Frame.{frame, frame-parse_lines, frame-get_default_rpc_parameters}
use pastelup.Install.Untouched.{LeavesFile, create_folder-Keeps}
use pastelup.Install.Untouched.Parts.{IsOutside}
use pastelup.Install.Untouched.Packages.{ask-Keeps}

abbrev pub IsReady : Str → Config → Type 0
IsReady p c = IsOutside p c × (is_install c ≡ false) × (c.use_snapshot ≡ false)

-- A configuration of the same frame
pub same-IsReady : (p : Str) (c d : Config) → frame c ≡ frame d → IsReady p d → IsReady p c
same-IsReady p c d e (o, update, plain) = (
  record {
    programs = ap (λ f. has_prefix p f.0) e ∙ o.programs;
    programs_cleaned =
        ap (λ f. has_prefix p (clean (join f.0 []) ++ str "/")) e ∙ o.programs_cleaned;
    dd_cleaned =
        ap (λ f. has_prefix p (clean (join f.0 dupe_detection_sub_folder) ++ str "/")) e
        ∙ o.dd_cleaned;
    support =
        ap
          (λ f.
            has_prefix p (
              join (join f.1.home_dir dupe_detection_service_dir) dupe_detection_support_file_path))
          e
        ∙ o.support;
    support_cleaned =
        ap
          (λ f. has_prefix p (
            clean
              (join (join f.1.home_dir dupe_detection_service_dir) dupe_detection_support_file_path)
            ++ str "/"))
          e
        ∙ o.support_cleaned;
  },
  ap (λ f. str_eq f.2 (str "install")) e ∙ update,
  ap (λ f. f.3) e ∙ plain,
)

module _ {W : Type 0} (host : Host W) (disk : Disk W) (os : OsType) (p : Str) (P : W → Type 0)
    (laws : LeavesFile host disk p P) where
  pub parse-Gives :
      (config : Config) → IsReady p config → Gives P (IsReady p) (parse_pastel_conf host config)
  unfolding parse_pastel_conf
  parse-Gives config ready =
      after_Keeps-Gives P (IsReady p) (query (host.stat (join config.working_dir pastel_conf_name)))
        _ (query-Keeps P (host.stat (join config.working_dir pastel_conf_name))) by_stat
    where
      by_stat :
          (st : Stat)
          → Gives P (IsReady p) (elim st [
            | not_exist ↦ fail (os_error "file does not exist")
            | stat_error e ↦ fail e
            | present ↦ host.read_file (join config.working_dir pastel_conf_name) >>= λ bytes.
                pure (parse_lines config (scan_lines bytes))
          ])
      by_stat not_exist = fail-Gives P (IsReady p) (os_error "file does not exist")
      by_stat (stat_error e) = fail-Gives P (IsReady p) e
      by_stat present = after_Keeps-Gives P (IsReady p) _ _ (laws.read_file_lem _) (λ bytes.
          pure-Gives P (IsReady p) _
            (same-IsReady p _ config (frame-parse_lines config (scan_lines bytes)) ready))

  overwrite-Gives :
      (config : Config) (path mode : Str)
      → IsReady p config
      → Gives P (IsReady p) (overwrite_install_dir host disk os config path mode)
  unfolding overwrite_install_dir
  overwrite-Gives config path mode ready =
      then-Gives P (IsReady p) _ _
        (if-Keeps P config.force _ _ (pure-Keeps P tt) (
          bind-Keeps P _ _ (ask-Keeps host disk os p P laws _) (λ answer.
            if-Keeps P answer.0 _ _ (pure-Keeps P tt)
              (fail-Keeps P (Unit {0}) (errorf "user terminated installation")))))
        (pure-Gives P (IsReady p) (record config { force = true })
          (same-IsReady p (record config { force = true }) config refl ready))

  pub dir-Gives :
      (config : Config) (path mode : Str)
      → IsReady p config
      → Gives P (IsReady p) (check_install_dir host disk os config path mode)
  unfolding check_install_dir
  dir-Gives config path mode ready =
      after_Keeps-Gives P (IsReady p) (query (check_file_exist host config.pastel_exec_dir)) _
        (query-Keeps P (check_file_exist host config.pastel_exec_dir))
        (λ exists. if-Gives P (IsReady p) exists _ _ (overwrite-Gives config path mode ready) (
          if-Gives P (IsReady p) (is_update config) _ _
            (fail-Gives P (IsReady p) (errorf "nothing to update. Exiting"))
            (then-Gives P (IsReady p) _ _
              (wrap_error-Keeps P "failed to create install directory" _
                (create_folder-Keeps host disk os p P laws path config.force))
              (pure-Gives P (IsReady p) config ready))))

  random_string-state : (n : ℕ) (w : W) → P w → P (generate_random_string host disk os n w).1
  unfolding generate_random_string
  random_string-state zero w h = h
  random_string-state (suc n) w h = random_string-state n _ (laws.random_lem 62 w h)

  if-state : (b : Bool) (x y : Config × W) → P x.1 → P y.1 → P (if b then x else y).1
  if-state true x y hx hy = hx
  if-state false x y hx hy = hy

  user-state : (config : Config) (w : W) → P w → P (default_rpc_user host disk os config w).1
  unfolding default_rpc_user
  user-state config w h =
      if-state (is_empty config.rpc_user || config.regen_rpc) _ _ (random_string-state 8 w h) h

  pwd-state : (config : Config) (w : W) → P w → P (default_rpc_pwd host disk os config w).1
  unfolding default_rpc_pwd
  pwd-state config w h =
      if-state (is_empty config.rpc_pwd || config.regen_rpc) _ _ (random_string-state 15 w h) h

  pub rpc-Gives :
      (config : Config)
      → IsReady p config
      → Gives P (IsReady p) (perform (get_default_rpc_parameters host disk os config))
  unfolding get_default_rpc_parameters
  rpc-Gives config ready =
      perform-Gives P (IsReady p) (get_default_rpc_parameters host disk os config) (λ w h. (
        same-IsReady p _ config (frame-get_default_rpc_parameters host disk os config w) ready,
        pwd-state _ _ (user-state (default_rpc_port host disk os config) w h),
      ))
