-- ===== src/Install/Untouched/SevenZip.antt =====
-- The installation of 7z leaves the program's files alone.
use pastelup.Base.{
  ℕ, zero, suc, Str, str, List, [], ◌∷◌, ◌++◌, errorf, modify, Keeps, bind-Keeps, then-Keeps,
  wrap_error-Keeps, if-Keeps, query-Keeps, pure-Keeps, fail-Keeps, option-Keeps, still-Keeps,
  trim_space,
}
use pastelup.Constants.{OsType, windows, linux, mac, unknown}
use pastelup.Host.{Host, Ran}
use pastelup.Disk.{Disk}
use pastelup.Install.SevenZip.{
  powershell_args, run_cmd_or_fail, install_with_apt, install_with_yum, install_by_distro,
  install_on_arm, install_on_intel, install_by_arch, add_chocolatey_to_path, install_7z_on, has_7z,
  install_7z_linux, add_to_path, install_7z_mac, install_chocolatey, install_7z_windows, install_7z,
}
use pastelup.Install.Untouched.{LeavesFile, run-Keeps}

module _ {W : Type 0} (host : Host W) (disk : Disk W) (os : OsType) (p : Str) (P : W → Type 0)
    (laws : LeavesFile host disk p P) where
  or_fail-Keeps :
      (command : Str) (args : List Str) → Keeps P (run_cmd_or_fail host disk os command args)
  unfolding run_cmd_or_fail
  or_fail-Keeps command args =
      bind-Keeps P _ _ (run-Keeps host disk os p P laws command args) (λ (ran : Ran).
        option-Keeps P ran.failure _ _ (pure-Keeps P ran.output) (λ e. fail-Keeps P Str e))

  setenv-Keeps : (key v : Str) → Keeps P (modify (disk.setenv key v))
  setenv-Keeps key v = still-Keeps P (modify (disk.setenv key v)) (laws.setenv_lem key v)

  with_apt-Keeps : Keeps P (install_with_apt host disk os)
  unfolding install_with_apt
  with_apt-Keeps =
      then-Keeps P _ _ (wrap_error-Keeps P _ _ (or_fail-Keeps _ _))
        (then-Keeps P _ _ (wrap_error-Keeps P _ _ (or_fail-Keeps _ _)) (pure-Keeps P tt))

  with_yum-Keeps : Keeps P (install_with_yum host disk os)
  unfolding install_with_yum
  with_yum-Keeps = then-Keeps P _ _ (wrap_error-Keeps P _ _ (or_fail-Keeps _ _)) (pure-Keeps P tt)

  by_distro-Keeps : (name : Str) → Keeps P (install_by_distro host disk os name)
  unfolding install_by_distro
  by_distro-Keeps name =
      if-Keeps P _ _ _ with_apt-Keeps (if-Keeps P _ _ _ with_yum-Keeps (fail-Keeps P (Unit {0}) _))

  linux-Keeps : Keeps P (install_7z_linux host disk os)
  unfolding install_7z_linux
  linux-Keeps =
      bind-Keeps P _ _ (wrap_error-Keeps P _ _ (or_fail-Keeps _ _))
        (λ distro. by_distro-Keeps (trim_space distro))

  add_to_path-Keeps : (dir : Str) → Keeps P (add_to_path host disk os dir)
  unfolding add_to_path
  add_to_path-Keeps dir =
      bind-Keeps P _ _ (query-Keeps P (disk.getenv (str "PATH")))
        (λ path. setenv-Keeps (str "PATH") (dir ++ (b':' ∷ path)))

  on_arm-Keeps : Keeps P (install_on_arm host disk os)
  unfolding install_on_arm
  on_arm-Keeps =
      then-Keeps P _ _ (add_to_path-Keeps _)
        (then-Keeps P _ _ (or_fail-Keeps _ _) (pure-Keeps P tt))

  on_intel-Keeps : Keeps P (install_on_intel host disk os)
  unfolding install_on_intel
  on_intel-Keeps =
      then-Keeps P _ _ (add_to_path-Keeps _)
        (then-Keeps P _ _ (or_fail-Keeps _ _) (pure-Keeps P tt))

  by_arch-Keeps : (arch : Str) → Keeps P (install_by_arch host disk os arch)
  unfolding install_by_arch
  by_arch-Keeps arch =
      if-Keeps P _ _ _ on_arm-Keeps (if-Keeps P _ _ _ on_intel-Keeps (fail-Keeps P (Unit {0}) _))

  mac-Keeps : Keeps P (install_7z_mac host disk os)
  unfolding install_7z_mac
  mac-Keeps = bind-Keeps P _ _ (or_fail-Keeps _ _) (λ machine. by_arch-Keeps (trim_space machine))

  choco_path-Keeps : Keeps P (add_chocolatey_to_path host disk os)
  unfolding add_chocolatey_to_path
  choco_path-Keeps =
      bind-Keeps P _ _ (query-Keeps P (disk.getenv (str "PATH")))
        (λ path. setenv-Keeps (str "PATH") (path ++ str ";C:\\ProgramData\\chocolatey\\bin"))

  chocolatey-Keeps : (n : ℕ) → Keeps P (install_chocolatey host disk os n)
  unfolding install_chocolatey
  chocolatey-Keeps zero = pure-Keeps P tt
  chocolatey-Keeps (suc n) =
      bind-Keeps P _ _ (run-Keeps host disk os p P laws (str "powershell.exe") powershell_args)
        (λ (ran : Ran). option-Keeps P ran.failure _ _ choco_path-Keeps (λ e.
          then-Keeps P _ _ (still-Keeps P (modify (host.sleep 5)) (laws.sleep_lem 5))
            (chocolatey-Keeps n)))

  windows-Keeps : Keeps P (install_7z_windows host disk os)
  unfolding install_7z_windows
  windows-Keeps = bind-Keeps P _ _ (query-Keeps P (disk.look_path (str "choco"))) (λ there.
      then-Keeps P _ _ (if-Keeps P there _ _ (pure-Keeps P tt) (chocolatey-Keeps 3)) (
        bind-Keeps P _ _ (query-Keeps P (disk.look_path (str "choco"))) (λ now.
          then-Keeps P _ _
            (if-Keeps P now _ _ (pure-Keeps P tt)
              (fail-Keeps P (Unit {0}) (errorf "chocolatey installation failed")))
            (then-Keeps P _ _
              (wrap_error-Keeps P "failed to install 7z" _
                (or_fail-Keeps (str "choco") (str "install" ∷ str "7zip" ∷ str "-y" ∷ [])))
              (pure-Keeps P tt)))))

  on_system-Keeps : (o : OsType) → Keeps P (install_7z_on host disk os o)
  unfolding install_7z_on
  on_system-Keeps linux = linux-Keeps
  on_system-Keeps mac = mac-Keeps
  on_system-Keeps windows = windows-Keeps
  on_system-Keeps unknown = fail-Keeps P (Unit {0}) (errorf "unsupported operating system")

  pub install_7z-Keeps : Keeps P (install_7z host disk os)
  unfolding install_7z
  install_7z-Keeps =
      bind-Keeps P _ _ (run-Keeps host disk os p P laws (str "7z") (str "i" ∷ []))
        (λ ran. if-Keeps P (has_7z host disk os ran) _ _ (pure-Keeps P tt) (on_system-Keeps os))
