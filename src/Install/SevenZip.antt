-- ===== src/Install/SevenZip.antt =====
-- cmd/install.go: `install7z` and what it calls on each system.
use pastelup.Base.{
  ℕ, zero, suc, Str, str, Bool, false, ◌||◌, List, [], ◌∷◌, ◌++◌, none, some, errorf, Action, pure,
  wrap_error, fail, query, perform, modify, ◌>>=◌, ◌>>◌, if◌then◌else◌, str_eq, contains,
  trim_space,
}
use pastelup.Constants.{OsType, windows, linux, mac, unknown}
use pastelup.Host.{Host, Ran}
use pastelup.Disk.{Disk}

unfoldable pub powershell_cmd : Str
powershell_cmd =
    str "Set-ExecutionPolicy Bypass -Scope Process -Force; "
    ++ (str
          "[System.Net.ServicePointManager]::SecurityProtocol = [System.Net.ServicePointManager]::SecurityProtocol -bor 3072; "
        ++ str
            "iex ((New-Object System.Net.WebClient).DownloadString('https://community.chocolatey.org/install.ps1'))")

unfoldable pub powershell_args : List Str
powershell_args =
    str "-NoProfile"
    ∷ str "-InputFormat"
    ∷ str "None"
    ∷ str "-ExecutionPolicy"
    ∷ str "Bypass"
    ∷ str "-Command"
    ∷ powershell_cmd
    ∷ []

module _ {W : Type 0} (host : Host W) (disk : Disk W) (os : OsType) where
  -- A command that must not fail
  unfoldable pub run_cmd_or_fail : Str → List Str → Action W Str
  run_cmd_or_fail command args = perform (host.run_cmd command args) >>= λ ran. elim ran.failure [
    | none ↦ pure ran.output
    | some e ↦ fail e
  ]

  -- The packages of `install7zLinux`
  unfoldable pub install_with_apt : Action W (Unit {0})
  install_with_apt = do
    wrap_error "failed to update package list"
        (run_cmd_or_fail (str "sudo") (str "apt-get" ∷ str "update" ∷ []))
    wrap_error "failed to install 7z" (
        run_cmd_or_fail (str "sudo")
          (str "apt-get" ∷ str "install" ∷ str "-y" ∷ str "p7zip-full" ∷ []))
    pure tt

  unfoldable pub install_with_yum : Action W (Unit {0})
  install_with_yum =
      wrap_error "failed to install 7z"
        (run_cmd_or_fail (str "sudo") (str "yum" ∷ str "install" ∷ str "-y" ∷ str "p7zip" ∷ []))
      >> pure tt

  -- Its `switch` on the distribution
  unfoldable pub install_by_distro : Str → Action W (Unit {0})
  install_by_distro name =
      if str_eq name (str "ubuntu") || str_eq name (str "debian")
      then install_with_apt
      else if str_eq name (str "centos") || str_eq name (str "fedora")
      then install_with_yum
      else fail (errorf "unsupported linux distribution")

  -- `install7zLinux`
  unfoldable pub install_7z_linux : Action W (Unit {0})
  install_7z_linux = do
    distro ←
        wrap_error "failed to detect linux distribution" (
          run_cmd_or_fail (str "sh")
            (str "-c" ∷ str "grep ^ID= /etc/os-release | cut -d= -f2" ∷ []))
    install_by_distro (trim_space distro)

  -- The path with a directory in front
  unfoldable pub add_to_path : Str → Action W (Unit {0})
  add_to_path dir = do
    path ← query (disk.getenv (str "PATH"))
    modify (disk.setenv (str "PATH") (dir ++ (b':' ∷ path)))

  unfoldable pub install_on_arm : Action W (Unit {0})
  install_on_arm = do
    add_to_path (str "/opt/homebrew/bin")
    run_cmd_or_fail (str "arch") (str "-arm64" ∷ str "brew" ∷ str "install" ∷ str "p7zip" ∷ [])
    pure tt

  unfoldable pub install_on_intel : Action W (Unit {0})
  install_on_intel = do
    add_to_path (str "/usr/local/bin")
    run_cmd_or_fail (str "brew") (str "install" ∷ str "p7zip" ∷ [])
    pure tt

  -- The tests of the architecture in `install7zMacOS`
  unfoldable pub install_by_arch : Str → Action W (Unit {0})
  install_by_arch arch =
      if str_eq arch (str "arm64")
      then install_on_arm
      else if str_eq arch (str "x86_64")
      then install_on_intel
      else fail (errorf "unsupported architecture")

  -- `install7zMacOS`
  unfoldable pub install_7z_mac : Action W (Unit {0})
  install_7z_mac = do
    machine ← run_cmd_or_fail (str "uname") (str "-m" ∷ [])
    install_by_arch (trim_space machine)

  unfoldable pub add_chocolatey_to_path : Action W (Unit {0})
  add_chocolatey_to_path = do
    path ← query (disk.getenv (str "PATH"))
    modify (disk.setenv (str "PATH") (path ++ str ";C:\\ProgramData\\chocolatey\\bin"))

  -- `installChocolatey`: this many attempts
  unfoldable pub install_chocolatey : ℕ → Action W (Unit {0})
  install_chocolatey zero = pure tt
  install_chocolatey (suc n) = do
    ran ← perform (host.run_cmd (str "powershell.exe") powershell_args)
    let again = modify (host.sleep 5) >> install_chocolatey n
    elim ran.failure [ none ↦ add_chocolatey_to_path | some e ↦ again ]

  -- `install7zWindows`
  unfoldable pub install_7z_windows : Action W (Unit {0})
  install_7z_windows = do
    there ← query (disk.look_path (str "choco"))
    if there then pure tt else install_chocolatey 3
    now ← query (disk.look_path (str "choco"))
    if now then pure tt else fail (errorf "chocolatey installation failed")
    wrap_error "failed to install 7z"
        (run_cmd_or_fail (str "choco") (str "install" ∷ str "7zip" ∷ str "-y" ∷ []))
    pure tt

  -- The `switch` of `install7z`
  unfoldable pub install_7z_on : OsType → Action W (Unit {0})
  install_7z_on linux = install_7z_linux
  install_7z_on mac = install_7z_mac
  install_7z_on windows = install_7z_windows
  install_7z_on unknown = fail (errorf "unsupported operating system")

  -- Whether the answer of `7z i` is that of p7zip
  abbrev pub has_7z : Ran → Bool
  has_7z ran = elim ran.failure [
    | none ↦ contains ran.output (str "p7zip Version")
    | some e ↦ false
  ]

  -- `install7z`
  unfoldable pub install_7z : Action W (Unit {0})
  install_7z = do
    ran ← perform (host.run_cmd (str "7z") (str "i" ∷ []))
    if has_7z ran then pure tt else install_7z_on os
