-- ===== src/Install/Untouched/Packages.antt =====
-- The check of the system's packages leaves the program's files alone.
use pastelup.Base.{
  Str, str, Bool, List, [], ◌∷◌, ◌++◌, Error, errorf, ◌⊎◌, panic, pure, if◌then◌else◌, Keeps,
  bind-Keeps, then-Keeps, attempt-Keeps, if-Keeps, query-Keeps, pure-Keeps, fail-Keeps,
  option-Keeps, still-Keeps, str_eq,
}
use pastelup.Constants.{OsType, windows, linux, mac, unknown, ToolType}
use pastelup.Configs.{Config}
use pastelup.Host.{Host, Ran, DirEntry}
use pastelup.Masternode.Address.{split_on}
use pastelup.Prompt.{ask_user_to_continue, ask_user_to_continue-Keeps}
use pastelup.Disk.{Disk, first_part, installed_of, names_in, get_installed_packages}
use pastelup.Install.Packages.{
  apt_each, install_or_upgrade_packages_linux, agree, update_packages, install_packages,
  check_installed_packages,
}
use pastelup.Install.Untouched.{LeavesFile, run-Keeps, sudo_or_fail-Keeps}

module _ {W : Type 0} (host : Host W) (disk : Disk W) (os : OsType) (p : Str) (P : W → Type 0)
    (laws : LeavesFile host disk p P) where
  pub ask-Keeps : (question : Str) → Keeps P (ask_user_to_continue host question)
  ask-Keeps question = ask_user_to_continue-Keeps host P question (laws.read_line_lem question)

  tokens-Keeps :
      (tokens : List Str)
      → Keeps P {A = List Str} (elim tokens [
        | [] ↦ pure []
        | status ∷ [] ↦ if str_eq status (str "ii") then panic else pure []
        | status ∷ word ∷ _ ↦ pure (if str_eq status (str "ii") then first_part word ∷ [] else [])
      ])
  tokens-Keeps [] = pure-Keeps P []
  tokens-Keeps (status ∷ []) =
      if-Keeps P (str_eq status (str "ii")) _ _ (still-Keeps P panic (λ w h. h)) (pure-Keeps P [])
  tokens-Keeps (status ∷ word ∷ rest) = pure-Keeps P _

  installed-Keeps : (lines : List Str) → Keeps P (installed_of host disk os lines)
  unfolding installed_of
  installed-Keeps [] = pure-Keeps P []
  installed-Keeps (line ∷ rest) =
      bind-Keeps P _ _ (tokens-Keeps (split_on b' ' line))
        (λ name. bind-Keeps P _ _ (installed-Keeps rest) (λ later. pure-Keeps P (name ++ later)))

  names-Keeps : (dirs : List Str) → Keeps P (names_in host disk os dirs)
  unfolding names_in
  names-Keeps [] = pure-Keeps P []
  names-Keeps (dir ∷ rest) =
      bind-Keeps P _ _ (attempt-Keeps P _ (laws.read_dir_lem dir))
        (λ (found : Error ⊎ List DirEntry).
          bind-Keeps P _ _ (names-Keeps rest) (λ later. pure-Keeps P _))

  apt-Keeps :
      (config : Config) (what : Str) (packages : List Str)
      → Keeps P (apt_each host disk os config what packages)
  unfolding apt_each
  apt-Keeps config what [] = pure-Keeps P tt
  apt-Keeps config what (pkg ∷ rest) =
      then-Keeps P _ _ (sudo_or_fail-Keeps host disk os p P laws config _)
        (apt-Keeps config what rest)

  install-Keeps :
      (config : Config) (what : Str) (packages : List Str)
      → Keeps P (install_or_upgrade_packages_linux host disk os config what packages)
  unfolding install_or_upgrade_packages_linux
  install-Keeps config what packages =
      then-Keeps P _ _ (sudo_or_fail-Keeps host disk os p P laws config _)
        (apt-Keeps config what packages)

  agree-Keeps : (config : Config) (question : Str) → Keeps P (agree host disk os config question)
  unfolding agree
  agree-Keeps config question = if-Keeps P config.force _ _ (pure-Keeps P tt) (
      bind-Keeps P _ _ (ask-Keeps question) (λ answer.
        if-Keeps P answer.0 _ _ (pure-Keeps P tt)
          (fail-Keeps P (Unit {0}) (errorf "user terminated installation"))))

  update-Keeps :
      (config : Config) (tool : ToolType) (packages : List Str)
      → Keeps P (update_packages host disk os config tool packages)
  unfolding update_packages
  update-Keeps config tool packages =
      if-Keeps P _ _ _
        (then-Keeps P _ _ (agree-Keeps config _) (
          if-Keeps P config.skip_system_update _ _ (pure-Keeps P tt)
            (install-Keeps config (str "upgrade") packages)))
        (pure-Keeps P tt)

  missing-Keeps :
      (config : Config) (tool : ToolType) (packages : List Str)
      → Keeps P (install_packages host disk os config tool packages)
  unfolding install_packages
  missing-Keeps config tool packages =
      if-Keeps P _ _ _ (pure-Keeps P tt)
        (then-Keeps P _ _ (agree-Keeps config _) (install-Keeps config (str "install") packages))

module _ {W : Type 0} (host : Host W) (disk : Disk W) (p : Str) (P : W → Type 0)
    (laws : LeavesFile host disk p P) where
  all_installed-Keeps : (os : OsType) → Keeps P (get_installed_packages host disk os)
  unfolding get_installed_packages
  all_installed-Keeps linux =
      bind-Keeps P _ _
        (run-Keeps host disk linux p P laws (str "bash")
          (str "-c" ∷ str "dpkg-query -l |  awk {' print $1,$2 '}" ∷ []))
        (λ (ran : Ran).
          option-Keeps P ran.failure _ _
            (installed-Keeps host disk linux p P laws (split_on 10 ran.output))
            (λ e. pure-Keeps P []))
  all_installed-Keeps mac =
      bind-Keeps P _ _ (query-Keeps P (disk.getenv (str "PATH")))
        (λ paths. names-Keeps host disk mac p P laws (split_on b':' paths))
  all_installed-Keeps windows = pure-Keeps P []
  all_installed-Keeps unknown = pure-Keeps P []

module _ {W : Type 0} (host : Host W) (disk : Disk W) (os : OsType) (p : Str) (P : W → Type 0)
    (laws : LeavesFile host disk p P) where
  pub packages-Keeps :
      (config : Config) (tool : ToolType) (with_dependencies : Bool)
      → Keeps P (check_installed_packages host disk os config tool with_dependencies)
  unfolding check_installed_packages
  packages-Keeps config tool with_dependencies = if-Keeps P _ _ _ (pure-Keeps P tt) (
      bind-Keeps P _ _ (all_installed-Keeps host disk p P laws os) (λ installed.
        then-Keeps P _ _ (update-Keeps host disk os p P laws config tool _)
          (missing-Keeps host disk os p P laws config tool _)))
