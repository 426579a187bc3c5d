-- ===== src/Install/Packages.antt =====
-- cmd/install.go: the system packages that a tool needs.
pub mod Sets
use pastelup.Base.{
  ℕ, Str, str, Bool, true, false, not, List, [], ◌∷◌, ◌++◌, Option, none, some, Error, errorf,
  Action, pure, fail, perform, ◌>>=◌, ◌>>◌, if◌then◌else◌, ◌&&◌, elem, is_empty,
}
use pastelup.Constants.{OsType, windows, linux, mac, unknown, ToolType, tool_string}
use pastelup.Constants.Packages.{dependencies_packages}
use pastelup.Configs.{Config}
use pastelup.Host.{Host, run_sudo_cmd, sudo_or_fail}
use pastelup.Prompt.{ask_user_to_continue}
use pastelup.Disk.{Disk, get_installed_packages}
use pastelup.Install.{app_to_service_map, is_update}

-- The first loop of `checkInstalledPackages`
unfoldable pub packages_of : OsType → List ToolType → List Str
packages_of os [] = []
packages_of os (tool ∷ rest) = dependencies_packages tool os ++ packages_of os rest

-- The loop that removes repetitions; `guard` has the keys of the map.
unfoldable pub without_repetitions : List Str → List Str → List Str
unfolding elem
without_repetitions guard [] = []
without_repetitions guard (item ∷ rest) =
    let skipped = without_repetitions guard rest in
    let kept = item ∷ without_repetitions (item ∷ guard) rest in
    if elem guard item then skipped else kept

-- The packages that are installed, or that are not.
unfoldable pub installed_or_not : Bool → List Str → List Str → List Str
installed_or_not wanted installed [] = []
installed_or_not wanted installed (p ∷ rest) =
    let later = installed_or_not wanted installed rest in
    let here = if wanted then elem installed p else not (elem installed p) in
    if here then p ∷ later else later

-- `strings.Join(names, ",")`
unfoldable pub join_commas : List Str → Str
join_commas [] = []
join_commas (a ∷ []) = a
join_commas (a ∷ b ∷ rest) = a ++ (b',' ∷ join_commas (b ∷ rest))

abbrev pub is_linux : OsType → Bool
is_linux linux = true
is_linux _ = false

abbrev pub is_none : List Str → Bool
is_none [] = true
is_none _ = false

module _ {W : Type 0} (host : Host W) (disk : Disk W) (os : OsType) where
  -- The loop of `installOrUpgradePackagesLinux`
  unfoldable pub apt_each : Config → Str → List Str → Action W (Unit {0})
  apt_each config what [] = pure tt
  apt_each config what (pkg ∷ rest) =
      sudo_or_fail host config (str "apt" ∷ str "-y" ∷ what ∷ pkg ∷ []) >> apt_each config what rest

  -- `installOrUpgradePackagesLinux`
  unfoldable pub install_or_upgrade_packages_linux : Config → Str → List Str → Action W (Unit {0})
  install_or_upgrade_packages_linux config what packages =
      sudo_or_fail host config (str "apt" ∷ str "update" ∷ []) >> apt_each config what packages

  -- A question that `--force` answers
  unfoldable pub agree : Config → Str → Action W (Unit {0})
  agree config question = do
    let ask = do
      (yes?, line) ← ask_user_to_continue host question
      if yes? then pure tt else fail (errorf "user terminated installation")
    if config.force then pure tt else ask

  -- The part of `checkInstalledPackages` for the packages that are there
  unfoldable pub update_packages : Config → ToolType → List Str → Action W (Unit {0})
  update_packages config tool packages = do
    let upgrade = do
      agree config (
          str "Some system packages ["
          ++ (join_commas packages
              ++ (str "] required for "
                  ++ (tool_string tool
                      ++ str " need to be updated. Do you want to update them? Y/N"))))
      if config.skip_system_update
          then pure tt
          else install_or_upgrade_packages_linux config (str "upgrade") packages
    if is_update config && (is_linux os && not (is_none packages)) then upgrade else pure tt

  -- The part for the packages that are missing
  unfoldable pub install_packages : Config → ToolType → List Str → Action W (Unit {0})
  install_packages config tool packages = do
    let install = do
      agree config (
          str "The system misses some packages ["
          ++ (join_commas packages
              ++ (str "] required for "
                  ++ (tool_string tool ++ str ". Do you want to install them? Y/N"))))
      install_or_upgrade_packages_linux config (str "install") packages
    if is_none packages then pure tt else install

  -- `checkInstalledPackages`
  unfoldable pub check_installed_packages : Config → ToolType → Bool → Action W (Unit {0})
  check_installed_packages config tool with_dependencies = do
    let services = if with_dependencies then app_to_service_map tool else tool ∷ []
    let required = without_repetitions [] (packages_of os services)
    let check = do
      installed ← get_installed_packages host disk os
      update_packages config tool (installed_or_not true installed required)
      install_packages config tool (installed_or_not false installed required)
    if is_none (packages_of os services) then pure tt else check
