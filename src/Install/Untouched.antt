-- ===== src/Install/Untouched.antt =====
-- What the steps of an installation leave of a file at a path outside the directories that they
-- write to.
pub mod SevenZip
pub mod Packages
pub mod Parts
pub mod DupeDetection
pub mod Ready
pub mod Whole
use pastelup.Base.{
  Str, str, Bool, true, false, not, ◌||◌, List, [], ◌∷◌, ◌++◌, Option, none, some, Error, errorf,
  os_error, wrapf, ◌⊎◌, inl, inr, Action, pure, fail, lift, attempt, query, perform, wrap_error,
  ◌>>=◌, ◌>>◌, if◌then◌else◌, is_empty, has_prefix, differs_prefix, differs_longer, ◌≡◌, ◌≢◌, refl,
  Keeps, bind-Keeps, then-Keeps, attempt-Keeps, wrap_error-Keeps, lift-Keeps, if-Keeps, query-Keeps,
  pure-Keeps, fail-Keeps, perform-Keeps, guard-Keeps, option-Keeps, contains, Bool-cases, str_eq,
}
use Prim.Native.Nat.{ℕ}
use pastelup.Path.{join, not_below}
use pastelup.Constants.{OsType, windows, linux, mac, unknown, ToolType}
use pastelup.Configurer.{get_download_url}
use pastelup.Configs.{Config}
use pastelup.Host.{Host, Ran, Stat, present, not_exist, stat_error, run_sudo_cmd, sudo_or_fail}
use pastelup.Start.Pasteld.{get_checksum}
use pastelup.Disk.{Disk, Response, if_missing, create_folder, download_file}
use pastelup.Disk.Clean.{clean}
use pastelup.Disk.Unzip.{unzip, LeavesOthers, unzip-Keeps}
use pastelup.Install.{is_install}
use pastelup.Install.Files.{
  process_archive, load_component, download_of_tool, download_components, make_executable,
  setup_component_config_file, is_pastelup,
}

-- A call that names the path of a file may change that file alone, and the other calls none of the
-- program's files.
pub record LeavesFile {W : Type 0} (host : Host W) (disk : Disk W) (p : Str) (P : W → Type 0)
    : Type 0 where
  pub mkdir_all_lem : (q : Str) → Keeps P (disk.mkdir_all q)
  pub create_lem : (q : Str) → p ≢ q → Keeps P (disk.create q)
  pub append_to_lem : (q bytes : Str) → p ≢ q → Keeps P (disk.append_to q bytes)
  pub zip_entries_lem : (q : Str) → Keeps P (disk.zip_entries q)
  pub run_cmd_lem :
      (command : Str) (args : List Str) (w : W) → P w → P (host.run_cmd command args w).1
  pub read_file_lem : (q : Str) → Keeps P (host.read_file q)
  pub rename_lem : (from to : Str) → p ≢ from → p ≢ to → Keeps P (host.rename from to)
  pub remove_lem : (q : Str) → p ≢ q → Keeps P (host.remove q)
  pub http_get_lem : (url : Str) → Keeps P (disk.http_get url)
  pub interactive_lem : (command : Str) (args : List Str) → Keeps P (disk.interactive command args)
  pub checksum_lem : (q : Str) → Keeps P (disk.checksum_of_folder q)
  pub setenv_lem : (key v : Str) (w : W) → P w → P (disk.setenv key v w)
  pub sleep_lem : (n : ℕ) (w : W) → P w → P (host.sleep n w)
  pub read_line_lem : (q : Str) (w : W) → P w → P (host.read_line q w).1
  pub read_dir_lem : (dir : Str) → Keeps P (host.read_dir dir)
  pub random_lem : (n : ℕ) (w : W) → P w → P (disk.random n w).1

module _ {W : Type 0} (host : Host W) (disk : Disk W) (os : OsType) (p : Str) (P : W → Type 0)
    (laws : LeavesFile host disk p P) where
  stat-Keeps :
      (st : Stat) (m k : Action W (Unit {0}))
      → Keeps P m
      → Keeps P k
      → Keeps P {A = Unit {0}} (elim st [ not_exist ↦ m | _ ↦ k ])
  stat-Keeps not_exist m k hm hk = hm
  stat-Keeps present m k hm hk = hk
  stat-Keeps (stat_error e) m k hm hk = hk

  pub create_folder-Keeps :
      (path : Str) (force : Bool) → Keeps P (create_folder host disk os path force)
  unfolding create_folder if_missing
  create_folder-Keeps path force =
      let made = wrap_error-Keeps P "Failed to create directory" _ (laws.mkdir_all_lem path) in
      if-Keeps P force _ _ made (
        bind-Keeps P _ _ (query-Keeps P (host.stat path))
          (λ st. stat-Keeps st _ _ made (fail-Keeps P (Unit {0}) (os_error "file already exists"))))

  read_to_end-Keeps :
      (failure : Option Error)
      → Keeps P {A = Unit {0}}
          (elim failure [ none ↦ pure tt | some e ↦ fail (wrapf "write file failed" e) ])
  read_to_end-Keeps none = pure-Keeps P tt
  read_to_end-Keeps (some e) = fail-Keeps P (Unit {0}) _

  pub download_file-Keeps :
      (path url : Str)
      → p ≢ path
      → p ≢ path ++ str ".tmp"
      → Keeps P (download_file host disk os path url)
  unfolding download_file
  download_file-Keeps path url differs differs_tmp =
      bind-Keeps P _ _ (wrap_error-Keeps P _ _ (laws.http_get_lem url)) (λ (resp : Response).
        then-Keeps P _ _ (if-Keeps P _ _ _ (pure-Keeps P tt) (fail-Keeps P (Unit {0}) _)) (
          then-Keeps P _ _ (laws.create_lem _ differs_tmp) (
            then-Keeps P _ _ (wrap_error-Keeps P _ _ (laws.append_to_lem _ _ differs_tmp)) (
              then-Keeps P _ _ (read_to_end-Keeps resp.failure)
                (laws.rename_lem _ _ differs_tmp differs)))))

  -- A download to an entry of a directory
  pub download_below-Keeps :
      (dir name url : Str)
      → has_prefix p dir ≡ false
      → Keeps P (download_file host disk os (join dir name) url)
  download_below-Keeps dir name url outside =
      let below = not_below p dir name outside in
      download_file-Keeps (join dir name) url (differs_prefix p (join dir name) below)
        (differs_longer p (join dir name) _ below)

  pub run-Keeps : (command : Str) (args : List Str) → Keeps P (perform (host.run_cmd command args))
  run-Keeps command args =
      perform-Keeps P (host.run_cmd command args) (laws.run_cmd_lem command args)

  pub sudo-Keeps :
      (config : Config) (args : List Str) → Keeps P (perform (run_sudo_cmd host config args))
  unfolding run_sudo_cmd
  sudo-Keeps config args = perform-Keeps P (run_sudo_cmd host config args) (λ w h.
      elim (Bool-cases (is_empty config.user_pw)) [
        | inl without ↦ rw without (laws.run_cmd_lem _ _ w h)
        | inr given ↦ rw given (laws.run_cmd_lem _ _ w h)
      ])

  pub sudo_or_fail-Keeps :
      (config : Config) (args : List Str) → Keeps P (sudo_or_fail host config args)
  unfolding sudo_or_fail
  sudo_or_fail-Keeps config args = bind-Keeps P _ _ (sudo-Keeps config args) (λ (ran : Ran).
      option-Keeps P ran.failure _ _ (pure-Keeps P tt) (λ e. fail-Keeps P (Unit {0}) e))

  chmod-Keeps :
      (path : Str)
      → Keeps P (
          perform (host.run_cmd (str "chmod") (str "755" ∷ path ∷ [])) >>= λ ran.
          elim ran.failure as (λ x. Action W (Unit {0})) [ none ↦ pure tt | some e ↦ fail e ])
  chmod-Keeps path =
      bind-Keeps P _ _ (run-Keeps (str "chmod") (str "755" ∷ path ∷ [])) (λ (ran : Ran).
        option-Keeps P ran.failure _ _ (pure-Keeps P tt) (λ e. fail-Keeps P (Unit {0}) e))

module _ {W : Type 0} (host : Host W) (disk : Disk W) (p : Str) (P : W → Type 0)
    (laws : LeavesFile host disk p P) (parse_url : Str → Error ⊎ Str) (sha256_hex : Str → Str) where
  pub make_executable-Keeps :
      (os : OsType) (dir name : Str)
      → Keeps P (make_executable host disk os parse_url sha256_hex dir name)
  unfolding make_executable
  make_executable-Keeps linux dir name = chmod-Keeps host disk linux p P laws _
  make_executable-Keeps mac dir name = chmod-Keeps host disk mac p P laws _
  make_executable-Keeps windows dir name = pure-Keeps P tt
  make_executable-Keeps unknown dir name = pure-Keeps P tt

module _ {W : Type 0} (host : Host W) (disk : Disk W) (os : OsType) (p : Str) (P : W → Type 0)
    (laws : LeavesFile host disk p P) (parse_url : Str → Error ⊎ Str) (sha256_hex : Str → Str) where
  leaves_others : LeavesOthers disk p P
  leaves_others = record {
    mkdir_all_lem = laws.mkdir_all_lem;
    create_lem = λ q resolved differs. laws.create_lem q differs;
    append_to_lem = λ q bytes resolved differs. laws.append_to_lem q bytes differs;
    zip_entries_lem = laws.zip_entries_lem;
  }

  missing-Keeps :
      (st : Stat)
      → Keeps P {A = Unit {0}}
          (elim st [ not_exist ↦ fail (os_error "no such file") | _ ↦ pure tt ])
  missing-Keeps st =
      stat-Keeps host disk os p P laws st _ _ (fail-Keeps P (Unit {0}) _) (pure-Keeps P tt)

  -- An archive in a directory, extracted to another
  pub process_archive-Keeps :
      (dst path : Str)
      → p ≢ path
      → has_prefix p (clean dst ++ str "/") ≡ false
      → Keeps P (process_archive host disk os parse_url sha256_hex dst path)
  unfolding process_archive
  process_archive-Keeps dst path differs outside =
      bind-Keeps P _ _ (query-Keeps P (host.stat path)) (λ st. then-Keeps P _ _ (missing-Keeps st) (
        then-Keeps P _ _ (unzip-Keeps host disk os p P leaves_others path dst outside)
          (laws.remove_lem path differs)))

  load_component-Keeps :
      (config : Config) (folder : Str) (found : Str × Str)
      → has_prefix p config.pastel_exec_dir ≡ false
      → has_prefix p (clean (join config.pastel_exec_dir folder) ++ str "/") ≡ false
      → Keeps P (load_component host disk os parse_url sha256_hex config folder found)
  unfolding load_component
  load_component-Keeps config folder (url, archive) outside cleaned =
      then-Keeps P _ _
        (wrap_error-Keeps P "failed to download executable file" _
          (download_below-Keeps host disk os p P laws config.pastel_exec_dir archive url outside))
        (if-Keeps P (contains archive (str ".zip")) _ _
          (wrap_error-Keeps P "failed to process downloaded file" _ (
            process_archive-Keeps _ _
              (differs_prefix p _ (not_below p config.pastel_exec_dir archive outside)) cleaned))
          (pure-Keeps P tt))

  pub download_components-Keeps :
      (config : Config) (tool : ToolType) (folder : Str)
      → has_prefix p config.pastel_exec_dir ≡ false
      → has_prefix p (clean (join config.pastel_exec_dir folder) ++ str "/") ≡ false
      → Keeps P (download_components host disk os parse_url sha256_hex config tool folder)
  unfolding download_components
  download_components-Keeps config tool folder outside cleaned =
      bind-Keeps P _ _ (query-Keeps P (host.stat config.pastel_exec_dir)) (λ st.
        then-Keeps P _ _
          (stat-Keeps host disk os p P laws st _ _
            (create_folder-Keeps host disk os p P laws config.pastel_exec_dir config.force)
            (pure-Keeps P tt))
          (bind-Keeps P _ _
            (wrap_error-Keeps P "failed to get download url" _
              (lift-Keeps P (download_of_tool host disk os parse_url sha256_hex config tool)))
            (λ found. load_component-Keeps config folder found outside cleaned)))

  -- Only an installation writes configuration files.
  pub setup_component_config_file-Keeps :
      (config : Config) (path text : Str)
      → is_install config ≡ false
      → Keeps P (setup_component_config_file host disk os parse_url sha256_hex config path text)
  unfolding setup_component_config_file
  setup_component_config_file-Keeps config path text h = rw h (pure-Keeps P tt)
