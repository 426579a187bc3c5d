-- ===== src/Install/Untouched/DupeDetection.antt =====
-- What the steps of the installation of dd-service leave alone.
use pastelup.Base.{
  Str, str, Bool, false, List, [], ◌∷◌, ◌++◌, Error, errorf, ◌⊎◌, Action, pure, fail, wrap_error,
  ◌>>=◌, has_prefix, differs_prefix, ◌≡◌, Keeps, bind-Keeps, then-Keeps, wrap_error-Keeps, if-Keeps,
  query-Keeps, pure-Keeps, fail-Keeps, contains, str_eq,
}
use pastelup.Path.{join, not_below}
use pastelup.Constants.{OsType}
use pastelup.Constants.Packages.{dupe_detection_support_checksum}
use pastelup.Configs.{Config}
use pastelup.Host.{Host, Stat, present, not_exist, stat_error}
use pastelup.Start.Pasteld.{get_checksum}
use pastelup.Disk.{Disk}
use pastelup.Disk.Clean.{clean}
use pastelup.Install.Components.DupeDetection.{
  install_python_packages, create_folders, is_current, load_support_file, load_support_files,
  base_of,
}
use pastelup.Install.Untouched.{
  LeavesFile, create_folder-Keeps, download_below-Keeps, process_archive-Keeps,
}

module _ {W : Type 0} (host : Host W) (disk : Disk W) (os : OsType) (p : Str) (P : W → Type 0)
    (laws : LeavesFile host disk p P) (parse_url : Str → Error ⊎ Str) (sha256_hex : Str → Str)
    (config_text : List Str → Str) where
  pub python-Keeps :
      (config : Config)
      → Keeps P (install_python_packages host disk os parse_url sha256_hex config_text config)
  unfolding install_python_packages
  python-Keeps config =
      then-Keeps P _ _ (laws.interactive_lem _ _)
        (then-Keeps P _ _ (laws.interactive_lem _ _) (laws.interactive_lem _ _))

  pub folders-Keeps :
      (config : Config) (paths : List Str)
      → Keeps P (create_folders host disk os parse_url sha256_hex config_text config paths)
  unfolding create_folders
  folders-Keeps config [] = pure-Keeps P tt
  folders-Keeps config (path ∷ rest) =
      then-Keeps P _ _ (create_folder-Keeps host disk os p P laws path config.force)
        (folders-Keeps config rest)

  checksum-Keeps : (path : Str) → Keeps P (get_checksum host os sha256_hex path)
  unfolding get_checksum
  checksum-Keeps path = bind-Keeps P _ _ (query-Keeps P (host.stat path)) by_stat
    where
      by_stat :
          (st : Stat)
          → Keeps P {A = Str} (elim st [
            | present ↦ wrap_error "open file failed" (host.read_file path) >>= λ bytes.
                pure (sha256_hex bytes)
            | not_exist ↦ fail (errorf "file missing")
            | stat_error e ↦ fail (errorf "file missing")
          ])
      by_stat present =
          bind-Keeps P _ _ (wrap_error-Keeps P "open file failed" _ (laws.read_file_lem path))
            (λ bytes. pure-Keeps P (sha256_hex bytes))
      by_stat not_exist = fail-Keeps P Str (errorf "file missing")
      by_stat (stat_error e) = fail-Keeps P Str (errorf "file missing")

  present-Keeps :
      (st : Stat) (m k : Action W Bool)
      → Keeps P m
      → Keeps P k
      → Keeps P (elim st as (λ x. Action W Bool) [ present ↦ m | _ ↦ k ])
  present-Keeps present m k hm hk = hm
  present-Keeps not_exist m k hm hk = hk
  present-Keeps (stat_error e) m k hm hk = hk

  is_current-Keeps :
      (dir name : Str) → Keeps P (is_current host disk os parse_url sha256_hex config_text dir name)
  unfolding is_current
  is_current-Keeps dir name = bind-Keeps P _ _ (query-Keeps P (host.stat (join dir name))) (λ st.
      bind-Keeps P _ _ (query-Keeps P (disk.is_dir (join dir name))) (λ folder.
        present-Keeps st _ _
          (bind-Keeps P _ _
            (if-Keeps P folder _ _ (laws.checksum_lem (join dir name))
              (checksum-Keeps (join dir name)))
            (λ sum. pure-Keeps P (str_eq sum (dupe_detection_support_checksum name))))
          (pure-Keeps P false)))

  support_file-Keeps :
      (dir url : Str)
      → has_prefix p dir ≡ false
      → has_prefix p (clean dir ++ str "/") ≡ false
      → Keeps P (load_support_file host disk os parse_url sha256_hex config_text dir url)
  unfolding load_support_file
  support_file-Keeps dir url outside cleaned =
      bind-Keeps P _ _ (is_current-Keeps dir (base_of url)) (λ current.
        if-Keeps P current _ _ (pure-Keeps P tt) (
          if-Keeps P (contains url (str ".zip")) _ _
            (then-Keeps P _ _
              (download_below-Keeps host disk os p P laws dir (str "temp.zip") url outside)
              (process_archive-Keeps host disk os p P laws parse_url sha256_hex dir _
                (differs_prefix p _ (not_below p dir (str "temp.zip") outside)) cleaned))
            (download_below-Keeps host disk os p P laws dir (base_of url) url outside)))

  pub support_files-Keeps :
      (dir : Str) (urls : List Str)
      → has_prefix p dir ≡ false
      → has_prefix p (clean dir ++ str "/") ≡ false
      → Keeps P (load_support_files host disk os parse_url sha256_hex config_text dir urls)
  unfolding load_support_files
  support_files-Keeps dir [] outside cleaned = pure-Keeps P tt
  support_files-Keeps dir (url ∷ rest) outside cleaned =
      then-Keeps P _ _ (support_file-Keeps dir url outside cleaned)
        (support_files-Keeps dir rest outside cleaned)
