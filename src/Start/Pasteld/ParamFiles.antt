-- ===== src/Start/Pasteld/ParamFiles.antt =====
-- What the check of the parameter files means for the start of pasteld.
use pastelup.Base.{
  ℕ, Str, Bool, true, false, List, [], ◌∷◌, Option, none, some, Error, errorf, Out, ok, err, Action,
  wrap_error, ◌>>=◌, ◌>>◌, str_eq, ◌&&◌, ◌≡◌, refl, Bool-cases, Option-cases, All, ◌⊎◌, inl, inr,
}
use pastelup.Path.{join}
use pastelup.Constants.{OsType, pastel_conf_name}
use pastelup.Constants.Execs.{pasteld_name}
use pastelup.Configurer.{default_zksnark_dir}
use pastelup.Configs.{Config}
use pastelup.Host.{Host, Stat, present, not_exist, stat_error}
use pastelup.Service.Manager.{ServiceManager}
use pastelup.Start.{check_pastel_file_path}
use pastelup.Start.Pasteld.{
  zksnark_params_names, pastel_params_check_sums, get_checksum, check_zksnark_file,
  check_zksnark_files, check_zksnark_params, spawn_pasteld, start_attempt, run_pastel_node,
}

-- The state is as it was, and the outcome is success or an error, as the flag says.
abbrev pub Succeeds : {W : Type 0} → Bool → Out W (Unit {0}) → W → Type 0
Succeeds true o w = o ≡ ok tt w
Succeeds false o w = (e : Error) × (o ≡ err e w)

module _ {W : Type 0} (host : Host W) (os : OsType) (sha256_hex : Str → Str) where
  -- A path at which there is no file, or a file that can be read.
  abbrev pub IsFile : Str → W → Option Str → Type 0
  IsFile path w none = host.stat path w ≡ not_exist
  IsFile path w (some b) = (host.stat path w ≡ present) × (host.read_file path w ≡ ok b w)

  -- Each of these names in the directory is missing or a file that can be read.
  abbrev pub AreFiles : (Str → Option Str) → Str → List Str → W → Type 0
  AreFiles files dir names w = All (λ name. IsFile (join dir name) w (files (join dir name))) names

  -- The same of the parameter files of a configuration.
  abbrev pub AreParams : (Str → Option Str) → Config → W → Type 0
  AreParams files config =
      AreFiles files (default_zksnark_dir config.configurer) (zksnark_params_names config.legacy)

  -- The file is there with the checksum of its name.
  abbrev pub is_good : (Str → Option Str) → Str → Str → Bool
  is_good files dir name = elim (files (join dir name)) [
    | none ↦ false
    | some b ↦ str_eq (sha256_hex b) (pastel_params_check_sums name)
  ]

  abbrev pub all_good : (Str → Option Str) → Str → List Str → Bool
  all_good files dir [] = true
  all_good files dir (name ∷ names) = is_good files dir name && all_good files dir names

  module _ (files : Str → Option Str) (w : W) where
    check_zksnark_file_lem :
        (dir name : Str)
        → IsFile (join dir name) w (files (join dir name))
        → Succeeds (is_good files dir name) (check_zksnark_file host os sha256_hex dir name w) w
    unfolding check_zksnark_file get_checksum
    check_zksnark_file_lem dir name is = elim (Option-cases (files (join dir name))) [
      | inl missing ↦
          let absent : host.stat (join dir name) w ≡ not_exist = rw missing at is in
          rw (missing, is_good, absent, ◌>>=◌) (errorf "file missing", refl)
      | inr (b, there) ↦
          let (here, reads) : (host.stat (join dir name) w ≡ present)
              × (host.read_file (join dir name) w ≡ ok b w) =
            rw there at is in
          elim (Bool-cases (str_eq (sha256_hex b) (pastel_params_check_sums name))) [
            | inl same ↦ rw (there, is_good, here, ◌>>=◌, reads, wrap_error, same) refl
            | inr other ↦
                rw (there, is_good, here, ◌>>=◌, reads, wrap_error, other)
                  (errorf "Wrong checksum of the pastel param file", refl)
          ]
    ]

    -- One check and then others.
    then-Succeeds :
        (a b : Bool) (m k : Action W (Unit {0}))
        → Succeeds a (m w) w
        → Succeeds b (k w) w
        → Succeeds (a && b) ((m >> k) w) w
    then-Succeeds true b m k first later = rw (first, ◌>>◌) later
    then-Succeeds false b m k (e, first) later = rw (first, ◌>>◌) (e, refl)

    check_zksnark_files_lem :
        (dir : Str) (names : List Str)
        → AreFiles files dir names w
        → Succeeds (all_good files dir names) (check_zksnark_files host os sha256_hex dir names w) w
    unfolding check_zksnark_files
    check_zksnark_files_lem dir [] are = refl
    check_zksnark_files_lem dir (name ∷ names) are =
        then-Succeeds (is_good files dir name) (all_good files dir names)
          (check_zksnark_file host os sha256_hex dir name)
          (check_zksnark_files host os sha256_hex dir names) (check_zksnark_file_lem dir name are.0)
          (check_zksnark_files_lem dir names are.1)

  -- The state is as it was and the outcome is an error.
  abbrev pub Refuses : {A : Type 0} → Out W A → W → Type 0
  Refuses o w = (e : Error) × (o ≡ err e w)

  -- The state is as it was.
  abbrev Stays : {A : Type 0} → Out W A → W → Type 0
  Stays {A} o w = ((a : A) × (o ≡ ok a w)) ⊎ Refuses o w

  bind-Refuses :
      {A B : Type 0} (m : Action W A) (f : A → Action W B) (w : W)
      → Stays (m w) w
      → ((a : A) → Refuses (f a w) w)
      → Refuses ((m >>= f) w) w
  bind-Refuses m f w (inl (a, done)) later = rw (◌>>=◌, done) (later a)
  bind-Refuses m f w (inr (e, stopped)) later = rw (◌>>=◌, stopped) (e, refl)

  first-Refuses :
      {A B : Type 0} (m : Action W A) (f : A → Action W B) (w : W)
      → Refuses (m w) w
      → Refuses ((m >>= f) w) w
  first-Refuses m f w (e, stopped) = rw (◌>>=◌, stopped) (e, refl)

  check_pastel_file_path-Stays :
      (dir file : Str) (w : W) → Stays (check_pastel_file_path host os dir file w) w
  unfolding check_pastel_file_path
  check_pastel_file_path-Stays dir file w = path (host.stat (join dir file) w) refl
    where
      path :
          (st : Stat)
          → host.stat (join dir file) w ≡ st
          → Stays (check_pastel_file_path host os dir file w) w
      path present e = inl (join dir file, (rw (◌>>=◌, e) refl))
      path not_exist e = inr (errorf "could not find path", (rw (◌>>=◌, e) refl))
      path (stat_error x) e = inr (x, (rw (◌>>=◌, e) refl))

  -- If each parameter file of the node is missing or can be read, `CheckZksnarkParams` changes
  -- nothing, and succeeds if each of the files of the current parameters, and for a legacy node of the old ones, is there with the
  -- checksum of its name; otherwise it is an error.
  pub check_zksnark_params_lem :
      (files : Str → Option Str) (w : W) (config : Config)
      → AreParams files config w
      → Succeeds
          (all_good files
            (default_zksnark_dir config.configurer)
            (zksnark_params_names config.legacy))
          (check_zksnark_params host os sha256_hex config w)
          w
  unfolding check_zksnark_params
  check_zksnark_params_lem files w config are =
      check_zksnark_files_lem files w (default_zksnark_dir config.configurer)
        (zksnark_params_names config.legacy) are

  check_zksnark_params-Refuses :
      (files : Str → Option Str) (w : W) (config : Config)
      → AreParams files config w
      → all_good files (default_zksnark_dir config.configurer) (zksnark_params_names config.legacy)
        ≡ false
      → Refuses (check_zksnark_params host os sha256_hex config w) w
  check_zksnark_params-Refuses files w config are bad =
      let checked = check_zksnark_params_lem files w config are in rw bad at checked

  spawn_pasteld-Refuses :
      (files : Str → Option Str) (w : W) (config : Config) (tx_index_one reindex : Bool)
      (ext_ip mn_priv_key : Str)
      → AreParams files config w
      → all_good files (default_zksnark_dir config.configurer) (zksnark_params_names config.legacy)
        ≡ false
      → Refuses
          (spawn_pasteld host os sha256_hex config tx_index_one reindex ext_ip mn_priv_key w)
          w
  unfolding spawn_pasteld check_zksnark_params
  spawn_pasteld-Refuses files w config tx_index_one reindex ext_ip mn_priv_key are bad =
      bind-Refuses (check_pastel_file_path host os config.pastel_exec_dir (pasteld_name os)) _ w
        (check_pastel_file_path-Stays config.pastel_exec_dir (pasteld_name os) w)
        (λ path.
          bind-Refuses (check_pastel_file_path host os config.working_dir pastel_conf_name) _ w
            (check_pastel_file_path-Stays config.working_dir pastel_conf_name w)
            (λ conf.
              first-Refuses (check_zksnark_params host os sha256_hex config) _ w
                (check_zksnark_params-Refuses files w config are bad)))

  -- If no service was started, each parameter file of the node is then missing or can be read, and
  -- one of them is missing or has another checksum
  -- than the one of its name, then `runPastelNode` ends with an error, and the host is as the
  -- attempt to start a service left it: no process is started.
  pub run_pastel_node-Refuses :
      (files : Str → Option Str) (manager : ServiceManager W × Option Error) (config : Config)
      (fuel : ℕ) (tx_index_one reindex : Bool) (ext_ip mn_priv_key : Str) (w u : W)
      → start_attempt manager config w ≡ ok false u
      → AreParams files config u
      → all_good files (default_zksnark_dir config.configurer) (zksnark_params_names config.legacy)
        ≡ false
      → Refuses
          (run_pastel_node host os sha256_hex fuel manager config tx_index_one reindex ext_ip
            mn_priv_key w)
          u
  unfolding run_pastel_node
  run_pastel_node-Refuses files manager config fuel tx_index_one reindex ext_ip mn_priv_key w u idle
        are bad =
      let (e, refused) =
        spawn_pasteld-Refuses files u config tx_index_one reindex ext_ip mn_priv_key are bad in
      (e, (rw (◌>>=◌, idle, ◌>>◌, refused) refl))
