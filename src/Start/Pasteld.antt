-- ===== src/Start/Pasteld.antt =====
-- cmd/start.go and cmd/common.go: the start of pasteld, its check of the parameter files for
-- zk-SNARKs, and the start as a masternode. `sha256_hex` is the hash of Go's library in hexadecimal.
pub mod ParamFiles
pub mod Started
pub mod AsMasternode
use pastelup.Base.{
  ℕ, Str, str, Bool, true, false, List, [], ◌∷◌, ◌++◌, Option, none, some, Error, errorf, Action,
  pure, fail, query, perform, modify, wrap_error, attempt, ◌>>=◌, ◌>>◌, is_empty, if◌then◌else◌,
  str_eq, not, inl, inr,
}
use pastelup.Path.{join}
use pastelup.Constants.{OsType, pasteld, pastel_conf_name}
use pastelup.Constants.Execs.{pasteld_name}
use pastelup.Configurer.{default_zksnark_dir}
use pastelup.Configs.{Config}
use pastelup.Host.{Host, present, not_exist, stat_error}
use pastelup.Masternode.{Codec, get_masternode_conf_data}
use pastelup.PastelConf.{parse_pastel_conf}
use pastelup.Service.Manager.{ServiceManager}
use pastelup.Node.{waiting_for_pasteld_to_start}
use pastelup.Start.{check_pastel_file_path}

abbrev pub zksnark_params_names_v2 : List Str
zksnark_params_names_v2 =
    str "sapling-spend.params" ∷ str "sapling-output.params" ∷ str "sprout-groth16.params" ∷ []

abbrev pub zksnark_params_names_v1 : List Str
zksnark_params_names_v1 = str "sprout-proving.key" ∷ str "sprout-verifying.key" ∷ []

-- The files that `CheckZksnarkParams` looks at.
abbrev pub zksnark_params_names : Bool → List Str
zksnark_params_names legacy =
    zksnark_params_names_v2 ++ (if legacy then zksnark_params_names_v1 else [])

-- A missing key of the map reads as the empty string.
unfoldable pub pastel_params_check_sums : Str → Str
pastel_params_check_sums name =
    if str_eq name (str "sapling-output.params")
    then str "2f0ebbcbb9bb0bcffe95a397e7eba89c29eb4dde6191c339db88570e3f3fb0e4"
    else if str_eq name (str "sapling-spend.params")
    then str "8e48ffd23abb3a5fd9c5589204f32d9c31285a04b78096ba40a79b75677efc13"
    else if str_eq name (str "sprout-groth16.params")
    then str "b685d700c60328498fbde589c8c7c484c722b788b265b72af448a5bf0ee55b50"
    else if str_eq name (str "sprout-proving.key")
    then str "8bc20a7f013b2b58970cddd2e7ea028975c88ae7ceb9259a5344a16bc2c0eef7"
    else if str_eq name (str "sprout-verifying.key")
    then str "4bd498dae0aacfd8e98dc306338d017d9c08dd0918ead18172bd0aec2fc5df82"
    else []

-- The arguments of pasteld
unfoldable pub pasteld_args : Config → Bool → Bool → Str → Str → List Str
pasteld_args config tx_index_one reindex ext_ip mn_priv_key =
    (str "--datadir=" ++ config.working_dir)
    ∷ (str "--externalip=" ++ ext_ip)
    ∷ ((if tx_index_one then str "--txindex=1" ∷ [] else [])
        ++ ((if reindex then str "--reindex" ∷ [] else [])
            ++ ((if is_empty mn_priv_key
                  then []
                  else str "--masternode" ∷ (str "--masternodeprivkey=" ++ mn_priv_key) ∷ [])
                ++ (str "--daemon" ∷ []))))

-- Whether a service was started
abbrev pub start_attempt : {W : Type 0} → ServiceManager W × Option Error → Config → Action W Bool
start_attempt (sm, unsupported) config = elim unsupported [
  | none ↦ sm.start_service config pasteld
  | some e ↦ pure false
]

module _ {W : Type 0} (host : Host W) (os : OsType) (sha256_hex : Str → Str) where
  -- `GetChecksum`; a file whose opening or reading fails is an error.
  unfoldable pub get_checksum : Str → Action W Str
  get_checksum path = query (host.stat path) >>= λ st. elim st [
    | present ↦ do
      bytes ← wrap_error "open file failed" (host.read_file path)
      pure (sha256_hex bytes)
    | not_exist ↦ fail (errorf "file missing")
    | stat_error e ↦ fail (errorf "file missing")
  ]

  -- The body of the loop of `CheckZksnarkParams`
  unfoldable pub check_zksnark_file : Str → Str → Action W (Unit {0})
  check_zksnark_file dir name = do
    sum ← get_checksum (join dir name)
    let wrong = fail (errorf "Wrong checksum of the pastel param file")
    if str_eq sum (pastel_params_check_sums name) then pure tt else wrong

  unfoldable pub check_zksnark_files : Str → List Str → Action W (Unit {0})
  check_zksnark_files dir [] = pure tt
  check_zksnark_files dir (name ∷ names) =
      check_zksnark_file dir name >> check_zksnark_files dir names

  -- `CheckZksnarkParams`
  unfoldable pub check_zksnark_params : Config → Action W (Unit {0})
  check_zksnark_params config =
      check_zksnark_files (default_zksnark_dir config.configurer)
        (zksnark_params_names config.legacy)

  -- `GetExternalIPAddress` if no address is given
  unfoldable pub ext_ip_or : Str → Action W Str
  ext_ip_or ext_ip = if is_empty ext_ip then host.external_ip else pure ext_ip

  -- The part of `runPastelNode` for a node that no service started
  unfoldable pub spawn_pasteld : Config → Bool → Bool → Str → Str → Action W (Unit {0})
  spawn_pasteld config tx_index_one reindex ext_ip mn_priv_key = do
    path ← check_pastel_file_path host os config.pastel_exec_dir (pasteld_name os)
    check_pastel_file_path host os config.working_dir pastel_conf_name
    check_zksnark_params config
    ip ← ext_ip_or ext_ip
    modify (host.spawn path (pasteld_args config tx_index_one reindex ip mn_priv_key))

  -- The wait at the end of `runPastelNode`: none if the fuel is used up.
  unfoldable pub wait_for_node : ℕ → Action W (Option (Unit {0}))
  wait_for_node fuel = do
    up ← perform (waiting_for_pasteld_to_start host fuel)
    elim up [
      | none ↦ pure none
      | some true ↦ pure (some tt)
      | some false ↦ fail (errorf "pasteld was not started")
    ]

  -- `runPastelNode`
  unfoldable pub run_pastel_node :
      ℕ
      → ServiceManager W × Option Error
      → Config
      → Bool
      → Bool
      → Str
      → Str
      → Action W (Option (Unit {0}))
  run_pastel_node fuel manager config tx_index_one reindex ext_ip mn_priv_key = do
    started ← start_attempt manager config
    let process = spawn_pasteld config tx_index_one reindex ext_ip mn_priv_key
    if started then pure tt else process
    wait_for_node fuel

  -- The part of `runStartMasternode` behind the reading of pastel.conf
  unfoldable pub start_as_masternode :
      ℕ → Codec → ServiceManager W × Option Error → Config → Action W (Option (Unit {0}))
  start_as_masternode fuel codec manager config = do
    (priv_key, ip, port) ←
        get_masternode_conf_data host codec config config.master_node_name config.node_ext_ip
    ext_ip ← (do
      found ← attempt (ext_ip_or config.node_ext_ip)
      elim found [ inl e ↦ fail (errorf "cannot get external ip address") | inr a ↦ pure a ])
    let go = run_pastel_node fuel manager config true config.reindex ext_ip priv_key
    let differs = fail (errorf "External IP address in masternode.conf MUST match WAN address")
    if str_eq ip ext_ip then go else differs

  -- `runStartMasternode`
  unfoldable pub run_start_masternode :
      ℕ → Codec → ServiceManager W × Option Error → Config → Action W (Option (Unit {0}))
  run_start_masternode fuel codec manager config =
      parse_pastel_conf host config >>= start_as_masternode fuel codec manager
