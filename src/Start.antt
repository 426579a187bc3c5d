-- ===== src/Start.antt =====
-- cmd/start.go: the start of a component as a service or as a process, and the check of the
-- parameters of a masternode. The manager and its error are those of `NewServiceManager`.
pub mod Components
pub mod Params
pub mod Pasteld
pub mod Supernode
use pastelup.Base.{
  ℕ, ◌==◌, Str, str, Bool, false, List, [], ◌∷◌, ◌++◌, Option, none, some, Error, errorf, inl, inr,
  Action, pure, fail, attempt, query, perform, modify, ◌>>=◌, ◌>>◌, is_empty, if◌then◌else◌,
  get_elem?, ◌&&◌, not,
}
use pastelup.Path.{join, join_three}
use pastelup.Constants.{
  OsType, windows, ToolType, wallet_node, dd_service, rq_service, dd_img_service,
  dupe_detection_service_dir, dupe_detection_sub_folder, dupe_detection_exec_file_name,
  dupe_detection_support_file_path, dupe_detection_config_filename,
}
use pastelup.Constants.Execs.{wallet_node_exec_name, rq_service_exec_name}
use pastelup.Constants.Ports.{get_sn_port_list, node_port, sn_port, p2p_port}
use pastelup.Configurer.{get_wallet_node_conf_file, get_rq_service_conf_file}
use pastelup.Configs.{Config}
use pastelup.Host.{Host, present, not_exist, stat_error}
use pastelup.Masternode.{get_masternode_conf_path}
use pastelup.Service.Manager.{ServiceManager}
use pastelup.Service.Plan.{get_dupe_detection_exec_name}
use pastelup.Node.{check_process_running}

-- `portList[i]`; the lists of ports are longer than the indices that the code uses.
unfoldable pub port_at : List ℕ → ℕ → ℕ
port_at ports i = elim (get_elem? ports i) [ some p ↦ p | none ↦ 0 ]

abbrev pub port_or : ℕ → ℕ → ℕ
port_or port default_port = if port == 0 then default_port else port

abbrev pub text_or : Str → Str → Str
text_or text default_text = if is_empty text then default_text else text

-- The part of `checkStartMasterNodeParams` that fills the configuration.
unfoldable pub with_defaults : Config → Config
with_defaults config =
    let ports = get_sn_port_list config.network in
    record config {
      master_node_rpc_ip = text_or config.master_node_rpc_ip config.node_ext_ip;
      master_node_p2p_ip = text_or config.master_node_p2p_ip config.node_ext_ip;
      master_node_port = port_or config.master_node_port (port_at ports node_port);
      master_node_rpc_port = port_or config.master_node_rpc_port (port_at ports sn_port);
      master_node_p2p_port = port_or config.master_node_p2p_port (port_at ports p2p_port);
    }

module _ {W : Type 0} (host : Host W) (os : OsType) where
  -- `checkPastelFilePath`
  unfoldable pub check_pastel_file_path : Str → Str → Action W Str
  check_pastel_file_path dir file = query (host.stat (join dir file)) >>= λ st. elim st [
    | not_exist ↦ fail (errorf "could not find path")
    | stat_error e ↦ fail e
    | present ↦ pure (join dir file)
  ]

  -- What `runPastelService` does with the executable: it is started in the background, and if it
  -- does not run 10 seconds later, once more in the foreground.
  unfoldable pub run_executable : ToolType → List Str → Str → Action W (Unit {0})
  run_executable tool args path = do
    modify (host.spawn path args)
    modify (host.sleep 10)
    running ← check_process_running host os tool
    let foreground = do
      ran ← perform (host.run_cmd path args)
      elim ran.failure [ none ↦ pure tt | some e ↦ fail e ]
    if running then pure tt else foreground

  -- `runPastelService`
  unfoldable pub run_pastel_service : Config → ToolType → Str → List Str → Action W (Unit {0})
  run_pastel_service config tool file args =
      check_pastel_file_path config.pastel_exec_dir file >>= run_executable tool args

  -- The attempt to start a system service, shared by the components: whether it runs afterwards.
  unfoldable pub start_as_service :
      ServiceManager W × Option Error → Config → ToolType → Action W Bool
  start_as_service (sm, unsupported) config tool = do
    let look = modify (host.sleep 10) >> check_process_running host os tool
    let try = do started ← sm.start_service config tool; if started then look else pure false
    elim unsupported [ none ↦ try | some e ↦ pure false ]

  -- `runRQService`
  unfoldable pub run_rq_service : ServiceManager W × Option Error → Config → Action W (Unit {0})
  run_rq_service manager config = do
    runs ← start_as_service manager config rq_service
    let conf_file = get_rq_service_conf_file config.configurer config.working_dir
    let process =
        run_pastel_service config rq_service (rq_service_exec_name os)
          ((str "--config-file=" ++ conf_file) ∷ [])
    if runs then pure tt else process

  -- `runWalletNodeService`
  unfoldable pub run_wallet_node_service :
      ServiceManager W × Option Error → Config → Action W (Unit {0})
  run_wallet_node_service manager config = do
    runs ← start_as_service manager config wallet_node
    let conf_file = get_wallet_node_conf_file config.configurer config.working_dir
    let args =
        (str "--config-file=" ++ conf_file)
        ∷ (str "--pastel-config-file=" ++ (config.working_dir ++ str "/pastel.conf"))
        ∷ (if config.dev_mode then str "--swagger" ∷ [] else [])
    let process = run_pastel_service config wallet_node (wallet_node_exec_name os) args
    if runs then pure tt else process

  -- `runDDImgServer`
  unfoldable pub run_dd_img_server : ServiceManager W × Option Error → Config → Action W (Unit {0})
  run_dd_img_server (sm, unsupported) config = elim unsupported [
    | some e ↦ fail e
    | none ↦ sm.start_service config dd_img_service >> pure tt
  ]

  -- The shell command with which `runDDService` starts the process
  unfoldable pub dd_command : Config → Str → Str → Str
  dd_command config home_dir exec_path =
      let python : Str = elim os [ windows ↦ str "python" | _ ↦ str "python3" ] in
      let venv = join_three config.pastel_exec_dir dupe_detection_sub_folder (str "venv") in
      let conf_file =
        join (join_three home_dir dupe_detection_service_dir dupe_detection_support_file_path)
          dupe_detection_config_filename in
      str "source "
      ++ (venv
          ++ (str "/bin/activate && " ++ (python ++ (b' ' ∷ (exec_path ++ (b' ' ∷ conf_file))))))

  -- `runDDService`
  unfoldable pub run_dd_service :
      ServiceManager W × Option Error → Config → Str → Action W (Unit {0})
  run_dd_service (sm, unsupported) config home_dir = do
    started ← elim unsupported [ none ↦ sm.start_service config dd_service | some e ↦ pure false ]
    let process = do
      path ← check_pastel_file_path config.pastel_exec_dir get_dupe_detection_exec_name
      modify (host.spawn (str "bash") (str "-c" ∷ dd_command config home_dir path ∷ []))
    if started then pure tt else process
    modify (host.sleep 10)
    found ← attempt (host.find_running_process dupe_detection_exec_file_name)
    let output : Str = elim found [ inl e ↦ [] | inr o ↦ o ]
    if is_empty output then fail (errorf "dd-service failed to start") else pure tt

  -- The first part of `checkStartMasterNodeParams`: the address of the host, if it was not given.
  unfoldable pub with_ext_ip : Config → Bool → Action W Config
  with_ext_ip config cold_hot = do
    let ask = do
      found ← attempt host.external_ip
      elim found [
        | inl e ↦ fail (errorf "cannot get external ip address")
        | inr ip ↦ pure (record config { node_ext_ip = ip })
      ]
    if is_empty config.node_ext_ip && not cold_hot then ask else pure config

  -- Its second part: masternode.conf must be there unless it is to be created, and a hot node needs
  -- an address.
  unfoldable pub check_files : Config → Bool → Action W (Unit {0})
  check_files config cold_hot = do
    let conf_file = get_masternode_conf_path config.network [] (str "masternode.conf")
    let exists = check_pastel_file_path config.working_dir conf_file >> pure tt
    if config.create_new_master_node_conf then pure tt else exists
    let required = fail (errorf "required if --coldhot is specified")
    if cold_hot && is_empty config.remote_ip then required else pure tt

  -- `checkStartMasterNodeParams`: the configuration that it leaves.
  unfoldable pub check_start_master_node_params : Config → Bool → Action W Config
  check_start_master_node_params config cold_hot = do
    with_ip ← with_ext_ip config cold_hot
    check_files with_ip cold_hot
    pure (with_defaults with_ip)
