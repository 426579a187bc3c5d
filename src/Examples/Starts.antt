-- ===== src/Examples/Starts.antt =====
-- Starting components on the sample host.
use pastelup.Base.{
  ◌++◌, if◌then◌else◌, ◌≡◌, ◌⊎◌, inr, ok, state_of, Str, str, true, false, [], ◌∷◌, none, some,
  str_eq, refl,
}
use pastelup.Constants.{linux, rq_service, wallet_node, super_node}
use pastelup.Constants.Execs.{
  service_name, rq_service_exec_name, wallet_node_exec_name, super_node_exec_name,
}
use pastelup.Configurer.{
  get_hermes_conf_file, get_super_node_conf_file, get_rq_service_conf_file,
  get_wallet_node_conf_file, new_linux_configurer,
}
use pastelup.Configs.{Config}
use pastelup.Host.Sample.{World, sample_host, empty_world}
use pastelup.Service.Manager.{noop_manager}
use pastelup.Node.{check_process_running, get_running_process_pid, find_pid, is_process_of}
use pastelup.Start.{
  start_as_service, run_rq_service, run_wallet_node_service, run_pastel_service, run_executable,
  check_pastel_file_path, check_start_master_node_params, with_ext_ip, check_files, with_defaults,
}
use pastelup.Start.Supernode.{
  Yaml, node_args, set_pastel_id_and_passphrase_in_hermes_conf, node_of, value_of, start_or_log,
  start_hermes, run_hermes_service, run_super_node_service,
}
use pastelup.Start.Supernode.Runs.{
  HermesRan, HasFailed, run_hermes_service-WasRun, run_super_node_service-WasRun,
}
use pastelup.Start.Components.{WasRun, run_rq_service-WasRun, run_wallet_node_service-WasRun}
use pastelup.Start.Params.{IsComplete, check_start_master_node_params-IsComplete}
use pastelup.Examples.{sample_config}

-- The executables are there, and a process of rq-service runs; walletnode ends at once.
abbrev ready_world : World
ready_world = record empty_world {
  files = λ p. some [];
  running = record { executable = str "rq-service-linu"; pid = 5 } ∷ [];
}

run_rq_service-WasRun_example :
    WasRun sample_host linux
      (noop_manager, none)
      sample_config
      rq_service
      (rq_service_exec_name linux)
      ((str "--config-file="
          ++ get_rq_service_conf_file sample_config.configurer sample_config.working_dir)
        ∷ [])
      ready_world
unfolding sample_host noop_manager run_rq_service start_as_service run_pastel_service run_executable
    check_pastel_file_path check_process_running get_running_process_pid find_pid is_process_of
    service_name rq_service_exec_name str_eq
run_rq_service-WasRun_example =
    run_rq_service-WasRun sample_host linux (noop_manager, none) sample_config ready_world
      ready_world refl

run_wallet_node_service-WasRun_example :
    WasRun sample_host linux
      (noop_manager, none)
      sample_config
      wallet_node
      (wallet_node_exec_name linux)
      ((str "--config-file="
          ++ get_wallet_node_conf_file sample_config.configurer sample_config.working_dir)
        ∷ (str "--pastel-config-file=" ++ (sample_config.working_dir ++ str "/pastel.conf"))
        ∷ (if sample_config.dev_mode then str "--swagger" ∷ [] else []))
      ready_world
unfolding sample_host noop_manager run_wallet_node_service start_as_service run_pastel_service
    run_executable check_pastel_file_path check_process_running get_running_process_pid find_pid
    is_process_of service_name wallet_node_exec_name str_eq
run_wallet_node_service-WasRun_example =
    run_wallet_node_service-WasRun sample_host linux (noop_manager, none) sample_config ready_world
      ready_world refl

abbrev bare_config : Config
bare_config = record sample_config {
  create_new_master_node_conf = true;
  master_node_port = 0;
  master_node_p2p_ip = [];
}

checked_config : Config
unfolding with_defaults
checked_config = with_defaults bare_config

check_start_master_node_params-IsComplete_example : IsComplete bare_config checked_config
unfolding checked_config check_start_master_node_params with_ext_ip check_files
check_start_master_node_params-IsComplete_example =
    check_start_master_node_params-IsComplete sample_host linux bare_config checked_config false
      empty_world empty_world refl

-- A library under which every text is the same document with one key.
abbrev one_yaml : Yaml Str
one_yaml = record {
  unmarshal = λ bytes. inr ((str "node", str "n") ∷ []);
  marshal = λ conf. inr [];
  as_map = λ v. some ((str "pastel_id", str "id") ∷ []);
  text = λ s. s;
  print = λ v. [];
}

-- supernode and hermes run.
abbrev super_world : World
super_world = record empty_world {
  files = λ p. some [];
  running =
      record { executable = str "supernode-linux"; pid = 5 }
      ∷ record { executable = str "hermes-linux"; pid = 6 }
      ∷ [];
}

-- The configuration of hermes was written.
super_world_after : World
unfolding sample_host run_super_node_service
super_world_after = state_of (
    run_super_node_service sample_host linux one_yaml (noop_manager, none) sample_config
      super_world)

run_super_node_service-WasRun_example :
    (x : World) × WasRun sample_host linux
      (noop_manager, none)
      sample_config
      super_node
      (super_node_exec_name linux)
      (node_args sample_config
        (get_super_node_conf_file sample_config.configurer sample_config.working_dir))
      x
    × (run_hermes_service sample_host linux one_yaml (noop_manager, none) sample_config x
        ≡ ok tt super_world_after)
    × (HermesRan sample_host linux one_yaml (noop_manager, none) sample_config super_world_after
        ⊎ HasFailed sample_host linux one_yaml (noop_manager, none) sample_config super_world_after)
unfolding super_world_after sample_host run_super_node_service start_or_log noop_manager
    run_pastel_service check_pastel_file_path run_executable check_process_running
    get_running_process_pid is_process_of service_name run_hermes_service
    set_pastel_id_and_passphrase_in_hermes_conf node_of value_of start_hermes get_hermes_conf_file
    new_linux_configurer
run_super_node_service-WasRun_example =
    run_super_node_service-WasRun sample_host linux one_yaml (noop_manager, none) sample_config
      super_world super_world_after refl

-- Without the files hermes is not started, and there is no error.
run_hermes_service-WasRun_example :
    HermesRan sample_host linux one_yaml (noop_manager, none) sample_config empty_world
    ⊎ HasFailed sample_host linux one_yaml (noop_manager, none) sample_config empty_world
unfolding sample_host run_hermes_service set_pastel_id_and_passphrase_in_hermes_conf
run_hermes_service-WasRun_example =
    run_hermes_service-WasRun sample_host linux one_yaml (noop_manager, none) sample_config
      empty_world empty_world refl
