-- ===== src/Remote/Commands.antt =====
-- The commands that pastelup runs for itself on a remote host: cmd/start.go `runRemoteStart`,
-- cmd/stop.go `runRemoteStop`, cmd/update.go `runRemoteUpdate` and
-- `installOrRemoveSystemServiceRemote`, cmd/install.go `runRemoteInstall`, cmd/uninstall.go
-- `runRemoteUninstall`; and cmd/common.go `executeRemoteCommandsWithInventory`. The run of
-- `ExecuteCommandsAsync`, whose order the scheduler chooses, is a parameter.
use pastelup.Base.{
  Str, str, Bool, false, not, ◌&&◌, ◌||◌, List, [], ◌∷◌, ◌++◌, Error, errorf, ◌⊎◌, Action, pure,
  fail, attempt, ◌>>◌, is_empty, str_eq, if◌then◌else◌, ◌>>=◌,
}
use pastelup.Constants.{
  OsType, network_testnet, network_mainnet, network_regtest, network_devnet, remote_pastelup_path,
}
use pastelup.Configs.{Config}
use pastelup.Host.{Host}
use pastelup.Remote.{Ssh, execute_remote_commands}
use pastelup.Remote.Inventory.{
  AnsibleInventoryGroup, Inventory, read_ansible_yaml_inventory, execute_commands,
}

-- `options = fmt.Sprintf("%s TEXT", options)` under a condition
unfoldable pub with_flag : Bool → Str → Str → Str
with_flag on text options = if on then options ++ (b' ' ∷ text) else options

-- The same with a value, which is left out if it is empty
unfoldable pub with_value : Str → Str → Str → Str
unfolding with_flag
with_value key v options = with_flag (not (is_empty v)) (key ++ v) options

-- `runRemoteStart`
unfoldable pub start_options : Config → Str → Str
start_options c tool = with_value (str "--work-dir=") c.working_dir (
    with_value (str "--dir=") c.pastel_exec_dir (
      with_flag c.dev_mode (str "--development-mode") (
        with_flag c.reindex (str "--reindex") (
          with_value (str "--ip=") c.node_ext_ip (
            with_flag c.activate_master_node (str "--activate")
              (with_value (str "--name=") c.master_node_name tool))))))

-- `runRemoteStop`
unfoldable pub stop_options : Config → Str → Str
stop_options c tool =
    with_value (str "--work-dir ") c.working_dir (with_value (str "--dir ") c.pastel_exec_dir tool)

-- `runRemoteUninstall`; the flag is the global variable `flagPurge`.
unfoldable pub uninstall_options : Config → Bool → Str → Str
uninstall_options c purge tool = with_value (str "--work-dir=") c.working_dir (
    with_value (str "--dir=") c.pastel_exec_dir
      (with_flag c.force (str "--force") (with_flag purge (str "--purge") tool)))

-- `runRemoteUpdate`
unfoldable pub update_options : Config → Str → Str
update_options c tool =
    with_flag c.skip_dd_supporting_files_update (str "--skip-dd-supporting-files-update") (
      with_flag c.skip_dd_packages_update (str "--skip-dd-packages-update") (
        with_flag c.skip_system_update (str "--skip-system-update") (
          with_flag c.no_backup (str "--no-backup") (
            with_value (str "--version=") c.version (
              with_value (str "--user-pw ") c.user_pw (
                with_flag c.force (str "--force") (
                  with_value (str "--work-dir ") c.working_dir
                    (with_value (str "--dir ") c.pastel_exec_dir tool))))))))

-- `installOrRemoveSystemServiceRemote`
unfoldable pub service_options : Config → Bool → Str
service_options c install =
    let verb : Str = if install then str "install-service" else str "remove-service" in
    let solution = with_value (str "--solution ") c.service_solution verb in
    let tool = with_value (str "--tool ") c.service_tool verb in
    let which : Str = if is_empty c.service_tool then solution else tool in
    with_value (str "--user-pw ") c.user_pw (
      with_flag c.force (str "--force") (
        with_value (str "--work-dir ") c.working_dir (
          with_value (str "--dir ") c.pastel_exec_dir (
            with_flag c.start_service (str "--start")
              (with_flag c.enable_service (str "--autostart") which)))))

-- The option for the network in `runRemoteInstall`
unfoldable pub network_option : Str → Str → Str
network_option network options =
    if str_eq network network_testnet
    then options ++ str " -n=testnet"
    else if str_eq network network_mainnet
    then options ++ str " -n=mainnet"
    else if str_eq network network_regtest
    then options ++ str " -n=regtest"
    else if str_eq network network_devnet
    then options ++ str " -n=devnet"
    else options

-- `runRemoteInstall`
unfoldable pub install_options : Config → Str → Str
install_options c tool =
    let first = with_flag c.use_snapshot (str "--use-snapshot") (
      with_value (str "--extra-flags=") c.extra_flags (
        with_value (str "--peers=") c.peers (
          with_value (str "--version=") c.version (
            with_flag c.force (str "--force") (
              with_value (str "--work-dir=") c.working_dir
                (with_value (str "--dir=") c.pastel_exec_dir tool)))))) in
    with_value (str "--user-pw=") c.user_pw (
      network_option c.network (
        with_value (str "--snapshot-archive-type=") c.snapshot_type
          (with_value (str "--snapshot-name=") c.snapshot_name first)))

-- Neither an address nor an inventory is given.
unfoldable pub has_no_target : Config → Bool
has_no_target config = is_empty config.remote_ip && is_empty config.inventory_file

module _ {W C : Type 0} (host : Host W) (ssh : Ssh W C) (os : OsType)
    (parse : Str → Error ⊎ List (Str × AnsibleInventoryGroup))
    (together : Inventory → Config → List Str → Bool → Action W (List Str)) where
  -- The branch of `executeRemoteCommandsWithInventory` for an inventory
  unfoldable pub on_inventory : Config → List Str → Bool → Action W (List Str)
  on_inventory config commands need_output = do
    inventory ← read_ansible_yaml_inventory host ssh os parse config.inventory_file
    let in_turn = do
      (left, outs) ← execute_commands host ssh os inventory config commands need_output
      pure outs
    let at_once = together inventory config commands need_output
    if config.async_remote then at_once else in_turn

  -- `executeRemoteCommandsWithInventory`
  unfoldable pub execute_remote_commands_with_inventory :
      Config → List Str → Bool → Bool → Action W (List Str)
  execute_remote_commands_with_inventory config commands try_stop need_output = do
    let on_host = do
      out ← execute_remote_commands host ssh os config commands try_stop need_output
      pure (out ∷ [])
    let on_all = on_inventory config commands need_output
    if is_empty config.inventory_file then on_host else on_all

  -- A command whose failure is logged, and is no error.
  unfoldable pub run_and_log : Config → Str → Action W (Unit {0})
  run_and_log config command =
      attempt (execute_remote_commands_with_inventory config (command ∷ []) false false) >> pure tt

  unfoldable pub run_remote_start : Config → Str → Action W (Unit {0})
  run_remote_start config tool =
      run_and_log config (remote_pastelup_path ++ (str " start " ++ start_options config tool))

  unfoldable pub run_remote_stop : Config → Str → Action W (Unit {0})
  run_remote_stop config tool =
      run_and_log config (remote_pastelup_path ++ (str " stop " ++ stop_options config tool))

  unfoldable pub run_remote_uninstall : Config → Bool → Str → Action W (Unit {0})
  run_remote_uninstall config purge tool =
      run_and_log config
        (remote_pastelup_path ++ (str " uninstall " ++ uninstall_options config purge tool))

  unfoldable pub run_remote_update : Config → Str → Action W (Unit {0})
  run_remote_update config tool =
      if has_no_target config
      then fail (errorf "remote IP or inventory file is required")
      else run_and_log config (
          str "yes Y | "
          ++ (remote_pastelup_path ++ (str " update " ++ update_options config tool)))

  unfoldable pub install_or_remove_system_service_remote : Config → Bool → Action W (Unit {0})
  install_or_remove_system_service_remote config install = run_and_log config (
      str "yes Y | "
      ++ (remote_pastelup_path ++ (str " update " ++ service_options config install)))

  unfoldable pub run_remote_install : Config → Str → Action W (Unit {0})
  run_remote_install config tool =
      let known =
        str_eq config.network network_testnet
        || str_eq config.network network_mainnet
        || str_eq config.network network_devnet in
      if not known
      then fail (errorf "--network or -n parameter is required")
      else if has_no_target config
      then fail (errorf "remote IP or inventory file is required")
      else run_and_log config (
          str "yes Y | "
          ++ (remote_pastelup_path ++ (str " install " ++ install_options config tool)))
