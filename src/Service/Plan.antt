-- ===== src/Service/Plan.antt =====
-- The `switch` of `LinuxSystemdManager.RegisterService`: what the unit of a tool runs, and where.
use pastelup.Base.{Str, str, Bool, ◌++◌, Action, pure, query, ◌>>=◌, if◌then◌else◌}
use pastelup.Path.{join, join_three}
use pastelup.Constants.{
  OsType, ToolType, wallet_node, super_node, pasteld, dd_service, rq_service, hermes, bridge,
  dd_img_service, pastel_conf_name, dupe_detection_service_dir, dupe_detection_sub_folder,
  dupe_detection_exec_file_name, dupe_detection_support_file_path, dupe_detection_config_filename,
}
use pastelup.Constants.Execs.{
  pasteld_name, wallet_node_exec_name, super_node_exec_name, hermes_exec_name, bridge_exec_name,
  rq_service_exec_name,
}
use pastelup.Configurer.{
  get_super_node_conf_file, get_hermes_conf_file, get_bridge_conf_file, get_wallet_node_conf_file,
  get_rq_service_conf_file,
}
use pastelup.Configs.{Config}
use pastelup.Host.{Host, check_file_exist}
use pastelup.Masternode.{Codec, get_masternode_conf_data}

-- `unit` holds `execCmd` and `workDir`. `missing` is the early `return err` behind a failed
-- `CheckFileExist`, and `skipped` the `default` case.
pub data UnitPlan : Type 0 where
  unit : Str → Str → UnitPlan
  missing skipped : UnitPlan

-- `GetDupeDetectionExecName`
unfoldable pub get_dupe_detection_exec_name : Str
get_dupe_detection_exec_name = join dupe_detection_sub_folder dupe_detection_exec_file_name

unfoldable pub pasteld_command : Config → Str → Str → Str
pasteld_command config path ext_ip =
    path ++ (str " --datadir=" ++ (config.working_dir ++ (str " --externalip=" ++ ext_ip)))

module _ {W : Type 0} (host : Host W) (codec : Codec) (os : OsType) (home_dir : Str) where
  -- The shape shared by six cases: the executable must exist; then the command is made from it.
  unfoldable pub exec_plan : Config → Str → (Str → Str) → Action W UnitPlan
  exec_plan config exec_name command = do
    let path = join config.pastel_exec_dir exec_name
    exists ← query (check_file_exist host path)
    pure (if exists then unit (command path) config.pastel_exec_dir else missing)

  -- ` --config-file=... --pastel-config-file=...`
  unfoldable pub config_flags : Config → Str → Str
  config_flags config conf_file =
      str " --config-file="
      ++ (conf_file ++ (str " --pastel-config-file=" ++ join config.working_dir pastel_conf_name))

  -- The command of a masternode has the node's private key.
  unfoldable pub masternode_plan : Config → Str → Str → Action W UnitPlan
  masternode_plan config cmd ext_ip = do
    data_of ← get_masternode_conf_data host codec config config.master_node_name ext_ip
    pure (
        unit (cmd ++ (str " --txindex=1 --masternode --masternodeprivkey=" ++ data_of.0))
          config.pastel_exec_dir)

  -- The rest of the case, if the executable is there.
  unfoldable pub found_plan : Config → Bool → Str → Action W UnitPlan
  found_plan config is_mn path = do
    ext_ip ← host.external_ip
    let cmd = pasteld_command config path ext_ip
    if is_mn then masternode_plan config cmd ext_ip else pure (unit cmd config.pastel_exec_dir)

  unfoldable pub pasteld_plan : Config → Bool → Action W UnitPlan
  pasteld_plan config is_mn = do
    let path = join config.pastel_exec_dir (pasteld_name os)
    exists ← query (check_file_exist host path)
    if exists then found_plan config is_mn path else pure missing

  unfoldable pub dd_service_plan : Config → Action W UnitPlan
  dd_service_plan config = do
    let path = join config.pastel_exec_dir get_dupe_detection_exec_name
    exists ← query (check_file_exist host path)
    let python =
        join_three config.pastel_exec_dir dupe_detection_sub_folder (str "venv/bin/python3")
    python_exists ← query (check_file_exist host python)
    let dd_config =
        join (join_three home_dir dupe_detection_service_dir dupe_detection_support_file_path)
          dupe_detection_config_filename
    pure (
        if exists
        then (if python_exists
            then unit (python ++ (str " " ++ (path ++ (str " " ++ dd_config))))
                config.pastel_exec_dir
            else missing)
        else missing)

  unfoldable pub plan : Config → ToolType → Bool → Action W UnitPlan
  plan config dd_img_service is_mn = pure (
      unit (str "python3 -m  http.server 8000")
        (join (join home_dir dupe_detection_service_dir) (str "img_server")))
  plan config pasteld is_mn = pasteld_plan config is_mn
  plan config rq_service is_mn = exec_plan config (rq_service_exec_name os) (λ path.
      path
      ++ (str " --config-file=" ++ get_rq_service_conf_file config.configurer config.working_dir))
  plan config dd_service is_mn = dd_service_plan config
  plan config super_node is_mn = exec_plan config (super_node_exec_name os) (λ path.
      path ++ config_flags config (get_super_node_conf_file config.configurer config.working_dir))
  plan config hermes is_mn = exec_plan config (hermes_exec_name os) (λ path.
      path ++ config_flags config (get_hermes_conf_file config.configurer config.working_dir))
  plan config wallet_node is_mn = exec_plan config (wallet_node_exec_name os) (λ path.
      let cmd =
        path
        ++ config_flags config (get_wallet_node_conf_file config.configurer config.working_dir) in
      if config.dev_mode then cmd ++ str " --swagger" else cmd)
  plan config bridge is_mn = exec_plan config (bridge_exec_name os) (λ path.
      path ++ config_flags config (get_bridge_conf_file config.configurer config.working_dir))
  plan _ _ _ = pure skipped
