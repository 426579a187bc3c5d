-- ===== src/Install.antt =====
-- cmd/install.go: the installation and the update of the components. `flagIgnoreDependencies` is
-- the argument `ignore_dependencies`.
pub mod Packages
pub mod Files
pub mod System
pub mod Texts
pub mod Components
pub mod Snapshot
pub mod SevenZip
pub mod Services
pub mod Frame
pub mod Untouched
pub mod Defaults
use pastelup.Base.{
  ℕ, ◌==◌, ℤ, pos, negsuc, Str, str, Bool, true, false, ◌||◌, List, [], ◌∷◌, ◌++◌, Error, errorf,
  wrapf, ◌⊎◌, inl, inr, Action, pure, fail, query, wrap_error, ◌>>=◌, ◌>>◌, if◌then◌else◌, str_eq,
  is_empty,
}
use pastelup.Constants.{
  OsType, ToolType, wallet_node, super_node, pasteld, dd_service, rq_service, hermes, bridge,
  dd_img_service,
}
use pastelup.Constants.Ports.{get_sn_port_list, node_rpc_port}
use pastelup.Configs.{Config}
use pastelup.Host.{Host, check_file_exist}
use pastelup.Prompt.{ask_user_to_continue}
use pastelup.Start.{port_at}
use pastelup.Disk.{Disk, create_folder, generate_random_string}

-- `appToServiceMap`: a missing key has no services.
unfoldable pub app_to_service_map : ToolType → List ToolType
app_to_service_map pasteld = pasteld ∷ []
app_to_service_map wallet_node = pasteld ∷ rq_service ∷ wallet_node ∷ []
app_to_service_map super_node = pasteld ∷ rq_service ∷ dd_service ∷ super_node ∷ hermes ∷ []
app_to_service_map rq_service = rq_service ∷ []
app_to_service_map dd_service = dd_service ∷ []
app_to_service_map dd_img_service = dd_img_service ∷ []
app_to_service_map hermes = hermes ∷ []
app_to_service_map bridge = bridge ∷ []
app_to_service_map _ = []

-- `config.OpMode == "install"`, `config.OpMode == "update"`
abbrev pub is_install : Config → Bool
is_install config = str_eq config.op_mode (str "install")

abbrev pub is_update : Config → Bool
is_update config = str_eq config.op_mode (str "update")

abbrev pub is_no_port : ℤ → Bool
is_no_port (pos n) = n == 0
is_no_port (negsuc n) = false

module _ {W : Type 0} (host : Host W) (disk : Disk W) (os : OsType) where
  -- The three steps of `getDefaultRPCParameters`
  unfoldable pub default_rpc_port : Config → Config
  default_rpc_port config =
      let ports = get_sn_port_list config.network in
      let set = record config { rpc_port = pos (port_at ports node_rpc_port) } in
      if is_no_port config.rpc_port || config.regen_rpc then set else config

  unfoldable pub default_rpc_user : Config → W → Config × W
  default_rpc_user config w =
      let (name, v) = generate_random_string host disk os 8 w in
      let set : Config × W = (record config { rpc_user = name }, v) in
      if is_empty config.rpc_user || config.regen_rpc then set else (config, w)

  unfoldable pub default_rpc_pwd : Config → W → Config × W
  default_rpc_pwd config w =
      let (password, v) = generate_random_string host disk os 15 w in
      let set : Config × W = (record config { rpc_pwd = password }, v) in
      if is_empty config.rpc_pwd || config.regen_rpc then set else (config, w)

  -- `getDefaultRPCParameters`: the configuration that it leaves.
  unfoldable pub get_default_rpc_parameters : Config → W → Config × W
  get_default_rpc_parameters config w =
      let (named, u) = default_rpc_user (default_rpc_port config) w in default_rpc_pwd named u

  -- The part of `checkInstallDir` for a directory that is there
  unfoldable pub overwrite_install_dir : Config → Str → Str → Action W Config
  overwrite_install_dir config path mode = do
    let ask = do
      (yes?, line) ← ask_user_to_continue host (
          mode
          ++ (str " will overwrite content of " ++ (path ++ str ". Do you want continue? Y/N")))
      if yes? then pure tt else fail (errorf "user terminated installation")
    if config.force then pure tt else ask
    pure (record config { force = true })

  -- `checkInstallDir`: the configuration that it leaves.
  unfoldable pub check_install_dir : Config → Str → Str → Action W Config
  check_install_dir config path mode = do
    exists ← query (check_file_exist host config.pastel_exec_dir)
    let create =
        wrap_error "failed to create install directory"
          (create_folder host disk os path config.force)
        >> pure config
    let missing = if is_update config then fail (errorf "nothing to update. Exiting") else create
    let there = overwrite_install_dir config path mode
    if exists then there else missing
