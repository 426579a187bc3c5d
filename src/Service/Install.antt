-- ===== src/Service/Install.antt =====
-- cmd/systemServicesHelper.go: which tools a command names, and the loop that installs them as
-- services. The manager is any `ServiceManager`.
pub mod Active
use Prim.Native.String.{String}
use pastelup.Base.{
  Str, str, Bool, true, false, not, List, [], ◌∷◌, ◌++◌, Option, none, some, ◌⊎◌, inl, inr, Error,
  errorf, wrapf, Out, ok, err, Action, pure, fail, lift, attempt, wrap_error, ◌>>=◌, ◌>>◌, str_eq,
  if◌then◌else◌, ◌≡◌, refl, arith, All, Bool-cases, ◌||◌,
}
use pastelup.Constants.{
  ToolType, wallet_node, super_node, pasteld, dd_service, rq_service, hermes, bridge,
  dd_img_service, other,
}
use pastelup.Configs.{Config}
use pastelup.Service.Manager.{ServiceManager}

abbrev pub install_service_flag : List Str
install_service_flag =
    str "node"
    ∷ str "masternode"
    ∷ str "supernode"
    ∷ str "walletnode"
    ∷ str "dd-service"
    ∷ str "rq-service"
    ∷ str "hermes"
    ∷ str "bridge"
    ∷ str "dd-img-service"
    ∷ []

abbrev pub install_solution_flag : List Str
install_solution_flag = str "supernode" ∷ str "walletnode" ∷ []

unfoldable pub solution_to_tools : Str → List Str
solution_to_tools s =
    if str_eq s (str "supernode")
    then str "masternode"
      ∷ str "supernode"
      ∷ str "dd-service"
      ∷ str "rq-service"
      ∷ str "hermes"
      ∷ str "dd-img-service"
      ∷ []
    else if str_eq s (str "walletnode")
    then str "node" ∷ str "walletnode" ∷ str "rq-service" ∷ []
    else []

-- A missing key reads as the empty tool type.
unfoldable pub tool_to_tool_type : Str → ToolType
tool_to_tool_type s =
    if str_eq s (str "node")
    then pasteld
    else if str_eq s (str "masternode")
    then pasteld
    else if str_eq s (str "supernode")
    then super_node
    else if str_eq s (str "walletnode")
    then wallet_node
    else if str_eq s (str "dd-service")
    then dd_service
    else if str_eq s (str "rq-service")
    then rq_service
    else if str_eq s (str "hermes")
    then hermes
    else if str_eq s (str "bridge")
    then bridge
    else if str_eq s (str "dd-img-service")
    then dd_img_service
    else other []

-- The loop of `isToolValid` and `isSolutionValid`; `found` is `isValid`.
unfoldable pub is_flag_valid : Bool → List Str → Str → Bool
is_flag_valid found [] flag = found
is_flag_valid found (t ∷ flags) flag =
    is_flag_valid (if str_eq t flag then true else found) flags flag

unfoldable pub is_tool_valid : Str → Option Error
is_tool_valid flag =
    if is_flag_valid false install_service_flag flag
    then none
    else some (errorf "tool is not a valid tool type to run as a service")

unfoldable pub is_solution_valid : Str → Option Error
is_solution_valid flag =
    if is_flag_valid false install_solution_flag flag
    then none
    else some (errorf "tool is not a valid solution type to run as a service")

-- `toolToProcess`: the solution's tools, else the tool.
unfoldable pub tool_to_process : Config → Error ⊎ List Str
tool_to_process config = elim (is_solution_valid config.service_solution) [
  | none ↦ inr (solution_to_tools config.service_solution)
  | some _ ↦ elim (is_tool_valid config.service_tool) [
    | some e ↦ inl e
    | none ↦ inr (config.service_tool ∷ [])
  ]
]

module _ {W : Type 0} (sm : ServiceManager W) (config : Config) where
  unfoldable pub enable_step : ToolType → Action W (Unit {0})
  enable_step tool =
      if config.enable_service
      then wrap_error "unable to enable service for auto start on boot"
          (sm.enable_service config tool)
      else pure tt

  -- A start that reports `false` with no error makes an error too, whose text then holds nil.
  unfoldable pub start_step : ToolType → Action W (Unit {0})
  start_step tool = do
    let start = do
      running ← wrap_error "unable to start as a system service" (sm.start_service config tool)
      if running then pure tt else fail (errorf "unable to start as a system service")
    if config.start_service then start else pure tt

  unfoldable pub install_one : Str → Action W (Unit {0})
  install_one app = do
    let tool = tool_to_tool_type app
    sm.register_service config tool (str_eq app (str "masternode"))
    enable_step tool
    start_step tool

  -- The loop of `installSystemService`
  unfoldable pub install_all : List Str → Action W (Unit {0})
  install_all [] = pure tt
  install_all (app ∷ rest) = install_one app >> install_all rest

-- `installSystemService`: the manager and its error are those of `NewServiceManager`.
unfoldable pub install_system_service :
    {W : Type 0} → ServiceManager W × Option Error → Config → Action W (Unit {0})
install_system_service (sm, unsupported) config = lift (tool_to_process config) >>= λ tools.
    elim unsupported [ some e ↦ fail e | none ↦ install_all sm config tools ]
