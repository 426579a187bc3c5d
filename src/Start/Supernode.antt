-- ===== src/Start/Supernode.antt =====
-- cmd/start.go: the start of the supernode and of hermes, with the identity that hermes takes from
-- supernode.yml. The YAML library is a parameter.
pub mod Runs
use pastelup.Base.{
  Str, str, Bool, true, false, List, [], ◌∷◌, ◌++◌, Option, none, some, Error, ◌⊎◌, inl, inr,
  Action, panic, pure, lift, attempt, modify, ◌>>=◌, ◌>>◌, if◌then◌else◌, str_eq,
}
use pastelup.Constants.{OsType, ToolType, super_node, hermes}
use pastelup.Constants.Execs.{super_node_exec_name, hermes_exec_name}
use pastelup.Configurer.{get_super_node_conf_file, get_hermes_conf_file}
use pastelup.Configs.{Config}
use pastelup.Host.{Host}
use pastelup.Service.Manager.{ServiceManager}
use pastelup.Node.{check_process_running}
use pastelup.Start.{run_pastel_service}

-- `gopkg.in/yaml.v2` and `fmt.Sprintf("%s", ...)` on the values that it gives, `V`.
pub record Yaml (V : Type 0) : Type 0 where
  pub unmarshal : Str → Error ⊎ List (Str × V)
  pub marshal : List (Str × V) → Error ⊎ Str
  -- `v.(map[interface{}]interface{})`
  pub as_map : V → Option (List (Str × V))
  pub text : Str → V
  -- the value of a key, which may be missing
  pub print : Option V → Str

module _ {V : Type 0} where
  unfoldable pub value_of : Str → List (Str × V) → Option V
  value_of key [] = none
  value_of key ((k, v) ∷ rest) =
      let later = value_of key rest in if str_eq k key then some v else later

  unfoldable pub set_value : Str → V → List (Str × V) → List (Str × V)
  set_value key v [] = (key, v) ∷ []
  set_value key v ((k, old) ∷ rest) =
      let later = (k, old) ∷ set_value key v rest in if str_eq k key then (k, v) ∷ rest else later

-- The arguments of both programs
unfoldable pub node_args : Config → Str → List Str
node_args config conf_file =
    (str "--config-file=" ++ conf_file)
    ∷ (str "--pastel-config-file=" ++ (config.working_dir ++ str "/pastel.conf"))
    ∷ []

module _ {W V : Type 0} (host : Host W) (os : OsType) (yaml : Yaml V) where
  -- `snConf["node"].(map[interface{}]interface{})`
  unfoldable pub node_of : List (Str × V) → Action W (List (Str × V))
  node_of conf w = elim (value_of (str "node") conf) [
    | none ↦ panic w
    | some v ↦ elim (yaml.as_map v) [ none ↦ panic w | some m ↦ pure m w ]
  ]

  -- `setPastelIDAndPassphraseInHermesConf`: a failed write returns the nil of an earlier call.
  unfoldable pub set_pastel_id_and_passphrase_in_hermes_conf : Config → Action W (Unit {0})
  set_pastel_id_and_passphrase_in_hermes_conf config = do
    let hermes_path = get_hermes_conf_file config.configurer config.working_dir
    sn_bytes ← host.read_file (get_super_node_conf_file config.configurer config.working_dir)
    sn_conf ← lift (yaml.unmarshal sn_bytes)
    node ← node_of sn_conf
    let id = yaml.print (value_of (str "pastel_id") node)
    let phrase = yaml.print (value_of (str "pass_phrase") node)
    bytes ← host.read_file hermes_path
    conf ← lift (yaml.unmarshal bytes)
    let with_id = set_value (str "pastel_id") (yaml.text id) conf
    updated ← lift (yaml.marshal (set_value (str "pass_phrase") (yaml.text phrase) with_id))
    written ← attempt (host.write_file hermes_path updated)
    pure tt

  -- The attempt to start a system service whose error is only logged: whether it runs afterwards.
  unfoldable pub start_or_log : ServiceManager W × Option Error → Config → ToolType → Action W Bool
  start_or_log (sm, unsupported) config tool = do
    let look = modify (host.sleep 10) >> check_process_running host os tool
    let try = do
      started ← attempt (sm.start_service config tool)
      elim started [ inl e ↦ pure false | inr true ↦ look | inr false ↦ pure false ]
    elim unsupported [ none ↦ try | some e ↦ pure false ]

  -- The part of `runHermesService` behind the update of its configuration
  unfoldable pub start_hermes : ServiceManager W × Option Error → Config → Action W (Unit {0})
  start_hermes manager config = do
    runs ← start_or_log manager config hermes
    let conf_file = get_hermes_conf_file config.configurer config.working_dir
    let process =
        run_pastel_service host os config hermes (hermes_exec_name os) (node_args config conf_file)
    if runs then pure tt else process

  -- `runHermesService`
  unfoldable pub run_hermes_service : ServiceManager W × Option Error → Config → Action W (Unit {0})
  run_hermes_service manager config =
      attempt (set_pastel_id_and_passphrase_in_hermes_conf config) >>= λ set. elim set [
        | inl e ↦ pure tt
        | inr done ↦ start_hermes manager config
      ]

  -- `runSuperNodeService`
  unfoldable pub run_super_node_service :
      ServiceManager W × Option Error → Config → Action W (Unit {0})
  run_super_node_service manager config = do
    runs ← start_or_log manager config super_node
    let conf_file = get_super_node_conf_file config.configurer config.working_dir
    let process =
        run_pastel_service host os config super_node (super_node_exec_name os)
          (node_args config conf_file)
    if runs then pure tt else process
    run_hermes_service manager config
