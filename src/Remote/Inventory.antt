-- ===== src/Remote/Inventory.antt =====
-- cmd/inventory.go: the inventory of remote hosts, and the commands that run on each of them, with
-- `executeRemoteCommandsWithInventory` of cmd/common.go. The YAML library is a parameter.
pub mod Reached
pub mod Targets
use pastelup.Base.{
  ℕ, ◌-◌, ◌^◌, ℤ, pos, ◌==◌, leb, Str, str, Bool, true, false, not, ◌&&◌, List, [], ◌∷◌, ◌++◌, map,
  Option, none, some, Error, ◌⊎◌, inl, inr, Action, pure, lift, attempt, wrap_error, is_empty,
  str_eq, elem, atoi, all_digits, value_from, if◌then◌else◌, ◌>>=◌, ◌>>◌,
}
use pastelup.Constants.{OsType}
use pastelup.Configs.{Config}
use pastelup.Host.{Host}
use pastelup.Masternode.Address.{split_on}
use pastelup.Remote.{Ssh, execute_remote_commands}

pub record InventoryServer : Type 0 where
  pub name : Str
  pub address : Str
  pub user : Str
  pub identity_file : Str
  pub port : ℤ

pub record CommonInventoryParameters : Type 0 where
  pub user : Str
  pub identity_file : Str
  pub port : ℤ

pub record ServerGroup : Type 0 where
  pub name : Str
  pub common : CommonInventoryParameters
  pub servers : List InventoryServer

abbrev pub Inventory : Type 0
Inventory = List ServerGroup

-- `AnsibleVars`, and the map of the hosts of a group, as lists in the order in which Go's loop over
-- the map meets the keys.
abbrev pub AnsibleVars : Type 0
AnsibleVars = List (Str × Str)

pub record AnsibleInventoryGroup : Type 0 where
  pub hosts : List (Str × AnsibleVars)
  pub vars : AnsibleVars

unfoldable pub var : Str → AnsibleVars → Option Str
var key [] = none
var key ((k, v) ∷ rest) = let later = var key rest in if str_eq k key then some v else later

-- A missing key reads as the empty string.
unfoldable pub var_or_empty : Str → AnsibleVars → Str
unfolding var
var_or_empty key vars = elim (var key vars) [ none ↦ [] | some v ↦ v ]

-- The text behind a sign, and whether the sign is a minus.
abbrev pub without_sign : Str → Bool × Str
without_sign [] = (false, [])
without_sign (c ∷ s) =
    if c == b'-' then (true, s) else if c == b'+' then (false, s) else (false, c ∷ s)

-- `strconv.Atoi`: none for its error, on a text that is no number of the range of `int`.
unfoldable pub atoi_or_error : Str → Option ℤ
unfolding all_digits value_from
atoi_or_error s =
    let (negative, body) = without_sign s in
    let largest : ℕ = if negative then 2 ^ 63 else 2 ^ 63 - 1 in
    if not (is_empty body) && all_digits body && leb (value_from 0 body) largest
    then some (atoi s)
    else none

-- The port that a variable gives; 0 if there is none, or it is no number.
unfoldable pub port_var : Str → AnsibleVars → ℤ
unfolding var atoi_or_error
port_var key vars = elim (var key vars) [
  | none ↦ pos 0
  | some text ↦ elim (atoi_or_error text) [ none ↦ pos 0 | some p ↦ p ]
]

-- The bodies of the loops of `ReadAnsibleYamlInventory`
unfoldable pub server_of : Str × AnsibleVars → InventoryServer
unfolding var_or_empty port_var
server_of (n, vars) = record {
  name = n;
  address = var_or_empty (str "ansible_host") vars;
  user = var_or_empty (str "ansible_user") vars;
  identity_file = var_or_empty (str "ansible_ssh_private_key_file") vars;
  port = port_var (str "ansible_port") vars;
}

unfoldable pub group_of : Str × AnsibleInventoryGroup → ServerGroup
unfolding server_of
group_of (n, group) = record {
  name = n;
  common = record {
    user = var_or_empty (str "ansible_user") group.vars;
    identity_file = var_or_empty (str "ansible_private_key_file") group.vars;
    port = port_var (str "ansible_port") group.vars;
  };
  servers = map server_of group.hosts;
}

unfoldable pub is_zero : ℤ → Bool
is_zero (pos n) = n == 0
is_zero _ = false

abbrev pub port_or : ℤ → ℤ → ℤ
port_or port default_port = if is_zero port then default_port else port

abbrev pub text_or : Str → Str → Str
text_or text default_text = if is_empty text then default_text else text

-- What `ExecuteCommands` writes into the configuration at a group, and then at a server of it.
unfoldable pub enter_group : CommonInventoryParameters → Config → Config
unfolding is_zero
enter_group common config = record config {
  remote_user = common.user;
  remote_ip = [];
  remote_port = common.port;
  remote_ssh_key = common.identity_file;
}

unfoldable pub enter_server : InventoryServer → Config → Config
unfolding is_zero
enter_server srv config = record config {
  remote_user = text_or srv.user config.remote_user;
  remote_ip = srv.address;
  remote_port = port_or (port_or srv.port config.remote_port) (pos 22);
  remote_ssh_key = text_or srv.identity_file config.remote_ssh_key;
}

-- The groups that the filter lets through; no filter lets all through.
unfoldable pub filters : Config → List Str
filters config =
    if is_empty config.inventory_filter then [] else split_on b',' config.inventory_filter

abbrev pub is_selected : List Str → ServerGroup → Bool
is_selected [] sg = true
is_selected (f ∷ fs) sg = elem (f ∷ fs) sg.name

module _ {W C : Type 0} (host : Host W) (ssh : Ssh W C) (os : OsType) where
  -- `ReadAnsibleYamlInventory`
  unfoldable pub read_ansible_yaml_inventory :
      (Str → Error ⊎ List (Str × AnsibleInventoryGroup)) → Str → Action W Inventory
  read_ansible_yaml_inventory parse path = do
    bytes ← wrap_error "failed to read Inventory file" (host.read_file path)
    groups ← wrap_error "failed to load Inventory" (lift (parse bytes))
    pure (map group_of groups)

  -- The loop over the servers of a group: the configuration that it leaves, and the outputs. The
  -- output of a server where the commands failed is empty.
  unfoldable pub run_servers :
      List Str → Bool → List InventoryServer → Config → Action W (Config × List Str)
  run_servers commands need_output [] config = pure (config, [])
  run_servers commands need_output (srv ∷ rest) config = do
    let here = enter_server srv config
    result ← attempt (execute_remote_commands host ssh os here commands false need_output)
    let out : Str = elim result [ inl e ↦ [] | inr o ↦ o ]
    (left, outs) ← run_servers commands need_output rest here
    pure (left, out ∷ outs)

  -- The loop over the groups
  unfoldable pub run_groups :
      List Str → Bool → List Str → Inventory → Config → Action W (Config × List Str)
  run_groups commands need_output fs [] config = pure (config, [])
  run_groups commands need_output fs (sg ∷ rest) config = do
    (left, outs) ←
        (if is_selected fs sg
          then run_servers commands need_output sg.servers (enter_group sg.common config)
          else pure (config, []))
    (last, later) ← run_groups commands need_output fs rest left
    pure (last, outs ++ later)

  -- `ExecuteCommands`: the configuration that it leaves, and the outputs.
  unfoldable pub execute_commands :
      Inventory → Config → List Str → Bool → Action W (Config × List Str)
  execute_commands inventory config commands need_output =
      run_groups commands need_output (filters config) inventory config
