-- ===== src/Examples/Remotes.antt =====
-- The theorems on remote hosts, on two servers and a host that counts its sessions.
use pastelup.Base.{
  ℕ, ◌+◌, ◌-◌, pos, Str, str, Bool, true, List, [], ◌∷◌, Error, errorf, ◌⊎◌, inr, ok, err, Action,
  ◌>>=◌, pure, ◌≡◌, refl, arith, if◌then◌else◌, is_empty,
}
use pastelup.Constants.{linux}
use pastelup.Configs.{Config}
use pastelup.Host.Sample.{World, sample_host, empty_world, succeeds}
use pastelup.Remote.{Ssh}
use pastelup.Remote.Inventory.{
  InventoryServer, AnsibleInventoryGroup, Inventory, enter_server, filters, execute_commands,
  run_servers,
}
use pastelup.Remote.Inventory.Targets.{run_each, execute_commands-targets, run_servers-leak}
use pastelup.Remote.Inventory.Reached.{targets}
use pastelup.Remote.Sessions.{Counts, Opens, Leaves}
use pastelup.Remote.Sessions.Closed.{execute_remote_commands-Leaves}
use pastelup.Remote.{execute_remote_commands}
use pastelup.Examples.{sample_config}

abbrev open_session : Action World (Unit {0})
open_session w = ok tt (record w { sessions = w.sessions + 1 })

-- A host that refuses nothing but dialling without an address.
unfoldable sample_ssh : Ssh World (Unit {0})
sample_ssh = record {
  dial_with_passwd = λ address user password w.
      if is_empty address then err (errorf "no address") w else open_session w;
  dial_with_key = λ address user file. open_session;
  close = λ c w. record w { sessions = w.sessions - 1 };
  output = λ c command w. ok command w;
  shell_cmd = λ c command. succeeds;
  scp = λ c from to. succeeds;
  scp_from = λ c from to. succeeds;
  read_password = λ w. ok [] w;
  executable = λ w. ok (str "pastelup") w;
}

abbrev first_server : InventoryServer
first_server = record {
  name = str "first";
  address = str "10.0.0.1";
  user = str "root";
  identity_file = [];
  port = pos 0;
}

abbrev second_server : InventoryServer
second_server = record {
  name = str "second";
  address = str "10.0.0.2";
  user = [];
  identity_file = str "key";
  port = pos 2222;
}

abbrev two_servers : Inventory
two_servers =
    record {
      name = str "all";
      common = record { user = str "ubuntu"; identity_file = []; port = pos 0 };
      servers = second_server ∷ [];
    }
    ∷ []

execute_commands-targets_example :
    (execute_commands sample_host sample_ssh linux two_servers sample_config (str "ls" ∷ []) true
        >>= λ (left, outs). pure outs)
      empty_world
    ≡ run_each sample_host sample_ssh linux
        (str "ls" ∷ [])
        true
        (targets (filters sample_config) sample_config two_servers)
        empty_world
execute_commands-targets_example =
    execute_commands-targets sample_host sample_ssh linux (str "ls" ∷ []) true two_servers
      sample_config empty_world ((tt, tt), tt)

run_servers-leak_example :
    let d = enter_server second_server (enter_server first_server sample_config) in
    ((run_servers sample_host sample_ssh linux
            (str "ls" ∷ [])
            true
            (first_server ∷ second_server ∷ [])
            sample_config
          >>= λ (left, outs). pure outs)
        empty_world
      ≡ run_each sample_host sample_ssh linux
          (str "ls" ∷ [])
          true
          (enter_server first_server sample_config ∷ d ∷ [])
          empty_world)
    × (d.remote_user ≡ str "root")
run_servers-leak_example =
    run_servers-leak sample_host sample_ssh linux (str "ls" ∷ []) true first_server second_server []
      sample_config empty_world refl refl

dial_with_passwd-Opens :
    (address user password : Str) (w : World) (n : ℕ)
    → w.sessions ≡ n
    → Opens (λ v. v.sessions) n (sample_ssh.dial_with_passwd address user password w)
unfolding sample_ssh
dial_with_passwd-Opens [] user password w n h = h
dial_with_passwd-Opens (c ∷ address) user password w n h = ground arith

unfoldable sample_counts : Counts sample_host sample_ssh (λ w. w.sessions)
unfolding sample_host sample_ssh
sample_counts = record {
  passwd_opens = dial_with_passwd-Opens;
  key_opens = λ address user file w n h. ground arith;
  close_closes = λ c w n h. ground arith;
  output_keeps = λ c s w. refl;
  shell_keeps = λ c s w. refl;
  scp_keeps = λ c from to w. refl;
  password_keeps = λ w. refl;
  executable_keeps = λ w. refl;
  line_keeps = λ s w. refl;
}

execute_remote_commands-Leaves_example :
    Leaves
      (λ w. w.sessions)
      0
      (execute_remote_commands sample_host sample_ssh linux
        (record sample_config { remote_ip = str "10.0.0.1" })
        (str "ls" ∷ [])
        true
        true
        empty_world)
execute_remote_commands-Leaves_example =
    execute_remote_commands-Leaves sample_host sample_ssh linux (λ w. w.sessions) sample_counts 0
      (record sample_config { remote_ip = str "10.0.0.1" }) (str "ls" ∷ []) true true empty_world
      refl

abbrev no_yaml : Str → Error ⊎ List (Str × AnsibleInventoryGroup)
no_yaml bytes = inr []

abbrev no_hosts : Inventory → Config → List Str → Bool → Action World (List Str)
no_hosts inventory config commands need_output = pure []

abbrev remote_config : Config
remote_config = record sample_config { remote_ip = str "10.0.0.1" }
