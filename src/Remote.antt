-- ===== src/Remote.antt =====
-- cmd/common.go: sessions on a remote host and the commands that run in them. The ssh client of
-- utils/sshclient.go and the terminal are a parameter; `C` is a client.
pub mod Inventory
pub mod Sessions
pub mod Commands
use pastelup.Base.{
  itoa, Str, str, Bool, List, [], ◌∷◌, ◌++◌, none, some, errorf, wrapf, inl, inr, Action, pure,
  fail, attempt, deferred, query, perform, modify, wrap_error, ◌>>=◌, ◌>>◌, is_empty, str_eq,
  trim_space, if◌then◌else◌,
}
use pastelup.Path.{join}
use pastelup.Constants.{
  OsType, linux, download_base_url, get_version_sub_url, pastel_conf_name, remote_pastelup_path,
}
use pastelup.Constants.Execs.{pastelup_exec_name}
use pastelup.Configs.{Config}
use pastelup.Host.{Host, not_exist}
use pastelup.PastelConf.{get_network_mode_from_remote}
use pastelup.Prompt.{ask_user_to_continue}

pub record Ssh (W C : Type 0) : Type 0 where
  -- `DialWithPasswd`, `DialWithKey`: address, user, and password or file of the key
  pub dial_with_passwd : Str → Str → Str → Action W C
  pub dial_with_key : Str → Str → Str → Action W C
  pub close : C → W → W
  -- `client.Cmd(command).Output()`, `client.ShellCmd`
  pub output : C → Str → Action W Str
  pub shell_cmd : C → Str → Action W (Unit {0})
  -- `client.Scp` with the mode 0777, and `client.ScpFrom`
  pub scp : C → Str → Str → Action W (Unit {0})
  pub scp_from : C → Str → Str → Action W (Unit {0})
  -- `term.ReadPassword`; `os.Executable` with its links followed
  pub read_password : Action W Str
  pub executable : Action W Str

module _ {W C : Type 0} (host : Host W) (ssh : Ssh W C) (os : OsType) where
  -- `utils.Credentials`
  unfoldable pub credentials : Str → Bool → Action W (Str × Str)
  credentials user_name need_password = do
    let ask = perform (host.read_line (str "Enter Username: ")) >>= λ line. elim line [
      | none ↦ fail (errorf "EOF")
      | some l ↦ pure l
    ]
    user ← (if is_empty user_name then ask else pure user_name)
    password ← (if need_password then ssh.read_password else pure [])
    pure (trim_space user, trim_space password)

  -- `copyPastelUpToRemote`
  unfoldable pub copy_pastelup_to_remote : C → Str → Action W (Unit {0})
  copy_pastelup_to_remote client remote_pastelup = do
    let copied = do
      local ← wrap_error "failed to get path of executable file" ssh.executable
      wrap_error "failed to copy pastelup to remote" (ssh.scp client local remote_pastelup)
    let url =
        download_base_url
        ++ (b'/' ∷ (get_version_sub_url [] [] ++ (str "/pastelup/" ++ pastelup_exec_name linux)))
    let wget = str "wget " ++ (url ++ (str " -O " ++ remote_pastelup))
    let downloaded =
        wrap_error "failed to download pastelup from remote" (ssh.output client wget) >> pure tt
    elim os [ linux ↦ copied | _ ↦ downloaded ]
    wrap_error "failed to chmod +x pastelup at remote"
        (ssh.output client (str "chmod +x " ++ remote_pastelup))
    pure tt

  -- The dial of `prepareRemoteSession`: an error of `Credentials` is not looked at.
  unfoldable pub dial : Config → Action W C
  dial config = do
    let address = config.remote_ip ++ (b':' ∷ itoa config.remote_port)
    found ← attempt (credentials config.remote_user (is_empty config.remote_ssh_key))
    let (user, password) : Str × Str = elim found [ inl e ↦ ([], []) | inr c ↦ c ]
    let by_password = ssh.dial_with_passwd address user password
    let by_key = ssh.dial_with_key address user config.remote_ssh_key
    if is_empty config.remote_ssh_key then by_password else by_key

  -- `prepareRemoteSession`
  unfoldable pub prepare_remote_session : Config → Action W C
  prepare_remote_session config =
      if is_empty config.remote_ip then fail (errorf "remote IP is required") else do
        client ← dial config
        copied ← attempt (copy_pastelup_to_remote client remote_pastelup_path)
        elim copied [
          | inl e ↦ modify (ssh.close client) >> fail (wrapf "failed to install pastelup" e)
          | inr done ↦ pure client
        ]

  -- The stop of `checkAndStopRemoteServices`, after the user agreed
  unfoldable pub stop_remote : Config → C → Action W (Unit {0})
  stop_remote config client = do
    stopped ← attempt (ssh.shell_cmd client (remote_pastelup_path ++ str " stop supernode "))
    elim stopped [ inl e ↦ if config.force then pure tt else fail e | inr done ↦ pure tt ]

  -- `checkAndStopRemoteServices`
  unfoldable pub check_and_stop_remote_services : Config → C → Action W (Unit {0})
  check_and_stop_remote_services config client = do
    let look = str "ps afx | grep -E 'pasteld|rq-service|dd-service|supernode' | grep -v grep"
    seen ← attempt (ssh.output client look)
    let running : Str = elim seen [ inl e ↦ [] | inr out ↦ out ]
    let stop = do
      (yes?, line) ← ask_user_to_continue host (str "Do you want to stop it and continue? Y/N")
      if yes? then stop_remote config client else fail (errorf "user terminated installation")
    if is_empty running then pure tt else stop

  -- The loop over the commands: the output of all, and nothing after one that fails.
  unfoldable pub run_commands : C → Bool → List Str → Action W Str
  run_commands client need_output [] = pure []
  run_commands client need_output (command ∷ rest) = do
    out ←
        (if need_output
          then wrap_error "failed to execute remote command" (ssh.output client command)
          else ssh.shell_cmd client command >> pure [])
    outs ← run_commands client need_output rest
    pure (out ++ outs)

  -- `executeRemoteCommands`
  unfoldable pub execute_remote_commands : Config → List Str → Bool → Bool → Action W Str
  execute_remote_commands config commands try_stop need_output = do
    client ← wrap_error "failed to prepare remote session" (prepare_remote_session config)
    deferred (modify (ssh.close client)) (do
      if try_stop then check_and_stop_remote_services config client else pure tt
      run_commands client need_output commands)

  -- `os.Stat` and `os.Remove` of the copy, when `checkHotAndColdNodesNetworkMode` returns
  unfoldable pub drop_copy : Str → Action W (Unit {0})
  drop_copy path = query (host.stat path) >>= λ st. elim st [
    | not_exist ↦ pure tt
    | _ ↦ attempt (host.remove path) >> pure tt
  ]

  -- The body of `checkHotAndColdNodesNetworkMode`
  unfoldable pub compare_networks : Config → C → Str → Action W (Unit {0})
  compare_networks config client copy = do
    wrap_error "failed to copy pastel.conf from remote"
        (ssh.scp_from client (join config.remote_hot_working_dir pastel_conf_name) copy)
    network ←
        wrap_error "failed to parse pastel.conf copied from remote"
          (get_network_mode_from_remote host copy)
    let differ = fail (errorf "hot and cold nodes are operating in different network modes")
    if str_eq config.network network then pure tt else differ

  -- `checkHotAndColdNodesNetworkMode`
  unfoldable pub check_hot_and_cold_nodes_network_mode : Config → C → Action W (Unit {0})
  check_hot_and_cold_nodes_network_mode config client = do
    let copy = join config.pastel_exec_dir (str "tempconf")
    deferred (drop_copy copy) (compare_networks config client copy)
