-- ===== src/Host.antt =====
-- What the program calls and does not implement: the operating system, the network and the node's
-- RPC server. `W` is the state of the host. Log lines are left out.
pub mod Sample
use pastelup.Base.{
  ℕ, Str, str, Bool, true, false, List, [], ◌∷◌, ◌++◌, Option, none, some, Error, os_error, Action,
  perform, pure, fail, ◌>>=◌, ◌>>◌, map, is_empty, if◌then◌else◌,
}
use pastelup.Configs.{Config}

-- `RunCMD`: what the command printed, and the error of `cmd.Run` if it failed.
pub record Ran : Type 0 where
  pub output : Str
  pub failure : Option Error

-- `os.Stat`
pub data Stat : Type 0 where
  present not_exist : Stat
  stat_error : Error → Stat

pub record Process : Type 0 where
  pub executable : Str
  pub pid : ℕ

-- The answer to `getinfo`: `Result.Version`, and `Error` if it is a map with a message.
pub record Info : Type 0 where
  pub version : ℕ
  pub blocks : ℕ
  pub message : Option Str

-- An entry of a directory; the time of the last change counts from an early day.
pub record DirEntry : Type 0 where
  pub name : Str
  pub is_dir : Bool
  pub mod_time : ℕ

pub record SyncStatus : Type 0 where
  pub asset_name : Str
  pub is_synced : Bool

pub record Host (W : Type 0) : Type 0 where
  -- `exec.Command(command, args...)` with its output
  pub run_cmd : Str → List Str → W → Ran × W
  -- `go RunCMD(command, args...)`
  pub spawn : Str → List Str → W → W
  pub stat : Str → W → Stat
  -- `ps.Processes()`
  pub processes : Action W (List Process)
  -- `os.FindProcess(pid)` and `Kill`
  pub kill : ℕ → Action W (Unit {0})
  -- `utils.GetExternalIPAddress`
  pub external_ip : Action W Str
  -- `time.Sleep`, in seconds: what the host does in the meantime
  pub sleep : ℕ → W → W
  -- a line of the standard input; none if the read fails
  pub read_line : Str → W → Option Str × W
  -- the calls of the node's RPC server `getinfo` (the answer, with what was decoded of it if the
  -- call failed), `mnsync status` and `mnsync reset`
  pub get_info : W → (Info × Option Error) × W
  pub mn_sync : Action W SyncStatus
  pub reset_sync : Action W (Unit {0})
  -- `os.WriteFile`, `os.ReadFile`
  pub write_file : Str → Str → Action W (Unit {0})
  pub read_file : Str → Action W Str
  -- `os.Rename`, `os.Remove`
  pub rename : Str → Str → Action W (Unit {0})
  pub remove : Str → Action W (Unit {0})
  -- `os.Mkdir`, `cp.Copy`, `os.RemoveAll`, `os.ReadDir` with the `Info` of each entry
  pub mkdir : Str → Action W (Unit {0})
  pub copy : Str → Str → Action W (Unit {0})
  pub remove_all : Str → Action W (Unit {0})
  pub read_dir : Str → Action W (List DirEntry)
  -- the pipe `ps afx | grep TERM | grep -v grep` of `FindRunningProcess`: what it printed, and
  -- whether a step of it failed
  pub find_running_process : Str → Action W Str
  -- the `stop` call of the node's RPC server
  pub stop_node : Action W (Unit {0})
  -- `time.Now().Unix()` in decimal
  pub unix_time : W → Str
  -- `time.Now().Format(...)`
  pub time_stamp : W → Str

-- `strings.Join(args, " ")`
unfoldable pub join_args : List Str → Str
join_args [] = []
join_args (a ∷ []) = a
join_args (a ∷ b ∷ rest) = a ++ (b' ' ∷ join_args (b ∷ rest))

module _ {W : Type 0} (host : Host W) where
  -- `RunSudoCMD`
  unfoldable pub run_sudo_cmd : Config → List Str → W → Ran × W
  run_sudo_cmd config args =
      if is_empty config.user_pw
      then host.run_cmd (str "sudo") args
      else host.run_cmd (str "bash") (
          str "-c"
          ∷ (str "echo " ++ (config.user_pw ++ (str " | sudo -S " ++ join_args args)))
          ∷ [])

  -- `CheckFileExist`: only a missing file does not exist.
  unfoldable pub check_file_exist : Str → W → Bool
  check_file_exist path w = elim (host.stat path w) [ not_exist ↦ false | _ ↦ true ]

  -- `if _, err := RunSudoCMD(...); err != nil { return err }`
  unfoldable pub sudo_or_fail : Config → List Str → Action W (Unit {0})
  sudo_or_fail config args = perform (run_sudo_cmd config args) >>= λ r. elim r.failure [
    | none ↦ pure tt
    | some e ↦ fail e
  ]
