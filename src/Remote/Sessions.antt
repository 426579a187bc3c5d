-- ===== src/Remote/Sessions.antt =====
-- Sessions are closed: the commands on a remote host leave as many open sessions as there were. Here: what
-- keeps their number.
pub mod Closed
use pastelup.Base.{
  ℕ, suc, Str, str, trim_space, equal_fold, ◌++◌, Bool, false, List, [], ◌∷◌, Option, none, some,
  Error, errorf, ◌⊎◌, inl, inr, Out, ok, err, panic, Action, pure, fail, wrap_error, state_of,
  ◌>>=◌, ◌>>◌, is_empty, if◌then◌else◌, ◌≡◌, ◌∙◌, Keeps, bind-Keeps, then-Keeps, attempt-Keeps,
  wrap_error-Keeps, if-Keeps, pure-Keeps, fail-Keeps, perform-Keeps, still-Keeps,
}
use Prim.Native.String.{String}
use pastelup.Constants.Execs.{pastelup_exec_name}
use pastelup.Constants.{
  download_base_url, get_version_sub_url, OsType, windows, linux, mac, unknown,
}
use pastelup.Configs.{Config}
use pastelup.Host.{Host}
use pastelup.Prompt.{ask_user_to_continue, ask_user_to_continue-Keeps}
use pastelup.Remote.{
  Ssh, credentials, copy_pastelup_to_remote, stop_remote, check_and_stop_remote_services,
  run_commands,
}

module _ {W : Type 0} (sessions : W → ℕ) where
  abbrev pub Has : ℕ → W → Type 0
  Has k w = sessions w ≡ k

  -- An action that opens a session if it succeeds.
  abbrev pub Opens : {A : Type 0} → ℕ → Out W A → Type 0
  Opens n (ok a w) = sessions w ≡ suc n
  Opens n (err e w) = sessions w ≡ n
  Opens n (panic w) = Unit {0}

  -- An action that leaves this number of sessions open, unless it panics.
  abbrev pub Leaves : {A : Type 0} → ℕ → Out W A → Type 0
  Leaves n (ok a w) = sessions w ≡ n
  Leaves n (err e w) = sessions w ≡ n
  Leaves n (panic w) = Unit {0}

-- What the ssh client and the terminal do to the sessions that are open.
pub record Counts {W C : Type 0} (host : Host W) (ssh : Ssh W C) (sessions : W → ℕ) : Type 0 where
  pub passwd_opens :
      (address user password : Str) (w : W) (n : ℕ)
      → sessions w ≡ n
      → Opens sessions n (ssh.dial_with_passwd address user password w)
  pub key_opens :
      (address user file : Str) (w : W) (n : ℕ)
      → sessions w ≡ n
      → Opens sessions n (ssh.dial_with_key address user file w)
  pub close_closes : (c : C) (w : W) (n : ℕ) → sessions w ≡ suc n → sessions (ssh.close c w) ≡ n
  pub output_keeps : (c : C) (s : Str) (w : W) → sessions (state_of (ssh.output c s w)) ≡ sessions w
  pub shell_keeps :
      (c : C) (s : Str) (w : W) → sessions (state_of (ssh.shell_cmd c s w)) ≡ sessions w
  pub scp_keeps :
      (c : C) (from to : Str) (w : W) → sessions (state_of (ssh.scp c from to w)) ≡ sessions w
  pub password_keeps : (w : W) → sessions (state_of (ssh.read_password w)) ≡ sessions w
  pub executable_keeps : (w : W) → sessions (state_of (ssh.executable w)) ≡ sessions w
  pub line_keeps : (s : Str) (w : W) → sessions (host.read_line s w).1 ≡ sessions w

module _ {W C : Type 0} (host : Host W) (ssh : Ssh W C) (os : OsType) (sessions : W → ℕ)
    (counts : Counts host ssh sessions) (n : ℕ) where
  same-Keeps :
      {A : Type 0} (k : ℕ) (m : Action W A)
      → ((w : W) → sessions (state_of (m w)) ≡ sessions w)
      → Keeps (Has sessions k) m
  same-Keeps k m same = still-Keeps (Has sessions k) m (λ w h. same w ∙ h)

  line-Keeps :
      (line : Option Str)
      → Keeps
          (Has sessions n)
          (elim line [ none ↦ fail {A = Str} (errorf "EOF") | some l ↦ pure l ])
  line-Keeps none = fail-Keeps (Has sessions n) Str (errorf "EOF")
  line-Keeps (some l) = pure-Keeps (Has sessions n) l

  pub credentials-Keeps :
      (user : Str) (need : Bool) → Keeps (Has sessions n) (credentials host ssh os user need)
  unfolding credentials
  credentials-Keeps user need =
      bind-Keeps (Has sessions n) _ _
        (if-Keeps (Has sessions n) (is_empty user) _ _
          (bind-Keeps (Has sessions n) _ _
            (perform-Keeps (Has sessions n) _
              (λ w h. counts.line_keeps (str "Enter Username: ") w ∙ h))
            (λ line. line-Keeps line))
          (pure-Keeps (Has sessions n) user))
        (λ name.
          bind-Keeps (Has sessions n) _ _
            (if-Keeps (Has sessions n) need _ _
              (same-Keeps n ssh.read_password counts.password_keeps)
              (pure-Keeps (Has sessions n) []))
            (λ password. pure-Keeps (Has sessions n) (trim_space name, trim_space password)))

  pub run_commands-Keeps :
      (client : C) (need_output : Bool) (commands : List Str)
      → Keeps (Has sessions (suc n)) (run_commands host ssh os client need_output commands)
  unfolding run_commands
  run_commands-Keeps client need_output [] = pure-Keeps (Has sessions (suc n)) []
  run_commands-Keeps client need_output (command ∷ rest) =
      bind-Keeps (Has sessions (suc n)) _ _
        (if-Keeps (Has sessions (suc n)) need_output _ _
          (wrap_error-Keeps (Has sessions (suc n)) _ _
            (same-Keeps (suc n) (ssh.output client command) (counts.output_keeps client command)))
          (then-Keeps (Has sessions (suc n)) _ _
            (same-Keeps (suc n) (ssh.shell_cmd client command) (counts.shell_keeps client command))
            (pure-Keeps (Has sessions (suc n)) [])))
        (λ out.
          bind-Keeps (Has sessions (suc n)) _ _ (run_commands-Keeps client need_output rest)
            (λ outs. pure-Keeps (Has sessions (suc n)) (out ++ outs)))

  output-Keeps :
      (msg : String) (client : C) (command : Str)
      → Keeps (Has sessions (suc n)) (wrap_error msg (ssh.output client command) >> pure tt)
  output-Keeps msg client command =
      then-Keeps (Has sessions (suc n)) _ _
        (wrap_error-Keeps (Has sessions (suc n)) msg _
          (same-Keeps (suc n) (ssh.output client command) (counts.output_keeps client command)))
        (pure-Keeps (Has sessions (suc n)) tt)

  scp-Keeps :
      (client : C) (path : Str)
      → Keeps (Has sessions (suc n)) (
          wrap_error "failed to get path of executable file" ssh.executable >>= λ local.
          wrap_error "failed to copy pastelup to remote" (ssh.scp client local path))
  scp-Keeps client path =
      bind-Keeps (Has sessions (suc n)) _ _
        (wrap_error-Keeps (Has sessions (suc n)) _ _
          (same-Keeps (suc n) ssh.executable counts.executable_keeps))
        (λ local.
          wrap_error-Keeps (Has sessions (suc n)) _ _
            (same-Keeps (suc n) (ssh.scp client local path) (counts.scp_keeps client local path)))

  pub copy-Keeps :
      (client : C) (path : Str)
      → Keeps (Has sessions (suc n)) (copy_pastelup_to_remote host ssh os client path)
  unfolding copy_pastelup_to_remote
  copy-Keeps client path =
      then-Keeps (Has sessions (suc n)) _ _ (by_system os) (output-Keeps _ client _)
    where
      by_system :
          (o : OsType)
          → Keeps (Has sessions (suc n)) (elim o [
            | linux ↦ wrap_error "failed to get path of executable file" ssh.executable >>= λ local.
                wrap_error "failed to copy pastelup to remote" (ssh.scp client local path)
            | _ ↦
                wrap_error "failed to download pastelup from remote" (
                  ssh.output client (
                    str "wget "
                    ++ ((download_base_url
                          ++ (b'/'
                              ∷ (get_version_sub_url [] []
                                  ++ (str "/pastelup/" ++ pastelup_exec_name linux))))
                        ++ (str " -O " ++ path))))
                >> pure tt
          ])
      by_system linux = scp-Keeps client path
      by_system windows = output-Keeps _ client _
      by_system mac = output-Keeps _ client _
      by_system unknown = output-Keeps _ client _

  stop_remote-Keeps :
      (config : Config) (client : C)
      → Keeps (Has sessions (suc n)) (stop_remote host ssh os config client)
  unfolding stop_remote
  stop_remote-Keeps config client =
      bind-Keeps (Has sessions (suc n)) _ _
        (attempt-Keeps (Has sessions (suc n)) _
          (same-Keeps (suc n) (ssh.shell_cmd client _) (counts.shell_keeps client _)))
        failed-Keeps
    where
      failed-Keeps :
          (stopped : Error ⊎ Unit {0})
          → Keeps (Has sessions (suc n)) (elim stopped [
            | inl e ↦ if config.force then pure tt else fail e
            | inr done ↦ pure tt
          ])
      failed-Keeps (inl e) =
          if-Keeps (Has sessions (suc n)) config.force _ _ (pure-Keeps (Has sessions (suc n)) tt)
            (fail-Keeps (Has sessions (suc n)) (Unit {0}) e)
      failed-Keeps (inr done) = pure-Keeps (Has sessions (suc n)) tt

  ask-Keeps : (question : Str) → Keeps (Has sessions (suc n)) (ask_user_to_continue host question)
  ask-Keeps question =
      ask_user_to_continue-Keeps host (Has sessions (suc n)) question
        (λ w h. counts.line_keeps question w ∙ h)

  pub check_and_stop-Keeps :
      (config : Config) (client : C)
      → Keeps (Has sessions (suc n)) (check_and_stop_remote_services host ssh os config client)
  unfolding check_and_stop_remote_services
  check_and_stop-Keeps config client =
      bind-Keeps (Has sessions (suc n)) _ _
        (attempt-Keeps (Has sessions (suc n)) _
          (same-Keeps (suc n) (ssh.output client _) (counts.output_keeps client _)))
        (λ seen. if-Keeps (Has sessions (suc n)) _ _ _ (pure-Keeps (Has sessions (suc n)) tt) (
          bind-Keeps (Has sessions (suc n)) _ _ (ask-Keeps _) (λ answer.
            if-Keeps (Has sessions (suc n)) answer.0 _ _ (stop_remote-Keeps config client) (
              fail-Keeps (Has sessions (suc n)) (Unit {0})
                (errorf "user terminated installation")))))
