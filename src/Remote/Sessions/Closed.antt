-- ===== src/Remote/Sessions/Closed.antt =====
-- Each session that the commands on a remote host open is closed.
use pastelup.Base.{
  ℕ, suc, Str, Bool, true, false, List, Error, errorf, wrapf, ◌⊎◌, inl, inr, Out, ok, err, panic,
  Action, pure, fail, attempt, deferred, modify, wrap_error, state_of, ◌>>=◌, ◌>>◌, is_empty,
  if◌then◌else◌, ◌≡◌, refl, Keeps, then-Keeps, attempt-Keeps, if-Keeps, pure-Keeps, Keeps-state,
}
use Prim.Native.String.{String}
use pastelup.Constants.{OsType}
use pastelup.Configs.{Config}
use pastelup.Host.{Host}
use pastelup.Remote.{
  Ssh, credentials, copy_pastelup_to_remote, dial, prepare_remote_session, execute_remote_commands,
}
use pastelup.Remote.Sessions.{
  Opens, Leaves, Counts, Has, credentials-Keeps, run_commands-Keeps, copy-Keeps,
  check_and_stop-Keeps,
}

module _ {W C : Type 0} (host : Host W) (ssh : Ssh W C) (os : OsType) (sessions : W → ℕ)
    (counts : Counts host ssh sessions) (n : ℕ) where
  -- What opens a session behind an action that keeps their number.
  bind-Opens :
      {A B : Type 0} (m : Action W A) (f : A → Action W B) (w : W)
      → Keeps (Has sessions n) m
      → Has sessions n w
      → ((a : A) (u : W) → Has sessions n u → Opens sessions n (f a u))
      → Opens sessions n ((m >>= f) w)
  bind-Opens {A} {B} m f w hm h hf = outcome (m w) (Keeps-state (Has sessions n) m w hm h)
    where
      outcome :
          (o : Out W A)
          → Has sessions n (state_of o)
          → Opens sessions n
              (elim o as (λ x. Out W B) [ ok a u ↦ f a u | err e u ↦ err e u | panic u ↦ panic u ])
      outcome (ok a u) hu = hf a u hu
      outcome (err e u) hu = hu
      outcome (panic u) hu = tt

  if-Opens :
      {A : Type 0} (b : Bool) (m k : Action W A) (w : W)
      → Opens sessions n (m w)
      → Opens sessions n (k w)
      → Opens sessions n ((if b then m else k) w)
  if-Opens true m k w hm hk = hm
  if-Opens false m k w hm hk = hk

  dial-Opens :
      (config : Config) (w : W) → Has sessions n w → Opens sessions n (dial host ssh os config w)
  unfolding dial
  dial-Opens config w h =
      bind-Opens
        (attempt (credentials host ssh os config.remote_user (is_empty config.remote_ssh_key))) _ w
        (attempt-Keeps (Has sessions n) _ (
          credentials-Keeps host ssh os sessions counts n config.remote_user
            (is_empty config.remote_ssh_key)))
        h
        (λ found u hu.
          if-Opens (is_empty config.remote_ssh_key) _ _ u (counts.passwd_opens _ _ _ u n hu)
            (counts.key_opens _ _ _ u n hu))

  -- What is done in a session that was opened.
  opened :
      {A B : Type 0} (P : Out W B → Type 0) (m : Action W A) (f : A → Action W B) (w : W)
      → ((e : Error) (u : W) → Has sessions n u → P (err e u))
      → ((u : W) → P (panic u))
      → Opens sessions n (m w)
      → ((a : A) (u : W) → Has sessions (suc n) u → P (f a u))
      → P ((m >>= f) w)
  opened {A} {B} P m f w failed panics opens hf = outcome (m w) opens
    where
      outcome :
          (o : Out W A)
          → Opens sessions n o
          → P (elim o as (λ x. Out W B) [ ok a u ↦ f a u | err e u ↦ err e u | panic u ↦ panic u ])
      outcome (ok a u) hu = hf a u hu
      outcome (err e u) hu = failed e u hu
      outcome (panic u) hu = panics u

  deferred-Leaves :
      {A : Type 0} (client : C) (m : Action W A) (w : W)
      → Keeps (Has sessions (suc n)) m
      → Has sessions (suc n) w
      → Leaves sessions n (deferred (modify (ssh.close client)) m w)
  deferred-Leaves {A} client m w hm h = outcome (m w) (Keeps-state (Has sessions (suc n)) m w hm h)
    where
      outcome :
          (o : Out W A)
          → Has sessions (suc n) (state_of o)
          → Leaves sessions n (elim o as (λ x. Out W A) [
            | ok a u ↦ ok a (ssh.close client u)
            | err e u ↦ err e (ssh.close client u)
            | panic u ↦ panic (ssh.close client u)
          ])
      outcome (ok a u) hu = counts.close_closes client u n hu
      outcome (err e u) hu = counts.close_closes client u n hu
      outcome (panic u) hu = tt

  abbrev keep_or_close : C → Error ⊎ Unit {0} → Action W C
  keep_or_close client (inl e) =
      modify (ssh.close client) >> fail (wrapf "failed to install pastelup" e)
  keep_or_close client (inr done) = pure client

  installed-Opens :
      (client : C) (m : Action W (Unit {0})) (w : W)
      → Keeps (Has sessions (suc n)) m
      → Has sessions (suc n) w
      → Opens sessions n ((attempt m >>= keep_or_close client) w)
  installed-Opens client m w hm h = outcome (m w) refl (Keeps-state (Has sessions (suc n)) m w hm h)
    where
      outcome :
          (o : Out W (Unit {0}))
          → m w ≡ o
          → Has sessions (suc n) (state_of o)
          → Opens sessions n ((attempt m >>= keep_or_close client) w)
      outcome (ok a u) e hu = rw (◌>>=◌, attempt, e) hu
      outcome (err x u) e hu = rw (◌>>=◌, attempt, e) (counts.close_closes client u n hu)
      outcome (panic u) e hu = rw (◌>>=◌, attempt, e) tt

  prepare-Opens :
      (config : Config) (w : W)
      → Has sessions n w
      → Opens sessions n (prepare_remote_session host ssh os config w)
  unfolding prepare_remote_session
  prepare-Opens config w h =
      if-Opens (is_empty config.remote_ip) (fail (errorf "remote IP is required")) _ w h (
        opened (λ o. Opens sessions n o) (dial host ssh os config) _ w (λ e u hu. hu) (λ u. tt)
          (dial-Opens config w h)
          (λ client u hu.
            installed-Opens client (copy_pastelup_to_remote host ssh os client _) u
              (copy-Keeps host ssh os sessions counts n client _) hu))

  wrapped-Opens :
      (msg : String) (m : Action W C) (w : W)
      → Opens sessions n (m w)
      → Opens sessions n (wrap_error msg m w)
  wrapped-Opens msg m w h = outcome (m w) refl h
    where
      outcome : (o : Out W C) → m w ≡ o → Opens sessions n o → Opens sessions n (wrap_error msg m w)
      outcome (ok a u) e hu = rw (wrap_error, e) hu
      outcome (err x u) e hu = rw (wrap_error, e) hu
      outcome (panic u) e hu = rw (wrap_error, e) tt

  -- Where dialling opens a session if it succeeds, closing closes one, and the other calls of the
  -- ssh client and of the terminal keep their number: `executeRemoteCommands` leaves as many
  -- sessions open as there were, whether it succeeds or fails, at whatever step, unless it panics.
  pub execute_remote_commands-Leaves :
      (config : Config) (commands : List Str) (try_stop need_output : Bool) (w : W)
      → sessions w ≡ n
      → Leaves sessions n
          (execute_remote_commands host ssh os config commands try_stop need_output w)
  unfolding execute_remote_commands
  execute_remote_commands-Leaves config commands try_stop need_output w h =
      opened (λ o. Leaves sessions n o)
        (wrap_error "failed to prepare remote session" (prepare_remote_session host ssh os config))
        _ w (λ e u hu. hu) (λ u. tt)
        (wrapped-Opens _ (prepare_remote_session host ssh os config) w (prepare-Opens config w h))
        (λ client u hu.
          deferred-Leaves client _ u
            (then-Keeps (Has sessions (suc n)) _ _
              (if-Keeps (Has sessions (suc n)) try_stop _ _
                (check_and_stop-Keeps host ssh os sessions counts n config client)
                (pure-Keeps (Has sessions (suc n)) tt))
              (run_commands-Keeps host ssh os sessions counts n client need_output commands))
            hu)
