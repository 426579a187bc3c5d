-- ===== src/Node/Processes.antt =====
-- Which process `GetRunningProcessPid` finds.
use pastelup.Base.{
  ◌≤◌, ◌<◌, ◌==◌, ltb, Str, str_eq, has_prefix, take, length, true, false, List, [], ◌∷◌, ◌++◌,
  if◌then◌else◌, ◌≡◌, ◌⊎◌, refl, sym, ap, ◌∙◌, arith, Bool-cases, inl, inr, All, ok, ◌>>=◌,
  wrap_error, pure,
}
use pastelup.Constants.{OsType, ToolType}
use pastelup.Constants.Execs.{service_name}
use pastelup.Host.{Host, Process}
use pastelup.Node.{is_process_of, find_pid, get_running_process_pid, kill_process}

str_eq-long : (a b : Str) → length a < length b → str_eq a b ≡ false
unfolding str_eq
str_eq-long [] [] h = absurd (omega arith)
str_eq-long (x ∷ a) [] h = refl
str_eq-long [] (y ∷ b) h = refl
str_eq-long (x ∷ a) (y ∷ b) h = ground (arith, str_eq-long a b)

has_prefix-long : (s p : Str) → length s < length p → has_prefix s p ≡ false
unfolding has_prefix
has_prefix-long s [] h = absurd (omega arith)
has_prefix-long [] (y ∷ p) h = refl
has_prefix-long (x ∷ s) (y ∷ p) h = ground (arith, has_prefix-long s p)

take-length : (s : Str) → take (length s) s ≡ s
take-length [] = refl
take-length (x ∷ s) = ap (◌∷◌ x) (take-length s)

str_eq-take : (s p : Str) → length p ≤ length s → str_eq (take (length p) s) p ≡ has_prefix s p
unfolding str_eq has_prefix
str_eq-take s [] h = refl
str_eq-take [] (y ∷ p) h = absurd (omega arith)
str_eq-take (x ∷ s) (y ∷ p) h = ground (arith, str_eq-take s p)

-- The test accepts a process exactly if its name is a prefix of the tool's executable name.
pub is_process_of_lem :
    (exec_name executable : Str)
    → is_process_of exec_name executable ≡ has_prefix exec_name executable
unfolding is_process_of
is_process_of_lem exec_name executable =
    elim (Bool-cases (ltb (length exec_name) (length executable))) [
      | inl long ↦
          rw (long, take-length)
            (str_eq-long exec_name executable (ground arith)
              ∙ sym (has_prefix-long exec_name executable (ground arith)))
      | inr fits ↦ rw fits (str_eq-take exec_name executable (ground arith))
    ]

-- The process is the first of the list whose name is a prefix of `exec_name`.
abbrev pub IsFirst : Str → Process → List Process → Type 0
IsFirst exec_name p processes =
    (before : List Process) × (after : List Process) × (processes ≡ before ++ p ∷ after)
    × (has_prefix exec_name p.executable ≡ true)
    × All (λ q. has_prefix exec_name q.executable ≡ false) before

-- The search finds the identifier of the first process whose name is a prefix of the tool's
-- executable name, and 0 if there is none.
pub find_pid_lem :
    (exec_name : Str) (processes : List Process)
    → ((find_pid exec_name processes ≡ 0)
        × All (λ q. has_prefix exec_name q.executable ≡ false) processes)
      ⊎ ((p : Process) × (find_pid exec_name processes ≡ p.pid) × IsFirst exec_name p processes)
unfolding find_pid
find_pid_lem exec_name [] = inl (refl, tt)
find_pid_lem exec_name (p ∷ rest) =
    let test = is_process_of_lem exec_name p.executable in
    elim (Bool-cases (has_prefix exec_name p.executable)) [
      | inl hit ↦ inr (p, rw (test, hit) refl, ([], rest, refl, hit, tt))
      | inr miss ↦ elim (find_pid_lem exec_name rest) [
        | inl (zero_pid, others) ↦ inl (rw (test, miss) zero_pid, (miss, others))
        | inr (q, found, (before, after, split, hit, earlier)) ↦
            inr (
              q,
              rw (test, miss) found,
              (p ∷ before, after, ap (◌∷◌ p) split, hit, (miss, earlier)),
            )
      ]
    ]

module _ {W : Type 0} (host : Host W) (os : OsType) where
  -- If the list of processes can be read, `KillProcess` does nothing more where no name is a
  -- prefix of the tool's executable name, or where the first process of such a name has the
  -- identifier 0; else it kills exactly that process.
  pub kill_process_lem :
      (tool : ToolType) (processes : List Process) (w v : W)
      → host.processes w ≡ ok processes v
      → let name = service_name tool os in
        ((kill_process host os tool w ≡ ok tt v)
          × All (λ q. has_prefix name q.executable ≡ false) processes)
        ⊎ ((p : Process) × IsFirst name p processes
            × (kill_process host os tool w ≡ (if p.pid == 0 then pure tt else host.kill p.pid) v))
  unfolding kill_process get_running_process_pid
  kill_process_lem tool processes w v listed =
      elim (find_pid_lem (service_name tool os) processes) [
        | inl (found, others) ↦ inl (rw (listed, ◌>>=◌, wrap_error, found) refl, others)
        | inr (p, found, first) ↦ inr (p, first, rw (listed, ◌>>=◌, wrap_error, found) refl)
      ]
