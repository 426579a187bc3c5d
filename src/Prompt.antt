-- ===== src/Prompt.antt =====
-- cmd/common.go: `AskUserToContinue`.
use pastelup.Base.{
  Str, str, Bool, false, [], Option, none, some, Action, perform, pure, ◌>>=◌, trim_space,
  equal_fold, Keeps, bind-Keeps, perform-Keeps, pure-Keeps,
}
use pastelup.Host.{Host}

module _ {W : Type 0} (host : Host W) where
  -- The answer is yes exactly for `y` or `Y`; the second value is the line itself.
  unfoldable pub ask_user_to_continue : Str → Action W (Bool × Str)
  ask_user_to_continue question = perform (host.read_line question) >>= λ line. elim line [
    | none ↦ pure (false, [])
    | some l ↦ let input = trim_space l in pure (equal_fold input (str "y"), input)
  ]

module _ {W : Type 0} (host : Host W) (P : W → Type 0) where
  answer-Keeps :
      (line : Option Str)
      → Keeps P {A = Bool × Str} (elim line [
        | none ↦ pure (false, [])
        | some l ↦ let input = trim_space l in pure (equal_fold input (str "y"), input)
      ])
  answer-Keeps none = pure-Keeps P (false, [])
  answer-Keeps (some l) = pure-Keeps P _

  -- A question leaves what the reading of a line leaves.
  pub ask_user_to_continue-Keeps :
      (question : Str)
      → ((w : W) → P w → P (host.read_line question w).1)
      → Keeps P (ask_user_to_continue host question)
  unfolding ask_user_to_continue
  ask_user_to_continue-Keeps question h =
      bind-Keeps P _ _ (perform-Keeps P (host.read_line question) h) answer-Keeps
