-- ===== src/Base/Effects.antt =====
-- Effects: an action runs on a state of the host and ends with a value, with a Go error, or with a
-- panic, and always with the state that it left behind.
use Prim.Native.String.{String}
use mathlib.Core.Bool.{Bool, true, false}
use mathlib.Core.Logic.{◌⊎◌, inl, inr}
use mathlib.Core.Path.{◌≡◌, refl}
use native.Mathlib.Omega.{arith}
use pastelup.Base.Tests.{if◌then◌else◌}

-- `os_error` is an error that a call outside the program returned; `errorf` is one that the
-- program makes; `wrapf` is one whose text holds another error (`%v`).
pub data Error : Type 0 where
  os_error : String → Error
  errorf : String → Error
  wrapf : String → Error → Error

pub data Out (W : Type 0) (A : Type 0) : Type 0 where
  ok : A → W → Out W A
  err : Error → W → Out W A
  panic : W → Out W A

abbrev pub Action : Type 0 → Type 0 → Type 0
Action W A = W → Out W A

module _ {W : Type 0} where
  abbrev pub pure : {A : Type 0} → A → Action W A
  pure a w = ok a w

  abbrev pub fail : {A : Type 0} → Error → Action W A
  fail e w = err e w

  -- The result of a pure step that may fail.
  abbrev pub lift : {A : Type 0} → Error ⊎ A → Action W A
  lift (inl e) w = err e w
  lift (inr a) w = ok a w

  -- `if err != nil { return err }` behind each call.
  infixl 5 ◌>>=◌ ◌>>◌
  abbrev pub ◌>>=◌ : {A B : Type 0} → Action W A → (A → Action W B) → Action W B
  ◌>>=◌ m f w = elim (m w) [ ok a w' ↦ f a w' | err e w' ↦ err e w' | panic w' ↦ panic w' ]

  abbrev pub ◌>>◌ : {A B : Type 0} → Action W A → Action W B → Action W B
  ◌>>◌ m k w = elim (m w) [ ok a w' ↦ k w' | err e w' ↦ err e w' | panic w' ↦ panic w' ]

  -- `v, err := m()` where the caller looks at `err` itself.
  abbrev pub attempt : {A : Type 0} → Action W A → Action W (Error ⊎ A)
  attempt m w = elim (m w) [
    | ok a w' ↦ ok (inr a) w'
    | err e w' ↦ ok (inl e) w'
    | panic w' ↦ panic w'
  ]

  -- `if err := m(); err != nil { return fmt.Errorf("...: %v", err) }`
  abbrev pub wrap_error : {A : Type 0} → String → Action W A → Action W A
  wrap_error msg m w = elim (m w) [
    | ok a w' ↦ ok a w'
    | err e w' ↦ err (wrapf msg e) w'
    | panic w' ↦ panic w'
  ]

  -- `defer k()` in front of `m`: `k` is done on every way out.
  abbrev pub deferred : {A : Type 0} → Action W (Unit {0}) → Action W A → Action W A
  deferred k m w = elim (m w) [
    | ok a w' ↦ (k >> pure a) w'
    | err e w' ↦ (k >> fail e) w'
    | panic w' ↦ (k >> panic) w'
  ]

  -- A read of the state that changes nothing.
  abbrev pub query : {A : Type 0} → (W → A) → Action W A
  query f w = ok (f w) w

  -- A call that cannot fail in Go's sense: a value and the next state.
  abbrev pub perform : {A : Type 0} → (W → A × W) → Action W A
  perform f w = ok (f w).0 (f w).1

  abbrev pub modify : (W → W) → Action W (Unit {0})
  modify f w = ok tt (f w)

  abbrev pub state_of : {A : Type 0} → Out W A → W
  state_of (ok a w) = w
  state_of (err e w) = w
  state_of (panic w) = w

  abbrev pub is_ok : {A : Type 0} → Out W A → Bool
  is_ok (ok a w) = true
  is_ok (err e w) = false
  is_ok (panic w) = false

  pub >>=-eq-ok :
      {A B : Type 0} (m : Action W A) (f : A → Action W B) {b : B} (w : W) {v : W}
      → (m >>= f) w ≡ ok b v
      → (a : A) × (u : W) × (m w ≡ ok a u) × (f a u ≡ ok b v)
  >>=-eq-ok m f {b} w {v} = step (m w)
    where
      step :
          (o : Out W _)
          → (elim o [ ok a w' ↦ f a w' | err e w' ↦ err e w' | panic w' ↦ panic w' ]) ≡ ok b v
          → (a : _) × (u : W) × (o ≡ ok a u) × (f a u ≡ ok b v)
      step (ok a u) h = (a, u, refl, h)
      step (err e u) h = cc
      step (panic u) h = cc

  pub >>-eq-ok :
      {A B : Type 0} (m : Action W A) (k : Action W B) {b : B} (w : W) {v : W}
      → (m >> k) w ≡ ok b v
      → (a : A) × (u : W) × (m w ≡ ok a u) × (k u ≡ ok b v)
  >>-eq-ok m k = >>=-eq-ok m (λ _. k)

  pub wrap_error-eq-ok :
      {A : Type 0} (msg : String) (m : Action W A) {a : A} (w : W) {v : W}
      → wrap_error msg m w ≡ ok a v
      → m w ≡ ok a v
  wrap_error-eq-ok msg m w h = ground arith

  pub lift-eq-ok :
      {A : Type 0} (r : Error ⊎ A) {a : A} {w v : W} → lift r w ≡ ok a v → (r ≡ inr a) × (v ≡ w)
  lift-eq-ok (inl e) h = cc
  lift-eq-ok (inr a) h = ground arith

  -- The outcome of a branch whose test is known.
  pub then_lem :
      {A : Type 0} (b : Bool) (m k : Action W A) (w : W) → b ≡ true → (if b then m else k) w ≡ m w
  then_lem true m k w h = refl
  then_lem false m k w h = cc

  pub else_lem :
      {A : Type 0} (b : Bool) (m k : Action W A) (w : W) → b ≡ false → (if b then m else k) w ≡ k w
  else_lem true m k w h = cc
  else_lem false m k w h = refl
