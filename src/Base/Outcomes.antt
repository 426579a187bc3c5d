-- ===== src/Base/Outcomes.antt =====
-- A property of the state that an action keeps, and one of its value if it succeeds.
use mathlib.Core.Bool.{Bool, true, false}
use mathlib.Core.Option.{Option, none, some}
use pastelup.Base.Tests.{if◌then◌else◌}
use pastelup.Base.Effects.{
  Error, Out, ok, err, panic, Action, pure, fail, ◌>>=◌, ◌>>◌, perform, state_of,
}
use pastelup.Base.Invariant.{Keeps}

module _ {W : Type 0} (P : W → Type 0) where
  abbrev pub After : {A : Type 0} → (A → Type 0) → Out W A → Type 0
  After Q (ok a w) = Q a × P w
  After Q (err e w) = P w
  After Q (panic w) = P w

  unfoldable pub Gives : {A : Type 0} → (A → Type 0) → Action W A → Type 0
  Gives Q m = (w : W) → P w → After Q (m w)

  pub bind-Gives :
      {A B : Type 0} (Q : A → Type 0) (R : B → Type 0) (m : Action W A) (f : A → Action W B)
      → Gives Q m
      → ((a : A) → Q a → Gives R (f a))
      → Gives R (m >>= f)
  unfolding Gives
  bind-Gives {A} {B} Q R m f hm hf w h = step (m w) (hm w h)
    where
      step :
          (o : Out W A)
          → After Q o
          → After R (elim o as (λ x. Out W B) [
            | ok a w' ↦ f a w'
            | err e w' ↦ err e w'
            | panic w' ↦ panic w'
          ])
      step (ok a u) hu = hf a hu.0 u hu.1
      step (err e u) hu = hu
      step (panic u) hu = hu

  Out-state : {A : Type 0} (o : Out W A) → P (state_of o) → After (λ a. Unit {0}) o
  Out-state (ok a u) h = (tt, h)
  Out-state (err e u) h = h
  Out-state (panic u) h = h

  pub Keeps-Gives : {A : Type 0} (m : Action W A) → Keeps P m → Gives (λ a. Unit {0}) m
  unfolding Gives Keeps
  Keeps-Gives m hm w h = Out-state (m w) (hm w h)

  After-state : {A : Type 0} (Q : A → Type 0) (o : Out W A) → After Q o → P (state_of o)
  After-state Q (ok a u) h = h.1
  After-state Q (err e u) h = h
  After-state Q (panic u) h = h

  pub Gives-Keeps : {A : Type 0} (Q : A → Type 0) (m : Action W A) → Gives Q m → Keeps P m
  unfolding Gives Keeps
  Gives-Keeps Q m hm w h = After-state Q (m w) (hm w h)

  -- An action of which only the state is known, in front of another one
  pub after_Keeps-Gives :
      {A B : Type 0} (R : B → Type 0) (m : Action W A) (f : A → Action W B)
      → Keeps P m
      → ((a : A) → Gives R (f a))
      → Gives R (m >>= f)
  after_Keeps-Gives R m f hm hf = bind-Gives (λ a. Unit {0}) R m f (Keeps-Gives m hm) (λ a t. hf a)

  pub then-Gives :
      {A B : Type 0} (R : B → Type 0) (m : Action W A) (k : Action W B)
      → Keeps P m
      → Gives R k
      → Gives R (m >> k)
  then-Gives R m k hm hk = after_Keeps-Gives R m (λ a. k) hm (λ a. hk)

  pub use_Gives-Keeps :
      {A B : Type 0} (Q : A → Type 0) (m : Action W A) (f : A → Action W B)
      → Gives Q m
      → ((a : A) → Q a → Keeps P (f a))
      → Keeps P (m >>= f)
  use_Gives-Keeps Q m f hm hf =
      Gives-Keeps (λ b. Unit {0}) (m >>= f)
        (bind-Gives Q (λ b. Unit {0}) m f hm (λ a q. Keeps-Gives (f a) (hf a q)))

  pub pure-Gives : {A : Type 0} (Q : A → Type 0) (a : A) → Q a → Gives Q (pure a)
  unfolding Gives
  pure-Gives Q a q w h = (q, h)

  pub fail-Gives : {A : Type 0} (Q : A → Type 0) (e : Error) → Gives Q (fail e)
  unfolding Gives
  fail-Gives Q e w h = h

  pub perform-Gives :
      {A : Type 0} (Q : A → Type 0) (f : W → A × W)
      → ((w : W) → P w → Q (f w).0 × P (f w).1)
      → Gives Q (perform f)
  unfolding Gives
  perform-Gives Q f h = h

  pub if-Gives :
      {A : Type 0} (Q : A → Type 0) (b : Bool) (m k : Action W A)
      → Gives Q m
      → Gives Q k
      → Gives Q (if b then m else k)
  if-Gives Q true m k hm hk = hm
  if-Gives Q false m k hm hk = hk

  pub option-Gives :
      {A B : Type 0} (Q : B → Type 0) (o : Option A) (m : Action W B) (f : A → Action W B)
      → Gives Q m
      → ((a : A) → Gives Q (f a))
      → Gives Q (elim o [ none ↦ m | some a ↦ f a ])
  option-Gives Q none m f hm hf = hm
  option-Gives Q (some a) m f hm hf = hf a
