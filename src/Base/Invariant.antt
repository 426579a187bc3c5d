-- ===== src/Base/Invariant.antt =====
-- Properties of the state that an action keeps, whatever its outcome.
use Prim.Native.String.{String}
use mathlib.Core.Bool.{Bool, true, false}
use mathlib.Core.Logic.{◌⊎◌, inl, inr}
use mathlib.Core.Option.{Option, none, some}
use mathlib.Core.Path.{◌≡◌, refl}
use pastelup.Base.Tests.{if◌then◌else◌}
use pastelup.Base.Effects.{
  Error, Out, ok, err, panic, Action, pure, fail, lift, ◌>>=◌, ◌>>◌, attempt, wrap_error, query,
  perform, state_of,
}

module _ {W : Type 0} (P : W → Type 0) where
  unfoldable pub Keeps : {A : Type 0} → Action W A → Type 0
  Keeps m = (w : W) → P w → P (state_of (m w))

  pub bind-Keeps :
      {A B : Type 0} (m : Action W A) (f : A → Action W B)
      → Keeps m
      → ((a : A) → Keeps (f a))
      → Keeps (m >>= f)
  unfolding Keeps
  bind-Keeps m f hm hf w h = step (m w) (hm w h)
    where
      step :
          (o : Out W _)
          → P (state_of o)
          → P (state_of (elim o [ ok a w' ↦ f a w' | err e w' ↦ err e w' | panic w' ↦ panic w' ]))
      step (ok a u) hu = hf a u hu
      step (err e u) hu = hu
      step (panic u) hu = hu

  pub then-Keeps :
      {A B : Type 0} (m : Action W A) (k : Action W B) → Keeps m → Keeps k → Keeps (m >> k)
  then-Keeps m k hm hk = bind-Keeps m (λ _. k) hm (λ _. hk)

  pub attempt-Keeps : {A : Type 0} (m : Action W A) → Keeps m → Keeps (attempt m)
  unfolding Keeps
  attempt-Keeps {A} m hm w h = step (m w) (hm w h)
    where
      step :
          (o : Out W A)
          → P (state_of o)
          → P (
              state_of {A = Error ⊎ A} (elim o [
                | ok a w' ↦ ok (inr a) w'
                | err e w' ↦ ok (inl e) w'
                | panic w' ↦ panic w'
              ]))
      step (ok a u) hu = hu
      step (err e u) hu = hu
      step (panic u) hu = hu

  pub wrap_error-Keeps :
      {A : Type 0} (msg : String) (m : Action W A) → Keeps m → Keeps (wrap_error msg m)
  unfolding Keeps
  wrap_error-Keeps {A} msg m hm w h = step (m w) (hm w h)
    where
      step : (o : Out W A) → P (state_of o) → P (state_of (wrap_error msg (λ _. o) w))
      step (ok a u) hu = hu
      step (err e u) hu = hu
      step (panic u) hu = hu

  pub lift-Keeps : {A : Type 0} (r : Error ⊎ A) → Keeps (lift r)
  unfolding Keeps
  lift-Keeps (inl e) w h = h
  lift-Keeps (inr a) w h = h

  pub if-Keeps :
      {A : Type 0} (b : Bool) (m k : Action W A) → Keeps m → Keeps k → Keeps (if b then m else k)
  if-Keeps true m k hm hk = hm
  if-Keeps false m k hm hk = hk

  pub option-Keeps :
      {A B : Type 0} (o : Option A) (m : Action W B) (f : A → Action W B)
      → Keeps m
      → ((a : A) → Keeps (f a))
      → Keeps (elim o [ none ↦ m | some a ↦ f a ])
  option-Keeps none m f hm hf = hm
  option-Keeps (some a) m f hm hf = hf a

  pub still-Keeps : {A : Type 0} (m : Action W A) → ((w : W) → P w → P (state_of (m w))) → Keeps m
  unfolding Keeps
  still-Keeps m h = h

  pub pure-Keeps : {A : Type 0} (a : A) → Keeps (pure a)
  unfolding Keeps
  pure-Keeps a w h = h

  pub fail-Keeps : (A : Type 0) (e : Error) → Keeps (fail {A = A} e)
  unfolding Keeps
  fail-Keeps A e w h = h

  pub query-Keeps : {A : Type 0} (f : W → A) → Keeps (query f)
  unfolding Keeps
  query-Keeps f w h = h

  pub perform-Keeps : {A : Type 0} (f : W → A × W) → ((w : W) → P w → P (f w).1) → Keeps (perform f)
  unfolding Keeps
  perform-Keeps f h = h

  pub Keeps-state : {A : Type 0} (m : Action W A) (w : W) → Keeps m → P w → P (state_of (m w))
  unfolding Keeps
  Keeps-state m w hm h = hm w h

  -- What an action that kept the property leaves if it succeeds.
  pub Keeps-ok :
      {A : Type 0} (m : Action W A) {a : A} {w v : W} → Keeps m → m w ≡ ok a v → P w → P v
  unfolding Keeps
  Keeps-ok m {a} {w} {v} hm e h = rw e at (hm w h)

  -- `if !b { return err }` in front of the rest
  pub guard-Keeps :
      {A : Type 0} (b : Bool) (e : Error) (m : Action W A)
      → (b ≡ true → Keeps m)
      → Keeps ((if b then pure tt else fail {A = Unit {0}} e) >> m)
  unfolding Keeps
  guard-Keeps true e m hm w h = hm refl w h
  guard-Keeps false e m hm w h = h

  -- A branch that is not taken may do anything.
  pub else-Keeps :
      {A : Type 0} (b : Bool) (m k : Action W A) → b ≡ false → Keeps k → Keeps (if b then m else k)
  else-Keeps true m k h hk = cc
  else-Keeps false m k h hk = hk
