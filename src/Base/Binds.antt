-- ===== src/Base/Binds.antt =====
-- Equations between chains of actions.
use mathlib.Core.Path.{◌≡◌, refl}
use native.Mathlib.Omega.{arith}
use pastelup.Base.Effects.{Out, ok, err, panic, Action, ◌>>=◌}

module _ {W : Type 0} where
  pub bind-cong :
      {A B : Type 0} (m n : Action W A) (f : A → Action W B) (u : W)
      → m u ≡ n u
      → (m >>= f) u ≡ (n >>= f) u
  bind-cong m n f u same = rw (◌>>=◌, same) refl

  pub bind-same :
      {A B : Type 0} (m : Action W A) (f g : A → Action W B) (w : W)
      → ((a : A) (u : W) → f a u ≡ g a u)
      → (m >>= f) w ≡ (m >>= g) w
  bind-same {A} {B} m f g w same = outcome (m w) refl
    where
      outcome : (o : Out W A) → m w ≡ o → (m >>= f) w ≡ (m >>= g) w
      outcome (ok a u) e = rw (◌>>=◌, e) (same a u)
      outcome (err x u) e = rw (◌>>=◌, e) refl
      outcome (panic u) e = rw (◌>>=◌, e) refl

  pub bind_assoc :
      {A B D : Type 0} (m : Action W A) (f : A → Action W B) (g : B → Action W D) (w : W)
      → (m >>= λ a. f a >>= g) w ≡ (m >>= f >>= g) w
  bind_assoc m f g w = ground arith
