-- ===== src/Stop/Services.antt =====
-- What `stopServices` achieves, by an interface that the manager of Linux fills.
use pastelup.Base.{
  Bool, true, false, List, [], ◌∷◌, Option, none, some, Error, ◌⊎◌, inl, inr, Out, ok, err, panic,
  Action, pure, attempt, ◌>>=◌, ◌>>◌, ◌≡◌, ◌≢◌, refl, sym, ◌∙◌, All, if◌then◌else◌,
}
use pastelup.Constants.{OsType, ToolType}
use pastelup.Configs.{Config}
use pastelup.Host.{Host}
use pastelup.Service.Manager.{ServiceManager}
use pastelup.Stop.{stop_process, stop_by_process, stop_one, stop_services}

-- What a caller relies on: the questions change nothing, a stop leaves the tool inactive or reports
-- an error, and it makes nothing active.
pub record Stops {W : Type 0} (sm : ServiceManager W) (config : Config) : Type 0 where
  pub registered : W → ToolType → Bool
  pub active : W → ToolType → Bool
  pub is_registered_lem :
      (app : ToolType) (w : W)
      → (v : W) × (sm.is_registered config app w ≡ ok (registered w app) v)
        × ((t : ToolType) → (registered v t ≡ registered w t) × (active v t ≡ active w t))
  pub stop_service_lem :
      (app : ToolType) (w : W)
      → (v : W) × (((sm.stop_service config app w ≡ ok tt v) × (active v app ≡ false))
          ⊎ ((e : Error) × (sm.stop_service config app w ≡ err e v)))
        × ((t : ToolType)
            → (registered v t ≡ registered w t) × (active w t ≡ false → active v t ≡ false))

module _ {W : Type 0} (host : Host W) (os : OsType) (sm : ServiceManager W) (config : Config)
    (laws : Stops sm config) where
  -- The manager stops this service without an error, whatever the state.
  abbrev pub CanStop : ToolType → Type 0
  CanStop app = (w : W) (e : Error) (v : W) → sm.stop_service config app w ≢ err e v

  stop_one-inactive :
      (app : ToolType) (w : W)
      → laws.registered w app ≡ true
      → CanStop app
      → (v : W) × (stop_one host os (sm, none) config app w ≡ ok tt v)
        × (laws.active v app ≡ false)
        × ((t : ToolType)
            → (laws.registered v t ≡ laws.registered w t)
              × (laws.active w t ≡ false → laws.active v t ≡ false))
  unfolding stop_one
  stop_one-inactive app w old can =
      let (w₁, asked, same) = laws.is_registered_lem app w in
      let (v, outcome, keeps) = laws.stop_service_lem app w₁ in
      elim outcome [
        | inr (e, failed) ↦ absurd (can w₁ e v failed)
        | inl (stopped, off) ↦ (
          v,
          rw (asked, old, ◌>>=◌) (rw (stopped, ◌>>=◌, attempt) refl),
          off,
          λ t. ((keeps t).0 ∙ (same t).0, λ h. (keeps t).1 ((same t).1 ∙ h)),
        )
      ]

  -- Under a manager whose questions change nothing and whose stop leaves the tool inactive or
  -- reports an error and makes nothing active: if each service of the list is registered and the manager stops it without an error, then
  -- `stopServices` succeeds, each service of the list is inactive afterwards, and none that was
  -- inactive is active.
  pub stop_services-inactive :
      (services : List ToolType) (w : W)
      → All (λ t. (laws.registered w t ≡ true) × CanStop t) services
      → (v : W) × (stop_services host os (sm, none) config services w ≡ ok tt v)
        × All (λ t. laws.active v t ≡ false) services
        × ((t : ToolType) → laws.active w t ≡ false → laws.active v t ≡ false)
  unfolding stop_services
  stop_services-inactive [] w h = (w, refl, tt, λ t off. off)
  stop_services-inactive (app ∷ rest) w h =
      let (u, one, off, keeps) = stop_one-inactive app w h.0.0 h.0.1 in
      let (v, runs, all_off, stays) =
        stop_services-inactive rest u (carry rest (λ t. (keeps t).0) h.1) in
      (v, rw (one, ◌>>◌) runs, (stays app off, all_off), λ t was_off. stays t ((keeps t).1 was_off))
    where
      carry :
          (rest : List ToolType) {u : W}
          → ((t : ToolType) → laws.registered u t ≡ laws.registered w t)
          → All (λ t. (laws.registered w t ≡ true) × CanStop t) rest
          → All (λ t. (laws.registered u t ≡ true) × CanStop t) rest
      carry [] same h = tt
      carry (t ∷ rest) same h = ((same t ∙ h.0.0, h.0.1), carry rest same h.1)

-- An action that ends without an error; a panic is none.
abbrev pub NeverFails : {W : Type 0} → Action W (Unit {0}) → Type 0
NeverFails {W} m = (w : W) (e : Error) (v : W) → m w ≢ err e v

attempt-NeverFails :
    {W A : Type 0} (m : Action W A) (k : Error ⊎ A → Action W (Unit {0}))
    → ((r : Error ⊎ A) → NeverFails (k r))
    → NeverFails (attempt m >>= k)
attempt-NeverFails m k h w e v = step (m w) refl
  where
    step : (o : Out _ _) → m w ≡ o → (attempt m >>= k) w ≢ err e v
    step (ok a u) same f = h (inr a) u e v (sym (rw (same, attempt, ◌>>=◌) refl) ∙ f)
    step (err d u) same f = h (inl d) u e v (sym (rw (same, attempt, ◌>>=◌) refl) ∙ f)
    step (panic u) same f =
        let g : panic u ≡ err e v = sym (rw (same, attempt, ◌>>=◌) refl) ∙ f in cc

>>=-NeverFails :
    {W A : Type 0} (m : Action W A) (k : A → Action W (Unit {0}))
    → ((w : W) (e : Error) (v : W) → m w ≢ err e v)
    → ((a : A) → NeverFails (k a))
    → NeverFails (m >>= k)
>>=-NeverFails m k hm hk w e v = step (m w) refl
  where
    step : (o : Out _ _) → m w ≡ o → (m >>= k) w ≢ err e v
    step (ok a u) same f = hk a u e v (sym (rw (same, ◌>>=◌) refl) ∙ f)
    step (err d u) same f = hm w d u same
    step (panic u) same f = let g : panic u ≡ err e v = sym (rw (same, ◌>>=◌) refl) ∙ f in cc

pure-NeverFails : {W : Type 0} → NeverFails (pure {W = W} tt)
pure-NeverFails w e v h = cc

sum-NeverFails :
    {W A : Type 0} (r : Error ⊎ A) {m k : Action W (Unit {0})}
    → NeverFails m
    → NeverFails k
    → NeverFails (elim r [ inr _ ↦ m | inl e ↦ k ])
sum-NeverFails (inr a) hm hk = hm
sum-NeverFails (inl e) hm hk = hk

if-NeverFails :
    {W : Type 0} (b : Bool) {m k : Action W (Unit {0})}
    → NeverFails m
    → NeverFails k
    → NeverFails (if b then m else k)
if-NeverFails true hm hk = hm
if-NeverFails false hm hk = hk

module _ {W : Type 0} (host : Host W) (os : OsType) (sm : ServiceManager W) (config : Config) where
  stop_by_process-NeverFails : (service : ToolType) → NeverFails (stop_by_process host os service)
  unfolding stop_by_process
  stop_by_process-NeverFails service =
      attempt-NeverFails (stop_process host os service) (λ _. pure tt) (λ r. pure-NeverFails)

  stop_one-NeverFails :
      (unsupported : Option Error) (service : ToolType)
      → ((w : W) (e : Error) (v : W) → sm.is_registered config service w ≢ err e v)
      → NeverFails (stop_one host os (sm, unsupported) config service)
  unfolding stop_one
  stop_one-NeverFails (some d) service answers = stop_by_process-NeverFails service
  stop_one-NeverFails none service answers =
      >>=-NeverFails (sm.is_registered config service)
        (λ registered.
          if registered
          then (do
            stopped ← attempt (sm.stop_service config service)
            elim stopped [ inr _ ↦ pure tt | inl e ↦ stop_by_process host os service ])
          else stop_by_process host os service)
        answers
        (λ b.
          if-NeverFails b
            (attempt-NeverFails (sm.stop_service config service)
              (λ r. elim r [ inr _ ↦ pure tt | inl e ↦ stop_by_process host os service ])
              (λ r. sum-NeverFails r pure-NeverFails (stop_by_process-NeverFails service)))
            (stop_by_process-NeverFails service))

  stop_services-NeverFails :
      (unsupported : Option Error) (services : List ToolType)
      → ((service : ToolType) (w : W) (e : Error) (v : W)
          → sm.is_registered config service w ≢ err e v)
      → NeverFails (stop_services host os (sm, unsupported) config services)
  unfolding stop_services
  stop_services-NeverFails unsupported [] answers = pure-NeverFails
  stop_services-NeverFails unsupported (service ∷ rest) answers =
      >>=-NeverFails (stop_one host os (sm, unsupported) config service)
        (λ _. stop_services host os (sm, unsupported) config rest)
        (stop_one-NeverFails unsupported service (answers service))
        (λ _. stop_services-NeverFails unsupported rest answers)

  -- Where the manager always answers whether a service is registered, `stopServices` never reports
  -- an error, on any system and whatever failed.
  pub stop_services-never_fails :
      (unsupported : Option Error) (services : List ToolType)
      → ((service : ToolType) (w : W) (e : Error) (v : W)
          → sm.is_registered config service w ≢ err e v)
      → (w : W) (e : Error) (v : W)
      → stop_services host os (sm, unsupported) config services w ≢ err e v
  stop_services-never_fails = stop_services-NeverFails
