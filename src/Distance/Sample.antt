-- ===== src/Distance/Sample.antt =====
-- A heap for the examples: a list of which `pop` looks for the first entry.
use pastelup.Base.{
  ◌≤◌, Bool, true, false, List, [], ◌∷◌, Option, none, some, ◌≡◌, refl, sym, ◌∙◌, ap, arith,
  if◌then◌else◌, ltb, length, All, Bool-cases, inl, inr,
}
use mathlib.Core.Path.{subst}
use pastelup.Distance.{DistanceEntry, less, Heap, IsHeap, number}

unfoldable pub first_of : DistanceEntry → List DistanceEntry → DistanceEntry × List DistanceEntry
first_of e [] = (e, [])
first_of e (x ∷ xs) =
    let other = first_of x xs in
    let same = first_of e xs in
    if ltb e.distance x.distance then (other.0, e ∷ other.1) else (same.0, x ∷ same.1)

unfoldable pub pop_first : List DistanceEntry → Option (DistanceEntry × List DistanceEntry)
unfolding first_of
pop_first [] = none
pop_first (e ∷ es) = some (first_of e es)

unfoldable pub sample_heap : Heap (List DistanceEntry)
sample_heap = record {
  empty = [];
  len = length;
  push = λ e h. e ∷ h;
  pop = pop_first;
  contents = λ h. h;
}

first_of-number :
    (e : DistanceEntry) (es : List DistanceEntry) (p : DistanceEntry → Bool)
    → number p (e ∷ es) ≡ number p ((first_of e es).0 ∷ (first_of e es).1)
unfolding first_of number
first_of-number e [] p = refl
first_of-number e (x ∷ xs) p =
    let other = first_of-number x xs p in
    let same = first_of-number e xs p in
    elim (Bool-cases (ltb e.distance x.distance)) [
      | inl farther ↦ rw farther (ground arith)
      | inr nearer ↦ rw nearer (ground arith)
    ]

All-less :
    (e f : DistanceEntry) (es : List DistanceEntry)
    → e.distance ≤ f.distance
    → All (λ x. less x e ≡ false) es
    → All (λ x. less x f ≡ false) es
All-less e f [] farther all = tt
All-less e f (x ∷ xs) farther (first, all) = (ground arith, All-less e f xs farther all)

first_of-other :
    (e x : DistanceEntry) (xs : List DistanceEntry)
    → ltb e.distance x.distance ≡ true
    → (first_of e (x ∷ xs)).0 ≡ (first_of x xs).0
unfolding first_of
first_of-other e x xs farther = rw farther refl

first_of-same :
    (e x : DistanceEntry) (xs : List DistanceEntry)
    → ltb e.distance x.distance ≡ false
    → (first_of e (x ∷ xs)).0 ≡ (first_of e xs).0
unfolding first_of
first_of-same e x xs nearer = rw nearer refl

first_of-All :
    (e : DistanceEntry) (es : List DistanceEntry)
    → All (λ x. less x (first_of e es).0 ≡ false) (e ∷ es)
unfolding first_of
first_of-All e [] = (ground arith, tt)
first_of-All e (x ∷ xs) =
    let other = first_of-All x xs in
    let same = first_of-All e xs in
    elim (Bool-cases (ltb e.distance x.distance)) [
      | inl farther ↦
          subst (λ t. All (λ y. less y t ≡ false) (e ∷ x ∷ xs))
            (sym (first_of-other e x xs farther)) (ground arith, other)
      | inr nearer ↦
          subst (λ t. All (λ y. less y t ≡ false) (e ∷ x ∷ xs)) (sym (first_of-same e x xs nearer))
            (same.0, (ground arith, same.1))
    ]

-- What was popped
popped_or :
    DistanceEntry × List DistanceEntry
    → Option (DistanceEntry × List DistanceEntry)
    → DistanceEntry × List DistanceEntry
popped_or other none = other
popped_or other (some popped) = popped

pop_first-none : (h : List DistanceEntry) → pop_first h ≡ none → h ≡ []
unfolding pop_first
pop_first-none [] nothing = refl
pop_first-none (e ∷ es) nothing = absurd (ground arith)

pop_first-number :
    (h g : List DistanceEntry) (e : DistanceEntry) (p : DistanceEntry → Bool)
    → pop_first h ≡ some (e, g)
    → number p h ≡ number p (e ∷ g)
unfolding pop_first popped_or
pop_first-number [] g e p popped = absurd (ground arith)
pop_first-number (x ∷ xs) g e p popped =
    first_of-number x xs p
    ∙ ap (λ (o : DistanceEntry × List DistanceEntry). number p (o.0 ∷ o.1))
        (ap (popped_or (x, xs)) popped)

pop_first-All :
    (h g : List DistanceEntry) (e : DistanceEntry)
    → pop_first h ≡ some (e, g)
    → All (λ x. less x e ≡ false) h
unfolding pop_first popped_or
pop_first-All [] g e popped = tt
pop_first-All (x ∷ xs) g e popped =
    subst (λ (o : DistanceEntry × List DistanceEntry). All (λ y. less y o.0 ≡ false) (x ∷ xs))
      (ap (popped_or (x, xs)) popped) (first_of-All x xs)

pub sample_heap-IsHeap : IsHeap sample_heap
unfolding sample_heap
sample_heap-IsHeap = record {
  empty_lem = refl;
  len_lem = λ h. refl;
  push_lem = λ e h p. refl;
  pop_none_lem = pop_first-none;
  pop_some_lem = pop_first-number;
  pop_first_lem = pop_first-All;
}
