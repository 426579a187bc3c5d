-- ===== src/Distance/Closest.antt =====
-- What the closest strings are.
use pastelup.Base.{
  ℕ, suc, ◌≤◌, ◌==◌, Str, Bool, true, false, not, List, [], ◌∷◌, some, ◌≡◌, refl, arith,
  if◌then◌else◌, ltb, leb, length, All, Bool-cases, inl, inr,
}
use pastelup.Distance.{DistanceEntry, less, Heap, IsHeap, number, compute_xor_distance, entry_for}

abbrev pub least : ℕ → ℕ → ℕ
least a b = if leb a b then a else b

pub number_le : {A : Type 0} (p : A → Bool) (xs : List A) → number p xs ≤ length xs
unfolding number
number_le p [] = omega arith
number_le p (x ∷ xs) = let rest = number_le p xs in ground arith

pub number-every : {A : Type 0} (xs : List A) → number (λ x. true) xs ≡ length xs
unfolding number
number-every [] = refl
number-every (x ∷ xs) = omega (arith, number-every xs)

-- If the first entry is within a distance, every entry is.
pub number-first :
    (e : DistanceEntry) (d : ℕ) (es : List DistanceEntry)
    → All (λ x. less x e ≡ false) es
    → e.distance ≤ d
    → number (λ x. leb x.distance d) es ≡ length es
unfolding number
number-first e d [] all near = refl
number-first e d (x ∷ es) (first, all) near =
    let rest = number-first e d es all near in ground arith

-- Tests that agree where a third one fails everywhere
pub number-agree :
    {A : Type 0} (p q r : A → Bool) (xs : List A)
    → ((x : A) → r x ≡ false → p x ≡ q x)
    → number r xs ≡ 0
    → number p xs ≡ number q xs
unfolding number
number-agree p q r [] same clear = refl
number-agree p q r (x ∷ xs) same clear = elim (Bool-cases (r x)) [
  | inl wrong ↦ absurd (ground arith)
  | inr right ↦
      let here = same x right in
      let rest = number-agree p q r xs same (ground arith) in ground arith
]

module _ {H : Type 0} (heap : Heap H) (hash : Str → Str) (laws : IsHeap heap) (n : ℕ)
    (comparison : Str) where
  abbrev pub dist : Str → ℕ
  dist s = compute_xor_distance hash s comparison

  abbrev pub size : H → ℕ
  size h = length (heap.contents h)

  abbrev pub within : ℕ → H → ℕ
  within d h = number (λ e. leb e.distance d) (heap.contents h)

  -- The heap after the strings that were seen: within each distance it has as many entries as there
  -- are strings, up to n.
  abbrev pub IsNear : H → List Str → Type 0
  IsNear h seen = (d : ℕ) → within d h ≡ least n (number (λ s. leb (dist s) d) seen)

  -- It has no entry more often than the strings that were seen.
  abbrev pub IsSub : H → List Str → Type 0
  IsSub h seen =
      (q : Str → Bool)
      → number (λ (e : DistanceEntry). q e.string) (heap.contents h) ≤ number q seen

  -- Its distances are those of its strings.
  abbrev pub IsRight : H → Type 0
  IsRight h =
      number (λ (e : DistanceEntry). not (e.distance == dist e.string)) (heap.contents h) ≡ 0

  pub record Kept (h : H) (seen : List Str) : Type 0 where
    pub near : IsNear h seen
    pub full : size h ≡ least n (length seen)
    pub sub : IsSub h seen
    pub right : IsRight h

  size-push : (e : DistanceEntry) (h : H) → size (heap.push e h) ≡ suc (size h)
  unfolding number
  size-push e h =
      let one = laws.push_lem e h (λ x. true) in
      let before = number-every (heap.contents h) in
      let after = number-every (heap.contents (heap.push e h)) in omega arith

  pub size-pop : (e : DistanceEntry) (h g : H) → heap.pop h ≡ some (e, g) → size h ≡ suc (size g)
  unfolding number
  size-pop e h g popped =
      let one = laws.pop_some_lem h g e (λ x. true) popped in
      let before = number-every (heap.contents h) in
      let after = number-every (heap.contents g) in omega arith

  pub push-Kept :
      (s : Str) (h : H) (seen : List Str)
      → ltb (size h) n ≡ true
      → Kept h seen
      → Kept (heap.push (entry_for hash comparison s) h) (s ∷ seen)
  unfolding number entry_for
  push-Kept s h seen room kept =
      let e = entry_for hash comparison s in
      let grown = size-push e h in
      let full = kept.full in
      record {
        near = λ d.
            let added = laws.push_lem e h (λ x. leb x.distance d) in
            let before = kept.near d in
            let few = number_le (λ t. leb (dist t) d) seen in ground arith;
        full = ground arith;
        sub = λ q.
            let added = laws.push_lem e h (λ x. q x.string) in
            let before = kept.sub q in ground arith;
        right =
            let added = laws.push_lem e h (λ x. not (x.distance == dist x.string)) in
            let before = kept.right in ground arith;
      }

  -- The entries within a distance of a heap whose first entry is known
  pub within-top :
      (top : DistanceEntry) (h g : H) (d : ℕ)
      → heap.pop h ≡ some (top, g)
      → leb top.distance d ≡ true
      → within d h ≡ size h
  within-top top h g d popped near =
      number-first top d (heap.contents h) (laws.pop_first_lem h g top popped) (ground arith)

  replaced-near :
      (s : Str) (top : DistanceEntry) (h g : H) (seen : List Str) (d : ℕ)
      → ltb (size h) n ≡ false
      → heap.pop h ≡ some (top, g)
      → ltb (dist s) top.distance ≡ true
      → Kept h seen
      → within d (heap.push (entry_for hash comparison s) g)
        ≡ least n (number (λ t. leb (dist t) d) (s ∷ seen))
  unfolding number entry_for
  replaced-near s top h g seen d no_room popped closer kept =
      let added = laws.push_lem (entry_for hash comparison s) g (λ x. leb x.distance d) in
      let removed = laws.pop_some_lem h g top (λ x. leb x.distance d) popped in
      let few = number_le (λ (x : DistanceEntry). leb x.distance d) (heap.contents g) in
      let shrunk = size-pop top h g popped in
      let before = kept.near d in
      let full = kept.full in
      elim (Bool-cases (leb top.distance d)) [
        | inl near ↦ let all = within-top top h g d popped near in ground arith
        | inr far ↦ ground arith
      ]

  pub replace-Kept :
      (s : Str) (top : DistanceEntry) (h g : H) (seen : List Str)
      → ltb (size h) n ≡ false
      → heap.pop h ≡ some (top, g)
      → ltb (dist s) top.distance ≡ true
      → Kept h seen
      → Kept (heap.push (entry_for hash comparison s) g) (s ∷ seen)
  unfolding number entry_for
  replace-Kept s top h g seen no_room popped closer kept =
      let e = entry_for hash comparison s in
      let grown = size-push e g in
      let shrunk = size-pop top h g popped in
      let full = kept.full in
      record {
        near = λ d. replaced-near s top h g seen d no_room popped closer kept;
        full = ground arith;
        sub = λ q.
            let added = laws.push_lem e g (λ x. q x.string) in
            let removed = laws.pop_some_lem h g top (λ x. q x.string) popped in
            let before = kept.sub q in ground arith;
        right =
            let added = laws.push_lem e g (λ x. not (x.distance == dist x.string)) in
            let removed =
              laws.pop_some_lem h g top (λ x. not (x.distance == dist x.string)) popped in
            let before = kept.right in ground arith;
      }

  pub skip-Kept :
      (s : Str) (top : DistanceEntry) (h g : H) (seen : List Str)
      → ltb (size h) n ≡ false
      → heap.pop h ≡ some (top, g)
      → ltb (dist s) top.distance ≡ false
      → Kept h seen
      → Kept h (s ∷ seen)
  unfolding number
  skip-Kept s top h g seen no_room popped farther kept =
      let full = kept.full in
      record {
        near = λ d.
            let before = kept.near d in
            elim (Bool-cases (leb top.distance d)) [
              | inl near ↦ let all = within-top top h g d popped near in ground arith
              | inr far ↦ ground arith
            ];
        full = ground arith;
        sub = λ q. let before = kept.sub q in ground arith;
        right = kept.right;
      }
