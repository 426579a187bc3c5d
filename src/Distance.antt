-- ===== src/Distance.antt =====
-- common/utils/utils.go and common/utils/heap.go: the strings that are closest to a string by XOR
-- distance. `hash` is `GetHashFromString`, which is a library's SHA-3, and `Heap` is the package
-- `container/heap` on the type `MaxHeap`.
pub mod Closest
pub mod Considered
pub mod Popped
pub mod Result
pub mod Sample
use pastelup.Base.{
  ℕ, zero, suc, ◌+◌, ◌*◌, ◌/◌, ◌%◌, ◌==◌, Str, Bool, true, false, List, [], ◌∷◌, Option, none, some,
  Error, errorf, ◌⊎◌, inl, inr, if◌then◌else◌, ltb, elem, length, ◌≡◌, All,
}

pub record DistanceEntry : Type 0 where
  pub distance : ℕ
  pub string : Str

-- `Less`: the larger distance comes first.
abbrev pub less : DistanceEntry → DistanceEntry → Bool
less e f = ltb f.distance e.distance

-- The heap: the entry that `Pop` removes is the first of the slice. `contents` are its entries in
-- some order.
pub record Heap (H : Type 0) : Type 0 where
  pub empty : H
  pub len : H → ℕ
  pub push : DistanceEntry → H → H
  pub pop : H → Option (DistanceEntry × H)
  pub contents : H → List DistanceEntry

-- How many elements pass a test.
unfoldable pub number : {A : Type 0} → (A → Bool) → List A → ℕ
number p [] = 0
number p (x ∷ xs) = (if p x then 1 else 0) + number p xs

-- What `container/heap` promises: `Push` adds an entry, and `Pop` removes one that no other entry
-- is less than, if there is one.
pub record IsHeap {H : Type 0} (heap : Heap H) : Type 0 where
  pub empty_lem : heap.contents heap.empty ≡ []
  pub len_lem : (h : H) → heap.len h ≡ length (heap.contents h)
  pub push_lem :
      (e : DistanceEntry) (h : H) (p : DistanceEntry → Bool)
      → number p (heap.contents (heap.push e h)) ≡ number p (e ∷ heap.contents h)
  pub pop_none_lem : (h : H) → heap.pop h ≡ none → heap.contents h ≡ []
  pub pop_some_lem :
      (h g : H) (e : DistanceEntry) (p : DistanceEntry → Bool)
      → heap.pop h ≡ some (e, g)
      → number p (heap.contents h) ≡ number p (e ∷ heap.contents g)
  pub pop_first_lem :
      (h g : H) (e : DistanceEntry)
      → heap.pop h ≡ some (e, g)
      → All (λ x. less x e ≡ false) (heap.contents h)

-- `a[i] ^ b[i]` on this many bits
unfoldable pub xor_bits : ℕ → ℕ → ℕ → ℕ
xor_bits zero a b = 0
xor_bits (suc k) a b = (a % 2 + b % 2) % 2 + 2 * xor_bits k (a / 2) (b / 2)

-- The loop of `XORBytes`
unfoldable pub xor_each : Str → Str → Str
unfolding xor_bits
xor_each [] b = []
xor_each (x ∷ a) [] = []
xor_each (x ∷ a) (y ∷ b) = xor_bits 8 x y ∷ xor_each a b

-- `XORBytes`
unfoldable pub xor_bytes : Str → Str → Error ⊎ Str
unfolding xor_each
xor_bytes a b =
    if length a == length b
    then inr (xor_each a b)
    else inl (errorf "length of byte slices is not equivalent")

-- `SetBytes` of the package `math/big`: the bytes are the digits of the number.
unfoldable pub set_bytes : ℕ → Str → ℕ
set_bytes z [] = z
set_bytes z (c ∷ s) = set_bytes (z * 256 + c) s

module _ (hash : Str → Str) where
  -- `ComputeXorDistanceBetweenTwoStrings`: without bytes the distance is 0.
  unfoldable pub compute_xor_distance : Str → Str → ℕ
  unfolding xor_bytes set_bytes
  compute_xor_distance a b = elim (xor_bytes (hash a) (hash b)) [
    | inl e ↦ 0
    | inr bytes ↦ set_bytes 0 bytes
  ]

  unfoldable pub entry_for : Str → Str → DistanceEntry
  unfolding compute_xor_distance
  entry_for comparison current = record {
    distance = compute_xor_distance current comparison;
    string = current;
  }

module _ {H : Type 0} (heap : Heap H) where
  -- An entry is put in the place of the first one if it is closer. Without a first one the index is
  -- out of range: none.
  unfoldable pub replace_first : DistanceEntry → H → Option (DistanceEntry × H) → Option H
  replace_first e h none = none
  replace_first e h (some (top, g)) =
      some (if ltb e.distance top.distance then heap.push e g else h)

  unfoldable pub consider : ℕ → DistanceEntry → H → Option H
  unfolding replace_first
  consider n e h =
      if ltb (heap.len h) n then some (heap.push e h) else replace_first e h (heap.pop h)

  -- The loop that fills the result from its end; `Pop` of an empty heap is an index out of range.
  unfoldable pub pop_all : ℕ → H → List Str → Option (List Str)
  pop_all zero h result = some result
  pop_all (suc i) h result = elim (heap.pop h) [
    | none ↦ none
    | some (e, g) ↦ pop_all i g (e.string ∷ result)
  ]

module _ {H : Type 0} (heap : Heap H) (hash : Str → Str) where
  -- The loop over the strings
  unfoldable pub consider_all : ℕ → Str → List Str → List Str → H → Option H
  unfolding consider entry_for elem
  consider_all n comparison ignores [] h = some h
  consider_all n comparison ignores (s ∷ rest) h =
      let skipped = consider_all n comparison ignores rest h in
      let taken : Option H = elim (consider heap n (entry_for hash comparison s) h) [
        | none ↦ none
        | some g ↦ consider_all n comparison ignores rest g
      ] in
      if elem ignores s then skipped else taken

  -- `GetNClosestXORDistanceStringToAGivenComparisonString`; none is a panic. A negative number of
  -- strings is as 0.
  unfoldable pub closest_strings : ℕ → Str → List Str → List Str → Option (List Str)
  unfolding consider_all pop_all
  closest_strings n comparison strings ignores =
      elim (consider_all n comparison ignores strings heap.empty) [
        | none ↦ none
        | some h ↦ pop_all heap (heap.len h) h []
      ]
