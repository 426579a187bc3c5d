-- ===== src/Distance/Popped.antt =====
-- The result that is filled from the heap: its order and its elements.
use pastelup.Base.{
  ℕ, zero, suc, ◌+◌, ◌≤◌, ◌==◌, Str, Bool, not, List, [], ◌∷◌, some, ◌≡◌, refl, ap, arith, leb,
  length, Option-cases, inl, inr,
}
use pastelup.Distance.{DistanceEntry, Heap, IsHeap, number, compute_xor_distance, pop_all}
use pastelup.Distance.Closest.{number_le, size-pop, within-top}

-- Each text is at least as far as the one before it.
unfoldable pub Ascending : (Str → ℕ) → List Str → Type 0
Ascending dist [] = Unit
Ascending dist (a ∷ []) = Unit
Ascending dist (a ∷ b ∷ rest) = (dist a ≤ dist b) × Ascending dist (b ∷ rest)

module _ {H : Type 0} (heap : Heap H) (hash : Str → Str) (laws : IsHeap heap)
    (comparison : Str) where
  abbrev pub dist : Str → ℕ
  dist s = compute_xor_distance hash s comparison

  -- Every entry of the heap is within the distance of the first text.
  unfoldable pub Bounds : List Str → H → Type 0
  Bounds [] h = Unit
  Bounds (s ∷ rest) h =
      number (λ (e : DistanceEntry). leb e.distance (dist s)) (heap.contents h)
      ≡ length (heap.contents h)

  abbrev pub wrong : DistanceEntry → Bool
  wrong e = not (e.distance == dist e.string)

  -- The next text is not farther than the first one.
  next-Ascending :
      (e : DistanceEntry) (h g : H) (result : List Str)
      → heap.pop h ≡ some (e, g)
      → number wrong (heap.contents h) ≡ 0
      → Bounds result h
      → Ascending dist result
      → Ascending dist (e.string ∷ result)
  unfolding Ascending Bounds number
  next-Ascending e h g [] popped right bounds sorted = tt
  next-Ascending e h g (s ∷ rest) popped right bounds sorted =
      let removed = laws.pop_some_lem h g e (λ x. leb x.distance (dist s)) popped in
      let no_wrong = laws.pop_some_lem h g e wrong popped in
      let few = number_le (λ (x : DistanceEntry). leb x.distance (dist s)) (heap.contents g) in
      let shrunk = size-pop heap hash laws 0 comparison e h g popped in (ground arith, sorted)

  next-Bounds :
      (e : DistanceEntry) (h g : H) (result : List Str)
      → heap.pop h ≡ some (e, g)
      → number wrong (heap.contents h) ≡ 0
      → Bounds (e.string ∷ result) g
  unfolding Bounds number
  next-Bounds e h g result popped right =
      let no_wrong = laws.pop_some_lem h g e wrong popped in
      let removed = laws.pop_some_lem h g e (λ x. leb x.distance (dist e.string)) popped in
      let few =
        number_le (λ (x : DistanceEntry). leb x.distance (dist e.string)) (heap.contents g) in
      let shrunk = size-pop heap hash laws 0 comparison e h g popped in
      let all =
        within-top heap hash laws 0 comparison e h g (dist e.string) popped (ground arith) in
      ground arith

  pub pop_all_lem :
      (i : ℕ) (h : H) (result : List Str)
      → length (heap.contents h) ≡ i
      → number wrong (heap.contents h) ≡ 0
      → Bounds result h
      → Ascending dist result
      → (r : List Str) × ((pop_all heap i h result ≡ some r)
          × (Ascending dist r
              × ((q : Str → Bool)
                  → number q r
                    ≡ number (λ (e : DistanceEntry). q e.string) (heap.contents h)
                      + number q result)))
  unfolding pop_all number
  pop_all_lem zero h result size right bounds sorted = (
    result,
    (
      refl,
      (
        sorted,
        λ q.
            let none_left = number_le (λ (e : DistanceEntry). q e.string) (heap.contents h) in
            omega (arith, none_left),
      ),
    ),
  )
  pop_all_lem (suc i) h result size right bounds sorted = elim (Option-cases (heap.pop h)) [
    | inl nothing ↦
        let nobody = ap (length {A = DistanceEntry}) (laws.pop_none_lem h nothing) in
        absurd (ground arith)
    | inr ((e, g), popped) ↦
        let shrunk = size-pop heap hash laws 0 comparison e h g popped in
        let no_wrong = laws.pop_some_lem h g e wrong popped in
        let (r, (done, (up, same))) =
          pop_all_lem i g (e.string ∷ result) (omega arith) (ground arith)
            (next-Bounds e h g result popped right)
            (next-Ascending e h g result popped right bounds sorted) in
        (
          r,
          (
            rw (pop_all, popped) done,
            (
              up,
              λ q.
                  let removed = laws.pop_some_lem h g e (λ x. q x.string) popped in
                  let later = same q in ground arith,
            ),
          ),
        )
  ]
