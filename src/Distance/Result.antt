-- ===== src/Distance/Result.antt =====
-- The closest strings against a description by distances alone.
use pastelup.Base.{
  ℕ, ◌+◌, ◌<◌, ◌≤◌, ◌==◌, Str, Bool, not, List, [], ◌∷◌, some, ◌≡◌, refl, sym, ◌∙◌, ap, arith,
  if◌then◌else◌, leb, length, elem, Bool-cases, inl, inr,
}
use pastelup.Distance.{DistanceEntry, Heap, IsHeap, number, compute_xor_distance, closest_strings}
use pastelup.Distance.Closest.{least, Kept, number-agree}
use pastelup.Distance.Considered.{seen_after, consider_all-Kept}
use pastelup.Distance.Popped.{Ascending, Bounds, pop_all_lem}

-- The strings that are not ignored
unfoldable pub considered : List Str → List Str → List Str
considered ignores [] = []
considered ignores (s ∷ rest) =
    let later = considered ignores rest in if elem ignores s then later else s ∷ later

chain :
    (n result by_text by_entry seen all : ℕ)
    → result ≡ by_text + 0
    → by_entry ≡ by_text
    → by_entry ≡ least n seen
    → seen ≡ all + 0
    → result ≡ least n all
chain n result by_text by_entry seen all popped agree near counted = ground arith

module _ {H : Type 0} (heap : Heap H) (hash : Str → Str) (laws : IsHeap heap) (n : ℕ)
    (comparison : Str) where
  number-seen_after :
      (p : Str → Bool) (ignores strings seen : List Str)
      → number p (seen_after heap hash laws n comparison ignores strings seen)
        ≡ number p (considered ignores strings) + number p seen
  unfolding seen_after considered number
  number-seen_after p ignores [] seen = omega arith
  number-seen_after p ignores (s ∷ rest) seen =
      let skipped = number-seen_after p ignores rest seen in
      let taken = number-seen_after p ignores rest (s ∷ seen) in
      elim (Bool-cases (elem ignores s)) [
        | inl skip ↦ rw skip skipped
        | inr take ↦ rw take (taken ∙ ground arith)
      ]

  number-empty : (p : DistanceEntry → Bool) → number p (heap.contents heap.empty) ≡ 0
  unfolding number
  number-empty p = rw laws.empty_lem refl

  empty-Kept : Kept heap hash laws n comparison heap.empty []
  unfolding number
  empty-Kept =
      let size = ap (length {A = DistanceEntry}) laws.empty_lem in
      record {
        near = λ d. let none_near = number-empty (λ e. leb e.distance d) in ground arith;
        full = ground arith;
        sub = λ q. let nobody = number-empty (λ e. q e.string) in omega (arith, nobody);
        right =
            number-empty (λ e. not (e.distance == compute_xor_distance hash e.string comparison));
      }

  -- The entries within a distance, by the distance that they store and by that of their text
  near-agree :
      (h : H) (seen : List Str) (d : ℕ)
      → Kept heap hash laws n comparison h seen
      → number (λ (e : DistanceEntry). leb e.distance d) (heap.contents h)
        ≡ number
            (λ (e : DistanceEntry). leb (compute_xor_distance hash e.string comparison) d)
            (heap.contents h)
  near-agree h seen d kept =
      number-agree (λ (e : DistanceEntry). leb e.distance d)
        (λ (e : DistanceEntry). leb (compute_xor_distance hash e.string comparison) d)
        (λ (e : DistanceEntry). not (e.distance == compute_xor_distance hash e.string comparison))
        (heap.contents h) (λ e agrees. ground arith) kept.right

  -- With a positive n the function returns. Its result has ascending distances; within each distance
  -- it has as many strings as there are strings that are not ignored, up to n; and it has no string
  -- more often than they do.
  pub closest_strings_lem :
      (strings ignores : List Str)
      → 0 < n
      → (r : List Str) × ((closest_strings heap hash n comparison strings ignores ≡ some r)
          × (Ascending (λ s. compute_xor_distance hash s comparison) r
              × (((d : ℕ)
                    → number (λ s. leb (compute_xor_distance hash s comparison) d) r
                      ≡ least n (
                          number
                            (λ s. leb (compute_xor_distance hash s comparison) d)
                            (considered ignores strings)))
                  × ((q : Str → Bool) → number q r ≤ number q (considered ignores strings)))))
  unfolding closest_strings number Ascending Bounds
  closest_strings_lem strings ignores wanted =
      let (h, (ended, kept)) =
        consider_all-Kept heap hash laws n comparison ignores strings heap.empty [] wanted
          empty-Kept in
      let (r, (done, (up, same))) =
        pop_all_lem heap hash laws comparison (heap.len h) h [] (sym (laws.len_lem h)) kept.right tt
          tt in
      (
        r,
        (
          rw (closest_strings, ended) done,
          (
            up,
            (
              (λ d.
                  let test = λ (s : Str). leb (compute_xor_distance hash s comparison) d in
                  let popped = same test in
                  let near = kept.near d in
                  let agree = near-agree h _ d kept in
                  let seen = number-seen_after test ignores strings [] in
                  chain n _ _ _ _ _ popped agree near seen),
              (λ q.
                  let popped = same q in
                  let sub = kept.sub q in
                  let seen = number-seen_after q ignores strings [] in
                  omega (arith, popped, sub, seen)),
            ),
          ),
        ),
      )
