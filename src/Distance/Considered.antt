-- ===== src/Distance/Considered.antt =====
-- The heap after the loop over the strings.
use pastelup.Base.{
  ℕ, ◌<◌, Str, List, [], ◌∷◌, some, ◌≡◌, refl, ap, arith, if◌then◌else◌, ltb, elem, length,
  Option-cases, Bool-cases, inl, inr,
}
use pastelup.Distance.{
  DistanceEntry, Heap, IsHeap, compute_xor_distance, entry_for, replace_first, consider,
  consider_all,
}
use pastelup.Distance.Closest.{Kept, push-Kept, replace-Kept, skip-Kept}

module _ {H : Type 0} (heap : Heap H) (hash : Str → Str) (laws : IsHeap heap) (n : ℕ)
    (comparison : Str) where
  consider-Kept :
      (s : Str) (h : H) (seen : List Str)
      → 0 < n
      → Kept heap hash laws n comparison h seen
      → (g : H) × ((consider heap n (entry_for hash comparison s) h ≡ some g)
          × Kept heap hash laws n comparison g (s ∷ seen))
  unfolding consider replace_first entry_for
  consider-Kept s h seen wanted kept =
      let size_of = laws.len_lem h in
      elim (Bool-cases (ltb (heap.len h) n)) [
        | inl room ↦ (
          heap.push (entry_for hash comparison s) h,
          (rw room refl, push-Kept heap hash laws n comparison s h seen (ground arith) kept),
        )
        | inr no_room ↦ elim (Option-cases (heap.pop h)) [
          | inl nothing ↦
              let nobody = ap (length {A = DistanceEntry}) (laws.pop_none_lem h nothing) in
              absurd (ground arith)
          | inr ((top, g), popped) ↦
              elim (Bool-cases (ltb (compute_xor_distance hash s comparison) top.distance)) [
                | inl closer ↦ (
                  heap.push (entry_for hash comparison s) g,
                  (
                    rw (no_room, popped, closer) refl,
                    replace-Kept heap hash laws n comparison s top h g seen (ground arith) popped
                        closer kept,
                  ),
                )
                | inr farther ↦ (
                  h,
                  (
                    rw (no_room, popped, farther) refl,
                    skip-Kept heap hash laws n comparison s top h g seen (ground arith) popped
                        farther kept,
                  ),
                )
              ]
        ]
      ]

  -- The strings that are not ignored, in front of those that were seen
  unfoldable pub seen_after : List Str → List Str → List Str → List Str
  seen_after ignores [] seen = seen
  seen_after ignores (s ∷ rest) seen =
      let skipped = seen_after ignores rest seen in
      let taken = seen_after ignores rest (s ∷ seen) in if elem ignores s then skipped else taken

  pub consider_all-Kept :
      (ignores strings : List Str) (h : H) (seen : List Str)
      → 0 < n
      → Kept heap hash laws n comparison h seen
      → (g : H) × ((consider_all heap hash n comparison ignores strings h ≡ some g)
          × Kept heap hash laws n comparison g (seen_after ignores strings seen))
  unfolding consider_all seen_after
  consider_all-Kept ignores [] h seen wanted kept = (h, (refl, kept))
  consider_all-Kept ignores (s ∷ rest) h seen wanted kept = elim (Bool-cases (elem ignores s)) [
    | inl skip ↦ rw skip (consider_all-Kept ignores rest h seen wanted kept)
    | inr take ↦
        let (g, (done, now)) = consider-Kept s h seen wanted kept in
        rw (take, done) (consider_all-Kept ignores rest g (s ∷ seen) wanted now)
  ]
