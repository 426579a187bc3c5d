-- ===== src/Examples/Distances.antt =====
-- The closest strings on the sample heap, with texts for their own hashes.
use pastelup.Base.{ℕ, ◌≤◌, Str, str, Bool, List, [], ◌∷◌, some, ◌≡◌, refl, leb, arith}
use pastelup.Distance.{number, compute_xor_distance, closest_strings}
use pastelup.Distance.Closest.{least}
use pastelup.Distance.Popped.{Ascending}
use pastelup.Distance.Result.{considered, closest_strings_lem}
use pastelup.Distance.Sample.{sample_heap, pop_first, sample_heap-IsHeap}

abbrev own_text : Str → Str
own_text s = s

abbrev texts : List Str
texts = str "b" ∷ str "d" ∷ str "a" ∷ str "h" ∷ []

abbrev ignored : List Str
ignored = str "d" ∷ []

two_closest :
    closest_strings sample_heap own_text 2 (str "c") texts ignored ≡ some (str "b" ∷ str "a" ∷ [])
unfolding closest_strings sample_heap pop_first
two_closest = refl

closest_strings_lem_example :
    (r : List Str) × ((closest_strings sample_heap own_text 2 (str "c") texts ignored ≡ some r)
      × (Ascending (λ s. compute_xor_distance own_text s (str "c")) r
          × (((d : ℕ)
                → number (λ s. leb (compute_xor_distance own_text s (str "c")) d) r
                  ≡ least 2 (
                      number
                        (λ s. leb (compute_xor_distance own_text s (str "c")) d)
                        (considered ignored texts)))
              × ((q : Str → Bool) → number q r ≤ number q (considered ignored texts)))))
closest_strings_lem_example =
    closest_strings_lem sample_heap own_text sample_heap-IsHeap 2 (str "c") texts ignored
      (omega arith)
