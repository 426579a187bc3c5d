-- ===== src/Masternode/Address.antt =====
-- Addresses `ip:port`: how cmd/init.go puts them together and takes them apart.
use mathlib.Core.List.{append-nil, append_assoc}
use pastelup.Base.{
  ℕ, Str, false, List, [], ◌∷◌, ◌++◌, ◌==◌, if◌then◌else◌, ◌≡◌, arith, All, AllDigits, decimal,
  decimal-AllDigits, ap, ◌∙◌,
}

-- `strings.Split(s, sep)` for a separator of one byte. `token` is the part read so far.
unfoldable pub split_from : ℕ → Str → Str → List Str
split_from sep token [] = token ∷ []
split_from sep token (c ∷ s) =
    let later = split_from sep (token ++ c ∷ []) s in
    let fresh = token ∷ split_from sep [] s in if c == sep then fresh else later

unfoldable pub split_on : ℕ → Str → List Str
unfolding split_from
split_on sep = split_from sep []

-- `ip + ":" + fmt.Sprintf("%d", port)`
unfoldable pub endpoint : Str → ℕ → Str
endpoint ip port = ip ++ (b':' ∷ decimal port)

abbrev pub NoColon : Str → Type 0
NoColon = All (λ c. (c == b':') ≡ false)

AllDigits-NoColon : (s : Str) → AllDigits s → NoColon s
AllDigits-NoColon [] h = tt
AllDigits-NoColon (c ∷ s) h = (ground (arith, h.0), AllDigits-NoColon s h.1)

-- A text with no colon is one token.
split_from_last : (token s : Str) → NoColon s → split_from b':' token s ≡ (token ++ s) ∷ []
unfolding split_from
split_from_last token [] h = rw append-nil
split_from_last token (c ∷ s) h =
    rw (h.0) (split_from_last (token ++ c ∷ []) s h.1 ∙ rw append_assoc)

split_from_colon :
    (token a s : Str)
    → NoColon a
    → split_from b':' token (a ++ (b':' ∷ s)) ≡ (token ++ a) ∷ split_on b':' s
unfolding split_on split_from
split_from_colon token [] s h = rw append-nil
split_from_colon token (c ∷ a) s h =
    rw (h.0) (split_from_colon (token ++ c ∷ []) a s h.1 ∙ rw append_assoc)

-- An address is taken apart into what it was put together from.
pub split_on-endpoint :
    (ip : Str) (port : ℕ) → NoColon ip → split_on b':' (endpoint ip port) ≡ ip ∷ decimal port ∷ []
unfolding split_on endpoint
split_on-endpoint ip port h =
    split_from_colon [] ip (decimal port) h
    ∙ ap (◌∷◌ ip) (
        split_from_last [] (decimal port)
          (AllDigits-NoColon (decimal port) (decimal-AllDigits port)))
