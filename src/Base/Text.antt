-- ===== src/Base/Text.antt =====
-- Go strings as lists of bytes, and what the program uses of the package `strings`. The literals
-- of the program are ASCII, so the code points of a literal are its bytes.
use Prim.Native.Char.{code}
use Prim.Native.Nat.{ℕ, ◌+◌}
use Prim.Native.String.{String}
use mathlib.Core.Bool.{Bool, true, false, ◌&&◌, ◌||◌}
use mathlib.Core.List.{List, [], ◌∷◌, ◌++◌}
use mathlib.Core.Logic.{◌↔◌, ◌≢◌, inl, inr}
use mathlib.Core.Path.{◌≡◌, refl}
use native.Mathlib.Omega.{arith}
use pastelup.Base.Tests.{◌==◌, leb, if◌then◌else◌, Bool-cases}
use pastelup.Base.Lists.{length, drop}

abbrev pub Str : Type 0
Str = List ℕ

abbrev pub str : String → Str
str String.[] = []
str (String.◌∷◌ c s) = code c ∷ str s

-- `a == b` on strings.
unfoldable pub str_eq : Str → Str → Bool
str_eq [] [] = true
str_eq (x ∷ xs) (y ∷ ys) = x == y && str_eq xs ys
str_eq _ _ = false

pub str_eq_iff : (a b : Str) → (str_eq a b ≡ true) ↔ (a ≡ b)
unfolding str_eq
str_eq_iff (x ∷ xs) (y ∷ ys) = ground (arith, str_eq_iff xs ys)
str_eq_iff [] _ = ground arith
str_eq_iff _ _ = ground arith

-- `strings.HasPrefix(s, p)`
unfoldable pub has_prefix : Str → Str → Bool
has_prefix s [] = true
has_prefix [] (y ∷ p) = false
has_prefix (x ∷ s) (y ∷ p) = x == y && has_prefix s p

-- `strings.TrimPrefix(s, p)`
unfoldable pub trim_prefix : Str → Str → Str
unfolding has_prefix
trim_prefix s p = if has_prefix s p then drop (length p) s else s

-- `strings.Contains(s, p)`
unfoldable pub contains : Str → Str → Bool
unfolding has_prefix
contains [] p = has_prefix [] p
contains (x ∷ s) p = has_prefix (x ∷ s) p || contains s p

-- `len(s) == 0`
abbrev pub is_empty : Str → Bool
is_empty [] = true
is_empty (x ∷ s) = false

-- The space of `strings.TrimSpace` among the ASCII bytes.
abbrev pub is_space : ℕ → Bool
is_space c = c == 32 || (leb 9 c && leb c 13)

pub trim_left : Str → Str
trim_left [] = []
trim_left (c ∷ s) = if is_space c then trim_left s else c ∷ s

pub trim_right : Str → Str
trim_right [] = []
trim_right (c ∷ s) = let r = trim_right s in if is_empty r && is_space c then [] else c ∷ r

-- `strings.TrimSpace(s)`
unfoldable pub trim_space : Str → Str
unfolding trim_left trim_right
trim_space s = trim_right (trim_left s)

-- `strings.EqualFold(s, t)` on ASCII bytes.
abbrev pub to_lower : ℕ → ℕ
to_lower c = if leb b'A' c && leb c b'Z' then c + 32 else c

unfoldable pub equal_fold : Str → Str → Bool
equal_fold [] [] = true
equal_fold (x ∷ s) (y ∷ t) = to_lower x == to_lower y && equal_fold s t
equal_fold _ _ = false

-- Membership in a list of texts, by the program's own loops over `==`.
unfoldable pub elem : List Str → Str → Bool
unfolding str_eq
elem [] e = false
elem (a ∷ s) e = str_eq a e || elem s e

pub has_prefix-append : (p s : Str) → has_prefix (p ++ s) p ≡ true
unfolding has_prefix
has_prefix-append [] s = refl
has_prefix-append (x ∷ p) s = ground (arith, has_prefix-append p s)

pub drop-length-append : (p s : Str) → drop (length p) (p ++ s) ≡ s
drop-length-append [] s = refl
drop-length-append (x ∷ p) s = drop-length-append p s

pub trim_prefix-append : (p s : Str) → trim_prefix (p ++ s) p ≡ s
unfolding trim_prefix
trim_prefix-append p s = rw (has_prefix-append p s) (drop-length-append p s)

pub has_prefix_self : (s : Str) → has_prefix s s ≡ true
unfolding has_prefix
has_prefix_self [] = refl
has_prefix_self (c ∷ s) = ground (arith, has_prefix_self s)

pub has_prefix_longer : (p a b : Str) → has_prefix p (a ++ b) ≡ true → has_prefix p a ≡ true
unfolding has_prefix
has_prefix_longer p [] b h = ground arith
has_prefix_longer [] (x ∷ a) b h = cc
has_prefix_longer (y ∷ p) (x ∷ a) b h = ground (arith, has_prefix_longer p a b)

pub not_longer : (p a b : Str) → has_prefix p a ≡ false → has_prefix p (a ++ b) ≡ false
not_longer p a b h = elim (Bool-cases (has_prefix p (a ++ b))) [
  | inl out ↦ let shorter = has_prefix_longer p a b out in cc
  | inr out ↦ out
]

-- A text that does not begin with another is neither that one nor a longer one.
pub differs_longer : (p d tail : Str) → has_prefix p d ≡ false → p ≢ d ++ tail
differs_longer p d tail outside same =
    let longer = not_longer p d tail outside in let itself = has_prefix_self p in cc

pub differs_prefix : (p d : Str) → has_prefix p d ≡ false → p ≢ d
differs_prefix p d outside same = let itself = has_prefix_self p in cc
