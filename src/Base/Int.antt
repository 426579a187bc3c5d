-- ===== src/Base/Int.antt =====
-- Go's `int`, and the two conversions of `strconv` between it and decimal text.
use Prim.Native.Nat.{ℕ, zero, suc, ◌+◌, ◌-◌, ◌*◌, ◌/◌, ◌%◌, ◌^◌, ◌<◌, min}
use mathlib.Core.Bool.{Bool, true, false, ◌&&◌}
use mathlib.Core.List.{[], ◌∷◌, ◌++◌}
use mathlib.Core.Path.{◌≡◌, refl, ◌∙◌}
use mathlib.Core.Logic.{inl, inr}
use native.Mathlib.Omega.{arith}
use pastelup.Base.Tests.{◌==◌, leb, ltb, if◌then◌else◌, Bool-cases}
use pastelup.Base.Lists.{All, All-append}
use pastelup.Base.Text.{Str}

-- `negsuc n` is -(n + 1).
pub data ℤ : Type 0 where
  pos : ℕ → ℤ
  negsuc : ℕ → ℤ

-- `%d` of a number that is not negative; a number has fewer digits than its value plus one.
unfoldable pub digits : ℕ → ℕ → Str
digits zero n = []
digits (suc fuel) n =
    let more = digits fuel (n / 10) in
    let last = (b'0' + n % 10) ∷ [] in if ltb n 10 then last else more ++ last

unfoldable pub decimal : ℕ → Str
unfolding digits
decimal n = digits (suc n) n

-- `strconv.Itoa`
unfoldable pub itoa : ℤ → Str
unfolding decimal
itoa (pos n) = decimal n
itoa (negsuc n) = b'-' ∷ decimal (suc n)

abbrev pub is_digit : ℕ → Bool
is_digit c = leb b'0' c && leb c b'9'

unfoldable pub all_digits : Str → Bool
all_digits [] = true
all_digits (c ∷ s) = is_digit c && all_digits s

unfoldable pub value_from : ℕ → Str → ℕ
value_from acc [] = acc
value_from acc (c ∷ s) = value_from (acc * 10 + (c - b'0')) s

-- The value and no error, or 0 at a text that is no number. A number out of the range of `int` is
-- cut to the end of the range.
unfoldable pub unsigned : Bool → Str → ℤ
unfolding all_digits value_from
unsigned negative [] = pos 0
unsigned negative (c ∷ s) =
    if all_digits (c ∷ s)
    then (let n = value_from 0 (c ∷ s) in
        if negative
        then (if n == 0 then pos 0 else negsuc (min n (2 ^ 63) - 1))
        else pos (min n (2 ^ 63 - 1)))
    else pos 0

-- The first value of `strconv.Atoi`
unfoldable pub atoi : Str → ℤ
unfolding unsigned
atoi [] = pos 0
atoi (c ∷ s) =
    if c == b'-'
    then unsigned true s
    else if c == b'+'
    then unsigned false s
    else unsigned false (c ∷ s)

-- A decimal text is not empty and has digits alone.
abbrev pub AllDigits : Str → Type 0
AllDigits = All (λ c. is_digit c ≡ true)

digits-AllDigits : (fuel n : ℕ) → AllDigits (digits fuel n)
unfolding digits
digits-AllDigits zero n = tt
digits-AllDigits (suc fuel) n =
    let last : AllDigits ((b'0' + n % 10) ∷ []) = (ground arith, tt) in
    elim (Bool-cases (ltb n 10)) [
      | inl small ↦ rw small last
      | inr large ↦ rw large (All-append _ _ _ (digits-AllDigits fuel (n / 10)) last)
    ]

pub decimal-AllDigits : (n : ℕ) → AllDigits (decimal n)
unfolding decimal
decimal-AllDigits n = digits-AllDigits (suc n) n

value_from-append :
    (acc : ℕ) (s : Str) (d : ℕ) → value_from acc (s ++ (b'0' + d) ∷ []) ≡ value_from acc s * 10 + d
unfolding value_from
value_from-append acc [] d = omega arith
value_from-append acc (c ∷ s) d = value_from-append (acc * 10 + (c - b'0')) s d

value_from-digits : (fuel n : ℕ) → n < fuel → value_from 0 (digits fuel n) ≡ n
unfolding digits value_from
value_from-digits zero n h = absurd (omega arith)
value_from-digits (suc fuel) n h = elim (Bool-cases (ltb n 10)) [
  | inl small ↦ rw small (ground arith)
  | inr large ↦ rw large (
      value_from-append 0 (digits fuel (n / 10)) (n % 10)
      ∙ ground (arith, value_from-digits fuel (n / 10)))
]

all_digits_lem : (s : Str) → AllDigits s → all_digits s ≡ true
unfolding all_digits
all_digits_lem [] h = refl
all_digits_lem (c ∷ s) h = rw (h.0) (all_digits_lem s h.1)

atoi-AllDigits : (s : Str) (n : ℕ) → AllDigits s → value_from 0 s ≡ n → n < 2 ^ 63 → atoi s ≡ pos n
unfolding atoi unsigned value_from
atoi-AllDigits [] n h v b = ground arith
atoi-AllDigits (c ∷ s) n h v b = ground (arith, all_digits_lem (c ∷ s) h)

-- The text of a number in the range of `int` reads back as the number.
pub atoi-decimal : (n : ℕ) → n < 2 ^ 63 → atoi (decimal n) ≡ pos n
unfolding decimal
atoi-decimal n h =
    atoi-AllDigits (digits (suc n) n) n (digits-AllDigits (suc n) n)
      (value_from-digits (suc n) n (omega arith)) h
