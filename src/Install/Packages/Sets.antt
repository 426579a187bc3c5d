-- ===== src/Install/Packages/Sets.antt =====
-- The packages to install and to update as sets.
use pastelup.Base.{
  Str, Bool, true, false, not, ◌&&◌, List, [], ◌∷◌, elem, str_eq, str_eq_iff, if◌then◌else◌, ◌≡◌,
  refl, ap, arith,
}
use pastelup.Constants.{OsType, ToolType}
use pastelup.Install.Packages.{packages_of, without_repetitions, installed_or_not}

-- No element occurs again.
abbrev pub NoRepeats : List Str → Type 0
NoRepeats [] = Unit
NoRepeats (x ∷ xs) = (elem xs x ≡ false) × NoRepeats xs

-- Membership is a function of the text.
elem-str_eq : (xs : List Str) (a p : Str) → str_eq a p ≡ true → elem xs a ≡ elem xs p
elem-str_eq xs a p same = ap (elem xs) ((str_eq_iff a p).0 same)

elem-without_repetitions :
    (seen l : List Str) (p : Str)
    → elem (without_repetitions seen l) p ≡ (elem l p && not (elem seen p))
unfolding elem without_repetitions
elem-without_repetitions seen [] p = refl
elem-without_repetitions seen (a ∷ l) p =
    let skipped = elem-without_repetitions seen l p in
    let kept = elem-without_repetitions (a ∷ seen) l p in
    let same = elem-str_eq seen a p in ground arith

-- What is kept does not come again.
kept_once :
    (seen : List Str) (a : Str) (l : List Str) → elem (without_repetitions (a ∷ seen) l) a ≡ false
unfolding elem
kept_once seen a l =
    let itself = (str_eq_iff a a).1 refl in
    let members = elem-without_repetitions (a ∷ seen) l a in ground arith

add-NoRepeats :
    (b : Bool) (a : Str) (skipped kept : List Str)
    → NoRepeats skipped
    → NoRepeats kept
    → elem kept a ≡ false
    → NoRepeats (if b then skipped else a ∷ kept)
add-NoRepeats true a skipped kept skip keep fresh = skip
add-NoRepeats false a skipped kept skip keep fresh = (fresh, keep)

without_repetitions-NoRepeats : (seen l : List Str) → NoRepeats (without_repetitions seen l)
unfolding without_repetitions
without_repetitions-NoRepeats seen [] = tt
without_repetitions-NoRepeats seen (a ∷ l) =
    add-NoRepeats (elem seen a) a (without_repetitions seen l) (without_repetitions (a ∷ seen) l)
      (without_repetitions-NoRepeats seen l) (without_repetitions-NoRepeats (a ∷ seen) l)
      (kept_once seen a l)

-- Membership in the packages that are installed, or that are not
elem-installed_or_not :
    (wanted : Bool) (installed l : List Str) (p : Str)
    → elem (installed_or_not wanted installed l) p
      ≡ (elem l p && (if wanted then elem installed p else not (elem installed p)))
unfolding elem installed_or_not
elem-installed_or_not wanted installed [] p = refl
elem-installed_or_not wanted installed (a ∷ l) p =
    let later = elem-installed_or_not wanted installed l p in
    let same = elem-str_eq installed a p in ground arith

-- What is chosen or left out of the rest has no repetition either.
choose-NoRepeats :
    (b : Bool) (a : Str) (later : List Str)
    → NoRepeats later
    → elem later a ≡ false
    → NoRepeats (if b then a ∷ later else later)
choose-NoRepeats true a later once fresh = (fresh, once)
choose-NoRepeats false a later once fresh = once

absent :
    (wanted : Bool) (installed l : List Str) (a : Str)
    → elem l a ≡ false
    → elem (installed_or_not wanted installed l) a ≡ false
absent wanted installed l a missing =
    let chosen = elem-installed_or_not wanted installed l a in ground arith

installed_or_not-NoRepeats :
    (wanted : Bool) (installed l : List Str)
    → NoRepeats l
    → NoRepeats (installed_or_not wanted installed l)
unfolding installed_or_not
installed_or_not-NoRepeats wanted installed [] once = tt
installed_or_not-NoRepeats wanted installed (a ∷ l) (fresh, once) =
    choose-NoRepeats (if wanted then elem installed a else not (elem installed a)) a
      (installed_or_not wanted installed l) (installed_or_not-NoRepeats wanted installed l once)
      (absent wanted installed l a fresh)

-- The lists that `checkInstalledPackages` works with, of the packages to update (`wanted`) or to
-- install: a package is in the list just if a tool needs it on the system and it is, or is not,
-- installed; and no package comes twice.
pub installed_or_not-packages_of :
    (wanted : Bool) (installed : List Str) (os : OsType) (tools : List ToolType)
    → ((p : Str)
        → elem (installed_or_not wanted installed (without_repetitions [] (packages_of os tools))) p
          ≡ (elem (packages_of os tools) p
              && (if wanted then elem installed p else not (elem installed p))))
      × NoRepeats
          (installed_or_not wanted installed (without_repetitions [] (packages_of os tools)))
unfolding elem
installed_or_not-packages_of wanted installed os tools =
    let required = packages_of os tools in
    let same : (p : Str)
        → elem (installed_or_not wanted installed (without_repetitions [] required)) p
          ≡ (elem required p && (if wanted then elem installed p else not (elem installed p))) =
      λ p.
        let chosen = elem-installed_or_not wanted installed (without_repetitions [] required) p in
        let kept = elem-without_repetitions [] required p in ground arith in
    (
      same,
      installed_or_not-NoRepeats wanted installed (without_repetitions [] required)
          (without_repetitions-NoRepeats [] required),
    )
