-- ===== src/Archive/Retention.antt =====
-- Which archives an update removes.
use mathlib.Core.List.{Perm}
use mathlib.Core.List.Perm
use pastelup.Base.{
  ℕ, zero, suc, ◌-◌, ◌≤◌, ◌<◌, ltb, List, [], ◌∷◌, ◌++◌, ◌≡◌, inl, inr, refl, ap, ◌∙◌, arith,
  Bool-cases, All, take, drop, length, length-drop,
}
use pastelup.Host.{DirEntry}
use pastelup.Archive.{archive_retention, insert_by_time, sort_by_time, archives_to_delete}

abbrev pub Before : ℕ → List DirEntry → Type 0
Before t = All (λ (e : DirEntry). t ≤ e.mod_time)

abbrev pub Sorted : List DirEntry → Type 0
Sorted [] = Unit
Sorted (e ∷ rest) = Before e.mod_time rest × Sorted rest

Before-trans : (s t : ℕ) (es : List DirEntry) → s ≤ t → Before t es → Before s es
Before-trans s t [] h hs = tt
Before-trans s t (e ∷ es) h hs = (ground (arith, hs.0), Before-trans s t es h hs.1)

insert_by_time-Before :
    (t : ℕ) (e : DirEntry) (es : List DirEntry)
    → t ≤ e.mod_time
    → Before t es
    → Before t (insert_by_time e es)
unfolding insert_by_time
insert_by_time-Before t e [] h hs = (h, tt)
insert_by_time-Before t e (f ∷ es) h hs = elim (Bool-cases (ltb f.mod_time e.mod_time)) [
  | inl later ↦ rw later (hs.0, insert_by_time-Before t e es h hs.1)
  | inr here ↦ rw here (h, hs)
]

insert_by_time-Sorted :
    (e : DirEntry) (es : List DirEntry) → Sorted es → Sorted (insert_by_time e es)
unfolding insert_by_time
insert_by_time-Sorted e [] h = (tt, tt)
insert_by_time-Sorted e (f ∷ es) h = elim (Bool-cases (ltb f.mod_time e.mod_time)) [
  | inl later ↦
      rw later
        (insert_by_time-Before f.mod_time e es (ground arith) h.0, insert_by_time-Sorted e es h.1)
  | inr here ↦
      let le : e.mod_time ≤ f.mod_time = ground arith in
      rw here ((le, Before-trans e.mod_time f.mod_time es le h.0), h)
]

sort_by_time-Sorted : (es : List DirEntry) → Sorted (sort_by_time es)
unfolding sort_by_time
sort_by_time-Sorted [] = tt
sort_by_time-Sorted (e ∷ es) = insert_by_time-Sorted e (sort_by_time es) (sort_by_time-Sorted es)

insert_by_time-Perm : (e : DirEntry) (es : List DirEntry) → Perm (insert_by_time e es) (e ∷ es)
unfolding insert_by_time
insert_by_time-Perm e [] = Perm.refl (e ∷ [])
insert_by_time-Perm e (f ∷ es) = elim (Bool-cases (ltb f.mod_time e.mod_time)) [
  | inl later ↦ rw later (Perm.trans (Perm.cons f (insert_by_time-Perm e es)) (Perm.swap e f es))
  | inr here ↦ rw here (Perm.refl (e ∷ f ∷ es))
]

sort_by_time-Perm : (es : List DirEntry) → Perm (sort_by_time es) es
unfolding sort_by_time
sort_by_time-Perm [] = Perm.refl []
sort_by_time-Perm (e ∷ es) =
    Perm.trans (insert_by_time-Perm e (sort_by_time es)) (Perm.cons e (sort_by_time-Perm es))

insert_by_time-length :
    (e : DirEntry) (es : List DirEntry) → length (insert_by_time e es) ≡ suc (length es)
unfolding insert_by_time
insert_by_time-length e [] = refl
insert_by_time-length e (f ∷ es) = ground (arith, insert_by_time-length e es)

sort_by_time-length : (es : List DirEntry) → length (sort_by_time es) ≡ length es
unfolding sort_by_time
sort_by_time-length [] = refl
sort_by_time-length (e ∷ es) =
    insert_by_time-length e (sort_by_time es) ∙ ap suc (sort_by_time-length es)

take-drop : (n : ℕ) (es : List DirEntry) → take n es ++ drop n es ≡ es
take-drop zero es = refl
take-drop (suc n) [] = refl
take-drop (suc n) (e ∷ es) = ap (◌∷◌ e) (take-drop n es)

-- No entry of the first list is newer than one of the second.
abbrev pub NoNewer : List DirEntry → List DirEntry → Type 0
NoNewer old kept = All (λ (e : DirEntry). Before e.mod_time kept) old

drop-Before : (n t : ℕ) (es : List DirEntry) → Before t es → Before t (drop n es)
drop-Before zero t es h = h
drop-Before (suc n) t [] h = tt
drop-Before (suc n) t (e ∷ es) h = drop-Before n t es h.1

take-NoNewer : (n : ℕ) (es : List DirEntry) → Sorted es → NoNewer (take n es) (drop n es)
take-NoNewer zero es h = tt
take-NoNewer (suc n) [] h = tt
take-NoNewer (suc n) (e ∷ es) h = (drop-Before n e.mod_time es h.0, take-NoNewer n es h.1)

-- The archives are the removed ones and three others at most: none is removed if there are three or
-- fewer, three are left if there are more, and no removed one is newer than one that is left.
pub archives_to_delete_lem :
    (archives : List DirEntry)
    → (kept : List DirEntry) × Perm (archives_to_delete archives ++ kept) archives
      × NoNewer (archives_to_delete archives) kept
      × (length archives ≤ archive_retention → archives_to_delete archives ≡ [])
      × (archive_retention < length archives → length kept ≡ archive_retention)
unfolding archives_to_delete
archives_to_delete_lem archives =
    let n = length archives - archive_retention in
    let sorted = sort_by_time archives in
    elim (Bool-cases (ltb archive_retention (length archives))) [
      | inr few ↦ (
        archives,
        rw few (Perm.refl archives),
        rw few tt,
        (λ h. rw few refl),
        (λ h. absurd (ground arith)),
      )
      | inl many ↦ (
        drop n sorted,
        rw (many, take-drop n sorted) (sort_by_time-Perm archives),
        rw many (take-NoNewer n sorted (sort_by_time-Sorted archives)),
        (λ h. absurd (ground arith)),
        (λ h. length-drop n sorted ∙ omega (arith, sort_by_time-length archives)),
      )
    ]
