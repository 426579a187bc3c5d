-- ===== src/Disk/Resolved.antt =====
-- Paths in which nothing is left to resolve, and that `filepath.Clean` makes them.
use pastelup.Base.{
  ℕ, zero, suc, ◌==◌, Str, str, Bool, true, false, List, [], ◌∷◌, ◌++◌, ◌⊎◌, inl, inr,
  if◌then◌else◌, str_eq, is_empty, ◌≡◌, refl, sym, ap, ◌∙◌, All, All-append, Bool-cases, str_eq_iff,
  arith,
}
use mathlib.Core.Path.{subst}
use mathlib.Core.List.{append-nil}
use pastelup.Masternode.Address.{split_from, split_on}
use pastelup.Disk.Clean.{
  starts_with_slash, push_element, push_elements, with_slashes, clean, clean_join,
}

abbrev NoSlash : Str → Type 0
NoSlash = All (λ c. (c == b'/') ≡ false)

-- The name of an entry: not empty, not `.`, not `..`, and without a slash.
abbrev IsPlain : Str → Type 0
IsPlain e =
    (is_empty e ≡ false) × (str_eq e (str ".") ≡ false) × (str_eq e (str "..") ≡ false) × NoSlash e

-- Names with a slash between them
abbrev joined : List Str → Str
joined [] = []
joined (e ∷ []) = e
joined (e ∷ f ∷ rest) = e ++ (b'/' ∷ joined (f ∷ rest))

abbrev ups : ℕ → List Str
ups zero = []
ups (suc n) = str ".." ∷ ups n

-- A path with nothing left to resolve: `.`, or names behind any number of `..`, or names behind a
-- slash.
abbrev pub IsResolved : Str → Type 0
IsResolved q =
    (q ≡ str ".")
    ⊎ ((n : ℕ) × (es : List Str) × All IsPlain es × (q ≡ joined (ups n ++ es)))
    ⊎ ((es : List Str) × All IsPlain es × (q ≡ b'/' ∷ joined es))

-- The reversed elements of a path with nothing left to resolve
abbrev IsStack : Bool → List Str → Type 0
IsStack rooted st =
    (ps : List Str) × (n : ℕ) × All IsPlain ps × (st ≡ ps ++ ups n) × (rooted ≡ true → n ≡ 0)

up-IsStack :
    (rooted : Bool) (ps : List Str) (n : ℕ)
    → All IsPlain ps
    → (rooted ≡ true → n ≡ 0)
    → IsStack rooted (push_element rooted (ps ++ ups n) (str ".."))
unfolding push_element str_eq
up-IsStack rooted (p ∷ ps) n plain root = (ps, n, plain.1, rw (plain.0.2) refl, root)
up-IsStack true [] zero plain root = ([], 0, tt, refl, λ h. refl)
up-IsStack false [] zero plain root = ([], 1, tt, refl, λ h. cc)
up-IsStack true [] (suc n) plain root = let none : suc n ≡ 0 = root refl in ground arith
up-IsStack false [] (suc n) plain root = ([], suc (suc n), tt, refl, λ h. cc)

push_element-IsStack :
    (rooted : Bool) (ps : List Str) (n : ℕ) (e : Str)
    → All IsPlain ps
    → (rooted ≡ true → n ≡ 0)
    → NoSlash e
    → IsStack rooted (push_element rooted (ps ++ ups n) e)
unfolding push_element
push_element-IsStack rooted ps n e plain root h = elim (Bool-cases (is_empty e)) [
  | inl empty ↦ rw empty (ps, n, plain, refl, root)
  | inr some ↦ elim (Bool-cases (str_eq e (str "."))) [
    | inl dot ↦ rw (some, dot) (ps, n, plain, refl, root)
    | inr other ↦ elim (Bool-cases (str_eq e (str ".."))) [
      | inl up ↦
          let same : e ≡ str ".." = (str_eq_iff e (str "..")).0 up in
          subst (λ (d : Str). IsStack rooted (push_element rooted (ps ++ ups n) d)) (sym same)
            (up-IsStack rooted ps n plain root)
      | inr name ↦ rw (some, other, name) (e ∷ ps, n, ((some, other, name, h), plain), refl, root)
    ]
  ]
]

push_elements-IsStack :
    (rooted : Bool) (st es : List Str)
    → IsStack rooted st
    → All NoSlash es
    → IsStack rooted (push_elements rooted st es)
unfolding push_elements
push_elements-IsStack rooted st [] stack h = stack
push_elements-IsStack rooted st (e ∷ rest) (ps, n, plain, same, root) h =
    push_elements-IsStack rooted (push_element rooted st e) rest
      (subst (λ (s : List Str). IsStack rooted (push_element rooted s e)) (sym same)
        (push_element-IsStack rooted ps n e plain root h.0))
      h.1

split_from-NoSlash : (token s : Str) → NoSlash token → All NoSlash (split_from b'/' token s)
unfolding split_from
split_from-NoSlash token [] h = (h, tt)
split_from-NoSlash token (c ∷ s) h = elim (Bool-cases (c == b'/')) [
  | inl slash ↦ rw slash (h, split_from-NoSlash [] s tt)
  | inr other ↦ rw other (
      split_from-NoSlash (token ++ c ∷ []) s
        (All-append (λ x. (x == b'/') ≡ false) token (c ∷ []) h (other, tt)))
]

joined-cons :
    (e : Str) (es : List Str)
    → All (λ d. is_empty d ≡ false) es
    → e ++ (if is_empty (joined es) then [] else b'/' ∷ joined es) ≡ joined (e ∷ es)
joined-cons e [] h = append-nil e
joined-cons e ((c ∷ d) ∷ []) h = refl
joined-cons e ((c ∷ d) ∷ f ∷ rest) h = refl
joined-cons e ([] ∷ rest) h = cc

are_names : (es : List Str) → All IsPlain es → All (λ d. is_empty d ≡ false) es
are_names [] h = tt
are_names (e ∷ es) h = (h.0.0, are_names es h.1)

ups-names : (n : ℕ) (es : List Str) → All IsPlain es → All (λ d. is_empty d ≡ false) (ups n ++ es)
ups-names zero es h = are_names es h
ups-names (suc n) es h = (refl, ups-names n es h)

-- The names of a stack, put behind a slash each, end up in front of what is there.
with_slashes-names :
    (ps : List Str) (n : ℕ) (es : List Str)
    → All IsPlain ps
    → All IsPlain es
    → (fs : List Str) × All IsPlain fs
      × (with_slashes (ps ++ ups n) (joined es) ≡ with_slashes (ups n) (joined fs))
unfolding with_slashes
with_slashes-names [] n es hp he = (es, he, refl)
with_slashes-names (p ∷ ps) n es hp he =
    let (fs, names, same) = with_slashes-names ps n (p ∷ es) hp.1 (hp.0, he) in
    (fs, names, ap (with_slashes (ps ++ ups n)) (joined-cons p es (are_names es he)) ∙ same)

with_slashes-ups :
    (n m : ℕ) (es : List Str)
    → All IsPlain es
    → (k : ℕ) × (with_slashes (ups n) (joined (ups m ++ es)) ≡ joined (ups k ++ es))
unfolding with_slashes
with_slashes-ups zero m es h = (m, refl)
with_slashes-ups (suc n) m es h =
    let (k, same) = with_slashes-ups n (suc m) es h in
    (k, ap (with_slashes (ups n)) (joined-cons (str "..") (ups m ++ es) (ups-names m es h)) ∙ same)

-- The text that is made of a stack
abbrev text_of : Bool → List Str → Str
text_of rooted st =
    let text = with_slashes st [] in
    if rooted then b'/' ∷ text else if is_empty text then str "." else text

text_of-IsResolved :
    (rooted : Bool) (st : List Str) → IsStack rooted st → IsResolved (text_of rooted st)
unfolding with_slashes
text_of-IsResolved true st (ps, n, plain, same, root) =
    let none : n ≡ 0 = root refl in
    let (fs, names, made) = with_slashes-names ps n [] plain tt in
    inr (
      inr (
        fs,
        names,
        ap (◌∷◌ b'/') (
            ap (λ s. with_slashes s []) same
            ∙ made
            ∙ ap (λ k. with_slashes (ups k) (joined fs)) none),
      ))
text_of-IsResolved false st (ps, n, plain, same, root) =
    let (fs, names, made) = with_slashes-names ps n [] plain tt in
    let (k, all) = with_slashes-ups n 0 fs names in
    elim (Bool-cases (is_empty (with_slashes st []))) [
      | inl empty ↦ inl (rw empty refl)
      | inr some ↦ inr (inl (k, fs, names, rw some (ap (λ s. with_slashes s []) same ∙ made ∙ all)))
    ]

clean-IsResolved : (path : Str) → IsResolved (clean path)
unfolding clean split_on
clean-IsResolved path =
    let rooted = starts_with_slash path in
    let es = split_on b'/' path in
    text_of-IsResolved rooted (push_elements rooted [] es) (
      push_elements-IsStack rooted [] es ([], 0, tt, refl, λ h. refl)
        (split_from-NoSlash [] path tt))

-- `filepath.Join` leaves nothing to resolve.
pub clean_join-IsResolved : (a b : Str) → IsResolved (clean_join a b)
unfolding clean_join
clean_join-IsResolved [] [] = inr (inl (0, [], tt, refl))
clean_join-IsResolved [] (c ∷ b) = clean-IsResolved (c ∷ b)
clean_join-IsResolved (c ∷ a) b = clean-IsResolved ((c ∷ a) ++ (b'/' ∷ b))
