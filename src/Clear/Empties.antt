-- ===== src/Clear/Empties.antt =====
-- What `ClearDir` removes where nothing fails.
use pastelup.Base.{
  ℕ, suc, ◌+◌, ◌==◌, Str, Bool, true, false, List, [], ◌∷◌, ◌++◌, Option, none, Error, inl, inr,
  elem, ◌≡◌, ◌↔◌, refl, sym, ap, ◌∙◌, arith, Bool-cases,
}
use pastelup.Path.{join}
use pastelup.Clear.{
  Entry, file, dir, Entries, nil, cons, Cleared, count, keep, counted, all_removed, after_dir,
  after_file, read_first, clear_entry, clear_entries, clear_dir,
}
use pastelup.Clear.Keeps.{all_files, preserved, kept_of, clear_entry-dir}

module _ (unreadable : Str → Option Error) (stuck : Str → Option Error)
    (skip_files skip_dirs : List Str) (reads : (p : Str) → unreadable p ≡ none)
    (frees : (p : Str) → stuck p ≡ none) where
  -- The loop ends without an error, it counts what it removed, and it leaves the files that are to
  -- be preserved and no other.
  Cleans : Str → Entries → Cleared ℕ → Type 0
  Cleans path es l =
      (n : ℕ) × (l.1 ≡ inr n)
      × (n + count l.0 ≡ count es)
      × (all_files path l.0 ≡ preserved skip_files skip_dirs path es)

  kept_file :
      (path name : Str) (rest : Entries) (later : Cleared ℕ)
      → elem skip_files name ≡ true
      → Cleans path rest later
      → Cleans path (cons (file name) rest) (keep (file name) later)
  unfolding Cleans all_files preserved
  kept_file path name rest later skip (n, r, sum, files) =
      (n, r, omega arith, rw skip (ap (◌∷◌ (join path name)) files))

  nothing : (path : Str) → Cleans path nil (nil, inr 0)
  unfolding Cleans all_files preserved
  nothing path = (0, refl, omega arith, refl)

  kept_of-file :
      (path name : Str)
      → elem skip_files name ≡ false
      → kept_of skip_files skip_dirs path (file name) ≡ []
  unfolding kept_of
  kept_of-file path name skip = rw skip

  kept_of-skipped :
      (path name : Str) (sub : Entries)
      → elem skip_dirs name ≡ true
      → all_files (join path name) sub ≡ kept_of skip_files skip_dirs path (dir name sub)
  unfolding kept_of
  kept_of-skipped path name sub skip = rw skip refl

  gone :
      (path : Str) (e : Entry) (rest : Entries) (later : Cleared ℕ)
      → kept_of skip_files skip_dirs path e ≡ []
      → Cleans path rest later
      → Cleans path (cons e rest) (counted later)
  unfolding Cleans preserved
  gone path e rest (es, inl d) none_kept (n, r, sum, files) = cc
  gone path e rest (es, inr m) none_kept (n, r, sum, files) =
      let same : m ≡ n = cc in
      (
        suc m,
        refl,
        omega arith,
        files
            ∙ ap (λ (ps : List Str). ps ++ preserved skip_files skip_dirs path rest)
                (sym none_kept),
      )

  kept_dir :
      (path name : Str) (sub sub' rest : Entries) (later : Cleared ℕ)
      → all_files (join path name) sub' ≡ kept_of skip_files skip_dirs path (dir name sub)
      → Cleans path rest later
      → Cleans path (cons (dir name sub) rest) (keep (dir name sub') later)
  unfolding Cleans all_files preserved
  kept_dir path name sub sub' rest later below (n, r, sum, files) = (
    n,
    r,
    omega arith,
    ap (λ (ps : List Str). ps ++ all_files path later.0) below
        ∙ ap (λ (ps : List Str). kept_of skip_files skip_dirs path (dir name sub) ++ ps) files,
  )

  after_dir-removed :
      (path name : Str) (sub rest : Entries) (later : Cleared ℕ)
      → kept_of skip_files skip_dirs path (dir name sub) ≡ []
      → Cleans path rest later
      → Cleans path
          (cons (dir name sub) rest)
          (after_dir unreadable stuck skip_files skip_dirs path name rest later (nil, inr true))
  unfolding after_dir
  after_dir-removed path name sub rest later none_kept done =
      rw (frees (join path name), after_dir) (gone path (dir name sub) rest later none_kept done)

  count-nil : (es : Entries) → count es ≡ 0 → es ≡ nil
  count-nil nil h = refl
  count-nil (cons e es) h = absurd (omega arith)

  kept_of-dir :
      (path name : Str) (sub : Entries)
      → elem skip_dirs name ≡ false
      → kept_of skip_files skip_dirs path (dir name sub)
        ≡ preserved skip_files skip_dirs (join path name) sub
  unfolding kept_of
  kept_of-dir path name sub skip = rw skip refl

  -- What follows the recursive call on a directory that is not preserved.
  after_dir-Cleans :
      (path name : Str) (sub rest : Entries) (later inner : Cleared ℕ)
      → elem skip_dirs name ≡ false
      → Cleans (join path name) sub inner
      → Cleans path rest later
      → Cleans path (cons (dir name sub) rest) (
          after_dir unreadable stuck skip_files skip_dirs path name rest later
            (all_removed (count sub) inner))
  unfolding Cleans all_files after_dir
  after_dir-Cleans path name sub rest later (sub', inl e) skip (m, r, sum, files) done = cc
  after_dir-Cleans path name sub rest later (sub', inr k) skip (m, r, sum, files) done =
      let same : k ≡ m = cc in
      elim (Bool-cases (count sub == k)) [
        | inr some_left ↦
            rw (some_left, after_dir)
              (kept_dir path name sub sub' rest later (files ∙ sym (kept_of-dir path name sub skip))
                done)
        | inl none_left ↦
            let empty : sub' ≡ nil = count-nil sub' (ground arith) in
            rw (none_left, empty)
              (after_dir-removed path name sub rest later
                (kept_of-dir path name sub skip ∙ sym files ∙ ap (all_files (join path name)) empty)
                done)
      ]

  mutual
    unfolding clear_entries

    clear_entry-Cleans :
        (path : Str) (e : Entry) (rest : Entries) (later : Cleared ℕ)
        → Cleans path rest later
        → Cleans path
            (cons e rest)
            (clear_entry unreadable stuck skip_files skip_dirs path e rest later)
    clear_entry-Cleans path (file name) rest later done = elim (Bool-cases (elem skip_files name)) [
      | inl skip ↦ rw (skip, clear_entry) (kept_file path name rest later skip done)
      | inr not_skipped ↦
          rw (not_skipped, clear_entry, frees (join path name), after_file)
            (gone path (file name) rest later (kept_of-file path name not_skipped) done)
    ]
    clear_entry-Cleans path (dir name sub) rest later done =
        elim (Bool-cases (elem skip_dirs name)) [
          | inl skip ↦
              rw (skip, clear_entry)
                (kept_dir path name sub sub rest later (kept_of-skipped path name sub skip) done)
          | inr not_skipped ↦
              rw
                (
                  clear_entry-dir unreadable stuck skip_files skip_dirs path name sub rest later
                      not_skipped,
                  reads (join path name),
                  read_first,
                )
                (after_dir-Cleans path name sub rest later
                  (clear_entries unreadable stuck skip_files skip_dirs (join path name) sub)
                  not_skipped (clear_entries-Cleans (join path name) sub) done)
        ]

    clear_entries-Cleans :
        (path : Str) (es : Entries)
        → Cleans path es (clear_entries unreadable stuck skip_files skip_dirs path es)
    clear_entries-Cleans path nil = nothing path
    clear_entries-Cleans path (cons e rest) =
        clear_entry-Cleans path e rest
          (clear_entries unreadable stuck skip_files skip_dirs path rest)
          (clear_entries-Cleans path rest)

  all_removed-Cleans :
      (path : Str) (es : Entries) (l : Cleared ℕ)
      → Cleans path es l
      → (left : Entries) × (b : Bool) × (all_removed (count es) l ≡ (left, inr b))
        × (all_files path left ≡ preserved skip_files skip_dirs path es)
        × ((b ≡ true) ↔ (left ≡ nil))
  unfolding Cleans
  all_removed-Cleans path es (left, inl e) (n, r, sum, files) = cc
  all_removed-Cleans path es (left, inr k) (n, r, sum, files) =
      let same : k ≡ n = cc in
      (
        left,
        count es == k,
        refl,
        files,
        (
          (λ h. count-nil left (ground arith)),
          (λ h. let none_left : count left ≡ 0 = ap count h in ground arith),
        ),
      )

  -- If every directory can be read and everything can be removed, `ClearDir` ends without an error,
  -- the files that are left are exactly those to be preserved, and the result is true if and only
  -- if nothing is left at all, no directory either.
  pub clear_dir-empties :
      (path : Str) (es : Entries)
      → (left : Entries) × (b : Bool) × (clear_dir unreadable stuck skip_files skip_dirs path es
          ≡ (left, inr b))
        × (all_files path left ≡ preserved skip_files skip_dirs path es)
        × ((b ≡ true) ↔ (left ≡ nil))
  unfolding clear_dir read_first
  clear_dir-empties path es =
      let (left, b, result, files, all) =
        all_removed-Cleans path es (clear_entries unreadable stuck skip_files skip_dirs path es)
          (clear_entries-Cleans path es) in
      (left, b, rw (reads path, read_first) result, files, all)
