-- ===== src/Clear/Keeps.antt =====
-- Which files `ClearDir` leaves.
use pastelup.Base.{
  ℕ, Str, Bool, true, false, List, [], ◌∷◌, ◌++◌, Option, Error, inl, inr, if◌then◌else◌, elem, ◌≡◌,
  refl, ap, ◌∙◌, Bool-cases, Option-cases,
}
use pastelup.Path.{join}
use pastelup.Clear.{
  Entry, file, dir, Entries, nil, cons, Cleared, count, counted, all_removed, after_dir, after_file,
  read_first, clear_entry, clear_entries, clear_dir,
}

-- The paths of the files below a directory.
unfoldable mutual
  pub files_of : Str → Entry → List Str
  files_of path (file name) = join path name ∷ []
  files_of path (dir name sub) = all_files (join path name) sub

  pub all_files : Str → Entries → List Str
  all_files path nil = []
  all_files path (cons e rest) = files_of path e ++ all_files path rest

-- The paths of the files that are to be preserved: those of a preserved name, and all below a
-- preserved directory.
unfoldable mutual
  unfolding all_files

  pub kept_of : List Str → List Str → Str → Entry → List Str
  kept_of skip_files skip_dirs path (file name) =
      if elem skip_files name then join path name ∷ [] else []
  kept_of skip_files skip_dirs path (dir name sub) =
      let below = preserved skip_files skip_dirs (join path name) sub in
      if elem skip_dirs name then all_files (join path name) sub else below

  pub preserved : List Str → List Str → Str → Entries → List Str
  preserved skip_files skip_dirs path nil = []
  preserved skip_files skip_dirs path (cons e rest) =
      kept_of skip_files skip_dirs path e ++ preserved skip_files skip_dirs path rest

counted-entries : (l : Cleared ℕ) → (counted l).0 ≡ l.0
counted-entries (rest, inl e) = refl
counted-entries (rest, inr n) = refl

all_removed-entries : (n : ℕ) (l : Cleared ℕ) → (all_removed n l).0 ≡ l.0
all_removed-entries n (rest, inl e) = refl
all_removed-entries n (rest, inr m) = refl

module _ (unreadable : Str → Option Error) (stuck : Str → Option Error)
    (skip_files skip_dirs : List Str) where
  after_file-preserved :
      (path name : Str) (rest : Entries) (later : Cleared ℕ)
      → elem skip_files name ≡ false
      → preserved skip_files skip_dirs path later.0 ≡ preserved skip_files skip_dirs path rest
      → preserved skip_files skip_dirs path
          (after_file unreadable stuck skip_files skip_dirs path name later).0
        ≡ preserved skip_files skip_dirs path rest
  unfolding after_file preserved
  after_file-preserved path name rest later skip h = elim (Option-cases (stuck (join path name))) [
    | inl removed ↦ rw (removed, after_file, counted-entries later) h
    | inr (e, failed) ↦ rw (failed, after_file, counted-entries later, skip) h
  ]

  after_dir-preserved :
      (path name : Str) (sub rest : Entries) (later : Cleared ℕ) (cleared : Cleared Bool)
      → elem skip_dirs name ≡ false
      → preserved skip_files skip_dirs (join path name) cleared.0
        ≡ preserved skip_files skip_dirs (join path name) sub
      → preserved skip_files skip_dirs path later.0 ≡ preserved skip_files skip_dirs path rest
      → preserved skip_files skip_dirs path
          (after_dir unreadable stuck skip_files skip_dirs path name rest later cleared).0
        ≡ preserved skip_files skip_dirs path (cons (dir name sub) rest)
  unfolding after_dir preserved
  after_dir-preserved path name sub rest later (sub', inl e) skip hs h = rw (skip, hs) refl
  after_dir-preserved path name sub rest later (sub', inr false) skip hs h = rw (skip, hs, h) refl
  after_dir-preserved path name sub rest later (cons e es, inr true) skip hs h = rw (skip, hs) refl
  after_dir-preserved path name sub rest later (nil, inr true) skip hs h =
      elim (Option-cases (stuck (join path name))) [
        | inl removed ↦ rw (removed, after_dir, counted-entries later, skip, ← hs) h
        | inr (e, failed) ↦ rw (failed, after_dir, skip, ← hs) refl
      ]

  read_first-preserved :
      (path path' : Str) (es : Entries) (cleared : Cleared Bool)
      → preserved skip_files skip_dirs path' cleared.0 ≡ preserved skip_files skip_dirs path' es
      → preserved skip_files skip_dirs path'
          (read_first unreadable stuck skip_files skip_dirs path es cleared).0
        ≡ preserved skip_files skip_dirs path' es
  unfolding read_first
  read_first-preserved path path' es cleared h = elim (Option-cases (unreadable path)) [
    | inl fine ↦ rw (fine, read_first) h
    | inr (e, failed) ↦ rw (failed, read_first) refl
  ]

  pub clear_entry-dir :
      (path name : Str) (sub rest : Entries) (later : Cleared ℕ)
      → elem skip_dirs name ≡ false
      → clear_entry unreadable stuck skip_files skip_dirs path (dir name sub) rest later
        ≡ after_dir unreadable stuck skip_files skip_dirs path name rest later (
            read_first unreadable stuck skip_files skip_dirs (join path name) sub (
              all_removed
                (count sub)
                (clear_entries unreadable stuck skip_files skip_dirs (join path name) sub)))
  unfolding clear_entry
  clear_entry-dir path name sub rest later skip = rw skip refl

  mutual
    unfolding clear_entries preserved

    clear_entry-preserved :
        (path : Str) (e : Entry) (rest : Entries) (later : Cleared ℕ)
        → preserved skip_files skip_dirs path later.0 ≡ preserved skip_files skip_dirs path rest
        → preserved skip_files skip_dirs path
            (clear_entry unreadable stuck skip_files skip_dirs path e rest later).0
          ≡ preserved skip_files skip_dirs path (cons e rest)
    clear_entry-preserved path (file name) rest later h = elim (Bool-cases (elem skip_files name)) [
      | inl skip ↦ rw (skip, clear_entry) (rw (skip, h) refl)
      | inr not_skipped ↦
          rw (not_skipped, clear_entry) (after_file-preserved path name rest later not_skipped h)
    ]
    clear_entry-preserved path (dir name sub) rest later h =
        elim (Bool-cases (elem skip_dirs name)) [
          | inl skip ↦ rw (skip, clear_entry) (rw (skip, h) refl)
          | inr not_skipped ↦
              let below = join path name in
              let inner = clear_entries unreadable stuck skip_files skip_dirs below sub in
              ap (λ (l : Cleared ℕ). preserved skip_files skip_dirs path l.0)
                (clear_entry-dir path name sub rest later not_skipped)
              ∙ after_dir-preserved path name sub rest later
                  (read_first unreadable stuck skip_files skip_dirs below sub
                    (all_removed (count sub) inner))
                  not_skipped
                  (read_first-preserved below below sub (all_removed (count sub) inner) (
                    ap (preserved skip_files skip_dirs below)
                      (all_removed-entries (count sub) inner)
                    ∙ clear_entries-preserved below sub))
                  h
        ]

    clear_entries-preserved :
        (path : Str) (es : Entries)
        → preserved skip_files skip_dirs path
            (clear_entries unreadable stuck skip_files skip_dirs path es).0
          ≡ preserved skip_files skip_dirs path es
    clear_entries-preserved path nil = refl
    clear_entries-preserved path (cons e rest) =
        clear_entry-preserved path e rest
          (clear_entries unreadable stuck skip_files skip_dirs path rest)
          (clear_entries-preserved path rest)

  -- Whatever `os.ReadDir` and `os.Remove` report, and also where `ClearDir` itself ends with an
  -- error, each file that is to be preserved (by its own name, or below a preserved directory) is
  -- still there, at the same path and in the same order.
  pub clear_dir-preserved :
      (path : Str) (es : Entries)
      → preserved skip_files skip_dirs path
          (clear_dir unreadable stuck skip_files skip_dirs path es).0
        ≡ preserved skip_files skip_dirs path es
  unfolding clear_dir
  clear_dir-preserved path es =
      let cleared = clear_entries unreadable stuck skip_files skip_dirs path es in
      read_first-preserved path path es (all_removed (count es) cleared) (
        ap (preserved skip_files skip_dirs path) (all_removed-entries (count es) cleared)
        ∙ clear_entries-preserved path es)
