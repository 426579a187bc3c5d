-- ===== src/Clear.antt =====
-- utils/utils.go: `ClearDir` on the tree below a directory. `unreadable` says of which directories
-- `os.ReadDir` fails, and `stuck` which paths `os.Remove` cannot remove; a directory that is not
-- empty cannot be removed either.
pub mod Keeps
pub mod Empties
use pastelup.Base.{
  ℕ, zero, suc, ◌+◌, ◌==◌, Str, str, Bool, true, false, List, [], ◌∷◌, ◌++◌, Option, none, some,
  Error, os_error, ◌⊎◌, inl, inr, if◌then◌else◌, elem,
}
use pastelup.Path.{join}

mutual
  pub data Entry : Type 0 where
    file : Str → Entry
    dir : Str → Entries → Entry

  pub data Entries : Type 0 where
    nil : Entries
    cons : Entry → Entries → Entries

-- `len(files)`
abbrev pub count : Entries → ℕ
count nil = 0
count (cons e rest) = suc (count rest)

-- The directory afterwards, and the result: an error, or the value.
abbrev pub Cleared : Type 0 → Type 0
Cleared A = Entries × (Error ⊎ A)

-- The result for the entries behind one that is kept or removed.
abbrev pub keep : Entry → Cleared ℕ → Cleared ℕ
keep e (rest, r) = (cons e rest, r)

abbrev pub counted : Cleared ℕ → Cleared ℕ
counted (rest, inl e) = (rest, inl e)
counted (rest, inr n) = (rest, inr (suc n))

-- `len(files) == removedItems`
abbrev pub all_removed : ℕ → Cleared ℕ → Cleared Bool
all_removed n (rest, inl e) = (rest, inl e)
all_removed n (rest, inr removed) = (rest, inr (n == removed))

module _ (unreadable : Str → Option Error) (stuck : Str → Option Error)
    (skip_files skip_dirs : List Str) where
  -- `os.Remove` of a directory with these entries
  unfoldable pub remove_dir : Str → Entries → Option Error
  remove_dir path nil = stuck path
  remove_dir path (cons _ _) = some (os_error "directory not empty")

  -- What the loop does behind the recursive call on a directory: `later` is the rest of the loop
  -- and `rest` the entries that it has not come to.
  unfoldable pub after_dir : Str → Str → Entries → Cleared ℕ → Cleared Bool → Cleared ℕ
  unfolding remove_dir
  after_dir path name rest later (sub, inl e) = (cons (dir name sub) rest, inl e)
  after_dir path name rest later (sub, inr false) = keep (dir name sub) later
  after_dir path name rest later (sub, inr true) = elim (remove_dir (join path name) sub) [
    | some e ↦ (cons (dir name sub) rest, inl e)
    | none ↦ counted later
  ]

  -- A file: a failed removal is logged, and counted.
  unfoldable pub after_file : Str → Str → Cleared ℕ → Cleared ℕ
  after_file path name later = elim (stuck (join path name)) [
    | some e ↦ keep (file name) (counted later)
    | none ↦ counted later
  ]

  -- A directory that cannot be read is as it was.
  unfoldable pub read_first : Str → Entries → Cleared Bool → Cleared Bool
  read_first path es cleared = elim (unreadable path) [ some e ↦ (es, inl e) | none ↦ cleared ]

  -- The loop of `ClearDir` below the path, with the number of removed items, and `ClearDir` on an
  -- entry that is a directory.
  unfoldable mutual
    unfolding after_dir after_file read_first

    pub clear_entry : Str → Entry → Entries → Cleared ℕ → Cleared ℕ
    clear_entry path (file name) rest later =
        if elem skip_files name then keep (file name) later else after_file path name later
    clear_entry path (dir name sub) rest later =
        let cleared =
          read_first (join path name) sub
            (all_removed (count sub) (clear_entries (join path name) sub)) in
        if elem skip_dirs name
        then keep (dir name sub) later
        else after_dir path name rest later cleared

    pub clear_entries : Str → Entries → Cleared ℕ
    clear_entries path nil = (nil, inr 0)
    clear_entries path (cons e rest) = clear_entry path e rest (clear_entries path rest)

  -- `ClearDir`
  unfoldable pub clear_dir : Str → Entries → Cleared Bool
  clear_dir path es = read_first path es (all_removed (count es) (clear_entries path es))
