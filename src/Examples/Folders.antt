-- ===== src/Examples/Folders.antt =====
-- Archives and the clearing of a directory.
use mathlib.Core.List.{Perm}
use pastelup.Base.{
  ℕ, ◌≤◌, ◌<◌, Str, str, Bool, true, List, [], ◌∷◌, ◌++◌, Option, none, some, Error, os_error, inr,
  Action, err, ◌≡◌, ◌↔◌, refl, length,
}
use pastelup.Host.{DirEntry}
use pastelup.Host.Sample.{World, sample_host, empty_world}
use pastelup.Archive.{archive_retention, archives_to_delete, back_up_dd_dir}
use pastelup.Archive.Retention.{NoNewer, archives_to_delete_lem}
use pastelup.Archive.DupeDetection.{back_up_dd_dir-copies_nothing}
use pastelup.Clear.{file, dir, Entries, nil, cons, clear_dir}
use pastelup.Clear.Keeps.{preserved, all_files, clear_dir-preserved}
use pastelup.Clear.Empties.{clear_dir-empties}
use pastelup.Examples.{sample_config}

abbrev archive_of : ℕ → DirEntry
archive_of t = record { name = str ".pastel_archive_1"; is_dir = true; mod_time = t }

abbrev five_archives : List DirEntry
five_archives = archive_of 5 ∷ archive_of 1 ∷ archive_of 4 ∷ archive_of 2 ∷ archive_of 3 ∷ []

archives_to_delete_lem_example :
    (kept : List DirEntry) × Perm (archives_to_delete five_archives ++ kept) five_archives
    × NoNewer (archives_to_delete five_archives) kept
    × (length five_archives ≤ archive_retention → archives_to_delete five_archives ≡ [])
    × (archive_retention < length five_archives → length kept ≡ archive_retention)
archives_to_delete_lem_example = archives_to_delete_lem five_archives

abbrev broken_copy : Str → Str → Action World (Unit {0})
broken_copy from to w = err (os_error "disk full") w

back_up_dd_dir-copies_nothing_example :
    back_up_dd_dir (record sample_host { copy = broken_copy }) sample_config (str "h") empty_world
    ≡ back_up_dd_dir sample_host sample_config (str "h") empty_world
back_up_dd_dir-copies_nothing_example =
    back_up_dd_dir-copies_nothing sample_host broken_copy sample_config (str "h") empty_world

-- A wallet, a log, and a directory with a log and with keys.
abbrev sample_tree : Entries
sample_tree = cons (file (str "wallet.dat")) (
    cons (file (str "debug.log")) (
      cons (dir (str "blocks") (cons (file (str "rev.dat")) nil))
        (cons (dir (str "pastelkeys") (cons (file (str "k")) nil)) nil)))

abbrev nothing_wrong : Str → Option Error
nothing_wrong path = none

abbrev all_stuck : Str → Option Error
all_stuck path = some (os_error "permission denied")

abbrev kept_names : List Str
kept_names = str "wallet.dat" ∷ []

abbrev kept_dirs : List Str
kept_dirs = str "pastelkeys" ∷ []

clear_dir-preserved_example :
    preserved kept_names kept_dirs
      (str "w")
      (clear_dir nothing_wrong all_stuck kept_names kept_dirs (str "w") sample_tree).0
    ≡ preserved kept_names kept_dirs (str "w") sample_tree
clear_dir-preserved_example =
    clear_dir-preserved nothing_wrong all_stuck kept_names kept_dirs (str "w") sample_tree

clear_dir-empties_example :
    (left : Entries) × (b : Bool) × (clear_dir nothing_wrong nothing_wrong kept_names kept_dirs
        (str "w")
        sample_tree
      ≡ (left, inr b))
    × (all_files (str "w") left ≡ preserved kept_names kept_dirs (str "w") sample_tree)
    × ((b ≡ true) ↔ (left ≡ nil))
clear_dir-empties_example =
    clear_dir-empties nothing_wrong nothing_wrong kept_names kept_dirs (λ p. refl) (λ p. refl)
      (str "w") sample_tree
