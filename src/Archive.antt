-- ===== src/Archive.antt =====
-- cmd/update.go: the copies of the working directory that an update makes first, and the removal of
-- old copies.
pub mod Retention
pub mod DupeDetection
pub mod Saved
use pastelup.Base.{
  ℕ, zero, suc, ◌+◌, ◌-◌, ltb, Str, str, Bool, true, false, List, [], ◌∷◌, ◌++◌, Option, none, some,
  Error, ◌⊎◌, inl, inr, Out, ok, err, panic, Action, pure, fail, query, ◌>>=◌, ◌>>◌, has_prefix,
  if◌then◌else◌, ◌&&◌, take, length, elem,
}
use pastelup.Path.{join, join_three}
use pastelup.Constants.{dupe_detection_service_dir}
use pastelup.Configs.{Config}
use pastelup.Host.{Host, DirEntry, check_file_exist}

abbrev pub archive_retention : ℕ
archive_retention = 3

-- `sort.Slice` by the time of the last change. It leaves the order of equal times open; here the
-- order of the directory decides.
unfoldable pub insert_by_time : DirEntry → List DirEntry → List DirEntry
insert_by_time e [] = e ∷ []
insert_by_time e (f ∷ rest) =
    let later = f ∷ insert_by_time e rest in
    if ltb f.mod_time e.mod_time then later else e ∷ f ∷ rest

unfoldable pub sort_by_time : List DirEntry → List DirEntry
unfolding insert_by_time
sort_by_time [] = []
sort_by_time (e ∷ rest) = insert_by_time e (sort_by_time rest)

-- The first loop of `deleteOldArchives`.
unfoldable pub matching_archives : Str → List DirEntry → List DirEntry
matching_archives prefix [] = []
matching_archives prefix (f ∷ rest) =
    let later = matching_archives prefix rest in
    if f.is_dir && has_prefix f.name (prefix ++ str "_archive_") then f ∷ later else later

-- The entries that its second loop removes.
unfoldable pub archives_to_delete : List DirEntry → List DirEntry
unfolding sort_by_time
archives_to_delete archives =
    if ltb archive_retention (length archives)
    then take (length archives - archive_retention) (sort_by_time archives)
    else []

-- The files that are copied if not all are.
unfoldable pub work_dir_files : List Str
work_dir_files =
    str "pastel.conf"
    ∷ str "supernode.yml"
    ∷ str "hermes.yml"
    ∷ str "walletnode.yml"
    ∷ str "bridge.yml"
    ∷ str "wallet.dat"
    ∷ str "masternode.conf"
    ∷ str "mncache.dat"
    ∷ str "mnpayments.dat"
    ∷ str "blocks"
    ∷ str "chainstate"
    ∷ str "pastelkeys"
    ∷ []

module _ {W : Type 0} (host : Host W) where
  unfoldable pub remove_each : Str → List DirEntry → Action W (Unit {0})
  remove_each base [] = pure tt
  remove_each base (e ∷ rest) = host.remove_all (join base e.name) >> remove_each base rest

  -- `deleteOldArchives`
  unfoldable pub delete_old_archives : Str → Str → Action W (Unit {0})
  delete_old_archives base prefix = do
    files ← host.read_dir base
    remove_each base (archives_to_delete (matching_archives prefix files))

  -- The loop over the names: what is there is copied.
  unfoldable pub copy_existing : Str → Str → List Str → Action W (Unit {0})
  copy_existing src dst [] = pure tt
  copy_existing src dst (name ∷ rest) = do
    exists ← query (check_file_exist host (join src name))
    if exists then host.copy (join src name) (join dst name) else pure tt
    copy_existing src dst rest

  -- The part for the directory of a test network.
  unfoldable pub copy_sub_dir : Bool → Str → Str → Str → List Str → Action W (Unit {0})
  copy_sub_dir on sub src dst names =
      if on
      then host.mkdir (join dst sub) >> copy_existing (join src sub) (join dst sub) names
      else pure tt

  -- What is copied: everything (the nil slice), or the names that are there.
  unfoldable pub copy_to_archive : Config → Str → Str → Option (List Str) → Action W (Unit {0})
  copy_to_archive config dir path none = host.copy dir path
  copy_to_archive config dir path (some names) = do
    host.mkdir path
    copy_existing dir path names
    copy_sub_dir config.is_testnet (str "testnet3") dir path names
    copy_sub_dir config.is_devnet (str "devnet") dir path names

  -- `backUpDir`
  unfoldable pub back_up_dir : Config → Str → Str → Option (List Str) → Action W (Unit {0})
  back_up_dir config dir prefix what = do
    now ← query host.unix_time
    exists ← query (check_file_exist host config.archive_dir)
    if exists then pure tt else host.mkdir config.archive_dir
    copy_to_archive config dir (join config.archive_dir (prefix ++ (str "_archive_" ++ now))) what
    delete_old_archives config.archive_dir prefix

  -- `backUpDDDir`: the list of names is empty, and not nil.
  unfoldable pub back_up_dd_dir : Config → Str → Action W (Unit {0})
  back_up_dd_dir config home_dir =
      back_up_dir config (join home_dir dupe_detection_service_dir) dupe_detection_service_dir
        (some [])
