-- ===== src/Install/Snapshot.antt =====
-- cmd/install.go: `downloadLatestSnapshot`, `cleanWorkingDir`. `tar_entries` is what the libraries
-- for tar and its compressions make of an archive: its entries, up to an error.
use pastelup.Base.{
  Str, str, Bool, List, [], ◌∷◌, ◌++◌, Option, none, some, Error, errorf, ◌⊎◌, inl, inr, Action,
  pure, fail, lift, attempt, deferred, wrap_error, ◌>>=◌, ◌>>◌, if◌then◌else◌, is_empty, str_eq,
  ◌||◌,
}
use pastelup.Path.{join}
use pastelup.Constants.{OsType, ToolType, wallet_node, super_node, pasteld}
use pastelup.Configs.{Config}
use pastelup.Host.{Host}
use pastelup.Disk.{Disk, download_file}
use pastelup.Disk.Clean.{clean_join}

abbrev pub snapshots_base_url : Str
snapshots_base_url = str "https://download.pastel.network/snapshots/"

-- `strings.HasSuffix(s, suffix)`
unfoldable pub has_suffix : Str → Str → Bool
has_suffix [] suffix = str_eq [] suffix
has_suffix (c ∷ s) suffix = str_eq (c ∷ s) suffix || has_suffix s suffix

-- The name of the snapshot of a tool
unfoldable pub snapshot_of : ToolType → Error ⊎ Str
snapshot_of pasteld = inr (str "snapshot-latest-mainnet")
snapshot_of wallet_node = inr (str "snapshot-latest-mainnet-txind")
snapshot_of super_node = inr (str "snapshot-latest-mainnet-explorer")
snapshot_of _ = inl (errorf "unknown installation type")

-- The address of the snapshot and the extension of its file.
unfoldable pub snapshot_url : Config → ToolType → Error ⊎ (Str × Str)
unfolding has_suffix
snapshot_url config tool =
    let url = snapshots_base_url ++ (config.network ++ b'/' ∷ []) in
    let extension = b'.' ∷ config.snapshot_type in
    let latest : Error ⊎ (Str × Str) = elim (snapshot_of tool) [
      | inl e ↦ inl e
      | inr name ↦ inr (url ++ (name ++ extension), extension)
    ] in
    let named = url ++ config.snapshot_name in
    if is_empty config.snapshot_name
    then latest
    else if has_suffix config.snapshot_name (str ".zst")
    then inr (named, str ".tar.zst")
    else if has_suffix config.snapshot_name (str ".gz")
    then inr (named, str ".tar.gz")
    else inl (errorf "extension is not supported")

-- An entry of a tar archive: a directory, a file with its bytes or the error that ends their
-- reading, or another type.
pub data TarEntry : Type 0 where
  tar_dir : Str → TarEntry
  tar_file : Str → Str → Option Error → TarEntry
  tar_other : TarEntry

-- The files that `cleanWorkingDir` removes
unfoldable pub chain_files : List Str
chain_files =
    str "blocks"
    ∷ str "chainstate"
    ∷ str "db.log"
    ∷ str "debug.log"
    ∷ str "fee_estimates.dat"
    ∷ str "messages.dat"
    ∷ str "mncache.dat"
    ∷ str "mnpayments.dat"
    ∷ str "netfulfilled.dat"
    ∷ str "peers.dat"
    ∷ str "tickets"
    ∷ []

module _ {W : Type 0} (host : Host W) (disk : Disk W) (os : OsType) (temp_dir : Str)
    (tar_entries : Str → Bool → Action W (List TarEntry × Option Error)) where
  unfoldable pub remove_chain_files : Str → List Str → Action W (Unit {0})
  remove_chain_files dir [] = pure tt
  remove_chain_files dir (name ∷ rest) =
      host.remove_all (join dir name) >> remove_chain_files dir rest

  -- `cleanWorkingDir`
  unfoldable pub clean_working_dir : Str → Action W (Unit {0})
  clean_working_dir dir = remove_chain_files dir chain_files

  -- The body of the loop of `extractTar`
  unfoldable pub extract_entry : Str → TarEntry → Action W (Unit {0})
  extract_entry dest (tar_dir name) = disk.mkdir_all (clean_join dest name)
  extract_entry dest (tar_file name bytes broken) = do
    disk.create (clean_join dest name)
    disk.append_to (clean_join dest name) bytes
    elim broken [ none ↦ pure tt | some e ↦ fail e ]
  extract_entry dest tar_other = fail (errorf "unsupported file type in tar archive")

  unfoldable pub extract_entries : Str → List TarEntry → Option Error → Action W (Unit {0})
  extract_entries dest [] none = pure tt
  extract_entries dest [] (some e) = fail e
  extract_entries dest (entry ∷ rest) end =
      extract_entry dest entry >> extract_entries dest rest end

  -- `extractTar`: gzip or Zstandard, by the extension.
  unfoldable pub extract_tar : Str → Str → Action W (Unit {0})
  extract_tar path dest = do
    let gzip = has_suffix path (str ".tar.gz")
    let zstd = has_suffix path (str ".tar.zst")
    opened ← host.read_file path
    if gzip then pure tt else if zstd then pure tt else fail (errorf "unsupported archive format")
    (entries, end) ← tar_entries path gzip
    extract_entries dest entries end

  -- `downloadLatestSnapshot`
  unfoldable pub download_latest_snapshot : Config → ToolType → Action W (Unit {0})
  download_latest_snapshot config tool = do
    (url, extension) ← lift (snapshot_url config tool)
    let path = join temp_dir (str "latest_snapshot" ++ extension)
    wrap_error "error downloading file" (download_file host disk os path url)
    deferred (attempt (host.remove path) >> pure tt) (do
      wrap_error "failed to clean working directory" (clean_working_dir config.working_dir)
      wrap_error "failed to extract file" (extract_tar path config.working_dir))
