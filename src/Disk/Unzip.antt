-- ===== src/Disk/Unzip.antt =====
-- utils/utils.go: `Unzip`, and what it leaves alone.
use pastelup.Base.{
  Str, str, false, List, [], ◌∷◌, ◌++◌, Error, errorf, wrapf, ◌⊎◌, inl, inr, Action, pure, fail,
  attempt, ◌>>=◌, ◌>>◌, if◌then◌else◌, has_prefix, ◌≡◌, ◌≢◌, Keeps, bind-Keeps, then-Keeps,
  if-Keeps, attempt-Keeps, pure-Keeps, fail-Keeps, guard-Keeps,
}
use pastelup.Constants.{OsType}
use pastelup.Host.{Host}
use pastelup.Disk.Clean.{clean, clean_join, dir_of}
use pastelup.Disk.Resolved.{IsResolved, clean_join-IsResolved}
use pastelup.Disk.{Disk, ZipEntry}

module _ {W : Type 0} (host : Host W) (disk : Disk W) (os : OsType) where
  -- The loop of `Unzip`: the names of what it made.
  unfoldable pub unzip_entries : Str → List ZipEntry → Action W (List Str)
  unzip_entries dest [] = pure []
  unzip_entries dest (f ∷ rest) = do
    let path = clean_join dest f.name
    let folder = attempt (disk.mkdir_all path) >> pure tt
    let made = do
      disk.mkdir_all (dir_of path)
      disk.create path
      elim f.content [ inl e ↦ fail (wrapf "copy" e) | inr bytes ↦ disk.append_to path bytes ]
    let inside = has_prefix path (clean dest ++ str "/")
    if inside then pure tt else fail (errorf "illegal file path")
    if f.is_dir then folder else made
    names ← unzip_entries dest rest
    pure (path ∷ names)

  -- `Unzip`
  unfoldable pub unzip : Str → Str → Action W (List Str)
  unzip src dest = disk.zip_entries src >>= unzip_entries dest

-- What the calls of the disk leave of a file: making a folder leaves every file as it is, and
-- making or writing a file leaves every other one. Two texts name different files only where
-- nothing is left to resolve in the path.
pub record LeavesOthers {W : Type 0} (disk : Disk W) (p : Str) (P : W → Type 0) : Type 0 where
  pub mkdir_all_lem : (q : Str) → Keeps P (disk.mkdir_all q)
  pub create_lem : (q : Str) → IsResolved q → p ≢ q → Keeps P (disk.create q)
  pub append_to_lem : (q bytes : Str) → IsResolved q → p ≢ q → Keeps P (disk.append_to q bytes)
  pub zip_entries_lem : (q : Str) → Keeps P (disk.zip_entries q)

module _ {W : Type 0} (host : Host W) (disk : Disk W) (os : OsType) (p : Str) (P : W → Type 0)
    (laws : LeavesOthers disk p P) where
  content-Keeps :
      (path : Str) (content : Error ⊎ Str)
      → IsResolved path
      → p ≢ path
      → Keeps P {A = Unit {0}}
          (elim content [ inl e ↦ fail (wrapf "copy" e) | inr bytes ↦ disk.append_to path bytes ])
  content-Keeps path (inl e) resolved differs = fail-Keeps P (Unit {0}) (wrapf "copy" e)
  content-Keeps path (inr bytes) resolved differs = laws.append_to_lem path bytes resolved differs

  made-Keeps :
      (path : Str) (f : ZipEntry)
      → IsResolved path
      → p ≢ path
      → Keeps P (
          if f.is_dir
          then attempt (disk.mkdir_all path) >> pure tt
          else (disk.mkdir_all (dir_of path)
              >> (disk.create path >> elim f.content as (λ x. Action W (Unit {0})) [
                | inl e ↦ fail (wrapf "copy" e)
                | inr bytes ↦ disk.append_to path bytes
              ])))
  made-Keeps path f resolved differs =
      if-Keeps P f.is_dir _ _
        (then-Keeps P _ _ (attempt-Keeps P _ (laws.mkdir_all_lem path)) (pure-Keeps P tt))
        (then-Keeps P _ _ (laws.mkdir_all_lem (dir_of path)) (
          then-Keeps P _ _ (laws.create_lem path resolved differs)
            (content-Keeps path f.content resolved differs)))

  unzip_entries-Keeps :
      (dest : Str) (entries : List ZipEntry)
      → has_prefix p (clean dest ++ str "/") ≡ false
      → Keeps P (unzip_entries host disk os dest entries)
  unfolding unzip_entries
  unzip_entries-Keeps dest [] outside = pure-Keeps P []
  unzip_entries-Keeps dest (f ∷ rest) outside =
      let path = clean_join dest f.name in
      guard-Keeps P (has_prefix path (clean dest ++ str "/")) _ _ (λ inside.
        let differs : p ≢ path = λ same. cc in
        then-Keeps P _ _ (made-Keeps path f (clean_join-IsResolved dest f.name) differs) (
          bind-Keeps P _ _ (unzip_entries-Keeps dest rest outside)
            (λ names. pure-Keeps P (path ∷ names))))

  -- For a file that stays as it is when a folder is made, when an archive is listed, and when a file
  -- is made or written at any other path in which nothing is left to resolve (no empty element, no
  -- `.`, and `..` only in front): `Unzip` leaves it as it is if its path does not begin with the
  -- cleaned destination and a slash, whatever names the archive has and whether it succeeds or fails.
  pub unzip-Keeps :
      (src dest : Str)
      → has_prefix p (clean dest ++ str "/") ≡ false
      → Keeps P (unzip host disk os src dest)
  unfolding unzip
  unzip-Keeps src dest outside =
      bind-Keeps P _ _ (laws.zip_entries_lem src) (λ es. unzip_entries-Keeps dest es outside)
