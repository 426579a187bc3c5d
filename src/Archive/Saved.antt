-- ===== src/Archive/Saved.antt =====
-- What `backUpDir` has copied once it returns without an error.
use pastelup.Base.{
  Str, str, Bool, true, false, List, [], ◌∷◌, ◌++◌, Option, none, some, ◌⊎◌, inl, inr, ok, pure,
  ◌>>◌, >>-eq-ok, if◌then◌else◌, ◌≡◌, refl,
}
use pastelup.Path.{join}
use pastelup.Configs.{Config}
use pastelup.Host.{Host, check_file_exist}
use pastelup.Archive.{
  copy_existing, copy_sub_dir, copy_to_archive, back_up_dir, delete_old_archives,
}

module _ {W : Type 0} (host : Host W) where
  -- One after the other, from one state to another, each of the names was copied or not there.
  abbrev pub Copies : Str → Str → List Str → W → W → Type 0
  Copies src dst [] s t = s ≡ t
  Copies src dst (name ∷ rest) s t =
      (u : W) × (((check_file_exist host (join src name) s ≡ false) × (s ≡ u))
        ⊎ ((check_file_exist host (join src name) s ≡ true)
            × (host.copy (join src name) (join dst name) s ≡ ok tt u)))
      × Copies src dst rest u t

  -- The same for the directory of a test network, if the program runs on that network.
  abbrev pub CopiesSub : Bool → Str → Str → Str → List Str → Type 0
  CopiesSub on sub src dst names =
      (on ≡ false) ⊎ ((s t : W) × Copies (join src sub) (join dst sub) names s t)

  -- Everything was copied (`none`), or the names that were there.
  abbrev pub Saved : Config → Str → Str → Option (List Str) → Type 0
  Saved config src dst none = (s t : W) × (host.copy src dst s ≡ ok tt t)
  Saved config src dst (some names) =
      ((s t : W) × Copies src dst names s t)
      × CopiesSub config.is_testnet (str "testnet3") src dst names
      × CopiesSub config.is_devnet (str "devnet") src dst names

  name-copied :
      (exists : Bool) (from to : Str) (s u : W)
      → check_file_exist host from s ≡ exists
      → (if exists then host.copy from to else pure tt) s ≡ ok tt u
      → ((check_file_exist host from s ≡ false) × (s ≡ u))
        ⊎ ((check_file_exist host from s ≡ true) × (host.copy from to s ≡ ok tt u))
  name-copied true from to s u there copied = inr (there, copied)
  name-copied false from to s u there copied = inl (there, (cc))

  copy_existing-Copies :
      (src dst : Str) (names : List Str) (s t : W)
      → copy_existing host src dst names s ≡ ok tt t
      → Copies src dst names s t
  unfolding copy_existing
  copy_existing-Copies src dst [] s t done = cc
  copy_existing-Copies src dst (name ∷ rest) s t done =
      let exists = check_file_exist host (join src name) s in
      let (x, u, copied, later) =
        >>-eq-ok (if exists then host.copy (join src name) (join dst name) else pure tt)
          (copy_existing host src dst rest) s done in
      (
        u,
        name-copied exists (join src name) (join dst name) s u refl copied,
        copy_existing-Copies src dst rest u t later,
      )

  copy_sub_dir-CopiesSub :
      (on : Bool) (sub src dst : Str) (names : List Str) (s t : W)
      → copy_sub_dir host on sub src dst names s ≡ ok tt t
      → CopiesSub on sub src dst names
  unfolding copy_sub_dir
  copy_sub_dir-CopiesSub false sub src dst names s t done = inl refl
  copy_sub_dir-CopiesSub true sub src dst names s t done =
      let (x, u, made, copied) =
        >>-eq-ok (host.mkdir (join dst sub))
          (copy_existing host (join src sub) (join dst sub) names) s done in
      inr (u, t, copy_existing-Copies (join src sub) (join dst sub) names u t copied)

  copy_to_archive-Saved :
      (config : Config) (src dst : Str) (what : Option (List Str)) (s t : W)
      → copy_to_archive host config src dst what s ≡ ok tt t
      → Saved config src dst what
  unfolding copy_to_archive
  copy_to_archive-Saved config src dst none s t done = (s, t, done)
  copy_to_archive-Saved config src dst (some names) s t done =
      let here = copy_existing host src dst names in
      let test = copy_sub_dir host config.is_testnet (str "testnet3") src dst names in
      let dev = copy_sub_dir host config.is_devnet (str "devnet") src dst names in
      let (x₁, a, made, rest₁) = >>-eq-ok (host.mkdir dst) (here >> (test >> dev)) s done in
      let (x₂, b, copied, rest₂) = >>-eq-ok here (test >> dev) a rest₁ in
      let (x₃, c, tested, developed) = >>-eq-ok test dev b rest₂ in
      (
        (a, b, copy_existing-Copies src dst names a b copied),
        copy_sub_dir-CopiesSub config.is_testnet (str "testnet3") src dst names b c tested,
        copy_sub_dir-CopiesSub config.is_devnet (str "devnet") src dst names c t developed,
      )

  pub back_up_dir-Saved :
      (config : Config) (dir prefix : Str) (what : Option (List Str)) (s t : W)
      → back_up_dir host config dir prefix what s ≡ ok tt t
      → Saved config dir
          (join config.archive_dir (prefix ++ (str "_archive_" ++ host.unix_time s)))
          what
  unfolding back_up_dir
  back_up_dir-Saved config dir prefix what s t done =
      let path = join config.archive_dir (prefix ++ (str "_archive_" ++ host.unix_time s)) in
      let copying = copy_to_archive host config dir path what in
      let deleting = delete_old_archives host config.archive_dir prefix in
      let (x₁, a, made, rest₁) =
        >>-eq-ok
          (if check_file_exist host config.archive_dir s
            then pure tt
            else host.mkdir config.archive_dir)
          (copying >> deleting) s done in
      let (x₂, b, copied, deleted) = >>-eq-ok copying deleting a rest₁ in
      copy_to_archive-Saved config dir path what a b copied
