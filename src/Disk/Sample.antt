-- ===== src/Disk/Sample.antt =====
-- A small disk for the examples, on the world of Host/Sample, with a host that moves files.
use pastelup.Base.{
  Str, str, true, false, [], ◌∷◌, ◌++◌, Option, none, some, ok, str_eq, str_eq_iff, if◌then◌else◌,
  ◌≡◌, ◌≢◌, sym, Bool-cases, inl, inr, still-Keeps,
}
use pastelup.Host.{Host}
use pastelup.Host.Sample.{World, sample_host, succeeds, prints}
use pastelup.Disk.{Disk}
use pastelup.Disk.Unzip.{LeavesOthers}

-- The file at a path, replaced
abbrev pub with_file : Str → Option Str → World → World
with_file path bytes w = record w { files = λ p. if str_eq path p then bytes else w.files p }

abbrev pub bytes_at : Str → World → Str
bytes_at path w = elim (w.files path) [ none ↦ [] | some b ↦ b ]

unfoldable pub moving_host : Host World
moving_host = record sample_host {
  run_cmd = λ command args. prints [];
  rename = λ from to w. ok tt (with_file to (w.files from) (with_file from none w));
  remove = λ path w. ok tt (with_file path none w);
}

unfoldable pub sample_disk : Disk World
sample_disk = record {
  create = λ path w. ok tt (with_file path (some []) w);
  overwrite = λ path bytes w. ok tt (with_file path (some bytes) w);
  append_to = λ path bytes w. ok tt (with_file path (some (bytes_at path w ++ bytes)) w);
  mkdir_all = λ path. succeeds;
  is_regular = λ path w. true;
  is_dir = λ path w. false;
  http_get = λ url w. ok (record { status_code = 200; body = url; failure = none }) w;
  zip_entries = λ path w. ok [] w;
  interactive = λ command args. succeeds;
  random = λ n w. (0, w);
  getenv = λ key w. [];
  setenv = λ key v w. w;
  look_path = λ name w. false;
  checksum_of_folder = λ path w. ok [] w;
}

-- A file holds these bytes.
abbrev pub Holds : Str → Str → World → Type 0
Holds p bytes w = w.files p ≡ some bytes

pub other_file :
    (p q bytes : Str) (b : Option Str) (w : World)
    → p ≢ q
    → Holds p bytes w
    → Holds p bytes (with_file q b w)
other_file p q bytes b w differs h = elim (Bool-cases (str_eq q p)) [
  | inl same ↦ absurd (differs (sym ((str_eq_iff q p).0 same)))
  | inr other ↦ rw other h
]

-- A disk with an archive that has an entry outside of its destination
unfoldable pub slip_disk : Disk World
slip_disk = record sample_disk {
  zip_entries = λ path w.
      ok
        (record { name = str "pasteld"; is_dir = false; content = inr (str "p") }
          ∷ record { name = str "../w/pastel.conf"; is_dir = false; content = inr [] }
          ∷ [])
        w;
}

unfoldable pub sample_others : (p bytes : Str) → LeavesOthers slip_disk p (Holds p bytes)
unfolding slip_disk sample_disk
sample_others p bytes = record {
  mkdir_all_lem = λ q. still-Keeps (Holds p bytes) _ (λ w h. h);
  create_lem = λ q resolved differs.
      still-Keeps (Holds p bytes) _ (λ w h. other_file p q bytes _ w differs h);
  append_to_lem = λ q b resolved differs.
      still-Keeps (Holds p bytes) _ (λ w h. other_file p q bytes _ w differs h);
  zip_entries_lem = λ q. still-Keeps (Holds p bytes) _ (λ w h. h);
}
