-- ===== src/Disk.antt =====
-- utils/utils.go: files, folders and downloads, on the calls of Go's library that only the
-- installation makes.
pub mod Clean
pub mod Resolved
pub mod Unzip
pub mod Sample
use pastelup.Base.{
  ℕ, zero, suc, ◌==◌, Str, str, Bool, true, false, not, List, [], ◌∷◌, ◌++◌, Option, none, some,
  Error, os_error, errorf, wrapf, ◌⊎◌, inl, inr, Action, panic, pure, fail, attempt, query, perform,
  wrap_error, ◌>>=◌, ◌>>◌, if◌then◌else◌, trim_space, equal_fold, str_eq, get_elem?, map,
}
use pastelup.Path.{join}
use pastelup.Constants.{OsType, windows, linux, mac, unknown}
use pastelup.Constants.Packages.{network_modes}
use pastelup.Host.{Host, present, not_exist, stat_error}
use pastelup.Masternode.Address.{split_on}

-- The answer to `http.Get`: its status, what can be read of its body, and the error that ends the
-- reading if there is one.
pub record Response : Type 0 where
  pub status_code : ℕ
  pub body : Str
  pub failure : Option Error

-- An entry of a ZIP archive: its name, and its bytes unless it is a directory or cannot be read.
pub record ZipEntry : Type 0 where
  pub name : Str
  pub is_dir : Bool
  pub content : Error ⊎ Str

pub record Disk (W : Type 0) : Type 0 where
  -- `os.Create`: an empty file
  pub create : Str → Action W (Unit {0})
  -- `os.OpenFile` with `O_RDWR`, and a write at the start of the file, which must be there
  pub overwrite : Str → Str → Action W (Unit {0})
  -- a write at the end of a file, which is created if it is missing
  pub append_to : Str → Str → Action W (Unit {0})
  pub mkdir_all : Str → Action W (Unit {0})
  -- the mode of `os.Stat`
  pub is_regular : Str → W → Bool
  pub is_dir : Str → W → Bool
  pub http_get : Str → Action W Response
  -- `zip.OpenReader`
  pub zip_entries : Str → Action W (List ZipEntry)
  -- `RunCMDWithInteractive`
  pub interactive : Str → List Str → Action W (Unit {0})
  -- `r.Intn(n)`
  pub random : ℕ → W → ℕ × W
  pub getenv : Str → W → Str
  pub setenv : Str → Str → W → W
  -- whether `exec.LookPath` finds a program
  pub look_path : Str → W → Bool
  -- `CalChecksumOfFolder`
  pub checksum_of_folder : Str → Action W Str

-- The characters of `GenerateRandomString`
unfoldable pub random_chars : Str
random_chars = str "ABCDEFGHIJKLMNOPQRSTUVWXYZabcdefghijklmnopqrstuvwxyz0123456789"

-- `chars[i]`; `Intn` is below the length.
unfoldable pub char_at : ℕ → ℕ
char_at i = elim (get_elem? random_chars i) [ some c ↦ c | none ↦ 0 ]

-- `pkg[0]` for the parts between colons
abbrev pub first_part : Str → Str
first_part word = elim (split_on b':' word) [ [] ↦ [] | p ∷ _ ↦ p ]

-- `IsValidNetworkOpt`
unfoldable pub is_one_of : Str → List Str → Bool
is_one_of v [] = false
is_one_of v (n ∷ rest) = if equal_fold n v then true else is_one_of v rest

unfoldable pub is_valid_network_opt : Str → Bool
is_valid_network_opt v = is_one_of (trim_space v) network_modes

module _ {W : Type 0} (host : Host W) (disk : Disk W) (os : OsType) where
  -- What `create` is called on if the path does not exist; else `fs.ErrExist`.
  unfoldable pub if_missing : Str → Action W (Unit {0}) → Action W (Unit {0})
  if_missing path create = query (host.stat path) >>= λ st. elim st [
    | not_exist ↦ create
    | _ ↦ fail (os_error "file already exists")
  ]

  -- `CreateFolder`
  unfoldable pub create_folder : Str → Bool → Action W (Unit {0})
  create_folder path force =
      let create = wrap_error "Failed to create directory" (disk.mkdir_all path) in
      if force then create else if_missing path create

  -- `CreateFile`
  unfoldable pub create_file : Str → Bool → Action W (Unit {0})
  create_file path force =
      let create = wrap_error "failed to create file" (disk.create path) in
      if force then create else if_missing path create

  -- `GenerateRandomString`
  unfoldable pub generate_random_string : ℕ → W → Str × W
  generate_random_string zero w = ([], w)
  generate_random_string (suc n) w =
      let (i, u) = disk.random 62 w in
      let (rest, v) = generate_random_string n u in (char_at i ∷ rest, v)

  -- `CreateAndWrite`
  unfoldable pub create_and_write : Bool → Str → Str → Action W (Unit {0})
  create_and_write force path content = create_file path force >> disk.overwrite path content

  -- `DownloadFile`: the file gets its name when it is complete.
  unfoldable pub download_file : Str → Str → Action W (Unit {0})
  download_file path url = do
    let tmp = path ++ str ".tmp"
    resp ← wrap_error "http request failed" (disk.http_get url)
    if resp.status_code == 200 then pure tt else fail (errorf "file not found")
    disk.create tmp
    wrap_error "write file failed" (disk.append_to tmp resp.body)
    elim resp.failure [ none ↦ pure tt | some e ↦ fail (wrapf "write file failed" e) ]
    host.rename tmp path

  -- The end of `CopyFile`
  unfoldable pub write_copy : Str → Str → Action W (Unit {0})
  write_copy dst bytes = disk.create dst >> disk.append_to dst bytes

  -- `CopyFile`: a folder that could not be created is tried again, and then no file is written.
  unfoldable pub copy_file : Str → Str → Str → Action W (Unit {0})
  copy_file src dst_folder name = do
    st ← query (host.stat src)
    elim st [
      | present ↦ pure tt
      | not_exist ↦ fail (os_error "no such file")
      | stat_error e ↦ fail e
    ]
    regular ← query (disk.is_regular src)
    if regular then pure tt else fail (errorf "is not a regular file")
    bytes ← host.read_file src
    folder ← query (host.stat dst_folder)
    let go_on = write_copy (join dst_folder name) bytes
    let create = do
      created ← attempt (create_folder dst_folder true)
      elim created [ inl e ↦ create_folder dst_folder true | inr done ↦ go_on ]
    elim folder [ not_exist ↦ create | _ ↦ go_on ]

  -- The loop of `GetInstalledPackages` over the lines of dpkg: the packages that are installed. A
  -- line `ii` without a second word is an index out of range.
  unfoldable pub installed_of : List Str → Action W (List Str)
  installed_of [] = pure []
  installed_of (line ∷ rest) = do
    name ← elim (split_on b' ' line) [
      | [] ↦ pure []
      | status ∷ [] ↦ if str_eq status (str "ii") then panic else pure []
      | status ∷ word ∷ _ ↦ pure (if str_eq status (str "ii") then first_part word ∷ [] else [])
    ]
    later ← installed_of rest
    pure (name ++ later)

  -- The loop over the directories of the path: one that cannot be read is logged.
  unfoldable pub names_in : List Str → Action W (List Str)
  names_in [] = pure []
  names_in (dir ∷ rest) = do
    read ← attempt (host.read_dir dir)
    let here : List Str = elim read [ inl e ↦ [] | inr files ↦ map (λ f. f.name) files ]
    later ← names_in rest
    pure (here ++ later)

  -- `GetInstalledPackages`: the keys of the map.
  unfoldable pub get_installed_packages : Action W (List Str)
  get_installed_packages = elim os [
    | linux ↦ do
      ran ←
          perform (
            host.run_cmd (str "bash")
              (str "-c" ∷ str "dpkg-query -l |  awk {' print $1,$2 '}" ∷ []))
      let listed = installed_of (split_on 10 ran.output)
      elim ran.failure [ some e ↦ pure [] | none ↦ listed ]
    | mac ↦ do paths ← query (disk.getenv (str "PATH")); names_in (split_on b':' paths)
    | _ ↦ pure []
  ]
