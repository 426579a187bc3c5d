-- ===== src/Host/Sample.antt =====
-- A small host for the examples: files, units of systemd, processes, and a node that answers after
-- a number of pauses.
use pastelup.Base.{
  ℕ, ◌-◌, ◌==◌, Str, str, Bool, true, false, List, [], ◌∷◌, Option, none, some, Error, os_error, ok,
  err, Action, str_eq, if◌then◌else◌,
}
use pastelup.Host.{Host, Ran, present, not_exist, Process, Info, DirEntry}

pub record World : Type 0 where
  pub files : Str → Option Str
  pub registered : Str → Bool
  pub active : Str → Bool
  pub running : List Process
  pub entries : List DirEntry
  pub pauses : ℕ
  pub sessions : ℕ

abbrev pub succeeds : Action World (Unit {0})
succeeds w = ok tt w

abbrev pub prints : Str → World → Ran × World
prints text w = (record { output = text; failure = none }, w)

-- `systemctl VERB UNIT`
abbrev pub systemctl_run : Str → Str → World → Ran × World
systemctl_run verb u w =
    if str_eq verb (str "list-unit-files")
    then prints (if w.registered u then str "1 unit files listed." else str "0 unit files listed.")
        w
    else if str_eq verb (str "is-active")
    then prints (if w.active u then str "active" else str "inactive") w
    else if str_eq verb (str "start")
    then prints [] (record w { active = λ v. if str_eq v u then true else w.active v })
    else if str_eq verb (str "stop")
    then prints [] (record w { active = λ v. if str_eq v u then false else w.active v })
    else prints [] w

abbrev pub run : Str → List Str → World → Ran × World
run command args w = elim args [
  | program ∷ verb ∷ u ∷ [] ↦
      if str_eq program (str "systemctl") then systemctl_run verb u w else prints [] w
  | _ ↦ prints (str "user") w
]

-- All processes but the one of the identifier.
abbrev pub without : ℕ → List Process → List Process
without pid [] = []
without pid (p ∷ rest) = let later = without pid rest in if p.pid == pid then later else p ∷ later

abbrev pub answer : World → (Info × Option Error) × World
answer w = (
  (
    record { version = 1; blocks = 7; message = none },
    if w.pauses == 0 then none else some (os_error "connection refused"),
  ),
  w,
)

unfoldable pub sample_host : Host World
unfolding str_eq
sample_host = record {
  run_cmd = run;
  spawn = λ command args w. w;
  stat = λ path w. elim (w.files path) [ none ↦ not_exist | some _ ↦ present ];
  processes = λ w. ok w.running w;
  kill = λ pid w. ok tt (record w { running = without pid w.running });
  external_ip = λ w. ok (str "10.0.0.1") w;
  sleep = λ n w. record w { pauses = w.pauses - 1 };
  read_line = λ question w. (some (str "y"), w);
  get_info = answer;
  mn_sync = λ w. ok (record { asset_name = str "Finished"; is_synced = true }) w;
  reset_sync = succeeds;
  write_file = λ path bytes w.
      ok tt (record w { files = λ p. if str_eq path p then some bytes else w.files p });
  read_file = λ path w. elim (w.files path) [
    | none ↦ err (os_error "file does not exist") w
    | some b ↦ ok b w
  ];
  rename = λ from to. succeeds;
  remove = λ path w. ok tt (record w { files = λ p. if str_eq path p then none else w.files p });
  mkdir = λ path. succeeds;
  copy = λ from to. succeeds;
  remove_all = λ path. succeeds;
  read_dir = λ path w. ok w.entries w;
  find_running_process = λ term w. ok [] w;
  stop_node = succeeds;
  unix_time = λ w. str "1700000000";
  time_stamp = λ w. str "2023-11-14";
}

abbrev pub nobody : Str → Bool
nobody u = false

abbrev pub empty_world : World
empty_world = record {
  files = λ p. none;
  registered = nobody;
  active = nobody;
  running = [];
  entries = [];
  pauses = 0;
  sessions = 0;
}
