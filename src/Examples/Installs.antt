-- ===== src/Examples/Installs.antt =====
-- The theorems on the installation and on updates.
use pastelup.Base.{
  ℕ, ◌<◌, Str, str, Bool, false, not, ◌&&◌, elem, List, [], ◌∷◌, Option, none, some, Error, ◌⊎◌,
  inr, Action, Out, ok, err, os_error, state_of, pure, ◌≡◌, refl, Keeps, still-Keeps, has_prefix,
  str_eq,
}
use pastelup.Path.{join}
use pastelup.Constants.{linux, ToolType, super_node, pasteld}
use pastelup.Configurer.{new_linux_configurer}
use pastelup.Configs.{Config}
use pastelup.Host.Sample.{World, sample_host, empty_world}
use pastelup.Service.Manager.{noop_manager}
use pastelup.Stop.Untouched.{Untouched}
use pastelup.Disk.Sample.{
  with_file, moving_host, sample_disk, slip_disk, Holds, other_file, sample_others,
}
use pastelup.Disk.Clean.{clean}
use pastelup.Disk.Unzip.{unzip, unzip-Keeps}
use pastelup.Install.{get_default_rpc_parameters, is_no_port}
use pastelup.Install.Defaults.{IsChosen, IsChosenPort, get_default_rpc_parameters-IsChosen}
use pastelup.Install.Packages.{packages_of, without_repetitions, installed_or_not}
use pastelup.Install.Packages.Sets.{NoRepeats, installed_or_not-packages_of}
use pastelup.Install.Snapshot.{TarEntry}
use pastelup.Install.Texts.{Templates}
use pastelup.Install.Untouched.{LeavesFile}
use pastelup.Install.Untouched.Parts.{IsOutside}
use pastelup.Examples.{sample_config}

abbrev conf_file : Str
conf_file = str "w/pastel.conf"

read_back :
    (found : Option Str) (w : World)
    → Holds conf_file (str "rpcuser=u") w
    → Holds conf_file (str "rpcuser=u") (
        state_of {A = Str} (elim found as (λ x. Out World Str) [
          | none ↦ err (os_error "file does not exist") w
          | some b ↦ ok b w
        ]))
read_back none w h = h
read_back (some b) w h = h

unfoldable sample_leaves :
    LeavesFile moving_host sample_disk conf_file (Holds conf_file (str "rpcuser=u"))
unfolding moving_host sample_disk sample_host
sample_leaves = record {
  mkdir_all_lem = λ q. still-Keeps (Holds conf_file (str "rpcuser=u")) _ (λ w h. h);
  create_lem = λ q differs.
      still-Keeps (Holds conf_file (str "rpcuser=u")) _
        (λ w h. other_file conf_file q (str "rpcuser=u") _ w differs h);
  append_to_lem = λ q b differs.
      still-Keeps (Holds conf_file (str "rpcuser=u")) _
        (λ w h. other_file conf_file q (str "rpcuser=u") _ w differs h);
  zip_entries_lem = λ q. still-Keeps (Holds conf_file (str "rpcuser=u")) _ (λ w h. h);
  run_cmd_lem = λ command args w h. h;
  read_file_lem =
      λ q. still-Keeps (Holds conf_file (str "rpcuser=u")) _ (λ w h. read_back (w.files q) w h);
  rename_lem = λ from to differs_from differs_to.
      still-Keeps (Holds conf_file (str "rpcuser=u")) _ (λ w h.
        other_file conf_file to (str "rpcuser=u") (w.files from) (with_file from none w) differs_to
          (other_file conf_file from (str "rpcuser=u") none w differs_from h));
  remove_lem = λ q differs.
      still-Keeps (Holds conf_file (str "rpcuser=u")) _
        (λ w h. other_file conf_file q (str "rpcuser=u") none w differs h);
  http_get_lem = λ url. still-Keeps (Holds conf_file (str "rpcuser=u")) _ (λ w h. h);
  interactive_lem = λ command args. still-Keeps (Holds conf_file (str "rpcuser=u")) _ (λ w h. h);
  checksum_lem = λ q. still-Keeps (Holds conf_file (str "rpcuser=u")) _ (λ w h. h);
  setenv_lem = λ key v w h. h;
  sleep_lem = λ n w h. h;
  read_line_lem = λ q w h. h;
  read_dir_lem = λ dir. still-Keeps (Holds conf_file (str "rpcuser=u")) _ (λ w h. h);
  random_lem = λ n w h. h;
}

unzip-Keeps_example :
    Keeps
      (Holds conf_file (str "rpcuser=u"))
      (unzip moving_host slip_disk linux (str "x/pastel.zip") (str "x"))
unfolding clean has_prefix str_eq
unzip-Keeps_example =
    unzip-Keeps moving_host slip_disk linux conf_file (Holds conf_file (str "rpcuser=u"))
      (sample_others conf_file (str "rpcuser=u")) (str "x/pastel.zip") (str "x") refl

unfoldable sample_quiet : Untouched moving_host noop_manager (Holds conf_file (str "rpcuser=u"))
unfolding moving_host sample_host noop_manager
sample_quiet = record {
  processes_lem = still-Keeps (Holds conf_file (str "rpcuser=u")) _ (λ w h. h);
  kill_lem = λ pid. still-Keeps (Holds conf_file (str "rpcuser=u")) _ (λ w h. h);
  find_lem = λ term. still-Keeps (Holds conf_file (str "rpcuser=u")) _ (λ w h. h);
  info_lem = λ w h. h;
  stop_node_lem = still-Keeps (Holds conf_file (str "rpcuser=u")) _ (λ w h. h);
  sleep_lem = λ n w h. h;
  stop_service_lem = λ config app. still-Keeps (Holds conf_file (str "rpcuser=u")) _ (λ w h. h);
  is_registered_lem = λ config app. still-Keeps (Holds conf_file (str "rpcuser=u")) _ (λ w h. h);
}

unfoldable sample_outside : IsOutside conf_file sample_config
unfolding clean has_prefix str_eq join new_linux_configurer
sample_outside = record {
  programs = refl;
  programs_cleaned = refl;
  dd_cleaned = refl;
  support = refl;
  support_cleaned = refl;
}

abbrev pub same_url : Str → Error ⊎ Str
same_url url = inr url

abbrev pub same_sum : Str → Str
same_sum bytes = bytes

abbrev pub no_templates : Templates
no_templates = record {
  wallet_node_text = λ c. inr [];
  super_node_text = λ c. inr [];
  hermes_text = λ c. inr [];
  rq_service_text = λ c. inr [];
}

abbrev pub no_text : List Str → Str
no_text paths = []

abbrev pub no_tar : Str → Bool → Action World (List TarEntry × Option Error)
no_tar path gzip = pure ([], none)

sample_random : (n : ℕ) (w : World) → 0 < n → (sample_disk.random n w).0 < n
unfolding sample_disk
sample_random n w below = below

abbrev unset_config : Config
unset_config = record sample_config { rpc_user = [] }

get_default_rpc_parameters-IsChosen_example :
    (is_no_port
        (get_default_rpc_parameters moving_host sample_disk linux unset_config
          empty_world).0.rpc_port
      ≡ false)
    × IsChosenPort unset_config.network false unset_config.rpc_port
        (get_default_rpc_parameters moving_host sample_disk linux unset_config
          empty_world).0.rpc_port
    × (IsChosen 8 false []
          (get_default_rpc_parameters moving_host sample_disk linux unset_config
            empty_world).0.rpc_user
        × IsChosen 15 false unset_config.rpc_pwd
            (get_default_rpc_parameters moving_host sample_disk linux unset_config
              empty_world).0.rpc_pwd)
get_default_rpc_parameters-IsChosen_example =
    get_default_rpc_parameters-IsChosen moving_host sample_disk linux sample_random unset_config
      empty_world

abbrev installed : List Str
installed = str "wget" ∷ []

abbrev tools : List ToolType
tools = super_node ∷ pasteld ∷ []

installed_or_not-packages_of_example :
    ((p : Str)
      → elem (installed_or_not false installed (without_repetitions [] (packages_of linux tools))) p
        ≡ (elem (packages_of linux tools) p && not (elem installed p)))
    × NoRepeats
        (installed_or_not false installed (without_repetitions [] (packages_of linux tools)))
installed_or_not-packages_of_example = installed_or_not-packages_of false installed linux tools
