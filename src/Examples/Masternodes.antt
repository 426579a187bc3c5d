-- ===== src/Examples/Masternodes.antt =====
-- Starting pasteld on the sample host.
use pastelup.Base.{
  ◌>>=◌, has_prefix, ℕ, zero, suc, Str, str, Bool, true, false, List, [], ◌∷◌, Option, none, some,
  inr, ok, err, os_error, Out, ap, ◌≡◌, refl, ◌<◌, arith, str_eq, if◌then◌else◌,
}
use pastelup.Path.{join, join_three}
use pastelup.Constants.{linux}
use pastelup.Constants.Execs.{pasteld_name}
use pastelup.Configurer.{new_linux_configurer}
use pastelup.Configurer.{default_zksnark_dir, get_app_data_dir}
use pastelup.Configs.{Config}
use pastelup.Host.{Stat, present, not_exist}
use pastelup.Host.Sample.{World, sample_host, empty_world}
use pastelup.Masternode.{
  Codec, lookup, address_parts, load_masternode_conf_file, get_masternode_conf_data,
  get_masternode_conf_path,
}
use pastelup.Masternode.Address.{split_on}
use pastelup.PastelConf.{
  parse_pastel_conf, parse_lines, default_network, apply_lines, apply_line, read_tx_index,
  read_regtest, read_devnet, read_testnet, read_rpc_port, read_rpc_pwd, read_rpc_user,
}
use pastelup.PastelConf.Lines.{scan_lines}
use pastelup.Service.Manager.{noop_manager}
use pastelup.Node.{get_pastel_info}
use pastelup.Node.Waiting.{at_poll, IsDown}
use pastelup.Start.Pasteld.{
  zksnark_params_names, pastel_params_check_sums, check_zksnark_params, ext_ip_or, run_pastel_node,
  start_as_masternode, run_start_masternode,
}
use pastelup.Start.Pasteld.ParamFiles.{
  IsFile, AreFiles, AreParams, all_good, Refuses, check_zksnark_params_lem, run_pastel_node-Refuses,
}
use pastelup.Start.Pasteld.Started.{run_pastel_node-up}
use pastelup.Start.Pasteld.AsMasternode.{IsStarted, run_start_masternode-IsStarted}
use pastelup.Examples.{sample_config}

-- A hash under which each file is its own checksum.
abbrev same_text : Str → Str
same_text b = b

abbrev stat_of : Option Str → Stat
stat_of o = elim o [ none ↦ not_exist | some _ ↦ present ]

abbrev read_of : Option Str → World → Out World Str
read_of o w = elim o [ none ↦ err (os_error "file does not exist") w | some b ↦ ok b w ]

sample-IsFile : (w : World) (path : Str) → IsFile sample_host linux same_text path w (w.files path)
unfolding sample_host
sample-IsFile w path = found (w.files path) refl
  where
    found : (o : Option Str) → w.files path ≡ o → IsFile sample_host linux same_text path w o
    found none e = ap stat_of e
    found (some b) e = (ap stat_of e, ap (λ o. read_of o w) e)

sample-AreFiles :
    (w : World) (dir : Str) (names : List Str)
    → AreFiles sample_host linux same_text w.files dir names w
sample-AreFiles w dir [] = tt
sample-AreFiles w dir (name ∷ names) =
    (sample-IsFile w (join dir name), sample-AreFiles w dir names)

sample-AreParams :
    (w : World) (config : Config) → AreParams sample_host linux same_text w.files config w
sample-AreParams w config =
    sample-AreFiles w (default_zksnark_dir config.configurer) (zksnark_params_names config.legacy)

check_zksnark_params_lem_example :
    Refuses sample_host linux same_text
      (check_zksnark_params sample_host linux same_text sample_config empty_world)
      empty_world
check_zksnark_params_lem_example =
    check_zksnark_params_lem sample_host linux same_text empty_world.files empty_world sample_config
      (sample-AreParams empty_world sample_config)

run_pastel_node-Refuses_example :
    Refuses sample_host linux same_text
      (run_pastel_node sample_host linux same_text 40
        (noop_manager, none)
        sample_config
        true
        false
        (str "1.2.3.4")
        []
        empty_world)
      empty_world
unfolding noop_manager
run_pastel_node-Refuses_example =
    run_pastel_node-Refuses sample_host linux same_text empty_world.files (noop_manager, none)
      sample_config 40 true false (str "1.2.3.4") [] empty_world empty_world refl
      (sample-AreParams empty_world sample_config) refl

abbrev param_file : Str → Str
param_file name = join (default_zksnark_dir sample_config.configurer) name

-- The parameter files are good, and each other file holds a line that means nothing.
abbrev node_files : Str → Option Str
node_files p =
    let is_file : Str → Bool = λ name. str_eq p (param_file name) in
    let sum : Str → Option Str = λ name. some (pastel_params_check_sums name) in
    if is_file (str "sapling-spend.params")
    then sum (str "sapling-spend.params")
    else if is_file (str "sapling-output.params")
    then sum (str "sapling-output.params")
    else if is_file (str "sprout-groth16.params")
    then sum (str "sprout-groth16.params")
    else some (str "x")

abbrev node_world : World
node_world = record empty_world { files = node_files; pauses = 1 }

all_good_example :
    all_good sample_host linux same_text node_files
      (default_zksnark_dir sample_config.configurer)
      (zksnark_params_names sample_config.legacy)
    ≡ true
unfolding str_eq pastel_params_check_sums join new_linux_configurer default_zksnark_dir join_three
    get_app_data_dir
all_good_example = refl

first-IsDown : (i : ℕ) → i < 1 → IsDown sample_host (at_poll sample_host i node_world)
unfolding sample_host get_pastel_info
first-IsDown zero lt = refl
first-IsDown (suc i) lt = absurd (omega arith)

run_pastel_node-up_example :
    run_pastel_node sample_host linux same_text 2
      (noop_manager, none)
      sample_config
      true
      false
      (str "1.2.3.4")
      (str "k1")
      node_world
    ≡ ok (some tt) (record node_world { pauses = 0 })
unfolding sample_host noop_manager get_pastel_info join pasteld_name new_linux_configurer
    default_zksnark_dir join_three get_app_data_dir
run_pastel_node-up_example =
    run_pastel_node-up sample_host linux same_text node_files (noop_manager, none) sample_config 1 0
      true false (str "1.2.3.4") (str "k1") node_world node_world node_world refl
      (sample-AreParams node_world sample_config) all_good_example refl refl refl refl (omega arith)
      first-IsDown refl

-- masternode.conf with one entry
abbrev one_codec : Codec
one_codec = record {
  marshal = λ conf. inr [];
  unmarshal = λ bytes. inr (
      (
        str "mn1",
        record {
          mn_address = str "1.2.3.4:19933";
          mn_priv_key = str "k1";
          txid = str "t1";
          out_index = str "1";
          ext_address = str "1.2.3.4:14444";
          ext_p2p = str "1.2.3.4:14445";
          ext_cfg = [];
          ext_key = str "id1";
        },
      )
      ∷ []);
}

parsed : parse_pastel_conf sample_host sample_config node_world ≡ ok sample_config node_world
unfolding sample_host parse_pastel_conf parse_lines join new_linux_configurer default_zksnark_dir
    join_three get_app_data_dir default_network apply_lines scan_lines apply_line read_tx_index
    has_prefix read_regtest read_devnet read_testnet read_rpc_port read_rpc_pwd read_rpc_user
parsed = refl

read_entry :
    get_masternode_conf_data sample_host one_codec sample_config
      (str "mn1")
      (str "1.2.3.4")
      node_world
    ≡ ok (str "k1", str "1.2.3.4", str "19933") node_world
unfolding sample_host get_masternode_conf_data load_masternode_conf_file lookup address_parts
    get_masternode_conf_path new_linux_configurer default_zksnark_dir join_three get_app_data_dir
    split_on
read_entry = refl

run_start_masternode-IsStarted_example :
    (c : Config) × (u : World) × (parse_pastel_conf sample_host sample_config node_world ≡ ok c u)
    × IsStarted sample_host linux same_text one_codec c u (record node_world { pauses = 0 })
unfolding run_start_masternode start_as_masternode ext_ip_or str_eq
run_start_masternode-IsStarted_example =
    run_start_masternode-IsStarted sample_host linux same_text 2 one_codec (noop_manager, none)
      sample_config node_world (record node_world { pauses = 0 })
      (rw (◌>>=◌, parsed, read_entry) run_pastel_node-up_example)
