-- ===== src/Start/Pasteld/Started.antt =====
-- When the start of pasteld succeeds, and what its success means.
use pastelup.Base.{
  ℕ, suc, ◌+◌, ◌≤◌, ◌<◌, Str, Bool, true, false, Option, none, some, Error, ok, ◌>>=◌, ◌>>◌,
  is_empty, ◌≡◌, refl,
}
use pastelup.Path.{join}
use pastelup.Constants.{OsType, pastel_conf_name}
use pastelup.Constants.Execs.{pasteld_name}
use pastelup.Configurer.{default_zksnark_dir}
use pastelup.Configs.{Config}
use pastelup.Host.{Host, present}
use pastelup.Service.Manager.{ServiceManager}
use pastelup.Node.{get_pastel_info, waiting_for_pasteld_to_start}
use pastelup.Node.Waiting.{at_poll, IsDown, waiting_for_pasteld_to_start-up}
use pastelup.Start.{check_pastel_file_path}
use pastelup.Start.Pasteld.{
  zksnark_params_names, check_zksnark_params, spawn_pasteld, start_attempt, run_pastel_node,
  wait_for_node, ext_ip_or, pasteld_args,
}
use pastelup.Start.Pasteld.ParamFiles.{AreParams, all_good, check_zksnark_params_lem}

module _ {W : Type 0} (host : Host W) (os : OsType) (sha256_hex : Str → Str) where
  check_zksnark_params-good :
      (files : Str → Option Str) (w : W) (config : Config)
      → AreParams host os sha256_hex files config w
      → all_good host os sha256_hex files
          (default_zksnark_dir config.configurer)
          (zksnark_params_names config.legacy)
        ≡ true
      → check_zksnark_params host os sha256_hex config w ≡ ok tt w
  check_zksnark_params-good files w config are good =
      let checked = check_zksnark_params_lem host os sha256_hex files w config are in
      rw good at checked

  spawn_pasteld_lem :
      (files : Str → Option Str) (config : Config) (tx_index_one reindex : Bool)
      (ext_ip mn_priv_key : Str) (w : W)
      → AreParams host os sha256_hex files config w
      → all_good host os sha256_hex files
          (default_zksnark_dir config.configurer)
          (zksnark_params_names config.legacy)
        ≡ true
      → host.stat (join config.pastel_exec_dir (pasteld_name os)) w ≡ present
      → host.stat (join config.working_dir pastel_conf_name) w ≡ present
      → is_empty ext_ip ≡ false
      → spawn_pasteld host os sha256_hex config tx_index_one reindex ext_ip mn_priv_key w
        ≡ ok tt (
            host.spawn
              (join config.pastel_exec_dir (pasteld_name os))
              (pasteld_args config tx_index_one reindex ext_ip mn_priv_key)
              w)
  unfolding spawn_pasteld check_pastel_file_path ext_ip_or
  spawn_pasteld_lem files config tx_index_one reindex ext_ip mn_priv_key w are good exec conf ip =
      let found : check_pastel_file_path host os config.pastel_exec_dir (pasteld_name os) w
          ≡ ok (join config.pastel_exec_dir (pasteld_name os)) w =
        rw (◌>>=◌, exec) refl in
      let configured : check_pastel_file_path host os config.working_dir pastel_conf_name w
          ≡ ok (join config.working_dir pastel_conf_name) w =
        rw (◌>>=◌, conf) refl in
      rw (found, ◌>>=◌, ◌>>◌, configured, check_zksnark_params-good files w config are good, ip)
        refl

  wait_for_node-up :
      (fuel : ℕ) (w v : W)
      → waiting_for_pasteld_to_start host fuel w ≡ (some true, v)
      → wait_for_node host os sha256_hex fuel w ≡ ok (some tt) v
  unfolding wait_for_node
  wait_for_node-up fuel w v up = rw (◌>>=◌, up) refl

  -- If no service was started, the parameter files of the node are there, can be read and have the
  -- checksums of their names, pasteld and pastel.conf are there and an address is given, then `runPastelNode` starts the process, and if the node then answers
  -- after at most 30 polls that failed, the run ends with success at the poll that was answered,
  -- with the fuel of that many polls or more.
  pub run_pastel_node-up :
      (files : Str → Option Str) (manager : ServiceManager W × Option Error) (config : Config)
      (k fuel : ℕ) (tx_index_one reindex : Bool) (ext_ip mn_priv_key : Str) (w u started : W)
      → start_attempt manager config w ≡ ok false u
      → AreParams host os sha256_hex files config u
      → all_good host os sha256_hex files
          (default_zksnark_dir config.configurer)
          (zksnark_params_names config.legacy)
        ≡ true
      → host.stat (join config.pastel_exec_dir (pasteld_name os)) u ≡ present
      → host.stat (join config.working_dir pastel_conf_name) u ≡ present
      → is_empty ext_ip ≡ false
      → host.spawn
          (join config.pastel_exec_dir (pasteld_name os))
          (pasteld_args config tx_index_one reindex ext_ip mn_priv_key)
          u
        ≡ started
      → k ≤ 30
      → ((i : ℕ) → i < k → IsDown host (at_poll host i started))
      → (get_pastel_info host (at_poll host k started)).0.1 ≡ none
      → run_pastel_node host os sha256_hex
          (k + suc fuel)
          manager
          config
          tx_index_one
          reindex
          ext_ip
          mn_priv_key
          w
        ≡ ok (some tt) (get_pastel_info host (at_poll host k started)).1
  unfolding run_pastel_node
  run_pastel_node-up files manager config k fuel tx_index_one reindex ext_ip mn_priv_key w u started
        idle are good exec conf ip runs le down up =
      let spawned =
        spawn_pasteld_lem files config tx_index_one reindex ext_ip mn_priv_key u are good exec conf
          ip in
      let waited =
        wait_for_node-up (k + suc fuel) _ _
          (waiting_for_pasteld_to_start-up host k fuel started le down up) in
      rw (◌>>=◌, idle, ◌>>◌, spawned, runs) waited
