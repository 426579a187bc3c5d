-- ===== src/Examples/Removals.antt =====
-- The theorem on the removal of components, on the sample host.
use pastelup.Base.{
  Str, str, false, [], ◌∷◌, none, some, Keeps, still-Keeps, ◌≡◌, ◌≢◌, refl, All, str_eq, str_eq_iff,
  sym, has_prefix, Bool-cases, inl, inr,
}
use pastelup.Constants.{linux}
use pastelup.Host.Sample.{World, sample_host}
use pastelup.Service.Manager.{noop_manager}
use pastelup.Stop.Untouched.{Untouched}
use pastelup.Uninstall.{
  run_uninstall_node, run_uninstall_wallet_node, run_uninstall_super_node, run_uninstall_rq_service,
  run_uninstall_dd_service, run_uninstall_wallet_node_service, run_uninstall_super_node_service,
  run_uninstall_hermes_service,
}
use pastelup.Uninstall.Keeps.{Removals, run_uninstall-Keeps}
use pastelup.Examples.{sample_config}

abbrev wallet : Str
wallet = str "w/wallet.dat"

-- The wallet holds these bytes.
abbrev HoldsWallet : World → Type 0
HoldsWallet w = w.files wallet ≡ some (str "coins")

remove-HoldsWallet : (q : Str) → wallet ≢ q → Keeps HoldsWallet (sample_host.remove q)
unfolding sample_host
remove-HoldsWallet q differs = still-Keeps HoldsWallet (sample_host.remove q) (λ w h.
    elim (Bool-cases (str_eq q wallet)) [
      | inl same ↦ absurd (differs (sym ((str_eq_iff q wallet).0 same)))
      | inr other ↦ rw other h
    ])

wallet_removals : Removals sample_host wallet HoldsWallet
unfolding sample_host
wallet_removals = record {
  remove_lem = remove-HoldsWallet;
  remove_all_lem = λ q h. still-Keeps HoldsWallet _ (λ w hw. hw);
  read_line_lem = λ q w h. h;
}

wallet_quiet : Untouched sample_host noop_manager HoldsWallet
unfolding sample_host noop_manager
wallet_quiet = record {
  processes_lem = still-Keeps HoldsWallet _ (λ w h. h);
  kill_lem = λ pid. still-Keeps HoldsWallet _ (λ w h. h);
  find_lem = λ term. still-Keeps HoldsWallet _ (λ w h. h);
  info_lem = λ w h. h;
  stop_node_lem = still-Keeps HoldsWallet _ (λ w h. h);
  sleep_lem = λ n w h. h;
  stop_service_lem = λ config app. still-Keeps HoldsWallet _ (λ w h. h);
  is_registered_lem = λ config app. still-Keeps HoldsWallet _ (λ w h. h);
}

run_uninstall-Keeps_example : All (Keeps HoldsWallet {A = Unit {0}}) (
    run_uninstall_node sample_host linux (noop_manager, none) sample_config false
    ∷ run_uninstall_wallet_node sample_host linux (noop_manager, none) sample_config false
    ∷ run_uninstall_super_node sample_host linux (noop_manager, none) sample_config false
    ∷ run_uninstall_rq_service sample_host linux (noop_manager, none) sample_config false
    ∷ run_uninstall_dd_service sample_host linux (noop_manager, none) sample_config false
    ∷ run_uninstall_wallet_node_service sample_host linux (noop_manager, none) sample_config false
    ∷ run_uninstall_super_node_service sample_host linux (noop_manager, none) sample_config false
    ∷ run_uninstall_hermes_service sample_host linux (noop_manager, none) sample_config false
    ∷ [])
unfolding has_prefix
run_uninstall-Keeps_example =
    run_uninstall-Keeps sample_host linux noop_manager wallet HoldsWallet wallet_removals
      wallet_quiet none sample_config refl
