-- ===== src/Examples/Nodes.antt =====
-- Waiting for the node and ending processes on the sample host.
use pastelup.Base.{
  ℕ, zero, suc, ◌≤◌, ◌<◌, ◌==◌, str, true, false, List, [], ◌∷◌, some, ◌⊎◌, ok, pure, ◌≡◌, refl, ap,
  ◌∙◌, All, arith, has_prefix, if◌then◌else◌, ◌-◌,
}
use pastelup.Constants.{linux, hermes}
use pastelup.Constants.Execs.{service_name}
use pastelup.Host.{Process}
use pastelup.Host.Sample.{World, sample_host, empty_world}
use pastelup.Node.{is_busy, get_pastel_info, waiting_for_pasteld_to_start, kill_process}
use pastelup.Node.Waiting.{
  at_poll, IsDown, waiting_for_pasteld_to_start-up, waiting_for_pasteld_to_start-down,
}
use pastelup.Node.Processes.{IsFirst, kill_process_lem}

-- The node answers after as many pauses.
abbrev slow_world : ℕ → World
slow_world n = record empty_world { pauses = n }

at_poll-slow : (i n : ℕ) → at_poll sample_host i (slow_world n) ≡ slow_world (n - i)
unfolding sample_host get_pastel_info
at_poll-slow zero n = ap slow_world (omega arith)
at_poll-slow (suc i) n = at_poll-slow i (n - 1) ∙ ap slow_world (omega arith)

slow-IsDown : (n : ℕ) → 0 < n → IsDown sample_host (slow_world n)
unfolding sample_host get_pastel_info
slow-IsDown n h = ground arith

still-IsDown :
    (k n : ℕ) → k ≤ n → (i : ℕ) → i < k → IsDown sample_host (at_poll sample_host i (slow_world n))
still-IsDown k n le i lt = rw (at_poll-slow i n) (slow-IsDown (n - i) (omega arith))

waiting_for_pasteld_to_start-up_example :
    waiting_for_pasteld_to_start sample_host 5 (slow_world 3) ≡ (some true, slow_world 0)
unfolding sample_host get_pastel_info
waiting_for_pasteld_to_start-up_example =
    waiting_for_pasteld_to_start-up sample_host 3 1 (slow_world 3) (omega arith)
      (still-IsDown 3 3 (omega arith)) refl

waiting_for_pasteld_to_start-down_example :
    waiting_for_pasteld_to_start sample_host 32 (slow_world 40) ≡ (some false, slow_world 9)
unfolding sample_host get_pastel_info is_busy
waiting_for_pasteld_to_start-down_example =
    waiting_for_pasteld_to_start-down sample_host 0 (slow_world 40)
      (still-IsDown 31 40 (omega arith)) refl

abbrev hermes_process : Process
hermes_process = record { executable = str "hermes-linux-am"; pid = 42 }

abbrev two_processes : List Process
two_processes = record { executable = str "bash"; pid = 7 } ∷ hermes_process ∷ []

abbrev busy_world : World
busy_world = record empty_world { running = two_processes }

kill_process_lem_example :
    ((kill_process sample_host linux hermes busy_world ≡ ok tt busy_world)
      × All (λ q. has_prefix (str "hermes-linux-amd64") q.executable ≡ false) two_processes)
    ⊎ ((p : Process) × IsFirst (str "hermes-linux-amd64") p two_processes
        × (kill_process sample_host linux hermes busy_world
            ≡ (if p.pid == 0 then pure tt else sample_host.kill p.pid) busy_world))
unfolding sample_host service_name
kill_process_lem_example =
    kill_process_lem sample_host linux hermes two_processes busy_world busy_world refl
