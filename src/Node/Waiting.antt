-- ===== src/Node/Waiting.antt =====
-- How long `WaitingForPastelDToStart` waits.
use pastelup.Base.{
  ℕ, zero, suc, ◌+◌, ◌≤◌, ◌<◌, ◌==◌, Bool, true, false, none, some, ◌&&◌, if◌then◌else◌, ◌≡◌, refl,
  ◌∙◌, arith, is_some,
}
use pastelup.Host.{Host}
use pastelup.Node.{is_busy, get_pastel_info, waiting_loop, waiting_for_pasteld_to_start}

module _ {W : Type 0} (host : Host W) where
  -- The host at the poll number `i`, if none before it succeeded.
  abbrev pub at_poll : ℕ → W → W
  at_poll zero w = w
  at_poll (suc i) w = at_poll i (host.sleep 10 (get_pastel_info host w).1)

  -- The node does not answer at a poll.
  abbrev pub IsDown : W → Type 0
  IsDown w = is_some (get_pastel_info host w).0.1 ≡ true

  -- The node says that it is still loading.
  abbrev pub says_busy : W → Bool
  says_busy w = is_busy (get_pastel_info host w).0.0.message

  unfoldable pub next_max : ℕ → ℕ → W → ℕ
  next_max attempts max_attempts w =
      if says_busy w && attempts + 1 == max_attempts then max_attempts + 30 else max_attempts

  pub waiting_loop-down :
      (fuel attempts max_attempts : ℕ) (w : W)
      → attempts ≤ max_attempts
      → IsDown w
      → waiting_loop host (suc fuel) attempts max_attempts w
        ≡ waiting_loop host fuel (attempts + 1) (next_max attempts max_attempts w) (at_poll 1 w)
  unfolding waiting_loop next_max
  waiting_loop-down fuel attempts max_attempts w le down = ground arith

  next_max-grows :
      (attempts max_attempts : ℕ) (w : W) → max_attempts ≤ next_max attempts max_attempts w
  unfolding next_max
  next_max-grows attempts max_attempts w = ground arith

  next_max-quiet :
      (attempts max_attempts : ℕ) (w : W)
      → (attempts + 1 ≡ max_attempts → says_busy w ≡ false)
      → next_max attempts max_attempts w ≡ max_attempts
  unfolding next_max
  next_max-quiet attempts max_attempts w quiet = ground arith

  -- No poll of the first `n` hits the attempt at which a busy node makes the wait longer, or the
  -- node is not busy then.
  abbrev IsQuiet : ℕ → ℕ → ℕ → W → Type 0
  IsQuiet n attempts max_attempts w =
      (i : ℕ) → i < n → attempts + i + 1 ≡ max_attempts → says_busy (at_poll i w) ≡ false

  same_loop :
      (fuel fuel' attempts attempts' m : ℕ) (w : W)
      → fuel ≡ fuel'
      → attempts ≡ attempts'
      → waiting_loop host fuel attempts m w ≡ waiting_loop host fuel' attempts' m w
  same_loop fuel fuel' attempts attempts' m w f a = rw (f, a)

  -- After `n` polls that fail.
  waiting_loop-polls :
      (n fuel attempts max_attempts : ℕ) (w : W)
      → attempts + n ≤ max_attempts + 1
      → ((i : ℕ) → i < n → IsDown (at_poll i w))
      → (m : ℕ) × (max_attempts ≤ m)
        × (waiting_loop host (n + fuel) attempts max_attempts w
            ≡ waiting_loop host fuel (attempts + n) m (at_poll n w))
        × (IsQuiet n attempts max_attempts w → m ≡ max_attempts)
  waiting_loop-polls zero fuel attempts max_attempts w le down = (
    max_attempts,
    omega arith,
    same_loop (0 + fuel) fuel attempts (attempts + 0) max_attempts w (omega arith) (omega arith),
    λ quiet. refl,
  )
  waiting_loop-polls (suc n) fuel attempts max_attempts w le down =
      let max₁ = next_max attempts max_attempts w in
      let grows = next_max-grows attempts max_attempts w in
      let (m, above, runs, same) =
        waiting_loop-polls n fuel (attempts + 1) max₁ (at_poll 1 w) (omega (arith, grows))
          (λ i lt. down (suc i) (omega arith)) in
      (
        m,
        omega (arith, grows),
        same_loop (suc n + fuel) (suc (n + fuel)) attempts attempts max_attempts w (omega arith)
              refl
            ∙ waiting_loop-down (n + fuel) attempts max_attempts w (omega arith)
                (down 0 (omega arith))
            ∙ runs
            ∙ same_loop fuel fuel (attempts + 1 + n) (attempts + suc n) m (at_poll (suc n) w) refl
                (omega arith),
        λ quiet.
            let first =
              next_max-quiet attempts max_attempts w (λ e. quiet 0 (omega arith) (omega arith)) in
            same (λ i lt e. quiet (suc i) (omega arith) (omega (arith, first))) ∙ first,
      )

  pub waiting_loop-up :
      (fuel attempts max_attempts : ℕ) (w : W)
      → attempts ≤ max_attempts
      → (get_pastel_info host w).0.1 ≡ none
      → waiting_loop host (suc fuel) attempts max_attempts w
        ≡ (some true, (get_pastel_info host w).1)
  unfolding waiting_loop
  waiting_loop-up fuel attempts max_attempts w le up = ground arith

  pub waiting_loop-over :
      (fuel attempts max_attempts : ℕ) (w : W)
      → max_attempts < attempts
      → waiting_loop host (suc fuel) attempts max_attempts w ≡ (some false, w)
  unfolding waiting_loop
  waiting_loop-over fuel attempts max_attempts w lt = ground arith

  -- If the first `k` polls fail, `k` is at most 30, and the next one succeeds, then the wait ends
  -- with success at that poll, with the fuel of that many polls or more.
  pub waiting_for_pasteld_to_start-up :
      (k fuel : ℕ) (w : W)
      → k ≤ 30
      → ((i : ℕ) → i < k → IsDown (at_poll i w))
      → (get_pastel_info host (at_poll k w)).0.1 ≡ none
      → waiting_for_pasteld_to_start host (k + suc fuel) w
        ≡ (some true, (get_pastel_info host (at_poll k w)).1)
  unfolding waiting_for_pasteld_to_start
  waiting_for_pasteld_to_start-up k fuel w le down up =
      let (m, above, runs, _) = waiting_loop-polls k (suc fuel) 0 30 w (omega arith) down in
      runs ∙ waiting_loop-up fuel (0 + k) m (at_poll k w) (omega (arith, above)) up

  -- If the first 31 polls fail and the node does not say at the poll number 29 (from 0) that it is
  -- loading, then the wait ends without success after these polls and their pauses, with fuel for
  -- one more round.
  pub waiting_for_pasteld_to_start-down :
      (fuel : ℕ) (w : W)
      → ((i : ℕ) → i < 31 → IsDown (at_poll i w))
      → says_busy (at_poll 29 w) ≡ false
      → waiting_for_pasteld_to_start host (31 + suc fuel) w ≡ (some false, at_poll 31 w)
  unfolding waiting_for_pasteld_to_start
  waiting_for_pasteld_to_start-down fuel w down quiet =
      let (m, _, runs, same) = waiting_loop-polls 31 (suc fuel) 0 30 w (omega arith) down in
      let last : m ≡ 30 = same (λ i lt e. let at29 : i ≡ 29 = omega arith in rw at29 quiet) in
      runs ∙ waiting_loop-over fuel (0 + 31) m (at_poll 31 w) (omega (arith, last))
