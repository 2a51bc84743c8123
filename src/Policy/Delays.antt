-- ===== src/Policy/Delays.antt =====
-- The delays of the backoff policy.
use cloudstorageapi.Prelude.{ℕ, ◌*◌, ◌/◌, ◌≡◌, ◌≤◌, arith}
use cloudstorageapi.Policy.{World, BackoffPolicy, clone_backoff, on_completion}

-- `uniform_int_distribution(lo, hi)` draws from the closed interval.
abbrev pub DrawsBetween : {W : Type 0} → World W → Type 0
DrawsBetween {W} world =
    (lo hi : ℕ) (w : W) → lo ≤ hi → (lo ≤ (world.draw lo hi w).0) × ((world.draw lo hi w).0 ≤ hi)

module _ {W : Type 0} (world : World W) (draws : DrawsBetween world) where
  -- A delay lies between half the current range and the range (in whole milliseconds), and from
  -- then on the range is at most the maximum delay. If scaling does not shrink a range that is
  -- within the maximum, the range does not fall.
  pub on_completion-bounds :
      (b : BackoffPolicy) (w : W)
      → let (delay, b', w') = on_completion world b w in
        (b.current_delay_range / 2 / 1000 ≤ delay)
        × (delay ≤ b.current_delay_range / 1000)
        × (b'.current_delay_range ≤ b.maximum_delay)
        × (b'.maximum_delay ≡ b.maximum_delay)
        × (b.current_delay_range ≤ b.scale b.current_delay_range
            → b.current_delay_range ≤ b.maximum_delay
            → b.current_delay_range ≤ b'.current_delay_range)
  unfolding on_completion
  on_completion-bounds b w =
      let d = draws (b.current_delay_range / 2) b.current_delay_range w (omega arith) in
      (omega arith, omega arith, ground arith, ground arith, ground arith)

  -- The first delay of a cloned policy lies between the initial delay and twice that, whatever the
  -- maximum delay is.
  pub first_delay :
      (b : BackoffPolicy) (w : W)
      → let (delay, _, _) = on_completion world (clone_backoff b) w in
        (b.initial_delay / 1000 ≤ delay) × (delay ≤ 2 * b.initial_delay / 1000)
  unfolding clone_backoff on_completion
  first_delay b w =
      let d = draws (2 * b.initial_delay / 2) (2 * b.initial_delay) w (omega arith) in
      (omega arith, omega arith)
