-- ===== src/Policy/Tests.antt =====
-- The policies at concrete failures and delays.
use cloudstorageapi.Prelude.{ℕ, ◌+◌, ◌*◌, ◌/◌, ◌≡◌, ◌≤◌, [], ◌∷◌, refl, not, pos, arith, ltb}
use cloudstorageapi.Status.{is_permanent_failure}
use cloudstorageapi.Policy.{limited_error_count, on_completion, clone_backoff}
use cloudstorageapi.Policy.Failures.{allows, allows-le}
use cloudstorageapi.Policy.Delays.{on_completion-bounds, first_delay}
use cloudstorageapi.Fixtures.{still, still-DrawsBetween, brief, down}

allows-le_example :
    allows {W = ℕ} still (limited_error_count 0 (pos 1)) (down ∷ down ∷ []) 0 ≡ not (ltb 1 (0 + 2))
unfolding is_permanent_failure
allows-le_example =
    allows-le {W = ℕ} still 0 1 (down ∷ down ∷ []) 0 (refl, (refl, tt)) (omega arith)

on_completion-bounds_example :
    let (delay, b', w') = on_completion {W = ℕ} still brief 0 in
    (2000 / 2 / 1000 ≤ delay)
    × (delay ≤ 2000 / 1000)
    × (b'.current_delay_range ≤ 5000)
    × (b'.maximum_delay ≡ 5000)
    × (2000 ≤ 2000 + 2000 → 2000 ≤ 5000 → 2000 ≤ b'.current_delay_range)
on_completion-bounds_example = on_completion-bounds {W = ℕ} still still-DrawsBetween brief 0

first_delay_example :
    let (delay, b', w') = on_completion {W = ℕ} still (clone_backoff brief) 0 in
    (1000 / 1000 ≤ delay) × (delay ≤ 2 * 1000 / 1000)
first_delay_example = first_delay {W = ℕ} still still-DrawsBetween brief 0
