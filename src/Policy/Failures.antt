-- ===== src/Policy/Failures.antt =====
-- How many failures the counting policy allows.
use cloudstorageapi.Prelude.{
  ℕ, pos, suc, ◌+◌, ◌≡◌, ◌≤◌, Bool, true, false, arith, List, [], ◌∷◌, length, ltb, if◌then◌else◌,
  not,
}
use cloudstorageapi.Status.{Status, is_permanent_failure}
use cloudstorageapi.Policy.{World, RetryPolicy, limited_error_count, on_failure}

-- No failure of the list is permanent.
abbrev pub AllTransient : List Status → Type 0
AllTransient [] = Unit {0}
AllTransient (s ∷ ss) = (is_permanent_failure s ≡ false) × AllTransient ss

module _ {W : Type 0} (world : World W) where
  -- Whether a policy allows each failure of a list in turn.
  unfoldable pub allows : RetryPolicy → List Status → W → Bool
  allows p [] w = true
  allows p (s ∷ ss) w =
      let rest = allows (on_failure world p s w).1 ss (on_failure world p s w).2 in
      if (on_failure world p s w).0 then rest else false

  -- `LimitedErrorCountRetryPolicy(m)` allows exactly the runs of at most `m` failures.
  pub allows-le :
      (failures m : ℕ) (ss : List Status) (w : W)
      → AllTransient ss
      → failures ≤ m
      → allows (limited_error_count failures (pos m)) ss w ≡ not (ltb m (failures + length ss))
  unfolding allows on_failure
  allows-le failures m [] w t h = ground arith
  allows-le failures m (s ∷ ss) w t h = ground (arith, allows-le (suc failures) m ss w t.1)
