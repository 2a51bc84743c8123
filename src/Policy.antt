-- ===== src/Policy.antt =====
-- Retry and backoff policies: include/cloudstorageapi/internal/retry_policy_internal.h,
-- include/cloudstorageapi/internal/backoff_policy_internal.h and src/backoff_policy_internal.cpp.
-- The clock, the sleep and the random numbers are operations on a state of the surroundings.
pub mod Failures
pub mod Delays
pub mod Patience
mod Tests
use cloudstorageapi.Prelude.{
  ℕ, suc, ◌+◌, ◌*◌, ◌/◌, Bool, true, false, not, Option, none, some, ltb, leb, if◌then◌else◌, ℤ,
  pos, negsuc,
}
use cloudstorageapi.Status.{Status, is_permanent_failure}

-- The surroundings of the program: `system_clock::now()` in milliseconds,
-- `this_thread::sleep_for`, and a draw from `uniform_int_distribution(lo, hi)`.
pub record World (W : Type 0) : Type 0 where
  pub now : W → ℕ × W
  pub sleep_for : ℕ → W → W
  pub draw : ℕ → ℕ → W → ℕ × W

-- `count > bound` on the `int`s of the counting policy, for a count that is not negative.
abbrev pub exceeds : ℕ → ℤ → Bool
exceeds count (pos bound) = ltb bound count
exceeds count (negsuc bound) = true

-- `LimitedErrorCountRetryPolicy` (failures so far and their maximum) and `LimitedTimeRetryPolicy`
-- (maximum duration and deadline).
pub data RetryPolicy : Type 0 where
  limited_error_count : ℕ → ℤ → RetryPolicy
  limited_time : ℕ → ℕ → RetryPolicy

-- `ExponentialBackoffPolicy`, in microseconds. `scale` is the product with the scaling factor, a
-- `double`, cut to an integer; the random number generator is part of the surroundings.
pub record BackoffPolicy : Type 0 where
  pub initial_delay : ℕ
  pub current_delay_range : ℕ
  pub maximum_delay : ℕ
  pub scale : ℕ → ℕ

-- The constructor; `above_one` is `scaling > 1.0`, and without it the constructor throws.
unfoldable pub exponential_backoff_policy : ℕ → ℕ → Bool → (ℕ → ℕ) → Option BackoffPolicy
exponential_backoff_policy initial maximum above_one scale =
    if above_one
    then some (record {
      initial_delay = initial;
      current_delay_range = 2 * initial;
      maximum_delay = maximum;
      scale = scale;
    })
    else none

-- `ExponentialBackoffPolicy::Clone`; the scaling factor has passed the constructor's test before.
unfoldable pub clone_backoff : BackoffPolicy → BackoffPolicy
clone_backoff b = record b { current_delay_range = 2 * b.initial_delay }

-- `OnFailureImpl` of the two retry policies.
abbrev pub on_failure_impl : RetryPolicy → RetryPolicy
on_failure_impl (limited_error_count failures maximum) = limited_error_count (suc failures) maximum
on_failure_impl (limited_time duration deadline) = limited_time duration deadline

module _ {W : Type 0} (world : World W) where
  open world use {now, draw}

  -- `Clone` of a retry policy.
  unfoldable pub clone_retry : RetryPolicy → W → RetryPolicy × W
  clone_retry (limited_error_count failures maximum) w = (limited_error_count 0 maximum, w)
  clone_retry (limited_time duration deadline) w =
      let (t, w') = now w in (limited_time duration (t + duration), w')

  -- `IsExhausted`.
  unfoldable pub is_exhausted : RetryPolicy → W → Bool × W
  is_exhausted (limited_error_count failures maximum) w = (exceeds failures maximum, w)
  is_exhausted (limited_time duration deadline) w = let (t, w') = now w in (leb deadline t, w')

  -- `TraitBasedRetryPolicy::OnFailure`.
  unfoldable pub on_failure : RetryPolicy → Status → W → Bool × RetryPolicy × W
  unfolding is_exhausted
  on_failure p s w =
      if is_permanent_failure s
      then (false, p, w)
      else let p' = on_failure_impl p in let (e, w') = is_exhausted p' w in (not e, p', w')

  -- `ExponentialBackoffPolicy::OnCompletion`: the delay, in milliseconds, and the policy after it.
  unfoldable pub on_completion : BackoffPolicy → W → ℕ × BackoffPolicy × W
  on_completion b w =
      let (delay, w') = draw (b.current_delay_range / 2) b.current_delay_range w in
      let scaled = b.scale b.current_delay_range in
      (
        delay / 1000,
        record b {
          current_delay_range = if leb b.maximum_delay scaled then b.maximum_delay else scaled;
        },
        w',
      )
