-- ===== src/Retry.antt =====
-- The retry loop of the client: `MakeCall` and the methods of src/transport/retry_client.cpp.
pub mod Attempts
pub mod Spent
pub mod Values
pub mod Patience
mod Tests
use cloudstorageapi.Prelude.{
  ℕ, zero, suc, Bool, true, false, Option, none, some, String, [], ◌∷◌, if◌then◌else◌, concat,
}
use cloudstorageapi.Status.{
  Status, deadline_exceeded, StatusOrVal, value, failure, is_permanent_failure,
}
use cloudstorageapi.Policy.{
  World, RetryPolicy, BackoffPolicy, clone_retry, clone_backoff, is_exhausted, on_failure,
  on_completion,
}

-- The status with which a loop starts.
abbrev pub before_first_attempt : Status
before_first_attempt = record {
  code = deadline_exceeded;
  message = "Retry policy exhausted before first attempt was made.";
}

abbrev pub permanent_error : String → Status → Status
permanent_error name last = record last {
  message = concat ("Permanent error in " ∷ name ∷ ": " ∷ last.message ∷ []);
}

abbrev pub exhausted_error : String → Status → Status
exhausted_error name last = record last {
  message = concat ("Retry policy exhausted in " ∷ name ∷ ": " ∷ last.message ∷ []);
}

-- The variables of the loop that outlive it: the policies, which the caller lends, and the
-- surroundings.
pub record Lent (W : Type 0) : Type 0 where
  pub retry : RetryPolicy
  pub backoff : BackoffPolicy
  pub world_state : W

-- What a round of the loop leads to: the loop returns, or goes on with the last status.
pub data Round (W : Type 0) (A : Type 0) : Type 0 where
  finished : StatusOrVal A → Lent W → Round W A
  again : Status → Lent W → Round W A

module _ {W : Type 0} (world : World W) {A : Type 0} (name : String) where
  -- After a failed call whose status is `s`: `OnFailure`, and the sleep before the next round.
  unfoldable pub after_failure : Status → Lent W → Round W A
  unfolding on_failure on_completion
  after_failure s l =
      let (go_on, p, w) = on_failure world l.retry s l.world_state in
      let (delay, b, w') = on_completion world l.backoff w in
      let stopped : Lent W = record { retry = p; backoff = l.backoff; world_state = w } in
      if go_on
      then again s (record { retry = p; backoff = b; world_state = world.sleep_for delay w' })
      else if is_permanent_failure s
      then finished (failure (permanent_error name s)) stopped
      else finished (failure (exhausted_error name s)) stopped

  -- What follows the call in a round.
  unfoldable pub after_call : StatusOrVal A × W → Lent W → Round W A
  unfolding after_failure
  after_call (value a, w) l = finished (value a) (record l { world_state = w })
  after_call (failure s, w) l = after_failure s (record l { world_state = w })

  module _ (call : W → StatusOrVal A × W) where
    -- One round of the loop of `MakeCall`, with its test.
    unfoldable pub round : Status → Lent W → Round W A
    unfolding after_call is_exhausted
    round last l =
        let (exhausted, w) = is_exhausted world l.retry l.world_state in
        let here : Lent W = record l { world_state = w } in
        if exhausted
        then finished (failure (exhausted_error name last)) here
        else after_call (call w) here

    -- The loop; `none` means that the fuel ran out.
    unfoldable pub loop : ℕ → Status → Lent W → Option (StatusOrVal A × Lent W)
    unfolding round
    loop zero last l = none
    loop (suc fuel) last l = elim (round last l) [
      | finished r l' ↦ some (r, l')
      | again s l' ↦ loop fuel s l'
    ]

    -- `MakeCall`, borrowing the policies.
    unfoldable pub make_call : ℕ → Lent W → Option (StatusOrVal A × Lent W)
    unfolding loop
    make_call fuel l = loop fuel before_first_attempt l
