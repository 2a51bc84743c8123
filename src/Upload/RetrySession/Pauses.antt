-- ===== src/Upload/RetrySession/Pauses.antt =====
-- What the retrying session does between two uploads: it looks at the clock, sleeps, and resets the
-- session. None of it touches what the server holds.
use cloudstorageapi.Prelude.{
  ℕ, zero, suc, ◌≡◌, refl, ◌∙◌, inl, inr, Bool, true, false, Option, none, some, String, List,
  arith, Bool-cases,
}
use cloudstorageapi.Status.{Status, value, failure}
use cloudstorageapi.Policy.{
  World, BackoffPolicy, on_failure_impl, RetryPolicy, limited_error_count, limited_time,
  is_exhausted, on_failure, on_completion,
}
use cloudstorageapi.Retry.{Lent, exhausted_error}
use cloudstorageapi.Upload.{Reply, Session}
use cloudstorageapi.Upload.Contract.{Synced, Learns, Committing, Quiet}
use cloudstorageapi.Upload.RetrySession.{
  Outcome, returned, thrown, return_status, Next, stop, go, no_fuel, return_error, fail_or_sleep,
  after_reset, reset_round, reset_loop,
}

-- The function returns a response, and no error.
abbrev pub succeeded : Outcome → Bool
succeeded (returned (value r)) = true
succeeded (returned (failure e)) = false
succeeded thrown = false

pub succeeded-return_status : (s : Status) → succeeded (return_status s) ≡ false
succeeded-return_status s = ground arith

module _ {S : Type 0} (world : World S) (session : Session S) (stored : S → List ℕ)
    (quiet : Quiet world session stored) where
  -- Nothing has happened to the session or the server.
  abbrev pub Same : S → S → Type 0
  Same s s' =
      (stored s' ≡ stored s) × (session.next_expected_byte s' ≡ session.next_expected_byte s)

  pub is_exhausted-Same : (p : RetryPolicy) (s : S) → Same s (is_exhausted world p s).1
  unfolding is_exhausted
  is_exhausted-Same (limited_error_count c m) s = (refl, refl)
  is_exhausted-Same (limited_time d t) s = (quiet.stored-now s, quiet.next-now s)

  on_failure-Same : (p : RetryPolicy) (e : Status) (s : S) → Same s (on_failure world p e s).2
  unfolding on_failure
  on_failure-Same p e s = ground (arith, is_exhausted-Same (on_failure_impl p) s)

  on_completion-Same : (b : BackoffPolicy) (s : S) → Same s (on_completion world b s).2
  unfolding on_completion
  on_completion-Same b s = (quiet.stored-draw _ _ s, quiet.next-draw _ _ s)

  -- An error is reported, and no success, and the look at the clock leaves the server alone.
  return_error-stored :
      (e : Status) (name : String) (l : Lent S)
      → (succeeded (return_error world session e name l).0 ≡ false)
        × (stored (return_error world session e name l).1.world_state ≡ stored l.world_state)
  unfolding return_error
  return_error-stored e name l =
      (succeeded-return_status _, (is_exhausted-Same l.retry l.world_state).0)

  abbrev pub Paused : S → Next S (Lent S) → Type 0
  Paused s (stop o l) = (stored l.world_state ≡ stored s) × (succeeded o ≡ false)
  Paused s (go l) = Same s l.world_state
  Paused s no_fuel = Unit {0}

  pub fail_or_sleep-Paused :
      (name : String) (e : Status) (l : Lent S)
      → Paused l.world_state (fail_or_sleep world session name e l)
  unfolding fail_or_sleep
  fail_or_sleep-Paused name e l =
      let (go_on, p, s) = on_failure world l.retry e l.world_state in
      let (delay, b, s') = on_completion world l.backoff s in
      ground (
        arith,
        on_failure-Same l.retry e l.world_state,
        on_completion-Same l.backoff s,
        quiet.stored-sleep delay s',
        quiet.next-sleep delay s',
        return_error-stored e name (record { retry = p; backoff = l.backoff; world_state = s }),
      )

  -- A reset leaves the server alone, and if it succeeds the session is in step with the server.
  abbrev pub ResetEnds : S → Outcome → Lent S → Type 0
  ResetEnds s o l =
      (stored l.world_state ≡ stored s) × (succeeded o ≡ true → Synced session stored l.world_state)

  abbrev pub ResetNext : S → Next S (Status × Lent S) → Type 0
  ResetNext s (stop o l) = ResetEnds s o l
  ResetNext s (go (e, l)) = stored l.world_state ≡ stored s
  ResetNext s no_fuel = Unit {0}

  ResetNext-from :
      (s s' : S) (x : Next S (Status × Lent S))
      → stored s' ≡ stored s
      → ResetNext s' x
      → ResetNext s x
  ResetNext-from s s' (stop o l) e h = (h.0 ∙ e, h.1)
  ResetNext-from s s' (go (st, l)) e h = h ∙ e
  ResetNext-from s s' no_fuel e h = tt

  module _ (committing : Committing session stored) where
    after_reset-ResetNext :
        (s : S) (r : Reply × S) (l : Lent S)
        → Learns session stored s r
        → ResetNext s (after_reset world session r l)
    unfolding after_reset
    after_reset-ResetNext s (value r, s') l h = (h.0, λ e. h.1)
    after_reset-ResetNext s (failure e, s') l h =
        ground (arith, fail_or_sleep-Paused "ResetSession" e (record l { world_state = s' }))

    reset_round-ResetNext :
        (e : Status) (l : Lent S) → ResetNext l.world_state (reset_round world session e l)
    unfolding reset_round
    reset_round-ResetNext e l = elim (Bool-cases (is_exhausted world l.retry l.world_state).0) [
      | inl h ↦ rw h (quiet_here, λ q. absurd (no_success q))
      | inr h ↦ rw h (
          ResetNext-from l.world_state here _ quiet_here (
            after_reset-ResetNext here (session.reset_session here)
              (record l { world_state = here }) (committing.on_reset here)))
    ]
      where
        here : S
        here = (is_exhausted world l.retry l.world_state).1

        quiet_here : stored here ≡ stored l.world_state
        quiet_here = (is_exhausted-Same l.retry l.world_state).0

        no_success : succeeded (return_status (exhausted_error "ResetSession" e)) ≡ true → ⊥
        no_success q = cc (succeeded-return_status (exhausted_error "ResetSession" e))

    abbrev pub ResetResult : S → Option (Outcome × Lent S) → Type 0
    ResetResult s none = Unit {0}
    ResetResult s (some (o, l)) = ResetEnds s o l

    ResetResult-from :
        (s s' : S) (x : Option (Outcome × Lent S))
        → stored s' ≡ stored s
        → ResetResult s' x
        → ResetResult s x
    ResetResult-from s s' none e h = tt
    ResetResult-from s s' (some (o, l)) e h = (h.0 ∙ e, h.1)

    pub reset_loop-ResetResult :
        (fuel : ℕ) (e : Status) (l : Lent S)
        → ResetResult l.world_state (reset_loop world session fuel e l)
    unfolding reset_loop
    reset_loop-ResetResult zero e l = tt
    reset_loop-ResetResult (suc fuel) e l =
        follow (reset_round world session e l) (reset_round-ResetNext e l)
          (λ e' l'. reset_loop-ResetResult fuel e' l')
      where
        follow :
            (x : Next S (Status × Lent S))
            → ResetNext l.world_state x
            → ((e' : Status) (l' : Lent S)
                → ResetResult l'.world_state (reset_loop world session fuel e' l'))
            → ResetResult l.world_state (elim x [
              | stop o l' ↦ some (o, l')
              | go (e', l') ↦ reset_loop world session fuel e' l'
              | no_fuel ↦ none
            ])
        follow (stop o l') h ih = h
        follow (go (e', l')) h ih = ResetResult-from l.world_state l'.world_state _ h (ih e' l')
        follow no_fuel h ih = tt
