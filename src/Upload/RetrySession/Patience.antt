-- ===== src/Upload/RetrySession/Patience.antt =====
-- How many failures the counting policy still allows, through the pauses and resets of the retrying
-- session, and the rounds of fuel that its loop of resets needs.
use cloudstorageapi.Prelude.{
  ℕ, zero, suc, ◌≡◌, ◌≤◌, ◌<◌, inl, inr, true, false, Option, none, some, String, arith, Bool-cases,
}
use cloudstorageapi.Status.{Status, value, failure}
use cloudstorageapi.Policy.{World, on_failure}
use cloudstorageapi.Policy.Patience.{Patience, is_exhausted-Patience, on_failure-Uses}
use cloudstorageapi.Retry.{Lent}
use cloudstorageapi.Upload.{Reply, Session}
use cloudstorageapi.Upload.RetrySession.{
  Outcome, Next, stop, go, no_fuel, return_error, fail_or_sleep, after_reset, reset_round,
  reset_loop,
}
use cloudstorageapi.Upload.RetrySession.Pauses.{succeeded, succeeded-return_status}

module _ {S : Type 0} (world : World S) (session : Session S) where
  -- `fail_or_sleep` stops, or goes on with one failure less.
  abbrev pub Lasts : ℕ → Next S (Lent S) → Type 0
  Lasts a (stop o l) = succeeded o ≡ false
  Lasts a (go l) = (b : ℕ) × (a ≡ suc b) × Patience b l.retry
  Lasts a no_fuel = ⊥

  pub fail_or_sleep-Lasts :
      (a : ℕ) (name : String) (e : Status) (l : Lent S)
      → Patience a l.retry
      → Lasts a (fail_or_sleep world session name e l)
  unfolding fail_or_sleep return_error
  fail_or_sleep-Lasts a name e l h =
      let uses = on_failure-Uses world a l.retry e l.world_state h in
      elim (Bool-cases (on_failure world l.retry e l.world_state).0) [
        | inl t ↦ rw t (uses t)
        | inr f ↦ rw f (succeeded-return_status _)
      ]

  -- The loop of resets ends, and after a success no more failures are left than before.
  abbrev pub ResetLasts : ℕ → Option (Outcome × Lent S) → Type 0
  ResetLasts a none = ⊥
  ResetLasts a (some (o, l)) = succeeded o ≡ true → (b : ℕ) × (b ≤ a) × Patience b l.retry

  ResetLasts-le :
      (a b : ℕ) (x : Option (Outcome × Lent S)) → b ≤ a → ResetLasts b x → ResetLasts a x
  ResetLasts-le a b none h r = absurd r
  ResetLasts-le a b (some (o, l)) h r = λ q. let (c, le, p) = r q in (c, omega arith, p)

  abbrev RoundLasts : ℕ → Next S (Status × Lent S) → Type 0
  RoundLasts a (stop o l) = succeeded o ≡ true → (b : ℕ) × (b ≤ a) × Patience b l.retry
  RoundLasts a (go (e, l)) = (b : ℕ) × (a ≡ suc b) × Patience b l.retry
  RoundLasts a no_fuel = ⊥

  after_reset-RoundLasts :
      (a : ℕ) (r : Reply × S) (l : Lent S)
      → Patience a l.retry
      → RoundLasts a (after_reset world session r l)
  unfolding after_reset
  after_reset-RoundLasts a (value r, s) l h = λ q. (a, omega arith, h)
  after_reset-RoundLasts a (failure e, s) l h =
      follow (fail_or_sleep world session "ResetSession" e (record l { world_state = s }))
        (fail_or_sleep-Lasts a "ResetSession" e (record l { world_state = s }) h)
    where
      follow :
          (x : Next S (Lent S))
          → Lasts a x
          → RoundLasts a (elim x [
            | stop outcome l' ↦ stop outcome l'
            | go l' ↦ go (e, l')
            | no_fuel ↦ no_fuel
          ])
      follow (stop o l') p = λ q. absurd cc
      follow (go l') p = p
      follow no_fuel p = p

  reset_round-RoundLasts :
      (a : ℕ) (e : Status) (l : Lent S)
      → Patience a l.retry
      → RoundLasts a (reset_round world session e l)
  unfolding reset_round
  reset_round-RoundLasts a e l h = rw (is_exhausted-Patience world a l.retry l.world_state h) (
      after_reset-RoundLasts a (session.reset_session l.world_state)
        (record l { world_state = l.world_state }) h)

  pub reset_loop-ResetLasts :
      (fuel a : ℕ) (e : Status) (l : Lent S)
      → Patience a l.retry
      → a < fuel
      → ResetLasts a (reset_loop world session fuel e l)
  unfolding reset_loop
  reset_loop-ResetLasts zero a e l h lt = absurd (omega arith)
  reset_loop-ResetLasts (suc fuel) a e l h lt =
      follow (reset_round world session e l) (reset_round-RoundLasts a e l h)
        (λ b e' l'. reset_loop-ResetLasts fuel b e' l')
    where
      follow :
          (x : Next S (Status × Lent S))
          → RoundLasts a x
          → ((b : ℕ) (e' : Status) (l' : Lent S)
              → Patience b l'.retry
              → b < fuel
              → ResetLasts b (reset_loop world session fuel e' l'))
          → ResetLasts a (elim x [
            | stop o l' ↦ some (o, l')
            | go (e', l') ↦ reset_loop world session fuel e' l'
            | no_fuel ↦ none
          ])
      follow (stop o l') r ih = r
      follow (go (e', l')) (b, eq, p) ih =
          ResetLasts-le a b _ (omega arith) (ih b e' l' p (omega arith))
      follow no_fuel r ih = absurd r
