-- ===== src/Retry/Patience.antt =====
-- `MakeCall` under a counting policy ends, whatever its calls do, and leaves the policy no more
-- failures than before.
use cloudstorageapi.Prelude.{
  ℕ, zero, suc, ◌≡◌, ◌≤◌, ◌<◌, Option, none, some, String, Bool-cases, inl, inr, arith,
}
use cloudstorageapi.Status.{Status, StatusOrVal, value, failure, is_permanent_failure}
use cloudstorageapi.Policy.{World, on_failure}
use cloudstorageapi.Policy.Patience.{Patience, is_exhausted-Patience, on_failure-Uses}
use cloudstorageapi.Retry.{
  before_first_attempt, Lent, Round, finished, again, after_failure, after_call, round, loop,
  make_call,
}

module _ {W : Type 0} (world : World W) {A : Type 0} (name : String)
    (call : W → StatusOrVal A × W) where
  -- A result, after which a value leaves the policy with at most `a` failures.
  abbrev pub Leaves : ℕ → StatusOrVal A → Lent W → Type 0
  Leaves a (failure s) l = Unit {0}
  Leaves a (value v) l = (b : ℕ) × (b ≤ a) × Patience b l.retry

  abbrev RoundLeaves : ℕ → Round W A → Type 0
  RoundLeaves a (finished r l) = Leaves a r l
  RoundLeaves a (again s l) = (b : ℕ) × (a ≡ suc b) × Patience b l.retry

  after_failure-RoundLeaves :
      (a : ℕ) (s : Status) (l : Lent W)
      → Patience a l.retry
      → RoundLeaves a (after_failure world name s l)
  unfolding after_failure
  after_failure-RoundLeaves a s l h =
      let uses = on_failure-Uses world a l.retry s l.world_state h in
      elim (Bool-cases (on_failure world l.retry s l.world_state).0) [
        | inl t ↦ rw t (uses t)
        | inr t ↦ elim (Bool-cases (is_permanent_failure s)) [
          | inl p ↦ rw (t, p) tt
          | inr p ↦ rw (t, p) tt
        ]
      ]

  after_call-RoundLeaves :
      (a : ℕ) (x : StatusOrVal A × W) (l : Lent W)
      → Patience a l.retry
      → RoundLeaves a (after_call world name x l)
  unfolding after_call
  after_call-RoundLeaves a (value v, w') l h = (a, omega arith, h)
  after_call-RoundLeaves a (failure s, w') l h =
      after_failure-RoundLeaves a s (record l { world_state = w' }) h

  round-RoundLeaves :
      (a : ℕ) (s : Status) (l : Lent W)
      → Patience a l.retry
      → RoundLeaves a (round world name call s l)
  unfolding round
  round-RoundLeaves a s l h =
      rw (is_exhausted-Patience world a l.retry l.world_state h)
        (after_call-RoundLeaves a (call l.world_state) (record l { world_state = l.world_state }) h)

  abbrev pub CallLeaves : ℕ → Option (StatusOrVal A × Lent W) → Type 0
  CallLeaves a none = ⊥
  CallLeaves a (some (r, l)) = Leaves a r l

  CallLeaves-le :
      (a b : ℕ) (x : Option (StatusOrVal A × Lent W)) → b ≤ a → CallLeaves b x → CallLeaves a x
  CallLeaves-le a b none h r = r
  CallLeaves-le a b (some (failure s, l)) h r = tt
  CallLeaves-le a b (some (value v, l)) h (c, le, p) = (c, omega arith, p)

  loop-CallLeaves :
      (fuel a : ℕ) (s : Status) (l : Lent W)
      → Patience a l.retry
      → a < fuel
      → CallLeaves a (loop world name call fuel s l)
  unfolding loop
  loop-CallLeaves zero a s l h lt = absurd (omega arith)
  loop-CallLeaves (suc fuel) a s l h lt =
      follow (round world name call s l) (round-RoundLeaves a s l h)
        (λ b s' l'. loop-CallLeaves fuel b s' l')
    where
      follow :
          (x : Round W A)
          → RoundLeaves a x
          → ((b : ℕ) (s' : Status) (l' : Lent W)
              → Patience b l'.retry
              → b < fuel
              → CallLeaves b (loop world name call fuel s' l'))
          → CallLeaves a (elim x [
            | finished r l' ↦ some (r, l')
            | again s' l' ↦ loop world name call fuel s' l'
          ])
      follow (finished r l') h ih = h
      follow (again s' l') (b, eq, p) ih =
          CallLeaves-le a b _ (omega arith) (ih b s' l' p (omega arith))

  -- Under a policy that allows `a` more failures, `a + 1` rounds are enough for `MakeCall`.
  pub make_call-CallLeaves :
      (fuel a : ℕ) (l : Lent W)
      → Patience a l.retry
      → a < fuel
      → CallLeaves a (make_call world name call fuel l)
  unfolding make_call
  make_call-CallLeaves fuel a l h lt = loop-CallLeaves fuel a before_first_attempt l h lt
