-- ===== src/Retry/Values.antt =====
-- A value that `MakeCall` returns is the value of one of its calls.
use cloudstorageapi.Prelude.{
  ℕ, zero, suc, ◌≡◌, refl, Option, none, some, String, Bool-cases, inl, inr,
}
use cloudstorageapi.Status.{Status, StatusOrVal, value, failure, is_permanent_failure}
use cloudstorageapi.Policy.{World, is_exhausted, on_failure}
use cloudstorageapi.Retry.{
  before_first_attempt, Lent, Round, finished, again, after_failure, after_call, round, loop,
  make_call,
}

-- A value came from the call; of a failure nothing is said.
abbrev pub ValueFrom : {A W : Type 0} → (W → StatusOrVal A × W) → StatusOrVal A → Type 0
ValueFrom call (failure s) = Unit {0}
ValueFrom {A} {W} call (value a) = (w : W) × (w' : W) × (call w ≡ (value a, w'))

module _ {W : Type 0} (world : World W) {A : Type 0} (name : String)
    (call : W → StatusOrVal A × W) where
  abbrev RoundValue : Round W A → Type 0
  RoundValue (finished r l) = ValueFrom call r
  RoundValue (again s l) = Unit {0}

  after_failure-RoundValue : (s : Status) (l : Lent W) → RoundValue (after_failure world name s l)
  unfolding after_failure
  after_failure-RoundValue s l = elim (Bool-cases (on_failure world l.retry s l.world_state).0) [
    | inl t ↦ rw t tt
    | inr t ↦ elim (Bool-cases (is_permanent_failure s)) [
      | inl p ↦ rw (t, p) tt
      | inr p ↦ rw (t, p) tt
    ]
  ]

  after_call-RoundValue :
      (w : W) (x : StatusOrVal A × W) (l : Lent W)
      → call w ≡ x
      → RoundValue (after_call world name x l)
  unfolding after_call
  after_call-RoundValue w (value a, w') l e = (w, w', e)
  after_call-RoundValue w (failure s, w') l e =
      after_failure-RoundValue s (record l { world_state = w' })

  round-RoundValue : (s : Status) (l : Lent W) → RoundValue (round world name call s l)
  unfolding round
  round-RoundValue s l = elim (Bool-cases (is_exhausted world l.retry l.world_state).0) [
    | inl t ↦ rw t tt
    | inr t ↦ rw t (
        after_call-RoundValue (is_exhausted world l.retry l.world_state).1
          (call (is_exhausted world l.retry l.world_state).1)
          (record l { world_state = (is_exhausted world l.retry l.world_state).1 }) refl)
  ]

  abbrev pub CallValue : Option (StatusOrVal A × Lent W) → Type 0
  CallValue none = Unit {0}
  CallValue (some (r, l)) = ValueFrom call r

  loop-CallValue : (fuel : ℕ) (s : Status) (l : Lent W) → CallValue (loop world name call fuel s l)
  unfolding loop
  loop-CallValue zero s l = tt
  loop-CallValue (suc fuel) s l =
      follow (round world name call s l) (round-RoundValue s l) (loop-CallValue fuel)
    where
      follow :
          (x : Round W A)
          → RoundValue x
          → ((s' : Status) (l' : Lent W) → CallValue (loop world name call fuel s' l'))
          → CallValue (elim x [
            | finished r l' ↦ some (r, l')
            | again s' l' ↦ loop world name call fuel s' l'
          ])
      follow (finished r l') h ih = h
      follow (again s' l') h ih = ih s' l'

  -- If `MakeCall` returns a value, some call returned it.
  pub make_call-CallValue : (fuel : ℕ) (l : Lent W) → CallValue (make_call world name call fuel l)
  unfolding make_call
  make_call-CallValue fuel l = loop-CallValue fuel before_first_attempt l
