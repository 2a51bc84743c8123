-- ===== src/Retry/Tests.antt =====
-- `MakeCall` on a call that fails twice.
use cloudstorageapi.Prelude.{ℕ, ◌+◌, ◌≡◌, [], ◌∷◌, List, refl, some, arith, length, ap}
use cloudstorageapi.Status.{StatusOrVal, value, failure}
use cloudstorageapi.Retry.{Lent, before_first_attempt, make_call}
use cloudstorageapi.Retry.Attempts.{Foretells, counting, expected, used, make_call-expected}
use cloudstorageapi.Fixtures.{still, brief, down}

-- The state is the outcomes to come.
abbrev Outcomes : Type 0
Outcomes = List (StatusOrVal ℕ)

abbrev call : Outcomes → StatusOrVal ℕ × Outcomes
call [] = (failure down, [])
call (o ∷ os) = (o, os)

abbrev to_come : Outcomes → Outcomes
to_come w = w

call-Foretells : Foretells still call to_come
call-Foretells = record {
  by_call = λ w o os e. (ap (λ x. (call x).0) e, ap (λ x. (call x).1) e);
  by_sleep = λ d w. refl;
  by_draw = λ lo hi w. refl;
}

abbrev outcomes : Outcomes
outcomes = failure down ∷ failure down ∷ value 7 ∷ value 8 ∷ []

make_call-expected_example :
    (l' : Lent Outcomes) × (make_call still "Name" call 4 (counting 0 2 brief outcomes)
      ≡ some (expected "Name" 3 before_first_attempt outcomes, l'))
    × (length l'.world_state + used 3 outcomes ≡ 4)
make_call-expected_example =
    make_call-expected still "Name" call to_come call-Foretells 2 brief outcomes (omega arith)
