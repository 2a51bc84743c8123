-- ===== src/RetryClient/Tests.antt =====
-- A method whose calls fail twice.
use cloudstorageapi.Prelude.{
  ℕ, ◌+◌, ◌≡◌, [], ◌∷◌, List, String, some, none, pos, arith, length, ap, refl,
}
use cloudstorageapi.Status.{is_permanent_failure, StatusOrVal, value, failure}
use cloudstorageapi.Retry.{before_first_attempt}
use cloudstorageapi.Retry.Attempts.{Foretells, expected, used}
use cloudstorageapi.RetryClient.{
  Method, list_folder, method_name, call_method, read_file, create_resumable_session,
}
use cloudstorageapi.RetryClient.Calls.{counting_client, call_method-expected}
use cloudstorageapi.Policy.{BackoffPolicy}
use cloudstorageapi.ReadSource.{ReadRequest, make_read_source}
use cloudstorageapi.Retry.Spent.{failing}
use cloudstorageapi.RetryClient.Budget.{spent, read_file-spends, create_resumable_session-spends}
use cloudstorageapi.Fixtures.{still, brief, down}

abbrev Outcomes : Type 0
Outcomes = List (StatusOrVal ℕ)

abbrev call : Outcomes → StatusOrVal ℕ × Outcomes
call [] = (failure down, [])
call (o ∷ os) = (o, os)

abbrev to_come : Outcomes → Outcomes
to_come w = w

-- A raw client that has outcomes for `ListFolder` and refuses all other calls.
abbrev Named : Method → Type 0
Named m = String

abbrev Counted : Method → Type 0
Counted m = ℕ

abbrev raw : (m : Method) → Named m → Outcomes → StatusOrVal (Counted m) × Outcomes
raw list_folder q w = call w
raw m q w = (failure down, w)

call-Foretells : Foretells still (raw list_folder "folder") to_come
call-Foretells = record {
  by_call = λ w o os e. (ap (λ x. (call x).0) e, ap (λ x. (call x).1) e);
  by_sleep = λ d w. refl;
  by_draw = λ lo hi w. refl;
}

abbrev outcomes : Outcomes
outcomes = failure down ∷ failure down ∷ value 7 ∷ value 8 ∷ []

call_method-expected_example :
    (w' : Outcomes) × (call_method still
        (counting_client 3 2 brief)
        raw
        list_folder
        "folder"
        4
        outcomes
      ≡ some (expected (method_name list_folder) 3 before_first_attempt outcomes, w'))
    × (length w' + used 3 outcomes ≡ 4)
call_method-expected_example =
    call_method-expected still raw list_folder "folder" to_come 3 2 brief outcomes call-Foretells
      (omega arith)

-- Whole numbers stand for the sources that a call opens.
abbrev opening : ReadRequest → Outcomes → StatusOrVal ℕ × Outcomes
opening q w = call w

abbrev from_7 : ReadRequest
from_7 = record { read_range = none; read_from_offset = some (pos 7); read_last = none }

opening-Foretells : Foretells still (opening from_7) to_come
opening-Foretells = record {
  by_call = λ w o os e. (ap (λ x. (call x).0) e, ap (λ x. (call x).1) e);
  by_sleep = λ d w. refl;
  by_draw = λ lo hi w. refl;
}

read_file-spends_example :
    (b : BackoffPolicy) × (w' : Outcomes) × (read_file still
        (counting_client 3 2 brief)
        opening
        4
        from_7
        outcomes
      ≡ some (value (spent (make_read_source from_7 7) 2 2 b), w'))
    × (w' ≡ value 8 ∷ [])
unfolding is_permanent_failure failing
read_file-spends_example =
    read_file-spends still opening from_7 to_come 3 2 4 (down ∷ down ∷ []) 7 (value 8 ∷ []) brief
      outcomes opening-Foretells (refl, (refl, tt)) (omega arith) (omega arith) refl

create_resumable_session-spends_example :
    (b : BackoffPolicy) × (w' : Outcomes) × (create_resumable_session still
        (counting_client 3 2 brief)
        call
        4
        outcomes
      ≡ some (value (spent 7 2 2 b), w'))
    × (w' ≡ value 8 ∷ [])
unfolding is_permanent_failure failing
create_resumable_session-spends_example =
    create_resumable_session-spends still call to_come 3 2 4 (down ∷ down ∷ []) 7 (value 8 ∷ [])
      brief outcomes opening-Foretells (refl, (refl, tt)) (omega arith) (omega arith) refl
