-- ===== src/ReadStream/Tests.antt =====
-- Runs of a stream that reads.
use cloudstorageapi.Prelude.{
  Bool, false, ℕ, ◌+◌, ◌≡◌, refl, ap, ◌∙◌, sym, pos, true, none, some, List, [], ◌∷◌, length,
  take-length-take, take, drop, min,
}
use cloudstorageapi.Status.{
  Status, is_permanent_failure, StatusOrVal, value, failure, ok_status, unavailable,
}
use cloudstorageapi.ReadSource.{ReadSourceResult}
use cloudstorageapi.ReadStream.{
  ReadStreambuf, Source, read_streambuf, gives, throws, tell, xsgetn, underflow,
  check_preconditions, after_source_read, after_fill, report_error,
}
use cloudstorageapi.ReadStream.Delivered.{Providing}
use cloudstorageapi.ReadStream.Failed.{xsgetn-ends}
use cloudstorageapi.Policy.{is_exhausted, on_failure, on_completion, clone_retry, clone_backoff}
use cloudstorageapi.Retry.{make_call, loop, round, after_call, after_failure}
use cloudstorageapi.ReadSource.{
  ReadSource, from_beginning, make_read_source, after_read, after_open, read_round, read_loop,
  read_on, read_by, read, starting_byte,
}
use cloudstorageapi.ReadSource.Tests.{
  content, read_child, open_child, Position, child-Serving, from_third, twice,
}
use cloudstorageapi.Fixtures.{still, brief}
use cloudstorageapi.ReadStream.Resumed.{retrying_source, stream-resumes}
use cloudstorageapi.ReadStream.Gets.{Ask, get, peek, answers, answers-deliver}

abbrev file : List ℕ
file = 10 ∷ 11 ∷ 12 ∷ 13 ∷ 14 ∷ 15 ∷ 16 ∷ []

abbrev answer : ℕ → ℕ → ReadSourceResult
answer n o = record {
  received = take (min n 3) (drop o file);
  response = record { status_code = 200; payload = ""; headers = [] };
}

-- It gives three bytes at a time.
abbrev slow_source : Source ℕ
slow_source = record {
  source_is_open = λ o. true;
  source_close = λ o. (value (answer 0 0).response, o);
  source_read = λ n o. (value (answer n o), o + length (answer n o).received);
}

abbrev got : StatusOrVal ReadSourceResult → List ℕ
got (value r) = r.received
got (failure s) = []

slow_source-Providing : Providing slow_source file (λ o s. s ≡ o)
slow_source-Providing = record {
  on_read = λ o n s s' r h e.
      let part = ap (λ x. got x.0) e in
      (
        sym part
            ∙ sym (take-length-take (min n 3) (drop s file))
            ∙ ap (λ p. take (length p) (drop s file)) part
            ∙ ap (λ k. take (length r.received) (drop k file)) h,
        sym (ap (λ x. x.1) e) ∙ ap (λ p. s + length p) part ∙ ap (λ k. k + length r.received) h,
      );
}

-- The look reads three bytes; the first read takes two of them, and the second the third one and
-- two more from the source.
answers_run :
    answers slow_source (peek ∷ get 2 ∷ get 4 ∷ get 4 ∷ []) (read_streambuf 2 (pos 102))
    ≡ some (
      12 ∷ 13 ∷ 14 ∷ 15 ∷ 16 ∷ [],
      record { source = 7; source_pos = pos 107; get_area = []; status = ok_status; headers = [] },
    )
unfolding answers xsgetn underflow check_preconditions after_source_read after_fill
answers_run = refl

answers-deliver_example :
    (12 ∷ 13 ∷ 14 ∷ 15 ∷ 16 ∷ [] ≡ take 5 (drop 2 file))
    × (tell {S = ℕ} true (read_streambuf 7 (pos 107)) ≡ some (pos 107))
answers-deliver_example =
    answers-deliver slow_source file (λ o s. s ≡ o) slow_source-Providing 100 2
      (peek ∷ get 2 ∷ get 4 ∷ get 4 ∷ []) 2 (read_streambuf 7 (pos 107))
      (12 ∷ 13 ∷ 14 ∷ 15 ∷ 16 ∷ []) refl answers_run

abbrev lost : Status
lost = record { code = unavailable; message = "lost" }

-- It is open and fails.
abbrev always_lost : Source Status
always_lost = record {
  source_is_open = λ e. true;
  source_close = λ e. (failure e, e);
  source_read = λ n e. (failure e, e);
}

lost_run : xsgetn always_lost 4 (read_streambuf lost (pos 3)) ≡ (
  throws (record lost { message = "" }),
  record (read_streambuf lost (pos 3)) { status = lost },
)
unfolding xsgetn check_preconditions after_source_read report_error
lost_run = refl

xsgetn-ends_example :
    (xsgetn always_lost 5 (record (read_streambuf lost (pos 3)) { status = lost })
      ≡ (gives [], record (read_streambuf lost (pos 3)) { status = lost }))
    × (underflow always_lost (record (read_streambuf lost (pos 3)) { status = lost })
        ≡ (gives none, record (read_streambuf lost (pos 3)) { status = lost }))
xsgetn-ends_example =
    xsgetn-ends always_lost 4 5 (record lost { message = "" }) (read_streambuf lost (pos 3))
      (record (read_streambuf lost (pos 3)) { status = lost }) lost_run refl

abbrev resumed : Source (ReadSource ℕ × List Bool)
unfolding retrying_source
resumed =
    retrying_source still read_child open_child (λ c. true) (λ c w. (failure lost, c, w)) twice
      brief 5

abbrev begun : ReadSource ℕ × List Bool
unfolding make_read_source starting_byte
begun = (make_read_source from_third 2, false ∷ true ∷ false ∷ true ∷ true ∷ false ∷ false ∷ [])

abbrev ended : ReadStreambuf (ReadSource ℕ × List Bool)
ended = record {
  source = (
    record {
      request = record from_third { read_from_offset = some (pos 6) };
      child = some 8;
      direction = from_beginning;
      current_offset = pos 8;
    },
    [],
  );
  source_pos = pos 8;
  get_area = [];
  status = ok_status;
  headers = [];
}

abbrev asked : List Ask
asked = get 2 ∷ get 2 ∷ peek ∷ get 5 ∷ []

-- The second read and the look meet failures of the source.
resumed_run :
    answers resumed asked (read_streambuf begun (pos 2)) ≡ some (3 ∷ 4 ∷ 5 ∷ 6 ∷ 7 ∷ 8 ∷ [], ended)
unfolding answers xsgetn underflow check_preconditions after_source_read after_fill read read_by
    read_on read_loop read_round after_open after_read make_read_source starting_byte make_call loop
    round after_call after_failure is_exhausted on_failure on_completion clone_retry clone_backoff
    is_permanent_failure retrying_source
resumed_run = refl

stream-resumes_example :
    (3 ∷ 4 ∷ 5 ∷ 6 ∷ 7 ∷ 8 ∷ [] ≡ take 6 (drop 2 content)) × (tell true ended ≡ some (pos 8))
unfolding make_read_source starting_byte retrying_source resumed
stream-resumes_example =
    stream-resumes still read_child open_child (λ c. true) (λ c w. (failure lost, c, w)) twice brief
      5 content Position child-Serving 0 2 asked from_third 2
      (false ∷ true ∷ false ∷ true ∷ true ∷ false ∷ false ∷ []) ended (3 ∷ 4 ∷ 5 ∷ 6 ∷ 7 ∷ 8 ∷ [])
      refl refl refl resumed_run
