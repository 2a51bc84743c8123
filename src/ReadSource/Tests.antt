-- ===== src/ReadSource/Tests.antt =====
-- A download that fails twice on its way.
use cloudstorageapi.Prelude.{
  arith, ℕ, ◌+◌, ◌≡◌, refl, ap, ℤ, pos, negsuc, Bool, true, false, none, some, List, [], ◌∷◌,
  length, take, take-length-take, drop, ◌∙◌, sym,
}
use cloudstorageapi.Status.{StatusOrVal, value, failure, is_permanent_failure}
use cloudstorageapi.Policy.{
  RetryPolicy, limited_error_count, is_exhausted, on_failure, on_completion, clone_retry,
  clone_backoff,
}
use cloudstorageapi.Retry.{make_call, loop, round, after_call, after_failure}
use cloudstorageapi.ReadSource.{
  ReadRequest, ReadSource, ReadSourceResult, starting_byte, from_beginning, make_read_source,
  after_read, after_open, read_round, read_loop, read_on, read_by, read,
}
use cloudstorageapi.ReadSource.Contiguous.{At, Delivers, Serving}
use cloudstorageapi.ReadSource.Reads.{reads, reads-delivers}
use cloudstorageapi.ReadSource.Termination.{read-total}
use mathlib.Core.Option.{some-injective}
use cloudstorageapi.Fixtures.{still, brief, down}

abbrev pub content : List ℕ
content = 1 ∷ 2 ∷ 3 ∷ 4 ∷ 5 ∷ 6 ∷ 7 ∷ 8 ∷ []

-- A source is its place; the state says which of the reads to come fail.
abbrev pub read_child : ℕ → ℕ → List Bool → StatusOrVal ReadSourceResult × ℕ × List Bool
read_child n c (true ∷ w) = (failure down, c + 1, w)
read_child n c (false ∷ w) =
    let part = take n (drop c content) in
    (
      value (record {
        received = part;
        response = record { status_code = 100; payload = ""; headers = [] };
      }),
      c + length part,
      w,
    )
read_child n c [] = (failure down, c, [])

abbrev amount : ℤ → ℕ
amount (pos n) = n
amount (negsuc n) = 0

abbrev pub open_child : ReadRequest → List Bool → StatusOrVal ℕ × List Bool
open_child q w = (value (amount (starting_byte q)), w)

abbrev pub Position : ℕ → ℕ → Type 0
Position o c = c ≡ o

abbrev got : StatusOrVal ReadSourceResult → List ℕ
got (value r) = r.received
got (failure s) = []

read_child-Serves :
    (n c c' : ℕ) (w w' : List Bool) (r : ReadSourceResult)
    → read_child n c w ≡ (value r, c', w')
    → (r.received ≡ take (length r.received) (drop c content)) × (c' ≡ c + length r.received)
read_child-Serves n c c' [] w' r e = absurd (cc (ap (λ x. x.0) e))
read_child-Serves n c c' (true ∷ w) w' r e = absurd (cc (ap (λ x. x.0) e))
read_child-Serves n c c' (false ∷ w) w' r e =
    let part = ap (λ x. got x.0) e in
    (
      sym part
          ∙ sym (take-length-take n (drop c content))
          ∙ ap (λ p. take (length p) (drop c content)) part,
      sym (ap (λ x. x.1) e) ∙ ap (λ p. c + length p) part,
    )

abbrev got_place : StatusOrVal ℕ → ℕ
got_place (value c) = c
got_place (failure s) = 0

pub child-Serving : Serving read_child open_child content Position
child-Serving = record {
  on_read = λ o n c c' w w' r here e.
      let (part, next) = read_child-Serves n c c' w w' r e in
      (
        part ∙ ap (λ k. take (length r.received) (drop k content)) here,
        next ∙ ap (λ k. k + length r.received) here,
      );
  on_open = λ q w w' o c start e. sym (ap (λ x. got_place x.0) e) ∙ ap amount start;
}

abbrev pub from_third : ReadRequest
from_third = record { read_range = none; read_from_offset = some (pos 2); read_last = none }

abbrev pub twice : RetryPolicy
twice = limited_error_count 0 (pos 2)

-- Three reads, with failures before the second and the third.
delivered :
    reads still read_child open_child content Position child-Serving twice brief 5
      (2 ∷ 2 ∷ 1 ∷ [])
      (make_read_source from_third 2)
      (false ∷ true ∷ false ∷ true ∷ true ∷ false ∷ [])
    ≡ some (
      3 ∷ 4 ∷ 5 ∷ 6 ∷ 7 ∷ [],
      record {
        request = record from_third { read_from_offset = some (pos 6) };
        child = some 7;
        direction = from_beginning;
        current_offset = pos 7;
      },
      [],
    )
unfolding reads read read_by read_on read_loop read_round after_open after_read make_read_source
    starting_byte make_call loop round after_call after_failure is_exhausted on_failure
    on_completion clone_retry clone_backoff is_permanent_failure
delivered = refl

reads-delivers_example : 3 ∷ 4 ∷ 5 ∷ 6 ∷ 7 ∷ [] ≡ take 5 (drop 2 content)
unfolding starting_byte
reads-delivers_example =
    reads-delivers still read_child open_child content Position child-Serving twice brief 5 2
      (2 ∷ 2 ∷ 1 ∷ []) (3 ∷ 4 ∷ 5 ∷ 6 ∷ 7 ∷ []) from_third 2 _
      (false ∷ true ∷ false ∷ true ∷ true ∷ false ∷ []) [] refl refl refl delivered

-- After two bytes, with failures to come.
abbrev underway : ReadSource ℕ
underway = record {
  request = from_third;
  child = some 4;
  direction = from_beginning;
  current_offset = pos 4;
}

underway-At : At still read_child open_child content Position child-Serving 4 underway
underway-At = (
  record { forward = refl; offset = refl; no_last = refl; begun = omega arith },
  λ c e. sym (some-injective 4 c e),
)

read-total_example :
    (r : StatusOrVal ReadSourceResult) × (src' : ReadSource ℕ) × (w' : List Bool) × (read still
        read_child open_child twice brief 3 2 underway
        (true ∷ true ∷ false ∷ [])
      ≡ some (r, src', w'))
    × Delivers still read_child open_child content Position child-Serving 4 r src'
read-total_example =
    read-total still read_child open_child content Position child-Serving 0 2 brief 4 2 underway
      (true ∷ true ∷ false ∷ []) underway-At
