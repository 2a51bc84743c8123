-- ===== src/ReadSource.antt =====
-- Downloads that are opened again when a read fails: `ReadFileRangeRequest` of
-- src/transport/file_requests.cpp, the result of a read of
-- include/cloudstorageapi/internal/object_read_source.h, and `RetryObjectReadSource` of
-- src/retry_object_read_source.cpp. Offsets do not reach the limits of `std::int64_t`.
pub mod Contiguous
pub mod Reads
pub mod Termination
pub mod Tests
use cloudstorageapi.Prelude.{
  ℕ, zero, suc, ◌+◌, ◌-◌, ℤ, pos, negsuc, Bool, true, false, Option, none, some, String, List, [],
  ◌∷◌, ◌++◌, length, max, ltb, leb, if◌then◌else◌, concat, add_nat, sub_nat,
}
use cloudstorageapi.Status.{
  Status, failed_precondition, StatusOrVal, value, failure, is_permanent_failure,
}
use cloudstorageapi.Http.{HttpResponse}
use cloudstorageapi.Policy.{
  World, RetryPolicy, BackoffPolicy, clone_retry, clone_backoff, on_failure, on_completion,
}
use cloudstorageapi.Retry.{Lent, make_call}

-- The options of `ReadFileRangeRequest`: the begin and the end of a range, an offset, and a number
-- of last bytes.
pub record ReadRequest : Type 0 where
  pub read_range : Option (ℤ × ℤ)
  pub read_from_offset : Option ℤ
  pub read_last : Option ℤ

-- `std::max(result, value)` on an option's value, from a result that is not negative.
abbrev at_least : ℕ → Option ℤ → ℕ
at_least n none = n
at_least n (some (pos k)) = max n k
at_least n (some (negsuc k)) = n

abbrev range_begin : Option (ℤ × ℤ) → Option ℤ
range_begin none = none
range_begin (some (b, e)) = some b

-- `ReadFileRangeRequest::GetStartingByte`.
unfoldable pub starting_byte : ReadRequest → ℤ
starting_byte q = elim q.read_last [
  | none ↦ pos (at_least (at_least 0 (range_begin q.read_range)) q.read_from_offset)
  | some k ↦ negsuc 0
]

-- `ReadSourceResult`; `received` is the bytes that the read put into the buffer.
pub record ReadSourceResult : Type 0 where
  pub received : List ℕ
  pub response : HttpResponse

-- `OffsetDirection`.
pub data OffsetDirection : Type 0 where
  from_beginning from_end : OffsetDirection

-- `RetryObjectReadSource`: a child is a source that the client has opened.
pub record ReadSource (C : Type 0) : Type 0 where
  pub request : ReadRequest
  pub child : Option C
  pub direction : OffsetDirection
  pub current_offset : ℤ

-- `InitialOffset`. The value of an option that is not set is not read.
abbrev initial_offset : ReadRequest → OffsetDirection × ℤ
initial_offset q = elim q.read_last [
  | none ↦ (from_beginning, starting_byte q)
  | some k ↦ (from_end, k)
]

-- The constructor.
unfoldable pub make_read_source : {C : Type 0} → ReadRequest → C → ReadSource C
make_read_source q c =
    let (direction, offset) = initial_offset q in
    record { request = q; child = some c; direction = direction; current_offset = offset }

-- The offset after a read of `n` bytes.
abbrev pub moved : OffsetDirection → ℤ → ℕ → ℤ
moved from_beginning offset n = add_nat offset n
moved from_end offset n = sub_nat offset n

-- The request for what is left to read.
abbrev pub rest_request : OffsetDirection → ℤ → ReadRequest → ReadRequest
rest_request from_beginning offset q = record q { read_from_offset = some offset }
rest_request from_end offset q = record q { read_last = some offset }

-- The error after the loop.
abbrev pub read_error : Status → Status
read_error s = record s {
  message = concat (
      (if is_permanent_failure s
        then "Permanent error in Read(): "
        else "Retry policy exhausted in Read(): ")
      ∷ s.message
      ∷ []);
}

-- What a round of the loop of `Read` leads to.
pub data Step (C W : Type 0) : Type 0 where
  ends : StatusOrVal ReadSourceResult → ReadSource C → Lent W → Step C W
  goes_on : Status → ReadSource C → Lent W → Step C W
  no_fuel : Step C W

module _ {C W : Type 0} (world : World W)
    (read_child : ℕ → C → W → StatusOrVal ReadSourceResult × C × W)
    (open_child : ReadRequest → W → StatusOrVal C × W) where
  -- What follows a read of the child: `handle_result`, or another test of the loop.
  unfoldable pub after_read :
      StatusOrVal ReadSourceResult × C × W → ReadSource C → Lent W → Step C W
  after_read (value r, c, w) src l =
      ends (value r)
        (record src {
          child = some c;
          current_offset = moved src.direction src.current_offset (length r.received);
        })
        (record l { world_state = w })
  after_read (failure s, c, w) src l =
      goes_on s (record src { child = some c }) (record l { world_state = w })

  -- The end of the loop's body, after `ReadFileNotWrapped`, and its third part: sleep and read.
  unfoldable pub after_open : ℕ → Option (StatusOrVal C × Lent W) → ReadSource C → Step C W
  after_open n none src = no_fuel
  after_open n (some (failure s, l)) src = ends (failure s) src l
  after_open n (some (value c, l)) src =
      let (delay, b, w) = on_completion world l.backoff l.world_state in
      after_read (read_child n c (world.sleep_for delay w)) src (record l { backoff = b })

  -- One test of the loop, with a failed result, and its body.
  unfoldable pub read_round : ℕ → ℕ → Status → ReadSource C → Lent W → Step C W
  read_round fuel n s src l =
      let (go_on, p, w) = on_failure world l.retry s l.world_state in
      let here : Lent W = record l { retry = p; world_state = w } in
      let closed : ReadSource C = record src {
        child = none;
        request = rest_request src.direction src.current_offset src.request;
      } in
      let opened = make_call world "ReadFileNotWrapped" (open_child closed.request) fuel here in
      if go_on then after_open n opened closed else ends (failure (read_error s)) src here

  -- The loop.
  unfoldable pub read_loop :
      ℕ
      → ℕ
      → Status
      → ReadSource C
      → Lent W
      → Option (StatusOrVal ReadSourceResult × ReadSource C × W)
  read_loop zero n s src l = none
  read_loop (suc fuel) n s src l = elim (read_round fuel n s src l) [
    | ends r src' l' ↦ some (r, src', l'.world_state)
    | goes_on s' src' l' ↦ read_loop fuel n s' src' l'
    | no_fuel ↦ none
  ]

  module _ (retry_prototype : RetryPolicy) (backoff_prototype : BackoffPolicy) where
    -- `Read` on the first read's result.
    unfoldable pub read_on :
        ℕ → ℕ → Step C W → Option (StatusOrVal ReadSourceResult × ReadSource C × W)
    read_on fuel n (ends r src l) = some (r, src, l.world_state)
    read_on fuel n (goes_on s src l) =
        let (p, w) = clone_retry world retry_prototype l.world_state in
        read_loop fuel n s src
          (record { retry = p; backoff = clone_backoff backoff_prototype; world_state = w })
    read_on fuel n no_fuel = none

    -- `Read` on the child, or on the null pointer.
    unfoldable pub read_by :
        ℕ
        → ℕ
        → Option C
        → ReadSource C
        → W
        → Option (StatusOrVal ReadSourceResult × ReadSource C × W)
    read_by fuel n none src w =
        some
          (failure (record { code = failed_precondition; message = "Stream is not open" }), src, w)
    read_by fuel n (some c) src w = read_on fuel n (
        after_read (read_child n c w) src
          (record { retry = retry_prototype; backoff = backoff_prototype; world_state = w }))

    -- `RetryObjectReadSource::Read`, for a buffer of `n` bytes.
    unfoldable pub read :
        ℕ → ℕ → ReadSource C → W → Option (StatusOrVal ReadSourceResult × ReadSource C × W)
    read fuel n src w = read_by fuel n src.child src w
