-- ===== src/ReadStream.antt =====
-- `FileReadStreambuf`: src/file_read_streambuf.cpp and
-- include/cloudstorageapi/internal/file_read_streambuf.h. The get area of the stream buffer, and the
-- source that its bytes come from.
pub mod Delivered
pub mod Failed
pub mod Gets
pub mod Full
pub mod Resumed
mod Tests
use cloudstorageapi.Prelude.{
  ℕ, zero, suc, ◌+◌, ◌-◌, ◌*◌, ℤ, pos, negsuc, add_nat, sub_nat, Bool, true, false, not, ◌&&◌,
  Option, none, some, String, List, [], ◌∷◌, ◌++◌, ◌==◌, leb, min, length, take, drop,
  if◌then◌else◌, is_empty,
}
use cloudstorageapi.Status.{Status, StatusOrVal, value, failure, ok_status, is_ok}
use cloudstorageapi.Http.{HttpResponse}
use cloudstorageapi.ReadSource.{ReadSourceResult}

-- `ObjectReadSource`, over a state that holds the source and what it talks to.
pub record Source (S : Type 0) : Type 0 where
  pub source_is_open : S → Bool
  pub source_close : S → StatusOrVal HttpResponse × S
  pub source_read : ℕ → S → StatusOrVal ReadSourceResult × S

-- `ObjectReadErrorSource`.
abbrev pub error_source : Source Status
error_source = record {
  source_is_open = λ e. false;
  source_close = λ e. (failure e, e);
  source_read = λ n e. (failure e, e);
}

-- `FileReadStreambuf`. `get_area` is the bytes from `gptr()` to `egptr()`, so that its length is
-- `in_avail()`.
pub record ReadStreambuf (S : Type 0) : Type 0 where
  pub source : S
  pub source_pos : ℤ
  pub get_area : List ℕ
  pub status : Status
  pub headers : List (String × String)

-- The constructors: for a source, and for an error.
abbrev pub read_streambuf : {S : Type 0} → S → ℤ → ReadStreambuf S
read_streambuf s pos_in_stream = record {
  source = s;
  source_pos = pos_in_stream;
  get_area = [];
  status = ok_status;
  headers = [];
}

abbrev pub error_streambuf : Status → ReadStreambuf Status
error_streambuf e = record (read_streambuf e (negsuc 0)) { status = e }

-- What a function returns, or the exception with its status.
pub data Returned (A : Type 0) : Type 0 where
  gives : A → Returned A
  throws : Status → Returned A

-- The status of the exception: the text was moved out of it before.
abbrev moved_from : Status → Status
moved_from s = record s { message = "" }

-- `ReportError`, for a status that is not OK, as that of a failed `StatusOrVal` never is: remember it
-- and throw.
unfoldable pub report_error :
    {S A : Type 0} → Status → ReadStreambuf S → Returned A × ReadStreambuf S
report_error s b = (throws (moved_from s), record b { status = s })

-- `seekoff`; `none` is -1. The arguments are whether the call asks for the current place of input.
pub tell : {S : Type 0} → Bool → ReadStreambuf S → Option ℤ
tell asks_for_place b =
    if asks_for_place then some (sub_nat b.source_pos (length b.get_area)) else none

module _ {S : Type 0} (api : Source S) where
  open api use {source_is_open, source_close, source_read}

  -- `CheckPreconditions`.
  unfoldable pub check_preconditions : ReadStreambuf S → Bool
  check_preconditions b =
      if not (is_empty b.get_area) then true else is_ok b.status && source_is_open b.source

  -- What `Close` does with the source's answer.
  pub after_close :
      StatusOrVal HttpResponse × S → ReadStreambuf S → Returned (List ℕ) × ReadStreambuf S
  after_close (value r, s) b = (gives [], record b { source = s })
  after_close (failure e, s) b = report_error e (record b { source = s })

  -- `Close`, which gives nothing.
  pub close_read : ReadStreambuf S → Returned (List ℕ) × ReadStreambuf S
  close_read b = after_close (source_close b.source) b

  -- What `xsgetn` does with the source's answer; `first` is the bytes from the get area.
  unfoldable pub after_source_read :
      List ℕ
      → StatusOrVal ReadSourceResult × S
      → ReadStreambuf S
      → Returned (List ℕ) × ReadStreambuf S
  unfolding report_error
  after_source_read first (failure e, s) b = report_error e (record b { source = s })
  after_source_read first (value r, s) b = (
    gives (first ++ r.received),
    record b {
      source = s;
      source_pos = add_nat b.source_pos (length r.received);
      headers = b.headers ++ r.response.headers;
    },
  )

  -- `xsgetn`: the bytes that it copies.
  unfoldable pub xsgetn : ℕ → ReadStreambuf S → Returned (List ℕ) × ReadStreambuf S
  xsgetn count b =
      let from_internal = min count (length b.get_area) in
      let first = take from_internal b.get_area in
      let b' : ReadStreambuf S = record b { get_area = drop from_internal b.get_area } in
      if not (check_preconditions b)
      then (gives [], b)
      else if leb count from_internal
      then (gives first, b')
      else if not (source_is_open b.source)
      then (gives first, b')
      else after_source_read first (source_read (count - from_internal) b.source) b'

  -- The get area after a read into a new buffer; the next character, or `none` for EOF.
  unfoldable pub after_fill :
      Returned (List ℕ) × ReadStreambuf S → Returned (Option ℕ) × ReadStreambuf S
  after_fill (throws e, b) = (throws e, b)
  after_fill (gives [], b) = (gives none, b)
  after_fill (gives (c ∷ cs), b) = (gives (some c), record b { get_area = c ∷ cs })

  -- `underflow`, which the stream calls when the get area is empty.
  unfoldable pub underflow : ReadStreambuf S → Returned (Option ℕ) × ReadStreambuf S
  underflow b =
      if not (check_preconditions b) then (gives none, b) else after_fill (xsgetn (128 * 1024) b)
