-- ===== src/WriteStream.antt =====
-- `FileWriteStreambuf`: src/file_write_streambuf.cpp and
-- include/cloudstorageapi/internal/file_write_streambuf.h. The put area of the stream buffer, and
-- the session that its bytes go to.
pub mod Trim
pub mod Accepted
pub mod Operations
pub mod Whole
pub mod Failure
mod Tests
use cloudstorageapi.Prelude.{
  ℕ, zero, suc, ◌+◌, ◌-◌, ◌*◌, ◌/◌, Bool, true, false, not, Option, none, some, String, List, [],
  ◌∷◌, ◌++◌, ltb, leb, ◌==◌, ◌&&◌, if◌then◌else◌, concat, to_string, length, take, is_empty,
  reverse, min,
}
use cloudstorageapi.Status.{Status, StatusOrVal, value, failure, aborted, get_status}
use cloudstorageapi.Buffers.{
  ConstBuffer, ConstBufferSequence, total_bytes, pop_front_bytes, bytes, round_up_to_quantum,
}
use cloudstorageapi.Upload.{
  ResumableUploadResponse, in_progress, Reply, Session, SessionError, session_error,
}

-- `m_uploadSession`: the session that the stream was made with, the session that always fails which
-- takes its place, or the null pointer after the final flush.
pub data Held : Type 0 where
  live : Held
  failed : SessionError → Held
  closed : Held

-- `FileWriteStreambuf`. `put_area` is the bytes from `pbase()` to `pptr()`, `area_size` is
-- `epptr() - pbase()`, and `buffer_size` is the size of `m_currentIosBuffer`. `inner` is the session
-- that the stream was made with, and what it talks to.
pub record Streambuf (S : Type 0) : Type 0 where
  pub inner : S
  pub held : Held
  pub put_area : List ℕ
  pub area_size : ℕ
  pub buffer_size : ℕ
  pub max_buffer_size : ℕ
  pub auto_finalize : Bool
  pub last_response : Reply

-- The response of a stream that has not sent anything.
abbrev pub fresh_response : ResumableUploadResponse
fresh_response = record {
  upload_session_url = "";
  last_committed_byte = 0;
  payload = none;
  upload_state = in_progress;
  annotations = "";
}

-- The loop of `FlushRoundChunk` that trims the last spans of the payload (here the first ones),
-- while `excess` bytes are too many. Beside the payload it returns what is left of the excess. A span
-- that keeps a byte has lost the whole excess, which ends the loop.
pub trim_back : ℕ → ConstBufferSequence → ℕ × ConstBufferSequence
trim_back excess [] = (excess, [])
trim_back excess (span ∷ spans) =
    let n = min excess (length span) in
    let kept = take (length span - n) span in
    let rest = trim_back (excess - n) spans in
    if ltb 0 excess
    then (if is_empty kept then rest else (excess - n, kept ∷ spans))
    else (excess, span ∷ spans)

already_uploaded : ℕ → Status
already_uploaded byte = record {
  code = aborted;
  message = concat (
      "Could not continue upload stream. CSA requested byte "
      ∷ to_string byte
      ∷ " which has already been uploaded."
      ∷ []);
}

unexpected_byte : ℕ → ℕ → Status
unexpected_byte expected actual = record {
  code = aborted;
  message = concat (
      "Could not continue upload stream. "
      ∷ "CSA requested unexpected byte. (expected: "
      ∷ to_string expected
      ∷ ", actual: "
      ∷ to_string actual
      ∷ ")"
      ∷ []);
}

-- `!m_lastResponse`.
abbrev pub failed_response : Reply → Bool
failed_response (value r) = false
failed_response (failure s) = true

module _ {S : Type 0} (session : Session S) where
  open session use {
    upload_chunk, upload_final_chunk, next_expected_byte, session_id, file_chunk_size_quantum,
    is_done,
  }

  -- The constructor.
  pub make_streambuf : S → ℕ → Bool → Streambuf S
  make_streambuf s max_buffer_size auto_finalize =
      let size = round_up_to_quantum max_buffer_size (file_chunk_size_quantum s) in
      record {
        inner = s;
        held = live;
        put_area = [];
        area_size = size;
        buffer_size = size;
        max_buffer_size = size;
        auto_finalize = auto_finalize;
        last_response = if is_done s then session.last_response s else value fresh_response;
      }

  -- `IsOpen`.
  is_open_held : Held → S → Bool
  is_open_held live s = not (is_done s)
  is_open_held (failed e) s = not (session_error.is_done e)
  is_open_held closed s = false

  pub is_open : Streambuf S → Bool
  unfolding is_open_held
  is_open b = is_open_held b.held b.inner

  -- `GetNextExpectedByte` (`none` is a read through the null pointer).
  pub get_next_expected_byte : Streambuf S → Option ℕ
  get_next_expected_byte b = elim b.held [
    | live ↦ some (next_expected_byte b.inner)
    | failed e ↦ some e.next_expected
    | closed ↦ none
  ]

  -- The error that takes the session's place.
  pub broken : Status → S → Held
  broken status s =
      failed (record { status = status; next_expected = next_expected_byte s; id = session_id s })

  -- What `FlushRoundChunk` does with the response: `first` and `expected` are the first byte that was
  -- sent and the byte after the last, and `rest` the bytes that were not sent.
  pub after_chunk : ℕ → ℕ → List ℕ → Reply × S → Streambuf S → Streambuf S
  unfolding broken already_uploaded unexpected_byte
  after_chunk first expected rest (failure status, s) b = record b {
    inner = s;
    last_response = failure status;
    held = broken status s;
  }
  after_chunk first expected rest (value r, s) b =
      let actual = next_expected_byte s in
      let kept : Streambuf S = record b {
        inner = s;
        last_response = value r;
        put_area = rest;
        area_size = b.buffer_size;
      } in
      let refuse : Status → Streambuf S =
        λ status. record kept { last_response = failure status; held = broken status s } in
      if ltb actual expected && ltb actual first
      then refuse (already_uploaded actual)
      else if ltb expected actual
      then refuse (unexpected_byte expected actual)
      else kept

  -- `FlushRoundChunk`: send the largest multiple of the quantum, and keep the rest.
  pub flush_round_chunk : ConstBufferSequence → Streambuf S → Streambuf S
  flush_round_chunk buffers b =
      let quantum = file_chunk_size_quantum b.inner in
      let actual_size = total_bytes buffers in
      let rounded_size = actual_size / quantum * quantum in
      let (excess, spans) = trim_back (actual_size - rounded_size) (reverse buffers) in
      let first = next_expected_byte b.inner in
      after_chunk first (first + (rounded_size + excess))
        (bytes (pop_front_bytes buffers rounded_size)) (upload_chunk (reverse spans) b.inner) b

  -- `Flush`.
  pub flush : Streambuf S → Streambuf S
  unfolding is_open
  flush b =
      if not (is_open b)
      then b
      else if ltb (length b.put_area) (file_chunk_size_quantum b.inner)
      then b
      else flush_round_chunk (b.put_area ∷ []) b

  -- `FlushFinal`.
  pub flush_final : Streambuf S → Streambuf S
  unfolding is_open
  flush_final b =
      let size = next_expected_byte b.inner + length b.put_area in
      let (r, s) = upload_final_chunk (b.put_area ∷ []) size b.inner in
      if not (is_open b) then b else record b {
        inner = s;
        held = closed;
        put_area = [];
        area_size = 0;
        buffer_size = 1;
        last_response = r;
      }

  -- `Close`.
  pub close : Streambuf S → Reply × Streambuf S
  close b = let b' = flush_final b in (b'.last_response, b')

  -- `AutoFlushFinal`, which the destructor of the stream calls.
  pub auto_flush_final : Streambuf S → Streambuf S
  auto_flush_final b = if b.auto_finalize then (close b).1 else b

  -- `sync`: whether it succeeds (it returns 0), or returns EOF.
  pub sync : Streambuf S → Bool × Streambuf S
  sync b = let b' = flush b in (not (failed_response b'.last_response), b')

  -- `xsputn`: how many bytes it took, or EOF.
  pub xsputn : List ℕ → Streambuf S → Option ℕ × Streambuf S
  unfolding is_open
  xsputn s b =
      let buffers = if length b.put_area == 0 then s ∷ [] else b.put_area ∷ s ∷ [] in
      let b' = flush_round_chunk buffers b in
      if not (is_open b)
      then (none, b)
      else if leb b.max_buffer_size (length s + length b.put_area)
      then (if failed_response b'.last_response then none else some (length s), b')
      else (some (length s), record b { put_area = b.put_area ++ s })

  -- `overflow`; the argument is EOF or a character. The character is written behind the put area
  -- whether or not there is room.
  pub overflow : Option ℕ → Streambuf S → Option ℕ × Streambuf S
  unfolding is_open
  overflow none b = (some 0, b)
  overflow (some c) b =
      let b' = if leb b.max_buffer_size (length b.put_area) then flush b else b in
      let written : Streambuf S = record b' { put_area = b'.put_area ++ c ∷ [] } in
      if not (is_open b)
      then (none, b)
      else (if failed_response written.last_response then none else some c, written)

  -- `std::streambuf::sputc`: the put area, or `overflow` if there is no room in it.
  pub sputc : ℕ → Streambuf S → Option ℕ × Streambuf S
  sputc c b =
      if ltb (length b.put_area) b.area_size
      then (some c, record b { put_area = b.put_area ++ c ∷ [] })
      else overflow (some c) b
