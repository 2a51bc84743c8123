-- ===== src/Download.antt =====
-- `CurlDownloadRequest`: src/transport/curl_download_request.cpp and
-- include/cloudstorageapi/internal/curl_download_request.h. libcurl is a record of operations on its
-- own state, which calls the write callback with the request that is under way. The texts of statuses
-- leave out the numbers of a message that is about another handle.
pub mod Contract
pub mod Flow
pub mod Waits
pub mod Reads
mod Tests
use cloudstorageapi.Prelude.{
  ℕ, zero, suc, ◌+◌, ◌-◌, Bool, true, false, not, ◌&&◌, ◌||◌, Option, none, some, String, List, [],
  ◌∷◌, ◌++◌, concat, to_string, ◌==◌, leb, ltb, min, length, take, drop, if◌then◌else◌, is_empty, ℤ,
  pos, negsuc, show_int,
}
use cloudstorageapi.Status.{
  Status, StatusOrVal, value, failure, ok_status, is_ok, invalid_argument, unknown,
}
use cloudstorageapi.Http.{HttpResponse, as_status}
use cloudstorageapi.ReadSource.{ReadSourceResult}

-- `CURLMcode`: `CURLM_OK`, `CURLM_CALL_MULTI_PERFORM`, and the others with their number and text.
pub data MultiCode : Type 0 where
  multi_ok call_multi_perform : MultiCode
  multi_error : ℤ → String → MultiCode

-- What the write callback answers: the bytes that it took, or `CURL_WRITEFUNC_PAUSE`.
pub data WriteAnswer : Type 0 where
  took : ℕ → WriteAnswer
  pause : WriteAnswer

-- The fields of the request. `buffer` is the bytes of the application's buffer that were written,
-- so that its length is `m_bufferOffset`, and `spill` those of the spill buffer. `has_handles` says
-- that the handles were not given back.
pub record DownloadRequest : Type 0 where
  pub received_headers : List (String × String)
  pub http_code : ℕ
  pub has_handles : Bool
  pub closing : Bool
  pub curl_closed : Bool
  pub in_multi : Bool
  pub paused : Bool
  pub buffer : List ℕ
  pub buffer_size : ℕ
  pub spill : List ℕ

abbrev pub OnWrite : Type 0
OnWrite = List ℕ → DownloadRequest → WriteAnswer × DownloadRequest

abbrev pub Headers : Type 0
Headers = List (String × String)

-- What the request calls in libcurl and in the factory of handles. The header lines of a call come
-- with its result, as pairs. `info_read` says whether the message is about the request's handle,
-- and the status of its transfer; `response_code` is documented not to fail.
pub record Libcurl (E : Type 0) : Type 0 where
  pub set_callbacks : E → E
  pub easy_pause : OnWrite → E → DownloadRequest → Status × Headers × DownloadRequest × E
  pub easy_perform : OnWrite → E → DownloadRequest → Status × Headers × DownloadRequest × E
  pub multi_perform : OnWrite → E → DownloadRequest → MultiCode × ℕ × Headers × DownloadRequest × E
  pub info_read : E → Option (Bool × Status) × E
  pub multi_remove_handle : E → MultiCode × E
  pub multi_wait : E → MultiCode × ℕ × E
  pub sleep_for : ℕ → E → E
  pub response_code : E → ℕ
  pub peer : E → String
  pub cleanup_handles : E → E

-- `CurlDownloadRequest::AsStatus`.
unfoldable pub multi_status : MultiCode → String → Status
multi_status multi_ok place = ok_status
multi_status call_multi_perform place = record {
  code = unknown;
  message = concat (
      place
      ∷ "(): unexpected error code in curl_multi_*, [-1]=Please call curl_multi_perform() soon"
      ∷ []);
}
multi_status (multi_error n text) place = record {
  code = unknown;
  message =
      concat
        (place ∷ "(): unexpected error code in curl_multi_*, [" ∷ show_int n ∷ "]=" ∷ text ∷ []);
}

-- The constructor, and `SetOptions` which adds the handle to the multi handle.
abbrev pub new_download : DownloadRequest
new_download = record {
  received_headers = [];
  http_code = 0;
  has_handles = true;
  closing = false;
  curl_closed = false;
  in_multi = true;
  paused = false;
  buffer = [];
  buffer_size = 0;
  spill = [];
}

-- `IsOpen`.
pub download_is_open : DownloadRequest → Bool
download_is_open d = not (d.curl_closed && is_empty d.spill)

-- `DrainSpillBuffer`.
abbrev pub drain_spill_buffer : DownloadRequest → DownloadRequest
drain_spill_buffer d =
    let copy_count = min (d.buffer_size - length d.buffer) (length d.spill) in
    record d { buffer = d.buffer ++ take copy_count d.spill; spill = drop copy_count d.spill }

-- The end of `WriteCallback`, after the spill buffer was used.
unfoldable pub write_data : OnWrite
write_data bytes d =
    let free = d.buffer_size - length d.buffer in
    if free == 0
    then (pause, record d { paused = true })
    else if ltb (length bytes) free
    then (took (length bytes), record d { buffer = d.buffer ++ bytes })
    else (
      took (length bytes),
      record d { buffer = d.buffer ++ take free bytes; spill = drop free bytes },
    )

-- `WriteCallback`.
unfoldable pub write_callback : OnWrite
write_callback bytes d =
    if d.closing
    then (took 0, d)
    else if leb d.buffer_size (length d.buffer)
    then (pause, record d { paused = true })
    else write_data bytes (drain_spill_buffer d)

-- The header callback's pairs of one call.
abbrev pub add_headers : Headers → DownloadRequest → DownloadRequest
add_headers h d = record d { received_headers = d.received_headers ++ h }

module _ {E : Type 0} (curl : Libcurl E) where
  open curl use {
    set_callbacks, easy_pause, easy_perform, multi_perform, info_read, multi_remove_handle,
    multi_wait, sleep_for, response_code, peer, cleanup_handles,
  }

  -- The loop of `curl_multi_perform`: what it does with a result.
  abbrev pub performed :
      (DownloadRequest → E → Option (MultiCode × ℕ × DownloadRequest × E))
      → MultiCode × ℕ × Headers × DownloadRequest × E
      → Option (MultiCode × ℕ × DownloadRequest × E)
  performed again (call_multi_perform, n, h, d, e) = again (add_headers h d) e
  performed again (multi_ok, n, h, d, e) = some (multi_ok, n, add_headers h d, e)
  performed again (multi_error c t, n, h, d, e) = some (multi_error c t, n, add_headers h d, e)

  unfoldable pub perform_loop :
      ℕ → DownloadRequest → E → Option (MultiCode × ℕ × DownloadRequest × E)
  perform_loop zero d e = none
  perform_loop (suc fuel) d e = performed (perform_loop fuel) (multi_perform write_callback e d)

  -- The handle leaves the multi handle, where it is in it.
  unfoldable pub leave_multi : DownloadRequest → E → Status × DownloadRequest × E
  leave_multi d e =
      if d.in_multi
      then (let (r, e') = multi_remove_handle e in
          (multi_status r "PerformWork", record d { in_multi = false }, e'))
      else (ok_status, d, e)

  -- A round of the loop over the messages, once the transfer is marked as closed and removed; `rest`
  -- is the rounds after it.
  abbrev pub after_leave :
      (DownloadRequest → E → Option (StatusOrVal ℕ × DownloadRequest × E))
      → Status
      → Status × DownloadRequest × E
      → Option (StatusOrVal ℕ × DownloadRequest × E)
  after_leave rest transfer (removed, d, e) =
      if d.closing
      then rest d e
      else if not (is_ok transfer)
      then some (failure transfer, d, e)
      else if not (is_ok removed)
      then some (failure removed, d, e)
      else rest d e

  abbrev pub message_round :
      (DownloadRequest → E → Option (StatusOrVal ℕ × DownloadRequest × E))
      → DownloadRequest
      → Option (Bool × Status) × E
      → Option (StatusOrVal ℕ × DownloadRequest × E)
  message_round rest d (none, e) = some (value 0, d, e)
  message_round rest d (some (false, transfer), e) = some (
    failure (record {
      code = unknown;
      message = "PerformWork unknown handle returned by curl_multi_info_read()";
    }),
    d,
    e,
  )
  message_round rest d (some (true, transfer), e) =
      after_leave rest transfer (leave_multi (record d { curl_closed = true }) e)

  -- The loop over the messages, which runs where no handle is running.
  unfoldable pub message_loop :
      ℕ → DownloadRequest → E → Option (StatusOrVal ℕ × DownloadRequest × E)
  message_loop zero d e = none
  message_loop (suc fuel) d e = message_round (message_loop fuel) d (info_read e)

  -- The rest of `PerformWork`, after the loop of `curl_multi_perform`.
  abbrev pub after_perform :
      ℕ
      → Option (MultiCode × ℕ × DownloadRequest × E)
      → Option (StatusOrVal ℕ × DownloadRequest × E)
  after_perform fuel none = none
  after_perform fuel (some (code, running, d, e)) =
      let status = multi_status code "PerformWork" in
      if not (is_ok status)
      then some (failure status, d, e)
      else if running == 0
      then message_loop fuel d e
      else some (value running, d, e)

  -- `PerformWork`.
  unfoldable pub perform_work :
      ℕ → DownloadRequest → E → Option (StatusOrVal ℕ × DownloadRequest × E)
  perform_work fuel d e =
      if not d.in_multi then some (value 0, d, e) else after_perform fuel (perform_loop fuel d e)

  -- `WaitForHandles`, which counts its calls without work in `repeats`.
  unfoldable pub wait_for_handles : ℕ → E → Status × ℕ × E
  wait_for_handles repeats e =
      let (code, numfds, e') = multi_wait e in
      let status = multi_status code "WaitForHandles" in
      if not (is_ok status)
      then (status, repeats, e')
      else if numfds == 0
      then (status, suc repeats, if ltb 1 (suc repeats) then sleep_for 1 e' else e')
      else (status, 0, e')

  -- The predicate that `Read` waits for.
  abbrev pub is_filled : DownloadRequest → Bool
  is_filled d = d.curl_closed || d.paused || leb d.buffer_size (length d.buffer)

  -- A round of `Wait`, after `PerformWork`; `rest` is the rounds after it.
  abbrev pub after_wait :
      (ℕ → E → Option (Status × DownloadRequest × E))
      → DownloadRequest
      → Status × ℕ × E
      → Option (Status × DownloadRequest × E)
  after_wait rest d (status, repeats, e) =
      if not (is_ok status) then some (status, d, e) else rest repeats e

  abbrev pub after_work :
      (ℕ → DownloadRequest → E → Option (Status × DownloadRequest × E))
      → ℕ
      → Option (StatusOrVal ℕ × DownloadRequest × E)
      → Option (Status × DownloadRequest × E)
  after_work rest repeats none = none
  after_work rest repeats (some (failure s, d, e)) = some (s, d, e)
  after_work rest repeats (some (value running, d, e)) =
      if (running == 0) || is_filled d
      then some (ok_status, d, e)
      else after_wait (λ k. rest k d) d (wait_for_handles repeats e)

  -- `Wait`, with fuel for its rounds and for the loops in each of them.
  unfoldable pub wait : ℕ → ℕ → ℕ → DownloadRequest → E → Option (Status × DownloadRequest × E)
  wait work zero repeats d e = none
  wait work (suc fuel) repeats d e =
      if is_filled d
      then some (ok_status, d, e)
      else after_work (wait work fuel) repeats (perform_work work d e)

  -- `OnTransferDone`.
  unfoldable pub on_transfer_done : DownloadRequest → E → DownloadRequest × E
  on_transfer_done d e = (
    record d {
      http_code = response_code e;
      received_headers = d.received_headers ++ (":curl-peer", peer e) ∷ [];
      has_handles = false;
    },
    cleanup_handles e,
  )

  -- The response that `Read` makes, with the headers moved out of the request.
  abbrev pub response_of : ℕ → DownloadRequest → HttpResponse
  response_of code d = record { status_code = code; payload = ""; headers = d.received_headers }

  abbrev pub without_buffer : DownloadRequest → DownloadRequest
  without_buffer d = record d { buffer = []; buffer_size = 0 }

  abbrev pub Answer : Type 0
  Answer = StatusOrVal ReadSourceResult × DownloadRequest × E

  -- The end of `Read` for a transfer that was closed.
  unfoldable pub finish : List ℕ → DownloadRequest × E → Answer
  finish bytes (d, e) =
      let response = response_of d.http_code d in
      let status = as_status response in
      if not (is_ok status) then (failure status, record d { received_headers = [] }, e) else (
        value (record { received = bytes; response = response }),
        record d { received_headers = [] },
        e,
      )

  -- `Read` after `Wait`.
  unfoldable pub read_waited : Option (Status × DownloadRequest × E) → Option Answer
  unfolding finish
  read_waited none = none
  read_waited (some (status, d, e)) =
      let d' : DownloadRequest = add_headers ((":curl-peer", peer e) ∷ []) (without_buffer d) in
      if not (is_ok status)
      then some (failure status, d, e)
      else if d.curl_closed
      then some (finish d.buffer (on_transfer_done (without_buffer d) e))
      else some (
        value (record { received = d.buffer; response = response_of 100 d' }),
        record d' { received_headers = [] },
        e,
      )

  -- `Read` after the transfer was told to go on.
  abbrev pub read_continued : ℕ → ℕ → Status × Headers × DownloadRequest × E → Option Answer
  read_continued work fuel (status, h, d, e) =
      if not (is_ok status)
      then some (failure status, add_headers h d, e)
      else read_waited (wait work fuel 0 (add_headers h d) e)

  -- `Read` after the spill buffer was used.
  unfoldable pub read_drained : ℕ → ℕ → DownloadRequest → E → Option Answer
  read_drained work fuel d e =
      if d.curl_closed
      then some (
        value (record { received = d.buffer; response = response_of d.http_code d }),
        record d { received_headers = [] },
        e,
      )
      else if d.paused
      then read_continued work fuel
          (easy_pause write_callback (set_callbacks e) (record d { paused = false }))
      else read_waited (wait work fuel 0 d (set_callbacks e))

  -- `Read`.
  unfoldable pub download_read : ℕ → ℕ → ℕ → DownloadRequest → E → Option Answer
  download_read work fuel n d e =
      let fresh : DownloadRequest = record d { buffer = []; buffer_size = n } in
      if n == 0
      then some (
        failure (record { code = invalid_argument; message = "Empty buffer for Read()" }),
        fresh,
        e,
      )
      else read_drained work fuel (drain_spill_buffer fresh) e

  -- `CleanupHandles`, after the part that lets a paused transfer go on.
  unfoldable pub cleanup_removed : Status × Headers × DownloadRequest × E → DownloadRequest × E
  unfolding leave_multi
  cleanup_removed (status, h, d, e) = let (r, d', e') = leave_multi (add_headers h d) e in (d', e')

  -- `CleanupHandles`.
  unfoldable pub cleanup : DownloadRequest → E → DownloadRequest × E
  unfolding cleanup_removed
  cleanup d e =
      if d.curl_closed || not d.has_handles
      then (d, e)
      else if d.paused
      then cleanup_removed (easy_pause write_callback e (record d { paused = false }))
      else cleanup_removed (ok_status, [], d, e)

  -- `Close` for a transfer that is not closed yet.
  unfoldable pub close_open : Status × Headers × DownloadRequest × E → DownloadRequest × E
  unfolding on_transfer_done
  close_open (status, h, d, e) =
      on_transfer_done (record (add_headers h d) { curl_closed = true }) e

  -- `Close`.
  unfoldable pub download_close :
      DownloadRequest → E → StatusOrVal HttpResponse × DownloadRequest × E
  unfolding cleanup close_open
  download_close d e =
      let (d', e') = cleanup (record d { closing = true }) e in
      let (d'', e'') : DownloadRequest × E =
        if d'.curl_closed then (d', e') else close_open (easy_perform write_callback e' d') in
      if d.curl_closed
      then (value (response_of d.http_code d), d, e)
      else (value (response_of d''.http_code d''), d'', e'')
