-- ===== src/FileUpload.antt =====
-- Uploads of files by the client: `UploadFile` of include/cloudstorageapi/cloud_storage_client.h, and
-- `UseSimpleUpload`, `UploadFileSimple`, `UploadFileResumable` and `UploadStreamResumable` of
-- src/cloud_storage_client.cpp. The file system and the raw client are operations on one state; a
-- session acts on the state as well.
pub mod Stored
pub mod Files
pub mod Limit
mod Tests
use cloudstorageapi.Prelude.{
  ℕ, zero, suc, ◌+◌, ◌-◌, ◌^◌, Bool, true, false, not, ◌&&◌, ◌||◌, Option, none, some, String, List,
  [], ◌∷◌, ◌++◌, concat, to_string, ◌==◌, leb, ltb, min, length, take, drop, if◌then◌else◌,
}
use cloudstorageapi.Status.{
  Status, StatusOrVal, value, failure, invalid_argument, not_found, internal, out_of_range,
}
use cloudstorageapi.Metadata.{FileMetadata}
use cloudstorageapi.Buffers.{round_up_to_quantum}
use cloudstorageapi.Upload.{ResumableUploadResponse, in_progress, Reply, Session}

-- The options that the uploads read, of `ResumableUploadRequest` and `InsertFileRequest`; `shown` is
-- what `operator<<` prints of the request, by the `UploadContentLength` that is set in it.
pub record UploadRequest : Type 0 where
  pub folder_id : String
  pub name : String
  pub shown : Option ℕ → String
  pub upload_from_offset : Option ℕ
  pub upload_limit : Option ℕ
  pub upload_content_length : Option ℕ

-- `ValueOr`.
abbrev pub value_or : ℕ → Option ℕ → ℕ
value_or d none = d
value_or d (some n) = n

-- What an upload ends with: a result, `file_size` that throws, or the payload that is read although
-- the last response has none.
pub data Uploaded : Type 0 where
  returns : StatusOrVal FileMetadata → Uploaded
  file_size_throws missing_payload : Uploaded

-- `std::istream`: what is left to read, and `eof()`.
pub record InStream : Type 0 where
  pub rest : List ℕ
  pub eof : Bool

-- `read` of `n` bytes: those that `gcount()` counts, and the stream.
abbrev pub read_stream : ℕ → InStream → List ℕ × InStream
read_stream n i =
    (take n i.rest, record { rest = drop n i.rest; eof = i.eof || ltb (length i.rest) n })

-- `seekg` from the current place.
abbrev pub seek : ℕ → InStream → InStream
seek n i = record i { rest = drop n i.rest }

-- The file system as it is read, and the operations of the raw client that uploads use. Once a session
-- is created, `session` is that session. `size_error` is the text of the error code of `file_size`.
pub record Uploader (S : Type 0) : Type 0 where
  pub is_regular_file : String → S → Bool
  pub file_size : String → S → Option ℕ
  pub size_error : String
  pub open_file : String → S → Option (List ℕ)
  pub create_session : UploadRequest → S → StatusOrVal (Unit {0}) × S
  pub session : Session S
  pub insert_file : UploadRequest → List ℕ → S → StatusOrVal FileMetadata × S
  pub upload_buffer_size : ℕ
  pub maximum_simple_upload_size : ℕ
  pub file_chunk_quantum : ℕ

-- The variables of the loop of `UploadStreamResumable`.
pub record Uploading (S : Type 0) : Type 0 where
  pub source : InStream
  pub server_size : ℕ
  pub response : ResumableUploadResponse
  pub reached : Bool
  pub inner : S

-- `m_payload.has_value()`.
abbrev pub has_payload : Option FileMetadata → Bool
has_payload none = false
has_payload (some m) = true

abbrev pub empty_response : ResumableUploadResponse
empty_response = record {
  upload_session_url = "";
  last_committed_byte = 0;
  payload = none;
  upload_state = in_progress;
  annotations = "";
}

-- A status with the text that `UploadFileSimple` and `UploadFileResumable` build.
abbrev too_far : String → UploadRequest → String → ℕ → ℕ → Status
too_far func q file offset size = record {
  code = invalid_argument;
  message = concat (
      func
      ∷ "("
      ∷ q.shown q.upload_content_length
      ∷ ", "
      ∷ file
      ∷ "): UploadFromOffset ("
      ∷ to_string offset
      ∷ ") is bigger than the size of file source ("
      ∷ to_string size
      ∷ ")"
      ∷ []);
}

abbrev cannot_open : String → UploadRequest → String → Status
cannot_open func q file = record {
  code = not_found;
  message = concat (
      func
      ∷ "("
      ∷ q.shown q.upload_content_length
      ∷ ", "
      ∷ file
      ∷ "): cannot open upload file source"
      ∷ []);
}

-- The largest `uint64_t`.
abbrev pub no_limit : ℕ
no_limit = 2 ^ 64 - 1

module _ {S : Type 0} (api : Uploader S) where
  open api use {
    is_regular_file, file_size, open_file, create_session, session, insert_file, upload_buffer_size,
    maximum_simple_upload_size, file_chunk_quantum,
  }

  -- A round of the loop after the session's answer to a chunk that should leave `expected` bytes.
  unfoldable pub after_upload : ℕ → InStream → Bool → Reply × S → StatusOrVal (Uploading S) × S
  after_upload expected source reached (failure e, s) = (failure e, s)
  after_upload expected source reached (value r, s) =
      let got = session.next_expected_byte s in
      if not (got == expected)
      then (
        failure (record {
          code = internal;
          message = concat (
              "Unexpected last committed byte expected="
              ∷ to_string expected
              ∷ " got="
              ∷ to_string got
              ∷ ". This is a bug, please report it at https://github.com/awkv/cloudstorageapi/issues/new"
              ∷ []);
        }),
        s,
      )
      else (
        value (record {
          source = source;
          server_size = expected;
          response = r;
          reached = reached;
          inner = s;
        }),
        s,
      )

  -- A round of the loop. The buffer has `size` bytes, which is also the size of a chunk until the
  -- limit is reached.
  unfoldable pub upload_stream_round : ℕ → ℕ → Uploading S → StatusOrVal (Uploading S) × S
  unfolding after_upload
  upload_stream_round limit size u =
      let reached = leb (limit - u.server_size) size in
      let (bytes, source) = read_stream size u.source in
      let final = ltb (length bytes) size || reached in
      let expected = session.next_expected_byte u.inner + length bytes in
      after_upload expected source reached (
        if final
        then session.upload_final_chunk (bytes ∷ []) expected u.inner
        else session.upload_chunk (bytes ∷ []) u.inner)

  -- `return *std::move(uploadResponse->m_payload)`.
  abbrev pub payload_of : Option FileMetadata → Uploaded
  payload_of none = missing_payload
  payload_of (some m) = returns (value m)

  -- The loop goes on.
  abbrev pub continues : Uploading S → Bool
  continues u = not u.source.eof && not (has_payload u.response.payload) && not u.reached

  abbrev pub upload_on :
      (Uploading S → Option (Uploaded × S)) → StatusOrVal (Uploading S) × S → Option (Uploaded × S)
  upload_on rest (failure e, s) = some (returns (failure e), s)
  upload_on rest (value u, s) = rest u

  -- The loop; `none` means that the fuel ran out.
  unfoldable pub upload_stream_loop : ℕ → ℕ → ℕ → Uploading S → Option (Uploaded × S)
  upload_stream_loop zero limit size u = none
  upload_stream_loop (suc fuel) limit size u =
      let more =
        upload_on (upload_stream_loop fuel limit size) (upload_stream_round limit size u) in
      if continues u then more else some (payload_of u.response.payload, u.inner)

  -- `UploadStreamResumable` once there is a session.
  unfoldable pub upload_with_session : ℕ → InStream → UploadRequest → S → Option (Uploaded × S)
  upload_with_session fuel source q s =
      let server_size = session.next_expected_byte s in
      let limit = value_or no_limit q.upload_limit in
      if ltb limit server_size
      then some (
        returns (
            failure (record {
              code = out_of_range;
              message = concat (
                  "UploadLimit ("
                  ∷ to_string limit
                  ∷ ") is not bigger than the uploaded size ("
                  ∷ to_string server_size
                  ∷ ") on cloud storage server"
                  ∷ []);
            })),
        s,
      )
      else upload_stream_loop fuel limit (round_up_to_quantum upload_buffer_size file_chunk_quantum)
          (record {
            source = seek server_size source;
            server_size = server_size;
            response = empty_response;
            reached = false;
            inner = s;
          })

  abbrev pub with_session :
      ℕ → InStream → UploadRequest → StatusOrVal (Unit {0}) × S → Option (Uploaded × S)
  with_session fuel source q (failure e, s) = some (returns (failure e), s)
  with_session fuel source q (value tt, s) = upload_with_session fuel source q s

  -- `UploadStreamResumable`.
  unfoldable pub upload_stream_resumable : ℕ → InStream → UploadRequest → S → Option (Uploaded × S)
  upload_stream_resumable fuel source q s = with_session fuel source q (create_session q s)

  -- `UploadFileSimple` once the file is open.
  unfoldable pub insert_opened :
      String → UploadRequest → ℕ → ℕ → Option (List ℕ) → S → StatusOrVal FileMetadata × S
  insert_opened file q offset size none s = (failure (cannot_open "UploadFileSimple" q file), s)
  insert_opened file q offset size (some content) s =
      let payload = take size (drop offset content) in
      if ltb (length payload) size
      then (
        failure (record {
          code = internal;
          message = concat (
              "UploadFileSimple("
              ∷ q.shown q.upload_content_length
              ∷ ", "
              ∷ file
              ∷ "): Actual read ("
              ∷ to_string (length payload)
              ∷ ") is smaller than uploadSize ("
              ∷ to_string size
              ∷ ")"
              ∷ []);
        }),
        s,
      )
      else insert_file q payload s

  -- `UploadFileSimple`.
  unfoldable pub upload_file_simple : String → ℕ → UploadRequest → S → StatusOrVal FileMetadata × S
  upload_file_simple file size q s =
      let offset = value_or 0 q.upload_from_offset in
      let upload_size = min (value_or (size - offset) q.upload_limit) (size - offset) in
      if ltb size offset
      then (failure (too_far "UploadFileSimple" q file offset size), s)
      else insert_opened file q offset upload_size (open_file file s) s

  -- `UploadFileResumable` once the file is open.
  unfoldable pub resumable_opened :
      ℕ → String → UploadRequest → ℕ → Option (List ℕ) → S → Option (Uploaded × S)
  resumable_opened fuel file q offset none s =
      some (returns (failure (cannot_open "UploadFileResumable" q file)), s)
  resumable_opened fuel file q offset (some content) s =
      upload_stream_resumable fuel (seek offset (record { rest = content; eof = false })) q s

  -- `UploadFileResumable` for a regular file, with its size.
  unfoldable pub resumable_sized :
      ℕ → String → UploadRequest → ℕ → Option ℕ → S → Option (Uploaded × S)
  unfolding resumable_opened
  resumable_sized fuel file q offset none s =
      some (returns (failure (record { code = not_found; message = api.size_error })), s)
  resumable_sized fuel file q offset (some size) s =
      let upload_size = min (value_or (size - offset) q.upload_limit) (size - offset) in
      if ltb size offset
      then some (returns (failure (too_far "UploadFileResumable" q file offset size)), s)
      else resumable_opened fuel file (record q { upload_content_length = some upload_size }) offset
          (open_file file s) s

  -- `UploadFileResumable`.
  unfoldable pub upload_file_resumable : ℕ → String → UploadRequest → S → Option (Uploaded × S)
  upload_file_resumable fuel file q s =
      let offset = value_or 0 q.upload_from_offset in
      if is_regular_file file s
      then resumable_sized fuel file q offset (file_size file s) s
      else resumable_opened fuel file q offset (open_file file s) s

  -- `UseSimpleUpload`: what it returns and the size that it sets, or `file_size` that throws.
  abbrev pub fits_simple : Option ℕ → Option (Option ℕ)
  fits_simple none = none
  fits_simple (some size) =
      if leb size maximum_simple_upload_size then some (some size) else some none

  unfoldable pub use_simple_upload : String → S → Option (Option ℕ)
  use_simple_upload file s =
      if not (is_regular_file file s) then some none else fits_simple (file_size file s)

  abbrev pub upload_chosen :
      ℕ → String → UploadRequest → S → Option (Option ℕ) → Option (Uploaded × S)
  upload_chosen fuel file q s none = some (file_size_throws, s)
  upload_chosen fuel file q s (some none) = upload_file_resumable fuel file q s
  upload_chosen fuel file q s (some (some size)) =
      let (r, s') = upload_file_simple file size q s in some (returns r, s')

  -- `UploadFileImpl`; the argument is whether `UseResumableUploadSession` is among the options.
  unfoldable pub upload_file_impl : ℕ → Bool → String → UploadRequest → S → Option (Uploaded × S)
  upload_file_impl fuel has_use_resumable_upload file q s =
      if has_use_resumable_upload
      then upload_file_resumable fuel file q s
      else upload_chosen fuel file q s (use_simple_upload file s)
