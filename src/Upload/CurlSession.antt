-- ===== src/Upload/CurlSession.antt =====
-- `CurlResumableUploadSession`: src/transport/curl_resumable_upload_session.cpp, and its requests of
-- include/cloudstorageapi/internal/file_requests.h. A session over a client that makes one attempt.
pub mod Committed
pub mod Retried
mod Tests
use cloudstorageapi.Prelude.{
  ℕ, ◌+◌, ◌==◌, ◌&&◌, Bool, true, false, not, String, if◌then◌else◌, is_empty_text,
}
use cloudstorageapi.Status.{value, failure, default_result}
use cloudstorageapi.Buffers.{ConstBufferSequence, total_bytes}
use cloudstorageapi.Upload.{ResumableUploadResponse, is_done_state, Reply, Session}

-- `UploadChunkRequest`.
pub record UploadChunkRequest : Type 0 where
  pub upload_session_url : String
  pub range_begin : ℕ
  pub payload : ConstBufferSequence
  pub source_size : ℕ
  pub last_chunk : Bool

-- Its constructors: for a chunk, and for the last one.
abbrev pub upload_chunk_request : String → ℕ → ConstBufferSequence → UploadChunkRequest
upload_chunk_request url begin payload = record {
  upload_session_url = url;
  range_begin = begin;
  payload = payload;
  source_size = 0;
  last_chunk = false;
}

abbrev pub upload_final_chunk_request : String → ℕ → ConstBufferSequence → ℕ → UploadChunkRequest
upload_final_chunk_request url begin payload size =
    record (upload_chunk_request url begin payload) { source_size = size; last_chunk = true }

-- `CurlClientBase`, as far as the session calls it, over the state of the client and the server.
pub record UploadClient (W : Type 0) : Type 0 where
  pub client_upload_chunk : UploadChunkRequest → W → Reply × W
  pub query_resumable_upload : String → W → Reply × W
  pub file_chunk_quantum : W → ℕ

-- `CurlResumableUploadSession`.
pub record CurlSession (W : Type 0) : Type 0 where
  pub client : W
  pub session_id : String
  pub next_expected : ℕ
  pub done : Bool
  pub last_response : Reply

-- The constructor.
abbrev pub make_curl_session : {W : Type 0} → W → String → CurlSession W
make_curl_session w id = record {
  client = w;
  session_id = id;
  next_expected = 0;
  done = false;
  last_response = default_result;
}

-- The next byte after a response in progress: a last byte of 0 is read as nothing committed.
abbrev pub next_after : ℕ → ℕ
next_after last_committed_byte = if last_committed_byte == 0 then 0 else last_committed_byte + 1

module _ {W : Type 0} where
  -- `Update`.
  pub update : Reply → ℕ → CurlSession W → CurlSession W
  update (failure e) size s = record s { last_response = failure e }
  update (value r) size s =
      let done = is_done_state r.upload_state in
      record s {
        last_response = value r;
        done = done;
        next_expected = if done then s.next_expected + size else next_after r.last_committed_byte;
        session_id =
            if is_empty_text s.session_id && not (is_empty_text r.upload_session_url)
            then r.upload_session_url
            else s.session_id;
      }

  -- What an operation does with the client's answer.
  pub answered : Reply × W → ℕ → CurlSession W → Reply × CurlSession W
  unfolding update
  answered (r, w) size s = (r, update r size (record s { client = w }))

  module _ (client : UploadClient W) where
    open client use {client_upload_chunk, query_resumable_upload, file_chunk_quantum}

    -- The operations, as a session.
    pub curl_upload_chunk : ConstBufferSequence → CurlSession W → Reply × CurlSession W
    curl_upload_chunk b s =
        answered
          (client_upload_chunk (upload_chunk_request s.session_id s.next_expected b) s.client)
          (total_bytes b) s

    pub curl_upload_final_chunk : ConstBufferSequence → ℕ → CurlSession W → Reply × CurlSession W
    curl_upload_final_chunk b size s =
        answered
          (client_upload_chunk (upload_final_chunk_request s.session_id s.next_expected b size)
            s.client)
          (total_bytes b) s

    pub curl_reset_session : CurlSession W → Reply × CurlSession W
    curl_reset_session s = answered (query_resumable_upload s.session_id s.client) 0 s

    pub curl_session : Session (CurlSession W)
    unfolding curl_upload_chunk curl_upload_final_chunk curl_reset_session
    curl_session = record {
      upload_chunk = curl_upload_chunk;
      upload_final_chunk = curl_upload_final_chunk;
      reset_session = curl_reset_session;
      next_expected_byte = λ s. s.next_expected;
      session_id = λ s. s.session_id;
      file_chunk_size_quantum = λ s. file_chunk_quantum s.client;
      is_done = λ s. s.done;
      last_response = λ s. s.last_response;
    }
