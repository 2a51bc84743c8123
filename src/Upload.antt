-- ===== src/Upload.antt =====
-- Resumable uploads: the response, the session interface and the session that always fails, of
-- include/cloudstorageapi/internal/resumable_upload_session.h and
-- src/transport/resumable_upload_session.cpp.
pub mod Contract
pub mod RetrySession
pub mod CurlSession
use cloudstorageapi.Prelude.{
  ℕ, Bool, true, false, Option, none, some, String, [], ◌∷◌, concat, to_string, if◌then◌else◌, ◌≡◌,
  refl, ◌⊎◌, inl, inr,
}
use cloudstorageapi.Status.{Status, StatusOrVal, failure}
use cloudstorageapi.Metadata.{FileMetadata, show_file}
use cloudstorageapi.Buffers.{ConstBufferSequence}

-- `ResumableUploadResponse::UploadState`.
pub data UploadState : Type 0 where
  in_progress done : UploadState

pub UploadState-cases : (u : UploadState) → (u ≡ in_progress) ⊎ (u ≡ done)
UploadState-cases in_progress = inl refl
UploadState-cases done = inr refl

-- `struct ResumableUploadResponse`.
pub record ResumableUploadResponse : Type 0 where
  pub upload_session_url : String
  pub last_committed_byte : ℕ
  pub payload : Option FileMetadata
  pub upload_state : UploadState
  pub annotations : String

-- What a session's operations return.
abbrev pub Reply : Type 0
Reply = StatusOrVal ResumableUploadResponse

abbrev pub is_done_state : UploadState → Bool
is_done_state in_progress = false
is_done_state done = true

-- `ToStr`.
show_state : UploadState → String
show_state in_progress = "InProgress"
show_state done = "Done"

show_payload : Option FileMetadata → String
show_payload none = "{}"
show_payload (some m) = show_file m

-- `operator<<` on a response.
unfoldable pub show_upload_response : ResumableUploadResponse → String
unfolding show_state show_payload
show_upload_response r = concat (
    "ResumableUploadResponse={upload_session_url="
    ∷ r.upload_session_url
    ∷ ", last_committed_byte="
    ∷ to_string r.last_committed_byte
    ∷ ", payload="
    ∷ show_payload r.payload
    ∷ ", upload_state="
    ∷ show_state r.upload_state
    ∷ ", annotations="
    ∷ r.annotations
    ∷ "}"
    ∷ [])

-- `class ResumableUploadSession`, over a state that holds the session and what it talks to.
pub record Session (S : Type 0) : Type 0 where
  pub upload_chunk : ConstBufferSequence → S → Reply × S
  pub upload_final_chunk : ConstBufferSequence → ℕ → S → Reply × S
  pub reset_session : S → Reply × S
  pub next_expected_byte : S → ℕ
  pub session_id : S → String
  pub file_chunk_size_quantum : S → ℕ
  pub is_done : S → Bool
  pub last_response : S → Reply

-- `ResumableUploadSessionError`: every operation returns the status that it was made with.
pub record SessionError : Type 0 where
  pub status : Status
  pub next_expected : ℕ
  pub id : String

abbrev pub session_error : Session SessionError
session_error = record {
  upload_chunk = λ b e. (failure e.status, e);
  upload_final_chunk = λ b n e. (failure e.status, e);
  reset_session = λ e. (failure e.status, e);
  next_expected_byte = λ e. e.next_expected;
  session_id = λ e. e.id;
  file_chunk_size_quantum = λ e. 1;
  is_done = λ e. true;
  last_response = λ e. failure e.status;
}
