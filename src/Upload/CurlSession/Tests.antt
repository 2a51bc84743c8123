-- ===== src/Upload/CurlSession/Tests.antt =====
-- A client whose server stores every chunk, and has no answer to give while it holds a single byte.
use cloudstorageapi.Prelude.{
  pos, some, ◌≤◌, length-append, ℕ, ◌-◌, ◌≡◌, ◌≢◌, refl, List, [], ◌∷◌, ◌++◌, length, take,
  take_all, arith, ◌==◌, ==_iff, if◌then◌else◌, Bool-cases, inl, inr, ap, sym, true, false,
}
use cloudstorageapi.Status.{value, failure}
use cloudstorageapi.Buffers.{ConstBufferSequence, bytes, total_bytes}
use cloudstorageapi.Upload.{ResumableUploadResponse, Reply}
use cloudstorageapi.Upload.Contract.{Committing}
use cloudstorageapi.Upload.CurlSession.{
  UploadClient, CurlSession, make_curl_session, curl_session, curl_upload_chunk, answered, update,
}
use cloudstorageapi.Upload.CurlSession.Committed.{
  Answers, Queried, Protocol, held_by, curl_session-Committing,
}
use cloudstorageapi.Upload.CurlSession.Retried.{around, Apart, Stores, retried_upload-total}
use cloudstorageapi.Upload.RetrySession.{Outcome, retry_upload_chunk}
use cloudstorageapi.Upload.RetrySession.Pauses.{succeeded}
use cloudstorageapi.Policy.{limited_error_count}
use cloudstorageapi.Fixtures.{going_on, down, still, brief}

abbrev progress : ℕ → ResumableUploadResponse
progress n = record going_on { last_committed_byte = n - 1 }

abbrev says : List ℕ → Reply × List ℕ
says w = if length w == 1 then (failure down, w) else (value (progress (length w)), w)

abbrev storing_client : UploadClient (List ℕ)
storing_client = record {
  client_upload_chunk = λ q w. says (w ++ bytes q.payload);
  query_resumable_upload = λ id w. says w;
  file_chunk_quantum = λ w. 2;
}

abbrev all_held : List ℕ → List ℕ
all_held w = w

says-Answers : (b : ConstBufferSequence) (w : List ℕ) → Answers all_held b w (says (w ++ bytes b))
says-Answers b w = elim (Bool-cases (length (w ++ bytes b) == 1)) [
  | inl e ↦ rw e (length (bytes b), omega arith, all)
  | inr e ↦ rw e (length (bytes b), omega arith, all, (λ p. (many e, refl)), λ p. refl)
]
  where
    all : w ++ bytes b ≡ w ++ take (length (bytes b)) (bytes b)
    all = ap (λ t. w ++ t) (sym (take_all (length (bytes b)) (bytes b) (omega arith)))

    many : (length (w ++ bytes b) == 1) ≡ false → length (w ++ bytes b) ≢ 1
    many e h = absurd (cc ((==_iff (length (w ++ bytes b)) 1).1 h))

says-Queried : (w : List ℕ) → Queried all_held w (says w)
says-Queried w = elim (Bool-cases (length w == 1)) [
  | inl e ↦ rw e refl
  | inr e ↦ rw e (refl, refl, ((λ h. absurd (cc ((==_iff (length w) 1).1 h))), refl))
]

storing_client-Protocol : Protocol all_held storing_client
storing_client-Protocol = record {
  on_upload = λ q w h. says-Answers q.payload w;
  on_query = λ id w. says-Queried w;
}

-- Two chunks.
uploaded :
    (curl_session storing_client).upload_chunk
      ((3 ∷ 4 ∷ []) ∷ [])
      ((curl_session storing_client).upload_chunk ((1 ∷ 2 ∷ []) ∷ []) (make_curl_session [] "u")).1
    ≡ (
      value (progress 4),
      record {
        client = 1 ∷ 2 ∷ 3 ∷ 4 ∷ [];
        session_id = "u";
        next_expected = 4;
        done = false;
        last_response = value (progress 4);
      },
    )
unfolding curl_session curl_upload_chunk answered update total_bytes
uploaded = refl

curl_session-Committing_example : Committing (curl_session storing_client) (held_by all_held)
curl_session-Committing_example =
    curl_session-Committing all_held storing_client storing_client-Protocol

says-Stores : (b : ConstBufferSequence) (w : List ℕ) → Stores all_held b w (says (w ++ bytes b))
says-Stores b w = elim (Bool-cases (length (w ++ bytes b) == 1)) [
  | inl e ↦ rw e tt
  | inr e ↦ rw e (λ p h. omega (arith, length-append w (bytes b)))
]

still-Apart : Apart still all_held
still-Apart = record { by_now = λ w. refl; by_sleep = λ d w. refl; by_draw = λ lo hi w. refl }

abbrev started : CurlSession (List ℕ)
started = record (make_curl_session (9 ∷ 8 ∷ []) "u") { next_expected = 2 }

abbrev chunk : ConstBufferSequence
chunk = (1 ∷ []) ∷ (2 ∷ 3 ∷ []) ∷ []

retried_upload-total_example :
    (o : Outcome) × (s' : CurlSession (List ℕ)) × (retry_upload_chunk
        (around still)
        (curl_session storing_client)
        (limited_error_count 0 (pos 2))
        brief
        6
        chunk
        started
      ≡ some (o, s'))
    × (n : ℕ) × (n ≤ 3)
    × (s'.client ≡ started.client ++ take n (bytes chunk))
    × (succeeded o ≡ true → s'.client ≡ started.client ++ bytes chunk)
retried_upload-total_example =
    retried_upload-total still all_held storing_client storing_client-Protocol still-Apart
      (λ q w. says-Stores q.payload w) 0 2 brief chunk started (omega arith) refl
