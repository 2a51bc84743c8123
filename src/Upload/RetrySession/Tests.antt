-- ===== src/Upload/RetrySession/Tests.antt =====
-- The theorems on the retrying session at concrete uploads.
use cloudstorageapi.Prelude.{
  length-append, length-take, ℕ, ◌≡◌, ◌≤◌, refl, some, pos, List, [], ◌∷◌, ◌++◌, arith, take, true,
}
use cloudstorageapi.Status.{value}
use cloudstorageapi.Policy.{
  RetryPolicy, limited_error_count, is_exhausted, clone_retry, clone_backoff,
}
use cloudstorageapi.Buffers.{ConstBufferSequence, bytes, pop_front_bytes, total_bytes}
use cloudstorageapi.Upload.RetrySession.{
  Outcome, returned, upload_generic_chunk, upload_loop, upload_round, upload_rest, after_upload,
  after_upload_success, resume, lend,
}
use cloudstorageapi.Upload.RetrySession.Pauses.{succeeded}
use cloudstorageapi.Upload.RetrySession.Delivery.{upload_generic_chunk-delivers}
use cloudstorageapi.Upload.RetrySession.Shrinks.{Moves}
use cloudstorageapi.Upload.RetrySession.Termination.{upload_generic_chunk-total}
use cloudstorageapi.Fixtures.{still, brief, server, held, going_on, server-Committing, still-Quiet}

abbrev twice : RetryPolicy
twice = limited_error_count 0 (pos 2)

abbrev chunk : ConstBufferSequence
chunk = (1 ∷ 2 ∷ []) ∷ (3 ∷ 4 ∷ 5 ∷ []) ∷ []

abbrev held_before : List ℕ
held_before = 9 ∷ []

abbrev held_after : List ℕ
held_after = 9 ∷ 1 ∷ 2 ∷ 3 ∷ 4 ∷ 5 ∷ []

-- A server that keeps two bytes of each chunk, so that it takes three rounds to store five.
delivered :
    upload_generic_chunk still
      (server 2 1)
      twice
      brief
      4
      "UploadChunk"
      chunk
      (server 2 1).upload_chunk
      (9 ∷ [])
    ≡ some (returned (value going_on), 9 ∷ 1 ∷ 2 ∷ 3 ∷ 4 ∷ 5 ∷ [])
unfolding upload_generic_chunk upload_loop upload_round upload_rest after_upload
    after_upload_success resume lend is_exhausted clone_retry clone_backoff pop_front_bytes
    total_bytes
delivered = refl

upload_generic_chunk-delivers_example :
    (n : ℕ) × (n ≤ 5)
    × (held_after ≡ held_before ++ take n (bytes chunk))
    × (succeeded (returned (value going_on)) ≡ true → held_after ≡ held_after)
upload_generic_chunk-delivers_example =
    upload_generic_chunk-delivers still (server 2 1) held (still-Quiet 2 1) (server-Committing 2 1)
      twice brief 4 "UploadChunk" chunk (server 2 1).upload_chunk held_before held_after
      (returned (value going_on)) (server-Committing 2 1).on_chunk (omega arith) refl delivered

server-Moves :
    (c : ConstBufferSequence) (t : List ℕ) → Moves held c t ((server 2 1).upload_chunk c t)
server-Moves c t e h = omega (arith, length-append t (take 2 (bytes c)), length-take 2 (bytes c))

upload_generic_chunk-total_example :
    (o : Outcome) × (s' : List ℕ) × (upload_generic_chunk still
        (server 2 1)
        twice
        brief
        8
        "UploadChunk"
        chunk
        (server 2 1).upload_chunk
        held_before
      ≡ some (o, s'))
    × (n : ℕ) × (n ≤ 5)
    × (s' ≡ held_before ++ take n (bytes chunk))
    × (succeeded o ≡ true → s' ≡ held_after)
upload_generic_chunk-total_example =
    upload_generic_chunk-total still (server 2 1) held (still-Quiet 2 1) (server-Committing 2 1) 0 2
      brief "UploadChunk" chunk (server 2 1).upload_chunk held_before
      (server-Committing 2 1).on_chunk (λ c t h. server-Moves c t) (omega arith) refl
