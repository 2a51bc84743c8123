-- ===== src/Upload/CurlSession/Retried.antt =====
-- The retrying session over a client that follows the protocol.
use cloudstorageapi.Prelude.{
  ℕ, ◌+◌, ◌^◌, ◌≡◌, refl, ◌≤◌, ◌<◌, true, some, List, ◌++◌, length, take, pos,
}
use cloudstorageapi.Status.{value, failure}
use cloudstorageapi.Policy.{World, BackoffPolicy, limited_error_count}
use cloudstorageapi.Buffers.{ConstBufferSequence, bytes}
use cloudstorageapi.Upload.{Reply, in_progress}
use cloudstorageapi.Upload.Contract.{Quiet}
use cloudstorageapi.Upload.RetrySession.{Outcome, retry_upload_chunk}
use cloudstorageapi.Upload.RetrySession.Pauses.{succeeded}
use cloudstorageapi.Upload.RetrySession.Shrinks.{Moves}
use cloudstorageapi.Upload.RetrySession.Termination.{upload_generic_chunk-total}
use cloudstorageapi.Upload.CurlSession.{
  UploadChunkRequest, UploadClient, CurlSession, answered, curl_upload_chunk, curl_session,
}
use cloudstorageapi.Upload.CurlSession.Committed.{Protocol, held_by, curl_session-Committing}

-- The surroundings of the client, around the session's state.
abbrev pub around : {W : Type 0} → World W → World (CurlSession W)
around world = record {
  now = λ s. (let (t, w) = world.now s.client in (t, record s { client = w }));
  sleep_for = λ d s. record s { client = world.sleep_for d s.client };
  draw = λ lo hi s. (let (n, w) = world.draw lo hi s.client in (n, record s { client = w }));
}

-- The clock, sleeps and random numbers leave the server alone.
pub record Apart {W : Type 0} (world : World W) (held : W → List ℕ) : Type 0 where
  pub by_now : (w : W) → held (world.now w).1 ≡ held w
  pub by_sleep : (d : ℕ) (w : W) → held (world.sleep_for d w) ≡ held w
  pub by_draw : (lo hi : ℕ) (w : W) → held (world.draw lo hi w).1 ≡ held w

-- A client's answer in progress has stored something of a chunk that is not empty.
abbrev pub Stores : {W : Type 0} → (W → List ℕ) → ConstBufferSequence → W → Reply × W → Type 0
Stores held b w (failure e, w') = Unit {0}
Stores held b w (value r, w') =
    r.upload_state ≡ in_progress → 0 < length (bytes b) → length (held w) < length (held w')

module _ {W : Type 0} (world : World W) (held : W → List ℕ) (client : UploadClient W)
    (protocol : Protocol held client) (apart : Apart world held)
    (stores : (q : UploadChunkRequest) (w : W)
      → Stores held q.payload w (client.client_upload_chunk q w)) where
  around-Quiet : Quiet (around world) (curl_session client) (held_by held)
  unfolding curl_session
  around-Quiet = record {
    stored-now = λ s. apart.by_now s.client;
    stored-sleep = λ d s. apart.by_sleep d s.client;
    stored-draw = λ lo hi s. apart.by_draw lo hi s.client;
    next-now = λ s. refl;
    next-sleep = λ d s. refl;
    next-draw = λ lo hi s. refl;
  }

  answered-Moves :
      (b : ConstBufferSequence) (n : ℕ) (s : CurlSession W) (x : Reply × W)
      → Stores held b s.client x
      → Moves (held_by held) b s (answered x n s)
  unfolding answered
  answered-Moves b n s (failure e, w') h = tt
  answered-Moves b n s (value r, w') h = h

  -- Over a client that follows the protocol, whose responses never have to tell that exactly one byte
  -- is held and whose queries answer in progress, that stores a byte of a chunk that is not empty
  -- whenever it answers in progress, and surroundings apart from the server: `UploadChunk` of the
  -- retrying session over the session of that client, with less than 2^64 bytes, in step with the server
  -- and under a policy that allows `m` failures, returns within `m + 1` rounds more than there are
  -- bytes; the server holds what it held and a first part of the chunk, and all of it if a response is
  -- returned.
  pub retried_upload-total :
      (failures m : ℕ) (backoff : BackoffPolicy) (b : ConstBufferSequence) (s : CurlSession W)
      → length (bytes b) < 2 ^ 64
      → s.next_expected ≡ length (held s.client)
      → (o : Outcome) × (s' : CurlSession W) × (retry_upload_chunk
            (around world)
            (curl_session client)
            (limited_error_count failures (pos m))
            backoff
            (m + length (bytes b) + 1)
            b
            s
          ≡ some (o, s'))
        × (n : ℕ) × (n ≤ length (bytes b))
        × (held s'.client ≡ held s.client ++ take n (bytes b))
        × (succeeded o ≡ true → held s'.client ≡ held s.client ++ bytes b)
  unfolding retry_upload_chunk curl_session curl_upload_chunk
  retried_upload-total failures m backoff b s small synced =
      upload_generic_chunk-total (around world) (curl_session client) (held_by held) around-Quiet
        (curl_session-Committing held client protocol) failures m backoff "UploadChunk" b
        (curl_session client).upload_chunk s (curl_session-Committing held client protocol).on_chunk
        (λ c t h. answered-Moves c _ t _ (stores _ t.client)) small synced
