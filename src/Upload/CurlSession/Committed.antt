-- ===== src/Upload/CurlSession/Committed.antt =====
-- A client that follows the upload protocol makes the session one that keeps in step with the server.
use cloudstorageapi.Prelude.{ℕ, ◌-◌, ◌≡◌, ◌≢◌, refl, ◌≤◌, List, ◌++◌, arith, length, take}
use cloudstorageapi.Status.{value, failure}
use cloudstorageapi.Buffers.{ConstBufferSequence, bytes, total_bytes}
use cloudstorageapi.Upload.{ResumableUploadResponse, in_progress, done, Reply}
use cloudstorageapi.Upload.Contract.{Synced, KeepsSome, Learns, Committing}
use cloudstorageapi.Upload.CurlSession.{
  UploadChunkRequest, UploadClient, CurlSession, next_after, update, answered, curl_upload_chunk,
  curl_upload_final_chunk, curl_reset_session, curl_session,
}

-- What a response in progress says of `n` bytes that the server holds: the last of them. The
-- protocol cannot say that there is exactly one.
abbrev pub Tells : ℕ → ResumableUploadResponse → Type 0
Tells n r = (n ≢ 1) × (r.last_committed_byte ≡ n - 1)

module _ {W : Type 0} (held : W → List ℕ) where
  -- The answer to a chunk that begins where the server's bytes end: some of it was kept; a response
  -- in progress tells how many bytes the server holds; at the end all of it was kept.
  abbrev pub Answers : ConstBufferSequence → W → Reply × W → Type 0
  Answers b w (failure e, w') =
      (kept : ℕ) × (kept ≤ length (bytes b)) × (held w' ≡ held w ++ take kept (bytes b))
  Answers b w (value r, w') =
      (kept : ℕ) × (kept ≤ length (bytes b))
      × (held w' ≡ held w ++ take kept (bytes b))
      × (r.upload_state ≡ in_progress → Tells (length (held w')) r)
      × (r.upload_state ≡ done → kept ≡ length (bytes b))

  -- The answer to a query of an upload that is in progress.
  abbrev pub Queried : W → Reply × W → Type 0
  Queried w (failure e, w') = held w' ≡ held w
  Queried w (value r, w') =
      (held w' ≡ held w) × (r.upload_state ≡ in_progress) × Tells (length (held w')) r

  -- A client that follows the protocol.
  pub record Protocol (client : UploadClient W) : Type 0 where
    pub on_upload :
        (q : UploadChunkRequest) (w : W)
        → q.range_begin ≡ length (held w)
        → Answers q.payload w (client.client_upload_chunk q w)
    pub on_query : (id : _) (w : W) → Queried w (client.query_resumable_upload id w)

  -- What the session's server holds.
  abbrev pub held_by : CurlSession W → List ℕ
  held_by s = held s.client

  next_after-Tells :
      (n : ℕ) (r : ResumableUploadResponse) → Tells n r → next_after r.last_committed_byte ≡ n
  next_after-Tells n r (one, e) = ground arith

  module _ (client : UploadClient W) (protocol : Protocol client) where
    answered-KeepsSome :
        (b : ConstBufferSequence) (s : CurlSession W) (x : Reply × W)
        → Synced (curl_session client) held_by s
        → Answers b s.client x
        → KeepsSome (curl_session client) held_by b s (answered x (total_bytes b) s)
    unfolding answered update curl_session
    answered-KeepsSome b s (failure e, w') synced (kept, le, adds) = (kept, le, adds, refl)
    answered-KeepsSome b s (value r, w') synced (kept, le, adds, tells, ends) =
        (kept, le, adds, (λ e. rw e (next_after-Tells (length (held w')) r (tells e)), ends))

    answered-Learns :
        (s : CurlSession W) (x : Reply × W)
        → Queried s.client x
        → Learns (curl_session client) held_by s (answered x 0 s)
    unfolding answered update curl_session
    answered-Learns s (failure e, w') h = h
    answered-Learns s (value r, w') (same, state, tells) =
        (same, rw state (next_after-Tells (length (held w')) r tells))

    -- Over a client that follows the protocol, the session keeps in step with the server: it fills
    -- the contract that the retrying session relies on.
    pub curl_session-Committing : Committing (curl_session client) held_by
    unfolding curl_session curl_upload_chunk curl_upload_final_chunk curl_reset_session
    curl_session-Committing = record {
      on_chunk = λ b s h. answered-KeepsSome b s _ h (protocol.on_upload _ s.client h);
      on_final = λ b n s h. answered-KeepsSome b s _ h (protocol.on_upload _ s.client h);
      on_reset = λ s. answered-Learns s _ (protocol.on_query s.session_id s.client);
    }
