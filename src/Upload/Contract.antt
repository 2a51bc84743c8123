-- ===== src/Upload/Contract.antt =====
-- What a resumable upload session is relied on for, by the layers above it. `stored` is what the
-- server holds of the upload. These are the laws that a client of a session takes as a parameter.
use cloudstorageapi.Prelude.{ℕ, ◌≡◌, ◌≤◌, List, ◌++◌, length, take}
use cloudstorageapi.Status.{value, failure}
use cloudstorageapi.Policy.{World}
use cloudstorageapi.Buffers.{ConstBufferSequence, bytes}
use cloudstorageapi.Upload.{in_progress, done, Reply, Session}

-- The session knows how much the server holds.
abbrev pub Synced : {S : Type 0} → Session S → (S → List ℕ) → S → Type 0
Synced σ stored s = σ.next_expected_byte s ≡ length (stored s)

-- What a session reports about an upload of `size` bytes of which the server kept `kept`: the next
-- byte after a success in progress, nothing new after a failure; at the end everything was kept.
abbrev pub Reports : {S : Type 0} → Session S → (S → List ℕ) → S → Reply → S → ℕ → ℕ → Type 0
Reports σ stored s (failure e) s' size kept = σ.next_expected_byte s' ≡ σ.next_expected_byte s
Reports σ stored s (value r) s' size kept =
    (r.upload_state ≡ in_progress → Synced σ stored s') × (r.upload_state ≡ done → kept ≡ size)

-- The server appends some of the bytes that are sent, from the first on. It may keep fewer than are
-- sent, and it may keep some although the session reports a failure.
abbrev pub KeepsSome :
    {S : Type 0} → Session S → (S → List ℕ) → ConstBufferSequence → S → Reply × S → Type 0
KeepsSome σ stored b s (r, s') =
    (kept : ℕ) × (kept ≤ length (bytes b))
    × (stored s' ≡ stored s ++ take kept (bytes b))
    × Reports σ stored s r s' (length (bytes b)) kept

-- A query of the session that succeeds learns what the server holds.
abbrev pub Learns : {S : Type 0} → Session S → (S → List ℕ) → S → Reply × S → Type 0
Learns σ stored s (failure e, s') = stored s' ≡ stored s
Learns σ stored s (value r, s') = (stored s' ≡ stored s) × Synced σ stored s'

-- A session over a server that may drop the end of a chunk.
pub record Committing {S : Type 0} (σ : Session S) (stored : S → List ℕ) : Type 0 where
  pub on_chunk :
      (b : ConstBufferSequence) (s : S)
      → Synced σ stored s
      → KeepsSome σ stored b s (σ.upload_chunk b s)
  pub on_final :
      (b : ConstBufferSequence) (n : ℕ) (s : S)
      → Synced σ stored s
      → KeepsSome σ stored b s (σ.upload_final_chunk b n s)
  pub on_reset : (s : S) → Learns σ stored s (σ.reset_session s)

-- Neither the clock, nor a sleep, nor a random number touches the session or the server.
pub record Quiet {S : Type 0} (world : World S) (σ : Session S) (stored : S → List ℕ) : Type 0 where
  pub stored-now : (s : S) → stored (world.now s).1 ≡ stored s
  pub stored-sleep : (d : ℕ) (s : S) → stored (world.sleep_for d s) ≡ stored s
  pub stored-draw : (lo hi : ℕ) (s : S) → stored (world.draw lo hi s).1 ≡ stored s
  pub next-now : (s : S) → σ.next_expected_byte (world.now s).1 ≡ σ.next_expected_byte s
  pub next-sleep :
      (d : ℕ) (s : S) → σ.next_expected_byte (world.sleep_for d s) ≡ σ.next_expected_byte s
  pub next-draw :
      (lo hi : ℕ) (s : S) → σ.next_expected_byte (world.draw lo hi s).1 ≡ σ.next_expected_byte s
