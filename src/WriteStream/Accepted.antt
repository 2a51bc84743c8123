-- ===== src/WriteStream/Accepted.antt =====
-- What a stream accepts is what the server holds and what is left in the put area, and nothing is
-- sent once an upload has failed.
use cloudstorageapi.Prelude.{
  ℕ, ◌+◌, ◌-◌, ◌*◌, ◌/◌, ◌%◌, ◌≡◌, sym, ap, ◌∙◌, ◌≤◌, ◌<◌, false, List, ◌++◌, arith, length,
  length-append, length-take, length-drop, take, drop, append_assoc, take-append-drop, subst,
  reverse, reverse-reverse, le→not-ltb,
}
use native.Mathlib.Nat.{mul-mod_left, div-mul-le_self, lt-div-mul-add}
use cloudstorageapi.Status.{value, failure}
use cloudstorageapi.Buffers.{ConstBufferSequence, total_bytes, pop_front_bytes, bytes}
use cloudstorageapi.Buffers.Bytes.{total_bytes-length, bytes-pop_front_bytes}
use cloudstorageapi.Upload.{Reply, Session}
use cloudstorageapi.Upload.Contract.{Synced}
use cloudstorageapi.WriteStream.{
  live, Streambuf, trim_back, after_chunk, flush_round_chunk, failed_response,
}
use cloudstorageapi.WriteStream.Trim.{trim_back-Trims}

-- The largest multiple of the quantum.
abbrev pub rounded : ConstBufferSequence → ℕ → ℕ
rounded buffers quantum = total_bytes buffers / quantum * quantum

-- What the loop leaves over of the excess, and the payload.
abbrev pub trimmed : ConstBufferSequence → ℕ → ℕ × ConstBufferSequence
trimmed buffers quantum =
    trim_back (total_bytes buffers - rounded buffers quantum) (reverse buffers)

trimmed-Rounded :
    (buffers : ConstBufferSequence) (quantum : ℕ)
    → 0 < quantum
    → ((trimmed buffers quantum).0 ≡ 0)
      × (bytes (reverse (trimmed buffers quantum).1)
          ≡ take (rounded buffers quantum) (bytes buffers))
trimmed-Rounded buffers quantum h =
    let back = ap bytes (reverse-reverse buffers) in
    let (gone, kept) =
      trim_back-Trims (total_bytes buffers - rounded buffers quantum) (reverse buffers)
        (omega (arith, total_bytes-length buffers, ap length back)) in
    (
      gone,
      kept
          ∙ ap (λ x. take (length x - (total_bytes buffers - rounded buffers quantum)) x) back
          ∙ ap (λ k. take k (bytes buffers))
              (omega
                (arith, total_bytes-length buffers, div-mul-le_self (total_bytes buffers) quantum)),
    )

-- A session whose successes mean that everything was stored.
abbrev pub Delivered :
    {S : Type 0} → Session S → (S → List ℕ) → ConstBufferSequence → S → Reply × S → Type 0
Delivered σ stored b s (failure e, s') = σ.file_chunk_size_quantum s' ≡ σ.file_chunk_size_quantum s
Delivered σ stored b s (value r, s') =
    (stored s' ≡ stored s ++ bytes b)
    × Synced σ stored s'
    × (σ.file_chunk_size_quantum s' ≡ σ.file_chunk_size_quantum s)

pub record Delivering {S : Type 0} (σ : Session S) (stored : S → List ℕ) : Type 0 where
  pub on_chunk :
      (b : ConstBufferSequence) (s : S)
      → Synced σ stored s
      → Delivered σ stored b s (σ.upload_chunk b s)
  pub on_final :
      (b : ConstBufferSequence) (n : ℕ) (s : S)
      → Synced σ stored s
      → Delivered σ stored b s (σ.upload_final_chunk b n s)

module _ {S : Type 0} (session : Session S) where
  -- What `FlushRoundChunk` sends: the first bytes, as many as the largest multiple of the quantum
  -- that they reach.
  pub flush_round_chunk-sends :
      (buffers : ConstBufferSequence) (b : Streambuf S)
      → 0 < session.file_chunk_size_quantum b.inner
      → (payload : ConstBufferSequence) × (bytes payload
          ≡ take (length (bytes payload)) (bytes buffers))
        × (length (bytes payload) % session.file_chunk_size_quantum b.inner ≡ 0)
        × (length (bytes buffers)
            < length (bytes payload) + session.file_chunk_size_quantum b.inner)
        × (flush_round_chunk session buffers b
            ≡ after_chunk session
                (session.next_expected_byte b.inner)
                (session.next_expected_byte b.inner + length (bytes payload))
                (drop (length (bytes payload)) (bytes buffers))
                (session.upload_chunk payload b.inner)
                b)
  unfolding flush_round_chunk
  flush_round_chunk-sends buffers b pos =
      let q = session.file_chunk_size_quantum b.inner in
      let (gone, sent) = trimmed-Rounded buffers q pos in
      let size : length (bytes (reverse (trimmed buffers q).1)) ≡ rounded buffers q = omega (
        arith,
        ap length sent,
        length-take (rounded buffers q) (bytes buffers),
        total_bytes-length buffers,
        div-mul-le_self (total_bytes buffers) q,
      ) in
      (
        reverse (trimmed buffers q).1,
        sent ∙ ap (λ n. take n (bytes buffers)) (sym size),
        ap (λ n. n % q) size ∙ mul-mod_left (total_bytes buffers / q) q,
        omega
            (arith, size, total_bytes-length buffers, lt-div-mul-add {a = total_bytes buffers} pos),
        ap
              (λ e.
                after_chunk session (session.next_expected_byte b.inner)
                  (session.next_expected_byte b.inner + e)
                  (bytes (pop_front_bytes buffers (rounded buffers q)))
                  (session.upload_chunk (reverse (trimmed buffers q).1) b.inner) b)
              (omega (arith, gone, size))
            ∙ ap
                (λ l.
                  after_chunk session (session.next_expected_byte b.inner)
                    (session.next_expected_byte b.inner
                      + length (bytes (reverse (trimmed buffers q).1)))
                    l (session.upload_chunk (reverse (trimmed buffers q).1) b.inner) b)
                (bytes-pop_front_bytes buffers (rounded buffers q)
                  ∙ ap (λ n. drop n (bytes buffers)) (sym size)),
      )

module _ {S : Type 0} (session : Session S) (stored : S → List ℕ) where
  -- A stream that writes: everything accepted is stored or in the put area, which has its full size.
  pub record Writing (accepted : List ℕ) (b : Streambuf S) : Type 0 where
    pub is_live : b.held ≡ live
    pub knows : Synced session stored b.inner
    pub holds : stored b.inner ++ b.put_area ≡ accepted
    pub fits : length b.put_area ≤ b.max_buffer_size
    pub has_area : b.area_size ≡ b.max_buffer_size
    pub has_buffer : b.buffer_size ≡ b.max_buffer_size
    pub positive : 0 < session.file_chunk_size_quantum b.inner
    pub enough : session.file_chunk_size_quantum b.inner ≤ b.max_buffer_size

  -- After a success, the stream writes, and there is room.
  abbrev pub Keeps : List ℕ → Streambuf S → Type 0
  Keeps accepted b =
      failed_response b.last_response ≡ false
      → Writing accepted b × (length b.put_area < b.max_buffer_size)

  module _ (delivering : Delivering session stored) where
    after_chunk-Keeps :
        (accepted rest : List ℕ) (payload : ConstBufferSequence) (x : Reply × S) (b : Streambuf S)
        (before : List ℕ)
        → Delivered session stored payload b.inner x
        → Writing before b
        → stored b.inner ++ (bytes payload ++ rest) ≡ accepted
        → length rest < b.max_buffer_size
        → Keeps accepted (
            after_chunk session
              (session.next_expected_byte b.inner)
              (session.next_expected_byte b.inner + length (bytes payload))
              rest
              x
              b)
    unfolding after_chunk
    after_chunk-Keeps accepted rest payload (failure e, s) b before d w all fit = λ q. cc
    after_chunk-Keeps accepted rest payload (value r, s) b before (here, knows, same) w all fit =
        rw
          (
            le→not-ltb (session.next_expected_byte s)
                (session.next_expected_byte b.inner + length (bytes payload)) (omega (arith, next)),
            le→not-ltb (session.next_expected_byte b.inner + length (bytes payload))
                (session.next_expected_byte s) (omega (arith, next)),
          )
          (λ q. (
            record {
              is_live = w.is_live;
              knows = knows;
              holds =
                  ap (λ t. t ++ rest) here
                  ∙ append_assoc (stored b.inner) (bytes payload) rest
                  ∙ all;
              fits = omega arith;
              has_area = w.has_buffer;
              has_buffer = w.has_buffer;
              positive = omega (arith, w.positive, same);
              enough = omega (arith, w.enough, same);
            },
            fit,
          ))
      where
        next :
            session.next_expected_byte s
            ≡ session.next_expected_byte b.inner + length (bytes payload)
        next =
            omega (
              arith,
              knows,
              w.knows,
              ap length here,
              length-append (stored b.inner) (bytes payload),
            )

    pub flush_round_chunk-Keeps :
        (before accepted : List ℕ) (buffers : ConstBufferSequence) (b : Streambuf S)
        → Writing before b
        → stored b.inner ++ bytes buffers ≡ accepted
        → Keeps accepted (flush_round_chunk session buffers b)
    flush_round_chunk-Keeps before accepted buffers b w all =
        let (payload, sent, whole, short, runs) =
          flush_round_chunk-sends session buffers b w.positive in
        subst (Keeps accepted) (sym runs) (
          after_chunk-Keeps accepted _ payload _ b before
            (delivering.on_chunk payload b.inner w.knows) w
            (ap (λ t. stored b.inner ++ t)
                (ap (λ t. t ++ drop (length (bytes payload)) (bytes buffers)) sent
                  ∙ take-append-drop (length (bytes payload)) (bytes buffers))
              ∙ all)
            (omega (arith, length-drop (length (bytes payload)) (bytes buffers), w.enough)))
