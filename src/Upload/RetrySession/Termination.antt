-- ===== src/Upload/RetrySession/Termination.antt =====
-- A call of the retrying session under a counting policy ends, over a server that stores at least one
-- byte whenever it reports progress.
use cloudstorageapi.Prelude.{
  ℕ, zero, suc, ◌+◌, ◌-◌, ◌^◌, ◌≡◌, refl, sym, ap, ◌∙◌, ◌≤◌, ◌<◌, true, Option, none, some, String,
  List, ◌++◌, arith, length, length-drop, take, pos, ltb, le→not-ltb, if◌then◌else◌, append-nil,
}
use cloudstorageapi.Policy.{World, BackoffPolicy, limited_error_count, clone_retry}
use cloudstorageapi.Policy.Patience.{is_exhausted-Patience}
use cloudstorageapi.Buffers.{ConstBufferSequence, pop_front_bytes, bytes}
use cloudstorageapi.Upload.{Reply, Session}
use cloudstorageapi.Upload.Contract.{Synced, KeepsSome, Committing, Quiet}
use cloudstorageapi.Upload.RetrySession.{
  Outcome, Vars, Next, stop, go, no_fuel, upload_rest, upload_round, upload_loop,
  upload_generic_chunk, lend,
}
use cloudstorageapi.Upload.RetrySession.Pauses.{succeeded}
use cloudstorageapi.Upload.RetrySession.Rounds.{Ready, UploadNext, length-stored}
use cloudstorageapi.Upload.RetrySession.Delivery.{
  bytes-rest, upload_round-UploadNext, upload_generic_chunk-delivers,
}
use cloudstorageapi.Upload.RetrySession.Shrinks.{Moves, Left, Shrinks, after_upload-Shrinks}

module _ {S : Type 0} (world : World S) (session : Session S) (stored : S → List ℕ)
    (quiet : Quiet world session stored) (committing : Committing session stored)
    (base chunk : List ℕ) (small : length chunk < 2 ^ 64) (caller : String)
    (upload : ConstBufferSequence → S → Reply × S)
    (keeps : (b : ConstBufferSequence) (s : S)
      → Synced session stored s
      → KeepsSome session stored b s (upload b s))
    (moves : (b : ConstBufferSequence) (s : S)
      → Synced session stored s
      → Moves stored b s (upload b s)) where
  upload_round-Shrinks :
      (fuel a r : ℕ) (v : Vars S)
      → Ready world session stored quiet committing base chunk small v
      → Left world session stored quiet committing (length base + length chunk) a r v.lent
      → a ≤ fuel
      → Shrinks world session stored quiet committing
          (length base + length chunk)
          (a + r)
          (upload_round world session caller upload fuel v)
  unfolding upload_round upload_rest
  upload_round-Shrinks fuel a r v (k, j, jk, h, next, nb, eb) (p, left) enough =
      rw (is_exhausted-Patience world a v.lent.retry v.lent.world_state p, next, nb)
        (rw (le→not-ltb (length base + k) (length base + j) (omega arith)) (
          after_upload-Shrinks world session stored quiet committing (length base + length chunk)
            fuel a r (length base + k) rest s (upload rest s) v.lent p here
            (omega (arith, left, here))
            (omega (
              arith,
              ap length (
                  bytes-rest world session stored quiet committing base chunk small caller upload
                    keeps j k v.buffers jk eb),
              length-drop k chunk,
              left,
              here,
            ))
            enough (keeps rest s synced) (moves rest s synced)))
    where
      s : S
      s = v.lent.world_state

      rest : ConstBufferSequence
      rest =
          if ltb (length base + j) (length base + k)
          then pop_front_bytes v.buffers (length base + k - (length base + j))
          else v.buffers

      here : length (stored s) ≡ length base + k
      here = length-stored world session stored quiet committing base chunk small k s h

      synced : Synced session stored s
      synced = next ∙ sym here

  abbrev Returns : Option (Outcome × S) → Type 0
  Returns x = (o : Outcome) × (s : S) × (x ≡ some (o, s))

  upload_loop-Returns :
      (fuel a r : ℕ) (v : Vars S)
      → Ready world session stored quiet committing base chunk small v
      → Left world session stored quiet committing (length base + length chunk) a r v.lent
      → a + r < fuel
      → Returns (upload_loop world session caller upload fuel v)
  unfolding upload_loop
  upload_loop-Returns zero a r v ready left lt = absurd (omega arith)
  upload_loop-Returns (suc fuel) a r v ready left lt =
      follow (upload_round world session caller upload fuel v)
        (upload_round-UploadNext world session stored quiet committing base chunk small caller
          upload keeps fuel v ready)
        (upload_round-Shrinks fuel a r v ready left (omega arith))
        (λ a' r' v'. upload_loop-Returns fuel a' r' v')
    where
      follow :
          (x : Next S (Vars S))
          → UploadNext world session stored quiet committing base chunk small x
          → Shrinks world session stored quiet committing (length base + length chunk) (a + r) x
          → ((a' r' : ℕ) (v' : Vars S)
              → Ready world session stored quiet committing base chunk small v'
              → Left world session stored quiet committing
                  (length base + length chunk)
                  a'
                  r'
                  v'.lent
              → a' + r' < fuel
              → Returns (upload_loop world session caller upload fuel v'))
          → Returns (elim x [
            | stop o l ↦ some (o, l.world_state)
            | go v' ↦ upload_loop world session caller upload fuel v'
            | no_fuel ↦ none
          ])
      follow (stop o l) y z ih = (o, l.world_state, refl)
      follow (go v') y (a', r', lt', left') ih = ih a' r' v' y left' (omega arith)
      follow no_fuel y z ih = absurd z

module _ {S : Type 0} (world : World S) (session : Session S) (stored : S → List ℕ)
    (quiet : Quiet world session stored) (committing : Committing session stored) (failures m : ℕ)
    (backoff_prototype : BackoffPolicy) where
  -- Over a server that stores a first part of what is sent, and at least a byte of it whenever it
  -- reports progress, `UploadGenericChunk` under a policy that allows `m` failures returns within as
  -- many rounds as there are failures allowed and bytes, and one more; the server then holds what it
  -- held and a first part of the chunk, and all of it if a response is returned.
  pub upload_generic_chunk-total :
      (caller : String) (b : ConstBufferSequence) (upload : ConstBufferSequence → S → Reply × S)
      (s : S)
      → ((c : ConstBufferSequence) (t : S)
          → Synced session stored t
          → KeepsSome session stored c t (upload c t))
      → ((c : ConstBufferSequence) (t : S)
          → Synced session stored t
          → Moves stored c t (upload c t))
      → length (bytes b) < 2 ^ 64
      → Synced session stored s
      → (o : Outcome) × (s' : S) × (upload_generic_chunk world session
            (limited_error_count failures (pos m))
            backoff_prototype
            (m + length (bytes b) + 1)
            caller
            b
            upload
            s
          ≡ some (o, s'))
        × (n : ℕ) × (n ≤ length (bytes b))
        × (stored s' ≡ stored s ++ take n (bytes b))
        × (succeeded o ≡ true → stored s' ≡ stored s ++ bytes b)
  unfolding upload_generic_chunk lend clone_retry
  upload_generic_chunk-total caller b upload s keeps moves small synced =
      let (o, s', e) =
        upload_loop-Returns world session stored quiet committing (stored s) (bytes b) small caller
          upload keeps moves (m + length (bytes b) + 1) m (length (bytes b)) _
          (
            0,
            0,
            omega arith,
            (omega arith, sym (append-nil (stored s))),
            synced ∙ omega arith,
            synced ∙ omega arith,
            refl,
          )
          (ap pos (omega arith), refl) (omega arith) in
      let (n, le, part, whole) =
        upload_generic_chunk-delivers world session stored quiet committing
          (limited_error_count failures (pos m)) backoff_prototype (m + length (bytes b) + 1) caller
          b upload s s' o keeps small synced e in
      (o, s', e, n, le, part, whole)
