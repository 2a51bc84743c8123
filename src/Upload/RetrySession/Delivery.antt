-- ===== src/Upload/RetrySession/Delivery.antt =====
-- A chunk that the retrying session reports as uploaded is on the server, whole and once.
use cloudstorageapi.Prelude.{
  ℕ, zero, suc, ◌+◌, ◌-◌, ◌^◌, ◌≡◌, refl, sym, ap, ◌∙◌, ◌≤◌, ◌<◌, inl, inr, true, Option, none,
  some, String, List, ◌++◌, arith, length, take, drop, if◌then◌else◌, drop-drop, Bool-cases,
  take_all, subst, append-nil, ltb, le→not-ltb, dec_lt, lt→ltb,
}
use cloudstorageapi.Policy.{
  World, RetryPolicy, BackoffPolicy, is_exhausted, clone_retry, limited_error_count, limited_time,
}
use cloudstorageapi.Retry.{exhausted_error}
use cloudstorageapi.Buffers.{ConstBufferSequence, pop_front_bytes, bytes}
use cloudstorageapi.Buffers.Bytes.{bytes-pop_front_bytes}
use cloudstorageapi.Upload.{Reply, Session}
use cloudstorageapi.Upload.Contract.{Synced, KeepsSome, Committing, Quiet}
use cloudstorageapi.Upload.RetrySession.{
  Outcome, return_status, Vars, Next, stop, go, no_fuel, upload_rest, upload_round, upload_loop,
  lend, upload_generic_chunk,
}
use cloudstorageapi.Upload.RetrySession.Pauses.{
  Same, succeeded, succeeded-return_status, is_exhausted-Same,
}
use cloudstorageapi.Upload.RetrySession.Rounds.{
  Ends, Ready, UploadNext, length-stored, after_upload-UploadNext,
}

module _ {S : Type 0} (world : World S) (session : Session S) (stored : S → List ℕ)
    (quiet : Quiet world session stored) (committing : Committing session stored)
    (base chunk : List ℕ) (small : length chunk < 2 ^ 64) where
  module _ (caller : String) (upload : ConstBufferSequence → S → Reply × S)
      (keeps : (b : ConstBufferSequence) (s : S)
        → Synced session stored s
        → KeepsSome session stored b s (upload b s)) where
    -- What is left of the buffers once the confirmed bytes are dropped.
    pub bytes-rest :
        (j k : ℕ) (b : ConstBufferSequence)
        → j ≤ k
        → bytes b ≡ drop j chunk
        → bytes (
            if ltb (length base + j) (length base + k)
            then pop_front_bytes b (length base + k - (length base + j))
            else b)
          ≡ drop k chunk
    bytes-rest j k b le e = elim (dec_lt j k) [
      | yes p ↦ rw (lt→ltb (length base + j) (length base + k) (omega arith)) (
          bytes-pop_front_bytes b (length base + k - (length base + j))
          ∙ ap (drop (length base + k - (length base + j))) e
          ∙ drop-drop j (length base + k - (length base + j)) chunk
          ∙ ap (λ n. drop n chunk) (omega arith))
      | no p ↦
          rw (le→not-ltb (length base + j) (length base + k) (omega arith))
            (e ∙ ap (λ n. drop n chunk) {x = j} {y = k} (omega arith))
    ]

    upload_rest-UploadNext :
        (fuel : ℕ) (v : Vars S)
        → Ready world session stored quiet committing base chunk small v
        → UploadNext world session stored quiet committing base chunk small
            (upload_rest world session caller upload fuel v)
    unfolding upload_rest
    upload_rest-UploadNext fuel v (k, j, jk, h, next, nb, eb) =
        rw (next, nb)
          (rw (le→not-ltb (length base + k) (length base + j) (omega arith)) (
            after_upload-UploadNext world session stored quiet committing base chunk small fuel k
              rest s (upload rest s) v.lent (bytes-rest j k v.buffers jk eb) h
              (keeps rest s (
                next
                ∙ sym
                    (length-stored world session stored quiet committing base chunk small k s h)))))
      where
        s : S
        s = v.lent.world_state

        rest : ConstBufferSequence
        rest =
            if ltb (length base + j) (length base + k)
            then pop_front_bytes v.buffers (length base + k - (length base + j))
            else v.buffers

    pub upload_round-UploadNext :
        (fuel : ℕ) (v : Vars S)
        → Ready world session stored quiet committing base chunk small v
        → UploadNext world session stored quiet committing base chunk small
            (upload_round world session caller upload fuel v)
    unfolding upload_round
    upload_round-UploadNext fuel v (k, j, jk, h, next, nb, eb) =
        elim (Bool-cases (is_exhausted world v.lent.retry v.lent.world_state).0) [
          | inl e ↦ rw e (k, (h.0, same.0 ∙ h.1), λ q. absurd (no_success q))
          | inr e ↦ rw e (
              upload_rest-UploadNext fuel (record v { lent = record v.lent { world_state = here } })
                (k, j, jk, (h.0, same.0 ∙ h.1), same.1 ∙ next, nb, eb))
        ]
      where
        here : S
        here = (is_exhausted world v.lent.retry v.lent.world_state).1

        same :
            (stored here ≡ stored v.lent.world_state)
            × (session.next_expected_byte here ≡ session.next_expected_byte v.lent.world_state)
        same = is_exhausted-Same world session stored quiet v.lent.retry v.lent.world_state

        no_success : succeeded (return_status (exhausted_error caller v.last_status)) ≡ true → ⊥
        no_success q = cc (succeeded-return_status (exhausted_error caller v.last_status))

    abbrev pub LoopEnds : Option (Outcome × S) → Type 0
    LoopEnds none = Unit {0}
    LoopEnds (some (o, s)) = Ends world session stored quiet committing base chunk small o s

    pub upload_loop-LoopEnds :
        (fuel : ℕ) (v : Vars S)
        → Ready world session stored quiet committing base chunk small v
        → LoopEnds (upload_loop world session caller upload fuel v)
    unfolding upload_loop
    upload_loop-LoopEnds zero v r = tt
    upload_loop-LoopEnds (suc fuel) v r =
        follow (upload_round world session caller upload fuel v) (upload_round-UploadNext fuel v r)
          (upload_loop-LoopEnds fuel)
      where
        follow :
            (x : Next S (Vars S))
            → UploadNext world session stored quiet committing base chunk small x
            → ((v' : Vars S)
                → Ready world session stored quiet committing base chunk small v'
                → LoopEnds (upload_loop world session caller upload fuel v'))
            → LoopEnds (elim x [
              | stop o l ↦ some (o, l.world_state)
              | go v' ↦ upload_loop world session caller upload fuel v'
              | no_fuel ↦ none
            ])
        follow (stop o l) h ih = h
        follow (go v') h ih = ih v' h
        follow no_fuel h ih = tt

-- Cloning a policy reads the clock.
clone_retry-Same :
    {S : Type 0} (world : World S) (session : Session S) (stored : S → List ℕ)
    (quiet : Quiet world session stored) (p : RetryPolicy) (s : S)
    → Same world session stored quiet s (clone_retry world p s).1
unfolding clone_retry
clone_retry-Same world session stored quiet (limited_error_count c m) s = (refl, refl)
clone_retry-Same world session stored quiet (limited_time d t) s =
    (quiet.stored-now s, quiet.next-now s)

module _ {S : Type 0} (world : World S) (session : Session S) (stored : S → List ℕ)
    (quiet : Quiet world session stored) (committing : Committing session stored)
    (retry_prototype : RetryPolicy) (backoff_prototype : BackoffPolicy) where
  -- Over a server that may keep only a first part of what is sent, `UploadGenericChunk`, if it ends,
  -- leaves on the server what was there and a first part of the chunk; if it returns a response, the
  -- whole chunk. Short writes, lost replies, failures and resets neither drop nor repeat a byte.
  pub upload_generic_chunk-delivers :
      (fuel : ℕ) (caller : String) (b : ConstBufferSequence)
      (upload : ConstBufferSequence → S → Reply × S) (s s' : S) (o : Outcome)
      → ((c : ConstBufferSequence) (t : S)
          → Synced session stored t
          → KeepsSome session stored c t (upload c t))
      → length (bytes b) < 2 ^ 64
      → Synced session stored s
      → upload_generic_chunk world session retry_prototype backoff_prototype fuel caller b upload s
        ≡ some (o, s')
      → (n : ℕ) × (n ≤ length (bytes b))
        × (stored s' ≡ stored s ++ take n (bytes b))
        × (succeeded o ≡ true → stored s' ≡ stored s ++ bytes b)
  unfolding upload_generic_chunk lend
  upload_generic_chunk-delivers fuel caller b upload s s' o keeps small synced e =
      let same = clone_retry-Same world session stored quiet retry_prototype s in
      let (n, holds, all) =
        subst
          (LoopEnds world session stored quiet committing (stored s) (bytes b) small caller upload
            keeps)
          e
          (upload_loop-LoopEnds world session stored quiet committing (stored s) (bytes b) small
            caller upload keeps fuel _
            (
              0,
              0,
              omega arith,
              (omega arith, same.0 ∙ sym (append-nil (stored s))),
              same.1 ∙ synced ∙ omega arith,
              synced ∙ omega arith,
              refl,
            )) in
      (
        n,
        holds.0,
        holds.1,
        λ q. holds.1 ∙ ap (λ t. stored s ++ t) (take_all n (bytes b) (omega (arith, all q))),
      )
