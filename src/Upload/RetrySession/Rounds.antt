-- ===== src/Upload/RetrySession/Rounds.antt =====
-- What one upload, and what follows it in its round, does to the server and the loop's variables.
use cloudstorageapi.Prelude.{
  ℕ, ◌+◌, ◌^◌, ◌≡◌, refl, ap, ◌∙◌, ◌≤◌, ◌<◌, inl, inr, true, Option, none, some, List, ◌++◌, arith,
  length, length-append, length-take, length-drop, take, drop, append_assoc, take-append-take-drop,
  Bool-cases, ◌==◌, ==_iff,
}
use cloudstorageapi.Status.{Status, value, failure, ok_status}
use cloudstorageapi.Policy.{World}
use cloudstorageapi.Retry.{Lent}
use cloudstorageapi.Buffers.{ConstBufferSequence, total_bytes, bytes}
use cloudstorageapi.Buffers.Bytes.{total_bytes-length}
use cloudstorageapi.Upload.{
  ResumableUploadResponse, in_progress, done, UploadState-cases, Reply, Session,
}
use cloudstorageapi.Upload.Contract.{Synced, KeepsSome, Committing, Quiet}
use cloudstorageapi.Upload.RetrySession.{
  Outcome, returned, thrown, sub_64, short_write, Vars, Next, stop, go, no_fuel, fail_or_sleep,
  reset_loop, resume, after_upload_failure, after_upload_success, after_upload,
}
use cloudstorageapi.Upload.RetrySession.Pauses.{
  succeeded, Paused, fail_or_sleep-Paused, ResetResult, reset_loop-ResetResult,
}

module _ {S : Type 0} (world : World S) (session : Session S) (stored : S → List ℕ)
    (quiet : Quiet world session stored) (committing : Committing session stored)
    (base chunk : List ℕ) (small : length chunk < 2 ^ 64) where
  -- The server holds what it held at first, and the first `n` bytes of the chunk.
  abbrev pub Holds : ℕ → S → Type 0
  Holds n s = (n ≤ length chunk) × (stored s ≡ base ++ take n chunk)

  -- At the end: the server holds a part of the chunk, and all of it if a response is returned.
  abbrev pub Ends : Outcome → S → Type 0
  Ends o s = (n : ℕ) × Holds n s × (succeeded o ≡ true → n ≡ length chunk)

  -- At the test of the loop: the session is in step with the server, and what is left to upload is
  -- the chunk from a byte that the server has confirmed.
  abbrev pub Ready : Vars S → Type 0
  Ready v =
      (k : ℕ) × (j : ℕ) × (j ≤ k)
      × Holds k v.lent.world_state
      × (session.next_expected_byte v.lent.world_state ≡ length base + k)
      × (v.next_byte ≡ length base + j)
      × (bytes v.buffers ≡ drop j chunk)

  abbrev pub UploadNext : Next S (Vars S) → Type 0
  UploadNext (stop o l) = Ends o l.world_state
  UploadNext (go v) = Ready v
  UploadNext no_fuel = Unit {0}

  -- The server goes on from `k` bytes by `kept` of the rest.
  Holds-add :
      (k kept : ℕ) (b : ConstBufferSequence) (s s' : S)
      → bytes b ≡ drop k chunk
      → kept ≤ length (bytes b)
      → Holds k s
      → stored s' ≡ stored s ++ take kept (bytes b)
      → Holds (k + kept) s'
  Holds-add k kept b s s' e le h g = (
    omega (arith, ap length e, length-drop k chunk),
    g
        ∙ ap (λ t. t ++ take kept (bytes b)) h.1
        ∙ append_assoc base (take k chunk) (take kept (bytes b))
        ∙ ap (λ t. base ++ (take k chunk ++ take kept t)) e
        ∙ ap (λ t. base ++ t) (take-append-take-drop k kept chunk),
  )

  pub length-stored : (n : ℕ) (s : S) → Holds n s → length (stored s) ≡ length base + n
  length-stored n s h =
      omega (arith, ap length h.1, length-append base (take n chunk), length-take n chunk)

  -- What a `ready` loop variable looks like after an upload that left the session in step.
  Ready-after :
      (k kept : ℕ) (b : ConstBufferSequence) (e : Status) (l : Lent S)
      → bytes b ≡ drop k chunk
      → Holds (k + kept) l.world_state
      → Synced session stored l.world_state
      → Ready (record { buffers = b; next_byte = length base + k; last_status = e; lent = l })
  Ready-after k kept b e l eb h y = (
    k + kept,
    k,
    omega arith,
    h,
    y ∙ length-stored (k + kept) l.world_state h ∙ omega arith,
    refl,
    eb,
  )

  resume-UploadNext :
      (k kept : ℕ) (b : ConstBufferSequence) (s : S) (x : Option (Outcome × Lent S))
      → bytes b ≡ drop k chunk
      → Holds (k + kept) s
      → ResetResult world session stored quiet committing s x
      → UploadNext (resume world session b (length base + k) x)
  unfolding resume
  resume-UploadNext k kept b s none eb h r = tt
  resume-UploadNext k kept b s (some (returned (value a), l)) eb h r =
      Ready-after k kept b ok_status l eb (h.0, r.0 ∙ h.1) (r.1 refl)
  resume-UploadNext k kept b s (some (returned (failure e), l)) eb h r =
      (k + kept, (h.0, r.0 ∙ h.1), λ q. cc)
  resume-UploadNext k kept b s (some (thrown, l)) eb h r = (k + kept, (h.0, r.0 ∙ h.1), λ q. cc)

  after_upload_failure-UploadNext :
      (fuel k kept : ℕ) (b : ConstBufferSequence) (e : Status) (l : Lent S)
      → bytes b ≡ drop k chunk
      → Holds (k + kept) l.world_state
      → UploadNext (after_upload_failure world session fuel b (length base + k) e l)
  unfolding after_upload_failure
  after_upload_failure-UploadNext fuel k kept b e l eb h =
      follow (fail_or_sleep world session "UploadGenericChunk" e l)
        (fail_or_sleep-Paused world session stored quiet "UploadGenericChunk" e l)
    where
      follow :
          (x : Next S (Lent S))
          → Paused world session stored quiet l.world_state x
          → UploadNext (elim x [
            | stop outcome l' ↦ stop outcome l'
            | go l' ↦ resume world session b (length base + k) (reset_loop world session fuel e l')
            | no_fuel ↦ no_fuel
          ])
      follow (stop o l') p = (k + kept, (h.0, p.0 ∙ h.1), λ q. cc)
      follow (go l') p =
          resume-UploadNext k kept b l'.world_state _ eb (h.0, p.0 ∙ h.1)
            (reset_loop-ResetResult world session stored quiet committing fuel e l')
      follow no_fuel p = tt

  after_upload_success-UploadNext :
      (k kept : ℕ) (b : ConstBufferSequence) (a : ResumableUploadResponse) (l : Lent S)
      → bytes b ≡ drop k chunk
      → k ≤ length chunk
      → Holds (k + kept) l.world_state
      → (a.upload_state ≡ in_progress → Synced session stored l.world_state)
      → (a.upload_state ≡ done → kept ≡ length (bytes b))
      → UploadNext (after_upload_success world session b (length base + k) a l)
  unfolding after_upload_success
  after_upload_success-UploadNext k kept b a l eb le h y z =
      let size = ap length eb ∙ length-drop k chunk in
      elim (UploadState-cases a.upload_state) [
        | inr e ↦ rw e (k + kept, h, λ q. omega (arith, z e, size))
        | inl e ↦
            let current = y e ∙ length-stored (k + kept) l.world_state h in
            elim (Bool-cases (
              sub_64 (session.next_expected_byte l.world_state) (length base + k)
              == total_bytes b)) [
                | inl t ↦
                    rw (e, t)
                      (
                        k + kept,
                        h,
                        λ q. omega (arith, current, size, total_bytes-length b, (==_iff _ _).0 t),
                      )
                | inr t ↦
                    rw (e, t)
                      (Ready-after k kept b
                        (short_write (length base + k) (session.next_expected_byte l.world_state)
                          (total_bytes b))
                        l eb h (y e))
              ]
      ]

  pub after_upload-UploadNext :
      (fuel k : ℕ) (b : ConstBufferSequence) (s : S) (r : Reply × S) (l : Lent S)
      → bytes b ≡ drop k chunk
      → Holds k s
      → KeepsSome session stored b s r
      → UploadNext (after_upload world session fuel b (length base + k) r l)
  unfolding after_upload
  after_upload-UploadNext fuel k b s (value a, s') l eb h (kept, le, e, reports) =
      after_upload_success-UploadNext k kept b a (record l { world_state = s' }) eb h.0
        (Holds-add k kept b s s' eb le h e) reports.0 reports.1
  after_upload-UploadNext fuel k b s (failure st, s') l eb h (kept, le, e, reports) =
      after_upload_failure-UploadNext fuel k kept b st (record l { world_state = s' }) eb
        (Holds-add k kept b s s' eb le h e)
