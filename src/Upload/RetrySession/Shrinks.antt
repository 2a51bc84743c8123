-- ===== src/Upload/RetrySession/Shrinks.antt =====
-- What a round that goes on leaves: fewer failures, or fewer bytes to store.
use cloudstorageapi.Prelude.{
  ℕ, ◌+◌, ◌-◌, ◌≡◌, refl, ap, ◌≤◌, ◌<◌, inl, inr, false, Option, none, some, List, ◌++◌, arith,
  length, length-append, length-take, take, Bool-cases, ◌==◌, ==_iff, subst, dec_lt,
}
use cloudstorageapi.Status.{Status, value, failure}
use cloudstorageapi.Policy.{World}
use cloudstorageapi.Policy.Patience.{Patience}
use cloudstorageapi.Retry.{Lent}
use cloudstorageapi.Buffers.{ConstBufferSequence, total_bytes, bytes}
use cloudstorageapi.Buffers.Bytes.{total_bytes-length}
use cloudstorageapi.Upload.{ResumableUploadResponse, in_progress, UploadState-cases, Reply, Session}
use cloudstorageapi.Upload.Contract.{Synced, KeepsSome, Committing, Quiet}
use cloudstorageapi.Upload.RetrySession.{
  Outcome, returned, thrown, sub_64, Vars, Next, stop, go, no_fuel, fail_or_sleep, reset_loop,
  resume, after_upload_failure, after_upload_success, after_upload,
}
use cloudstorageapi.Upload.RetrySession.Pauses.{
  Paused, fail_or_sleep-Paused, ResetResult, reset_loop-ResetResult,
}
use cloudstorageapi.Upload.RetrySession.Patience.{
  Lasts, fail_or_sleep-Lasts, ResetLasts, reset_loop-ResetLasts,
}

-- A success in progress has stored something of a chunk that is not empty.
abbrev pub Moves : {S : Type 0} → (S → List ℕ) → ConstBufferSequence → S → Reply × S → Type 0
Moves stored b s (failure e, s') = Unit {0}
Moves stored b s (value r, s') =
    r.upload_state ≡ in_progress → 0 < length (bytes b) → length (stored s) < length (stored s')

sub_64-same : (x y : ℕ) → x ≡ y → sub_64 x y ≡ 0
sub_64-same x y h = omega arith

module _ {S : Type 0} (world : World S) (session : Session S) (stored : S → List ℕ)
    (quiet : Quiet world session stored) (committing : Committing session stored) (size : ℕ) where
  -- `a` failures and `r` bytes are left: the server is to hold `size` bytes in the end.
  abbrev pub Left : ℕ → ℕ → Lent S → Type 0
  Left a r l = Patience a l.retry × (length (stored l.world_state) + r ≡ size)

  -- A round stops, or goes on with less left.
  abbrev pub Shrinks : ℕ → Next S (Vars S) → Type 0
  Shrinks n (stop o l) = Unit {0}
  Shrinks n (go v) = (a : ℕ) × (r : ℕ) × (a + r < n) × Left a r v.lent
  Shrinks n no_fuel = ⊥

  resume-Shrinks :
      (a r n : ℕ) (b : ConstBufferSequence) (s : S) (next : ℕ) (x : Option (Outcome × Lent S))
      → length (stored s) + r ≡ size
      → a + r < n
      → ResetResult world session stored quiet committing s x
      → ResetLasts world session a x
      → Shrinks n (resume world session b next x)
  unfolding resume
  resume-Shrinks a r n b s next none h lt e p = absurd p
  resume-Shrinks a r n b s next (some (returned (value v), l)) h lt e p =
      let (a', le, p') = p refl in (a', r, omega arith, (p', omega (arith, ap length e.0)))
  resume-Shrinks a r n b s next (some (returned (failure st), l)) h lt e p = tt
  resume-Shrinks a r n b s next (some (thrown, l)) h lt e p = tt

  after_upload_failure-Shrinks :
      (fuel a r n : ℕ) (b : ConstBufferSequence) (next : ℕ) (e : Status) (l : Lent S)
      → Left a r l
      → a + r ≤ n
      → a ≤ fuel
      → Shrinks n (after_upload_failure world session fuel b next e l)
  unfolding after_upload_failure
  after_upload_failure-Shrinks fuel a r n b next e l (p, h) le enough =
      follow (fail_or_sleep world session "UploadGenericChunk" e l)
        (fail_or_sleep-Paused world session stored quiet "UploadGenericChunk" e l)
        (fail_or_sleep-Lasts world session a "UploadGenericChunk" e l p)
    where
      follow :
          (x : Next S (Lent S))
          → Paused world session stored quiet l.world_state x
          → Lasts world session a x
          → Shrinks n (elim x [
            | stop outcome l' ↦ stop outcome l'
            | go l' ↦ resume world session b next (reset_loop world session fuel e l')
            | no_fuel ↦ no_fuel
          ])
      follow (stop o l') q m = tt
      follow (go l') q (a', eq, p') =
          resume-Shrinks a' r n b l'.world_state next _ (omega (arith, ap length q.0)) (omega arith)
            (reset_loop-ResetResult world session stored quiet committing fuel e l')
            (reset_loop-ResetLasts world session fuel a' e l' p' (omega arith))
      follow no_fuel q m = m

  after_upload_success-Shrinks :
      (a r kept next : ℕ) (b : ConstBufferSequence) (v : ResumableUploadResponse) (l : Lent S)
      → Left a r l
      → length (stored l.world_state) ≡ next + kept
      → kept ≤ length (bytes b)
      → (v.upload_state ≡ in_progress → Synced session stored l.world_state)
      → (v.upload_state ≡ in_progress → 0 < length (bytes b) → 0 < kept)
      → Shrinks (a + r + kept) (after_upload_success world session b next v l)
  unfolding after_upload_success
  after_upload_success-Shrinks a r kept next b v l left holds le synced moves =
      elim (UploadState-cases v.upload_state) [
        | inr e ↦ rw e tt
        | inl e ↦
            let current = synced e in
            elim (Bool-cases
              (sub_64 (session.next_expected_byte l.world_state) next == total_bytes b)) [
                | inl t ↦ rw (e, t) tt
                | inr t ↦ rw (e, t) (a, r, moved current e t, left)
              ]
      ]
    where
      moved :
          Synced session stored l.world_state
          → v.upload_state ≡ in_progress
          → (sub_64 (session.next_expected_byte l.world_state) next == total_bytes b) ≡ false
          → a + r < a + r + kept
      moved current e t = elim (dec_lt 0 (length (bytes b))) [
        | yes p ↦ omega (arith, moves e p)
        | no p ↦
            let same = sub_64-same (session.next_expected_byte l.world_state) next (omega arith) in
            absurd (
              cc (
                (==_iff (sub_64 (session.next_expected_byte l.world_state) next) (total_bytes b)).1
                  (omega (arith, same, total_bytes-length b))))
      ]

  grown :
      (next kept : ℕ) (b : ConstBufferSequence) (s s' : S)
      → length (stored s) ≡ next
      → kept ≤ length (bytes b)
      → stored s' ≡ stored s ++ take kept (bytes b)
      → length (stored s') ≡ next + kept
  grown next kept b s s' here le adds = omega (
    arith,
    ap length adds,
    length-append (stored s) (take kept (bytes b)),
    length-take kept (bytes b),
  )

  pub after_upload-Shrinks :
      (fuel a r next : ℕ) (b : ConstBufferSequence) (s : S) (x : Reply × S) (l : Lent S)
      → Patience a l.retry
      → length (stored s) ≡ next
      → next + r ≡ size
      → length (bytes b) ≤ r
      → a ≤ fuel
      → KeepsSome session stored b s x
      → Moves stored b s x
      → Shrinks (a + r) (after_upload world session fuel b next x l)
  unfolding after_upload
  after_upload-Shrinks fuel a r next b s (failure e, s') l p here whole fits enough
        (kept, le, adds, reports) m =
      after_upload_failure-Shrinks fuel a (r - kept) (a + r) b next e
        (record l { world_state = s' }) (p, omega (arith, grown next kept b s s' here le adds))
        (omega arith) enough
  after_upload-Shrinks fuel a r next b s (value v, s') l p here whole fits enough
        (kept, le, adds, reports) m =
      subst
        (λ n.
          Shrinks n (after_upload_success world session b next v (record l { world_state = s' })))
        (omega arith)
        (after_upload_success-Shrinks a (r - kept) kept next b v (record l { world_state = s' })
          (p, omega (arith, grown next kept b s s' here le adds))
          (grown next kept b s s' here le adds) le reports.0
          (λ e q. omega (arith, m e q, grown next kept b s s' here le adds)))
