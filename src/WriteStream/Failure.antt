-- ===== src/WriteStream/Failure.antt =====
-- A stream whose upload has failed, or that is closed, and a full put area.
use cloudstorageapi.Prelude.{
  ℕ, ◌≡◌, refl, ap, ◌∙◌, ◌≤◌, ◌<◌, inl, inr, true, false, Option, none, some, List, [], ◌∷◌, arith,
  length, length-append, Bool-cases, if_both, ltb, le→leb, le→not-ltb,
}
use cloudstorageapi.Status.{value, failure}
use cloudstorageapi.Buffers.{ConstBufferSequence}
use cloudstorageapi.Upload.{Reply, Session}
use cloudstorageapi.WriteStream.{
  Streambuf, is_open, is_open_held, after_chunk, broken, flush_round_chunk, flush, flush_final,
  close, auto_flush_final, failed_response, sync, xsputn, overflow, sputc,
}
use cloudstorageapi.WriteStream.Whole.{Call, write, put, synchronize, taken, perform, performs}

module _ {S : Type 0} (session : Session S) where
  -- Not touched: the session, and whatever it talks to, is as before, and so is what is held.
  abbrev pub Untouched : Streambuf S → Streambuf S → Type 0
  Untouched b b' = (b'.inner ≡ b.inner) × (b'.held ≡ b.held)

  flush-Untouched : (b : Streambuf S) → is_open session b ≡ false → Untouched b (flush session b)
  unfolding flush
  flush-Untouched b o = rw o (refl, refl)

  overflow-Untouched :
      (c : ℕ) (b : Streambuf S)
      → is_open session b ≡ false
      → Untouched b (overflow session (some c) b).1
  unfolding overflow
  overflow-Untouched c b o = rw o (refl, refl)

  sputc-Untouched :
      (c : ℕ) (b : Streambuf S) → is_open session b ≡ false → Untouched b (sputc session c b).1
  unfolding sputc
  sputc-Untouched c b o = elim (Bool-cases (ltb (length b.put_area) b.area_size)) [
    | inl e ↦ rw e (refl, refl)
    | inr e ↦ rw e (overflow-Untouched c b o)
  ]

  taken-Untouched :
      (b : Streambuf S) (x : Option ℕ × Streambuf S)
      → Untouched b x.1
      → Untouched b (taken session x).1
  taken-Untouched b (none, b') u = u
  taken-Untouched b (some n, b') u = u

  stays_shut :
      (b b' : Streambuf S) → Untouched b b' → is_open session b ≡ false → is_open session b' ≡ false
  unfolding is_open
  stays_shut b b' (i, h) o = rw (i, h) o

  Untouched-trans : (a b c : Streambuf S) → Untouched a b → Untouched b c → Untouched a c
  Untouched-trans a b c (i, h) (i', h') = (i' ∙ i, h' ∙ h)

  close-Untouched : (b : Streambuf S) → is_open session b ≡ false → Untouched b (close session b).1
  unfolding close flush_final
  close-Untouched b o = rw o (refl, refl)

  auto_flush_final-Untouched :
      (b : Streambuf S) → is_open session b ≡ false → Untouched b (auto_flush_final session b)
  unfolding auto_flush_final
  auto_flush_final-Untouched b o =
      if_both (Untouched b) b.auto_finalize (close session b).1 b (close-Untouched b o) (refl, refl)

  perform-Untouched :
      (c : Call) (b : Streambuf S) → is_open session b ≡ false → Untouched b (perform session c b).1
  unfolding xsputn sync
  perform-Untouched (write s) b o = rw o (refl, refl)
  perform-Untouched (put c) b o = taken-Untouched b (sputc session c b) (sputc-Untouched c b o)
  perform-Untouched synchronize b o = flush-Untouched b o

  calls-Untouched :
      (calls : List Call) (b : Streambuf S)
      → is_open session b ≡ false
      → Untouched b (performs session calls b).1
  calls-Untouched [] b o = (refl, refl)
  calls-Untouched (c ∷ calls) b o =
      let u = perform-Untouched c b o in
      let all =
        calls-Untouched calls (perform session c b).1 (stays_shut b (perform session c b).1 u o) in
      elim (Bool-cases (perform session c b).0) [
        | inl e ↦ rw e (
            Untouched-trans b (perform session c b).1
              (performs session calls (perform session c b).1).1 u all)
        | inr e ↦ rw e u
      ]

  -- Once the session is done, has failed or was closed, no sequence of calls, nor the final flush
  -- of `Close` or of the destructor after it, sends anything.
  pub performs-Untouched :
      (calls : List Call) (b : Streambuf S)
      → is_open session b ≡ false
      → Untouched b (performs session calls b).1
        × Untouched b (close session (performs session calls b).1).1
        × Untouched b (auto_flush_final session (performs session calls b).1)
  performs-Untouched calls b o =
      let u = calls-Untouched calls b o in
      let shut = stays_shut b (performs session calls b).1 u o in
      (
        u,
        Untouched-trans b (performs session calls b).1
            (close session (performs session calls b).1).1 u
            (close-Untouched (performs session calls b).1 shut),
        Untouched-trans b (performs session calls b).1
            (auto_flush_final session (performs session calls b).1) u
            (auto_flush_final-Untouched (performs session calls b).1 shut),
      )

  -- An upload that fails, or a server that asks for a byte that it cannot ask for, ends the stream
  -- with the error as its response.
  pub after_chunk-Failed :
      (first expected : ℕ) (rest : List ℕ) (x : Reply × S) (b : Streambuf S)
      → failed_response (after_chunk session first expected rest x b).last_response ≡ true
      → is_open session (after_chunk session first expected rest x b) ≡ false
  unfolding after_chunk is_open is_open_held broken
  after_chunk-Failed first expected rest (failure e, s) b h = refl
  after_chunk-Failed first expected rest (value r, s) b h = ground arith

  abbrev Fails : Streambuf S → Streambuf S → Type 0
  Fails b b' =
      (failed_response b'.last_response ≡ true)
      × (b'.put_area ≡ b.put_area)
      × (b'.area_size ≡ b.area_size)

  after_chunk-Fails :
      (first expected : ℕ) (rest : List ℕ) (x : Reply × S) (b : Streambuf S)
      → failed_response x.0 ≡ true
      → Fails b (after_chunk session first expected rest x b)
  unfolding after_chunk
  after_chunk-Fails first expected rest (failure e, s) b h = (refl, refl, refl)
  after_chunk-Fails first expected rest (value r, s) b h = absurd cc

  flush-Fails :
      (b : Streambuf S)
      → is_open session b ≡ true
      → session.file_chunk_size_quantum b.inner ≤ length b.put_area
      → ((p : ConstBufferSequence) → failed_response (session.upload_chunk p b.inner).0 ≡ true)
      → Fails b (flush session b)
  unfolding flush flush_round_chunk
  flush-Fails b o enough fails =
      rw (o, le→not-ltb (length b.put_area) (session.file_chunk_size_quantum b.inner) enough)
        (after_chunk-Fails _ _ _ _ b (fails _))

  -- `overflow` on a full put area whose upload fails writes its character behind the end of the
  -- buffer: the put area is then longer than its space.
  pub overflow-overruns :
      (c : ℕ) (b : Streambuf S)
      → is_open session b ≡ true
      → length b.put_area ≡ b.area_size
      → b.area_size ≡ b.max_buffer_size
      → session.file_chunk_size_quantum b.inner ≤ b.area_size
      → ((p : ConstBufferSequence) → failed_response (session.upload_chunk p b.inner).0 ≡ true)
      → ((overflow session (some c) b).0 ≡ none)
        × ((overflow session (some c) b).1.area_size
            < length (overflow session (some c) b).1.put_area)
  unfolding overflow
  overflow-overruns c b o full size enough fails =
      let (bad, same, area) = flush-Fails b o (omega arith) fails in
      rw (o, le→leb b.max_buffer_size (length b.put_area) (omega arith), bad)
        (
          refl,
          omega (arith, ap length same, area, length-append (flush session b).put_area (c ∷ [])),
        )
