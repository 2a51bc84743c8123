-- ===== src/WriteStream/Whole.antt =====
-- A stream from its construction to its end, and a stream whose upload has failed.
use cloudstorageapi.Prelude.{
  ℕ, ◌+◌, ◌^◌, ◌≤◌, ◌≡◌, refl, sym, ap, ◌∙◌, ◌<◌, inl, inr, Bool, true, false, Option, none, some,
  List, [], ◌∷◌, ◌++◌, arith, length, append_assoc, append-nil, Bool-cases, subst, if◌then◌else◌,
  dec_lt,
}
use native.Mathlib.Nat.{mod-eq_of_lt}
use cloudstorageapi.Status.{value, failure}
use cloudstorageapi.Buffers.{ConstBufferSequence, bytes, round_up_to_quantum}
use cloudstorageapi.Buffers.Bytes.{round_up_to_quantum-IsLeast}
use cloudstorageapi.Upload.{Reply, Session, ResumableUploadResponse}
use cloudstorageapi.Upload.Contract.{Synced}
use cloudstorageapi.WriteStream.{
  closed, Streambuf, make_streambuf, is_open, is_open_held, flush_final, close, sync, xsputn, sputc,
}
use cloudstorageapi.WriteStream.Accepted.{Delivering, Delivered, Writing}
use cloudstorageapi.WriteStream.Operations.{xsputn-Writing, sputc-Writing, sync-Writing}

-- The calls that `std::ostream` makes on its buffer.
pub data Call : Type 0 where
  write : List ℕ → Call
  put : ℕ → Call
  synchronize : Call

-- The bytes of a sequence of calls.
abbrev pub given_by : Call → List ℕ
given_by (write s) = s
given_by (put c) = c ∷ []
given_by synchronize = []

abbrev pub given : List Call → List ℕ
given [] = []
given (c ∷ calls) = given_by c ++ given calls

module _ {S : Type 0} (session : Session S) where
  abbrev pub taken : Option ℕ × Streambuf S → Bool × Streambuf S
  taken (none, b) = (false, b)
  taken (some n, b) = (true, b)

  -- Whether a call succeeds, and the stream after it.
  abbrev pub perform : Call → Streambuf S → Bool × Streambuf S
  perform (write s) b = taken (xsputn session s b)
  perform (put c) b = taken (sputc session c b)
  perform synchronize b = sync session b

  -- The calls until one fails: `std::ostream` makes no other after it.
  abbrev pub performs : List Call → Streambuf S → Bool × Streambuf S
  performs [] b = (true, b)
  performs (c ∷ calls) b =
      let (ok, b') = perform c b in let rest = performs calls b' in if ok then rest else (false, b')

module _ {S : Type 0} (session : Session S) (stored : S → List ℕ)
    (delivering : Delivering session stored) where
  taken-Writing :
      (accepted : List ℕ) (x : Option ℕ × Streambuf S) (b' : Streambuf S)
      → ((n : ℕ) → x ≡ (some n, b') → Writing session stored accepted b')
      → taken session x ≡ (true, b')
      → Writing session stored accepted b'
  taken-Writing accepted (none, b) b' f e = absurd cc
  taken-Writing accepted (some n, b) b' f e = f n (ap (λ x. (some n, x.1)) e)

  perform-Writing :
      (accepted : List ℕ) (c : Call) (b b' : Streambuf S)
      → Writing session stored accepted b
      → perform session c b ≡ (true, b')
      → Writing session stored (accepted ++ given_by c) b'
  perform-Writing accepted (write s) b b' w e =
      taken-Writing (accepted ++ s) (xsputn session s b) b'
        (λ n q. (xsputn-Writing session stored delivering accepted s b b' n w q).1) e
  perform-Writing accepted (put c) b b' w e =
      taken-Writing (accepted ++ c ∷ []) (sputc session c b) b'
        (λ n q. (sputc-Writing session stored delivering accepted c n b b' w q).1) e
  perform-Writing accepted synchronize b b' w e =
      subst (λ t. Writing session stored t b') (sym (append-nil accepted))
        (sync-Writing session stored delivering accepted b b' w e)

  -- If every call of a sequence succeeds, their bytes are stored or in the put area, in their order.
  pub performs-Writing :
      (accepted : List ℕ) (calls : List Call) (b b' : Streambuf S)
      → Writing session stored accepted b
      → performs session calls b ≡ (true, b')
      → Writing session stored (accepted ++ given calls) b'
  performs-Writing accepted [] b b' w e =
      subst (λ t. Writing session stored t b') (sym (append-nil accepted))
        (subst (Writing session stored accepted) (ap (λ x. x.1) e) w)
  performs-Writing accepted (c ∷ calls) b b' w e = elim (Bool-cases (perform session c b).0) [
    | inr stops ↦ absurd (cc (ap (λ x. x.0) (sym (step false stops) ∙ e)))
    | inl goes ↦
        subst (λ t. Writing session stored t b') (append_assoc accepted (given_by c) (given calls))
          (performs-Writing (accepted ++ given_by c) calls (perform session c b).1 b'
            (perform-Writing accepted c b (perform session c b).1 w
              (ap (λ o. (o, (perform session c b).1)) goes))
            (sym (step true goes) ∙ e))
  ]
    where
      step :
          (o : Bool)
          → (perform session c b).0 ≡ o
          → performs session (c ∷ calls) b ≡ (
              if o
              then performs session calls (perform session c b).1
              else (false, (perform session c b).1))
      step o h =
          ap
            (λ o'.
              if o'
              then performs session calls (perform session c b).1
              else (false, (perform session c b).1))
            h

  -- A stream that is made for a session that is not done yet writes.
  pub make_streambuf-Writing :
      (s : S) (size : ℕ) (auto : Bool)
      → Synced session stored s
      → 0 < size
      → 0 < session.file_chunk_size_quantum s
      → size + session.file_chunk_size_quantum s ≤ 2 ^ 64
      → Writing session stored (stored s) (make_streambuf session s size auto)
  unfolding make_streambuf
  make_streambuf-Writing s size auto knows big pos fits =
      let (least, multiple, near) =
        round_up_to_quantum-IsLeast size (session.file_chunk_size_quantum s) pos fits in
      record {
        is_live = refl;
        knows = knows;
        holds = append-nil (stored s);
        fits = omega arith;
        has_area = refl;
        has_buffer = refl;
        positive = pos;
        enough =
            elim (dec_lt (round_up_to_quantum size (session.file_chunk_size_quantum s))
              (session.file_chunk_size_quantum s)) [
                | yes p ↦ absurd (omega (arith, mod-eq_of_lt p))
                | no p ↦ omega arith
              ];
      }

  final-Stored :
      (payload : ConstBufferSequence) (s : S) (x : Reply × S) (r : ResumableUploadResponse)
      → Delivered session stored payload s x
      → x.0 ≡ value r
      → stored x.1 ≡ stored s ++ bytes payload
  final-Stored payload s (failure e, s') r d h = absurd cc
  final-Stored payload s (value r', s') r d h = d.0

  -- If the final flush returns a response, everything that was accepted is stored, and the stream is
  -- closed.
  pub close-Writing :
      (accepted : List ℕ) (b b' : Streambuf S) (r : ResumableUploadResponse)
      → Writing session stored accepted b
      → is_open session b ≡ true
      → close session b ≡ (value r, b')
      → (stored b'.inner ≡ accepted) × (is_open session b' ≡ false)
  unfolding close flush_final is_open is_open_held
  close-Writing accepted b b' r w o e = (
    ap (λ x. stored x.inner) (sym here)
        ∙ final-Stored (b.put_area ∷ []) b.inner sent r
            (delivering.on_final (b.put_area ∷ []) size b.inner w.knows)
            (ap (λ x. x.last_response) (sym runs) ∙ ap (λ x. x.0) e)
        ∙ ap (λ t. stored b.inner ++ t) (append-nil b.put_area)
        ∙ w.holds,
    ap (λ x. is_open session x) (sym here),
  )
    where
      size : ℕ
      size = session.next_expected_byte b.inner + length b.put_area

      sent : Reply × S
      sent = session.upload_final_chunk (b.put_area ∷ []) size b.inner

      after : Streambuf S
      after = record b {
        inner = sent.1;
        held = closed;
        put_area = [];
        area_size = 0;
        buffer_size = 1;
        last_response = sent.0;
      }

      runs : flush_final session b ≡ after
      runs = rw o refl

      here : after ≡ b'
      here = sym runs ∙ ap (λ x. x.1) e

  -- A stream made over a session that stores what it confirms, with a positive quantum and a positive
  -- size that do not exceed 2^64 together: if all calls succeed and the final
  -- flush returns a response, the server holds what it held, followed by the bytes of the calls.
  pub stream-stores :
      (s : S) (size : ℕ) (auto : Bool) (calls : List Call) (b b' : Streambuf S)
      (r : ResumableUploadResponse)
      → Synced session stored s
      → 0 < size
      → 0 < session.file_chunk_size_quantum s
      → size + session.file_chunk_size_quantum s ≤ 2 ^ 64
      → performs session calls (make_streambuf session s size auto) ≡ (true, b)
      → is_open session b ≡ true
      → close session b ≡ (value r, b')
      → stored b'.inner ≡ stored s ++ given calls
  stream-stores s size auto calls b b' r knows big pos fits runs open_still ends =
      (close-Writing (stored s ++ given calls) b b' r
        (performs-Writing (stored s) calls _ b
          (make_streambuf-Writing s size auto knows big pos fits) runs)
        open_still ends).0
