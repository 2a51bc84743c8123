-- ===== src/FileUpload/Stored.antt =====
-- What an upload from a stream stores.
use cloudstorageapi.Prelude.{
  ℕ, zero, suc, ◌+◌, ◌-◌, ◌≡◌, ◌⊎◌, refl, sym, ap, ◌∙◌, ◌≤◌, ◌<◌, Bool, true, false, not, ◌&&◌,
  ◌||◌, Option, none, some, List, [], ◌∷◌, ◌++◌, arith, inl, inr, Bool-cases, append-nil,
  append_assoc, length, length-append, length-take, length-drop, take, drop, drop_all,
  take-append-drop, subst, ◌==◌, ltb, leb, ltb→lt, lt→ltb, not-ltb→le, le→not-ltb, if◌then◌else◌,
  if_both,
}
use cloudstorageapi.Status.{StatusOrVal, value, failure}
use cloudstorageapi.Metadata.{FileMetadata}
use cloudstorageapi.Buffers.{ConstBufferSequence, round_up_to_quantum}
use cloudstorageapi.Upload.{ResumableUploadResponse, Reply}
use cloudstorageapi.Upload.Contract.{Synced}
use cloudstorageapi.WriteStream.Accepted.{Delivering, Delivered}
use cloudstorageapi.FileUpload.{
  Uploaded, returns, file_size_throws, missing_payload, InStream, read_stream, Uploader,
  UploadRequest, Uploading, has_payload, no_limit, after_upload, upload_stream_round, payload_of,
  continues, upload_on, upload_stream_loop, upload_with_session,
}

pub or_true : (b : Bool) → (b || true) ≡ true
or_true true = refl
or_true false = refl

not-le→leb : (a b : ℕ) → b < a → leb a b ≡ false
not-le→leb a b h = ground arith

-- Why the loop stops, and when it goes on.
stopped :
    (e p r : Bool)
    → (p ≡ true → e ≡ true)
    → r ≡ false
    → (not e && not p && not r) ≡ false
    → e ≡ true
stopped true p r told low h = refl
stopped false true r told low h = told refl
stopped false false true told low h = absurd (cc low)
stopped false false false told low h = absurd (cc h)

going : (e p r : Bool) → (not e && not p && not r) ≡ true → e ≡ false
going true p r h = absurd (cc h)
going false p r h = refl

abbrev left : Bool → ℕ
left e = if e then 0 else 1

left-le : (e : Bool) → left e ≤ 1
left-le true = omega arith
left-le false = omega arith

-- How an upload ends: it does, and if it is said to have succeeded, the server holds the whole.
abbrev pub Ends : {S : Type 0} → (S → List ℕ) → List ℕ → Option (Uploaded × S) → Type 0
Ends stored whole none = ⊥
Ends stored whole (some (returns (failure e), s)) = Unit {0}
Ends stored whole (some (returns (value m), s)) = stored s ≡ whole
Ends stored whole (some (missing_payload, s)) = stored s ≡ whole
Ends stored whole (some (file_size_throws, s)) = ⊥

pub payload_of-Ends :
    {S : Type 0} (api : Uploader S) (stored : S → List ℕ) (whole : List ℕ) (p : Option FileMetadata)
    (s : S)
    → stored s ≡ whole
    → Ends stored whole (some (payload_of api p, s))
payload_of-Ends api stored whole none s h = h
payload_of-Ends api stored whole (some m) s h = h

module _ {S : Type 0} (api : Uploader S) (stored : S → List ℕ)
    (delivering : Delivering api.session stored)
    (no_payload : (b : ConstBufferSequence) (s s' : S) (r : ResumableUploadResponse)
      → api.session.upload_chunk b s ≡ (value r, s')
      → r.payload ≡ none)
    (size : ℕ) where
  -- The server holds `before`, and what is left of the source is `rest`.
  record Under (whole : List ℕ) (u : Uploading S) : Type 0 where
    order : stored u.inner ++ u.source.rest ≡ whole
    knows : Synced api.session stored u.inner
    same : u.server_size ≡ length (stored u.inner)
    ended : u.source.eof ≡ true → u.source.rest ≡ []
    told : has_payload u.response.payload ≡ true → u.source.eof ≡ true
    below : u.reached ≡ false

  read_ends :
      (i : InStream)
      → (i.eof ≡ true → i.rest ≡ [])
      → (i.eof || ltb (length i.rest) size) ≡ true
      → drop size i.rest ≡ []
  read_ends i ended h = elim (Bool-cases i.eof) [
    | inl e ↦ drop_all size i.rest (omega (arith, ap length (ended e)))
    | inr e ↦ drop_all size i.rest (
        omega (
          arith,
          ltb→lt (length i.rest) size (ap (λ b. b || ltb (length i.rest) size) (sym e) ∙ h),
        ))
  ]

  -- A read gets a whole chunk, or the end is reached.
  read_shortens :
      (i : InStream)
      → ((i.eof || ltb (length i.rest) size) ≡ true)
        ⊎ (length i.rest ≡ length (drop size i.rest) + size)
  read_shortens i = elim (Bool-cases (ltb (length i.rest) size)) [
    | inl l ↦ inl (rw (l) (or_true i.eof))
    | inr l ↦ inr (omega (arith, length-drop size i.rest, not-ltb→le (length i.rest) size l))
  ]

  -- After a round that did not fail; the source is shorter by a whole chunk, or its end was reached.
  RoundStores : List ℕ → Uploading S → StatusOrVal (Uploading S) × S → Type 0
  RoundStores whole u (failure e, s) = Unit {0}
  RoundStores whole u (value u', s) =
      Under whole u'
      × ((u'.source.eof ≡ true) ⊎ (length u.source.rest ≡ length u'.source.rest + size))

  -- A payload comes with the last part of the source.
  abbrev Tells : Uploading S → Reply × S → Type 0
  Tells u (failure e, s) = Unit {0}
  Tells u (value r, s) = has_payload r.payload ≡ true → (read_stream size u.source).1.eof ≡ true

  after_upload-RoundStores :
      (whole : List ℕ) (u : Uploading S) (reached : Bool) (x : Reply × S)
      → Under whole u
      → reached ≡ false
      → Tells u x
      → Delivered api.session stored (take size u.source.rest ∷ []) u.inner x
      → RoundStores whole u (
          after_upload api
            (api.session.next_expected_byte u.inner + length (take size u.source.rest))
            (read_stream size u.source).1
            reached
            x)
  unfolding after_upload RoundStores
  after_upload-RoundStores whole u reached (failure e, s) h low tells d = tt
  after_upload-RoundStores whole u reached (value r, s) h low tells (kept, knows', q) =
      if_both (RoundStores whole u) (not (api.session.next_expected_byte s == expected)) _ _ tt (
        record {
          order =
              ap (λ t. t ++ drop size u.source.rest)
                (kept ∙ ap (λ t. stored u.inner ++ t) (append-nil chunk))
              ∙ append_assoc (stored u.inner) chunk (drop size u.source.rest)
              ∙ ap (λ t. stored u.inner ++ t) (take-append-drop size u.source.rest)
              ∙ h.order;
          knows = knows';
          same = omega (
            arith,
            h.knows,
            ap length kept,
            length-append (stored u.inner) (chunk ++ []),
            ap length (append-nil chunk),
          );
          ended = read_ends u.source h.ended;
          told = tells;
          below = low;
        },
        read_shortens u.source,
      )
    where
      chunk : List ℕ
      chunk = take size u.source.rest

      expected : ℕ
      expected = api.session.next_expected_byte u.inner + length chunk

  -- A final chunk that is shorter than the buffer, and a chunk that is not final.
  final-Tells :
      (u : Uploading S) (x : Reply × S)
      → ltb (length (take size u.source.rest)) size ≡ true
      → Tells u x
  final-Tells u (failure e, s) = λ short. tt
  final-Tells u (value r, s) = λ short p.
      ap (λ b. u.source.eof || b)
        (lt→ltb (length u.source.rest) size (
          omega (
            arith,
            length-take size u.source.rest,
            ltb→lt (length (take size u.source.rest)) size short,
          )))
      ∙ or_true u.source.eof

  chunk-Tells :
      (u : Uploading S) (b : ConstBufferSequence) → Tells u (api.session.upload_chunk b u.inner)
  chunk-Tells u b = follow (api.session.upload_chunk b u.inner) refl
    where
      follow : (x : Reply × S) → api.session.upload_chunk b u.inner ≡ x → Tells u x
      follow (failure e, s) = λ h. tt
      follow (value r, s) =
          λ h p. absurd (cc (sym (ap has_payload (no_payload b u.inner s r h)) ∙ p))

  upload_stream_round-RoundStores :
      (limit : ℕ) (whole : List ℕ) (u : Uploading S)
      → Under whole u
      → size < limit - length (stored u.inner)
      → RoundStores whole u (upload_stream_round api limit size u)
  unfolding upload_stream_round
  upload_stream_round-RoundStores limit whole u h far = elim (Bool-cases short) [
    | inl f ↦ rw (low) (
        rw (f) (
          after_upload-RoundStores whole u false
            (api.session.upload_final_chunk buffers expected u.inner) h refl (final-Tells u _ f)
            (delivering.on_final buffers expected u.inner h.knows)))
    | inr f ↦ rw (low) (
        rw (f) (
          after_upload-RoundStores whole u false (api.session.upload_chunk buffers u.inner) h refl
            (chunk-Tells u buffers) (delivering.on_chunk buffers u.inner h.knows)))
  ]
    where
      buffers : ConstBufferSequence
      buffers = take size u.source.rest ∷ []

      expected : ℕ
      expected = api.session.next_expected_byte u.inner + length (take size u.source.rest)

      short : Bool
      short = ltb (length (take size u.source.rest)) size

      low : leb (limit - u.server_size) size ≡ false
      low = not-le→leb (limit - u.server_size) size (omega (arith, h.same))

  upload_stream_loop-Ends :
      (fuel limit : ℕ) (whole : List ℕ) (u : Uploading S)
      → 0 < size
      → length whole + size < limit
      → length u.source.rest + left u.source.eof < fuel
      → Under whole u
      → Ends stored whole (upload_stream_loop api fuel limit size u)
  unfolding upload_stream_loop RoundStores
  upload_stream_loop-Ends zero limit whole u positive far enough h = absurd (omega arith)
  upload_stream_loop-Ends (suc fuel) limit whole u positive far enough h =
      elim (Bool-cases (continues api u)) [
        | inl c ↦
            subst
              (λ b.
                Ends stored whole
                  (if b then more else some (payload_of api u.response.payload, u.inner)))
              (sym c)
              (follow (upload_stream_round api limit size u)
                (upload_stream_round-RoundStores limit whole u h
                  (omega (arith, length-append (stored u.inner) u.source.rest, ap length h.order)))
                (ap left (going u.source.eof (has_payload u.response.payload) u.reached c))
                (λ u' h' lt. upload_stream_loop-Ends fuel limit whole u' positive far lt h'))
        | inr c ↦
            subst
              (λ b.
                Ends stored whole
                  (if b then more else some (payload_of api u.response.payload, u.inner)))
              (sym c)
              (payload_of-Ends api stored whole u.response.payload u.inner (
                sym (append-nil (stored u.inner))
                ∙ sym (
                    ap (λ t. stored u.inner ++ t)
                      (h.ended (
                        stopped u.source.eof (has_payload u.response.payload) u.reached h.told
                          h.below c)))
                ∙ h.order))
      ]
    where
      more : Option (Uploaded × S)
      more =
          upload_on api (upload_stream_loop api fuel limit size)
            (upload_stream_round api limit size u)

      follow :
          (x : StatusOrVal (Uploading S) × S)
          → RoundStores whole u x
          → left u.source.eof ≡ 1
          → ((u' : Uploading S)
              → Under whole u'
              → length u'.source.rest + left u'.source.eof < fuel
              → Ends stored whole (upload_stream_loop api fuel limit size u'))
          → Ends stored whole (upload_on api (upload_stream_loop api fuel limit size) x)
      follow (failure e, s) g one ih = tt
      follow (value u', s) (h', inl e) one ih =
          ih u' h' (omega (arith, ap left e, ap length (h'.ended e)))
      follow (value u', s) (h', inr shorter) one ih =
          ih u' h' (omega (arith, left-le u'.source.eof))

  -- The upload over a session that is in step with the server, which holds a first part of the source.
  pub upload_with_session-Ends :
      (fuel : ℕ) (source : InStream) (q : UploadRequest) (s : S)
      → q.upload_limit ≡ none
      → size ≡ round_up_to_quantum api.upload_buffer_size api.file_chunk_quantum
      → 0 < size
      → length source.rest + size < no_limit
      → length source.rest + 1 < fuel
      → source.eof ≡ false
      → Synced api.session stored s
      → stored s ≡ take (length (stored s)) source.rest
      → Ends stored source.rest (upload_with_session api fuel source q s)
  unfolding upload_with_session
  upload_with_session-Ends fuel source q s limitless chunk positive far enough fresh knows part =
      rw (limitless) (
        rw (le→not-ltb no_limit (api.session.next_expected_byte s) (omega (arith, knows, few))) (
          rw (sym chunk) (
            upload_stream_loop-Ends fuel no_limit source.rest _ positive far
              (omega (
                arith,
                few,
                length-drop (api.session.next_expected_byte s) source.rest,
                ap left fresh,
              ))
              (record {
                order =
                    ap (λ n. stored s ++ drop n source.rest) knows
                    ∙ ap (λ t. t ++ drop (length (stored s)) source.rest) part
                    ∙ take-append-drop (length (stored s)) source.rest;
                knows = knows;
                same = knows;
                ended = λ e. absurd (cc (sym fresh ∙ e));
                told = λ e. absurd (cc e);
                below = refl;
              }))))
    where
      few : length (stored s) ≤ length source.rest
      few = omega (arith, ap length part, length-take (length (stored s)) source.rest)
