-- ===== src/GoogleDrive/Follows.antt =====
-- The client for Google Drive follows the upload protocol, if the server does.
use cloudstorageapi.Prelude.{
  ℕ, ◌≡◌, ◌≤◌, refl, sym, ap, ◌∙◌, subst, ◌⊎◌, inl, inr, true, String, List, [], ◌++◌, arith,
  append-nil, length, take, Option,
}
use cloudstorageapi.Status.{StatusOrVal, value, failure}
use cloudstorageapi.Http.{HttpResponse}
use cloudstorageapi.Buffers.{ConstBufferSequence, bytes}
use cloudstorageapi.Buffers.Bytes.{total_bytes-length}
use cloudstorageapi.Upload.{Reply}
use cloudstorageapi.Upload.CurlSession.{UploadChunkRequest}
use cloudstorageapi.Upload.CurlSession.Committed.{Answers, Queried, Protocol}
use cloudstorageapi.GoogleDrive.{
  Transport, is_done_code, parse_response, after_response, upload_set_up, query_set_up,
  google_upload_chunk, google_query_resumable_upload, google_drive_client, chunk_headers,
  query_headers, get_range_header,
}
use cloudstorageapi.GoogleDrive.ContentRange.{
  ContentRange, request_headers, total_of, get_range_header-ContentRange,
}
use cloudstorageapi.GoogleDrive.Parsed.{
  Incomplete, Refused, clash, Incomplete-parse_response, EndOr, complete-parse_response,
  Incomplete-goes_on, Refused-goes_on, done-goes_on,
}

module _ {W : Type 0} (held : W → List ℕ) where
  -- What a response says after a chunk of which `kept` bytes were kept: an upload is complete only
  -- with all of the chunk.
  abbrev pub Told : ConstBufferSequence → W → ℕ → StatusOrVal HttpResponse → Type 0
  Told b w' kept (failure e) = Unit {0}
  Told b w' kept (value r) =
      Incomplete (length (held w')) r
      ⊎ (((is_done_code r.status_code ≡ true) × (kept ≡ length (bytes b))) ⊎ Refused r)

  -- What the server says of an upload that is not complete.
  abbrev pub Asked : W → StatusOrVal HttpResponse × W → Type 0
  Asked w (failure e, w') = held w' ≡ held w
  Asked w (value r, w') = (held w' ≡ held w) × (Incomplete (length (held w')) r ⊎ Refused r)

  -- What the server makes of a chunk: it keeps a first part, and tells it.
  abbrev pub Kept : ConstBufferSequence → W → StatusOrVal HttpResponse × W → Type 0
  Kept b w (x, w') =
      (kept : ℕ) × (kept ≤ length (bytes b))
      × (held w' ≡ held w ++ take kept (bytes b))
      × Told b w' kept x

  Kept-moved :
      (b : ConstBufferSequence) (w' w : W) (x : StatusOrVal HttpResponse × W)
      → held w' ≡ held w
      → Kept b w' x
      → Kept b w x
  Kept-moved b w' w (x, v) e (kept, le, adds, told) =
      (kept, le, adds ∙ ap (λ l. l ++ take kept (bytes b)) e, told)

  Asked-moved :
      (w' w : W) (x : StatusOrVal HttpResponse × W) → held w' ≡ held w → Asked w' x → Asked w x
  Asked-moved w' w (failure r, v) e h = h ∙ e
  Asked-moved w' w (value r, v) e (same, says) = (same ∙ e, says)

  -- A server that follows the protocol, for chunks that begin where its bytes end and whose header
  -- tells their range. It never has to tell that exactly one byte is held, and it answers a query as
  -- one of an upload that is not complete, or refuses it.
  pub record Drive (t : Transport W) : Type 0 where
    pub on_set_up : (w : W) → held (t.set_up w).1 ≡ held w
    pub on_chunk :
        (url : String) (begin : ℕ) (total : Option ℕ) (b : ConstBufferSequence) (header : String)
        (common : List String) (w : W)
        → begin ≡ length (held w)
        → ContentRange begin (length (bytes b)) total header
        → Kept b w (t.send url (request_headers common header (length (bytes b))) b w)
    pub on_query :
        (url : String) (common : List String) (w : W)
        → Asked w (t.send url (common ++ query_headers) [] w)

  ended-Answers :
      (b : ConstBufferSequence) (w w' : W) (kept : ℕ) (x : Reply)
      → kept ≤ length (bytes b)
      → held w' ≡ held w ++ take kept (bytes b)
      → kept ≡ length (bytes b)
      → EndOr x
      → Answers held b w (x, w')
  unfolding EndOr
  ended-Answers b w w' kept (failure e) le adds all h = (kept, le, adds)
  ended-Answers b w w' kept (value u) le adds all h =
      (kept, le, adds, (λ q. absurd (clash (sym q ∙ h))), λ q. all)

  module _ (t : Transport W) (drive : Drive t) where
    after_chunk-Answers :
        (b : ConstBufferSequence) (w : W) (x : StatusOrVal HttpResponse × W)
        → Kept b w x
        → Answers held b w (after_response t x)
    after_chunk-Answers b w (failure e, w') (kept, le, adds, told) = (kept, le, adds)
    after_chunk-Answers b w (value r, w') (kept, le, adds, inl h) =
        let (parsed, state, tells) = Incomplete-parse_response t (length (held w')) r h in
        rw (Incomplete-goes_on r h.0) (
          subst (λ x. Answers held b w (x, w')) (sym parsed)
            (kept, le, adds, (λ q. tells), λ q. absurd (clash (sym state ∙ q))))
    after_chunk-Answers b w (value r, w') (kept, le, adds, inr (inl (finished, all))) =
        rw (done-goes_on r.status_code finished) (
          ended-Answers b w w' kept (parse_response t r) le adds all
            (complete-parse_response t r finished))
    after_chunk-Answers b w (value r, w') (kept, le, adds, inr (inr refused)) =
        rw (Refused-goes_on r refused) (kept, le, adds)

    after_query-Queried :
        (w : W) (x : StatusOrVal HttpResponse × W) → Asked w x → Queried held w (after_response t x)
    after_query-Queried w (failure e, w') h = h
    after_query-Queried w (value r, w') (same, inl h) =
        let (parsed, state, tells) = Incomplete-parse_response t (length (held w')) r h in
        rw (Incomplete-goes_on r h.0)
          (subst (λ x. Queried held w (x, w')) (sym parsed) (same, state, tells))
    after_query-Queried w (value r, w') (same, inr refused) = rw (Refused-goes_on r refused) same

    -- Over a server that follows the protocol for chunks whose Content-Range header tells the bytes
    -- that they bring, that never has to tell that exactly one byte is held, that answers a query as
    -- one of an upload that is not complete or refuses it, and that keeps what it holds while a request
    -- is set up: the client for Google Drive is one that the resumable upload session can rely on, what
    -- it returns for a chunk or a query tells the last byte that the server holds.
    pub google_drive_client-Protocol : Protocol held (google_drive_client t)
    unfolding google_upload_chunk google_query_resumable_upload
    google_drive_client-Protocol = record {
      on_upload = λ q w h. uploaded q w h (t.set_up w) refl;
      on_query = λ url w. asked url w (t.set_up w) refl;
    }
      where
        still :
            (w : W) (x : StatusOrVal (List String)) (w' : W)
            → t.set_up w ≡ (x, w')
            → held w' ≡ held w
        still w x w' made = ap (λ y. held y.1) (sym made) ∙ drive.on_set_up w

        chunk_sent :
            (q : UploadChunkRequest) (common : List String) (w : W)
            → q.range_begin ≡ length (held w)
            → Kept q.payload w (t.send q.upload_session_url (common ++ chunk_headers q) q.payload w)
        chunk_sent q common w h =
            subst
              (λ n. Kept q.payload w (
                t.send q.upload_session_url (request_headers common (get_range_header q) n)
                  q.payload w))
              (sym (total_bytes-length q.payload))
              (drive.on_chunk q.upload_session_url q.range_begin (total_of q) q.payload
                (get_range_header q) common w h (get_range_header-ContentRange q))

        uploaded :
            (q : UploadChunkRequest) (w : W)
            → q.range_begin ≡ length (held w)
            → (x : StatusOrVal (List String) × W) → t.set_up w ≡ x
            → Answers held q.payload w (upload_set_up t q x)
        uploaded q w h (failure e, w') made =
            (0, omega arith, still w (failure e) w' made ∙ sym (append-nil (held w)))
        uploaded q w h (value common, w') made = after_chunk-Answers q.payload w _ (
            Kept-moved q.payload w' w _ (still w (value common) w' made)
              (chunk_sent q common w' (h ∙ sym (ap length (still w (value common) w' made)))))

        asked :
            (url : String) (w : W) (x : StatusOrVal (List String) × W)
            → t.set_up w ≡ x
            → Queried held w (query_set_up t url x)
        asked url w (failure e, w') made = still w (failure e) w' made
        asked url w (value common, w') made =
            after_query-Queried w _
              (Asked-moved w' w _ (still w (value common) w' made) (drive.on_query url common w'))
