-- ===== src/FileUpload/Files.antt =====
-- What an upload of a file stores, by either way.
use cloudstorageapi.Prelude.{
  ℕ, ◌+◌, ◌-◌, ◌≡◌, refl, sym, ap, ◌∙◌, ◌≤◌, ◌<◌, Bool, true, false, Option, none, some, String,
  List, arith, inl, inr, Bool-cases, length, length-drop, take, drop, take_all, subst, min, ltb,
  leb, le→not-ltb,
}
use cloudstorageapi.Status.{StatusOrVal, value, failure}
use cloudstorageapi.Metadata.{FileMetadata}
use cloudstorageapi.Buffers.{ConstBufferSequence, round_up_to_quantum}
use cloudstorageapi.Buffers.Bytes.{round_up_to_quantum-IsLeast}
use cloudstorageapi.Upload.{ResumableUploadResponse}
use cloudstorageapi.Upload.Contract.{Synced}
use cloudstorageapi.WriteStream.Accepted.{Delivering}
use cloudstorageapi.FileUpload.{
  Uploaded, returns, InStream, Uploader, UploadRequest, value_or, no_limit, with_session,
  upload_stream_resumable, insert_opened, upload_file_simple, resumable_opened, resumable_sized,
  upload_file_resumable, use_simple_upload, upload_file_impl,
}
use cloudstorageapi.FileUpload.Stored.{Ends, upload_with_session-Ends}

-- What an upload of `content` relies on: chunks that succeed are stored, only a final chunk brings a
-- payload, a session that is created is in step with a server that holds a first part of the content,
-- and an insertion that succeeds stores its content.
pub record Storing {S : Type 0} (api : Uploader S) (stored : S → List ℕ) (content : List ℕ)
    : Type 0 where
  pub delivering : Delivering api.session stored
  pub no_payload :
      (b : ConstBufferSequence) (s s' : S) (r : ResumableUploadResponse)
      → api.session.upload_chunk b s ≡ (value r, s')
      → r.payload ≡ none
  pub on_create :
      (q : UploadRequest) (s s' : S)
      → api.create_session q s ≡ (value tt, s')
      → Synced api.session stored s' × (stored s' ≡ take (length (stored s')) content)
  pub on_insert :
      (q : UploadRequest) (payload : List ℕ) (s s' : S) (m : FileMetadata)
      → api.insert_file q payload s ≡ (value m, s')
      → stored s' ≡ payload

module _ {S : Type 0} (api : Uploader S) (stored : S → List ℕ) (content : List ℕ)
    (storing : Storing api stored content) where
  upload_stream_resumable-Ends :
      (fuel : ℕ) (source : InStream) (q : UploadRequest) (s : S)
      → q.upload_limit ≡ none
      → 0 < api.upload_buffer_size
      → 0 < api.file_chunk_quantum
      → length content + (api.upload_buffer_size + api.file_chunk_quantum) < no_limit
      → length content + 1 < fuel
      → source.rest ≡ content
      → source.eof ≡ false
      → Ends stored content (upload_stream_resumable api fuel source q s)
  unfolding upload_stream_resumable
  upload_stream_resumable-Ends fuel source q s limitless some_buffer some_quantum far enough here
        fresh =
      follow (api.create_session q s) refl
    where
      size : ℕ
      size = round_up_to_quantum api.upload_buffer_size api.file_chunk_quantum

      follow :
          (x : StatusOrVal (Unit {0}) × S)
          → api.create_session q s ≡ x
          → Ends stored content (with_session api fuel source q x)
      follow (failure e, s') h = tt
      follow (value tt, s') h =
          let (knows, part) = storing.on_create q s s' h in
          let (big, multiple, close) =
            round_up_to_quantum-IsLeast api.upload_buffer_size api.file_chunk_quantum some_quantum
              (omega arith) in
          subst (λ t. Ends stored t (with_session api fuel source q (value tt, s'))) here
            (upload_with_session-Ends api stored storing.delivering storing.no_payload size fuel
              source q s' limitless refl (omega (arith, big)) (omega (arith, ap length here, close))
              (omega (arith, ap length here)) fresh knows
              (part ∙ ap (λ t. take (length (stored s')) t) (sym here)))

  -- A file that does not change, and an upload of its content from an offset on.
  pub record Unchanging (file : String) (q : UploadRequest) (whole : List ℕ) (s : S) : Type 0 where
    pub regular : api.is_regular_file file s ≡ true
    pub sized : api.file_size file s ≡ some (length whole)
    pub opens : api.open_file file s ≡ some whole
    pub from : value_or 0 q.upload_from_offset ≤ length whole
    pub part : content ≡ drop (value_or 0 q.upload_from_offset) whole
    pub limitless : q.upload_limit ≡ none

  abbrev returned : StatusOrVal FileMetadata × S → Option (Uploaded × S)
  returned (r, s) = some (returns r, s)

  upload_file_simple-Ends :
      (file : String) (q : UploadRequest) (whole : List ℕ) (s : S)
      → Unchanging file q whole s
      → Ends stored content (returned (upload_file_simple api file (length whole) q s))
  unfolding upload_file_simple insert_opened
  upload_file_simple-Ends file q whole s u =
      rw (le→not-ltb (length whole) (value_or 0 q.upload_from_offset) u.from) (
        rw (u.opens) (
          rw (whole_rest)
            (rw (sym u.part) (rw (all) (rw (full) (follow (api.insert_file q content s) refl))))))
    where
      n : ℕ
      n = length whole - value_or 0 q.upload_from_offset

      amount : n ≡ length content
      amount = omega (arith, ap length u.part, length-drop (value_or 0 q.upload_from_offset) whole)

      whole_rest : min (value_or n q.upload_limit) n ≡ n
      whole_rest = ap (λ l. min (value_or n l) n) u.limitless ∙ omega arith

      all : take n content ≡ content
      all = take_all n content (omega (arith, amount))

      full : ltb (length content) n ≡ false
      full = le→not-ltb (length content) n (omega (arith, amount))

      follow :
          (x : StatusOrVal FileMetadata × S)
          → api.insert_file q content s ≡ x
          → Ends stored content (returned x)
      follow (failure e, s') h = tt
      follow (value m, s') h = storing.on_insert q content s s' m h

  module _ (some_buffer : 0 < api.upload_buffer_size) (some_quantum : 0 < api.file_chunk_quantum)
      (far : length content + (api.upload_buffer_size + api.file_chunk_quantum) < no_limit) where
    upload_file_resumable-Ends :
        (fuel : ℕ) (file : String) (q : UploadRequest) (whole : List ℕ) (s : S)
        → length content + 1 < fuel
        → Unchanging file q whole s
        → Ends stored content (upload_file_resumable api fuel file q s)
    unfolding upload_file_resumable resumable_sized resumable_opened
    upload_file_resumable-Ends fuel file q whole s enough u = rw (u.regular) (
        rw (u.sized) (
          rw (le→not-ltb (length whole) (value_or 0 q.upload_from_offset) u.from) (
            rw (u.opens) (
              upload_stream_resumable-Ends fuel _ _ s u.limitless some_buffer some_quantum far
                enough (sym u.part) refl))))

    -- An upload of a regular file that does not change, from an offset within it and without a limit,
    -- with a positive buffer size and a positive quantum, which are less than 2^64 - 1 together with
    -- the content, and with more fuel than there are bytes and one: if chunks that succeed are stored
    -- whole, only a final chunk brings a payload, a session that is created is in step with a server
    -- that holds a first part of the content, and an insertion that succeeds stores what it is given,
    -- then it ends, whichever way it takes, and if it returns metadata the server holds exactly the
    -- file's content from the offset on.
    pub upload_file_impl-stores :
        (fuel : ℕ) (resumable : Bool) (file : String) (q : UploadRequest) (whole : List ℕ) (s : S)
        → length content + 1 < fuel
        → Unchanging file q whole s
        → Ends stored content (upload_file_impl api fuel resumable file q s)
    unfolding upload_file_impl use_simple_upload
    upload_file_impl-stores fuel true file q whole s enough u =
        upload_file_resumable-Ends fuel file q whole s enough u
    upload_file_impl-stores fuel false file q whole s enough u = rw (u.regular) (
        rw (u.sized) (elim (Bool-cases (leb (length whole) api.maximum_simple_upload_size)) [
          | inl fits ↦ rw (fits) (upload_file_simple-Ends file q whole s u)
          | inr large ↦ rw (large) (upload_file_resumable-Ends fuel file q whole s enough u)
        ]))
