-- ===== src/FileUpload/Limit.antt =====
-- What an upload with a limit stores.
use cloudstorageapi.Prelude.{
  ℕ, suc, ◌+◌, ◌-◌, ◌≡◌, refl, sym, ap, ◌∙◌, ◌≤◌, Bool, true, false, not, ◌&&◌, some, List, [], ◌∷◌,
  ◌++◌, arith, inl, inr, Bool-cases, append-nil, length, take, drop, ◌==◌, ltb, le→leb, le→not-ltb,
}
use cloudstorageapi.Status.{value, failure}
use cloudstorageapi.Buffers.{round_up_to_quantum}
use cloudstorageapi.Upload.{Reply}
use cloudstorageapi.Upload.Contract.{Synced}
use cloudstorageapi.WriteStream.Accepted.{Delivering, Delivered}
use cloudstorageapi.FileUpload.{
  InStream, read_stream, Uploader, UploadRequest, Uploading, has_payload, after_upload,
  upload_stream_round, continues, upload_on, upload_stream_loop, upload_with_session,
}
use cloudstorageapi.FileUpload.Stored.{Ends, or_true, payload_of-Ends}

and_false : (a b : Bool) → (a && b && false) ≡ false
and_false true true = refl
and_false true false = refl
and_false false b = refl

module _ {S : Type 0} (api : Uploader S) (stored : S → List ℕ)
    (delivering : Delivering api.session stored) (size fuel : ℕ) where
  after_upload-Ends :
      (chunk : List ℕ) (limit expected : ℕ) (source : InStream) (x : Reply × S) (s : S)
      → Delivered api.session stored (chunk ∷ []) s x
      → Ends stored (stored s ++ chunk) (
          upload_on api
            (upload_stream_loop api (suc fuel) limit size)
            (after_upload api expected source true x))
  unfolding after_upload upload_stream_loop
  after_upload-Ends chunk limit expected source (failure e, s') s d = tt
  after_upload-Ends chunk limit expected source (value r, s') s (kept, knows, q) =
      elim (Bool-cases (api.session.next_expected_byte s' == expected)) [
        | inr wrong ↦ rw (wrong) tt
        | inl right ↦ rw (right) (
            rw (and_false (not source.eof) (not (has_payload r.payload))) (
              payload_of-Ends api stored (stored s ++ chunk) r.payload s'
                (kept ∙ ap (λ t. stored s ++ t) (append-nil chunk))))
      ]

  last_round-Ends :
      (limit : ℕ) (u : Uploading S)
      → continues api u ≡ true
      → Synced api.session stored u.inner
      → limit - u.server_size ≤ size
      → Ends stored
          (stored u.inner ++ take size u.source.rest)
          (upload_stream_loop api (suc (suc fuel)) limit size u)
  unfolding upload_stream_loop upload_stream_round
  last_round-Ends limit u goes knows near =
      let expected = api.session.next_expected_byte u.inner + length (take size u.source.rest) in
      rw (goes) (
        rw (le→leb (limit - u.server_size) size near) (
          rw (or_true (ltb (length (take size u.source.rest)) size)) (
            after_upload-Ends (take size u.source.rest) limit expected (read_stream size u.source).1
              (api.session.upload_final_chunk (take size u.source.rest ∷ []) expected u.inner)
              u.inner (delivering.on_final (take size u.source.rest ∷ []) expected u.inner knows))))

  -- Over a session whose successes mean that the whole chunk was stored and that is in step with a
  -- server that holds no more than the limit, with a source that has not met its end: however small the
  -- limit is, if what is left of it fits into the buffer, the upload ends after one chunk, and if it
  -- succeeded the server holds a whole buffer of the source more than before, or all of the source if
  -- that is shorter.
  pub upload_with_session-overruns :
      (limit : ℕ) (source : InStream) (q : UploadRequest) (s : S)
      → q.upload_limit ≡ some limit
      → size ≡ round_up_to_quantum api.upload_buffer_size api.file_chunk_quantum
      → source.eof ≡ false
      → Synced api.session stored s
      → length (stored s) ≤ limit
      → limit ≤ length (stored s) + size
      → Ends stored
          (stored s ++ take size (drop (length (stored s)) source.rest))
          (upload_with_session api (suc (suc fuel)) source q s)
  unfolding upload_with_session
  upload_with_session-overruns limit source q s limited chunk fresh knows low near = rw (limited) (
      rw (le→not-ltb limit (api.session.next_expected_byte s) (omega (arith, knows))) (
        rw (sym chunk) (
          rw (sym knows) (
            last_round-Ends limit _ (ap (λ e. not e && true && true) fresh) knows
              (omega (arith, knows))))))
