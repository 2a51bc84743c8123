-- ===== src/FileDownload/Stored.antt =====
-- What a download leaves in its destination.
use cloudstorageapi.Prelude.{
  ℕ, ◌+◌, ◌≡◌, refl, sym, ap, ◌∙◌, ◌<◌, pos, Bool, true, false, not, ◌&&◌, Option, none, some,
  String, List, arith, inl, inr, Bool-cases, length, subst, if◌then◌else◌,
}
use cloudstorageapi.Status.{Status, StatusOrVal, value, failure, is_ok, ok_status, unknown}
use cloudstorageapi.ReadSource.{ReadRequest}
use cloudstorageapi.ReadStream.{ReadStreambuf, read_streambuf, Returned, gives, throws}
use cloudstorageapi.ReadStream.Delivered.{Reading}
use cloudstorageapi.ReadStream.Gets.{peeked, Looks, peeked-Looks}
use cloudstorageapi.ReadStream.Full.{Peeks, peeked-Peeks}
use cloudstorageapi.FileDownload.{
  FileReadStream, live_stream, Downloader, offset_or_zero, after_peek, opened, read_object_impl,
  download_error, download_loop, destroyed, after_loop, with_destination, with_stream,
  download_file_impl,
}
use cloudstorageapi.FileDownload.Loop.{
  Fetching, Standing, Stored, Continues, move_source, download_loop-Stored,
}

true-false : true ≡ false → ⊥
true-false e = cc e

module _ {S : Type 0} (api : Downloader S) (content : List ℕ) (stands_at : ℕ → S → Type 0)
    (written : S → List ℕ) (fetching : Fetching api content stands_at written) (start : ℕ) where
  open fetching use {filling}

  -- A download ends, and if its status is OK the destination holds the whole content.
  pub Ends : Option (Status × S) → Type 0
  Ends none = ⊥
  Ends (some (status, s)) = is_ok status ≡ true → written s ≡ content

  destroyed-written : (s : S) → written (destroyed api s) ≡ written s
  destroyed-written s = elim (Bool-cases (api.source.source_is_open s)) [
    | inl here ↦ rw (here) (filling.still_close s)
    | inr closed ↦ rw (closed) refl
  ]

  after_loop-Ends :
      (q : ReadRequest) (file : String) (x : Option (Bool × FileReadStream S))
      → Stored api content stands_at written fetching start x
      → Ends (after_loop api q file x)
  unfolding Ends Stored
  after_loop-Ends q file none h = h
  after_loop-Ends q file (some (false, i)) h = λ q. absurd cc
  after_loop-Ends q file (some (true, i)) h = follow (api.close_destination i.buf.source) refl
    where
      follow :
          (x : Bool × S)
          → api.close_destination i.buf.source ≡ x
          → Ends (
              let (closed, s) = x in
              some (
                if not (true && closed)
                    then download_error
                        (api.shown q)
                        file
                        "cannot close download destination file"
                        (record { code = unknown; message = "ofstream::close()" })
                    else if not (is_ok i.buf.status)
                    then download_error
                        (api.shown q)
                        file
                        "error reading download source object"
                        i.buf.status
                    else ok_status,
                destroyed api s,
              ))
      follow (false, s) e = λ q. absurd cc
      follow (true, s) e = elim (Bool-cases (is_ok i.buf.status)) [
        | inr bad ↦ rw (bad) (λ q. absurd (cc bad))
        | inl fine ↦
            rw (fine) (λ q. destroyed-written s ∙ fetching.on_close i.buf.source s e ∙ h refl fine)
      ]

  -- The stream as `ReadObjectImpl` makes it.
  abbrev fresh : ReadStreambuf S → FileReadStream S
  fresh b = record { buf = b; eof = false; fail = false; bad = false }

  after_peek-Standing :
      (b : ReadStreambuf S) (x : Returned (Option ℕ) × ReadStreambuf S)
      → is_ok b.status ≡ true
      → Looks api.source content stands_at filling.providing start 0 x
      → Peeks api.source content stands_at written filling start 0 b x
      → is_ok (after_peek api (fresh b) x).buf.status ≡ true
      → Standing api content stands_at written fetching start 0 (after_peek api (fresh b) x)
  unfolding Looks Peeks
  after_peek-Standing b (throws e, b') fine l p ok = absurd (true-false (sym ok ∙ p))
  after_peek-Standing b (gives none, b') fine l (same, still, end) ok = record {
    reads = l;
    fine = ok;
    within = omega arith;
    ended = λ q. end;
  }
  after_peek-Standing b (gives (some c), b') fine (begin, r) (same, still) ok = record {
    reads = r;
    fine = ok;
    within = omega arith;
    ended = λ q. absurd cc;
  }

  with_destination-Ends :
      (fuel : ℕ) (q : ReadRequest) (file : String) (i : FileReadStream S)
      → 0 < api.download_buffer_size
      → length content < fuel
      → Standing api content stands_at written fetching start 0 i
      → Ends (with_destination api fuel q file i (api.open_destination file i.buf.source))
  unfolding Ends Continues
  with_destination-Ends fuel q file i some_buffer enough h =
      follow (api.open_destination file i.buf.source) refl
    where
      follow :
          (x : Bool × S)
          → api.open_destination file i.buf.source ≡ x
          → Ends (with_destination api fuel q file i x)
      follow (false, s) e = λ q. absurd cc
      follow (true, s) e =
          after_loop-Ends q file
            (download_loop api fuel (record i { buf = record i.buf { source = s } }))
            (download_loop-Stored api content stands_at written fetching start some_buffer fuel 0
              (record i { buf = record i.buf { source = s } })
              (move_source api content stands_at written fetching start h (
                subst (λ x. stands_at (0 + length i.buf.get_area) x.1) e
                  (fetching.still_destination _ file i.buf.source h.reads.ahead)))
              (fetching.on_destination file i.buf.source s e) (omega arith))

  live_stream-Ends :
      (fuel : ℕ) (q : ReadRequest) (file : String) (i : FileReadStream S)
      → 0 < api.download_buffer_size
      → length content < fuel
      → (is_ok i.buf.status ≡ true → Standing api content stands_at written fetching start 0 i)
      → Ends (
          with_stream api fuel q file
            (live_stream (if is_ok i.buf.status then i else record i { eof = true; bad = true })))
  unfolding Ends
  live_stream-Ends fuel q file i some_buffer enough h = elim (Bool-cases (is_ok i.buf.status)) [
    | inl fine ↦
        rw (fine) (rw (fine) (with_destination-Ends fuel q file i some_buffer enough (h fine)))
    | inr bad ↦ rw (bad) (rw (bad) (λ ok. absurd (true-false (sym ok ∙ bad))))
  ]

  -- A download from an offset that is not negative, with more fuel than there are bytes and into a
  -- buffer that is not empty, over a source that gives fewer bytes than it is asked for only at the
  -- end of the content: it ends, and if its status is OK the destination holds the content that the
  -- source provides, all of it, in order and each byte once.
  pub download_file_impl-stores :
      (fuel : ℕ) (q : ReadRequest) (file : String) (s : S)
      → offset_or_zero q.read_from_offset ≡ pos start
      → 0 < api.download_buffer_size
      → length content < fuel
      → Ends (download_file_impl api fuel q file s)
  unfolding download_file_impl read_object_impl Ends
  download_file_impl-stores fuel q file s from some_buffer enough = follow (api.read_file q s) refl
    where
      follow :
          (x : StatusOrVal (Unit {0}) × S)
          → api.read_file q s ≡ x
          → Ends (with_stream api fuel q file (opened api q x))
      follow (failure e, s') h = λ ok. absurd (true-false (sym ok ∙ fetching.on_failure q s s' e h))
      follow (value u, s') h =
          let b : ReadStreambuf S = read_streambuf s' (offset_or_zero q.read_from_offset) in
          let r : Reading api.source content stands_at filling.providing start 0 b = record {
            area = refl;
            ahead = fetching.on_open q s s' h;
            place = from ∙ ap pos (omega arith);
          } in
          live_stream-Ends fuel q file (after_peek api (fresh b) (peeked api.source b)) some_buffer
            enough
            (after_peek-Standing b (peeked api.source b) refl
              (peeked-Looks api.source content stands_at filling.providing start 0 b r)
              (peeked-Peeks api.source content stands_at written filling start 0 b r refl))
