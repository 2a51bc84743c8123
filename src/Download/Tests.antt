-- ===== src/Download/Tests.antt =====
-- A transfer over a small libcurl, which hands over three bytes at a time.
use cloudstorageapi.Prelude.{
  ℕ, zero, suc, ◌+◌, ◌≡◌, ◌≢◌, ◌⊎◌, refl, sym, ap, ◌∙◌, ◌≤◌, ◌<◌, Bool, true, false, Option, none,
  some, List, [], ◌∷◌, ◌++◌, arith, inl, inr, Bool-cases, length, length-take, take, drop,
  take-append-drop, ◌==◌, ==_iff, if◌then◌else◌,
}
use cloudstorageapi.Status.{Status, StatusOrVal, value, ok_status, unavailable}
use cloudstorageapi.ReadSource.{ReadSourceResult}
use cloudstorageapi.Download.{
  MultiCode, multi_ok, call_multi_perform, WriteAnswer, took, pause, DownloadRequest, OnWrite,
  Headers, Libcurl, new_download, write_data, write_callback, multi_status, perform_loop,
  perform_work, wait_for_handles, wait, read_waited, read_drained, download_read,
}
use cloudstorageapi.Download.Flow.{
  Delivers, rests, takes, pauses, aborts, Accepts, max_write_size, write_callback-Accepts,
}
use cloudstorageapi.Download.Contract.{Transferring}
use cloudstorageapi.Download.Reads.{Stands, Delivered, download_read-delivers}

-- The calls that it still makes, the bytes that it has, and whether the end was not told yet.
abbrev pub Wire : Type 0
Wire = ℕ × List ℕ × Bool

abbrev pub wire_remaining : Wire → List ℕ
wire_remaining (left, queue, untold) = queue

abbrev pub wire_work : Wire → ℕ
wire_work (left, queue, untold) = left + (if untold then 1 else 0)

abbrev answered :
    ℕ
    → List ℕ
    → Bool
    → WriteAnswer × DownloadRequest
    → MultiCode × ℕ × Headers × DownloadRequest × Wire
answered left queue untold (took n, d) = (multi_ok, 1, [], d, (left, drop 3 queue, untold))
answered left queue untold (pause, d) = (multi_ok, 1, [], d, (left, queue, untold))

abbrev wire_perform :
    OnWrite → Wire → DownloadRequest → MultiCode × ℕ × Headers × DownloadRequest × Wire
wire_perform f (zero, queue, untold) d = (multi_ok, 0, [], d, (zero, queue, untold))
wire_perform f (suc left, [], untold) d = (multi_ok, 0, [], d, (left, [], untold))
wire_perform f (suc left, b ∷ bs, untold) d = answered left (b ∷ bs) untold (f (take 3 (b ∷ bs)) d)

abbrev told : List ℕ → Status
told [] = ok_status
told (b ∷ bs) = record { code = unavailable; message = "gone" }

abbrev wire_info : Wire → Option (Bool × Status) × Wire
wire_info (left, queue, false) = (none, (left, queue, false))
wire_info (left, queue, true) = (some (true, told queue), (left, queue, false))

abbrev pub wire : Libcurl Wire
wire = record {
  set_callbacks = λ e. e;
  easy_pause = λ f e d. (ok_status, [], d, e);
  easy_perform = λ f e d. (ok_status, [], d, e);
  multi_perform = wire_perform;
  info_read = wire_info;
  multi_remove_handle = λ e. (multi_ok, e);
  multi_wait = λ e. (multi_ok, 1, e);
  sleep_for = λ n e. e;
  response_code = λ e. 200;
  peer = λ e. "peer";
  cleanup_handles = λ e. e;
}

wire_perform-Delivers :
    (f : OnWrite) (e : Wire) (d : DownloadRequest)
    → Delivers f d (wire_remaining e) (wire_perform f e d).3 (wire_remaining (wire_perform f e d).4)
wire_perform-Delivers f (zero, queue, untold) d = rests d queue
wire_perform-Delivers f (suc left, [], untold) d = rests d []
wire_perform-Delivers f (suc left, b ∷ bs, untold) d = follow (f three d) refl
  where
    three : List ℕ
    three = take 3 (b ∷ bs)

    few : length three ≤ max_write_size
    few = omega (arith, length-take 3 (b ∷ bs))

    split : b ∷ bs ≡ three ++ drop 3 (b ∷ bs)
    split = sym (take-append-drop 3 (b ∷ bs))

    follow :
        (x : WriteAnswer × DownloadRequest)
        → f three d ≡ x
        → Delivers f d
            (b ∷ bs)
            (answered left (b ∷ bs) untold x).3
            (wire_remaining (answered left (b ∷ bs) untold x).4)
    follow (took n, d') h = elim (Bool-cases (n == length three)) [
      | inl e ↦
          takes three (drop 3 (b ∷ bs)) few split
            (h ∙ ap (λ k. (took k, d')) ((==_iff n (length three)).0 e))
            (rests d' (drop 3 (b ∷ bs)))
      | inr e ↦
          aborts three (drop 3 (b ∷ bs)) n few split h
            (λ z. cc (sym e ∙ (==_iff n (length three)).1 z))
    ]
    follow (pause, d') h = pauses three (drop 3 (b ∷ bs)) few split h (rests d' (b ∷ bs))

wire_perform-le :
    (f : OnWrite) (e : Wire) (d : DownloadRequest) → wire_work (wire_perform f e d).4 ≤ wire_work e
wire_perform-le f (zero, queue, untold) d = omega arith
wire_perform-le f (suc left, [], untold) d = omega arith
wire_perform-le f (suc left, b ∷ bs, untold) d = follow (f (take 3 (b ∷ bs)) d)
  where
    follow :
        (x : WriteAnswer × DownloadRequest)
        → wire_work (answered left (b ∷ bs) untold x).4 ≤ suc left + (if untold then 1 else 0)
    follow (took n, d') = omega arith
    follow (pause, d') = omega arith

wire_perform_again :
    (f : OnWrite) (e : Wire) (d : DownloadRequest)
    → ((wire_perform f e d).0 ≡ call_multi_perform) ⊎ ((wire_perform f e d).1 ≢ 0)
    → wire_work (wire_perform f e d).4 < wire_work e
wire_perform_again f (zero, queue, untold) d (inl h) = absurd (cc h)
wire_perform_again f (zero, queue, untold) d (inr h) = absurd (h refl)
wire_perform_again f (suc left, [], untold) d h = omega arith
wire_perform_again f (suc left, b ∷ bs, untold) d h = follow (f (take 3 (b ∷ bs)) d)
  where
    follow :
        (x : WriteAnswer × DownloadRequest)
        → wire_work (answered left (b ∷ bs) untold x).4 < suc left + (if untold then 1 else 0)
    follow (took n, d') = omega arith
    follow (pause, d') = omega arith

wire_info-lt :
    (e e' : Wire) (m : Bool × Status) → wire_info e ≡ (some m, e') → wire_work e' < wire_work e
wire_info-lt (left, queue, false) e' m h = absurd (cc (ap (λ x. x.0) h))
wire_info-lt (left, queue, true) e' m h = omega (arith, ap (λ x. wire_work x.1) h)

wire_info_same : (e : Wire) → wire_remaining (wire_info e).1 ≡ wire_remaining e
wire_info_same (left, queue, false) = refl
wire_info_same (left, queue, true) = refl

wire_info-le : (e : Wire) → wire_work (wire_info e).1 ≤ wire_work e
wire_info-le (left, queue, false) = omega arith
wire_info-le (left, queue, true) = omega arith

pub wire-Transferring : Transferring wire wire_remaining wire_work
wire-Transferring = record {
  on_pause = λ f e d. rests d (wire_remaining e);
  on_perform = wire_perform-Delivers;
  same_callbacks = λ e. refl;
  same_info = wire_info_same;
  same_remove = λ e. refl;
  same_wait = λ e. refl;
  same_sleep = λ n e. refl;
  pause_work = λ f e d. omega arith;
  perform_work_le = wire_perform-le;
  perform_again = wire_perform_again;
  callbacks_work = λ e. omega arith;
  info_work = wire_info-lt;
  info_none = wire_info-le;
  remove_work = λ e. omega arith;
  wait_work = λ e. omega arith;
  cleanup_work = λ e. omega arith;
  sleep_work = λ n e. omega arith;
}

abbrev pub body : List ℕ
body = 1 ∷ 2 ∷ 3 ∷ 4 ∷ 5 ∷ 6 ∷ 7 ∷ 8 ∷ []

abbrev got : Option (StatusOrVal ReadSourceResult × DownloadRequest × Wire) → List ℕ
got (some (value r, d, e)) = r.received
got _ = []

abbrev spilled : Option (StatusOrVal ReadSourceResult × DownloadRequest × Wire) → List ℕ
spilled (some (r, d, e)) = d.spill
spilled none = []

-- A buffer of four bytes takes three and one, and two are spilled.
four_read :
    (got (download_read wire 30 30 4 new_download (20, body, true)) ≡ 1 ∷ 2 ∷ 3 ∷ 4 ∷ [])
    × (spilled (download_read wire 30 30 4 new_download (20, body, true)) ≡ 5 ∷ 6 ∷ [])
unfolding download_read read_drained read_waited wait perform_work perform_loop write_callback
    write_data wait_for_handles multi_status
four_read = (refl, refl)

begun-Stands :
    Stands wire wire_remaining wire_work wire-Transferring body 0 new_download (20, body, true)
begun-Stands = record {
  rest = body;
  order = refl;
  not_closing = refl;
  small = omega arith;
  link = λ c. refl;
}

download_read-delivers_example :
    Delivered wire wire_remaining wire_work wire-Transferring body 0 21
      (download_read wire 30 30 4 new_download (20, body, true))
download_read-delivers_example =
    download_read-delivers wire wire_remaining wire_work wire-Transferring 30 30 0 4 body
      new_download (20, body, true) (omega arith) (omega arith) begun-Stands

-- Two bytes in a buffer for five, four in the spill buffer, and three more on offer.
abbrev underway : DownloadRequest
underway = record new_download { buffer = 1 ∷ 2 ∷ []; buffer_size = 5; spill = 3 ∷ 4 ∷ 5 ∷ 6 ∷ [] }

write_callback-Accepts_example :
    Accepts
      (1 ∷ 2 ∷ 3 ∷ 4 ∷ 5 ∷ 6 ∷ 7 ∷ 8 ∷ 9 ∷ [])
      (7 ∷ 8 ∷ 9 ∷ [])
      []
      (write_callback (7 ∷ 8 ∷ 9 ∷ []) underway)
write_callback-Accepts_example =
    write_callback-Accepts (1 ∷ 2 ∷ 3 ∷ 4 ∷ 5 ∷ 6 ∷ 7 ∷ 8 ∷ 9 ∷ []) (7 ∷ 8 ∷ 9 ∷ []) [] underway
      (record { order = refl; not_closing = refl; fits = omega arith; small = omega arith })
      (omega arith)
