-- ===== src/FileDownload/Tests.antt =====
-- Runs of downloads.
use cloudstorageapi.Prelude.{
  ℕ, ◌+◌, ◌≡◌, refl, sym, ap, ◌∙◌, pos, true, none, some, List, [], ◌∷◌, ◌++◌, arith, length,
  length-take, length-drop, take, drop, take-length-take,
}
use cloudstorageapi.Status.{Status, StatusOrVal, value, failure, ok_status, unavailable}
use cloudstorageapi.ReadSource.{ReadRequest, ReadSourceResult}
use cloudstorageapi.ReadStream.{
  Source, xsgetn, underflow, check_preconditions, after_source_read, after_fill, report_error,
}
use cloudstorageapi.ReadStream.Delivered.{Providing}
use cloudstorageapi.ReadStream.Full.{Filling}
use cloudstorageapi.FileDownload.{
  download_error, Downloader, download_file_impl, download_loop, read_bytes, read_object_impl,
}
use cloudstorageapi.FileDownload.Loop.{Fetching}
use cloudstorageapi.FileDownload.Stored.{Ends, download_file_impl-stores}

abbrev file : List ℕ
file = 12 ∷ 13 ∷ 14 ∷ 15 ∷ 16 ∷ []

-- The place of the source, and what the destination holds.
abbrev Disk : Type 0
Disk = ℕ × List ℕ

abbrev answer : ℕ → ℕ → ReadSourceResult
answer n o = record {
  received = take n (drop o file);
  response = record { status_code = 200; payload = ""; headers = [] };
}

abbrev remote : Source Disk
remote = record {
  source_is_open = λ s. true;
  source_close = λ s. (value (answer 0 0).response, s);
  source_read = λ n s. (value (answer n s.0), (s.0 + length (answer n s.0).received, s.1));
}

abbrev downloader : Downloader Disk
downloader = record {
  read_file = λ q s. (value tt, (0, s.1));
  source = remote;
  open_destination = λ f s. (true, (s.0, []));
  write = λ bytes s. (true, (s.0, s.1 ++ bytes));
  close_destination = λ s. (true, s);
  download_buffer_size = 2;
  shown = λ q. "q";
}

abbrev from_102 : ReadRequest
from_102 = record { read_range = none; read_from_offset = some (pos 102); read_last = none }

downloaded : download_file_impl downloader 6 from_102 "f" (9, 1 ∷ []) ≡ some (ok_status, (5, file))
unfolding download_file_impl read_object_impl download_loop read_bytes xsgetn underflow
    check_preconditions after_source_read after_fill
downloaded = refl

abbrev lost : Status
lost = record { code = unavailable; message = "lost" }

-- The source fails when it is read for the first time.
broken_download :
    download_file_impl
      (record downloader { source = record remote { source_read = λ n s. (failure lost, s) } })
      6
      from_102
      "f"
      (9, 1 ∷ [])
    ≡ some (download_error "q" "f" "cannot open download source object" lost, (0, 1 ∷ []))
unfolding download_file_impl read_object_impl download_loop read_bytes xsgetn underflow
    check_preconditions after_source_read after_fill report_error
broken_download = refl

abbrev At : ℕ → Disk → Type 0
At o s = s.0 ≡ o

abbrev got : StatusOrVal ReadSourceResult → List ℕ
got (value r) = r.received
got (failure s) = []

remote-Providing : Providing remote file At
remote-Providing = record {
  on_read = λ o n s s' r h e.
      let part = ap (λ x. got x.0) e in
      (
        sym part
            ∙ sym (take-length-take n (drop s.0 file))
            ∙ ap (λ p. take (length p) (drop s.0 file)) part
            ∙ ap (λ k. take (length r.received) (drop k file)) h,
        sym (ap (λ x. x.1.0) e) ∙ ap (λ p. s.0 + length p) part ∙ ap (λ k. k + length r.received) h,
      );
}

remote-Filling : Filling remote file At (λ s. s.1)
remote-Filling = record {
  providing = remote-Providing;
  on_count = λ o n s s' r h e.
      let size : length (take n (drop s.0 file)) ≡ length r.received =
        ap (λ x. length (got x.0)) e in
      let t = length-take n (drop s.0 file) in
      let d = length-drop s.0 file in (omega arith, λ lt. omega arith);
  on_failure = λ n s s' e h. absurd cc;
  when_closed = λ o s h c. absurd cc;
  still_read = λ n s. refl;
  still_close = λ s. refl;
}

downloader-Fetching : Fetching downloader file At (λ s. s.1)
downloader-Fetching = record {
  filling = remote-Filling;
  on_open = λ q s s' e. sym (ap (λ x. x.1.0) e);
  on_failure = λ q s s' e h. absurd cc;
  on_destination = λ f s s' e. sym (ap (λ x. x.1.1) e);
  still_destination = λ o f s h. h;
  on_write = λ bytes s s' e. sym (ap (λ x. x.1.1) e);
  still_write = λ o bytes s h. h;
  on_close = λ s s' e. sym (ap (λ x. x.1.1) e);
}

download_file_impl-stores_example :
    Ends downloader file At
      (λ s. s.1)
      downloader-Fetching
      102
      (download_file_impl downloader 6 from_102 "f" (9, 1 ∷ []))
download_file_impl-stores_example =
    download_file_impl-stores downloader file At (λ s. s.1) downloader-Fetching 102 6 from_102 "f"
      (9, 1 ∷ []) refl (omega arith) (omega arith)
