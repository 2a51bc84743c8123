-- ===== src/FileDownload.antt =====
-- Downloads of files by the client: `ReadObjectImpl` and `DownloadFileImpl` of
-- src/cloud_storage_client.cpp, over src/file_read_stream.cpp. The raw client, the source that it
-- opens and the destination file are operations on one state.
pub mod Loop
pub mod Stored
mod Tests
use cloudstorageapi.Prelude.{
  ℕ, zero, suc, ℤ, pos, Bool, true, false, not, ◌&&◌, Option, none, some, String, List, [], ◌∷◌,
  concat, ◌==◌, length, if◌then◌else◌,
}
use cloudstorageapi.Status.{
  Status, StatusOrVal, value, failure, invalid_argument, unknown, is_ok, ok_status,
}
use cloudstorageapi.ReadSource.{ReadRequest}
use cloudstorageapi.ReadStream.{
  Source, ReadStreambuf, read_streambuf, error_streambuf, Returned, gives, throws, xsgetn,
}
use cloudstorageapi.ReadStream.Gets.{peeked}

-- `FileReadStream`, which is a `std::istream` over its buffer.
pub record FileReadStream (S : Type 0) : Type 0 where
  pub buf : ReadStreambuf S
  pub eof : Bool
  pub fail : Bool
  pub bad : Bool

-- `good()`.
abbrev pub good : {S : Type 0} → FileReadStream S → Bool
good i = not i.eof && not i.fail && not i.bad

-- What `ReadObjectImpl` returns: a stream for an error, or one that reads.
pub data Opened (S : Type 0) : Type 0 where
  error_stream : FileReadStream Status → S → Opened S
  live_stream : FileReadStream S → Opened S

-- What downloads use: `ReadFile` of the raw client, the source once it is opened, and a
-- `std::ofstream`, whose operations tell whether it is good afterwards. `shown` is what `operator<<`
-- prints of a request.
pub record Downloader (S : Type 0) : Type 0 where
  pub read_file : ReadRequest → S → StatusOrVal (Unit {0}) × S
  pub source : Source S
  pub open_destination : String → S → Bool × S
  pub write : List ℕ → S → Bool × S
  pub close_destination : S → Bool × S
  pub download_buffer_size : ℕ
  pub shown : ReadRequest → String

-- `request.GetOption<ReadFromOffset>().ValueOr(0)`.
abbrev pub offset_or_zero : Option ℤ → ℤ
offset_or_zero none = pos 0
offset_or_zero (some n) = n

-- The status that `report_error` builds.
abbrev pub download_error : String → String → String → Status → Status
download_error request file what status = record {
  code = status.code;
  message = concat (
      "DownloadFileImpl(" ∷ request ∷ ", " ∷ file ∷ "): " ∷ what ∷ " - status.message="
      ∷ status.message ∷ []);
}

module _ {S : Type 0} (api : Downloader S) where
  open api use {
    read_file, source, open_destination, write, close_destination, download_buffer_size, shown,
  }

  -- `peek()` on a stream that is good: an exception of the buffer makes the stream bad.
  abbrev pub after_peek :
      FileReadStream S → Returned (Option ℕ) × ReadStreambuf S → FileReadStream S
  after_peek i (throws e, b) = record i { buf = b; bad = true }
  after_peek i (gives none, b) = record i { buf = b; eof = true }
  after_peek i (gives (some c), b) = record i { buf = b }

  -- `read` of `n` bytes on a stream that is good: the bytes that `gcount()` counts, and the stream.
  abbrev pub after_get :
      ℕ → FileReadStream S → Returned (List ℕ) × ReadStreambuf S → List ℕ × FileReadStream S
  after_get n i (throws e, b) = ([], record i { buf = b; bad = true })
  after_get n i (gives bytes, b) =
      if length bytes == n
      then (bytes, record i { buf = b })
      else (bytes, record i { buf = b; eof = true; fail = true })

  unfoldable pub read_bytes : ℕ → FileReadStream S → List ℕ × FileReadStream S
  read_bytes n i =
      if good i then after_get n i (xsgetn source n i.buf) else ([], record i { fail = true })

  -- What `ReadObjectImpl` makes of the raw client's answer.
  abbrev pub opened : ReadRequest → StatusOrVal (Unit {0}) × S → Opened S
  opened q (failure e, s) =
      error_stream (record { buf = error_streambuf e; eof = true; fail = false; bad = true }) s
  opened q (value tt, s) =
      let fresh : FileReadStream S = record {
        buf = read_streambuf s (offset_or_zero q.read_from_offset);
        eof = false;
        fail = false;
        bad = false;
      } in
      let i = after_peek fresh (peeked source fresh.buf) in
      live_stream (if is_ok i.buf.status then i else record i { eof = true; bad = true })

  -- `ReadObjectImpl`.
  unfoldable pub read_object_impl : ReadRequest → S → Opened S
  read_object_impl q s = opened q (read_file q s)

  -- The loop: `read`, and `write` of what was read. The flag says whether the destination is good,
  -- and `none` that the fuel ran out.
  unfoldable pub download_loop : ℕ → FileReadStream S → Option (Bool × FileReadStream S)
  unfolding read_bytes
  download_loop zero i = none
  download_loop (suc fuel) i =
      let (bytes, i') = read_bytes download_buffer_size i in
      let (os_good, s) = write bytes i'.buf.source in
      let next : FileReadStream S = record i' { buf = record i'.buf { source = s } } in
      let rest = download_loop fuel next in
      if os_good && good next then rest else some (os_good, next)

  -- The destructor of the stream, with the state that it leaves.
  abbrev pub destroyed : S → S
  destroyed s = if source.source_is_open s then (source.source_close s).1 else s

  -- What follows the loop.
  abbrev pub after_loop :
      ReadRequest → String → Option (Bool × FileReadStream S) → Option (Status × S)
  after_loop q file none = none
  after_loop q file (some (os_good, i)) =
      let (closed, s) = close_destination i.buf.source in
      some (
        if not (os_good && closed)
            then download_error (shown q) file "cannot close download destination file"
                (record { code = unknown; message = "ofstream::close()" })
            else if not (is_ok i.buf.status)
            then download_error (shown q) file "error reading download source object" i.buf.status
            else ok_status,
        destroyed s,
      )

  abbrev pub with_destination :
      ℕ → ReadRequest → String → FileReadStream S → Bool × S → Option (Status × S)
  with_destination fuel q file i (false, s) = some (
    download_error (shown q) file "cannot open download destination file"
        (record { code = invalid_argument; message = "ofstream::open()" }),
    destroyed s,
  )
  with_destination fuel q file i (true, s) =
      after_loop q file (download_loop fuel (record i { buf = record i.buf { source = s } }))

  abbrev pub with_stream : ℕ → ReadRequest → String → Opened S → Option (Status × S)
  with_stream fuel q file (error_stream i s) =
      some (download_error (shown q) file "cannot open download source object" i.buf.status, s)
  with_stream fuel q file (live_stream i) =
      if not (is_ok i.buf.status)
      then some (
        download_error (shown q) file "cannot open download source object" i.buf.status,
        destroyed i.buf.source,
      )
      else with_destination fuel q file i (open_destination file i.buf.source)

  -- `DownloadFileImpl`.
  unfoldable pub download_file_impl : ℕ → ReadRequest → String → S → Option (Status × S)
  unfolding read_object_impl
  download_file_impl fuel q file s = with_stream fuel q file (read_object_impl q s)
