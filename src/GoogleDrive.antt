-- ===== src/GoogleDrive.antt =====
-- The resumable uploads of the client for Google Drive: `UploadChunk` and `QueryResumableUpload` of
-- src/transport/clients/curl_googledrive_client.cpp, `GetRangeHeader` of
-- src/transport/clients/google_utils.cpp, and the parsing of a response to an upload in
-- include/cloudstorageapi/internal/clients/google_response_parser.h. The requests over libcurl and
-- the parser of JSON are parameters.
pub mod Numerals
pub mod Parsed
pub mod Ranges
pub mod ContentRange
pub mod Follows
mod Tests
use cloudstorageapi.Prelude.{
  zero, suc, show_int, ltb_ℤ, ℕ, ◌+◌, ◌-◌, ◌*◌, ◌^◌, ℤ, pos, negsuc, ◌-ℤ◌, Bool, true, false, not,
  ◌&&◌, ◌||◌, Option, none, some, String, List, [], ◌∷◌, ◌++◌, concat, to_string, codes,
  strip_prefix, same_text, is_empty_text, ◌==◌, ltb, min, if◌then◌else◌,
}
use cloudstorageapi.Status.{Status, StatusOrVal, value, failure}
use cloudstorageapi.Http.{
  HttpResponse, min_not_success, resume_incomplete, as_status, show_response,
}
use cloudstorageapi.Metadata.{FileMetadata}
use cloudstorageapi.Buffers.{ConstBufferSequence, total_bytes}
use cloudstorageapi.Upload.{ResumableUploadResponse, in_progress, done, Reply}
use cloudstorageapi.Upload.CurlSession.{UploadChunkRequest, UploadClient}
use cloudstorageapi.ReadSource.{ReadRequest}
use cloudstorageapi.Rfc3339.Scan.{is_digit, skip_space}

-- `find` on the headers.
unfoldable pub find_header : String → List (String × String) → Option String
find_header name [] = none
find_header name ((k, v) ∷ more) =
    let rest = find_header name more in if same_text k name then some v else rest

-- The digits that `strtoll` reads; the flag says whether one was seen.
unfoldable pub read_digits : ℕ → Bool → List ℕ → Option (ℕ × List ℕ)
read_digits acc seen [] = if seen then some (acc, []) else none
read_digits acc seen (c ∷ s) =
    let more = read_digits (acc * 10 + (c - b'0')) true s in
    if is_digit c then more else if seen then some (acc, c ∷ s) else none

-- The result does not leave the range of `long long`.
abbrev pub at_most_long : Option (ℕ × List ℕ) → Option (ℤ × List ℕ)
at_most_long none = none
at_most_long (some (n, s)) = some (pos (min n (2 ^ 63 - 1)), s)

abbrev pub negated : Option (ℕ × List ℕ) → Option (ℤ × List ℕ)
negated none = none
negated (some (n, s)) = some (pos 0 -ℤ pos (min n (2 ^ 63)), s)

unfoldable pub read_sign : List ℕ → Option (ℤ × List ℕ)
unfolding read_digits
read_sign [] = none
read_sign (c ∷ s) =
    if c == b'-'
    then negated (read_digits 0 false s)
    else if c == b'+'
    then at_most_long (read_digits 0 false s)
    else at_most_long (read_digits 0 false (c ∷ s))

-- `strtoll` in base ten: the number and what `endptr` points to, or `none` if there is no number.
unfoldable pub strtoll : List ℕ → Option (ℤ × List ℕ)
unfolding read_sign
strtoll s = read_sign (skip_space s)

-- The test of `last`.
abbrev pub committed : Option (ℤ × List ℕ) → Option ℕ
committed none = none
committed (some (negsuc n, s)) = none
committed (some (pos n, [])) = some n
committed (some (pos n, c ∷ s)) = if c == 0 then some n else none

abbrev pub after_prefix : Option (List ℕ) → Option ℕ
after_prefix none = none
after_prefix (some s) = committed (strtoll s)

-- The last byte that the value of a range header tells.
unfoldable pub last_of_range : String → Option ℕ
unfolding strtoll
last_of_range range = after_prefix (strip_prefix (codes "bytes=0-") (codes range))

abbrev pub cannot_parse : String → HttpResponse → String
cannot_parse range r = concat (
    "ParseResponse() cannot parse range: header in resumable upload response, header="
    ∷ range
    ∷ ", response="
    ∷ show_response r
    ∷ [])

-- What the range header adds to the result.
abbrev pub with_last :
    String → HttpResponse → ResumableUploadResponse → Option ℕ → ResumableUploadResponse
with_last range r result none = record result { annotations = cannot_parse range r }
with_last range r result (some n) = record result { last_committed_byte = n }

abbrev pub with_range :
    HttpResponse → ResumableUploadResponse → Option String → ResumableUploadResponse
with_range r result none = record result {
  annotations = concat (
      "ParseResponse() missing range header in resumable upload response, response="
      ∷ show_response r
      ∷ []);
}
with_range r result (some range) = with_last range r result (last_of_range range)

abbrev pub url_or_empty : Option String → String
url_or_empty none = ""
url_or_empty (some url) = url

abbrev pub is_done_code : ℕ → Bool
is_done_code code = (code == 200) || (code == 201)

-- The result before the range header is read.
abbrev pub unranged : HttpResponse → Option FileMetadata → ResumableUploadResponse
unranged r payload = record {
  upload_session_url = url_or_empty (find_header "location" r.headers);
  last_committed_byte = 0;
  payload = payload;
  upload_state = if is_done_code r.status_code then done else in_progress;
  annotations = "";
}

-- The response once its payload was parsed.
unfoldable pub upload_response : HttpResponse → Option FileMetadata → ResumableUploadResponse
unfolding find_header last_of_range
upload_response r payload = with_range r (unranged r payload) (find_header "range" r.headers)

abbrev pub with_metadata : HttpResponse → StatusOrVal FileMetadata → Reply
with_metadata r (failure e) = failure e
with_metadata r (value m) = value (upload_response r (some m))

-- `SetupBuilder` and the requests over libcurl: the headers that it adds, or its status, and the
-- response to a request with a URL, headers and a payload.
pub record Transport (W : Type 0) : Type 0 where
  pub set_up : W → StatusOrVal (List String) × W
  pub send : String → List String → ConstBufferSequence → W → StatusOrVal HttpResponse × W
  pub parse_file_metadata : String → StatusOrVal FileMetadata
  pub chunk_quantum : ℕ

-- `GetRangeHeader` of a chunk. The end of a range, in `uint64_t`, is written only if the payload is
-- not empty.
unfoldable pub get_range_header : UploadChunkRequest → String
get_range_header q =
    let size = total_bytes q.payload in
    concat (
      "Content-Range: bytes "
      ∷ (if size == 0
          then "*"
          else concat (to_string q.range_begin ∷ "-" ∷ to_string (q.range_begin + size - 1) ∷ []))
      ∷ (if not q.last_chunk then "/*" else concat ("/" ∷ to_string q.source_size ∷ []))
      ∷ [])

-- The headers of both requests.
abbrev pub chunk_headers : UploadChunkRequest → List String
chunk_headers q =
    get_range_header q
    ∷ "Content-Type: application/octet-stream"
    ∷ concat ("Content-Length: " ∷ to_string (total_bytes q.payload) ∷ [])
    ∷ "Transfer-Encoding:"
    ∷ []

abbrev pub query_headers : List String
query_headers =
    "Content-Range: bytes */*" ∷ "Content-Type: application/octet-stream" ∷ "Content-Length: 0" ∷ []

module _ {W : Type 0} (t : Transport W) where
  open t use {set_up, send, parse_file_metadata, chunk_quantum}

  -- `ParseResponse<ResumableUploadResponse>`.
  unfoldable pub parse_response : HttpResponse → Reply
  unfolding upload_response
  parse_response r =
      if is_done_code r.status_code && not (is_empty_text r.payload)
      then with_metadata r (parse_file_metadata r.payload)
      else value (upload_response r none)

  -- What both requests make of the response.
  abbrev pub after_response : StatusOrVal HttpResponse × W → Reply × W
  after_response (failure e, w) = (failure e, w)
  after_response (value r, w) =
      if ltb r.status_code min_not_success || r.status_code == resume_incomplete
      then (parse_response r, w)
      else (failure (as_status r), w)

  abbrev pub upload_set_up : UploadChunkRequest → StatusOrVal (List String) × W → Reply × W
  upload_set_up q (failure e, w) = (failure e, w)
  upload_set_up q (value common, w) =
      after_response (send q.upload_session_url (common ++ chunk_headers q) q.payload w)

  -- `UploadChunk`.
  unfoldable pub google_upload_chunk : UploadChunkRequest → W → Reply × W
  google_upload_chunk q w = upload_set_up q (set_up w)

  abbrev pub query_set_up : String → StatusOrVal (List String) × W → Reply × W
  query_set_up url (failure e, w) = (failure e, w)
  query_set_up url (value common, w) = after_response (send url (common ++ query_headers) [] w)

  -- `QueryResumableUpload`.
  unfoldable pub google_query_resumable_upload : String → W → Reply × W
  google_query_resumable_upload url w = query_set_up url (set_up w)

  -- The client, as a session calls it.
  abbrev pub google_drive_client : UploadClient W
  google_drive_client = record {
    client_upload_chunk = google_upload_chunk;
    query_resumable_upload = google_query_resumable_upload;
    file_chunk_quantum = λ w. chunk_quantum;
  }

-- `GetRangeHeader` of a download, by the options that are set: a range and an offset, a range, and
-- an offset or a number of last bytes.
abbrev pub from_there : ℤ → String
from_there offset = concat ("Range: bytes=" ∷ show_int offset ∷ "-" ∷ [])

abbrev pub from_offset_or_last : Option ℤ → Option ℤ → String
from_offset_or_last none none = ""
from_offset_or_last none (some last) = concat ("Range: bytes=-" ∷ show_int last ∷ [])
from_offset_or_last (some (pos zero)) none = ""
from_offset_or_last (some (pos zero)) (some last) = concat ("Range: bytes=-" ∷ show_int last ∷ [])
from_offset_or_last (some (pos (suc n))) last = from_there (pos (suc n))
from_offset_or_last (some (negsuc n)) last = from_there (negsuc n)

abbrev pub max_ℤ : ℤ → ℤ → ℤ
max_ℤ a b = if ltb_ℤ a b then b else a

abbrev pub between : ℤ → ℤ → String
between first end = concat ("Range: bytes=" ∷ show_int first ∷ "-" ∷ show_int (end -ℤ pos 1) ∷ [])

unfoldable pub get_read_range_header : ReadRequest → String
get_read_range_header q = elim q.read_range [
  | none ↦ from_offset_or_last q.read_from_offset q.read_last
  | some (first, end) ↦ elim q.read_from_offset [
    | none ↦ between first end
    | some offset ↦ between (max_ℤ first offset) end
  ]
]
