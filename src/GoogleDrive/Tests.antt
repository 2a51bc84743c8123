-- ===== src/GoogleDrive/Tests.antt =====
-- The client for Google Drive over a server that keeps all it is sent.
use cloudstorageapi.Prelude.{
  none, pos, show_int, ◌-ℤ◌, ℕ, ◌-◌, ◌^◌, ◌≡◌, refl, sym, ap, ◌≤◌, ◌<◌, ◌⊎◌, inl, inr, true, false,
  ◌||◌, some, String, List, [], ◌∷◌, ◌++◌, arith, length, take_all, append-nil, ltb, ◌==◌,
  if◌then◌else◌, Bool-cases, concat, to_string, digit, digits_before, strip_prefix, same_text,
}
use cloudstorageapi.Status.{value, failure, internal}
use cloudstorageapi.Http.{HttpResponse}
use cloudstorageapi.Buffers.{bytes, total_bytes}
use cloudstorageapi.Upload.CurlSession.{upload_chunk_request}
use cloudstorageapi.Upload.CurlSession.Committed.{Protocol}
use cloudstorageapi.Rfc3339.Scan.{skip_space}
use cloudstorageapi.ReadSource.{ReadRequest, starting_byte}
use cloudstorageapi.GoogleDrive.Ranges.{AsksFrom, get_read_range_header-starting_byte}
use cloudstorageapi.GoogleDrive.{
  get_read_range_header, Transport, find_header, is_done_code, get_range_header,
  google_drive_client, last_of_range,
}
use cloudstorageapi.GoogleDrive.Numerals.{range_value, last_of_range-range_value}
use cloudstorageapi.GoogleDrive.Parsed.{Incomplete, Refused}
use cloudstorageapi.GoogleDrive.Follows.{Drive, google_drive_client-Protocol}

abbrev answer : List (String × String) → HttpResponse
answer headers = record { status_code = 308; payload = ""; headers = headers }

abbrev busy : HttpResponse
busy = record { status_code = 503; payload = "busy"; headers = [] }

-- It has no answer while it holds a single byte, or more than a number tells.
abbrev reply : ℕ → HttpResponse
reply n =
    if n == 0
    then answer []
    else if n == 1 || ltb (2 ^ 63) n
    then busy
    else answer (("range", range_value (n - 1)) ∷ [])

reply-told : (n : ℕ) → Incomplete n (reply n) ⊎ Refused (reply n)
unfolding find_header same_text strip_prefix
reply-told n = elim (Bool-cases (n == 0)) [
  | inl empty ↦ rw (empty) (inl (refl, inl (zero_of empty, refl)))
  | inr some_bytes ↦ rw (some_bytes) (elim (Bool-cases (n == 1 || ltb (2 ^ 63) n)) [
    | inl hard ↦ rw (hard) (inr (omega arith, λ e. absurd (omega arith)))
    | inr fine ↦ rw (fine) (inl (refl, inr (many some_bytes fine, small fine, refl)))
  ])
]
  where
    zero_of : (n == 0) ≡ true → n ≡ 0
    zero_of h = ground arith

    many : (n == 0) ≡ false → (n == 1 || ltb (2 ^ 63) n) ≡ false → 1 < n
    many h k = ground arith

    small : (n == 1 || ltb (2 ^ 63) n) ≡ false → n ≤ 2 ^ 63
    small k = ground arith

abbrev keeping : Transport (List ℕ)
keeping = record {
  set_up = λ w. (value ("Authorization: a" ∷ []), w);
  send = λ url headers b w. (value (reply (length (w ++ bytes b))), w ++ bytes b);
  parse_file_metadata = λ s. failure (record { code = internal; message = "" });
  chunk_quantum = 2;
}

abbrev all_held : List ℕ → List ℕ
all_held w = w

keeping-Drive : Drive all_held keeping
keeping-Drive = record {
  on_set_up = λ w. refl;
  on_chunk = λ url begin total b header common w h range. (
    length (bytes b),
    omega arith,
    ap (λ t. w ++ t) (sym (take_all (length (bytes b)) (bytes b) (omega arith))),
    told (length (w ++ bytes b)) (length (bytes b)) (length (bytes b))
        (reply (length (w ++ bytes b))) (reply-told (length (w ++ bytes b))),
  );
  on_query = λ url common w. (append-nil w, reply-told (length (w ++ [])));
}
  where
    told :
        (n k m : ℕ) (r : HttpResponse)
        → Incomplete n r ⊎ Refused r
        → Incomplete n r ⊎ (((is_done_code r.status_code ≡ true) × (k ≡ m)) ⊎ Refused r)
    told n k m r (inl h) = inl h
    told n k m r (inr h) = inr (inr h)

google_drive_client-Protocol_example : Protocol all_held (google_drive_client keeping)
google_drive_client-Protocol_example = google_drive_client-Protocol all_held keeping keeping-Drive

range_read : last_of_range "bytes=0-1048575" ≡ some 1048575
unfolding last_of_range strip_prefix skip_space
range_read = refl

range_header :
    get_range_header (upload_chunk_request "u" 256 ((1 ∷ 2 ∷ []) ∷ []))
    ≡ "Content-Range: bytes 256-257/*"
unfolding get_range_header concat to_string digits_before digit total_bytes
range_header = refl

last_of_range-range_value_example : last_of_range "bytes=0-1048575" ≡ some 1048575
unfolding concat to_string digits_before digit
last_of_range-range_value_example = last_of_range-range_value 1048575 (omega arith)

abbrev read_from_7 : ReadRequest
read_from_7 = record {
  read_range = some (pos 3, pos 20);
  read_from_offset = some (pos 7);
  read_last = none;
}

range_of_read : get_read_range_header read_from_7 ≡ "Range: bytes=7-19"
unfolding get_read_range_header concat show_int to_string digits_before digit ◌-ℤ◌
range_of_read = refl

get_read_range_header-starting_byte_example :
    AsksFrom (get_read_range_header read_from_7) (starting_byte read_from_7)
get_read_range_header-starting_byte_example =
    get_read_range_header-starting_byte read_from_7 refl tt tt
