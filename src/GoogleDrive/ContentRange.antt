-- ===== src/GoogleDrive/ContentRange.antt =====
-- The header that tells a server the range of a chunk, described as RFC 7233 has it: the numbers of
-- the first and the last byte, or an asterisk if there is none, and the size of the whole or an
-- asterisk; `GetRangeHeader` of src/transport/clients/google_utils.cpp writes it.
use cloudstorageapi.Prelude.{
  ℕ, ◌+◌, ◌-◌, ◌<◌, ◌≡◌, refl, subst, ◌⊎◌, inl, inr, true, false, not, ◌==◌, if◌then◌else◌,
  Bool-cases, Option, none, some, String, concat, to_string, List, [], ◌∷◌, ◌++◌, arith, length,
}
use cloudstorageapi.Buffers.{bytes, total_bytes}
use cloudstorageapi.Buffers.Bytes.{total_bytes-length}
use cloudstorageapi.Upload.CurlSession.{UploadChunkRequest}
use cloudstorageapi.GoogleDrive.{get_range_header}

-- The text of a range of `size` bytes from byte `begin` on.
abbrev pub ByteRange : ℕ → ℕ → String → Type 0
ByteRange begin size text =
    ((size ≡ 0) × (text ≡ "*"))
    ⊎ ((last : ℕ) × (0 < size)
        × (last + 1 ≡ begin + size)
        × (text ≡ concat (to_string begin ∷ "-" ∷ to_string last ∷ [])))

abbrev pub total_text : Option ℕ → String
total_text none = "/*"
total_text (some total) = concat ("/" ∷ to_string total ∷ [])

-- The header that tells such a range, and the size of the whole if it is known.
abbrev pub ContentRange : ℕ → ℕ → Option ℕ → String → Type 0
ContentRange begin size total header =
    (range : String) × ByteRange begin size range
    × (header ≡ concat ("Content-Range: bytes " ∷ range ∷ total_text total ∷ []))

-- The headers of a request that brings `size` bytes.
abbrev pub request_headers : List String → String → ℕ → List String
request_headers common header size =
    common
    ++ (header
        ∷ "Content-Type: application/octet-stream"
        ∷ concat ("Content-Length: " ∷ to_string size ∷ [])
        ∷ "Transfer-Encoding:"
        ∷ [])

abbrev pub total_of : UploadChunkRequest → Option ℕ
total_of q = if not q.last_chunk then none else some q.source_size

-- The code writes the range that its chunk has.
pub get_range_header-ContentRange :
    (q : UploadChunkRequest)
    → ContentRange q.range_begin (length (bytes q.payload)) (total_of q) (get_range_header q)
unfolding get_range_header
get_range_header-ContentRange q =
    subst (λ n. ContentRange q.range_begin n (total_of q) (get_range_header q))
      (total_bytes-length q.payload)
      (elim (Bool-cases (total_bytes q.payload == 0)) [
        | inl empty ↦ rw (empty) ("*", inl (zero_of empty, refl), ended "*")
        | inr some_bytes ↦ rw (some_bytes) (
          concat (to_string q.range_begin ∷ "-" ∷ to_string last ∷ []),
          inr (last, many some_bytes, ends some_bytes, refl),
          ended (concat (to_string q.range_begin ∷ "-" ∷ to_string last ∷ [])),
        )
      ])
  where
    last : ℕ
    last = q.range_begin + total_bytes q.payload - 1

    zero_of : (total_bytes q.payload == 0) ≡ true → total_bytes q.payload ≡ 0
    zero_of h = ground arith

    many : (total_bytes q.payload == 0) ≡ false → 0 < total_bytes q.payload
    many h = ground arith

    ends : (total_bytes q.payload == 0) ≡ false → last + 1 ≡ q.range_begin + total_bytes q.payload
    ends h = ground arith

    ended :
        (range : String)
        → concat (
            "Content-Range: bytes "
            ∷ range
            ∷ (if not q.last_chunk then "/*" else concat ("/" ∷ to_string q.source_size ∷ []))
            ∷ [])
          ≡ concat ("Content-Range: bytes " ∷ range ∷ total_text (total_of q) ∷ [])
    ended range = elim (Bool-cases q.last_chunk) [ inl e ↦ rw (e) refl | inr e ↦ rw (e) refl ]
