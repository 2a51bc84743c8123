-- ===== src/GoogleDrive/Parsed.antt =====
-- What the client reads from a response to an upload.
use cloudstorageapi.Prelude.{
  ℕ, ◌-◌, ◌^◌, ◌≡◌, ◌≢◌, ◌≤◌, ◌<◌, refl, ap, ◌∙◌, ◌⊎◌, inl, inr, Bool, true, false, not, ◌&&◌, ◌||◌,
  Option, none, some, String, arith, ltb, ◌==◌, if◌then◌else◌, is_empty_text,
}
use cloudstorageapi.Status.{StatusOrVal, value, failure}
use cloudstorageapi.Http.{HttpResponse, min_not_success, resume_incomplete}
use cloudstorageapi.Metadata.{FileMetadata}
use cloudstorageapi.Upload.{ResumableUploadResponse, in_progress, done, Reply}
use cloudstorageapi.Upload.CurlSession.Committed.{Tells}
use cloudstorageapi.GoogleDrive.{
  Transport, last_of_range, unranged, find_header, is_done_code, with_metadata, with_range,
  with_last, upload_response, parse_response,
}
use cloudstorageapi.GoogleDrive.Numerals.{range_value, last_of_range-range_value}

-- A response to an upload that is not complete, of which the server holds `n` bytes: the range header
-- tells the last of them, and is missing if there is none. It cannot tell that there is just one
-- byte.
abbrev pub Incomplete : ℕ → HttpResponse → Type 0
Incomplete n r =
    (r.status_code ≡ resume_incomplete)
    × (((n ≡ 0) × (find_header "range" r.headers ≡ none))
        ⊎ ((1 < n) × (n ≤ 2 ^ 63) × (find_header "range" r.headers ≡ some (range_value (n - 1)))))

-- A response that does not report success, or an upload that is complete.
abbrev pub Refused : HttpResponse → Type 0
Refused r = (min_not_success ≤ r.status_code) × (r.status_code ≢ resume_incomplete)

pub clash : in_progress ≡ done → ⊥
clash e = cc e

with_range-state :
    (r : HttpResponse) (u : ResumableUploadResponse) (x : Option String)
    → (with_range r u x).upload_state ≡ u.upload_state
with_range-state r u none = refl
with_range-state r u (some v) = follow (last_of_range v)
  where
    follow : (x : Option ℕ) → (with_last v r u x).upload_state ≡ u.upload_state
    follow none = refl
    follow (some n) = refl

-- `ParseResponse` on a response to an upload that is not complete: what it tells.
pub Incomplete-parse_response :
    {W : Type 0} (t : Transport W) (n : ℕ) (r : HttpResponse)
    → Incomplete n r
    → (parse_response t r ≡ value (upload_response r none))
      × ((upload_response r none).upload_state ≡ in_progress)
      × Tells n (upload_response r none)
unfolding parse_response upload_response
Incomplete-parse_response t n r (code, tells) = (
  rw (not_done) refl,
  with_range-state r (unranged r none) (find_header "range" r.headers)
      ∙ ap (λ b. if b then done else in_progress) not_done,
  last tells,
)
  where
    not_done : is_done_code r.status_code ≡ false
    not_done = ap is_done_code code

    last :
        ((n ≡ 0) × (find_header "range" r.headers ≡ none))
          ⊎ ((1 < n) × (n ≤ 2 ^ 63) × (find_header "range" r.headers ≡ some (range_value (n - 1))))
        → Tells n (upload_response r none)
    last (inl (nothing, missing)) = (
      λ one. absurd (omega arith),
      ap (λ x. (with_range r (unranged r none) x).last_committed_byte) missing ∙ omega arith,
    )
    last (inr (many, small, tells)) = (
      λ one. absurd (omega arith),
      ap (λ x. (with_range r (unranged r none) x).last_committed_byte) tells
          ∙ ap (λ x. (with_last (range_value (n - 1)) r (unranged r none) x).last_committed_byte)
              (last_of_range-range_value (n - 1) (omega arith)),
    )

-- `ParseResponse` on a response to a complete upload: metadata that cannot be read, or the end.
unfoldable pub EndOr : Reply → Type 0
EndOr (failure e) = Unit {0}
EndOr (value u) = u.upload_state ≡ done

upload_response-done :
    (r : HttpResponse) (m : Option FileMetadata)
    → is_done_code r.status_code ≡ true
    → (upload_response r m).upload_state ≡ done
unfolding upload_response
upload_response-done r m finished =
    with_range-state r (unranged r m) (find_header "range" r.headers)
    ∙ ap (λ b. if b then done else in_progress) finished

pub complete-parse_response :
    {W : Type 0} (t : Transport W) (r : HttpResponse)
    → is_done_code r.status_code ≡ true
    → EndOr (parse_response t r)
unfolding parse_response EndOr
complete-parse_response t r finished =
    either_way (is_done_code r.status_code && not (is_empty_text r.payload))
  where
    follow : (x : StatusOrVal FileMetadata) → EndOr (with_metadata r x)
    follow (failure e) = tt
    follow (value m) = upload_response-done r (some m) finished

    either_way :
        (b : Bool)
        → EndOr (
            if b
            then with_metadata r (t.parse_file_metadata r.payload)
            else value (upload_response r none))
    either_way true = follow (t.parse_file_metadata r.payload)
    either_way false = upload_response-done r none finished

-- The test of the response's code.
abbrev pub goes_on : ℕ → Bool
goes_on code = ltb code min_not_success || code == resume_incomplete

pub Incomplete-goes_on :
    (r : HttpResponse) → r.status_code ≡ resume_incomplete → goes_on r.status_code ≡ true
Incomplete-goes_on r h = ap goes_on h

pub Refused-goes_on : (r : HttpResponse) → Refused r → goes_on r.status_code ≡ false
Refused-goes_on r (high, other) = ground arith

pub done-goes_on : (code : ℕ) → is_done_code code ≡ true → goes_on code ≡ true
done-goes_on code finished = ground arith
