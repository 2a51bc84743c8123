-- ===== src/Http.antt =====
-- HTTP responses and their mapping to statuses: include/cloudstorageapi/internal/http_response.h
-- and src/transport/http_response.cpp.
pub mod Mapping
mod Tests
use cloudstorageapi.Prelude.{
  ℕ, Bool, ◌&&◌, String, List, [], ◌∷◌, ltb, leb, ◌==◌, if◌then◌else◌, concat, to_string,
}
use cloudstorageapi.Status.{
  Status, StatusCode, ok, unknown, invalid_argument, not_found, permission_denied, unauthenticated,
  failed_precondition, aborted, out_of_range, internal, unavailable,
}

-- `struct HttpResponse`; the multimap is the list of its entries.
pub record HttpResponse : Type 0 where
  pub status_code : ℕ
  pub payload : String
  pub headers : List (String × String)

-- `enum HttpStatusCode`, the limits of its ranges.
abbrev pub min_continue : ℕ
min_continue = 100

abbrev pub min_success : ℕ
min_success = 200

abbrev pub min_redirects : ℕ
min_redirects = 300

-- The enumerator that marks everything from here on as no success.
abbrev pub min_not_success : ℕ
min_not_success = 300

abbrev pub min_request_errors : ℕ
min_request_errors = 400

abbrev pub min_internal_errors : ℕ
min_internal_errors = 500

abbrev pub min_invalid_code : ℕ
min_invalid_code = 600

abbrev pub resume_incomplete : ℕ
resume_incomplete = 308

abbrev at : StatusCode → HttpResponse → Status
at c r = record { code = c; message = r.payload }

-- The tests of `AsStatus` from 500 on.
as_status_5xx : HttpResponse → Status
as_status_5xx r =
    if r.status_code == 500
    then at unavailable r
    else if r.status_code == 502
    then at unavailable r
    else if r.status_code == 503
    then at unavailable r
    else if leb min_internal_errors r.status_code && ltb r.status_code min_invalid_code
    then at internal r
    else at unknown r

-- The tests of `AsStatus` from 409 on.
as_status_409 : HttpResponse → Status
unfolding as_status_5xx
as_status_409 r =
    if r.status_code == 409
    then at aborted r
    else if r.status_code == 410
    then at not_found r
    else if r.status_code == 411
    then at invalid_argument r
    else if r.status_code == 412
    then at failed_precondition r
    else if r.status_code == 413
    then at out_of_range r
    else if r.status_code == 416
    then at out_of_range r
    else if r.status_code == 429
    then at unavailable r
    else if leb min_request_errors r.status_code && ltb r.status_code min_internal_errors
    then at invalid_argument r
    else as_status_5xx r

-- The tests of `AsStatus` from 400 on.
as_status_4xx : HttpResponse → Status
unfolding as_status_409
as_status_4xx r =
    if r.status_code == 400
    then at invalid_argument r
    else if r.status_code == 401
    then at unauthenticated r
    else if r.status_code == 403
    then at permission_denied r
    else if r.status_code == 404
    then at not_found r
    else if r.status_code == 405
    then at permission_denied r
    else if r.status_code == 408
    then at unavailable r
    else as_status_409 r

-- `AsStatus(HttpResponse const&)`, its tests in the order of the source.
unfoldable pub as_status : HttpResponse → Status
unfolding as_status_4xx
as_status r =
    if ltb r.status_code min_continue
    then at unknown r
    else if leb min_continue r.status_code && ltb r.status_code min_success
    then record { code = ok; message = "" }
    else if leb min_success r.status_code && ltb r.status_code min_redirects
    then record { code = ok; message = "" }
    else if r.status_code == resume_incomplete
    then at failed_precondition r
    else if r.status_code == 304
    then at failed_precondition r
    else if leb min_redirects r.status_code && ltb r.status_code min_request_errors
    then at unknown r
    else as_status_4xx r

-- The headers in `operator<<`, with the separator in front of all but the first.
show_headers : String → List (String × String) → String
show_headers sep [] = ""
show_headers sep ((k, v) ∷ more) = concat (sep ∷ k ∷ ": " ∷ v ∷ show_headers ", " more ∷ [])

-- `operator<<` on a response.
unfoldable pub show_response : HttpResponse → String
unfolding show_headers
show_response r = concat (
    "m_statusCode="
    ∷ to_string r.status_code
    ∷ ", {"
    ∷ show_headers "" r.headers
    ∷ "}, payload=<"
    ∷ r.payload
    ∷ ">"
    ∷ [])
