-- ===== src/Http/Tests.antt =====
-- The mapping of HTTP codes at some responses.
use cloudstorageapi.Prelude.{ℕ, ◌≡◌, ◌↔◌, ◌≤◌, ◌<◌, [], true, false}
use cloudstorageapi.Status.{is_ok, is_permanent_failure}
use cloudstorageapi.Http.{HttpResponse, as_status}
use cloudstorageapi.Http.Mapping.{as_status-Ok, as_status-Retryable, IsRetryable}

abbrev response : ℕ → HttpResponse
response code = record { status_code = code; payload = "p"; headers = [] }

as_status-Ok_example : (is_ok (as_status (response 204)) ≡ true) ↔ ((100 ≤ 204) × (204 < 300))
as_status-Ok_example = as_status-Ok (response 204)

as_status-Retryable_example :
    (is_permanent_failure (as_status (response 429)) ≡ false) ↔ IsRetryable 429
as_status-Retryable_example = as_status-Retryable (response 429)
