-- ===== src/Http/Mapping.antt =====
-- What the mapping of HTTP codes to statuses means for the callers that test and retry.
use cloudstorageapi.Prelude.{ℕ, ◌≡◌, ◌↔◌, ◌⊎◌, ◌≤◌, ◌<◌, true, false, arith}
use cloudstorageapi.Status.{is_permanent_failure, is_ok}
use cloudstorageapi.Http.{HttpResponse, as_status}

-- A response maps to an OK status exactly when its code is in [100, 300).
pub as_status-Ok :
    (r : HttpResponse)
    → (is_ok (as_status r) ≡ true) ↔ ((100 ≤ r.status_code) × (r.status_code < 300))
unfolding as_status
as_status-Ok r = (λ h. ground arith, λ h. ground arith)

-- The codes after which a call is retried.
abbrev pub IsRetryable : ℕ → Type 0
IsRetryable c = (c ≡ 408) ⊎ (c ≡ 429) ⊎ ((500 ≤ c) × (c < 600))

-- The status of a response is not a permanent failure exactly when its code is 408, 429 or in
-- [500, 600).
pub as_status-Retryable :
    (r : HttpResponse) → (is_permanent_failure (as_status r) ≡ false) ↔ IsRetryable r.status_code
unfolding as_status is_permanent_failure
as_status-Retryable r = (λ h. ground arith, λ h. ground arith)
