-- ===== src/Status.antt =====
-- Status codes, statuses and results: include/cloudstorageapi/status.h, status_or_val.h and
-- src/status.cpp, and the permanent failures of include/cloudstorageapi/retry_policy.h.
use cloudstorageapi.Prelude.{
  ℕ, Bool, true, false, not, ◌&&◌, Option, none, some, String, [], ◌∷◌, ◌==◌, if◌then◌else◌, concat,
}

-- `enum class StatusCode`.
pub data StatusCode : Type 0 where
  ok cancelled unknown invalid_argument deadline_exceeded not_found already_exists : StatusCode
  permission_denied unauthenticated resource_exhausted failed_precondition aborted : StatusCode
  out_of_range unimplemented internal unavailable data_loss : StatusCode

-- The numbers that the enumeration gives to the codes.
unfoldable pub code_number : StatusCode → ℕ
code_number ok = 0
code_number cancelled = 1
code_number unknown = 2
code_number invalid_argument = 3
code_number deadline_exceeded = 4
code_number not_found = 5
code_number already_exists = 6
code_number permission_denied = 7
code_number unauthenticated = 16
code_number resource_exhausted = 8
code_number failed_precondition = 9
code_number aborted = 10
code_number out_of_range = 11
code_number unimplemented = 12
code_number internal = 13
code_number unavailable = 14
code_number data_loss = 15

-- `==` and `!=` on the enumeration compare the numbers.
abbrev pub same_code : StatusCode → StatusCode → Bool
unfolding code_number
same_code a b = code_number a == code_number b

-- `StatusCodeToString`; the source's default case is for a number outside the enumeration.
unfoldable pub status_code_to_string : StatusCode → String
status_code_to_string ok = "OK"
status_code_to_string cancelled = "CANCELLED"
status_code_to_string unknown = "UNKNOWN"
status_code_to_string invalid_argument = "INVALID_ARGUMENT"
status_code_to_string deadline_exceeded = "DEADLINE_EXCEEDED"
status_code_to_string not_found = "NOT_FOUND"
status_code_to_string already_exists = "ALREADY_EXISTS"
status_code_to_string permission_denied = "PERMISSION_DENIED"
status_code_to_string unauthenticated = "UNAUTHENTICATED"
status_code_to_string resource_exhausted = "RESOURCE_EXHAUSTED"
status_code_to_string failed_precondition = "FAILED_PRECONDITION"
status_code_to_string aborted = "ABORTED"
status_code_to_string out_of_range = "OUT_OF_RANGE"
status_code_to_string unimplemented = "UNIMPLEMENTED"
status_code_to_string internal = "INTERNAL"
status_code_to_string unavailable = "UNAVAILABLE"
status_code_to_string data_loss = "DATA_LOSS"

-- `class Status`.
pub record Status : Type 0 where
  pub code : StatusCode
  pub message : String

-- `Status()`.
abbrev pub ok_status : Status
ok_status = record { code = ok; message = "" }

-- `Status::Ok`.
abbrev pub is_ok_code : StatusCode → Bool
is_ok_code ok = true
is_ok_code _ = false

abbrev pub is_ok : Status → Bool
is_ok s = is_ok_code s.code

-- `operator<<` on a status.
unfoldable pub show_status : Status → String
show_status s = concat (s.message ∷ " [" ∷ status_code_to_string s.code ∷ "]" ∷ [])

-- `StatusOrVal<T>`: a value, or a status that is not OK. `from_status` is the constructor.
pub data StatusOrVal {ℓ} (A : Type ℓ) : Type ℓ where
  value : A → StatusOrVal A
  failure : Status → StatusOrVal A

-- The constructor from a status throws `std::invalid_argument` on an OK status (`none` here).
unfoldable pub from_status {ℓ} : {A : Type ℓ} → Status → Option (StatusOrVal A)
from_status s = if is_ok s then none else some (failure s)

-- `StatusOrVal()`.
abbrev pub default_result {ℓ} : {A : Type ℓ} → StatusOrVal A
default_result = failure (record { code = unknown; message = "default" })

-- `GetStatus()`.
abbrev pub get_status {ℓ} : {A : Type ℓ} → StatusOrVal A → Status
get_status (value a) = ok_status
get_status (failure s) = s

-- `StatusTraits::IsPermanentFailure`.
is_permanent_code : StatusCode → Bool
unfolding code_number
is_permanent_code c =
    not (same_code c deadline_exceeded)
    && not (same_code c internal)
    && not (same_code c resource_exhausted)
    && not (same_code c unavailable)

unfoldable pub is_permanent_failure : Status → Bool
unfolding is_permanent_code
is_permanent_failure s = is_permanent_code s.code
