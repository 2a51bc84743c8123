-- ===== src/RetryClient/Calls.antt =====
-- What the methods of the client return, told from the outcomes of the raw client's calls.
use cloudstorageapi.Prelude.{ℕ, pos, ◌+◌, ◌≡◌, ◌≤◌, refl, ◌∙◌, ap, some, List, length}
use cloudstorageapi.Status.{StatusOrVal}
use cloudstorageapi.Policy.{World, BackoffPolicy, limited_error_count, clone_retry, clone_backoff}
use cloudstorageapi.Retry.{before_first_attempt}
use cloudstorageapi.Retry.Attempts.{Foretells, expected, used, make_call-expected}
use cloudstorageapi.RetryClient.{
  Method, get_user_info, delete, list_folder, get_folder_metadata, create_folder, rename_folder,
  patch_folder_metadata, get_file_metadata, patch_file_metadata, rename_file, insert_file,
  restore_resumable_session, delete_resumable_upload, copy_file_object, get_quota, method_name,
  RetryClient, cloned, alone, retried, call_method,
}

-- A client whose prototype may have counted failures already.
abbrev pub counting_client : ℕ → ℕ → BackoffPolicy → RetryClient
counting_client failures maximum b = record {
  retry_prototype = limited_error_count failures (pos maximum);
  backoff_prototype = b;
}

-- Each method is the retried call of the raw client's method, under its own name.
call_method-retried :
    {W : Type 0} {Request Answer : Method → Type 0} (world : World W) (client : RetryClient)
    (raw : (m : Method) → Request m → W → StatusOrVal (Answer m) × W) (m : Method) (q : Request m)
    (fuel : ℕ) (w : W)
    → call_method world client raw m q fuel w
      ≡ retried world client (method_name m) (raw m q) fuel w
unfolding call_method method_name
call_method-retried world client raw get_user_info q fuel w = refl
call_method-retried world client raw delete q fuel w = refl
call_method-retried world client raw list_folder q fuel w = refl
call_method-retried world client raw get_folder_metadata q fuel w = refl
call_method-retried world client raw create_folder q fuel w = refl
call_method-retried world client raw rename_folder q fuel w = refl
call_method-retried world client raw patch_folder_metadata q fuel w = refl
call_method-retried world client raw get_file_metadata q fuel w = refl
call_method-retried world client raw patch_file_metadata q fuel w = refl
call_method-retried world client raw rename_file q fuel w = refl
call_method-retried world client raw insert_file q fuel w = refl
call_method-retried world client raw restore_resumable_session q fuel w = refl
call_method-retried world client raw delete_resumable_upload q fuel w = refl
call_method-retried world client raw copy_file_object q fuel w = refl
call_method-retried world client raw get_quota q fuel w = refl

-- Each method of a client whose policy allows `n` failures, however many the prototype has counted:
-- it returns the first value or permanent failure among the outcomes of the first `n + 1` calls of the
-- raw client's method of the same name with the same request, and else the last failure, and makes no
-- call after that one.
pub call_method-expected :
    {W : Type 0} {Request Answer : Method → Type 0} (world : World W)
    (raw : (m : Method) → Request m → W → StatusOrVal (Answer m) × W) (m : Method) (q : Request m)
    (outcomes : W → List (StatusOrVal (Answer m))) (failures n : ℕ) (b : BackoffPolicy) (w : W)
    → Foretells world (raw m q) outcomes
    → n + 1 ≤ length (outcomes w)
    → (w' : W) × (call_method world (counting_client failures n b) raw m q (n + 2) w
        ≡ some (expected (method_name m) (n + 1) before_first_attempt (outcomes w), w'))
      × (length (outcomes w') + used (n + 1) (outcomes w) ≡ length (outcomes w))
unfolding retried cloned clone_retry
call_method-expected world raw m q outcomes failures n b w foretells h =
    let (l, result, calls) =
      make_call-expected world (method_name m) (raw m q) outcomes foretells n (clone_backoff b) w
        h in
    (
      l.world_state,
      call_method-retried world (counting_client failures n b) raw m q (n + 2) w
          ∙ ap (alone world (counting_client failures n b)) result,
      calls,
    )
