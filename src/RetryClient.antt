-- ===== src/RetryClient.antt =====
-- The methods of `RetryClient` in src/transport/retry_client.cpp, over any raw client, which is a
-- function from its methods, with the types of their requests and answers. Every method clones the
-- prototypes of the policies and hands the raw client's method of its name to `MakeCall`.
pub mod Calls
pub mod Budget
mod Tests
use cloudstorageapi.Prelude.{ℕ, Option, none, some, String}
use cloudstorageapi.Status.{StatusOrVal, value, failure}
use cloudstorageapi.Policy.{World, RetryPolicy, BackoffPolicy, clone_retry, clone_backoff}
use cloudstorageapi.Retry.{Lent, make_call}
use cloudstorageapi.ReadSource.{ReadRequest, ReadSource, make_read_source}

-- The methods that return what `MakeCall` returns.
pub data Method : Type 0 where
  get_user_info delete list_folder get_folder_metadata create_folder rename_folder : Method
  patch_folder_metadata get_file_metadata patch_file_metadata rename_file insert_file : Method
  restore_resumable_session delete_resumable_upload copy_file_object get_quota : Method

-- The names of the methods.
pub method_name : Method → String
method_name get_user_info = "GetUserInfo"
method_name delete = "Delete"
method_name list_folder = "ListFolder"
method_name get_folder_metadata = "GetFolderMetadata"
method_name create_folder = "CreateFolder"
method_name rename_folder = "RenameFolder"
method_name patch_folder_metadata = "PatchFolderMetadata"
method_name get_file_metadata = "GetFileMetadata"
method_name patch_file_metadata = "PatchFileMetadata"
method_name rename_file = "RenameFile"
method_name insert_file = "InsertFile"
method_name restore_resumable_session = "RestoreResumableSession"
method_name delete_resumable_upload = "DeleteResumableUpload"
method_name copy_file_object = "CopyFileObject"
method_name get_quota = "GetQuota"

-- `RetryClient`, without the client that it wraps.
pub record RetryClient : Type 0 where
  pub retry_prototype : RetryPolicy
  pub backoff_prototype : BackoffPolicy

-- A value with the policies that go on to live in it.
pub record WithPolicies (A : Type 0) : Type 0 where
  pub wrapped : A
  pub retry : RetryPolicy
  pub backoff : BackoffPolicy

module _ {W : Type 0} (world : World W) (client : RetryClient) where
  open client use {retry_prototype, backoff_prototype}

  -- The clones of both policies.
  unfoldable pub cloned : W → Lent W
  cloned w =
      let (p, w') = clone_retry world retry_prototype w in
      record { retry = p; backoff = clone_backoff backoff_prototype; world_state = w' }

  abbrev pub alone : {A : Type 0} → Option (StatusOrVal A × Lent W) → Option (StatusOrVal A × W)
  alone none = none
  alone (some (r, l)) = some (r, l.world_state)

  abbrev pub with_policies :
      {A : Type 0} → Option (StatusOrVal A × Lent W) → Option (StatusOrVal (WithPolicies A) × W)
  with_policies none = none
  with_policies (some (failure e, l)) = some (failure e, l.world_state)
  with_policies (some (value a, l)) =
      some (value (record { wrapped = a; retry = l.retry; backoff = l.backoff }), l.world_state)

  -- The clones, and `MakeCall` of a call that is bound to its request.
  unfoldable pub retried :
      {A : Type 0} → String → (W → StatusOrVal A × W) → ℕ → W → Option (StatusOrVal A × W)
  unfolding cloned
  retried name call fuel w = alone (make_call world name call fuel (cloned w))

  -- The methods, each of which calls the raw client's method of its name; `GetUserInfo` and `GetQuota`
  -- take no request, so that theirs is a unit.
  unfoldable pub call_method :
      {Request Answer : Method → Type 0}
      → ((m : Method) → Request m → W → StatusOrVal (Answer m) × W)
      → (m : Method) → Request m
      → ℕ
      → W
      → Option (StatusOrVal (Answer m) × W)
  unfolding retried
  call_method raw get_user_info q = retried "GetUserInfo" (raw get_user_info q)
  call_method raw delete q = retried "Delete" (raw delete q)
  call_method raw list_folder q = retried "ListFolder" (raw list_folder q)
  call_method raw get_folder_metadata q = retried "GetFolderMetadata" (raw get_folder_metadata q)
  call_method raw create_folder q = retried "CreateFolder" (raw create_folder q)
  call_method raw rename_folder q = retried "RenameFolder" (raw rename_folder q)
  call_method raw patch_folder_metadata q =
      retried "PatchFolderMetadata" (raw patch_folder_metadata q)
  call_method raw get_file_metadata q = retried "GetFileMetadata" (raw get_file_metadata q)
  call_method raw patch_file_metadata q = retried "PatchFileMetadata" (raw patch_file_metadata q)
  call_method raw rename_file q = retried "RenameFile" (raw rename_file q)
  call_method raw insert_file q = retried "InsertFile" (raw insert_file q)
  call_method raw restore_resumable_session q =
      retried "RestoreResumableSession" (raw restore_resumable_session q)
  call_method raw delete_resumable_upload q =
      retried "DeleteResumableUpload" (raw delete_resumable_upload q)
  call_method raw copy_file_object q = retried "CopyFileObject" (raw copy_file_object q)
  call_method raw get_quota q = retried "GetQuota" (raw get_quota q)

  -- `CreateResumableSession`: the policies that served the call become those of the session.
  unfoldable pub create_resumable_session :
      {A : Type 0} → (W → StatusOrVal A × W) → ℕ → W → Option (StatusOrVal (WithPolicies A) × W)
  create_resumable_session create fuel w =
      with_policies (make_call world "CreateResumableSession" create fuel (cloned w))

  -- `ReadFileNotWrapped`, which borrows the policies.
  unfoldable pub read_file_not_wrapped :
      {C : Type 0}
      → (ReadRequest → W → StatusOrVal C × W)
      → ℕ
      → ReadRequest
      → Lent W
      → Option (StatusOrVal C × Lent W)
  read_file_not_wrapped read fuel q l = make_call world "ReadFileNotWrapped" (read q) fuel l

  abbrev pub read_source_of :
      {C : Type 0}
      → ReadRequest
      → Option (StatusOrVal (WithPolicies C) × W)
      → Option (StatusOrVal (WithPolicies (ReadSource C)) × W)
  read_source_of q none = none
  read_source_of q (some (failure e, w)) = some (failure e, w)
  read_source_of q (some (value c, w)) = some (
    value (record { wrapped = make_read_source q c.wrapped; retry = c.retry; backoff = c.backoff }),
    w,
  )

  -- `ReadFile`: the source, with the policies that served the call.
  unfoldable pub read_file :
      {C : Type 0}
      → (ReadRequest → W → StatusOrVal C × W)
      → ℕ
      → ReadRequest
      → W
      → Option (StatusOrVal (WithPolicies (ReadSource C)) × W)
  unfolding read_file_not_wrapped
  read_file read fuel q w =
      read_source_of q (with_policies (read_file_not_wrapped read fuel q (cloned w)))
