-- ===== src/Upload/RetrySession.antt =====
-- `RetryResumableUploadSession`: src/transport/retry_resumable_upload_session.cpp. A session that
-- retries what the session below it fails to do.
pub mod Pauses
pub mod Rounds
pub mod Delivery
pub mod Patience
pub mod Shrinks
pub mod Termination
mod Tests
use cloudstorageapi.Prelude.{
  ℕ, zero, suc, ◌+◌, ◌-◌, ◌%◌, ◌^◌, Bool, true, false, Option, none, some, String, [], ◌∷◌, ltb,
  ◌==◌, if◌then◌else◌, concat, to_string,
}
use cloudstorageapi.Status.{
  Status, StatusOrVal, value, failure, internal, unavailable, is_ok, ok_status, show_status,
}
use cloudstorageapi.Policy.{
  World, RetryPolicy, BackoffPolicy, clone_retry, clone_backoff, is_exhausted, on_failure,
  on_completion,
}
use cloudstorageapi.Retry.{Lent, before_first_attempt, permanent_error, exhausted_error}
use cloudstorageapi.Buffers.{ConstBufferSequence, total_bytes, pop_front_bytes}
use cloudstorageapi.Upload.{
  Reply, Session, ResumableUploadResponse, is_done_state, show_upload_response,
}

-- A function returns its result, or throws: the constructor of `StatusOrVal` throws
-- `std::invalid_argument` on an OK status.
pub data Outcome : Type 0 where
  returned : Reply → Outcome
  thrown : Outcome

-- `return Status(…)` from a function that returns a `StatusOrVal`.
abbrev pub return_status : Status → Outcome
return_status s = if is_ok s then thrown else returned (failure s)

-- `uint64_t` subtraction.
abbrev pub sub_64 : ℕ → ℕ → ℕ
sub_64 a b = (a + 2 ^ 64 - b) % 2 ^ 64

show_last_response : Reply → String
show_last_response (failure s) = concat (", lastResponse.status=" ∷ show_status s ∷ [])
show_last_response (value r) = concat (", lastResponse.value=" ∷ show_upload_response r ∷ [])

-- The status for a server that takes back what it has confirmed.
taken_back : String → ℕ → ℕ → Reply → Status
unfolding show_last_response
taken_back caller next_byte new_next_byte last = record {
  code = internal;
  message = concat (
      caller
      ∷ ": server previously confirmed "
      ∷ to_string next_byte
      ∷ " bytes as committed, but the current response only reports "
      ∷ to_string new_next_byte
      ∷ " bytes as committed."
      ∷ " This is most likely a bug in the CSA client library, possibly"
      ∷ " related to parsing the server response."
      ∷ " Please report it at"
      ∷ " https://github.com/awkv/cloudstorageapi/issues/new"
      ∷ "    Include as much information as you can including this message"
      ∷ show_last_response last
      ∷ []);
}

short_write : ℕ → ℕ → ℕ → Status
short_write next_byte current total = record {
  code = unavailable;
  message = concat (
      "Short write. Previous nextByte="
      ∷ to_string next_byte
      ∷ ", current nextByte="
      ∷ to_string current
      ∷ ", intended to write="
      ∷ to_string total
      ∷ ", wrote="
      ∷ to_string (sub_64 current next_byte)
      ∷ []);
}

-- The variables of `UploadGenericChunk`.
pub record Vars (S : Type 0) : Type 0 where
  pub buffers : ConstBufferSequence
  pub next_byte : ℕ
  pub last_status : Status
  pub lent : Lent S

-- What a round of a loop leads to.
pub data Next (S : Type 0) (V : Type 0) : Type 0 where
  stop : Outcome → Lent S → Next S V
  go : V → Next S V
  no_fuel : Next S V

module _ {S : Type 0} (world : World S) (session : Session S) where
  open session use {
    upload_chunk, upload_final_chunk, reset_session, next_expected_byte, last_response,
  }

  -- `ReturnError` looks at the policy once more for its message.
  pub return_error : Status → String → Lent S → Outcome × Lent S
  return_error last name l =
      let (exhausted, s) = is_exhausted world l.retry l.world_state in
      (
        return_status (if exhausted then exhausted_error name last else permanent_error name last),
        record l { world_state = s },
      )

  -- After a failure: `OnFailure` and, if it allows another attempt, the sleep.
  pub fail_or_sleep : String → Status → Lent S → Next S (Lent S)
  fail_or_sleep name status l =
      let (go_on, p, s) = on_failure world l.retry status l.world_state in
      let (delay, b, s') = on_completion world l.backoff s in
      let (outcome, l') =
        return_error status name (record { retry = p; backoff = l.backoff; world_state = s }) in
      if go_on
      then go (record { retry = p; backoff = b; world_state = world.sleep_for delay s' })
      else stop outcome l'

  -- What follows the call of `m_session->ResetSession()`.
  pub after_reset : Reply × S → Lent S → Next S (Status × Lent S)
  after_reset (value r, s) l = stop (returned (value r)) (record l { world_state = s })
  after_reset (failure status, s) l =
      elim (fail_or_sleep "ResetSession" status (record l { world_state = s })) [
        | stop outcome l' ↦ stop outcome l'
        | go l' ↦ go (status, l')
        | no_fuel ↦ no_fuel
      ]

  -- One round of the loop of `ResetSession(retryPolicy, backoffPolicy, lastStatus)`, with its test.
  pub reset_round : Status → Lent S → Next S (Status × Lent S)
  reset_round last l =
      let (exhausted, s) = is_exhausted world l.retry l.world_state in
      let here : Lent S = record l { world_state = s } in
      if exhausted
      then stop (return_status (exhausted_error "ResetSession" last)) here
      else after_reset (reset_session s) here

  -- The loop; `none` means that the fuel ran out.
  pub reset_loop : ℕ → Status → Lent S → Option (Outcome × Lent S)
  reset_loop zero last l = none
  reset_loop (suc fuel) last l = elim (reset_round last l) [
    | stop outcome l' ↦ some (outcome, l')
    | go (status, l') ↦ reset_loop fuel status l'
    | no_fuel ↦ none
  ]

  -- After the reset that follows a failed upload: go on with a cleared status, or return its error.
  pub resume : ConstBufferSequence → ℕ → Option (Outcome × Lent S) → Next S (Vars S)
  resume b n none = no_fuel
  resume b n (some (returned (value r), l)) =
      go (record { buffers = b; next_byte = n; last_status = ok_status; lent = l })
  resume b n (some (returned (failure status), l)) = stop (returned (failure status)) l
  resume b n (some (thrown, l)) = stop thrown l

  -- After an upload that failed.
  pub after_upload_failure : ℕ → ConstBufferSequence → ℕ → Status → Lent S → Next S (Vars S)
  after_upload_failure fuel b n status l = elim (fail_or_sleep "UploadGenericChunk" status l) [
    | stop outcome l' ↦ stop outcome l'
    | go l' ↦ resume b n (reset_loop fuel status l')
    | no_fuel ↦ no_fuel
  ]

  -- After an upload that succeeded: the upload is done, the whole chunk was written, or it was a
  -- short write, which is tried again without a delay.
  pub after_upload_success :
      ConstBufferSequence → ℕ → ResumableUploadResponse → Lent S → Next S (Vars S)
  after_upload_success b n r l =
      let current = next_expected_byte l.world_state in
      let total = total_bytes b in
      if is_done_state r.upload_state
      then stop (returned (value r)) l
      else if sub_64 current n == total
      then stop (returned (value r)) l
      else go (record {
        buffers = b;
        next_byte = n;
        last_status = short_write n current total;
        lent = l;
      })

  -- What follows the call of `upload`.
  pub after_upload : ℕ → ConstBufferSequence → ℕ → Reply × S → Lent S → Next S (Vars S)
  after_upload fuel b n (value r, s) l = after_upload_success b n r (record l { world_state = s })
  after_upload fuel b n (failure status, s) l =
      after_upload_failure fuel b n status (record l { world_state = s })

  -- `caller` and `upload` are the parameters of `UploadGenericChunk`.
  module _ (caller : String) (upload : ConstBufferSequence → S → Reply × S) where
    -- The round after the policy's test: drop what the server has confirmed, and upload the rest.
    pub upload_rest : ℕ → Vars S → Next S (Vars S)
    upload_rest fuel v =
        let s = v.lent.world_state in
        let new_next_byte = next_expected_byte s in
        let rest =
          if ltb v.next_byte new_next_byte
          then pop_front_bytes v.buffers (new_next_byte - v.next_byte)
          else v.buffers in
        if ltb new_next_byte v.next_byte
        then stop
            (returned (failure (taken_back caller v.next_byte new_next_byte (last_response s))))
            v.lent
        else after_upload fuel rest new_next_byte (upload rest s) v.lent

    -- One round of the loop of `UploadGenericChunk`, with its test.
    pub upload_round : ℕ → Vars S → Next S (Vars S)
    upload_round fuel v =
        let (exhausted, s) = is_exhausted world v.lent.retry v.lent.world_state in
        let here : Lent S = record v.lent { world_state = s } in
        if exhausted
        then stop (return_status (exhausted_error caller v.last_status)) here
        else upload_rest fuel (record v { lent = here })

    -- The loop; a round's fuel serves the loop of `ResetSession` in it.
    pub upload_loop : ℕ → Vars S → Option (Outcome × S)
    upload_loop zero v = none
    upload_loop (suc fuel) v = elim (upload_round fuel v) [
      | stop outcome l ↦ some (outcome, l.world_state)
      | go v' ↦ upload_loop fuel v'
      | no_fuel ↦ none
    ]

  -- The prototypes of the policies, which every call clones.
  module _ (retry_prototype : RetryPolicy) (backoff_prototype : BackoffPolicy) where
    pub lend : S → Lent S
    lend s =
        let (p, s') = clone_retry world retry_prototype s in
        record { retry = p; backoff = clone_backoff backoff_prototype; world_state = s' }

    -- `UploadGenericChunk`.
    pub upload_generic_chunk :
        ℕ
        → String
        → ConstBufferSequence
        → (ConstBufferSequence → S → Reply × S)
        → S
        → Option (Outcome × S)
    upload_generic_chunk fuel caller b upload s = upload_loop caller upload fuel (record {
      buffers = b;
      next_byte = next_expected_byte s;
      last_status = before_first_attempt;
      lent = lend s;
    })

    -- `UploadChunk`.
    unfoldable pub retry_upload_chunk : ℕ → ConstBufferSequence → S → Option (Outcome × S)
    retry_upload_chunk fuel b s = upload_generic_chunk fuel "UploadChunk" b upload_chunk s

    -- `UploadFinalChunk`.
    pub retry_upload_final_chunk : ℕ → ConstBufferSequence → ℕ → S → Option (Outcome × S)
    retry_upload_final_chunk fuel b size s =
        upload_generic_chunk fuel "UploadFinalChunk" b (λ c. upload_final_chunk c size) s

    -- `ResetSession()`.
    pub retry_reset_session : ℕ → S → Option (Outcome × S)
    retry_reset_session fuel s = elim (reset_loop fuel before_first_attempt (lend s)) [
      | none ↦ none
      | some (outcome, l) ↦ some (outcome, l.world_state)
    ]
