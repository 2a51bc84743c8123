-- ===== src/RetryClient/Budget.antt =====
-- The policies of the sources that `ReadFile` makes and of the sessions of `CreateResumableSession`.
use cloudstorageapi.Prelude.{ℕ, pos, ◌≡◌, ◌≤◌, ◌<◌, ap, some, List, length}
use cloudstorageapi.Status.{Status, StatusOrVal, value}
use cloudstorageapi.Policy.{World, BackoffPolicy, limited_error_count, clone_retry, clone_backoff}
use cloudstorageapi.Policy.Failures.{AllTransient}
use cloudstorageapi.ReadSource.{ReadRequest, make_read_source}
use cloudstorageapi.Retry.Attempts.{Foretells}
use cloudstorageapi.Retry.Spent.{failing, make_call-spends}
use cloudstorageapi.RetryClient.{
  WithPolicies, cloned, with_policies, create_resumable_session, read_file_not_wrapped,
  read_source_of, read_file,
}
use cloudstorageapi.RetryClient.Calls.{counting_client}

-- A value whose policy has counted `failures` of the `n` that it allows.
abbrev pub spent : {A : Type 0} → A → ℕ → ℕ → BackoffPolicy → WithPolicies A
spent a failures n b = record {
  wrapped = a;
  retry = limited_error_count failures (pos n);
  backoff = b;
}

module _ {W A : Type 0} (world : World W) where
  -- `ReadFile` of a client whose policy allows `n` failures, when the raw client's calls with the
  -- request fail at most `n` times, never permanently, and then give a source: it returns the retrying
  -- source around that one, at the place that the request states, whose policy has these failures
  -- counted, however many the prototype had; it makes no call after the one that succeeds. The fuel is
  -- more than the failures.
  pub read_file-spends :
      (read : ReadRequest → W → StatusOrVal A × W) (q : ReadRequest)
      (outcomes : W → List (StatusOrVal A)) (failures n fuel : ℕ) (ss : List Status) (a : A)
      (os : List (StatusOrVal A)) (b : BackoffPolicy) (w : W)
      → Foretells world (read q) outcomes
      → AllTransient ss
      → length ss ≤ n
      → length ss < fuel
      → outcomes w ≡ failing ss a os
      → (b' : BackoffPolicy) × (w' : W) × (read_file world
            (counting_client failures n b)
            read
            fuel
            q
            w
          ≡ some (value (spent (make_read_source q a) (length ss) n b'), w'))
        × (outcomes w' ≡ os)
  unfolding read_file read_file_not_wrapped cloned clone_retry
  read_file-spends read q outcomes failures n fuel ss a os b w foretells transient few enough o =
      let (b', w', result, left) =
        make_call-spends world "ReadFileNotWrapped" (read q) outcomes foretells n fuel ss a os
          (clone_backoff b) w transient few enough o in
      (
        b',
        w',
        ap
            (λ x.
              read_source_of world (counting_client failures n b) q
                (with_policies world (counting_client failures n b) x))
            result,
        left,
      )

  -- `CreateResumableSession` of a client whose policy allows `n` failures, when the raw client's calls
  -- fail at most `n` times, never permanently, and then give a session: it returns that session with a
  -- policy that has these failures counted, however many the prototype had, and makes no call after the
  -- one that succeeds. The fuel is more than the failures.
  pub create_resumable_session-spends :
      (create : W → StatusOrVal A × W) (outcomes : W → List (StatusOrVal A)) (failures n fuel : ℕ)
      (ss : List Status) (a : A) (os : List (StatusOrVal A)) (b : BackoffPolicy) (w : W)
      → Foretells world create outcomes
      → AllTransient ss
      → length ss ≤ n
      → length ss < fuel
      → outcomes w ≡ failing ss a os
      → (b' : BackoffPolicy) × (w' : W) × (create_resumable_session world
            (counting_client failures n b)
            create
            fuel
            w
          ≡ some (value (spent a (length ss) n b'), w'))
        × (outcomes w' ≡ os)
  unfolding create_resumable_session cloned clone_retry
  create_resumable_session-spends create outcomes failures n fuel ss a os b w foretells transient
        few enough o =
      let (b', w', result, left) =
        make_call-spends world "CreateResumableSession" create outcomes foretells n fuel ss a os
          (clone_backoff b) w transient few enough o in
      (b', w', ap (with_policies world (counting_client failures n b)) result, left)
