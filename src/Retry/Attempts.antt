-- ===== src/Retry/Attempts.antt =====
-- What `MakeCall` returns under a policy that counts failures, told from the outcomes of the calls.
use cloudstorageapi.Prelude.{
  ℕ, pos, zero, suc, ◌+◌, ◌≡◌, refl, ◌≤◌, ◌<◌, true, false, some, String, List, [], ◌∷◌, arith,
  length, if◌then◌else◌, Bool-cases, inl, inr, ap, dec_lt, ◌∙◌, ◌⊎◌,
}
use cloudstorageapi.Status.{Status, StatusOrVal, value, failure, is_permanent_failure}
use cloudstorageapi.Policy.{
  World, BackoffPolicy, limited_error_count, is_exhausted, on_failure, on_completion,
}
use cloudstorageapi.Retry.{
  permanent_error, exhausted_error, before_first_attempt, Lent, finished, again, after_failure,
  after_call, round, loop, make_call,
}

-- What should come out when `k` attempts are left and the calls have the given outcomes: the first
-- value, the first permanent failure, or the last failure once no attempt is left. `unavailable`
-- stands for the outcomes past the list.
module _ {A : Type 0} (name : String) where
  pub expected : ℕ → Status → List (StatusOrVal A) → StatusOrVal A
  expected zero last os = failure (exhausted_error name last)
  expected (suc k) last [] = failure last
  expected (suc k) last (value a ∷ os) = value a
  expected (suc k) last (failure s ∷ os) =
      let rest = expected k s os in
      if is_permanent_failure s then failure (permanent_error name s) else rest

-- How many of the outcomes the calls use up.
pub used : {A : Type 0} → ℕ → List (StatusOrVal A) → ℕ
used zero os = 0
used (suc k) [] = 0
used (suc k) (value a ∷ os) = 1
used (suc k) (failure s ∷ os) =
    let rest = suc (used k os) in if is_permanent_failure s then 1 else rest

-- The outcomes of the calls to come, from a state of the surroundings. A call has the first of them
-- as its outcome, and sleeping or drawing a number uses none up.
pub record Foretells {W A : Type 0} (world : World W) (call : W → StatusOrVal A × W)
    (outcomes : W → List (StatusOrVal A)) : Type 0 where
  pub by_call :
      (w : W) (o : StatusOrVal A) (os : List (StatusOrVal A))
      → outcomes w ≡ o ∷ os
      → ((call w).0 ≡ o) × (outcomes (call w).1 ≡ os)
  pub by_sleep : (d : ℕ) (w : W) → outcomes (world.sleep_for d w) ≡ outcomes w
  pub by_draw : (lo hi : ℕ) (w : W) → outcomes (world.draw lo hi w).1 ≡ outcomes w

-- The lent variables under a policy that has counted `failures` of at most `m`.
abbrev pub counting : {W : Type 0} → ℕ → ℕ → BackoffPolicy → W → Lent W
counting failures m b w = record {
  retry = limited_error_count failures (pos m);
  backoff = b;
  world_state = w;
}

module _ {W : Type 0} (world : World W) {A : Type 0} (name : String) (call : W → StatusOrVal A × W)
    (outcomes : W → List (StatusOrVal A)) (foretells : Foretells world call outcomes) where
  -- A failure that is not permanent and not the last one leads to another round.
  pub after_failure-again :
      (failures m : ℕ) (s : Status) (b : BackoffPolicy) (w : W)
      → is_permanent_failure s ≡ false
      → failures < m
      → (b' : BackoffPolicy) × (w' : W) × (after_failure world {A = A} name s
            (counting failures m b w)
          ≡ again s (counting (suc failures) m b' w'))
        × (outcomes w' ≡ outcomes w)
  unfolding after_failure on_failure on_completion
  after_failure-again failures m s b w t lt = (
    (on_completion world b w).1,
    world.sleep_for (on_completion world b w).0 (on_completion world b w).2,
    ground arith,
    foretells.by_sleep _ _ ∙ foretells.by_draw _ _ w,
  )

  -- Any other failure ends the loop.
  after_failure-finished :
      (failures m : ℕ) (s : Status) (b : BackoffPolicy) (w : W)
      → ((is_permanent_failure s ≡ true) ⊎ (m ≤ failures))
      → (l' : Lent W) × (after_failure world {A = A} name s (counting failures m b w)
          ≡ finished (expected name 1 s (failure s ∷ [])) l')
        × (l'.world_state ≡ w)
  unfolding after_failure on_failure on_completion expected
  after_failure-finished failures m s b w h = (
    record {
      retry =
          if is_permanent_failure s
          then limited_error_count failures (pos m)
          else limited_error_count (suc failures) (pos m);
      backoff = b;
      world_state = w;
    },
    ground arith,
    refl,
  )

  -- A round calls as long as the policy is not exhausted.
  pub round-call :
      (failures m : ℕ) (last : Status) (b : BackoffPolicy) (w : W)
      → failures ≤ m
      → round world name call last (counting failures m b w)
        ≡ after_call world name (call w) (counting failures m b w)
  unfolding round is_exhausted
  round-call failures m last b w h = ground arith

  round-exhausted :
      (failures m : ℕ) (last : Status) (b : BackoffPolicy) (w : W)
      → m < failures
      → round world name call last (counting failures m b w)
        ≡ finished (failure (exhausted_error name last)) (counting failures m b w)
  unfolding round is_exhausted
  round-exhausted failures m last b w h = ground arith

  pub after_call-value :
      (r : StatusOrVal A × W) (a : A) (l : Lent W)
      → r.0 ≡ value a
      → after_call world name r l ≡ finished (value a) (record l { world_state = r.1 })
  unfolding after_call
  after_call-value (o, w) a l h = rw h

  pub after_call-failure :
      (r : StatusOrVal A × W) (s : Status) (l : Lent W)
      → r.0 ≡ failure s
      → after_call world name r l
        ≡ after_failure world {A = A} name s (record l { world_state = r.1 })
  unfolding after_call
  after_call-failure (o, w) s l h = rw h

  -- The loop, started at the given state, ends as `expected` says.
  abbrev Ends : ℕ → ℕ → Status → Lent W → List (StatusOrVal A) → Type 0
  Ends fuel k last l os =
      (l' : Lent W) × (loop world name call fuel last l ≡ some (expected name k last os, l'))
      × (length (outcomes l'.world_state) + used k os ≡ length os)

  -- A failure that ends the loop: permanent, or the last one that is allowed.
  Ends-by_failure :
      (fuel k failures m : ℕ) (last s : Status) (b : BackoffPolicy) (w : W)
      (os : List (StatusOrVal A))
      → k + failures ≡ m
      → outcomes w ≡ failure s ∷ os
      → ((is_permanent_failure s ≡ true) ⊎ ((is_permanent_failure s ≡ false) × (k ≡ 0)))
      → Ends (suc fuel) (suc k) last (counting failures m b w) (failure s ∷ os)
  unfolding loop expected used
  Ends-by_failure fuel k failures m last s b w os e o h =
      let c = foretells.by_call w (failure s) os o in
      let rounds =
        round-call failures m last b w (omega arith)
        ∙ after_call-failure (call w) s (counting failures m b w) c.0 in
      let (l', q, u) = after_failure-finished failures m s b (call w).1 (ground arith) in
      (
        l',
        ground (arith, rounds, ap (λ n. expected name n s os) {x = k} {y = 0}),
        ground (arith, ap outcomes u, ap length c.1, ap (λ n. used n os) {x = k} {y = 0}),
      )

  loop-expected :
      (fuel k failures m : ℕ) (last : Status) (b : BackoffPolicy) (w : W)
      (os : List (StatusOrVal A))
      → k + failures ≡ m + 1
      → k < fuel
      → outcomes w ≡ os
      → k ≤ length os
      → Ends fuel k last (counting failures m b w) os
  unfolding loop expected used
  loop-expected zero k failures m last b w os e f o h = absurd (omega arith)
  loop-expected (suc fuel) zero failures m last b w os e f o h =
      (counting failures m b w, ground (arith, round-exhausted failures m last b w), ground arith)
  loop-expected (suc fuel) (suc k) failures m last b w [] e f o h = absurd (omega arith)
  loop-expected (suc fuel) (suc k) failures m last b w (value a ∷ os) e f o h =
      let c = foretells.by_call w (value a) os o in
      let rounds =
        round-call failures m last b w (omega arith)
        ∙ after_call-value (call w) a (counting failures m b w) c.0 in
      (counting failures m b (call w).1, ground (arith, rounds), omega (arith, ap length c.1))
  loop-expected (suc fuel) (suc k) failures m last b w (failure s ∷ os) e f o h =
      elim (Bool-cases (is_permanent_failure s)) [
        | inl t ↦ Ends-by_failure fuel k failures m last s b w os (omega arith) o (inl t)
        | inr t ↦ elim (dec_lt failures m) [
          | yes q ↦
              let c = foretells.by_call w (failure s) os o in
              let rounds =
                round-call failures m last b w (omega arith)
                ∙ after_call-failure (call w) s (counting failures m b w) c.0 in
              let (b', w', r, u) = after_failure-again failures m s b (call w).1 t q in
              let (l', g, n) =
                loop-expected fuel k (suc failures) m s b' w' os (omega arith) (omega arith)
                  (u ∙ c.1) (omega arith) in
              (l', ground (arith, rounds), ground arith)
          | no q ↦
              Ends-by_failure fuel k failures m last s b w os (omega arith) o (inr (t, omega arith))
        ]
      ]

  -- Under a new policy that allows `m` failures, `MakeCall` returns the first value or permanent
  -- failure among the outcomes of the first `m + 1` calls, and else the last failure, and makes no
  -- call after that one. `m + 2` rounds of fuel are enough.
  pub make_call-expected :
      (m : ℕ) (b : BackoffPolicy) (w : W)
      → m + 1 ≤ length (outcomes w)
      → (l' : Lent W) × (make_call world name call (m + 2) (counting 0 m b w)
          ≡ some (expected name (m + 1) before_first_attempt (outcomes w), l'))
        × (length (outcomes l'.world_state) + used (m + 1) (outcomes w) ≡ length (outcomes w))
  unfolding make_call
  make_call-expected m b w h =
      loop-expected (m + 2) (m + 1) 0 m before_first_attempt b w (outcomes w) (omega arith)
        (omega arith) refl h
