-- ===== src/Retry/Spent.antt =====
-- What `MakeCall` leaves of a policy that counts failures, when a call succeeds in the end: the client
-- hands the policies on to the sources and sessions that it makes.
use cloudstorageapi.Prelude.{
  ℕ, zero, suc, ◌+◌, ◌≡◌, ◌≤◌, ◌<◌, some, String, List, [], ◌∷◌, arith, length, ap, ◌∙◌,
}
use cloudstorageapi.Status.{Status, StatusOrVal, value, failure}
use cloudstorageapi.Policy.{World, BackoffPolicy}
use cloudstorageapi.Policy.Failures.{AllTransient}
use cloudstorageapi.Retry.{
  Lent, Round, before_first_attempt, finished, again, round, loop, make_call,
}
use cloudstorageapi.Retry.Attempts.{
  Foretells, counting, round-call, after_call-value, after_call-failure, after_failure-again,
}

-- Failures, and a value after them.
unfoldable pub failing :
    {A : Type 0} → List Status → A → List (StatusOrVal A) → List (StatusOrVal A)
failing [] a os = value a ∷ os
failing (s ∷ ss) a os = failure s ∷ failing ss a os

module _ {W : Type 0} (world : World W) {A : Type 0} (name : String) (call : W → StatusOrVal A × W)
    (outcomes : W → List (StatusOrVal A)) (foretells : Foretells world call outcomes) where
  -- A round that ends the loop, and one that goes on.
  loop-finished :
      (fuel : ℕ) (last : Status) (l l' : Lent W) (r : StatusOrVal A)
      → round world name call last l ≡ finished r l'
      → loop world name call (suc fuel) last l ≡ some (r, l')
  unfolding loop
  loop-finished fuel last l l' r h =
      ap
        (λ (x : Round W A). elim x [
          | finished r' l'' ↦ some (r', l'')
          | again s' l'' ↦ loop world name call fuel s' l''
        ])
        h

  loop-again :
      (fuel : ℕ) (last s : Status) (l l' : Lent W)
      → round world name call last l ≡ again s l'
      → loop world name call (suc fuel) last l ≡ loop world name call fuel s l'
  unfolding loop
  loop-again fuel last s l l' h =
      ap
        (λ (x : Round W A). elim x [
          | finished r l'' ↦ some (r, l'')
          | again s' l'' ↦ loop world name call fuel s' l''
        ])
        h

  loop-spends :
      (fuel failures total m : ℕ) (last : Status) (ss : List Status) (a : A)
      (os : List (StatusOrVal A)) (b : BackoffPolicy) (w : W)
      → AllTransient ss
      → failures + length ss ≡ total
      → total ≤ m
      → length ss < fuel
      → outcomes w ≡ failing ss a os
      → (b' : BackoffPolicy) × (w' : W) × (loop world name call fuel last (counting failures m b w)
          ≡ some (value a, counting total m b' w'))
        × (outcomes w' ≡ os)
  unfolding failing
  loop-spends zero failures total m last ss a os b w t e h f o = absurd (omega arith)
  loop-spends (suc fuel) failures total m last [] a os b w t e h f o =
      let c = foretells.by_call w (value a) os o in
      let rounds =
        round-call world name call outcomes foretells failures m last b w (omega arith)
        ∙ after_call-value world name call outcomes foretells (call w) a (counting failures m b w)
            c.0 in
      (
        b,
        (call w).1,
        loop-finished fuel last (counting failures m b w) (counting failures m b (call w).1)
              (value a) rounds
            ∙ ap (λ n. some (value a, counting n m b (call w).1)) {x = failures} {y = total}
                (omega arith),
        c.1,
      )
  loop-spends (suc fuel) failures total m last (s ∷ ss) a os b w t e h f o =
      let c = foretells.by_call w (failure s) (failing ss a os) o in
      let (b', w', r, u) =
        after_failure-again world name call outcomes foretells failures m s b (call w).1 t.0
          (omega arith) in
      let rounds =
        round-call world name call outcomes foretells failures m last b w (omega arith)
        ∙ after_call-failure world name call outcomes foretells (call w) s (counting failures m b w)
            c.0
        ∙ r in
      let (b2, w2, g, n) =
        loop-spends fuel (suc failures) total m s ss a os b' w' t.1 (omega arith) h (omega arith)
          (u ∙ c.1) in
      (
        b2,
        w2,
        loop-again fuel last s (counting failures m b w) (counting (suc failures) m b' w') rounds
            ∙ g,
        n,
      )

  -- The failures before a value are counted in the policy that `MakeCall` leaves, and no call follows.
  pub make_call-spends :
      (m fuel : ℕ) (ss : List Status) (a : A) (os : List (StatusOrVal A)) (b : BackoffPolicy)
      (w : W)
      → AllTransient ss
      → length ss ≤ m
      → length ss < fuel
      → outcomes w ≡ failing ss a os
      → (b' : BackoffPolicy) × (w' : W) × (make_call world name call fuel (counting 0 m b w)
          ≡ some (value a, counting (length ss) m b' w'))
        × (outcomes w' ≡ os)
  unfolding make_call
  make_call-spends m fuel ss a os b w transient few enough o =
      loop-spends fuel 0 (length ss) m before_first_attempt ss a os b w transient (omega arith) few
        enough o
