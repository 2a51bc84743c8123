-- ===== src/Policy/Patience.antt =====
-- How many failures a counting policy still allows.
use cloudstorageapi.Prelude.{
  ℕ, zero, suc, ◌+◌, ◌≡◌, refl, ap, inl, inr, Bool, true, false, arith, Bool-cases, pos, ltb, not,
}
use cloudstorageapi.Status.{Status, is_permanent_failure}
use cloudstorageapi.Policy.{
  World, RetryPolicy, limited_error_count, limited_time, is_exhausted, on_failure,
}

-- A counting policy that allows `a` more failures.
abbrev pub Patience : ℕ → RetryPolicy → Type 0
Patience a (limited_error_count c bound) = bound ≡ pos (c + a)
Patience a (limited_time d t) = ⊥

module _ {S : Type 0} (world : World S) where
  pub is_exhausted-Patience :
      (a : ℕ) (p : RetryPolicy) (s : S) → Patience a p → is_exhausted world p s ≡ (false, s)
  unfolding is_exhausted
  is_exhausted-Patience a (limited_error_count c bound) s h = rw h (ground arith)
  is_exhausted-Patience a (limited_time d t) s h = absurd h

  -- One more failure is allowed only if the policy had some left, and uses one up.
  abbrev pub Uses : ℕ → Bool × RetryPolicy × S → Type 0
  Uses a (go_on, p, s) = go_on ≡ true → (b : ℕ) × (a ≡ suc b) × Patience b p

  pub on_failure-Uses :
      (a : ℕ) (p : RetryPolicy) (e : Status) (s : S)
      → Patience a p
      → Uses a (on_failure world p e s)
  unfolding on_failure is_exhausted
  on_failure-Uses a (limited_error_count c bound) e s h =
      elim (Bool-cases (is_permanent_failure e)) [
        | inl permanent ↦ rw permanent (λ q. absurd cc)
        | inr transient ↦ rw (transient, h) (uses a)
      ]
    where
      uses :
          (a : ℕ)
          → not (ltb (c + a) (suc c)) ≡ true
          → (b : ℕ) × (a ≡ suc b) × (pos (c + a) ≡ pos (suc c + b))
      uses zero q = absurd (ground arith)
      uses (suc b) q = (b, refl, ap pos (omega arith))
  on_failure-Uses a (limited_time d t) e s h = absurd h
