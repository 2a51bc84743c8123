-- ===== src/Boundary/Absent.antt =====
-- The boundary is in no place of the message, and the loop ends once it outgrows the message.
use cloudstorageapi.Prelude.{
  ℕ, zero, suc, ◌+◌, ◌≡◌, ◌≢◌, ap, ◌∙◌, ◌≤◌, ◌<◌, false, Option, none, some, List, [], ◌++◌, inl,
  inr, arith, length, length-append, drop, Option-cases,
}
use cloudstorageapi.Boundary.{begins, find, grow, generate_message_boundary}
use cloudstorageapi.Boundary.Search.{NotBefore, Absent, nowhere-Absent, find-some, find-none}

module _ {G : Type 0} (random_string : ℕ → G → List ℕ × G) (message : List ℕ)
    (growth_size : ℕ) where
  grow-nowhere :
      (fuel i : ℕ) (candidate : List ℕ) (g : G) (result : List ℕ) (g' : G)
      → i ≤ length message
      → NotBefore candidate message i
      → grow random_string message growth_size fuel i candidate g ≡ some (result, g')
      → (k : ℕ) → k ≤ length message
      → begins result (drop k message) ≡ false
  unfolding grow
  grow-nowhere zero i candidate g result g' hi before h k lt = cc
  grow-nowhere (suc fuel) i candidate g result g' hi before h k lt =
      elim (Option-cases (find message candidate i)) [
        | inl e ↦ ground (arith, find-none message candidate i k before e)
        | inr (j, e) ↦
            let (more, g'') = random_string growth_size g in
            let (inside, earlier, _) = find-some message candidate more i j hi before e in
            grow-nowhere fuel j (candidate ++ more) g'' result g' inside earlier (rw (e, grow) at h)
              k lt
      ]

  -- The boundary that `GenerateMessageBoundary` returns is nowhere in the message, whatever the
  -- generator of random texts returns.
  pub generate_message_boundary-Absent :
      (fuel initial_size : ℕ) (g : G) (boundary : List ℕ) (g' : G)
      → generate_message_boundary random_string message growth_size fuel initial_size g
        ≡ some (boundary, g')
      → Absent boundary message
  unfolding generate_message_boundary
  generate_message_boundary-Absent fuel initial_size g boundary g' h =
      let (candidate, g₀) = random_string initial_size g in
      nowhere-Absent boundary message (
        grow-nowhere fuel 0 candidate g₀ boundary g' (omega arith) (λ k lt. absurd (omega arith)) h)

  -- Each round makes the candidate longer, and a candidate that is found is no longer than the
  -- message.
  grow-ne-none :
      ((g : G) → 0 < length (random_string growth_size g).0)
      → (fuel i : ℕ) (candidate : List ℕ) (g : G) → i ≤ length message
      → NotBefore candidate message i
      → length message < fuel + length candidate
      → grow random_string message growth_size (suc fuel) i candidate g ≢ none
  unfolding grow
  grow-ne-none grows zero i candidate g hi before lt h =
      elim (Option-cases (find message candidate i)) [
        | inl e ↦ ground arith
        | inr (j, e) ↦ omega (arith, (find-some message candidate [] i j hi before e).2)
      ]
  grow-ne-none grows (suc fuel) i candidate g hi before lt h =
      elim (Option-cases (find message candidate i)) [
        | inl e ↦ ground arith
        | inr (j, e) ↦
            let more = (random_string growth_size g).0 in
            let (inside, earlier, _) = find-some message candidate more i j hi before e in
            grow-ne-none grows fuel j (candidate ++ more) (random_string growth_size g).1 inside
              earlier (omega (arith, grows g, length-append candidate more)) (rw (e, grow) at h)
      ]

  -- The loop ends: if the generator's texts are not empty, then as many rounds as the message has
  -- bytes, and two more, are enough, and a boundary that is nowhere in the message is returned.
  pub generate_message_boundary-total :
      ((g : G) → 0 < length (random_string growth_size g).0)
      → (initial_size : ℕ) (g : G)
      → (boundary : List ℕ) × (g' : G) × (generate_message_boundary random_string message
            growth_size
            (length message + 2)
            initial_size
            g
          ≡ some (boundary, g'))
        × Absent boundary message
  unfolding generate_message_boundary
  generate_message_boundary-total grows initial_size g = elim (Option-cases result) [
    | inl e ↦ absurd (returns (rounds ∙ e))
    | inr ((boundary, g'), e) ↦ (
      boundary,
      g',
      e,
      generate_message_boundary-Absent (length message + 2) initial_size g boundary g' e,
    )
  ]
    where
      result : Option (List ℕ × G)
      result =
          generate_message_boundary random_string message growth_size (length message + 2)
            initial_size g

      rounds :
          grow random_string message growth_size
            (suc (length message + 1))
            0
            (random_string initial_size g).0
            (random_string initial_size g).1
          ≡ result
      rounds =
          ap
            (λ n.
              grow random_string message growth_size n 0 (random_string initial_size g).0
                (random_string initial_size g).1)
            {x = suc (length message + 1)} {y = length message + 2} (omega arith)

      returns :
          grow random_string message growth_size
            (suc (length message + 1))
            0
            (random_string initial_size g).0
            (random_string initial_size g).1
          ≢ none
      returns =
          grow-ne-none grows (length message + 1) 0 (random_string initial_size g).0
            (random_string initial_size g).1 (omega arith) (λ k lt. absurd (omega arith))
            (omega arith)
