-- ===== src/Boundary/Tests.antt =====
-- The search for a boundary, with a generator that repeats one byte.
use cloudstorageapi.Prelude.{ℕ, zero, suc, ◌≡◌, [], ◌∷◌, List, refl, some, arith}
use cloudstorageapi.Boundary.{generate_message_boundary, grow, find_at, begins}
use cloudstorageapi.Boundary.Search.{Absent}
use cloudstorageapi.Boundary.Absent.{
  generate_message_boundary-Absent, generate_message_boundary-total,
}

-- As many bytes as are asked for.
abbrev sevens : ℕ → List ℕ
sevens zero = []
sevens (suc n) = 7 ∷ sevens n

abbrev random_string : ℕ → ℕ → List ℕ × ℕ
random_string n g = (sevens n, suc g)

abbrev message : List ℕ
message = 1 ∷ 7 ∷ 7 ∷ 2 ∷ 7 ∷ []

boundary_found : generate_message_boundary random_string message 1 7 1 0 ≡ some (7 ∷ 7 ∷ 7 ∷ [], 3)
unfolding generate_message_boundary grow find_at begins
boundary_found = refl

generate_message_boundary-Absent_example : Absent (7 ∷ 7 ∷ 7 ∷ []) message
generate_message_boundary-Absent_example =
    generate_message_boundary-Absent random_string message 1 7 1 0 (7 ∷ 7 ∷ 7 ∷ []) 3 boundary_found

generate_message_boundary-total_example :
    (boundary : List ℕ) × (g' : ℕ) × (generate_message_boundary random_string message 1 7 1 0
      ≡ some (boundary, g'))
    × Absent boundary message
generate_message_boundary-total_example =
    generate_message_boundary-total random_string message 1 (λ g. omega arith) 1 0
