-- ===== src/Boundary.antt =====
-- `GenerateMessageBoundary` of include/cloudstorageapi/internal/utils.h: a text that a message does
-- not hold. Texts are lists of bytes; the generator of random texts is a function on its own state.
pub mod Search
pub mod Absent
mod Tests
use cloudstorageapi.Prelude.{
  ℕ, zero, suc, ◌+◌, Bool, true, false, Option, none, some, List, [], ◌∷◌, ◌++◌, ◌&&◌, ◌==◌,
  if◌then◌else◌, drop,
}

-- Whether the text `t` begins with `p`.
unfoldable pub begins : List ℕ → List ℕ → Bool
begins [] t = true
begins (c ∷ p) [] = false
begins (c ∷ p) (d ∷ t) = c == d && begins p t

-- `std::string::find`: the first place of `p` in the text, which starts at place `i` of the message.
unfoldable pub find_at : List ℕ → ℕ → List ℕ → Option ℕ
find_at [] i p = if begins p [] then some i else none
find_at (c ∷ t) i p = let rest = find_at t (suc i) p in if begins p (c ∷ t) then some i else rest

-- `message.find(candidate, i)`, for an `i` within the message.
abbrev pub find : List ℕ → List ℕ → ℕ → Option ℕ
find message candidate i = find_at (drop i message) i candidate

-- The loop: as long as the candidate is found, it grows, and the search goes on where it was found.
-- `none` means that the fuel ran out.
module _ {G : Type 0} (random_string : ℕ → G → List ℕ × G) (message : List ℕ)
    (growth_size : ℕ) where
  pub grow : ℕ → ℕ → List ℕ → G → Option (List ℕ × G)
  grow zero i candidate g = none
  grow (suc fuel) i candidate g = elim (find message candidate i) [
    | none ↦ some (candidate, g)
    | some j ↦ let (more, g') = random_string growth_size g in grow fuel j (candidate ++ more) g'
  ]

  -- `GenerateMessageBoundary`.
  pub generate_message_boundary : ℕ → ℕ → G → Option (List ℕ × G)
  unfolding grow
  generate_message_boundary fuel initial_size g =
      let (candidate, g') = random_string initial_size g in grow fuel 0 candidate g'
