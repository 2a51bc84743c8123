-- ===== src/Paging/Tests.antt =====
-- A listing of three pages, whose last one is an error.
use cloudstorageapi.Prelude.{ℕ, suc, ◌≡◌, refl, some, List, [], ◌∷◌, length}
use cloudstorageapi.Status.{StatusOrVal, value, failure}
use cloudstorageapi.Paging.{Token, make_pagination_range, elements}
use cloudstorageapi.Paging.Listing.{listing, listed, listed_items, elements-listing}
use cloudstorageapi.Fixtures.{down}

abbrev Answer : Type 0
Answer = List ℕ × Token

abbrev items : Answer → List ℕ
items r = r.0

abbrev token_after : Answer → Token
token_after r = r.1

-- The pages by their tokens.
abbrev serve : Token → StatusOrVal Answer
serve [] = value (1 ∷ 2 ∷ [], 7 ∷ [])
serve (c ∷ []) = value (3 ∷ [], 7 ∷ 7 ∷ [])
serve (c ∷ d ∷ t) = failure down

-- The state counts the calls.
abbrev loader : Token → ℕ → StatusOrVal Answer × ℕ
loader t w = (serve t, suc w)

three_pages : listing items token_after serve 3 [] ≡ value 1 ∷ value 2 ∷ value 3 ∷ failure down ∷ []
unfolding listing listed listed_items
three_pages = refl

elements-listing_example :
    elements loader items token_after
      (suc (length (listing items token_after serve 3 [])))
      (make_pagination_range loader items token_after (9 ∷ []) 0)
    ≡ some (listing items token_after serve 3 [])
elements-listing_example =
    elements-listing loader items token_after serve (λ t w. refl) 3 (9 ∷ []) 0 (λ p q p' q'. tt)
