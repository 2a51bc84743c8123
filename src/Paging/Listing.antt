-- ===== src/Paging/Listing.antt =====
-- What a range yields, told from the pages that the server has.
use cloudstorageapi.Prelude.{
  ℕ, zero, suc, ◌≡◌, refl, sym, ap, ◌∙◌, Bool, true, false, some, List, [], ◌∷◌, ◌++◌, map,
  if◌then◌else◌, is_empty, length, subst,
}
use cloudstorageapi.Status.{Status, is_ok, StatusOrVal, value, failure, default_result}
use cloudstorageapi.Paging.{
  Token, Reader, Range, with_first, from_page, after_load, get_next, unpack, advance,
  make_pagination_range, paged_stream_reader, elements,
}

module _ {T R : Type 0} (extractor : R → List T) (page_token : R → Token)
    (serve : Token → StatusOrVal R) where
  -- The items of a page and those that follow; an empty page ends the listing.
  unfoldable pub listed_items : List T → List (StatusOrVal T) → List (StatusOrVal T)
  listed_items [] more = []
  listed_items (x ∷ xs) more = map value (x ∷ xs) ++ more

  -- A response and what follows it: an error is the last element, and an empty token ends the listing.
  unfoldable pub listed : (Token → List (StatusOrVal T)) → StatusOrVal R → List (StatusOrVal T)
  unfolding listed_items
  listed more (failure s) = if is_ok s then [] else failure s ∷ []
  listed more (value r) =
      listed_items (extractor r) (if is_empty (page_token r) then [] else more (page_token r))

  -- The listing from a token on, of `n` pages at most.
  unfoldable pub listing : ℕ → Token → List (StatusOrVal T)
  unfolding listed
  listing zero t = []
  listing (suc n) t = listed (λ u. listing n u) (serve t)

  -- The listing from a token on ends within `n` pages.
  abbrev pub EndsAfter : (Token → Type 0) → StatusOrVal R → Type 0
  EndsAfter Ends (failure s) = Unit {0}
  EndsAfter Ends (value r) =
      is_empty (extractor r) ≡ false → is_empty (page_token r) ≡ false → Ends (page_token r)

  abbrev pub EndsWithin : ℕ → Token → Type 0
  EndsWithin zero t = ⊥
  EndsWithin (suc n) t = EndsAfter (λ u. EndsWithin n u) (serve t)

module _ {T R W : Type 0} (loader : Token → W → StatusOrVal R × W) (extractor : R → List T)
    (page_token : R → Token) (serve : Token → StatusOrVal R)
    (loads : (t : Token) (w : W) → (loader t w).0 ≡ serve t) where
  abbrev Yields : Range T W → List (StatusOrVal T) → Type 0
  Yields g xs = elements loader extractor page_token (suc (length xs)) g ≡ some xs

  Yields-end : (g : Range T W) → g.is_end ≡ true → Yields g []
  unfolding elements
  Yields-end g e = rw e refl

  Yields-more :
      (g : Range T W) (xs : List (StatusOrVal T))
      → g.is_end ≡ false
      → Yields (advance loader extractor page_token g) xs
      → Yields g (g.current ∷ xs)
  unfolding elements
  Yields-more g xs e h =
      let rest =
        elements loader extractor page_token (suc (length xs))
          (advance loader extractor page_token g) in
      ap (λ b. if b then some [] else with_first g.current rest) e ∙ ap (with_first g.current) h

  -- What is still to come when the page is used up.
  abbrev rest_of : ℕ → Bool → Token → List (StatusOrVal T)
  rest_of n last t = if last then [] else listing extractor page_token serve n t

  abbrev RestEnds : ℕ → Bool → Token → Type 0
  RestEnds n last t = last ≡ false → EndsWithin extractor page_token serve n t

  abbrev standing : Token → List T → Token → Bool → W → StatusOrVal T → Range T W
  standing request_token page token last w current = record {
    reader = record {
      request_token = request_token;
      page = page;
      token = token;
      last_page = last;
      world = w;
    };
    current = current;
    is_end = false;
  }

  -- A range whose reader holds a page yields its items and then the rest.
  abbrev PageYields : ℕ → Type 0
  PageYields n =
      (u : Token) (xs : List T) (x : T) (t : Token) (last : Bool) (w : W)
      → RestEnds n last t
      → Yields (standing u xs t last w (value x)) (value x ∷ (map value xs ++ rest_of n last t))

  Yields-items :
      (n : ℕ) (u : Token) (xs : List T) (t : Token) (w : W) (g : Range T W)
      → PageYields n
      → (is_empty xs ≡ false → RestEnds n (is_empty t) t)
      → Yields
          (unpack loader extractor page_token
            (from_page loader extractor page_token xs (record {
              request_token = u;
              page = [];
              token = t;
              last_page = is_empty t;
              world = w;
            }))
            g)
          (listed_items extractor page_token serve xs (rest_of n (is_empty t) t))
  unfolding unpack from_page listed_items
  Yields-items n u [] t w g ih ends = Yields-end _ refl
  Yields-items n u (x ∷ xs) t w g ih ends = ih u xs x t (is_empty t) w (ends refl)

  Yields-failed :
      (q : Bool) (s : Status) (r : Reader T W) (before : StatusOrVal T)
      → Yields
          (record { reader = r; current = if q then before else failure s; is_end = q })
          (if q then [] else failure s ∷ [])
  unfolding advance
  Yields-failed true s r before = Yields-end _ refl
  Yields-failed false s r before = Yields-more _ [] refl (Yields-end _ refl)

  Yields-load :
      (n : ℕ) (x : StatusOrVal R × W) (r : Reader T W) (g : Range T W)
      → PageYields n
      → EndsAfter extractor page_token serve (EndsWithin extractor page_token serve n) x.0
      → Yields
          (unpack loader extractor page_token (after_load loader extractor page_token x r) g)
          (listed extractor page_token serve (λ u. listing extractor page_token serve n u) x.0)
  unfolding after_load listed unpack
  Yields-load n (value v, w) r g ih ends =
      Yields-items n r.token (extractor v) (page_token v) w g ih (λ p q. ends p q)
  Yields-load n (failure s, w) r g ih ends =
      Yields-failed (is_ok s) s (record r { request_token = r.token; token = []; world = w })
        g.current

  Yields-next :
      (n : ℕ) (u t : Token) (w : W) (g : Range T W)
      → PageYields n
      → EndsWithin extractor page_token serve (suc n) t
      → Yields
          (unpack loader extractor page_token
            (after_load loader extractor page_token
              (loader t w)
              (standing u [] t false w default_result).reader)
            g)
          (listing extractor page_token serve (suc n) t)
  unfolding listing
  Yields-next n u t w g ih ends =
      subst
        (λ o.
          Yields
            (unpack loader extractor page_token
              (after_load loader extractor page_token (loader t w)
                (standing u [] t false w default_result).reader)
              g)
            (listed extractor page_token serve (λ v. listing extractor page_token serve n v) o))
        (loads t w)
        (Yields-load n (loader t w) (standing u [] t false w default_result).reader g ih (
          subst (EndsAfter extractor page_token serve (EndsWithin extractor page_token serve n))
            (sym (loads t w)) ends))

  Yields-page : (n : ℕ) → PageYields n
  unfolding advance get_next from_page unpack
  Yields-page n u (y ∷ ys) x t last w ends =
      Yields-more (standing u (y ∷ ys) t last w (value x)) _ refl
        (Yields-page n u ys y t last w ends)
  Yields-page n u [] x t true w ends = Yields-more _ _ refl (Yields-end _ refl)
  Yields-page zero u [] x t false w ends = absurd (ends refl)
  Yields-page (suc n) u [] x t false w ends =
      Yields-more (standing u [] t false w (value x)) _ refl
        (Yields-next n u t w (standing u [] t false w (value x)) (Yields-page n) (ends refl))

  -- If the listing from the empty token on ends within `n` pages, the range yields exactly the
  -- listing: every item of every page up to the first empty token or empty page, or the error of a
  -- page after the items before it.
  pub elements-listing :
      (n : ℕ) (u : Token) (w : W)
      → EndsWithin extractor page_token serve n []
      → elements loader extractor page_token
          (suc (length (listing extractor page_token serve n [])))
          (make_pagination_range loader extractor page_token u w)
        ≡ some (listing extractor page_token serve n [])
  unfolding make_pagination_range paged_stream_reader advance get_next
  elements-listing zero u w ends = absurd ends
  elements-listing (suc n) u w ends =
      Yields-next n u [] w
        (record {
          reader = (standing u [] [] false w default_result).reader;
          current = default_result;
          is_end = true;
        })
        (Yields-page n) ends
