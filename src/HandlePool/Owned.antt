-- ===== src/HandlePool/Owned.antt =====
-- Who owns a handle: every easy handle that libcurl has made and not released is either in the pool
-- or in use, once, through any sequence of operations.
use cloudstorageapi.Prelude.{
  ℕ, ◌+◌, ◌-◌, ◌≡◌, refl, ap, ◌∙◌, ◌≤◌, ◌<◌, Bool, true, false, List, [], ◌∷◌, ◌++◌, arith, length,
  ◌==◌, ==_iff, leb, Bool-cases, inl, inr, String, Option, none, some,
}
use cloudstorageapi.HandlePool.{
  set_option, set_curl_options, Curl, Factory, pop_back, make_room, create_from, create_handle,
  cleanup_handle, create_multi_from, cleanup_multi_handle,
}

abbrev pub one_if : Bool → ℕ
one_if true = 1
one_if false = 0

-- How often a handle stands in a list.
abbrev pub count : ℕ → List ℕ → ℕ
count h [] = 0
count h (k ∷ ks) = one_if (h == k) + count h ks

-- What the factory relies on in libcurl: `alive h` is 1 for a handle that was made and not released.
pub record Ledger {E : Type 0} (api : Curl E) (alive : ℕ → E → ℕ) : Type 0 where
  pub fresh : (e : E) → alive (api.easy_init e).0 e ≡ 0
  pub on_init :
      (h : ℕ) (e : E) → alive h (api.easy_init e).1 ≡ alive h e + one_if (h == (api.easy_init e).0)
  pub on_cleanup : (h k : ℕ) (e : E) → alive h (api.easy_cleanup k e) ≡ alive h e - one_if (h == k)
  pub on_reset : (h k : ℕ) (e : E) → alive h (api.easy_reset k e) ≡ alive h e
  pub on_cainfo : (h k : ℕ) (a : String) (e : E) → alive h (api.set_cainfo a k e) ≡ alive h e
  pub on_capath : (h k : ℕ) (a : String) (e : E) → alive h (api.set_capath a k e) ≡ alive h e
  pub on_multi_init : (h : ℕ) (e : E) → alive h (api.multi_init e).1 ≡ alive h e
  pub on_multi_cleanup : (h k : ℕ) (e : E) → alive h (api.multi_cleanup k e) ≡ alive h e

count-append : (h : ℕ) (xs ys : List ℕ) → count h (xs ++ ys) ≡ count h xs + count h ys
count-append h [] ys = omega arith
count-append h (x ∷ xs) ys = omega (arith, count-append h xs ys)

count-pop_back :
    (h k : ℕ) (ks : List ℕ)
    → count h (k ∷ ks) ≡ count h (pop_back k ks).0 + one_if (h == (pop_back k ks).1)
unfolding pop_back
count-pop_back h k [] = omega arith
count-pop_back h k (l ∷ ls) = omega (arith, count-pop_back h l ls)

pub length-pop_back : (k : ℕ) (ks : List ℕ) → length (pop_back k ks).0 ≡ length ks
unfolding pop_back
length-pop_back k [] = refl
length-pop_back k (l ∷ ls) = omega (arith, length-pop_back l ls)

module _ {E : Type 0} (api : Curl E) (alive : ℕ → E → ℕ) (ledger : Ledger api alive) where
  -- The handles in use are `out`.
  pub record Owned (f : Factory E) (out : List ℕ) : Type 0 where
    pub once : (h : ℕ) → alive h f.curl ≤ 1
    pub owner : (h : ℕ) → alive h f.curl ≡ count h f.handles + count h out

  -- The handles that make room are released, and no others.
  make_room-alive :
      (maximum : ℕ) (hs : List ℕ) (e : E) (h : ℕ)
      → count h hs ≤ alive h e
      → alive h (make_room api.easy_cleanup maximum hs e).1 + count h hs
        ≡ alive h e + count h (make_room api.easy_cleanup maximum hs e).0
  unfolding make_room
  make_room-alive maximum [] e h le = refl
  make_room-alive maximum (k ∷ ks) e h le = elim (Bool-cases (leb maximum (length (k ∷ ks)))) [
    | inl t ↦ rw t (
        omega (
          arith,
          make_room-alive maximum ks (api.easy_cleanup k e) h
              (omega (arith, ledger.on_cleanup h k e)),
          ledger.on_cleanup h k e,
        ))
    | inr t ↦ rw t refl
  ]

  make_room-count :
      (maximum : ℕ) (hs : List ℕ) (e : E) (h : ℕ)
      → count h (make_room api.easy_cleanup maximum hs e).0 ≤ count h hs
  unfolding make_room
  make_room-count maximum [] e h = omega arith
  make_room-count maximum (k ∷ ks) e h = elim (Bool-cases (leb maximum (length (k ∷ ks)))) [
    | inl t ↦ rw t (omega (arith, make_room-count maximum ks (api.easy_cleanup k e) h))
    | inr t ↦ rw t (omega arith)
  ]

  pub length-make_room :
      (maximum : ℕ) (hs : List ℕ) (e : E)
      → 0 < maximum
      → length (make_room api.easy_cleanup maximum hs e).0 < maximum
  unfolding make_room
  length-make_room maximum [] e h = h
  length-make_room maximum (k ∷ ks) e h =
      ground (arith, length-make_room maximum ks (api.easy_cleanup k e) h)

  set_option-alive :
      (set : String → ℕ → E → E)
      → ((h k : ℕ) (a : String) (e : E) → alive h (set a k e) ≡ alive h e)
      → (x : Option String) (h k : ℕ) (e : E) → alive h (set_option set x k e) ≡ alive h e
  unfolding set_option
  set_option-alive set law none h k e = refl
  set_option-alive set law (some a) h k e = law h k a e

  set_curl_options-alive :
      (f : Factory E) (h k : ℕ) (e : E) → alive h (set_curl_options api f k e) ≡ alive h e
  unfolding set_curl_options
  set_curl_options-alive f h k e =
      set_option-alive api.set_capath ledger.on_capath f.capath h k
        (set_option api.set_cainfo f.cainfo k e)
      ∙ set_option-alive api.set_cainfo ledger.on_cainfo f.cainfo h k e

  create_from-Owned :
      (hs : List ℕ) (f : Factory E) (out : List ℕ)
      → f.handles ≡ hs
      → Owned f out
      → Owned (create_from api hs f).1 ((create_from api hs f).0 ∷ out)
  unfolding create_from
  create_from-Owned [] f out same w = record {
    once = λ h. omega (arith, alive_now h, new h, w.once h);
    owner = λ h. omega (arith, alive_now h, w.owner h);
  }
    where
      e' : E
      e' = (api.easy_init f.curl).1

      made : ℕ
      made = (api.easy_init f.curl).0

      alive_now :
          (h : ℕ) → alive h (set_curl_options api f made e') ≡ alive h f.curl + one_if (h == made)
      alive_now h = set_curl_options-alive f h made e' ∙ ledger.on_init h f.curl

      new : (h : ℕ) → alive h f.curl + one_if (h == made) ≤ 1
      new h = elim (Bool-cases (h == made)) [
        | inl t ↦
            rw t
              (omega (arith, ap (λ k. alive k f.curl) ((==_iff h made).0 t), ledger.fresh f.curl))
        | inr t ↦ rw t (omega (arith, w.once h))
      ]
  create_from-Owned (k ∷ ks) f out same w = record {
    once = λ h. omega (arith, alive_now h, w.once h);
    owner =
        λ h. omega (arith, alive_now h, w.owner h, ap (λ l. count h l) same, count-pop_back h k ks);
  }
    where
      last : ℕ
      last = (pop_back k ks).1

      alive_now :
          (h : ℕ)
          → alive h (set_curl_options api f last (api.easy_reset last f.curl)) ≡ alive h f.curl
      alive_now h =
          set_curl_options-alive f h last (api.easy_reset last f.curl)
          ∙ ledger.on_reset h last f.curl

  pub create_handle-Owned :
      (f : Factory E) (out : List ℕ)
      → Owned f out
      → Owned (create_handle api f).1 ((create_handle api f).0 ∷ out)
  unfolding create_handle
  create_handle-Owned f out w = create_from-Owned f.handles f out refl w

  pub cleanup_handle-Owned :
      (f : Factory E) (before after : List ℕ) (h : ℕ)
      → Owned f (before ++ h ∷ after)
      → Owned (cleanup_handle api h f) (before ++ after)
  unfolding cleanup_handle
  cleanup_handle-Owned f before after h w = record {
    once = λ k. omega (arith, room k, w.once k, make_room-count f.maximum_size f.handles f.curl k);
    owner = λ k. omega (
      arith,
      room k,
      w.owner k,
      count-append k before (h ∷ after),
      count-append k before after,
      count-append k (make_room api.easy_cleanup f.maximum_size f.handles f.curl).0 (h ∷ []),
    );
  }
    where
      room :
          (k : ℕ)
          → alive k (make_room api.easy_cleanup f.maximum_size f.handles f.curl).1
              + count k f.handles
            ≡ alive k f.curl
              + count k (make_room api.easy_cleanup f.maximum_size f.handles f.curl).0
      room k = make_room-alive f.maximum_size f.handles f.curl k (omega (arith, w.owner k))

  pub create_multi_from-Owned :
      (ms : List ℕ) (f : Factory E) (out : List ℕ)
      → Owned f out
      → Owned (create_multi_from api ms f).1 out
  unfolding create_multi_from
  create_multi_from-Owned [] f out w = record {
    once = λ h. omega (arith, ledger.on_multi_init h f.curl, w.once h);
    owner = λ h. omega (arith, ledger.on_multi_init h f.curl, w.owner h);
  }
  create_multi_from-Owned (m ∷ ms) f out w = record { once = w.once; owner = w.owner }

  make_room-alive_multi :
      (maximum : ℕ) (ms : List ℕ) (e : E) (h : ℕ)
      → alive h (make_room api.multi_cleanup maximum ms e).1 ≡ alive h e
  unfolding make_room
  make_room-alive_multi maximum [] e h = refl
  make_room-alive_multi maximum (k ∷ ks) e h = elim (Bool-cases (leb maximum (length (k ∷ ks)))) [
    | inl t ↦
        rw t (
          make_room-alive_multi maximum ks (api.multi_cleanup k e) h
          ∙ ledger.on_multi_cleanup h k e)
    | inr t ↦ rw t refl
  ]

  pub cleanup_multi_handle-Owned :
      (f : Factory E) (out : List ℕ) (m : ℕ)
      → Owned f out
      → Owned (cleanup_multi_handle api m f) out
  unfolding cleanup_multi_handle
  cleanup_multi_handle-Owned f out m w = record {
    once =
        λ h. omega (arith, make_room-alive_multi f.maximum_size f.multi_handles f.curl h, w.once h);
    owner = λ h.
        omega (arith, make_room-alive_multi f.maximum_size f.multi_handles f.curl h, w.owner h);
  }
