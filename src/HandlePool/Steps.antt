-- ===== src/HandlePool/Steps.antt =====
-- The pool through any sequence of operations.
use cloudstorageapi.Prelude.{
  ℕ, ◌+◌, ◌≡◌, refl, ap, ◌≤◌, ◌<◌, List, [], ◌∷◌, ◌++◌, arith, length, length-append, String,
  Option,
}
use cloudstorageapi.HandlePool.{
  Curl, Factory, make_room, create_from, create_handle, cleanup_handle, create_multi_from,
  create_multi_handle, cleanup_multi_handle, pooled_curl_handle_factory,
}
use cloudstorageapi.HandlePool.Owned.{
  count, Ledger, Owned, length-pop_back, length-make_room, create_handle-Owned,
  cleanup_handle-Owned, create_multi_from-Owned, cleanup_multi_handle-Owned,
}

-- One operation; `out` is the easy handles in use. A handle that is given back is one of them.
module _ {E : Type 0} (api : Curl E) where
  pub data Step : Factory E → List ℕ → Factory E → List ℕ → Type 0 where
    creates :
        (f : Factory E) (out : List ℕ)
        → Step f out (create_handle api f).1 ((create_handle api f).0 ∷ out)
    gives_back :
        (f : Factory E) (before after : List ℕ) (h : ℕ)
        → Step f (before ++ h ∷ after) (cleanup_handle api h f) (before ++ after)
    creates_multi : (f : Factory E) (out : List ℕ) → Step f out (create_multi_handle api f).1 out
    gives_back_multi :
        (f : Factory E) (out : List ℕ) (m : ℕ) → Step f out (cleanup_multi_handle api m f) out

  -- Any number of operations.
  pub data Steps : Factory E → List ℕ → Factory E → List ℕ → Type 0 where
    done : (f : Factory E) (out : List ℕ) → Steps f out f out
    then_step :
        (f f' f'' : Factory E) (out out' out'' : List ℕ)
        → Steps f out f' out'
        → Step f' out' f'' out''
        → Steps f out f'' out''

module _ {E : Type 0} (api : Curl E) (alive : ℕ → E → ℕ) (ledger : Ledger api alive) where
  Step-Owned :
      (f f' : Factory E) (out out' : List ℕ)
      → Step api f out f' out'
      → Owned api alive ledger f out
      → Owned api alive ledger f' out'
  unfolding create_multi_handle
  Step-Owned _ _ _ _ (creates f out) w = create_handle-Owned api alive ledger f out w
  Step-Owned _ _ _ _ (gives_back f before after h) w =
      cleanup_handle-Owned api alive ledger f before after h w
  Step-Owned _ _ _ _ (creates_multi f out) w =
      create_multi_from-Owned api alive ledger f.multi_handles f out w
  Step-Owned _ _ _ _ (gives_back_multi f out m) w =
      cleanup_multi_handle-Owned api alive ledger f out m w

  Steps-Owned :
      (f f' : Factory E) (out out' : List ℕ)
      → Steps api f out f' out'
      → Owned api alive ledger f out
      → Owned api alive ledger f' out'
  Steps-Owned _ _ _ _ (done f out) w = w
  Steps-Owned _ _ _ _ (then_step f f' f'' out out' out'' steps step) w =
      Step-Owned f' f'' out' out'' step (Steps-Owned f f' out out' steps w)

  -- From a new pool over a libcurl without handles, through any operations in which a handle that is
  -- given back is one that is in use: an easy handle that was made and not released is either in the
  -- pool or in use, once, and a handle in the pool or in use was not released.
  pub pool-owns :
      (maximum : ℕ) (cainfo capath : Option String) (e : E) (f : Factory E) (out : List ℕ)
      → ((h : ℕ) → alive h e ≡ 0)
      → Steps api (pooled_curl_handle_factory maximum cainfo capath e) [] f out
      → (h : ℕ) → (alive h f.curl ≤ 1) × (alive h f.curl ≡ count h f.handles + count h out)
  unfolding pooled_curl_handle_factory
  pool-owns maximum cainfo capath e f out none_yet steps h =
      let w = Steps-Owned _ f [] out steps (record {
        once = λ k. omega (arith, none_yet k);
        owner = λ k. omega (arith, none_yet k);
      }) in
      (w.once h, w.owner h)

  -- The pool keeps its maximum, and stays within it.
  abbrev Bounded : ℕ → Factory E → Type 0
  Bounded maximum f = (f.maximum_size ≡ maximum) × (length f.handles ≤ maximum)

  create_from-Bounded :
      (maximum : ℕ) (hs : List ℕ) (f : Factory E)
      → f.handles ≡ hs
      → Bounded maximum f
      → Bounded maximum (create_from api hs f).1
  unfolding create_from
  create_from-Bounded maximum [] f same b = b
  create_from-Bounded maximum (k ∷ ks) f same (size, le) =
      (size, omega (arith, ap length same, length-pop_back k ks))

  create_multi_from-Bounded :
      (maximum : ℕ) (ms : List ℕ) (f : Factory E)
      → Bounded maximum f
      → Bounded maximum (create_multi_from api ms f).1
  unfolding create_multi_from
  create_multi_from-Bounded maximum [] f b = b
  create_multi_from-Bounded maximum (m ∷ ms) f b = b

  cleanup_handle-Bounded :
      (maximum : ℕ) (f : Factory E) (h : ℕ)
      → 0 < maximum
      → Bounded maximum f
      → Bounded maximum (cleanup_handle api h f)
  unfolding cleanup_handle
  cleanup_handle-Bounded maximum f h positive (size, le) = (
    size,
    omega (
      arith,
      length-append (make_room api.easy_cleanup f.maximum_size f.handles f.curl).0 (h ∷ []),
      length-make_room api alive ledger f.maximum_size f.handles f.curl (omega arith),
    ),
  )

  Steps-Bounded :
      (maximum : ℕ) (f f' : Factory E) (out out' : List ℕ)
      → 0 < maximum
      → Steps api f out f' out'
      → Bounded maximum f
      → Bounded maximum f'
  unfolding create_handle create_multi_handle cleanup_multi_handle
  Steps-Bounded maximum _ _ _ _ positive (done f out) b = b
  Steps-Bounded maximum _ _ _ _ positive (then_step f f' f'' out out' out'' steps step) b =
      follow f' f'' out' out'' step (Steps-Bounded maximum f f' out out' positive steps b)
    where
      follow :
          (g g' : Factory E) (o o' : List ℕ)
          → Step api g o g' o'
          → Bounded maximum g
          → Bounded maximum g'
      follow _ _ _ _ (creates g o) c = create_from-Bounded maximum g.handles g refl c
      follow _ _ _ _ (gives_back g before after h) c = cleanup_handle-Bounded maximum g h positive c
      follow _ _ _ _ (creates_multi g o) c = create_multi_from-Bounded maximum g.multi_handles g c
      follow _ _ _ _ (gives_back_multi g o m) c = c

  -- A pool with a positive maximum never holds more easy handles than that.
  pub pool-bounded :
      (maximum : ℕ) (cainfo capath : Option String) (e : E) (f : Factory E) (out : List ℕ)
      → 0 < maximum
      → Steps api (pooled_curl_handle_factory maximum cainfo capath e) [] f out
      → length f.handles ≤ maximum
  unfolding pooled_curl_handle_factory
  pool-bounded maximum cainfo capath e f out positive steps =
      (Steps-Bounded maximum _ f [] out positive steps (refl, omega arith)).1
