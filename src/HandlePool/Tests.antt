-- ===== src/HandlePool/Tests.antt =====
-- A pool of one handle, over a libcurl that numbers its handles.
use cloudstorageapi.Prelude.{
  ℕ, suc, ◌+◌, ◌-◌, ◌≡◌, ◌≤◌, refl, none, List, [], ◌∷◌, arith, length, ◌==◌, if◌then◌else◌, max,
}
use cloudstorageapi.HandlePool.{
  Curl, Factory, pooled_curl_handle_factory, create_handle, create_from, cleanup_handle, make_room,
  set_option, set_curl_options,
}
use cloudstorageapi.HandlePool.Owned.{count, one_if, Ledger}
use cloudstorageapi.HandlePool.Steps.{
  Steps, done, then_step, creates, gives_back, pool-owns, pool-bounded,
}

-- The handles that were made and not released, and a number above them.
abbrev above : List ℕ → ℕ
above [] = 0
above (k ∷ ks) = suc (max k (above ks))

abbrev remove : ℕ → List ℕ → List ℕ
remove k [] = []
remove k (l ∷ ls) = let rest = remove k ls in if k == l then ls else l ∷ rest

abbrev numbered : Curl (List ℕ)
numbered = record {
  easy_init = λ e. (above e, above e ∷ e);
  easy_cleanup = remove;
  easy_reset = λ h e. e;
  set_cainfo = λ a h e. e;
  set_capath = λ a h e. e;
  local_ip = λ h e. none;
  multi_init = λ e. (0, e);
  multi_cleanup = λ h e. e;
}

count-above : (h : ℕ) (e : List ℕ) → above e ≤ h → count h e ≡ 0
count-above h [] le = refl
count-above h (k ∷ ks) le = ground (arith, count-above h ks (omega arith))

count-remove : (h k : ℕ) (e : List ℕ) → count h (remove k e) ≡ count h e - one_if (h == k)
count-remove h k [] = omega arith
count-remove h k (l ∷ ls) = ground (arith, count-remove h k ls)

numbered-Ledger : Ledger numbered count
numbered-Ledger = record {
  fresh = λ e. count-above (above e) e (omega arith);
  on_init = λ h e. omega arith;
  on_cleanup = count-remove;
  on_reset = λ h k e. refl;
  on_cainfo = λ h k a e. refl;
  on_capath = λ h k a e. refl;
  on_multi_init = λ h e. refl;
  on_multi_cleanup = λ h k e. refl;
}

abbrev empty_pool : Factory (List ℕ)
empty_pool = record {
  maximum_size = 1;
  handles = [];
  multi_handles = [];
  last_client_ip_address = "";
  cainfo = none;
  capath = none;
  curl = [];
}

-- Two handles are made and both are given back: the one that came back first is released.
abbrev one_kept : Factory (List ℕ)
one_kept = record empty_pool { handles = 0 ∷ []; curl = 0 ∷ [] }

two_handles : Steps numbered (pooled_curl_handle_factory 1 none none []) [] one_kept []
unfolding pooled_curl_handle_factory create_handle create_from cleanup_handle make_room set_option
    set_curl_options
two_handles =
    then_step _ _ _ _ _ _
      (then_step _ _ _ _ _ _
        (then_step _ _ _ _ _ _ (then_step _ _ _ _ _ _ (done _ _) (creates empty_pool []))
          (creates (record empty_pool { curl = 0 ∷ [] }) (0 ∷ [])))
        (gives_back (record empty_pool { curl = 1 ∷ 0 ∷ [] }) [] (0 ∷ []) 1))
      (gives_back (record empty_pool { handles = 1 ∷ []; curl = 1 ∷ 0 ∷ [] }) [] [] 0)

pool-owns_example :
    (count 0 one_kept.curl ≤ 1) × (count 0 one_kept.curl ≡ count 0 one_kept.handles + count 0 [])
pool-owns_example =
    pool-owns numbered count numbered-Ledger 1 none none [] one_kept [] (λ h. refl) two_handles 0

pool-bounded_example : length one_kept.handles ≤ 1
pool-bounded_example =
    pool-bounded numbered count numbered-Ledger 1 none none [] one_kept [] (omega arith) two_handles
