-- ===== src/HandlePool.antt =====
-- `PooledCurlHandleFactory`: src/transport/curl_handle_factory.cpp and
-- include/cloudstorageapi/internal/curl_handle_factory.h. Each operation holds the mutex, so that
-- operations follow one another. libcurl is a record of operations on its own state.
pub mod Owned
pub mod Steps
mod Tests
use cloudstorageapi.Prelude.{
  ℕ, zero, suc, Bool, true, false, Option, none, some, String, List, [], ◌∷◌, ◌++◌, leb,
  if◌then◌else◌, length,
}

-- What the factory calls in libcurl, for easy and for multi handles: `set_cainfo` and `set_capath` are
-- `curl_easy_setopt` with two of its options, and `local_ip` is the address of the last connection,
-- if libcurl tells one.
pub record Curl (E : Type 0) : Type 0 where
  pub easy_init : E → ℕ × E
  pub easy_cleanup : ℕ → E → E
  pub easy_reset : ℕ → E → E
  pub set_cainfo : String → ℕ → E → E
  pub set_capath : String → ℕ → E → E
  pub local_ip : ℕ → E → Option String
  pub multi_init : E → ℕ × E
  pub multi_cleanup : ℕ → E → E

-- `PooledCurlHandleFactory`, with the state of libcurl. The handles stand in the vectors' order.
pub record Factory (E : Type 0) : Type 0 where
  pub maximum_size : ℕ
  pub handles : List ℕ
  pub multi_handles : List ℕ
  pub last_client_ip_address : String
  pub cainfo : Option String
  pub capath : Option String
  pub curl : E

-- The constructor, with what the options hold.
pub pooled_curl_handle_factory : {E : Type 0} → ℕ → Option String → Option String → E → Factory E
pooled_curl_handle_factory maximum_size cainfo capath e = record {
  maximum_size = maximum_size;
  handles = [];
  multi_handles = [];
  last_client_ip_address = "";
  cainfo = cainfo;
  capath = capath;
  curl = e;
}

-- `back()` and `pop_back()` of a vector that starts with `h`.
unfoldable pub pop_back : ℕ → List ℕ → List ℕ × ℕ
pop_back h [] = ([], h)
pop_back h (k ∷ ks) = let (rest, last) = pop_back k ks in (h ∷ rest, last)

-- The loop that makes room: release the first handles while there are `maximum` or more. (The source
-- reads the front of an empty vector if the maximum is 0.)
pub make_room : {E : Type 0} → (ℕ → E → E) → ℕ → List ℕ → E → List ℕ × E
make_room release maximum [] e = ([], e)
make_room release maximum (h ∷ hs) e =
    let rest = make_room release maximum hs (release h e) in
    if leb maximum (length (h ∷ hs)) then rest else (h ∷ hs, e)

-- Release all handles, in order.
pub release_all : {E : Type 0} → (ℕ → E → E) → List ℕ → E → E
release_all release [] e = e
release_all release (h ∷ hs) e = release_all release hs (release h e)

-- The address to remember.
abbrev pub address_or : Option String → String → String
address_or none before = before
address_or (some ip) before = ip

-- An option that is set, or not.
pub set_option : {E : Type 0} → (String → ℕ → E → E) → Option String → ℕ → E → E
set_option set none h e = e
set_option set (some text) h e = set text h e

module _ {E : Type 0} (api : Curl E) where
  open api use {
    easy_init, easy_cleanup, easy_reset, set_cainfo, set_capath, local_ip, multi_init,
    multi_cleanup,
  }

  -- `SetCurlOptions`.
  pub set_curl_options : Factory E → ℕ → E → E
  set_curl_options f h e = set_option set_capath f.capath h (set_option set_cainfo f.cainfo h e)

  -- `CreateHandle` on the pool's vector.
  pub create_from : List ℕ → Factory E → ℕ × Factory E
  create_from [] f =
      let (h, e) = easy_init f.curl in (h, record f { curl = set_curl_options f h e })
  create_from (h ∷ hs) f =
      let (rest, last) = pop_back h hs in
      (last, record f { handles = rest; curl = set_curl_options f last (easy_reset last f.curl) })

  -- `CreateHandle`.
  pub create_handle : Factory E → ℕ × Factory E
  create_handle f = create_from f.handles f

  -- `CleanupHandle`, for a handle that is not the null pointer.
  pub cleanup_handle : ℕ → Factory E → Factory E
  cleanup_handle h f =
      let (kept, e) = make_room easy_cleanup f.maximum_size f.handles f.curl in
      record f {
        handles = kept ++ h ∷ [];
        last_client_ip_address = address_or (local_ip h f.curl) f.last_client_ip_address;
        curl = e;
      }

  -- `CreateMultiHandle` on the pool's vector.
  pub create_multi_from : List ℕ → Factory E → ℕ × Factory E
  create_multi_from [] f = let (m, e) = multi_init f.curl in (m, record f { curl = e })
  create_multi_from (m ∷ ms) f =
      let (rest, last) = pop_back m ms in (last, record f { multi_handles = rest })

  -- `CreateMultiHandle`.
  pub create_multi_handle : Factory E → ℕ × Factory E
  create_multi_handle f = create_multi_from f.multi_handles f

  -- `CleanupMultiHandle`, for a handle that is not the null pointer.
  pub cleanup_multi_handle : ℕ → Factory E → Factory E
  cleanup_multi_handle m f =
      let (kept, e) = make_room multi_cleanup f.maximum_size f.multi_handles f.curl in
      record f { multi_handles = kept ++ m ∷ []; curl = e }

  -- The destructor.
  pub destroy : Factory E → E
  destroy f = release_all multi_cleanup f.multi_handles (release_all easy_cleanup f.handles f.curl)
