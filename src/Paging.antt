-- ===== src/Paging.antt =====
-- Listings that are loaded page by page: `PagedStreamReader` of
-- include/cloudstorageapi/internal/pagination_range.h and `StreamRange` of
-- include/cloudstorageapi/internal/stream_range.h. A page token is the list of its characters.
pub mod Listing
mod Tests
use cloudstorageapi.Prelude.{
  ℕ, zero, suc, Bool, true, false, not, Option, none, some, List, [], ◌∷◌, ◌&&◌, if◌then◌else◌,
  is_empty,
}
use cloudstorageapi.Status.{
  Status, ok_status, is_ok, unimplemented, StatusOrVal, value, failure, default_result,
}

abbrev pub Token : Type 0
Token = List ℕ

-- `std::variant<Status, T>`, what a `StreamReader` returns.
pub data Read (T : Type 0) : Type 0 where
  status : Status → Read T
  item : T → Read T

-- The members of `PagedStreamReader` that change. Of the request it is the page token that does;
-- `page` is what is left of the page from `m_current` on.
pub record Reader (T : Type 0) (W : Type 0) : Type 0 where
  pub request_token : Token
  pub page : List T
  pub token : Token
  pub last_page : Bool
  pub world : W

-- `StreamRange`.
pub record Range (T : Type 0) (W : Type 0) : Type 0 where
  pub reader : Reader T W
  pub current : StatusOrVal T
  pub is_end : Bool

-- `StatusOrVal::operator bool`.
abbrev pub has_value : {A : Type 0} → StatusOrVal A → Bool
has_value (value a) = true
has_value (failure s) = false

abbrev pub with_first : {A : Type 0} → A → Option (List A) → Option (List A)
with_first a none = none
with_first a (some xs) = some (a ∷ xs)

module _ {T R W : Type 0} (loader : Token → W → StatusOrVal R × W) (extractor : R → List T)
    (page_token : R → Token) where
  -- The constructor, for a request that carries a token.
  pub paged_stream_reader : Token → W → Reader T W
  paged_stream_reader request_token w = record {
    request_token = request_token;
    page = [];
    token = [];
    last_page = false;
    world = w;
  }

  -- What `GetNext` does with the next item of the page, or at its end.
  pub from_page : List T → Reader T W → Read T × Reader T W
  from_page [] r = (status ok_status, record r { page = [] })
  from_page (x ∷ xs) r = (item x, record r { page = xs })

  -- What `GetNext` does with the response. A string that was moved from is taken to be empty.
  pub after_load : StatusOrVal R × W → Reader T W → Read T × Reader T W
  after_load (failure s, w) r =
      (status s, record r { request_token = r.token; token = []; world = w })
  after_load (value response, w) r =
      let token = page_token response in
      from_page (extractor response) (record {
        request_token = r.token;
        page = [];
        token = token;
        last_page = is_empty token;
        world = w;
      })

  -- `PagedStreamReader::GetNext`.
  pub get_next : Reader T W → Read T × Reader T W
  get_next r =
      if not (is_empty r.page)
      then from_page r.page r
      else if r.last_page
      then (status ok_status, r)
      else after_load (loader r.token r.world) r

  -- `UnpackVariant` of `StreamRange::Next`.
  pub unpack : Read T × Reader T W → Range T W → Range T W
  unpack (status s, r) g = record {
    reader = r;
    current = if is_ok s then g.current else failure s;
    is_end = is_ok s;
  }
  unpack (item x, r) g = record { reader = r; current = value x; is_end = false }

  -- `StreamRange::Next`, which is `operator++` of the iterator.
  pub advance : Range T W → Range T W
  advance g =
      if not g.is_end && not (has_value g.current)
      then record g { is_end = true }
      else unpack (get_next g.reader) g

  -- The constructor of `StreamRange`, over the reader of `MakePaginationRange`.
  pub make_pagination_range : Token → W → Range T W
  make_pagination_range request_token w = advance (record {
    reader = paged_stream_reader request_token w;
    current = default_result;
    is_end = true;
  })

  -- The elements of the range, from `begin()` to `end()`; `none` means that the fuel ran out.
  pub elements : ℕ → Range T W → Option (List (StatusOrVal T))
  elements zero g = none
  elements (suc fuel) g =
      let rest = with_first g.current (elements fuel (advance g)) in
      if g.is_end then some [] else rest
