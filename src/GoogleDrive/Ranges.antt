-- ===== src/GoogleDrive/Ranges.antt =====
-- The range header of a download asks for the bytes from where the source says that it starts.
use cloudstorageapi.Prelude.{
  ℕ, zero, suc, max, ℤ, pos, negsuc, ◌-ℤ◌, show_int, ◌≡◌, refl, sym, subst, ap, ◌⊎◌, inl, inr,
  Option, none, some, String, [], ◌∷◌, concat, arith,
}
use cloudstorageapi.ReadSource.{ReadRequest, starting_byte}
use cloudstorageapi.GoogleDrive.{get_read_range_header, max_ℤ, between, from_there}

-- Options without negative numbers.
abbrev pub NotNegative : Option ℤ → Type 0
NotNegative none = Unit {0}
NotNegative (some (pos n)) = Unit {0}
NotNegative (some (negsuc n)) = ⊥

abbrev pub RangeNotNegative : Option (ℤ × ℤ) → Type 0
RangeNotNegative none = Unit {0}
RangeNotNegative (some (first, end)) = NotNegative (some first)

-- The header asks for everything, or for the bytes from `n` on.
abbrev pub AsksFrom : String → ℤ → Type 0
AsksFrom header n =
    ((header ≡ "") × (n ≡ pos 0))
    ⊎ ((rest : String) × (header ≡ concat ("Range: bytes=" ∷ show_int n ∷ "-" ∷ rest ∷ [])))

max_ℤ-max : (a b : ℕ) → max_ℤ (pos a) (pos b) ≡ pos (max (max 0 a) b)
max_ℤ-max a b = ground arith

abbrev without_last : Option (ℤ × ℤ) → Option ℤ → Option ℤ → ReadRequest
without_last range offset last = record {
  read_range = range;
  read_from_offset = offset;
  read_last = last;
}

without_last-AsksFrom :
    (range : Option (ℤ × ℤ)) (offset : Option ℤ)
    → RangeNotNegative range
    → NotNegative offset
    → AsksFrom
        (get_read_range_header (without_last range offset none))
        (starting_byte (without_last range offset none))
unfolding get_read_range_header starting_byte concat
without_last-AsksFrom none none r o = inl (refl, refl)
without_last-AsksFrom none (some (pos zero)) r o = inl (refl, ap pos (omega arith))
without_last-AsksFrom none (some (pos (suc n))) r o =
    inr ("", ap from_there {x = pos (suc n)} {y = pos (max 0 (suc n))} (ap pos (omega arith)))
without_last-AsksFrom none (some (negsuc n)) r o = absurd o
without_last-AsksFrom (some (pos a, e)) none r o = inr (
  show_int (e -ℤ pos 1),
  ap (λ k. between k e) {x = pos a} {y = pos (max 0 a)} (ap pos (omega arith)),
)
without_last-AsksFrom (some (pos a, e)) (some (pos b)) r o =
    inr (show_int (e -ℤ pos 1), ap (λ k. between k e) (max_ℤ-max a b))
without_last-AsksFrom (some (pos a, e)) (some (negsuc b)) r o = absurd o
without_last-AsksFrom (some (negsuc a, e)) offset r o = absurd r

-- A download that does not ask for last bytes, and whose range and offset are not negative: the
-- header asks for the bytes from the byte that the request calls its first, or there is no header and
-- this is the byte 0.
pub get_read_range_header-starting_byte :
    (q : ReadRequest)
    → q.read_last ≡ none
    → RangeNotNegative q.read_range
    → NotNegative q.read_from_offset
    → AsksFrom (get_read_range_header q) (starting_byte q)
get_read_range_header-starting_byte q h r o =
    subst
      (λ l.
        AsksFrom (get_read_range_header (record q { read_last = l }))
          (starting_byte (record q { read_last = l })))
      (sym h) (without_last-AsksFrom q.read_range q.read_from_offset r o)
