-- ===== src/Rfc3339/Scan.antt =====
-- `sscanf` and the fields that src/rfc3339_time.cpp reads by it: a text is the list of its bytes.
use cloudstorageapi.Prelude.{
  ℕ, zero, suc, ◌+◌, ◌-◌, ◌*◌, Bool, true, false, ◌&&◌, ◌||◌, Option, none, some, List, [], ◌∷◌,
  ◌==◌, leb, if◌then◌else◌, ℤ, pos, ◌-ℤ◌,
}

abbrev pub Bytes : Type 0
Bytes = List ℕ

-- `std::isspace`, `std::isdigit`.
abbrev pub is_space : ℕ → Bool
is_space c = c == 32 || (leb 9 c && leb c 13)

abbrev pub is_digit : ℕ → Bool
is_digit c = leb b'0' c && leb c b'9'

-- `sscanf`: what `%d` does after the sign, with `width` characters to go; the flag says whether a
-- digit was seen.
unfoldable pub scan_digits : ℕ → ℕ → Bool → Bytes → Option (ℕ × Bytes)
scan_digits zero acc seen s = if seen then some (acc, s) else none
scan_digits (suc width) acc seen [] = if seen then some (acc, []) else none
scan_digits (suc width) acc seen (c ∷ s) =
    let more = scan_digits width (acc * 10 + (c - b'0')) true s in
    if is_digit c then more else if seen then some (acc, c ∷ s) else none

unfoldable pub skip_space : Bytes → Bytes
skip_space [] = []
skip_space (c ∷ s) = let more = skip_space s in if is_space c then more else c ∷ s

abbrev pub positive : Option (ℕ × Bytes) → Option (ℤ × Bytes)
positive none = none
positive (some (n, s)) = some (pos n, s)

abbrev negative : Option (ℕ × Bytes) → Option (ℤ × Bytes)
negative none = none
negative (some (n, s)) = some (pos 0 -ℤ pos n, s)

unfoldable pub scan_sign : ℕ → Bytes → Option (ℤ × Bytes)
unfolding scan_digits
scan_sign width [] = none
scan_sign width (c ∷ s) =
    if c == b'-'
    then negative (scan_digits (width - 1) 0 false s)
    else if c == b'+'
    then positive (scan_digits (width - 1) 0 false s)
    else positive (scan_digits width 0 false (c ∷ s))

-- `%<width>d`.
unfoldable pub scan_int : ℕ → Bytes → Option (ℤ × Bytes)
unfolding scan_sign skip_space
scan_int width s = scan_sign width (skip_space s)

-- A character of the format, and `%c`.
unfoldable pub scan_char : ℕ → Bytes → Option Bytes
scan_char k [] = none
scan_char k (c ∷ s) = if c == k then some s else none

unfoldable pub scan_any : Bytes → Option (ℕ × Bytes)
scan_any [] = none
scan_any (c ∷ s) = some (c, s)

infixl 5 ◌>>=◌
abbrev pub ◌>>=◌ : {A B : Type 0} → Option A → (A → Option B) → Option B
none >>= f = none
some a >>= f = f a

-- The fields of the date and the time, and what is left.
pub record Fields : Type 0 where
  pub year : ℤ
  pub month : ℤ
  pub day : ℤ
  pub separator : ℕ
  pub hours : ℤ
  pub minutes : ℤ
  pub seconds : ℤ
  pub left : Bytes

-- `"%4d-%2d-%2d%c%2d:%2d:%2d%n"`.
unfoldable pub scan_fields : Bytes → Option Fields
scan_fields s0 = do
  (year, s1) ← scan_int 4 s0
  s2 ← scan_char b'-' s1
  (month, s3) ← scan_int 2 s2
  s4 ← scan_char b'-' s3
  (day, s5) ← scan_int 2 s4
  (separator, s6) ← scan_any s5
  (hours, s7) ← scan_int 2 s6
  s8 ← scan_char b':' s7
  (minutes, s9) ← scan_int 2 s8
  s10 ← scan_char b':' s9
  (seconds, s11) ← scan_int 2 s10
  some (record {
    year = year;
    month = month;
    day = day;
    separator = separator;
    hours = hours;
    minutes = minutes;
    seconds = seconds;
    left = s11;
  })
