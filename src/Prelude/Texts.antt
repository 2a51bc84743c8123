-- ===== src/Prelude/Texts.antt =====
-- Texts put together from pieces, as an output stream does it, and numbers in decimal.
use Prim.Native.Nat.{ℕ, zero, suc, ◌/◌, ◌%◌}
use Prim.Native.String
use Prim.Native.String.{String}
use mathlib.Core.Path.{◌≡◌, refl}
use mathlib.Core.List.{List, [], ◌∷◌}
use mathlib.Core.Bool.{Bool}
use cloudstorageapi.Prelude.Tests.{ltb, ◌==◌, if◌then◌else◌}

-- `os << a << b << …; os.str()`.
unfoldable pub concat : List String → String
concat [] = ""
concat (s ∷ ss) = String.◌++◌ s (concat ss)

-- One decimal digit.
unfoldable pub digit : ℕ → String
digit zero = "0"
digit (suc zero) = "1"
digit (suc (suc zero)) = "2"
digit (suc (suc (suc zero))) = "3"
digit (suc (suc (suc (suc zero)))) = "4"
digit (suc (suc (suc (suc (suc zero))))) = "5"
digit (suc (suc (suc (suc (suc (suc zero)))))) = "6"
digit (suc (suc (suc (suc (suc (suc (suc zero))))))) = "7"
digit (suc (suc (suc (suc (suc (suc (suc (suc zero)))))))) = "8"
digit (suc (suc (suc (suc (suc (suc (suc (suc (suc n))))))))) = "9"

-- The digits of `n` before the text `rest`; a number has no more digits than its own size and one.
unfoldable pub digits_before : ℕ → ℕ → String → String
unfolding digit
digits_before zero n rest = rest
digits_before (suc fuel) n rest =
    let more = digits_before fuel (n / 10) (String.◌++◌ (digit (n % 10)) rest) in
    if ltb n 10 then String.◌++◌ (digit n) rest else more

-- `std::to_string` and `os << n` on an unsigned number.
unfoldable pub to_string : ℕ → String
unfolding digits_before
to_string n = digits_before (suc n) n ""

to_string_runs : to_string 1048 ≡ "1048"
unfolding to_string
to_string_runs = refl

-- `s.empty()`.
abbrev pub is_empty_text : String → Bool
is_empty_text s = String.len s == 0
