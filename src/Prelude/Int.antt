-- ===== src/Prelude/Int.antt =====
-- Signed integers over the native numbers, as far as the program compares and prints them.
use Prim.Native.Nat.{ℕ, suc, ◌+◌, ◌-◌, ◌*◌}
use mathlib.Core.Path.{◌≡◌}
use mathlib.Core.Bool.{Bool}
use native.Mathlib.Omega.{arith}
use Prim.Native.String
use Prim.Native.String.{String}
use cloudstorageapi.Prelude.Texts.{to_string}
use cloudstorageapi.Prelude.Tests.{ltb, leb, if◌then◌else◌}

-- `negsuc n` is -(n + 1).
pub data ℤ : Type 0 where
  pos : ℕ → ℤ
  negsuc : ℕ → ℤ

-- `os << z` on a signed number.
unfoldable pub show_int : ℤ → String
show_int (pos n) = to_string n
show_int (negsuc n) = String.◌++◌ "-" (to_string (suc n))

-- An integer and a number added, and a number taken from an integer.
abbrev pub add_nat : ℤ → ℕ → ℤ
add_nat (pos k) n = pos (k + n)
add_nat (negsuc k) n = if ltb k n then pos (n - suc k) else negsuc (k - n)

abbrev pub sub_nat : ℤ → ℕ → ℤ
sub_nat (pos k) n = if leb n k then pos (k - n) else negsuc (n - suc k)
sub_nat (negsuc k) n = negsuc (k + n)

abbrev pub pos_part : ℤ → ℕ
pos_part (pos n) = n
pos_part (negsuc n) = 0

abbrev pub neg_part : ℤ → ℕ
neg_part (pos n) = 0
neg_part (negsuc n) = suc n

-- a - b, as an integer.
abbrev pub sub_ℕ : ℕ → ℕ → ℤ
sub_ℕ a b = if leb b a then pos (a - b) else negsuc (b - a - 1)

infixl 65 ◌+ℤ◌ ◌-ℤ◌
unfoldable pub ◌+ℤ◌ : ℤ → ℤ → ℤ
a +ℤ b = sub_ℕ (pos_part a + pos_part b) (neg_part a + neg_part b)

unfoldable pub ◌-ℤ◌ : ℤ → ℤ → ℤ
a -ℤ b = sub_ℕ (pos_part a + neg_part b) (neg_part a + pos_part b)

-- A product with a number.
unfoldable pub scaled : ℕ → ℤ → ℤ
scaled k a = sub_ℕ (k * pos_part a) (k * neg_part a)

abbrev pub ltb_ℤ : ℤ → ℤ → Bool
ltb_ℤ a b = ltb (pos_part a + neg_part b) (pos_part b + neg_part a)

-- One lemma for each operation lets `omega` work with the operations shut.
pub +ℤ_parts :
    (a b : ℤ)
    → pos_part (a +ℤ b) + neg_part a + neg_part b ≡ neg_part (a +ℤ b) + pos_part a + pos_part b
unfolding ◌+ℤ◌
+ℤ_parts a b = ground arith

pub -ℤ_parts :
    (a b : ℤ)
    → pos_part (a -ℤ b) + neg_part a + pos_part b ≡ neg_part (a -ℤ b) + pos_part a + neg_part b
unfolding ◌-ℤ◌
-ℤ_parts a b = ground arith

pub scaled_parts :
    (k : ℕ) (a : ℤ)
    → pos_part (scaled k a) + k * neg_part a ≡ neg_part (scaled k a) + k * pos_part a
unfolding scaled
scaled_parts k a = sub_parts (k * pos_part a) (k * neg_part a)
  where
    sub_parts : (m n : ℕ) → pos_part (sub_ℕ m n) + n ≡ neg_part (sub_ℕ m n) + m
    sub_parts m n = ground arith

pub eq_of_parts : (a b : ℤ) → pos_part a + neg_part b ≡ pos_part b + neg_part a → a ≡ b
eq_of_parts a b h = ground arith

pub ruleset int_laws = (arith, +ℤ_parts, -ℤ_parts, eq_of_parts)
