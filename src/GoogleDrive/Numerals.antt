-- ===== src/GoogleDrive/Numerals.antt =====
-- The range header that tells the last byte, as the client reads it.
use Prim.Native.String
use cloudstorageapi.Prelude.{
  ℕ, zero, suc, ◌+◌, ◌*◌, ◌/◌, ◌%◌, ◌^◌, ◌<◌, ◌≡◌, refl, sym, ap, ◌∙◌, subst, pos, Bool, true,
  false, some, String, List, [], ◌∷◌, concat, to_string, digit, digits_before, codes, codes-append,
  strip_prefix, arith, inl, inr, Bool-cases, ltb, ltb→lt, not-ltb→le, ◌==◌, append-nil,
}
use cloudstorageapi.Rfc3339.Scan.{is_digit, is_space, skip_space}
use cloudstorageapi.GoogleDrive.{
  read_digits, at_most_long, read_sign, strtoll, committed, after_prefix, last_of_range,
}

digit-codes :
    (n : ℕ) (rest : String) → n < 10 → codes (String.◌++◌ (digit n) rest) ≡ (b'0' + n) ∷ codes rest
unfolding digit
digit-codes zero rest h = codes-append "0" rest
digit-codes (suc zero) rest h = codes-append "1" rest
digit-codes (suc (suc zero)) rest h = codes-append "2" rest
digit-codes (suc (suc (suc zero))) rest h = codes-append "3" rest
digit-codes (suc (suc (suc (suc zero)))) rest h = codes-append "4" rest
digit-codes (suc (suc (suc (suc (suc zero))))) rest h = codes-append "5" rest
digit-codes (suc (suc (suc (suc (suc (suc zero)))))) rest h = codes-append "6" rest
digit-codes (suc (suc (suc (suc (suc (suc (suc zero))))))) rest h = codes-append "7" rest
digit-codes (suc (suc (suc (suc (suc (suc (suc (suc zero)))))))) rest h = codes-append "8" rest
digit-codes (suc (suc (suc (suc (suc (suc (suc (suc (suc zero))))))))) rest h =
    codes-append "9" rest
digit-codes (suc (suc (suc (suc (suc (suc (suc (suc (suc (suc n)))))))))) rest h =
    absurd (omega arith)

is_digit-digit : (n : ℕ) → n < 10 → is_digit (b'0' + n) ≡ true
is_digit-digit n h = ground arith

read_digit :
    (a d n : ℕ) (seen : Bool) (rest : String)
    → d < 10
    → n ≡ a * 10 + d
    → read_digits a seen (codes (String.◌++◌ (digit d) rest)) ≡ read_digits n true (codes rest)
unfolding read_digits
read_digit a d n seen rest h e =
    ap (read_digits a seen) (digit-codes d rest h)
    ∙ rw (is_digit-digit d h) (ap (λ m. read_digits m true (codes rest)) (omega arith))

read_digits-before :
    (fuel n : ℕ) (seen : Bool) (rest : String)
    → n < fuel
    → read_digits 0 seen (codes (digits_before fuel n rest)) ≡ read_digits n true (codes rest)
unfolding digits_before
read_digits-before zero n seen rest h = absurd (omega arith)
read_digits-before (suc fuel) n seen rest h = elim (Bool-cases (ltb n 10)) [
  | inl small ↦ rw (small) (read_digit 0 n n seen rest (ltb→lt n 10 small) (omega arith))
  | inr large ↦
      let many = not-ltb→le n 10 large in
      rw (large) (
        read_digits-before fuel (n / 10) seen (String.◌++◌ (digit (n % 10)) rest) (omega arith)
        ∙ read_digit (n / 10) (n % 10) n true rest (omega arith) (omega arith))
]

abbrev StartsWithDigit : List ℕ → Type 0
StartsWithDigit [] = ⊥
StartsWithDigit (c ∷ s) = is_digit c ≡ true

digits_before-StartsWithDigit :
    (fuel n : ℕ) (rest : String) → n < fuel → StartsWithDigit (codes (digits_before fuel n rest))
unfolding digits_before
digits_before-StartsWithDigit zero n rest h = absurd (omega arith)
digits_before-StartsWithDigit (suc fuel) n rest h = elim (Bool-cases (ltb n 10)) [
  | inl small ↦ rw (small) (
      let lt = ltb→lt n 10 small in
      subst StartsWithDigit (sym (digit-codes n rest lt)) (is_digit-digit n lt))
  | inr large ↦
      let many = not-ltb→le n 10 large in
      rw (large) (
        digits_before-StartsWithDigit fuel (n / 10) (String.◌++◌ (digit (n % 10)) rest)
          (omega arith))
]

strtoll-digits : (s : List ℕ) → StartsWithDigit s → strtoll s ≡ at_most_long (read_digits 0 false s)
unfolding strtoll read_sign skip_space
strtoll-digits [] h = absurd h
strtoll-digits (c ∷ s) h = rw (no_space) (rw (no_minus) (rw (no_plus) refl))
  where
    no_space : is_space c ≡ false
    no_space = ground arith

    no_minus : (c == b'-') ≡ false
    no_minus = ground arith

    no_plus : (c == b'+') ≡ false
    no_plus = ground arith

strtoll-to_string : (n : ℕ) → n < 2 ^ 63 → strtoll (codes (to_string n)) ≡ some (pos n, [])
unfolding to_string read_digits
strtoll-to_string n h =
    strtoll-digits (codes (digits_before (suc n) n ""))
      (digits_before-StartsWithDigit (suc n) n "" (omega arith))
    ∙ ap at_most_long (read_digits-before (suc n) n false "" (omega arith))
    ∙ ap (λ m. some (pos m, [])) (omega arith)

-- The value of the header that tells the last byte.
abbrev pub range_value : ℕ → String
range_value last = concat ("bytes=0-" ∷ to_string last ∷ [])

-- The range header that tells the last byte `n`, for an `n` below 2^63, is read as that byte.
pub last_of_range-range_value : (n : ℕ) → n < 2 ^ 63 → last_of_range (range_value n) ≡ some n
unfolding last_of_range concat strip_prefix
last_of_range-range_value n h =
    ap (λ k. after_prefix (strip_prefix (codes "bytes=0-") k))
      (codes-append "bytes=0-" (String.◌++◌ (to_string n) ""))
    ∙ ap (λ k. committed (strtoll k))
        (codes-append (to_string n) "" ∙ append-nil (codes (to_string n)))
    ∙ ap committed (strtoll-to_string n h)
