-- ===== src/Rfc3339/Digits.antt =====
-- The digits that `snprintf` and `strftime` print, as `sscanf` reads them.
use cloudstorageapi.Prelude.{
  ℕ, zero, suc, ◌+◌, ◌*◌, ◌/◌, ◌%◌, ◌≡◌, refl, sym, ap, ◌∙◌, subst, ◌≤◌, ◌<◌, Bool, true, false,
  some, [], ◌∷◌, ◌++◌, arith, ◌==◌, length, pos,
}
use cloudstorageapi.Rfc3339.{c_str, padded}
use cloudstorageapi.Rfc3339.Scan.{
  Bytes, is_space, is_digit, positive, scan_digits, skip_space, scan_sign, scan_int,
}

-- The powers of ten.
abbrev pub pow_10 : ℕ → ℕ
pow_10 zero = 1
pow_10 (suc w) = 10 * pow_10 w

++-assoc : (s t u : Bytes) → (s ++ t) ++ u ≡ s ++ (t ++ u)
++-assoc [] t u = refl
++-assoc (c ∷ s) t u = ap (λ k. c ∷ k) (++-assoc s t u)

pub padded-++ :
    (w n : ℕ) (rest : Bytes)
    → padded (suc w) n ++ rest ≡ padded w (n / 10) ++ ((b'0' + n % 10) ∷ rest)
unfolding padded
padded-++ w n rest = ++-assoc (padded w (n / 10)) ((b'0' + n % 10) ∷ []) rest

abbrev seen_after : ℕ → Bool → Bool
seen_after zero seen = seen
seen_after (suc w) seen = true

digit_of : (n : ℕ) → is_digit (b'0' + n % 10) ≡ true
digit_of n = ground arith

scan_digit :
    (k a n : ℕ) (seen : Bool) (rest : Bytes)
    → a ≡ n / 10
    → scan_digits (suc k) a seen ((b'0' + n % 10) ∷ rest) ≡ scan_digits k n true rest
unfolding scan_digits
scan_digit k a n seen rest e = rw (digit_of n) (ap (λ m. scan_digits k m true rest) (omega arith))

pub scan_digits-padded :
    (w k m n : ℕ) (seen : Bool) (rest : Bytes)
    → m ≡ w + k
    → n < pow_10 w
    → scan_digits m 0 seen (padded w n ++ rest) ≡ scan_digits k n (seen_after w seen) rest
unfolding padded
scan_digits-padded zero k m n seen rest e h =
    ap (λ j. scan_digits j 0 seen rest) {x = m} {y = k} (omega arith)
    ∙ ap (λ a. scan_digits k a seen rest) {x = 0} {y = n} (omega arith)
scan_digits-padded (suc w) k m n seen rest e h =
    ap (scan_digits m 0 seen) (padded-++ w n rest)
    ∙ scan_digits-padded w (suc k) m (n / 10) seen ((b'0' + n % 10) ∷ rest) (omega arith)
        (omega arith)
    ∙ scan_digit k (n / 10) n (seen_after w seen) rest refl

abbrev StartsWithDigit : Bytes → Type 0
StartsWithDigit [] = ⊥
StartsWithDigit (c ∷ s) = is_digit c ≡ true

padded-StartsWithDigit : (w n : ℕ) (rest : Bytes) → StartsWithDigit (padded (suc w) n ++ rest)
unfolding padded
padded-StartsWithDigit zero n rest = digit_of n
padded-StartsWithDigit (suc w) n rest =
    subst StartsWithDigit (sym (padded-++ (suc w) n rest))
      (padded-StartsWithDigit w (n / 10) ((b'0' + n % 10) ∷ rest))

scan_int-digits :
    (w : ℕ) (s : Bytes) → StartsWithDigit s → scan_int w s ≡ positive (scan_digits w 0 false s)
unfolding scan_int scan_sign skip_space
scan_int-digits w [] h = absurd h
scan_int-digits w (c ∷ s) h = rw (no_space) (rw (no_minus) (rw (no_plus) refl))
  where
    no_space : is_space c ≡ false
    no_space = ground arith

    no_minus : (c == b'-') ≡ false
    no_minus = ground arith

    no_plus : (c == b'+') ≡ false
    no_plus = ground arith

-- A number of a fixed width is read back, whatever follows.
pub scan_int-padded :
    (w n : ℕ) (rest : Bytes)
    → n < pow_10 (suc w)
    → scan_int (suc w) (padded (suc w) n ++ rest) ≡ some (pos n, rest)
unfolding scan_digits
scan_int-padded w n rest h =
    scan_int-digits (suc w) (padded (suc w) n ++ rest) (padded-StartsWithDigit w n rest)
    ∙ ap positive (scan_digits-padded (suc w) 0 (suc w) n false rest (omega arith) h)

-- A number that no digit follows is read back with room to spare.
pub scan_int-short :
    (w k n c : ℕ) (rest : Bytes)
    → n < pow_10 (suc w)
    → is_digit c ≡ false
    → scan_int (suc w + k) (padded (suc w) n ++ (c ∷ rest)) ≡ some (pos n, c ∷ rest)
unfolding scan_digits
scan_int-short w k n c rest h no_digit =
    scan_int-digits (suc w + k) (padded (suc w) n ++ (c ∷ rest))
      (padded-StartsWithDigit w n (c ∷ rest))
    ∙ ap positive (scan_digits-padded (suc w) k (suc w + k) n false (c ∷ rest) refl h ∙ stops k)
  where
    stops : (k : ℕ) → scan_digits k n true (c ∷ rest) ≡ some (n, c ∷ rest)
    stops zero = refl
    stops (suc k) = rw (no_digit) refl

pub length-padded : (w n : ℕ) (rest : Bytes) → length (padded w n ++ rest) ≡ w + length rest
unfolding padded
length-padded zero n rest = omega arith
length-padded (suc w) n rest =
    ap length (padded-++ w n rest) ∙ length-padded w (n / 10) ((b'0' + n % 10) ∷ rest) ∙ omega arith

-- No digit is NUL.
pub c_str-padded : (w n : ℕ) (rest : Bytes) → c_str (padded w n ++ rest) ≡ padded w n ++ c_str rest
unfolding padded c_str
c_str-padded zero n rest = refl
c_str-padded (suc w) n rest =
    ap c_str (padded-++ w n rest)
    ∙ c_str-padded w (n / 10) ((b'0' + n % 10) ∷ rest)
    ∙ ap (λ k. padded w (n / 10) ++ k) (one (b'0' + n % 10) (omega arith))
    ∙ sym (padded-++ w n (c_str rest))
  where
    one : (c : ℕ) → 1 ≤ c → c_str (c ∷ rest) ≡ c ∷ c_str rest
    one c h = ground arith
