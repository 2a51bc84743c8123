-- ===== src/Rfc3339/Fraction.antt =====
-- Fractions of a second: what `FormatFractional` prints, `ParseFractionalSeconds` reads.
use cloudstorageapi.Prelude.{
  ℕ, zero, suc, ◌+◌, ◌-◌, ◌*◌, ◌/◌, ◌%◌, ◌≡◌, refl, ap, ◌∙◌, ◌<◌, inl, inr, Bool-cases, String, [],
  ◌∷◌, ◌++◌, arith, ◌==◌, length, pos, scaled, scaled_parts, eq_of_parts,
}
use cloudstorageapi.Status.{value}
use cloudstorageapi.Rfc3339.{
  fraction_of, times_ten, skip_digits, parse_fractional_seconds, padded, format_fractional, c_str,
}
use cloudstorageapi.Rfc3339.Scan.{Bytes, scan_int}
use cloudstorageapi.Rfc3339.Digits.{pow_10, scan_int-short, length-padded, c_str-padded}

scaled-pos : (k n : ℕ) → scaled k (pos n) ≡ pos (k * n)
scaled-pos k n =
    let parts = scaled_parts k (pos n) in
    let none = zeros k in eq_of_parts (scaled k (pos n)) (pos (k * n)) (omega arith)
  where
    zeros : (k : ℕ) → k * 0 ≡ 0
    zeros k = omega arith

abbrev raised : ℕ → ℕ → ℕ
raised zero n = n
raised (suc k) n = raised k (10 * n)

times_ten-pos : (k n : ℕ) → times_ten k (pos n) ≡ pos (raised k n)
unfolding times_ten
times_ten-pos zero n = refl
times_ten-pos (suc k) n = ap (times_ten k) (scaled-pos 10 n) ∙ times_ten-pos k (10 * n)

abbrev pub z_only : Bytes
z_only = b'Z' ∷ []

-- A fraction of `suc w` digits.
fraction-padded :
    (w k n : ℕ) (timestamp : String)
    → w + k ≡ 8
    → n < pow_10 (suc w)
    → parse_fractional_seconds timestamp (b'.' ∷ (padded (suc w) n ++ z_only))
      ≡ value (pos (raised k n), z_only)
unfolding parse_fractional_seconds skip_digits
fraction-padded w k n timestamp e h =
    ap (fraction_of timestamp s) (
      ap (λ m. scan_int m s) {x = 9} {y = suc w + k} (omega arith)
      ∙ scan_int-short w k n b'Z' [] h refl)
    ∙ ap (λ z. value (z, z_only))
        (ap (λ m. times_ten m (pos n)) {x = 9 - (length s - 1)} {y = k}
            (omega (arith, length-padded (suc w) n z_only))
          ∙ times_ten-pos k n)
  where
    s : Bytes
    s = padded (suc w) n ++ z_only

pub parse_fractional_seconds-format_fractional :
    (ns : ℕ) (timestamp : String)
    → ns < 1000000000
    → parse_fractional_seconds timestamp (format_fractional ns ++ z_only) ≡ value (pos ns, z_only)
unfolding parse_fractional_seconds format_fractional padded
parse_fractional_seconds-format_fractional ns timestamp h = elim (Bool-cases (ns == 0)) [
  | inl none ↦ rw (none) (ap (λ n. value (pos n, z_only)) {x = 0} {y = ns} (ground arith))
  | inr some ↦ rw (some) (elim (Bool-cases (ns % 1000000 == 0)) [
    | inl milli ↦ rw (milli) (
        fraction-padded 2 6 (ns / 1000000) timestamp refl (omega arith)
        ∙ ap (λ n. value (pos n, z_only)) {x = raised 6 (ns / 1000000)} {y = ns} (ground arith))
    | inr no_milli ↦ rw (no_milli) (elim (Bool-cases (ns % 1000 == 0)) [
      | inl micro ↦ rw (micro) (
          fraction-padded 5 3 (ns / 1000) timestamp refl (omega arith)
          ∙ ap (λ n. value (pos n, z_only)) {x = raised 3 (ns / 1000)} {y = ns} (ground arith))
      | inr no_micro ↦ rw (no_micro) (fraction-padded 8 0 ns timestamp refl (omega arith))
    ])
  ])
]

-- No fraction has a NUL.
pub c_str-format_fractional :
    (ns : ℕ) → c_str (format_fractional ns ++ z_only) ≡ format_fractional ns ++ z_only
unfolding c_str format_fractional
c_str-format_fractional ns = elim (Bool-cases (ns == 0)) [
  | inl none ↦ rw (none) refl
  | inr some ↦ rw (some) (elim (Bool-cases (ns % 1000000 == 0)) [
    | inl milli ↦ rw (milli) (ap (λ s. b'.' ∷ s) (c_str-padded 3 (ns / 1000000) z_only))
    | inr no_milli ↦ rw (no_milli) (elim (Bool-cases (ns % 1000 == 0)) [
      | inl micro ↦ rw (micro) (ap (λ s. b'.' ∷ s) (c_str-padded 6 (ns / 1000) z_only))
      | inr no_micro ↦ rw (no_micro) (ap (λ s. b'.' ∷ s) (c_str-padded 9 ns z_only))
    ])
  ])
]
