-- ===== src/Buffers/Bytes.antt =====
-- What the operations on sequences of ranges do to the bytes, and the least multiple above a size.
use cloudstorageapi.Prelude.{
  ℕ, ◌+◌, ◌-◌, ◌*◌, ◌/◌, ◌%◌, ◌^◌, ◌==◌, ==_iff, dec_lt, ap, ◌≢◌, Bool-cases, inl, inr, true, false,
  ◌∙◌, ◌≡◌, refl, ◌≤◌, ◌<◌, [], ◌∷◌, sym, arith, length, length-append, drop, drop-append_ge,
  drop-append_le, drop-nil,
}
use native.Mathlib.Nat.{mul-mod_left, div-mul-le_self, lt-div-mul-add}
use cloudstorageapi.Buffers.{
  ConstBufferSequence, total_from, total_bytes, pop_front_bytes, bytes, round_up_to_quantum,
}

total_from-eq-add : (acc : ℕ) (s : ConstBufferSequence) → total_from acc s ≡ acc + length (bytes s)
unfolding total_from
total_from-eq-add acc [] = omega arith
total_from-eq-add acc (b ∷ bs) =
    omega (arith, total_from-eq-add (acc + length b) bs, length-append b (bytes bs))

-- `TotalBytes` is the number of bytes.
pub total_bytes-length : (s : ConstBufferSequence) → total_bytes s ≡ length (bytes s)
unfolding total_bytes
total_bytes-length s = omega (arith, total_from-eq-add 0 s)

-- `PopFrontBytes` removes exactly the first `count` bytes, however they are spread over the ranges.
pub bytes-pop_front_bytes :
    (s : ConstBufferSequence) (count : ℕ) → bytes (pop_front_bytes s count) ≡ drop count (bytes s)
unfolding pop_front_bytes
bytes-pop_front_bytes [] count = sym (drop-nil count [] refl)
bytes-pop_front_bytes (b ∷ bs) count = ground (
  arith,
  bytes-pop_front_bytes bs (count - length b),
  drop-append_ge count b (bytes bs),
  drop-append_le count b (bytes bs),
)

true-false : true ≡ false → ⊥
true-false e = cc e

-- For a positive quantum, if the size and the quantum together do not exceed 2^64, the result is a
-- multiple of the quantum, at least the size, and less than a quantum above it.
pub round_up_to_quantum-IsLeast :
    (n q : ℕ)
    → 0 < q
    → n + q ≤ 2 ^ 64
    → (n ≤ round_up_to_quantum n q)
      × (round_up_to_quantum n q % q ≡ 0)
      × (round_up_to_quantum n q < n + q)
unfolding round_up_to_quantum
round_up_to_quantum-IsLeast n q h fits = elim (Bool-cases (n % q == 0)) [
  | inl whole ↦ rw (whole) (omega arith, (==_iff (n % q) 0).0 whole, omega arith)
  | inr broken ↦ rw (broken) (rw (stays broken) (bounds broken))
]
  where
    not-==→ne : (n % q == 0) ≡ false → n % q ≢ 0
    not-==→ne b e = absurd (true-false (sym ((==_iff (n % q) 0).1 e) ∙ b))

    up : ℕ
    up = (n / q + 1) * q

    below : (n % q == 0) ≡ false → (n < up) × (up < n + q)
    below broken = elim (dec_lt (n / q * q) n) [
      | yes part ↦ (omega (arith, lt-div-mul-add {a = n} h), omega (arith, part))
      | no all ↦
          let e : n / q * q ≡ n = omega (arith, div-mul-le_self n q) in
          absurd (omega (arith, not-==→ne broken, ap (λ k. k % q) e, mul-mod_left (n / q) q))
    ]

    stays : (n % q == 0) ≡ false → up % 2 ^ 64 ≡ up
    stays broken = let (lo, hi) = below broken in omega arith

    bounds : (n % q == 0) ≡ false → (n ≤ up) × (up % q ≡ 0) × (up < n + q)
    bounds broken =
        let (lo, hi) = below broken in (omega arith, mul-mod_left (n / q + 1) q, omega arith)
