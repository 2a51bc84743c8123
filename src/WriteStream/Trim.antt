-- ===== src/WriteStream/Trim.antt =====
-- The loop that trims the payload of a chunk keeps exactly the first bytes.
use cloudstorageapi.Prelude.{
  ℕ, ◌+◌, ◌-◌, ◌≡◌, refl, sym, ap, ◌∙◌, ◌≤◌, List, [], ◌∷◌, ◌++◌, arith, length, length-append,
  take, min, append-nil, append_assoc, reverse, reverse-cons, take_all, take-append_le,
  take-append_ge, dec_lt, inl, inr, Bool-cases, is_empty, true, false, length-take, lt→ltb,
  le→not-ltb,
}
use cloudstorageapi.Buffers.{ConstBuffer, ConstBufferSequence, bytes}
use cloudstorageapi.WriteStream.{trim_back}

pub bytes-append : (s t : ConstBufferSequence) → bytes (s ++ t) ≡ bytes s ++ bytes t
bytes-append [] t = refl
bytes-append (b ∷ s) t =
    ap (λ x. b ++ x) (bytes-append s t) ∙ sym (append_assoc b (bytes s) (bytes t))

bytes-reverse-cons :
    (b : ConstBuffer) (s : ConstBufferSequence) → bytes (reverse (b ∷ s)) ≡ bytes (reverse s) ++ b
bytes-reverse-cons b s =
    ap bytes (reverse-cons b s)
    ∙ bytes-append (reverse s) (b ∷ [])
    ∙ ap (λ x. bytes (reverse s) ++ x) (append-nil b)

is_empty-length : (s : ConstBuffer) → is_empty s ≡ true → length s ≡ 0
is_empty-length [] h = refl
is_empty-length (c ∷ s) h = cc

not-is_empty-length : (s : ConstBuffer) → is_empty s ≡ false → 0 + 1 ≤ length s
not-is_empty-length [] h = cc
not-is_empty-length (c ∷ s) h = omega arith

-- No excess is left, and the payload is the first bytes (the spans are reversed).
abbrev pub Trims : ℕ → ConstBufferSequence → ℕ × ConstBufferSequence → Type 0
Trims excess spans (left, kept) =
    (left ≡ 0)
    × (bytes (reverse kept)
        ≡ take (length (bytes (reverse spans)) - excess) (bytes (reverse spans)))

take-append-whole :
    (e : ℕ) (front span whole : List ℕ)
    → whole ≡ front ++ span
    → length span ≤ e
    → take (length front - (e - length span)) front ≡ take (length whole - e) whole
take-append-whole e front span whole w h = sym (
    rw
      (
        w,
        length-append front span,
        take-append_le (length front + length span - e) front span (omega arith),
      )
      (ap (λ k. take k front) (omega arith)))

take-append-part :
    (e : ℕ) (front span whole : List ℕ)
    → whole ≡ front ++ span
    → e ≤ length span
    → front ++ take (length span - e) span ≡ take (length whole - e) whole
take-append-part e front span whole w h = sym (
    rw
      (
        w,
        length-append front span,
        take-append_ge (length front + length span - e) front span (omega arith),
      )
      (ap (λ k. front ++ take k span) (omega arith)))

-- The loop removes exactly the excess from the end of the bytes.
pub trim_back-Trims :
    (excess : ℕ) (spans : ConstBufferSequence)
    → excess ≤ length (bytes (reverse spans))
    → Trims excess spans (trim_back excess spans)
unfolding trim_back
trim_back-Trims excess [] h = (omega arith, sym (take_all (0 - excess) [] (omega arith)))
trim_back-Trims excess (span ∷ spans) h =
    let ih : n ≤ excess
        → length span ≤ excess
        → Trims (excess - n) spans (trim_back (excess - n) spans) =
      λ lo hi. trim_back-Trims (excess - n) spans (omega (arith, size)) in
    elim (dec_lt 0 excess) [
      | no p ↦
          rw (le→not-ltb 0 excess (omega arith)) (omega arith, sym (take_all _ _ (omega arith)))
      | yes p ↦ elim (Bool-cases (is_empty kept)) [
        | inl e ↦
            rw (lt→ltb 0 excess p, e)
              (gone ih (omega (arith, is_empty-length kept e, length-take (length span - n) span)))
        | inr e ↦
            rw (lt→ltb 0 excess p, e)
              (left (omega (arith, not-is_empty-length kept e, length-take (length span - n) span)))
      ]
    ]
  where
    n : ℕ
    n = min excess (length span)

    kept : ConstBuffer
    kept = take (length span - n) span

    front : List ℕ
    front = bytes (reverse spans)

    whole : bytes (reverse (span ∷ spans)) ≡ front ++ span
    whole = bytes-reverse-cons span spans

    size : length (bytes (reverse (span ∷ spans))) ≡ length front + length span
    size = ap length whole ∙ length-append front span

    gone :
        (n ≤ excess
          → length span ≤ excess
          → Trims (excess - n) spans (trim_back (excess - n) spans))
        → length span ≤ excess
        → Trims excess (span ∷ spans) (trim_back (excess - n) spans)
    gone ih le =
        let (none_left, rest) = ih (omega arith) le in
        let same : take (length front - (excess - n)) front
            ≡ take (length front - (excess - length span)) front =
          ap (λ k. take k front) (omega arith) in
        (none_left, rest ∙ same ∙ take-append-whole excess front span _ whole le)

    left : excess ≤ length span → Trims excess (span ∷ spans) (excess - n, kept ∷ spans)
    left le =
        let same : front ++ kept ≡ front ++ take (length span - excess) span =
          ap (λ k. front ++ take k span) (omega arith) in
        (
          omega arith,
          bytes-reverse-cons kept spans ∙ same ∙ take-append-part excess front span _ whole le,
        )
