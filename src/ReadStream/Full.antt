-- ===== src/ReadStream/Full.antt =====
-- When a stream gives fewer bytes than it is asked for: at the end of the content, if that is so for
-- its source.
use cloudstorageapi.Prelude.{
  ℕ, ◌+◌, ◌-◌, ◌*◌, ◌≡◌, refl, sym, ap, ◌∙◌, ◌≤◌, ◌<◌, true, false, Option, none, some, List, [],
  ◌∷◌, arith, inl, inr, Bool-cases, length, length-append, length-take, take, drop, subst, min, leb,
  leb→le, not-leb→lt, is_empty, not, ◌&&◌, if◌then◌else◌,
}
use cloudstorageapi.Status.{Status, StatusOrVal, value, failure, is_ok}
use cloudstorageapi.ReadSource.{ReadSourceResult}
use cloudstorageapi.ReadStream.{
  Source, ReadStreambuf, Returned, gives, throws, check_preconditions, after_source_read, xsgetn,
  after_fill, underflow, report_error,
}
use cloudstorageapi.ReadStream.Delivered.{Providing, Reading}
use cloudstorageapi.ReadStream.Gets.{peeked}

-- A source that gives fewer bytes than it is asked for, or is closed, only at the end of the content,
-- and that does not touch what was written.
pub record Filling {S : Type 0} (api : Source S) (content : List ℕ) (stands_at : ℕ → S → Type 0)
    (written : S → List ℕ) : Type 0 where
  pub providing : Providing api content stands_at
  pub on_count :
      (o n : ℕ) (s s' : S) (r : ReadSourceResult)
      → stands_at o s
      → api.source_read n s ≡ (value r, s')
      → (length r.received ≤ n) × (length r.received < n → length content ≤ o + length r.received)
  pub on_failure :
      (n : ℕ) (s s' : S) (e : Status) → api.source_read n s ≡ (failure e, s') → is_ok e ≡ false
  pub when_closed :
      (o : ℕ) (s : S) → stands_at o s → api.source_is_open s ≡ false → length content ≤ o
  pub still_read : (n : ℕ) (s : S) → written (api.source_read n s).1 ≡ written s
  pub still_close : (s : S) → written (api.source_close s).1 ≡ written s

module _ {S : Type 0} (api : Source S) (content : List ℕ) (stands_at : ℕ → S → Type 0)
    (written : S → List ℕ) (filling : Filling api content stands_at written) (start : ℕ) where
  -- What a read of `n` bytes gives from a stream `b` that stands at `o`.
  unfoldable pub Fills : ℕ → ℕ → ReadStreambuf S → Returned (List ℕ) × ReadStreambuf S → Type 0
  Fills n o b (throws e, b') = is_ok b'.status ≡ false
  Fills n o b (gives bytes, b') =
      (b'.status ≡ b.status)
      × (written b'.source ≡ written b.source)
      × (length bytes ≤ n)
      × (length bytes < n → length content ≤ o + length bytes)

  after_source_read-Fills :
      (n o : ℕ) (first : List ℕ) (b b' : ReadStreambuf S)
      → length first ≤ n
      → b'.status ≡ b.status
      → b'.source ≡ b.source
      → stands_at (o + length first) b.source
      → Fills n o b (after_source_read api first (api.source_read (n - length first) b.source) b')
  unfolding Fills after_source_read report_error
  after_source_read-Fills n o first b b' le same here stands =
      follow (api.source_read (n - length first) b.source) refl
    where
      follow :
          (x : StatusOrVal ReadSourceResult × S)
          → api.source_read (n - length first) b.source ≡ x
          → Fills n o b (after_source_read api first x b')
      follow (failure e, s) h = filling.on_failure _ b.source s e h
      follow (value r, s) h =
          let (small, short) = filling.on_count (o + length first) _ b.source s r stands h in
          let sum = length-append first r.received in
          (
            same,
            ap (λ x. written x.1) (sym h) ∙ filling.still_read (n - length first) b.source,
            omega arith,
            λ lt. subst (λ k. length content ≤ k) (omega arith) (short (omega arith)),
          )

  -- A stream without a failure that refuses to read is at the end.
  refused :
      (o : ℕ) (b : ReadStreambuf S)
      → Reading api content stands_at filling.providing start o b
      → is_ok b.status ≡ true
      → check_preconditions api b ≡ false
      → length content ≤ o
  unfolding check_preconditions
  refused o b r fine bad = follow b.get_area refl bad
    where
      follow :
          (cs : List ℕ)
          → b.get_area ≡ cs
          → (if not (is_empty cs) then true else is_ok b.status && api.source_is_open b.source)
            ≡ false
          → length content ≤ o
      follow [] e h =
          filling.when_closed o b.source
            (subst (λ m. stands_at m b.source) (omega (arith, ap length e)) r.ahead)
            (sym (ap (λ t. t && api.source_is_open b.source) fine) ∙ h)
      follow (c ∷ cs) e h = absurd cc

  pub xsgetn-Fills :
      (n o : ℕ) (b : ReadStreambuf S)
      → Reading api content stands_at filling.providing start o b
      → is_ok b.status ≡ true
      → Fills n o b (xsgetn api n b)
  unfolding xsgetn Fills
  xsgetn-Fills n o b r fine = elim (Bool-cases (check_preconditions api b)) [
    | inr bad ↦ rw (bad) (
      refl,
      refl,
      omega arith,
      λ lt. subst (λ k. length content ≤ k) {x = o} (omega arith) (refused o b r fine bad),
    )
    | inl fit ↦ rw (fit) (elim (Bool-cases (leb n k)) [
      | inl full ↦ rw (full) (
          let le = leb→le n k full in
          (refl, refl, omega (arith, taken), λ lt. absurd (omega (arith, taken))))
      | inr more ↦ rw (more) (elim (Bool-cases (api.source_is_open b.source)) [
        | inr closed ↦ rw (closed) (
            let lt = not-leb→lt n k more in
            (
              refl,
              refl,
              omega (arith, taken),
              λ l.
                  subst (λ k. length content ≤ k) (omega (arith, taken))
                    (filling.when_closed (o + length b.get_area) b.source r.ahead closed),
            ))
        | inl here ↦ rw (here) (
            let lt = not-leb→lt n k more in
            subst
              (λ m. Fills n o b (
                after_source_read api (take k b.get_area) (api.source_read (n - m) b.source)
                  (record b { get_area = drop k b.get_area })))
              {x = length (take k b.get_area)} {y = k} taken
              (after_source_read-Fills n o (take k b.get_area) b
                (record b { get_area = drop k b.get_area }) (omega (arith, taken)) refl refl
                (subst (λ m. stands_at m b.source) (omega (arith, taken)) r.ahead)))
      ])
    ])
  ]
    where
      k : ℕ
      k = min n (length b.get_area)

      taken : length (take k b.get_area) ≡ k
      taken = length-take k b.get_area ∙ omega arith

  -- What a look for the next character tells.
  unfoldable pub Peeks : ℕ → ReadStreambuf S → Returned (Option ℕ) × ReadStreambuf S → Type 0
  Peeks o b (throws e, b') = is_ok b'.status ≡ false
  Peeks o b (gives none, b') =
      (b'.status ≡ b.status) × (written b'.source ≡ written b.source) × (length content ≤ o)
  Peeks o b (gives (some c), b') = (b'.status ≡ b.status) × (written b'.source ≡ written b.source)

  after_fill-Peeks :
      (n o : ℕ) (b : ReadStreambuf S) (x : Returned (List ℕ) × ReadStreambuf S)
      → 0 < n
      → Fills n o b x
      → Peeks o b (after_fill api x)
  unfolding Fills Peeks after_fill
  after_fill-Peeks n o b (throws e, b') h bad = bad
  after_fill-Peeks n o b (gives [], b') h (same, still, small, short) =
      (same, still, subst (λ k. length content ≤ k) (omega arith) (short h))
  after_fill-Peeks n o b (gives (c ∷ cs), b') h (same, still, small, short) = (same, still)

  pub peeked-Peeks :
      (o : ℕ) (b : ReadStreambuf S)
      → Reading api content stands_at filling.providing start o b
      → is_ok b.status ≡ true
      → Peeks o b (peeked api b)
  unfolding Peeks underflow
  peeked-Peeks o b r fine = follow b.get_area refl
    where
      follow :
          (cs : List ℕ)
          → b.get_area ≡ cs
          → Peeks o b (elim cs [ [] ↦ underflow api b | c ∷ cs' ↦ (gives (some c), b) ])
      follow [] e = elim (Bool-cases (check_preconditions api b)) [
        | inl fit ↦ rw (fit) (
            after_fill-Peeks (128 * 1024) o b (xsgetn api (128 * 1024) b) (omega arith)
              (xsgetn-Fills (128 * 1024) o b r fine))
        | inr bad ↦ rw (bad) (refl, refl, refused o b r fine bad)
      ]
      follow (c ∷ cs) e = (refl, refl)
