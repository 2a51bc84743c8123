-- ===== src/ReadStream/Failed.antt =====
-- A stream after a failure of its source.
use cloudstorageapi.Prelude.{
  ℕ, ◌-◌, ◌≡◌, refl, ◌∙◌, ◌<◌, false, none, List, [], arith, inl, inr, Bool-cases, subst, length,
  take, drop, drop_all, min, leb, not-leb→lt,
}
use cloudstorageapi.Status.{Status, StatusOrVal, value, failure, is_ok}
use cloudstorageapi.ReadSource.{ReadSourceResult}
use cloudstorageapi.ReadStream.{
  Source, ReadStreambuf, Returned, gives, throws, check_preconditions, after_source_read, xsgetn,
  underflow, report_error,
}

module _ {S : Type 0} (api : Source S) where
  -- Nothing is left to give, and the status says why.
  Spent : Status → ReadStreambuf S → Type 0
  Spent e b = (b.get_area ≡ []) × (is_ok b.status ≡ is_ok e)

  SpentIf : Returned (List ℕ) × ReadStreambuf S → Type 0
  SpentIf (gives bytes, b) = Unit {0}
  SpentIf (throws e, b) = Spent e b

  after_source_read-SpentIf :
      (first : List ℕ) (x : StatusOrVal ReadSourceResult × S) (b : ReadStreambuf S)
      → b.get_area ≡ []
      → SpentIf (after_source_read api first x b)
  unfolding after_source_read report_error SpentIf Spent
  after_source_read-SpentIf first (failure e, s) b h = (h, refl)
  after_source_read-SpentIf first (value r, s) b h = tt

  xsgetn-SpentIf : (n : ℕ) (b : ReadStreambuf S) → SpentIf (xsgetn api n b)
  unfolding xsgetn SpentIf
  xsgetn-SpentIf n b = elim (Bool-cases (check_preconditions api b)) [
    | inr bad ↦ rw (bad) tt
    | inl good ↦ rw (good) (elim (Bool-cases (leb n k)) [
      | inl full ↦ rw (full) tt
      | inr more ↦ rw (more) (elim (Bool-cases (api.source_is_open b.source)) [
        | inr closed ↦ rw (closed) tt
        | inl opened ↦ rw (opened) (rest (not-leb→lt n k more))
      ])
    ])
  ]
    where
      k : ℕ
      k = min n (length b.get_area)

      rest :
          k < n
          → SpentIf (
              after_source_read api
                (take k b.get_area)
                (api.source_read (n - k) b.source)
                (record b { get_area = drop k b.get_area }))
      rest short =
          after_source_read-SpentIf (take k b.get_area) (api.source_read (n - k) b.source)
            (record b { get_area = drop k b.get_area }) (drop_all k b.get_area (omega arith))

  Spent-check_preconditions :
      (e : Status) (b : ReadStreambuf S)
      → Spent e b
      → is_ok e ≡ false
      → check_preconditions api b ≡ false
  unfolding Spent check_preconditions
  Spent-check_preconditions e b (none_left, same) bad = rw (none_left) (rw (same ∙ bad) refl)

  -- A read that throws with a status that is not OK ends the stream: every later read gives no
  -- bytes, a look for the next character gives the end of the file, and neither of them asks the
  -- source or changes the stream.
  pub xsgetn-ends :
      (n later : ℕ) (e : Status) (b b' : ReadStreambuf S)
      → xsgetn api n b ≡ (throws e, b')
      → is_ok e ≡ false
      → (xsgetn api later b' ≡ (gives [], b')) × (underflow api b' ≡ (gives none, b'))
  unfolding xsgetn underflow SpentIf
  xsgetn-ends n later e b b' h bad =
      let closed = Spent-check_preconditions e b' (subst SpentIf h (xsgetn-SpentIf n b)) bad in
      (rw (closed) refl, rw (closed) refl)
