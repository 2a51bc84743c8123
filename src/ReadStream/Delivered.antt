-- ===== src/ReadStream/Delivered.antt =====
-- What a stream gives, and where it says that it stands.
use cloudstorageapi.Prelude.{
  ℕ, ◌+◌, ◌-◌, ◌≡◌, refl, sym, ap, ◌∙◌, ◌≤◌, ◌<◌, pos, List, [], ◌∷◌, ◌++◌, arith, inl, inr,
  Bool-cases, length, length-append, length-take, length-drop, take, drop, drop-drop, min,
  take-append-drop, take-append-take-drop, subst, leb, not-leb→lt, drop_all, take_all,
}
use mathlib.Core.List.{head-eq_of_cons-eq, tail-eq_of_cons-eq}
use cloudstorageapi.Status.{StatusOrVal, value, failure}
use cloudstorageapi.ReadSource.{ReadSourceResult}
use cloudstorageapi.ReadStream.{
  Source, ReadStreambuf, Returned, gives, throws, check_preconditions, after_source_read, xsgetn,
  report_error,
}

-- The bytes are those of a list from its start on.
abbrev pub Begins : List ℕ → List ℕ → Type 0
Begins bytes whole = bytes ≡ take (length bytes) whole

pub Begins-join :
    (a b whole : List ℕ) → Begins a whole → Begins b (drop (length a) whole) → Begins (a ++ b) whole
Begins-join a b whole h k =
    ap (λ t. t ++ b) h
    ∙ ap (λ t. take (length a) whole ++ t) k
    ∙ take-append-take-drop (length a) (length b) whole
    ∙ ap (λ n. take n whole) (sym (length-append a b))

pub Begins-split :
    (a b whole : List ℕ) → Begins (a ++ b) whole → Begins a whole × Begins b (drop (length a) whole)
Begins-split [] b whole h = (refl, h)
Begins-split (x ∷ a) b [] h = absurd cc
Begins-split (x ∷ a) b (y ∷ whole) h =
    let (p, q) = Begins-split a b whole (tail-eq_of_cons-eq h) in
    (ap (λ z. z ∷ a) (head-eq_of_cons-eq h) ∙ ap (λ t. y ∷ t) p, q)

-- A source that stands at a place of the content.
pub record Providing {S : Type 0} (api : Source S) (content : List ℕ) (stands_at : ℕ → S → Type 0)
    : Type 0 where
  pub on_read :
      (o n : ℕ) (s s' : S) (r : ReadSourceResult)
      → stands_at o s
      → api.source_read n s ≡ (value r, s')
      → Begins r.received (drop o content) × stands_at (o + length r.received) s'

module _ {S : Type 0} (api : Source S) (content : List ℕ) (stands_at : ℕ → S → Type 0)
    (providing : Providing api content stands_at) (start : ℕ) where
  -- The stream has given the content up to `o`; its positions count from `start`.
  pub record Reading (o : ℕ) (b : ReadStreambuf S) : Type 0 where
    pub area : Begins b.get_area (drop o content)
    pub ahead : stands_at (o + length b.get_area) b.source
    pub place : b.source_pos ≡ pos (start + o + length b.get_area)

  unfoldable pub Gives : ℕ → ℕ → Returned (List ℕ) × ReadStreambuf S → Type 0
  Gives o left (throws e, b) = Unit {0}
  Gives o left (gives bytes, b) =
      Begins bytes (drop o content) × (length b.get_area ≤ left) × Reading (o + length bytes) b

  after_source_read-Gives :
      (o n left : ℕ) (first : List ℕ) (b : ReadStreambuf S)
      → Begins first (drop o content)
      → b.get_area ≡ []
      → stands_at (o + length first) b.source
      → b.source_pos ≡ pos (start + o + length first)
      → Gives o left (after_source_read api first (api.source_read n b.source) b)
  unfolding after_source_read Gives report_error
  after_source_read-Gives o n left first b begins none_left stands place =
      follow (api.source_read n b.source) refl
    where
      follow :
          (x : StatusOrVal ReadSourceResult × S)
          → api.source_read n b.source ≡ x
          → Gives o left (after_source_read api first x b)
      follow (failure e, s) h = tt
      follow (value r, s) h =
          let (part, next) = providing.on_read (o + length first) n b.source s r stands h in
          let more : Begins r.received (drop (length first) (drop o content)) =
            part
            ∙ ap (λ t. take (length r.received) t) (sym (drop-drop o (length first) content)) in
          (
            Begins-join first r.received (drop o content) begins more,
            omega (arith, ap length none_left),
            record {
              area = rw (none_left) refl;
              ahead =
                  subst (λ k. stands_at k s)
                    (omega (arith, ap length none_left, length-append first r.received)) next;
              place =
                  rw (place)
                    (ap pos (omega (arith, ap length none_left, length-append first r.received)));
            },
          )

  first-Gives :
      (o k : ℕ) (b : ReadStreambuf S)
      → Reading o b
      → k ≤ length b.get_area
      → Gives o
          (length b.get_area)
          (gives (take k b.get_area), record b { get_area = drop k b.get_area })
  unfolding Gives
  first-Gives o k b r within =
      let e : length (take k b.get_area) ≡ k = length-take k b.get_area ∙ omega arith in
      let d = length-drop k b.get_area in
      let (begin, rest) =
        Begins-split (take k b.get_area) (drop k b.get_area) (drop o content)
          (subst (λ l. Begins l (drop o content)) (sym (take-append-drop k b.get_area)) r.area) in
      (
        begin,
        omega (arith, d),
        record {
          area =
              subst (λ l. Begins (drop k b.get_area) l)
                (drop-drop o (length (take k b.get_area)) content) rest;
          ahead = subst (λ k. stands_at k b.source) (omega (arith, e, d)) r.ahead;
          place = r.place ∙ ap pos (omega (arith, e, d));
        },
      )

  nothing-Gives :
      (o : ℕ) (b : ReadStreambuf S) → Reading o b → Gives o (length b.get_area) (gives [], b)
  unfolding Gives
  nothing-Gives o b r =
      (refl, omega arith, subst (λ k. Reading k b) {x = o} {y = o + 0} (omega arith) r)

  pub xsgetn-Gives :
      (o count : ℕ) (b : ReadStreambuf S)
      → Reading o b
      → Gives o (length b.get_area) (xsgetn api count b)
  unfolding xsgetn
  xsgetn-Gives o count b r = elim (Bool-cases (check_preconditions api b)) [
    | inr bad ↦ rw (bad) (nothing-Gives o b r)
    | inl good ↦ rw (good) (elim (Bool-cases (leb count k)) [
      | inl full ↦ rw (full) (first-Gives o k b r (omega arith))
      | inr more ↦ rw (more) (elim (Bool-cases (api.source_is_open b.source)) [
        | inr closed ↦ rw (closed) (first-Gives o k b r (omega arith))
        | inl opened ↦ rw (opened) (rest-Gives (not-leb→lt count k more))
      ])
    ])
  ]
    where
      k : ℕ
      k = min count (length b.get_area)

      rest-Gives :
          k < count
          → Gives o (length b.get_area) (
              after_source_read api
                (take k b.get_area)
                (api.source_read (count - k) b.source)
                (record b { get_area = drop k b.get_area }))
      rest-Gives short =
          let all : length b.get_area ≤ k = omega arith in
          let l : length (take k b.get_area) ≡ length b.get_area =
            ap length (take_all k b.get_area all) in
          after_source_read-Gives o (count - k) (length b.get_area) (take k b.get_area)
            (record b { get_area = drop k b.get_area })
            (subst (λ t. Begins t (drop o content)) (sym (take_all k b.get_area all)) r.area)
            (drop_all k b.get_area all)
            (subst (λ k. stands_at k b.source) (omega (arith, l)) r.ahead)
            (r.place ∙ ap pos (omega (arith, l)))
