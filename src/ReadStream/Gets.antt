-- ===== src/ReadStream/Gets.antt =====
-- Several operations of a stream that reads, one after the other.
use cloudstorageapi.Prelude.{
  ℕ, ◌+◌, ◌*◌, ◌≡◌, refl, sym, ap, ◌∙◌, pos, sub_nat, true, Option, none, some, List, [], ◌∷◌, ◌++◌,
  arith, le→leb, inl, inr, Bool-cases, length, length-append, take, drop, drop-drop, subst,
}
use cloudstorageapi.ReadStream.{
  Source, ReadStreambuf, read_streambuf, Returned, gives, throws, tell, check_preconditions, xsgetn,
  after_fill, underflow,
}
use cloudstorageapi.ReadStream.Delivered.{
  Begins, Begins-join, Begins-split, Providing, Reading, Gives, xsgetn-Gives,
}

-- What a program asks of a stream: some bytes, or the next character without taking it.
pub data Ask : Type 0 where
  get : ℕ → Ask
  peek : Ask

sub_nat-back : (k n m : ℕ) → n ≡ k + m → sub_nat (pos n) m ≡ pos k
sub_nat-back k n m h = rw (le→leb m n (omega arith)) (ap pos (omega (arith, h)))

module _ {S : Type 0} (api : Source S) where
  -- The stream asks its buffer for the next character where the get area is empty.
  abbrev pub peeked : ReadStreambuf S → Returned (Option ℕ) × ReadStreambuf S
  peeked b = elim b.get_area [ [] ↦ underflow api b | c ∷ cs ↦ (gives (some c), b) ]

  abbrev get_on :
      (ReadStreambuf S → Option (List ℕ × ReadStreambuf S))
      → Returned (List ℕ) × ReadStreambuf S
      → Option (List ℕ × ReadStreambuf S)
  get_on more (throws e, b) = none
  get_on more (gives bytes, b) = elim (more b) [
    | none ↦ none
    | some (rest, b') ↦ some (bytes ++ rest, b')
  ]

  abbrev peek_on :
      (ReadStreambuf S → Option (List ℕ × ReadStreambuf S))
      → Returned (Option ℕ) × ReadStreambuf S
      → Option (List ℕ × ReadStreambuf S)
  peek_on more (throws e, b) = none
  peek_on more (gives c, b) = more b

  -- The bytes that the stream gives, one answer after the other; `none` where it throws.
  unfoldable pub answers : List Ask → ReadStreambuf S → Option (List ℕ × ReadStreambuf S)
  answers [] b = some ([], b)
  answers (get n ∷ asks) b = get_on (answers asks) (xsgetn api n b)
  answers (peek ∷ asks) b = peek_on (answers asks) (peeked b)

  module _ (content : List ℕ) (stands_at : ℕ → S → Type 0)
      (providing : Providing api content stands_at) (start : ℕ) where
    -- After a look at the next character: the stream is where it was, and has that character.
    unfoldable pub Looks : ℕ → Returned (Option ℕ) × ReadStreambuf S → Type 0
    Looks o (throws e, b) = Unit {0}
    Looks o (gives none, b) = Reading api content stands_at providing start o b
    Looks o (gives (some c), b) =
        Begins (c ∷ []) (drop o content) × Reading api content stands_at providing start o b

    after_fill-Looks :
        (o : ℕ) (x : Returned (List ℕ) × ReadStreambuf S)
        → Gives api content stands_at providing start o 0 x
        → Looks o (after_fill api x)
    unfolding after_fill Looks Gives
    after_fill-Looks o (throws e, b) g = tt
    after_fill-Looks o (gives [], b) (begin, left, r) =
        subst (λ k. Reading api content stands_at providing start k b) {x = o + 0} {y = o}
          (omega arith) r
    after_fill-Looks o (gives (c ∷ cs), b) (begin, left, r) = (
      (Begins-split (c ∷ []) cs (drop o content) begin).0,
      record {
        area = begin;
        ahead = subst (λ k. stands_at k b.source) (omega (arith, left)) r.ahead;
        place = r.place ∙ ap pos (omega (arith, left));
      },
    )

    -- A look for the next character with an empty get area: `underflow` leaves the stream where it
    -- was, and the character that it gives is the next byte of the content.
    underflow-Looks :
        (o : ℕ) (b : ReadStreambuf S)
        → Reading api content stands_at providing start o b
        → b.get_area ≡ []
        → Looks o (underflow api b)
    unfolding underflow Looks
    underflow-Looks o b r none_left = elim (Bool-cases (check_preconditions api b)) [
      | inr bad ↦ rw (bad) r
      | inl good ↦ rw (good) (
          after_fill-Looks o (xsgetn api (128 * 1024) b) (
            subst (λ n. Gives api content stands_at providing start o n (xsgetn api (128 * 1024) b))
              (ap length none_left)
              (xsgetn-Gives api content stands_at providing start o (128 * 1024) b r)))
    ]

    pub peeked-Looks :
        (o : ℕ) (b : ReadStreambuf S)
        → Reading api content stands_at providing start o b
        → Looks o (peeked b)
    unfolding Looks
    peeked-Looks o b r = follow b.get_area refl
      where
        follow :
            (cs : List ℕ)
            → b.get_area ≡ cs
            → Looks o (elim cs [ [] ↦ underflow api b | c ∷ cs' ↦ (gives (some c), b) ])
        follow [] e = underflow-Looks o b r e
        follow (c ∷ cs) e = (
          (Begins-split (c ∷ []) cs (drop o content)
              (subst (λ l. Begins l (drop o content)) e r.area)).0,
          r,
        )

    -- What the answers are, if the stream does not throw.
    abbrev Answered : ℕ → Option (List ℕ × ReadStreambuf S) → Type 0
    Answered o none = Unit {0}
    Answered o (some (bytes, b)) =
        Begins bytes (drop o content)
        × Reading api content stands_at providing start (o + length bytes) b

    get_on-Answered :
        (o left : ℕ) (more : ReadStreambuf S → Option (List ℕ × ReadStreambuf S))
        (x : Returned (List ℕ) × ReadStreambuf S)
        → Gives api content stands_at providing start o left x
        → ((o' : ℕ) (b : ReadStreambuf S)
            → Reading api content stands_at providing start o' b
            → Answered o' (more b))
        → Answered o (get_on more x)
    unfolding Gives
    get_on-Answered o left more (throws e, b) g ih = tt
    get_on-Answered o left more (gives bytes, b) (begin, small, r) ih =
        follow (more b) (ih (o + length bytes) b r)
      where
        follow :
            (y : Option (List ℕ × ReadStreambuf S))
            → Answered (o + length bytes) y
            → Answered o (elim y [ none ↦ none | some (rest, b') ↦ some (bytes ++ rest, b') ])
        follow none h = tt
        follow (some (rest, b')) (next, r') = (
          Begins-join bytes rest (drop o content) begin
              (subst (λ l. Begins rest l) (sym (drop-drop o (length bytes) content)) next),
          subst (λ k. Reading api content stands_at providing start k b')
              (omega (arith, length-append bytes rest)) r',
        )

    peek_on-Answered :
        (o : ℕ) (more : ReadStreambuf S → Option (List ℕ × ReadStreambuf S))
        (x : Returned (Option ℕ) × ReadStreambuf S)
        → Looks o x
        → ((b : ReadStreambuf S)
            → Reading api content stands_at providing start o b
            → Answered o (more b))
        → Answered o (peek_on more x)
    unfolding Looks
    peek_on-Answered o more (throws e, b) g ih = tt
    peek_on-Answered o more (gives none, b) g ih = ih b g
    peek_on-Answered o more (gives (some c), b) (next, r) ih = ih b r

    answers-Answered :
        (o : ℕ) (asks : List Ask) (b : ReadStreambuf S)
        → Reading api content stands_at providing start o b
        → Answered o (answers asks b)
    unfolding answers
    answers-Answered o [] b r = (
      refl,
      subst (λ k. Reading api content stands_at providing start k b) {x = o} {y = o + 0}
          (omega arith) r,
    )
    answers-Answered o (get n ∷ asks) b r =
        get_on-Answered o (length b.get_area) (answers asks) (xsgetn api n b)
          (xsgetn-Gives api content stands_at providing start o n b r)
          (λ o' b'. answers-Answered o' asks b')
    answers-Answered o (peek ∷ asks) b r =
        peek_on-Answered o (answers asks) (peeked b) (peeked-Looks o b r)
          (λ b'. answers-Answered o asks b')

    -- A stream over a source that stands at the place `o` of the content, and that is told that
    -- this is the position `start + o`: whatever reads and looks for the next character a program
    -- makes, if none throws, the bytes that it gets are the content from `o` on, each byte once, and
    -- the stream says that it stands after them.
    pub answers-deliver :
        (o : ℕ) (asks : List Ask) (s : S) (b : ReadStreambuf S) (bytes : List ℕ)
        → stands_at o s
        → answers asks (read_streambuf s (pos (start + o))) ≡ some (bytes, b)
        → (bytes ≡ take (length bytes) (drop o content))
          × (tell true b ≡ some (pos (start + o + length bytes)))
    unfolding tell
    answers-deliver o asks s b bytes here e =
        let (begin, r) = subst (Answered o) e (
          answers-Answered o asks (read_streambuf s (pos (start + o))) (record {
            area = refl;
            ahead = subst (λ k. stands_at k s) (omega arith) here;
            place = ap pos (omega arith);
          })) in
        (
          begin,
          ap some (
              rw (r.place) (
                sub_nat-back (start + o + length bytes)
                  (start + (o + length bytes) + length b.get_area) (length b.get_area)
                  (omega arith))),
        )
