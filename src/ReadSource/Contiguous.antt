-- ===== src/ReadSource/Contiguous.antt =====
-- What a download from its beginning delivers: the bytes of the file, in order, each once, over any
-- failures in between.
use cloudstorageapi.Prelude.{
  ℕ, zero, suc, ◌+◌, ◌≡◌, refl, sym, ap, ◌∙◌, ◌≤◌, ℤ, pos, negsuc, Option, none, some, List, arith,
  length, take, drop, subst, Bool-cases, inl, inr,
}
use mathlib.Core.Option.{some-injective}
use cloudstorageapi.Status.{Status, StatusOrVal, value, failure}
use cloudstorageapi.Policy.{World, RetryPolicy, BackoffPolicy, on_failure}
use cloudstorageapi.Retry.{Lent}
use cloudstorageapi.Retry.Values.{CallValue, make_call-CallValue}
use cloudstorageapi.ReadSource.{
  ReadRequest, starting_byte, at_least, range_begin, ReadSourceResult, from_beginning, ReadSource,
  make_read_source, rest_request, Step, ends, goes_on, no_fuel, after_read, after_open, read_round,
  read_loop, read_on, read_by, read,
}

-- What a source is relied on for, where `stands o` says that it stands at the byte `o` of the file's
-- content: a read that succeeds takes the bytes from
-- there on, and a source is opened where the request says.
pub record Serving {C W : Type 0} (read_child : ℕ → C → W → StatusOrVal ReadSourceResult × C × W)
    (open_child : ReadRequest → W → StatusOrVal C × W) (content : List ℕ) (stands : ℕ → C → Type 0)
    : Type 0 where
  pub on_read :
      (o n : ℕ) (c c' : C) (w w' : W) (r : ReadSourceResult)
      → stands o c
      → read_child n c w ≡ (value r, c', w')
      → (r.received ≡ take (length r.received) (drop o content)) × stands (o + length r.received) c'
  pub on_open :
      (q : ReadRequest) (w w' : W) (o : ℕ) (c : C)
      → starting_byte q ≡ pos o
      → open_child q w ≡ (value c, w')
      → stands o c

le-at_least : (n : ℕ) (x : Option ℤ) → n ≤ at_least n x
le-at_least n none = omega arith
le-at_least n (some (pos k)) = omega arith
le-at_least n (some (negsuc k)) = omega arith

abbrev amount : ℤ → ℕ
amount (pos n) = n
amount (negsuc n) = 0

module _ {C W : Type 0} (world : World W)
    (read_child : ℕ → C → W → StatusOrVal ReadSourceResult × C × W)
    (open_child : ReadRequest → W → StatusOrVal C × W) (content : List ℕ) (stands : ℕ → C → Type 0)
    (serving : Serving read_child open_child content stands) where
  -- The download has delivered the content up to `o`.
  pub record Placed (o : ℕ) (src : ReadSource C) : Type 0 where
    pub forward : src.direction ≡ from_beginning
    pub offset : src.current_offset ≡ pos o
    pub no_last : src.request.read_last ≡ none
    pub begun : at_least 0 (range_begin src.request.read_range) ≤ o

  -- And its child stands there.
  abbrev pub At : ℕ → ReadSource C → Type 0
  At o src = Placed o src × ((c : C) → src.child ≡ some c → stands o c)

  -- After a step, a result that was delivered is the next part of the content, and without one the
  -- download stays where it was.
  unfoldable pub Delivers : ℕ → StatusOrVal ReadSourceResult → ReadSource C → Type 0
  Delivers o (failure s) src = Placed o src
  Delivers o (value r) src =
      (r.received ≡ take (length r.received) (drop o content)) × At (o + length r.received) src

  StepDelivers : ℕ → Step C W → Type 0
  StepDelivers o (ends r src l) = Delivers o r src
  StepDelivers o (goes_on s src l) = Placed o src
  StepDelivers o no_fuel = Unit {0}

  after_read-Delivers :
      (o n : ℕ) (c : C) (w : W) (src : ReadSource C) (l : Lent W)
      → Placed o src
      → stands o c
      → StepDelivers o (after_read world read_child open_child (read_child n c w) src l)
  unfolding StepDelivers Delivers after_read
  after_read-Delivers o n c w src l p here = follow (read_child n c w) refl
    where
      follow :
          (x : StatusOrVal ReadSourceResult × C × W)
          → read_child n c w ≡ x
          → StepDelivers o (after_read world read_child open_child x src l)
      follow (failure s, c', w') e = record {
        forward = p.forward;
        offset = p.offset;
        no_last = p.no_last;
        begun = p.begun;
      }
      follow (value r, c', w') e =
          let (part, next) = serving.on_read o n c c' w w' r here e in
          (
            part,
            (
              record {
                forward = p.forward;
                offset = rw (p.forward, p.offset) refl;
                no_last = p.no_last;
                begun = omega (arith, p.begun);
              },
              λ d q. subst (λ x. stands (o + length r.received) x) (some-injective c' d q) next,
            ),
          )

  pub make_read_source-At :
      (o : ℕ) (q : ReadRequest) (c : C)
      → q.read_last ≡ none
      → starting_byte q ≡ pos o
      → stands o c
      → At o (make_read_source q c)
  unfolding make_read_source starting_byte
  make_read_source-At o q c no_last start here = (
    record {
      forward = rw no_last refl;
      offset = rw no_last (sym started ∙ start);
      no_last = no_last;
      begun = omega (
        arith,
        le-at_least (at_least 0 (range_begin q.read_range)) q.read_from_offset,
        ap amount (sym started ∙ start),
      );
    },
    λ d e. subst (λ x. stands o x) (some-injective c d e) here,
  )
    where
      started :
          starting_byte q
          ≡ pos (at_least (at_least 0 (range_begin q.read_range)) q.read_from_offset)
      started = rw no_last refl

  -- The request for the rest starts where the download stands.
  starting_byte-rest :
      (o : ℕ) (src : ReadSource C)
      → Placed o src
      → starting_byte (rest_request src.direction src.current_offset src.request) ≡ pos o
  unfolding starting_byte
  starting_byte-rest o src p = rw (p.forward, p.offset, p.no_last) (ap pos (omega (arith, p.begun)))

  Placed-closed :
      (o : ℕ) (src : ReadSource C)
      → Placed o src
      → Placed o (record src {
        child = none;
        request = rest_request src.direction src.current_offset src.request;
      })
  Placed-closed o src p = record {
    forward = p.forward;
    offset = p.offset;
    no_last = rw p.forward p.no_last;
    begun = rw p.forward p.begun;
  }

  after_open-Delivers :
      (o n : ℕ) (q : ReadRequest) (x : Option (StatusOrVal C × Lent W)) (src : ReadSource C)
      → Placed o src
      → starting_byte q ≡ pos o
      → CallValue world "ReadFileNotWrapped" (open_child q) x
      → StepDelivers o (after_open world read_child open_child n x src)
  unfolding after_open StepDelivers Delivers
  after_open-Delivers o n q none src p e v = tt
  after_open-Delivers o n q (some (failure s, l)) src p e v = p
  after_open-Delivers o n q (some (value c, l)) src p e (w, w', opened) =
      after_read-Delivers o n c _ src _ p (serving.on_open q w w' o c e opened)

  read_round-Delivers :
      (fuel o n : ℕ) (s : Status) (src : ReadSource C) (l : Lent W)
      → Placed o src
      → StepDelivers o (read_round world read_child open_child fuel n s src l)
  unfolding read_round StepDelivers Delivers
  read_round-Delivers fuel o n s src l p =
      elim (Bool-cases (on_failure world l.retry s l.world_state).0) [
        | inr t ↦ rw t p
        | inl t ↦ rw t (
            after_open-Delivers o n _ _ _ (Placed-closed o src p) (starting_byte-rest o src p) (
              make_call-CallValue world "ReadFileNotWrapped"
                (open_child (rest_request src.direction src.current_offset src.request)) fuel _))
      ]

  unfoldable pub LoopDelivers :
      ℕ → Option (StatusOrVal ReadSourceResult × ReadSource C × W) → Type 0
  LoopDelivers o none = Unit {0}
  LoopDelivers o (some (r, src, w)) = Delivers o r src

  read_loop-Delivers :
      (fuel o n : ℕ) (s : Status) (src : ReadSource C) (l : Lent W)
      → Placed o src
      → LoopDelivers o (read_loop world read_child open_child fuel n s src l)
  unfolding read_loop LoopDelivers StepDelivers
  read_loop-Delivers zero o n s src l p = tt
  read_loop-Delivers (suc fuel) o n s src l p =
      follow (read_round world read_child open_child fuel n s src l)
        (read_round-Delivers fuel o n s src l p)
        (λ s' src' l'. read_loop-Delivers fuel o n s' src' l')
    where
      follow :
          (x : Step C W)
          → StepDelivers o x
          → ((s' : Status) (src' : ReadSource C) (l' : Lent W)
              → Placed o src'
              → LoopDelivers o (read_loop world read_child open_child fuel n s' src' l'))
          → LoopDelivers o (elim x [
            | ends r src' l' ↦ some (r, src', l'.world_state)
            | goes_on s' src' l' ↦ read_loop world read_child open_child fuel n s' src' l'
            | no_fuel ↦ none
          ])
      follow (ends r src' l') h ih = h
      follow (goes_on s' src' l') h ih = ih s' src' l' h
      follow no_fuel h ih = tt

  module _ (retry_prototype : RetryPolicy) (backoff_prototype : BackoffPolicy) where
    read_on-Delivers :
        (fuel o n : ℕ) (x : Step C W)
        → StepDelivers o x
        → LoopDelivers o
            (read_on world read_child open_child retry_prototype backoff_prototype fuel n x)
    unfolding read_on StepDelivers LoopDelivers
    read_on-Delivers fuel o n (ends r src l) h = h
    read_on-Delivers fuel o n (goes_on s src l) h = read_loop-Delivers fuel o n s src _ h
    read_on-Delivers fuel o n no_fuel h = tt

    read_by-Delivers :
        (fuel o n : ℕ) (x : Option C) (src : ReadSource C) (w : W)
        → Placed o src
        → ((c : C) → x ≡ some c → stands o c)
        → LoopDelivers o
            (read_by world read_child open_child retry_prototype backoff_prototype fuel n x src w)
    unfolding read_by LoopDelivers Delivers
    read_by-Delivers fuel o n none src w p stands = p
    read_by-Delivers fuel o n (some c) src w p stands =
        read_on-Delivers fuel o n
          (after_read world read_child open_child (read_child n c w) src start)
          (after_read-Delivers o n c w src start p (stands c refl))
      where
        start : Lent W
        start = record { retry = retry_prototype; backoff = backoff_prototype; world_state = w }

    pub read-Delivers :
        (fuel o n : ℕ) (src : ReadSource C) (w : W)
        → At o src
        → LoopDelivers o
            (read world read_child open_child retry_prototype backoff_prototype fuel n src w)
    unfolding read
    read-Delivers fuel o n src w (p, stands) = read_by-Delivers fuel o n src.child src w p stands
