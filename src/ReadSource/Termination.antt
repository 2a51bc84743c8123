-- ===== src/ReadSource/Termination.antt =====
-- A read under a counting policy ends, whatever the sources and the opening of new ones do.
use cloudstorageapi.Prelude.{
  ℕ, zero, suc, ◌+◌, ◌≡◌, refl, ap, ◌≤◌, ◌<◌, pos, Option, none, some, arith, Bool-cases, inl, inr,
  List, subst,
}
use cloudstorageapi.Status.{Status, StatusOrVal, value, failure}
use cloudstorageapi.Policy.{World, BackoffPolicy, limited_error_count, clone_retry, on_failure}
use cloudstorageapi.Policy.Patience.{Patience, on_failure-Uses}
use cloudstorageapi.Retry.{Lent, make_call}
use cloudstorageapi.Retry.Patience.{CallLeaves, make_call-CallLeaves}
use cloudstorageapi.ReadSource.{
  ReadRequest, ReadSourceResult, ReadSource, rest_request, Step, ends, goes_on, no_fuel, after_read,
  after_open, read_round, read_loop, read_on, read_by, read,
}
use cloudstorageapi.ReadSource.Contiguous.{Serving, At, Delivers, LoopDelivers, read-Delivers}

module _ {C W : Type 0} (world : World W)
    (read_child : ℕ → C → W → StatusOrVal ReadSourceResult × C × W)
    (open_child : ReadRequest → W → StatusOrVal C × W) where
  -- A step ends, or goes on with less than `a` failures left.
  abbrev StepLeaves : ℕ → Step C W → Type 0
  StepLeaves a (ends r src l) = Unit {0}
  StepLeaves a (goes_on s src l) = (b : ℕ) × (b < a) × Patience b l.retry
  StepLeaves a no_fuel = ⊥

  after_read-StepLeaves :
      (a : ℕ) (x : StatusOrVal ReadSourceResult × C × W) (src : ReadSource C) (l : Lent W)
      → Patience a l.retry
      → StepLeaves (suc a) (after_read world read_child open_child x src l)
  unfolding after_read
  after_read-StepLeaves a (value r, c, w) src l h = tt
  after_read-StepLeaves a (failure s, c, w) src l h = (a, omega arith, h)

  StepLeaves-le : (a b : ℕ) (x : Step C W) → b ≤ a → StepLeaves b x → StepLeaves a x
  StepLeaves-le a b (ends r src l) h s = tt
  StepLeaves-le a b (goes_on s src l) h (c, le, p) = (c, omega arith, p)
  StepLeaves-le a b no_fuel h s = s

  after_open-StepLeaves :
      (a n : ℕ) (q : ReadRequest) (x : Option (StatusOrVal C × Lent W)) (src : ReadSource C)
      → CallLeaves world "ReadFileNotWrapped" (open_child q) a x
      → StepLeaves (suc a) (after_open world read_child open_child n x src)
  unfolding after_open
  after_open-StepLeaves a n q none src h = h
  after_open-StepLeaves a n q (some (failure s, l)) src h = tt
  after_open-StepLeaves a n q (some (value c, l)) src (b, le, p) =
      StepLeaves-le (suc a) (suc b)
        (after_open world read_child open_child n (some (value c, l)) src) (omega arith)
        (after_read-StepLeaves b _ src _ p)

  -- A round uses up a failure.
  read_round-StepLeaves :
      (fuel a n : ℕ) (s : Status) (src : ReadSource C) (l : Lent W)
      → Patience a l.retry
      → a ≤ fuel
      → StepLeaves a (read_round world read_child open_child fuel n s src l)
  unfolding read_round
  read_round-StepLeaves fuel a n s src l h enough =
      elim (Bool-cases (on_failure world l.retry s l.world_state).0) [
        | inr t ↦ rw t tt
        | inl t ↦
            let (b, eq, p) = on_failure-Uses world a l.retry s l.world_state h t in
            rw t (
              StepLeaves-le a (suc b)
                (after_open world read_child open_child n
                  (make_call world "ReadFileNotWrapped" (open_child (closed.request)) fuel
                    (record l {
                      retry = (on_failure world l.retry s l.world_state).1;
                      world_state = (on_failure world l.retry s l.world_state).2;
                    }))
                  closed)
                (omega arith)
                (after_open-StepLeaves b n closed.request _ closed (
                  make_call-CallLeaves world "ReadFileNotWrapped" (open_child closed.request) fuel b
                    (record l {
                      retry = (on_failure world l.retry s l.world_state).1;
                      world_state = (on_failure world l.retry s l.world_state).2;
                    })
                    p (omega arith))))
      ]
    where
      closed : ReadSource C
      closed = record src {
        child = none;
        request = rest_request src.direction src.current_offset src.request;
      }

  abbrev Returns : Option (StatusOrVal ReadSourceResult × ReadSource C × W) → Type 0
  Returns x =
      (r : StatusOrVal ReadSourceResult) × (src : ReadSource C) × (w : W) × (x ≡ some (r, src, w))

  read_loop-Returns :
      (fuel a n : ℕ) (s : Status) (src : ReadSource C) (l : Lent W)
      → Patience a l.retry
      → a < fuel
      → Returns (read_loop world read_child open_child fuel n s src l)
  unfolding read_loop
  read_loop-Returns zero a n s src l h lt = absurd (omega arith)
  read_loop-Returns (suc fuel) a n s src l h lt =
      follow (read_round world read_child open_child fuel n s src l)
        (read_round-StepLeaves fuel a n s src l h (omega arith))
        (λ b s' src' l'. read_loop-Returns fuel b n s' src' l')
    where
      follow :
          (x : Step C W)
          → StepLeaves a x
          → ((b : ℕ) (s' : Status) (src' : ReadSource C) (l' : Lent W)
              → Patience b l'.retry
              → b < fuel
              → Returns (read_loop world read_child open_child fuel n s' src' l'))
          → Returns (elim x [
            | ends r src' l' ↦ some (r, src', l'.world_state)
            | goes_on s' src' l' ↦ read_loop world read_child open_child fuel n s' src' l'
            | no_fuel ↦ none
          ])
      follow (ends r src' l') h ih = (r, src', l'.world_state, refl)
      follow (goes_on s' src' l') (b, less, p) ih = ih b s' src' l' p (omega arith)
      follow no_fuel h ih = absurd h

  module _ (failures m : ℕ) (backoff_prototype : BackoffPolicy) where
    after_read-Returns :
        (n : ℕ) (x : StatusOrVal ReadSourceResult × C × W) (src : ReadSource C) (l : Lent W)
        → Returns (
            read_on world read_child open_child
              (limited_error_count failures (pos m))
              backoff_prototype
              (m + 1)
              n
              (after_read world read_child open_child x src l))
    unfolding read_on after_read clone_retry
    after_read-Returns n (value r, c, w) src l = (value r, _, w, refl)
    after_read-Returns n (failure s, c, w) src l =
        read_loop-Returns (m + 1) m n s _ _ (ap pos (omega arith)) (omega arith)

    read_by-Returns :
        (n : ℕ) (x : Option C) (src : ReadSource C) (w : W)
        → Returns (
            read_by world read_child open_child
              (limited_error_count failures (pos m))
              backoff_prototype
              (m + 1)
              n
              x
              src
              w)
    unfolding read_by
    read_by-Returns n none src w = (_, src, w, refl)
    read_by-Returns n (some c) src w = after_read-Returns n (read_child n c w) src _

    pub read-Returns :
        (n : ℕ) (src : ReadSource C) (w : W)
        → Returns (
            read world read_child open_child
              (limited_error_count failures (pos m))
              backoff_prototype
              (m + 1)
              n
              src
              w)
    unfolding read
    read-Returns n src w = read_by-Returns n src.child src w

module _ {C W : Type 0} (world : World W)
    (read_child : ℕ → C → W → StatusOrVal ReadSourceResult × C × W)
    (open_child : ReadRequest → W → StatusOrVal C × W) (content : List ℕ) (stands : ℕ → C → Type 0)
    (serving : Serving read_child open_child content stands) (failures m : ℕ)
    (backoff_prototype : BackoffPolicy) where
  -- A read under a policy that allows `m` failures returns within `m + 1` rounds, whatever fails on
  -- the way: either the next bytes of the file, after which the download stands behind them, or an
  -- error, after which it stands where it was.
  pub read-total :
      (o n : ℕ) (src : ReadSource C) (w : W)
      → At world read_child open_child content stands serving o src
      → (r : StatusOrVal ReadSourceResult) × (src' : ReadSource C) × (w' : W) × (read world
            read_child open_child
            (limited_error_count failures (pos m))
            backoff_prototype
            (m + 1)
            n
            src
            w
          ≡ some (r, src', w'))
        × Delivers world read_child open_child content stands serving o r src'
  unfolding LoopDelivers
  read-total o n src w at =
      let (r, src', w', e) =
        read-Returns world read_child open_child failures m backoff_prototype n src w in
      (
        r,
        src',
        w',
        e,
        subst (LoopDelivers world read_child open_child content stands serving o) e (
            read-Delivers world read_child open_child content stands serving
              (limited_error_count failures (pos m)) backoff_prototype (m + 1) o n src w at),
      )
