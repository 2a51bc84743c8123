-- ===== src/ReadSource/Reads.antt =====
-- Several reads of a download, one after the other.
use cloudstorageapi.Prelude.{
  ℕ, ◌+◌, ◌≡◌, refl, sym, ap, ◌∙◌, pos, Option, none, some, List, arith, length, take, drop, subst,
  [], ◌∷◌, ◌++◌, length-append, take-append-take-drop, drop-drop,
}
use cloudstorageapi.Status.{StatusOrVal, value, failure}
use cloudstorageapi.Policy.{World, RetryPolicy, BackoffPolicy}
use cloudstorageapi.ReadSource.{
  ReadRequest, starting_byte, ReadSourceResult, ReadSource, make_read_source, read,
}
use cloudstorageapi.ReadSource.Contiguous.{
  Serving, At, Delivers, LoopDelivers, read-Delivers, make_read_source-At,
}

-- A read and those after it; `none` is a read that fails or has no fuel.
abbrev reads_on :
    {C W : Type 0}
    → (ReadSource C → W → Option (List ℕ × ReadSource C × W))
    → Option (StatusOrVal ReadSourceResult × ReadSource C × W)
    → Option (List ℕ × ReadSource C × W)
reads_on more none = none
reads_on more (some (failure s, src, w)) = none
reads_on more (some (value r, src, w)) = elim (more src w) [
  | none ↦ none
  | some (bytes, src', w') ↦ some (r.received ++ bytes, src', w')
]

module _ {C W : Type 0} (world : World W)
    (read_child : ℕ → C → W → StatusOrVal ReadSourceResult × C × W)
    (open_child : ReadRequest → W → StatusOrVal C × W) (content : List ℕ) (stands : ℕ → C → Type 0)
    (serving : Serving read_child open_child content stands) where
  module _ (retry_prototype : RetryPolicy) (backoff_prototype : BackoffPolicy) where
    -- The bytes of several reads that succeed, for buffers of the given sizes.
    unfoldable pub reads : ℕ → List ℕ → ReadSource C → W → Option (List ℕ × ReadSource C × W)
    reads fuel [] src w = some ([], src, w)
    reads fuel (n ∷ ns) src w =
        reads_on (reads fuel ns)
          (read world read_child open_child retry_prototype backoff_prototype fuel n src w)

    -- What reads deliver from `o` on, if they all succeed.
    abbrev Contiguous : ℕ → Option (List ℕ × ReadSource C × W) → Type 0
    Contiguous o none = Unit {0}
    Contiguous o (some (bytes, src, w)) =
        (bytes ≡ take (length bytes) (drop o content))
        × At world read_child open_child content stands serving (o + length bytes) src

    reads_on-Contiguous :
        (o : ℕ) (more : ReadSource C → W → Option (List ℕ × ReadSource C × W))
        (x : Option (StatusOrVal ReadSourceResult × ReadSource C × W))
        → LoopDelivers world read_child open_child content stands serving o x
        → ((o' : ℕ) (src : ReadSource C) (w : W)
            → At world read_child open_child content stands serving o' src
            → Contiguous o' (more src w))
        → Contiguous o (reads_on more x)
    unfolding LoopDelivers Delivers
    reads_on-Contiguous o more none h ih = tt
    reads_on-Contiguous o more (some (failure s, src, w)) h ih = tt
    reads_on-Contiguous o more (some (value r, src, w)) (part, at) ih =
        follow (more src w) (ih (o + length r.received) src w at)
      where
        follow :
            (y : Option (List ℕ × ReadSource C × W))
            → Contiguous (o + length r.received) y
            → Contiguous o (elim y [
              | none ↦ none
              | some (bytes, src', w') ↦ some (r.received ++ bytes, src', w')
            ])
        follow none h = tt
        follow (some (bytes, src', w')) (rest, at') =
            let a = length r.received in
            (
              ap (λ t. t ++ bytes) part
                  ∙ ap (λ t. take a (drop o content) ++ t)
                      (rest ∙ sym (ap (λ t. take (length bytes) t) (drop-drop o a content)))
                  ∙ take-append-take-drop a (length bytes) (drop o content)
                  ∙ ap (λ k. take k (drop o content)) (sym (length-append r.received bytes)),
              subst (λ k. At world read_child open_child content stands serving k src')
                  (omega (arith, length-append r.received bytes)) at',
            )

    reads-Contiguous :
        (fuel o : ℕ) (ns : List ℕ) (src : ReadSource C) (w : W)
        → At world read_child open_child content stands serving o src
        → Contiguous o (reads fuel ns src w)
    unfolding reads
    reads-Contiguous fuel o [] src w at = (
      refl,
      subst (λ k. At world read_child open_child content stands serving k src) (omega arith) at,
    )
    reads-Contiguous fuel o (n ∷ ns) src w at =
        reads_on-Contiguous o (reads fuel ns)
          (read world read_child open_child retry_prototype backoff_prototype fuel n src w)
          (read-Delivers world read_child open_child content stands serving retry_prototype
            backoff_prototype fuel o n src w at)
          (λ o' src' w'. reads-Contiguous fuel o' ns src' w')

    -- A download of a file from the byte that its request asks for, made over a source that stands
    -- there: if reads for buffers of any sizes all succeed, whatever failed in between, they deliver
    -- the content from that byte on, each byte once.
    pub reads-delivers :
        (fuel o : ℕ) (ns bytes : List ℕ) (q : ReadRequest) (c : C) (src : ReadSource C) (w w' : W)
        → q.read_last ≡ none
        → starting_byte q ≡ pos o
        → stands o c
        → reads fuel ns (make_read_source q c) w ≡ some (bytes, src, w')
        → bytes ≡ take (length bytes) (drop o content)
    reads-delivers fuel o ns bytes q c src w w' no_last start here e =
        (subst (Contiguous o) e (
          reads-Contiguous fuel o ns (make_read_source q c) w (
            make_read_source-At world read_child open_child content stands serving o q c no_last
              start here))).0
