-- ===== src/ReadStream/Resumed.antt =====
-- A stream over the retrying source: what `FileReadStream` gives, through `FileReadStreambuf` and
-- `RetryObjectReadSource`, over the sources that a client opens.
use cloudstorageapi.Prelude.{
  ℕ, ◌+◌, ◌≡◌, ap, pos, Bool, true, false, Option, none, some, List, length, take, drop, subst,
}
use cloudstorageapi.Status.{StatusOrVal, value, failure, unknown}
use cloudstorageapi.Http.{HttpResponse}
use cloudstorageapi.Policy.{World, RetryPolicy, BackoffPolicy}
use cloudstorageapi.ReadSource.{
  ReadRequest, starting_byte, ReadSourceResult, ReadSource, make_read_source, read,
}
use cloudstorageapi.ReadSource.Contiguous.{
  Serving, At, Delivers, LoopDelivers, read-Delivers, make_read_source-At,
}
use cloudstorageapi.ReadStream.{Source, ReadStreambuf, read_streambuf, tell}
use cloudstorageapi.ReadStream.Delivered.{Providing}
use cloudstorageapi.ReadStream.Gets.{Ask, answers, answers-deliver}

-- A read that has no fuel is a failure here; with enough fuel there is none.
abbrev fueled :
    {C W : Type 0}
    → ReadSource C × W
    → Option (StatusOrVal ReadSourceResult × ReadSource C × W)
    → StatusOrVal ReadSourceResult × (ReadSource C × W)
fueled s none = (failure (record { code = unknown; message = "" }), s)
fueled s (some (x, src, w)) = (x, (src, w))

module _ {C W : Type 0} (world : World W)
    (read_child : ℕ → C → W → StatusOrVal ReadSourceResult × C × W)
    (open_child : ReadRequest → W → StatusOrVal C × W) (child_is_open : C → Bool)
    (close_child : C → W → StatusOrVal HttpResponse × C × W) (retry_prototype : RetryPolicy)
    (backoff_prototype : BackoffPolicy) (fuel : ℕ) where
  -- `RetryObjectReadSource` as a source. Its `Close` is the child's; without a child, where the
  -- code follows a null pointer, it fails here, and no read calls it.
  unfoldable pub retrying_source : Source (ReadSource C × W)
  retrying_source = record {
    source_is_open = λ s. elim s.0.child [ none ↦ false | some c ↦ child_is_open c ];
    source_close = λ s. elim s.0.child [
      | none ↦ (failure (record { code = unknown; message = "" }), s)
      | some c ↦ let x = close_child c s.1 in (x.0, (record (s.0) { child = some (x.1) }, x.2))
    ];
    source_read = λ n s.
        fueled s
          (read world read_child open_child retry_prototype backoff_prototype fuel n s.0 s.1);
  }

  module _ (content : List ℕ) (stands : ℕ → C → Type 0)
      (serving : Serving read_child open_child content stands) where
    abbrev Standing : ℕ → ReadSource C × W → Type 0
    Standing o s = At world read_child open_child content stands serving o s.0

    fueled-Standing :
        (o : ℕ) (s s' : ReadSource C × W) (r : ReadSourceResult)
        (x : Option (StatusOrVal ReadSourceResult × ReadSource C × W))
        → LoopDelivers world read_child open_child content stands serving o x
        → fueled s x ≡ (value r, s')
        → (r.received ≡ take (length r.received) (drop o content))
          × Standing (o + length r.received) s'
    unfolding LoopDelivers Delivers
    fueled-Standing o s s' r none d h = absurd cc
    fueled-Standing o s s' r (some (failure e, src, w)) d h = absurd (cc (ap (λ x. x.0) h))
    fueled-Standing o s s' r (some (value q, src, w)) d h =
        subst (λ x. Delivers world read_child open_child content stands serving o x.0 x.1.0) h d

    retrying_source-Providing : Providing retrying_source content Standing
    unfolding retrying_source
    retrying_source-Providing = record {
      on_read = λ o n s s' r at h.
          fueled-Standing o s s' r
            (read world read_child open_child retry_prototype backoff_prototype fuel n s.0 s.1)
            (read-Delivers world read_child open_child content stands serving retry_prototype
              backoff_prototype fuel o n s.0 s.1 at)
            h;
    }

    -- A stream over a download of the file from the byte `o` that its request asks for, made over a
    -- source that stands there, which the client replaces when it fails; the stream is told that this
    -- is the position `start + o`: whatever reads and looks
    -- for the next character a program makes and whatever failed in between, if none throws, the
    -- bytes that it gets are the content from `o` on, each byte once, and the stream says that it
    -- stands after them.
    pub stream-resumes :
        (start o : ℕ) (asks : List Ask) (q : ReadRequest) (c : C) (w : W)
        (b : ReadStreambuf (ReadSource C × W)) (bytes : List ℕ)
        → q.read_last ≡ none
        → starting_byte q ≡ pos o
        → stands o c
        → answers retrying_source asks (read_streambuf (make_read_source q c, w) (pos (start + o)))
          ≡ some (bytes, b)
        → (bytes ≡ take (length bytes) (drop o content))
          × (tell true b ≡ some (pos (start + o + length bytes)))
    stream-resumes start o asks q c w b bytes no_last begins here e =
        answers-deliver retrying_source content Standing retrying_source-Providing start o asks
          (make_read_source q c, w) b bytes
          (make_read_source-At world read_child open_child content stands serving o q c no_last
            begins here)
          e
