-- ===== src/Download/Flow.antt =====
-- Where the bytes of a transfer are: in the application's buffer, in the spill buffer, or still with
-- libcurl, in this order.
use cloudstorageapi.Prelude.{
  ℕ, ◌-◌, ◌≡◌, ◌≢◌, refl, sym, ap, ◌∙◌, ◌≤◌, ◌<◌, Bool, true, false, List, [], ◌++◌, arith, inl,
  inr, Bool-cases, append_assoc, length, length-append, length-take, length-drop, take, drop,
  take-append-drop, subst, min, leb, ltb, ltb→lt, not-ltb→le, ◌==◌, ==_iff, eq_nil, if◌then◌else◌,
  if_both,
}
use cloudstorageapi.Download.{
  DownloadRequest, WriteAnswer, took, pause, OnWrite, drain_spill_buffer, write_data,
  write_callback,
}

-- `CURL_MAX_WRITE_SIZE`, which is the size of the spill buffer.
abbrev pub max_write_size : ℕ
max_write_size = 16384

-- What libcurl may do with a write callback while it works on a transfer: it offers the next bytes of
-- the body, at most `max_write_size`; those that are taken are gone, those that meet a pause stay, and
-- an answer of another number than was offered ends the transfer.
pub data Delivers (f : OnWrite) : DownloadRequest → List ℕ → DownloadRequest → List ℕ → Type 0 where
  rests : (d : DownloadRequest) (r : List ℕ) → Delivers f d r d r
  takes :
      (bytes r' : List ℕ) {d d' d'' : DownloadRequest} {r r'' : List ℕ}
      → length bytes ≤ max_write_size
      → r ≡ bytes ++ r'
      → f bytes d ≡ (took (length bytes), d')
      → Delivers f d' r' d'' r''
      → Delivers f d r d'' r''
  pauses :
      (bytes r' : List ℕ) {d d' d'' : DownloadRequest} {r r'' : List ℕ}
      → length bytes ≤ max_write_size
      → r ≡ bytes ++ r'
      → f bytes d ≡ (pause, d')
      → Delivers f d' r d'' r''
      → Delivers f d r d'' r''
  aborts :
      (bytes r' : List ℕ) (n : ℕ) {d d' : DownloadRequest} {r r'' : List ℕ}
      → length bytes ≤ max_write_size
      → r ≡ bytes ++ r'
      → f bytes d ≡ (took n, d')
      → n ≢ length bytes
      → Delivers f d r d' r''

-- The bytes are in order, the buffers hold no more than they can, and the transfer is not closing.
pub record Flowing (whole : List ℕ) (d : DownloadRequest) (r : List ℕ) : Type 0 where
  pub order : d.buffer ++ (d.spill ++ r) ≡ whole
  pub not_closing : d.closing ≡ false
  pub fits : length d.buffer ≤ d.buffer_size
  pub small : length d.spill ≤ max_write_size

pub drain_spill_buffer-Flowing :
    (whole r : List ℕ) (d : DownloadRequest)
    → Flowing whole d r
    → Flowing whole (drain_spill_buffer d) r
drain_spill_buffer-Flowing whole r d h =
    let k = min (d.buffer_size - length d.buffer) (length d.spill) in
    record {
      order =
          append_assoc d.buffer (take k d.spill) (drop k d.spill ++ r)
          ∙ ap (λ t. d.buffer ++ t)
              (sym (append_assoc (take k d.spill) (drop k d.spill) r)
                ∙ ap (λ t. t ++ r) (take-append-drop k d.spill))
          ∙ h.order;
      not_closing = h.not_closing;
      fits = omega (arith, h.fits, length-append d.buffer (take k d.spill), length-take k d.spill);
      small = omega (arith, h.small, length-drop k d.spill);
    }

-- After that there is either no space left or nothing in the spill buffer.
drain_spill_buffer-empties :
    (d : DownloadRequest)
    → (drain_spill_buffer d).buffer_size - length (drain_spill_buffer d).buffer ≢ 0
    → (drain_spill_buffer d).spill ≡ []
drain_spill_buffer-empties d h =
    let k = min (d.buffer_size - length d.buffer) (length d.spill) in
    eq_nil (drop k d.spill) (elim (Bool-cases (length (drop k d.spill) == 0)) [
      | inl e ↦ (==_iff (length (drop k d.spill)) 0).0 e
      | inr e ↦ absurd (
          h (
            ground (
              arith,
              length-drop k d.spill,
              length-append d.buffer (take k d.spill),
              length-take k d.spill,
            )))
    ])

-- What the callback makes of bytes that are offered.
abbrev pub Accepts : List ℕ → List ℕ → List ℕ → WriteAnswer × DownloadRequest → Type 0
Accepts whole bytes r (took n, d) = (n ≡ length bytes) × Flowing whole d r
Accepts whole bytes r (pause, d) = Flowing whole d (bytes ++ r)

write_data-Accepts :
    (whole bytes r : List ℕ) (d : DownloadRequest)
    → Flowing whole d (bytes ++ r)
    → length bytes ≤ max_write_size
    → (d.buffer_size - length d.buffer ≢ 0 → d.spill ≡ [])
    → Accepts whole bytes r (write_data bytes d)
unfolding write_data
write_data-Accepts whole bytes r d h most empty = elim (Bool-cases (free == 0)) [
  | inl e ↦
      rw (e)
        (record { order = h.order; not_closing = h.not_closing; fits = h.fits; small = h.small })
  | inr e ↦ rw (e) (elim (Bool-cases (ltb (length bytes) free)) [
    | inl l ↦ rw (l) (refl, short (nothing e) (ltb→lt (length bytes) free l))
    | inr l ↦ rw (l) (refl, long (nothing e) (not-ltb→le (length bytes) free l))
  ])
]
  where
    free : ℕ
    free = d.buffer_size - length d.buffer

    nothing : (free == 0) ≡ false → free ≢ 0
    nothing e z = cc (sym e ∙ (==_iff free 0).1 z)

    order' : free ≢ 0 → d.buffer ++ (bytes ++ r) ≡ whole
    order' ne = ap (λ s. d.buffer ++ (s ++ (bytes ++ r))) (sym (empty ne)) ∙ h.order

    short :
        free ≢ 0 → length bytes < free → Flowing whole (record d { buffer = d.buffer ++ bytes }) r
    short ne lt = record {
      order =
          ap (λ s. (d.buffer ++ bytes) ++ (s ++ r)) (empty ne)
          ∙ append_assoc d.buffer bytes r
          ∙ order' ne;
      not_closing = h.not_closing;
      fits = omega (arith, length-append d.buffer bytes);
      small = h.small;
    }

    long :
        free ≢ 0
        → free ≤ length bytes
        → Flowing whole
            (record d { buffer = d.buffer ++ take free bytes; spill = drop free bytes })
            r
    long ne le = record {
      order =
          append_assoc d.buffer (take free bytes) (drop free bytes ++ r)
          ∙ ap (λ t. d.buffer ++ t)
              (sym (append_assoc (take free bytes) (drop free bytes) r)
                ∙ ap (λ t. t ++ r) (take-append-drop free bytes))
          ∙ order' ne;
      not_closing = h.not_closing;
      fits =
          omega (arith, h.fits, length-append d.buffer (take free bytes), length-take free bytes);
      small = omega (arith, length-drop free bytes);
    }

-- On a transfer that is not closing, the callback takes all the bytes that it is offered, or none
-- and pauses; it overruns neither buffer, and the bytes stay in order.
pub write_callback-Accepts :
    (whole bytes r : List ℕ) (d : DownloadRequest)
    → Flowing whole d (bytes ++ r)
    → length bytes ≤ max_write_size
    → Accepts whole bytes r (write_callback bytes d)
unfolding write_callback
write_callback-Accepts whole bytes r d h most =
    subst
      (λ c. Accepts whole bytes r (
        if c
        then (took 0, d)
        else if leb d.buffer_size (length d.buffer)
        then (pause, record d { paused = true })
        else write_data bytes (drain_spill_buffer d)))
      (sym h.not_closing)
      (elim (Bool-cases (leb d.buffer_size (length d.buffer))) [
        | inl full ↦ rw (full) (record {
          order = h.order;
          not_closing = h.not_closing;
          fits = h.fits;
          small = h.small;
        })
        | inr space ↦ rw (space) (
            write_data-Accepts whole bytes r (drain_spill_buffer d)
              (drain_spill_buffer-Flowing whole (bytes ++ r) d h) most
              (drain_spill_buffer-empties d))
      ])

-- However libcurl works on the transfer, the bytes stay in order.
pub Delivers-Flowing :
    (whole : List ℕ) {d d' : DownloadRequest} {r r' : List ℕ}
    → Delivers write_callback d r d' r'
    → Flowing whole d r
    → Flowing whole d' r'
Delivers-Flowing whole (rests d r) h = h
Delivers-Flowing whole (takes bytes r' {d} most e taken more) h =
    Delivers-Flowing whole more
      (subst (Accepts whole bytes r') taken
        (write_callback-Accepts whole bytes r' d (subst (Flowing whole d) e h) most)).1
Delivers-Flowing whole (pauses bytes r' {d} {d'} most e stopped more) h =
    Delivers-Flowing whole more (
      subst (Flowing whole d') (sym e) (
        subst (Accepts whole bytes r') stopped
          (write_callback-Accepts whole bytes r' d (subst (Flowing whole d) e h) most)))
Delivers-Flowing whole (aborts bytes r' n {d} most e taken ne) h = absurd (
    ne
      (subst (Accepts whole bytes r') taken
        (write_callback-Accepts whole bytes r' d (subst (Flowing whole d) e h) most)).0)

abbrev IsClosed : Bool → WriteAnswer × DownloadRequest → Type 0
IsClosed c (a, d) = d.curl_closed ≡ c

write_data-closed :
    (bytes : List ℕ) (d : DownloadRequest) → (write_data bytes d).1.curl_closed ≡ d.curl_closed
unfolding write_data
write_data-closed bytes d =
    let free = d.buffer_size - length d.buffer in
    if_both (IsClosed d.curl_closed) (free == 0) _ _ refl
      (if_both (IsClosed d.curl_closed) (ltb (length bytes) free) _ _ refl refl)

write_callback-closed :
    (bytes : List ℕ) (d : DownloadRequest) → (write_callback bytes d).1.curl_closed ≡ d.curl_closed
unfolding write_callback
write_callback-closed bytes d = if_both (IsClosed d.curl_closed) d.closing _ _ refl (
    if_both (IsClosed d.curl_closed) (leb d.buffer_size (length d.buffer)) _ _ refl
      (write_data-closed bytes (drain_spill_buffer d)))

-- The callback does not close a transfer, nor open one.
pub Delivers-closed :
    {d d' : DownloadRequest} {r r' : List ℕ}
    → Delivers write_callback d r d' r'
    → d'.curl_closed ≡ d.curl_closed
Delivers-closed (rests d r) = refl
Delivers-closed (takes bytes r' {d} most e taken more) =
    Delivers-closed more ∙ sym (ap (λ x. x.1.curl_closed) taken) ∙ write_callback-closed bytes d
Delivers-closed (pauses bytes r' {d} most e stopped more) =
    Delivers-closed more ∙ sym (ap (λ x. x.1.curl_closed) stopped) ∙ write_callback-closed bytes d
Delivers-closed (aborts bytes r' n {d} most e taken ne) =
    sym (ap (λ x. x.1.curl_closed) taken) ∙ write_callback-closed bytes d
