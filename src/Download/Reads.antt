-- ===== src/Download/Reads.antt =====
-- What a read of a transfer delivers, over a libcurl that delivers the body in order.
use cloudstorageapi.Prelude.{
  ℕ, ◌+◌, ◌≡◌, refl, sym, ap, ◌∙◌, ◌≤◌, ◌<◌, true, false, not, Option, none, some, List, [], ◌∷◌,
  ◌++◌, arith, inl, inr, Bool-cases, length, take, drop, take-append_le, take_all, drop-append_le,
  drop_all, drop-drop, subst, ◌==◌, if◌then◌else◌, if_both,
}
use cloudstorageapi.Status.{Status, value, failure, is_ok}
use cloudstorageapi.Http.{as_status}
use cloudstorageapi.Download.{
  DownloadRequest, Headers, Libcurl, write_callback, drain_spill_buffer, add_headers, wait,
  on_transfer_done, without_buffer, Answer, response_of, finish, read_waited, read_continued,
  read_drained, download_read,
}
use cloudstorageapi.Download.Flow.{Flowing, max_write_size, drain_spill_buffer-Flowing}
use cloudstorageapi.Download.Contract.{Transferring}
use cloudstorageapi.Download.Waits.{Under, After, Delivers-Under, same-Under, After-le, wait-After}

module _ {E : Type 0} (curl : Libcurl E) (remaining : E → List ℕ) (work : E → ℕ)
    (transferring : Transferring curl remaining work) where
  -- A transfer from which the body was taken up to `o`.
  pub record Stands (body : List ℕ) (o : ℕ) (d : DownloadRequest) (e : E) : Type 0 where
    pub rest : List ℕ
    pub order : d.spill ++ rest ≡ drop o body
    pub not_closing : d.closing ≡ false
    pub small : length d.spill ≤ max_write_size
    pub link : d.curl_closed ≡ false → rest ≡ remaining e

  -- What a read answers: the next part of the body, or an error.
  abbrev pub Delivered : List ℕ → ℕ → ℕ → Option (Answer curl) → Type 0
  Delivered body o bound none = ⊥
  Delivered body o bound (some (failure s, d, e)) = work e ≤ bound
  Delivered body o bound (some (value r, d, e)) =
      (r.received ≡ take (length r.received) (drop o body))
      × Stands body (o + length r.received) d e
      × (work e ≤ bound)

  -- The start of a read, which takes what is in the spill buffer.
  Stands-Under :
      (body : List ℕ) (o n : ℕ) (d : DownloadRequest) (e : E)
      → Stands body o d e
      → Under curl remaining work transferring
          (drop o body)
          (drain_spill_buffer (record d { buffer = []; buffer_size = n }))
          e
  Stands-Under body o n d e s =
      let fresh : DownloadRequest = record d { buffer = []; buffer_size = n } in
      let flow : Flowing (drop o body) fresh s.rest = record {
        order = s.order;
        not_closing = s.not_closing;
        fits = omega arith;
        small = s.small;
      } in
      record {
        rest = s.rest;
        flow = drain_spill_buffer-Flowing (drop o body) s.rest fresh flow;
        link = s.link;
      }

  -- The end of a read, which leaves no buffer behind.
  Under-Stands :
      (body : List ℕ) (o : ℕ) (d d' : DownloadRequest) (e e' : E)
      → Under curl remaining work transferring (drop o body) d e
      → d'.spill ≡ d.spill
      → d'.closing ≡ d.closing
      → d'.curl_closed ≡ d.curl_closed
      → (d'.curl_closed ≡ false → remaining e' ≡ remaining e)
      → (d.buffer ≡ take (length d.buffer) (drop o body)) × Stands body (o + length d.buffer) d' e'
  Under-Stands body o d d' e e' u spill closing closed same = (
    sym (
          take-append_le (length d.buffer) d.buffer (d.spill ++ u.rest) (omega arith)
          ∙ take_all (length d.buffer) d.buffer (omega arith))
        ∙ ap (λ t. take (length d.buffer) t) u.flow.order,
    record {
      rest = u.rest;
      order =
          ap (λ t. t ++ u.rest) spill
          ∙ sym (
              drop-append_le (length d.buffer) d.buffer (d.spill ++ u.rest) (omega arith)
              ∙ ap (λ t. t ++ (d.spill ++ u.rest))
                  (drop_all (length d.buffer) d.buffer (omega arith)))
          ∙ ap (λ t. drop (length d.buffer) t) u.flow.order
          ∙ drop-drop o (length d.buffer) body;
      not_closing = closing ∙ u.flow.not_closing;
      small = omega (arith, ap length spill, u.flow.small);
      link = λ c. u.link (sym closed ∙ c) ∙ sym (same c);
    },
  )

  -- A read that ends with a transfer that is closed.
  finish-Delivered :
      (body : List ℕ) (o bound : ℕ) (d : DownloadRequest) (e : E)
      → Under curl remaining work transferring (drop o body) d e
      → work e ≤ bound
      → d.curl_closed ≡ true
      → Delivered body o bound
          (some (finish curl d.buffer (on_transfer_done curl (without_buffer curl d) e)))
  unfolding finish on_transfer_done
  finish-Delivered body o bound d e u le closed =
      let d1 : DownloadRequest = (on_transfer_done curl (without_buffer curl d) e).0 in
      let e1 = curl.cleanup_handles e in
      let response = response_of curl d1.http_code d1 in
      let d2 : DownloadRequest = record d1 { received_headers = [] } in
      let (part, stands) =
        Under-Stands body o d d2 e e1 u refl refl refl (λ c. absurd (cc (sym closed ∙ c))) in
      if_both (λ x. Delivered body o bound (some x)) (not (is_ok (as_status response)))
        (failure (as_status response), d2, e1)
        (value (record { received = d.buffer; response = response }), d2, e1)
        (omega (arith, transferring.cleanup_work e))
        (part, stands, omega (arith, transferring.cleanup_work e))

  read_waited-Delivered :
      (body : List ℕ) (o bound : ℕ) (x : Option (Status × DownloadRequest × E))
      → After curl remaining work transferring (drop o body) bound x
      → Delivered body o bound (read_waited curl x)
  unfolding read_waited
  read_waited-Delivered body o bound none p = p
  read_waited-Delivered body o bound (some (status, d, e)) (u, le) =
      if_both (Delivered body o bound) (not (is_ok status)) _ _ le
        (elim (Bool-cases d.curl_closed) [
          | inl c ↦
              subst (λ b. Delivered body o bound (if b then closed else open_)) (sym c)
                (finish-Delivered body o bound d e u le c)
          | inr c ↦
              subst (λ b. Delivered body o bound (if b then closed else open_)) (sym c)
                (let (part, stands) = Under-Stands body o d d2 e e u refl refl refl (λ c'. refl) in
                  (part, stands, le))
        ])
    where
      d1 : DownloadRequest
      d1 = add_headers ((":curl-peer", curl.peer e) ∷ []) (without_buffer curl d)

      d2 : DownloadRequest
      d2 = record d1 { received_headers = [] }

      closed : Option (Answer curl)
      closed = some (finish curl d.buffer (on_transfer_done curl (without_buffer curl d) e))

      open_ : Option (Answer curl)
      open_ =
          some (value (record { received = d.buffer; response = response_of curl 100 d1 }), d2, e)

  Delivered-le :
      (body : List ℕ) (o a b : ℕ) (x : Option (Answer curl))
      → a ≤ b
      → Delivered body o a x
      → Delivered body o b x
  Delivered-le body o a b none le p = p
  Delivered-le body o a b (some (failure s, d, e)) le p = omega arith
  Delivered-le body o a b (some (value r, d, e)) le (part, stands, le') =
      (part, stands, omega arith)

  read_continued-Delivered :
      (inner fuel o bound : ℕ) (body : List ℕ) (x : Status × Headers × DownloadRequest × E)
      → bound < inner
      → bound < fuel
      → ((h : Headers)
          → Under curl remaining work transferring (drop o body) (add_headers h x.2) x.3)
      → work x.3 ≤ bound
      → Delivered body o bound (read_continued curl inner fuel x)
  read_continued-Delivered inner fuel o bound body (s, h, d, e) li lf u le =
      if_both (Delivered body o bound) (not (is_ok s)) _ _ le (
        read_waited-Delivered body o bound (wait curl inner fuel 0 (add_headers h d) e) (
          After-le curl remaining work transferring (drop o body) (work e) bound
            (wait curl inner fuel 0 (add_headers h d) e) le
            (wait-After curl remaining work transferring inner fuel 0 (drop o body)
              (add_headers h d) e (omega arith) (omega arith) (u h))))

  read_drained-Delivered :
      (inner fuel o : ℕ) (body : List ℕ) (d : DownloadRequest) (e : E)
      → work e < inner
      → work e < fuel
      → Under curl remaining work transferring (drop o body) d e
      → Delivered body o (work e) (read_drained curl inner fuel d e)
  unfolding read_drained
  read_drained-Delivered inner fuel o body d e li lf u = elim (Bool-cases d.curl_closed) [
    | inl c ↦
        subst (λ b. Delivered body o (work e) (if b then closed else going)) (sym c)
          (let (part, stands) =
              Under-Stands body o d (record d { received_headers = [] }) e e u refl refl refl
                (λ c'. refl) in
            (part, stands, omega arith))
    | inr c ↦
        subst (λ b. Delivered body o (work e) (if b then closed else going)) (sym c)
          (if_both (Delivered body o (work e)) d.paused _ _
            (read_continued-Delivered inner fuel o (work e) body
              (curl.easy_pause write_callback e1 (record d { paused = false })) li lf
              (λ h.
                Delivers-Under curl remaining work transferring (drop o body)
                  (record d { paused = false }) _ e1 _ h
                  (transferring.on_pause write_callback e1 (record d { paused = false })) c
                  (unpaused c))
              (omega (
                arith,
                transferring.pause_work write_callback e1 (record d { paused = false }),
                transferring.callbacks_work e,
              )))
            (Delivered-le body o (work e1) (work e) (read_waited curl (wait curl inner fuel 0 d e1))
              (transferring.callbacks_work e)
              (read_waited-Delivered body o (work e1) (wait curl inner fuel 0 d e1) (
                wait-After curl remaining work transferring inner fuel 0 (drop o body) d e1
                  (omega (arith, transferring.callbacks_work e))
                  (omega (arith, transferring.callbacks_work e))
                  (same-Under curl remaining work transferring (drop o body) d e e1
                    (transferring.same_callbacks e) u)))))
  ]
    where
      e1 : E
      e1 = curl.set_callbacks e

      closed : Option (Answer curl)
      closed = some (
        value (record { received = d.buffer; response = response_of curl d.http_code d }),
        record d { received_headers = [] },
        e,
      )

      going : Option (Answer curl)
      going =
          if d.paused
          then read_continued curl inner fuel
              (curl.easy_pause write_callback e1 (record d { paused = false }))
          else read_waited curl (wait curl inner fuel 0 d e1)

      unpaused :
          d.curl_closed ≡ false
          → Under curl remaining work transferring (drop o body) (record d { paused = false }) e1
      unpaused c = record {
        rest = u.rest;
        flow = record {
          order = u.flow.order;
          not_closing = u.flow.not_closing;
          fits = u.flow.fits;
          small = u.flow.small;
        };
        link = λ c'. u.link c' ∙ sym (transferring.same_callbacks e);
      }

  -- A read of a transfer from which the body was taken up to `o`, with more fuel than there is work
  -- left, ends: either with the next bytes of the body, after which the transfer stands behind them,
  -- or with an error.
  pub download_read-delivers :
      (inner fuel o n : ℕ) (body : List ℕ) (d : DownloadRequest) (e : E)
      → work e < inner
      → work e < fuel
      → Stands body o d e
      → Delivered body o (work e) (download_read curl inner fuel n d e)
  unfolding download_read
  download_read-delivers inner fuel o n body d e li lf s =
      if_both (Delivered body o (work e)) (n == 0) _ _ (omega arith) (
        read_drained-Delivered inner fuel o body
          (drain_spill_buffer (record d { buffer = []; buffer_size = n })) e li lf
          (Stands-Under body o n d e s))
