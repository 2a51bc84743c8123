-- ===== src/Download/Waits.antt =====
-- The bytes during the wait of a read, which ends.
use cloudstorageapi.Prelude.{
  ℕ, zero, suc, ◌≡◌, ◌≢◌, ◌⊎◌, refl, sym, ap, ◌∙◌, ◌≤◌, ◌<◌, Bool, true, false, not, ◌||◌, Option,
  none, some, List, arith, inl, inr, Bool-cases, length, subst, leb, ltb, ◌==◌, ==_iff,
  if◌then◌else◌, if_both,
}
use cloudstorageapi.Status.{Status, StatusOrVal, value, failure, ok_status, is_ok}
use cloudstorageapi.Download.{
  MultiCode, multi_ok, call_multi_perform, multi_error, multi_status, DownloadRequest, Headers,
  Libcurl, write_callback, add_headers, performed, perform_loop, leave_multi, after_leave,
  message_round, message_loop, after_perform, perform_work, wait_for_handles, is_filled, after_wait,
  after_work, wait,
}
use cloudstorageapi.Download.Flow.{Delivers, Flowing, Delivers-Flowing, Delivers-closed}
use cloudstorageapi.Download.Contract.{Transferring}

module _ {E : Type 0} (curl : Libcurl E) (remaining : E → List ℕ) (work : E → ℕ)
    (transferring : Transferring curl remaining work) where
  -- The bytes flow, and as long as the transfer is not closed libcurl has those that are to come.
  pub record Under (whole : List ℕ) (d : DownloadRequest) (e : E) : Type 0 where
    pub rest : List ℕ
    pub flow : Flowing whole d rest
    pub link : d.curl_closed ≡ false → rest ≡ remaining e

  -- What holds of a result: it is there, the bytes flow, and not more work is left than `bound`.
  abbrev pub After : {A : Type 0} → List ℕ → ℕ → Option (A × DownloadRequest × E) → Type 0
  After whole bound none = ⊥
  After whole bound (some (x, d, e)) = Under whole d e × (work e ≤ bound)

  -- libcurl may hand over bytes of a transfer that is not closed.
  pub Delivers-Under :
      (whole : List ℕ) (d d' : DownloadRequest) (e e' : E) (h : Headers)
      → Delivers write_callback d (remaining e) d' (remaining e')
      → d.curl_closed ≡ false
      → Under whole d e
      → Under whole (add_headers h d') e'
  Delivers-Under whole d d' e e' h dl open_ u =
      let f = Delivers-Flowing whole dl (subst (Flowing whole d) (u.link open_) u.flow) in
      record {
        rest = remaining e';
        flow = record {
          order = f.order;
          not_closing = f.not_closing;
          fits = f.fits;
          small = f.small;
        };
        link = λ c. refl;
      }

  -- A call that hands over nothing.
  pub same-Under :
      (whole : List ℕ) (d : DownloadRequest) (e e' : E)
      → remaining e' ≡ remaining e
      → Under whole d e
      → Under whole d e'
  same-Under whole d e e' same u = record {
    rest = u.rest;
    flow = u.flow;
    link = λ c. u.link c ∙ sym same;
  }

  abbrev Performed : List ℕ → ℕ → Option (MultiCode × ℕ × DownloadRequest × E) → Type 0
  Performed whole bound none = ⊥
  Performed whole bound (some (c, n, d, e)) =
      Under whole d e × (work e ≤ bound) × (n ≢ 0 → work e < bound)

  perform_loop-Performed :
      (fuel : ℕ) (whole : List ℕ) (d : DownloadRequest) (e : E)
      → work e < fuel
      → d.curl_closed ≡ false
      → Under whole d e
      → Performed whole (work e) (perform_loop curl fuel d e)
  unfolding perform_loop
  perform_loop-Performed zero whole d e lt open_ u = absurd (omega arith)
  perform_loop-Performed (suc fuel) whole d e lt open_ u =
      follow (curl.multi_perform write_callback e d) (transferring.on_perform write_callback e d)
        (transferring.perform_work_le write_callback e d)
        (transferring.perform_again write_callback e d)
        (λ d' e' lt' c' u'. perform_loop-Performed fuel whole d' e' (omega arith) c' u')
    where
      follow :
          (x : MultiCode × ℕ × Headers × DownloadRequest × E)
          → Delivers write_callback d (remaining e) x.3 (remaining x.4)
          → work x.4 ≤ work e
          → ((x.0 ≡ call_multi_perform) ⊎ (x.1 ≢ 0) → work x.4 < work e)
          → ((d' : DownloadRequest) (e' : E)
              → work e' < work e
              → d'.curl_closed ≡ false
              → Under whole d' e'
              → Performed whole (work e') (perform_loop curl fuel d' e'))
          → Performed whole (work e) (performed curl (perform_loop curl fuel) x)
      follow (call_multi_perform, n, h, d', e') dl le again ih =
          let lt' = again (inl refl) in
          wider (work e') (perform_loop curl fuel (add_headers h d') e') lt' (
            ih (add_headers h d') e' lt' (Delivers-closed dl ∙ open_)
              (Delivers-Under whole d d' e e' h dl open_ u))
        where
          wider :
              (b : ℕ) (y : Option (MultiCode × ℕ × DownloadRequest × E))
              → b < work e
              → Performed whole b y
              → Performed whole (work e) y
          wider b none lt p = p
          wider b (some (c, n, d, e'')) lt (u', le', lt') =
              (u', omega arith, λ ne. omega (arith, lt' ne))
      follow (multi_ok, n, h, d', e') dl le again ih =
          (Delivers-Under whole d d' e e' h dl open_ u, le, λ ne. again (inr ne))
      follow (multi_error c t, n, h, d', e') dl le again ih =
          (Delivers-Under whole d d' e e' h dl open_ u, le, λ ne. again (inr ne))

  -- After `PerformWork`: where handles are running, some work was done.
  abbrev Worked : List ℕ → ℕ → Option (StatusOrVal ℕ × DownloadRequest × E) → Type 0
  Worked whole bound none = ⊥
  Worked whole bound (some (failure s, d, e)) = Under whole d e × (work e ≤ bound)
  Worked whole bound (some (value n, d, e)) =
      Under whole d e × (work e ≤ bound) × (n ≢ 0 → work e < bound)

  Worked-le :
      (whole : List ℕ) (a b : ℕ) (x : Option (StatusOrVal ℕ × DownloadRequest × E))
      → a ≤ b
      → Worked whole a x
      → Worked whole b x
  Worked-le whole a b none le p = p
  Worked-le whole a b (some (failure s, d, e)) le (u, le') = (u, omega arith)
  Worked-le whole a b (some (value n, d, e)) le (u, le', lt) =
      (u, omega arith, λ ne. omega (arith, lt ne))

  pub After-le :
      {A : Type 0} (whole : List ℕ) (a b : ℕ) (x : Option (A × DownloadRequest × E))
      → a ≤ b
      → After whole a x
      → After whole b x
  After-le whole a b none le p = p
  After-le whole a b (some (x, d, e)) le (u, le') = (u, omega arith)

  abbrev Left : List ℕ → ℕ → Status × DownloadRequest × E → Type 0
  Left whole bound (s, d, e) = Under whole d e × (work e ≤ bound) × (d.closing ≡ false)

  leave_multi-Left :
      (whole : List ℕ) (d : DownloadRequest) (e : E)
      → Under whole d e
      → Left whole (work e) (leave_multi curl d e)
  unfolding leave_multi
  leave_multi-Left whole d e u =
      if_both (Left whole (work e)) d.in_multi _ _
        (
          record {
            rest = u.rest;
            flow = record {
              order = u.flow.order;
              not_closing = u.flow.not_closing;
              fits = u.flow.fits;
              small = u.flow.small;
            };
            link = λ c. u.link c ∙ sym (transferring.same_remove e);
          },
          transferring.remove_work e,
          u.flow.not_closing,
        )
        (u, omega arith, u.flow.not_closing)

  after_leave-Worked :
      (whole : List ℕ) (bound : ℕ)
      (rest : DownloadRequest → E → Option (StatusOrVal ℕ × DownloadRequest × E))
      (transfer : Status) (x : Status × DownloadRequest × E)
      → Left whole bound x
      → ((d : DownloadRequest) (e : E)
          → Under whole d e
          → work e ≤ bound
          → Worked whole bound (rest d e))
      → Worked whole bound (after_leave curl rest transfer x)
  after_leave-Worked whole bound rest transfer (removed, d, e) (u, le, open_) ih =
      if_both (Worked whole bound) d.closing _ _ (ih d e u le) (
        if_both (Worked whole bound) (not (is_ok transfer)) _ _ (u, le)
          (if_both (Worked whole bound) (not (is_ok removed)) _ _ (u, le) (ih d e u le)))

  message_loop-Worked :
      (fuel : ℕ) (whole : List ℕ) (d : DownloadRequest) (e : E)
      → work e < fuel
      → Under whole d e
      → Worked whole (work e) (message_loop curl fuel d e)
  unfolding message_loop
  message_loop-Worked zero whole d e lt u = absurd (omega arith)
  message_loop-Worked (suc fuel) whole d e lt u =
      follow (curl.info_read e) refl
        (λ d' e' u' lt'. message_loop-Worked fuel whole d' e' (omega arith) u')
    where
      follow :
          (x : Option (Bool × Status) × E)
          → curl.info_read e ≡ x
          → ((d' : DownloadRequest) (e' : E)
              → Under whole d' e'
              → work e' < work e
              → Worked whole (work e') (message_loop curl fuel d' e'))
          → Worked whole (work e) (message_round curl (message_loop curl fuel) d x)
      follow (none, e') h ih = (
        same-Under whole d e e' (ap (λ y. remaining y.1) (sym h) ∙ transferring.same_info e) u,
        omega (arith, transferring.info_none e, ap (λ y. work y.1) h),
        λ ne. absurd (ne refl),
      )
      follow (some (false, transfer), e') h ih = (
        same-Under whole d e e' (ap (λ y. remaining y.1) (sym h) ∙ transferring.same_info e) u,
        omega (arith, transferring.info_work e e' (false, transfer) h),
      )
      follow (some (true, transfer), e') h ih =
          let lt' = transferring.info_work e e' (true, transfer) h in
          let u' : Under whole (record d { curl_closed = true }) e' = record {
            rest = u.rest;
            flow = record {
              order = u.flow.order;
              not_closing = u.flow.not_closing;
              fits = u.flow.fits;
              small = u.flow.small;
            };
            link = λ c. absurd (cc c);
          } in
          Worked-le whole (work e') (work e)
            (after_leave curl (message_loop curl fuel) transfer
              (leave_multi curl (record d { curl_closed = true }) e'))
            (omega arith)
            (after_leave-Worked whole (work e') (message_loop curl fuel) transfer
              (leave_multi curl (record d { curl_closed = true }) e')
              (leave_multi-Left whole (record d { curl_closed = true }) e' u')
              (λ d2 e2 u2 le2.
                Worked-le whole (work e2) (work e') (message_loop curl fuel d2 e2) le2
                  (ih d2 e2 u2 (omega arith))))

  perform_work-Worked :
      (fuel : ℕ) (whole : List ℕ) (d : DownloadRequest) (e : E)
      → work e < fuel
      → d.curl_closed ≡ false
      → Under whole d e
      → Worked whole (work e) (perform_work curl fuel d e)
  unfolding perform_work
  perform_work-Worked fuel whole d e lt open_ u =
      if_both (Worked whole (work e)) (not d.in_multi) _ _ (u, omega arith, λ ne. absurd (ne refl))
        (follow (perform_loop curl fuel d e) (perform_loop-Performed fuel whole d e lt open_ u))
    where
      follow :
          (x : Option (MultiCode × ℕ × DownloadRequest × E))
          → Performed whole (work e) x
          → Worked whole (work e) (after_perform curl fuel x)
      follow none p = p
      follow (some (c, n, d', e')) (u', le, less) =
          if_both (Worked whole (work e)) (not (is_ok (multi_status c "PerformWork"))) _ _ (u', le)
            (if_both (Worked whole (work e)) (n == 0) _ _
              (Worked-le whole (work e') (work e) (message_loop curl fuel d' e') le
                (message_loop-Worked fuel whole d' e' (omega arith) u'))
              (u', le, less))

  -- After a wait for handles.
  abbrev Waited : List ℕ → ℕ → DownloadRequest → Status × ℕ × E → Type 0
  Waited whole bound d (s, n, e) = Under whole d e × (work e ≤ bound)

  wait_for_handles-Waited :
      (repeats : ℕ) (whole : List ℕ) (d : DownloadRequest) (e : E)
      → Under whole d e
      → Waited whole (work e) d (wait_for_handles curl repeats e)
  unfolding wait_for_handles
  wait_for_handles-Waited repeats whole d e u =
      follow (curl.multi_wait e) (transferring.same_wait e) (transferring.wait_work e)
    where
      follow :
          (x : MultiCode × ℕ × E)
          → remaining x.2 ≡ remaining e
          → work x.2 ≤ work e
          → Waited whole (work e) d (
              let status = multi_status x.0 "WaitForHandles" in
              if not (is_ok status)
              then (status, repeats, x.2)
              else if x.1 == 0
              then (status, suc repeats, if ltb 1 (suc repeats) then curl.sleep_for 1 x.2 else x.2)
              else (status, 0, x.2))
      follow (c, n, e') same le =
          let u' = same-Under whole d e e' same u in
          if_both (Waited whole (work e) d) (not (is_ok (multi_status c "WaitForHandles"))) _ _
            (u', le)
            (if_both (Waited whole (work e) d) (n == 0) _ _
              (if_both (λ e2. Under whole d e2 × (work e2 ≤ work e)) (ltb 1 (suc repeats))
                (curl.sleep_for 1 e') e'
                (
                  same-Under whole d e' (curl.sleep_for 1 e') (transferring.same_sleep 1 e') u',
                  omega (arith, transferring.sleep_work 1 e'),
                )
                (u', le))
              (u', le))

  after_wait-After :
      (whole : List ℕ) (bound : ℕ) (rest : ℕ → E → Option (Status × DownloadRequest × E))
      (d : DownloadRequest) (x : Status × ℕ × E)
      → Waited whole bound d x
      → ((n : ℕ) (e : E) → Under whole d e → work e ≤ bound → After whole bound (rest n e))
      → After whole bound (after_wait curl rest d x)
  after_wait-After whole bound rest d (s, n, e) (u, le) ih =
      if_both (After whole bound) (not (is_ok s)) _ _ (u, le) (ih n e u le)

  not_filled-open : (d : DownloadRequest) → is_filled curl d ≡ false → d.curl_closed ≡ false
  not_filled-open d h = elim (Bool-cases d.curl_closed) [
    | inl c ↦
        absurd (cc (sym (ap (λ b. b || d.paused || leb d.buffer_size (length d.buffer)) c) ∙ h))
    | inr c ↦ c
  ]

  -- `Wait` ends, with enough fuel for the work that is left.
  pub wait-After :
      (inner fuel repeats : ℕ) (whole : List ℕ) (d : DownloadRequest) (e : E)
      → work e < inner
      → work e < fuel
      → Under whole d e
      → After whole (work e) (wait curl inner fuel repeats d e)
  unfolding wait
  wait-After inner zero repeats whole d e li lf u = absurd (omega arith)
  wait-After inner (suc fuel) repeats whole d e li lf u = elim (Bool-cases (is_filled curl d)) [
    | inl full ↦
        subst
          (λ b. After whole (work e) (
            if b
            then some (ok_status, d, e)
            else after_work curl (wait curl inner fuel) repeats (perform_work curl inner d e)))
          (sym full) (u, omega arith)
    | inr more ↦
        subst
          (λ b. After whole (work e) (
            if b
            then some (ok_status, d, e)
            else after_work curl (wait curl inner fuel) repeats (perform_work curl inner d e)))
          (sym more)
          (follow (perform_work curl inner d e)
            (perform_work-Worked inner whole d e li (not_filled-open d more) u)
            (λ k d' e' lt' u'. wait-After inner fuel k whole d' e' (omega arith) (omega arith) u'))
  ]
    where
      follow :
          (x : Option (StatusOrVal ℕ × DownloadRequest × E))
          → Worked whole (work e) x
          → ((k : ℕ) (d' : DownloadRequest) (e' : E)
              → work e' < work e
              → Under whole d' e'
              → After whole (work e') (wait curl inner fuel k d' e'))
          → After whole (work e) (after_work curl (wait curl inner fuel) repeats x)
      follow none p ih = p
      follow (some (failure s, d', e')) p ih = p
      follow (some (value n, d', e')) (u', le, less) ih = elim (Bool-cases (n == 0)) [
        | inl z ↦ rw (z) (u', le)
        | inr nz ↦ rw (nz) (
            if_both (After whole (work e)) (is_filled curl d') _ _ (u', le)
              (After-le whole (work e') (work e)
                (after_wait curl (λ k. wait curl inner fuel k d') d'
                  (wait_for_handles curl repeats e'))
                le
                (after_wait-After whole (work e') (λ k. wait curl inner fuel k d') d'
                  (wait_for_handles curl repeats e')
                  (wait_for_handles-Waited repeats whole d' e' u')
                  (λ k e2 u2 le2.
                    After-le whole (work e2) (work e') (wait curl inner fuel k d' e2) le2 (
                      ih k d' e2 (omega (arith, less (λ z. cc (sym nz ∙ (==_iff n 0).1 z)))) u2)))))
      ]
