-- ===== src/WriteStream/Operations.antt =====
-- Each operation of a stream, and any run of them: what is accepted is stored or in the put area.
use cloudstorageapi.Prelude.{
  ℕ, ◌+◌, ◌≡◌, refl, sym, ap, ◌∙◌, ◌≤◌, ◌<◌, inl, inr, true, false, Option, none, some, List, [],
  ◌∷◌, ◌++◌, arith, length, length-append, append_assoc, append-nil, Bool-cases, subst, ltb, leb,
  leb→le, if◌then◌else◌, ltb→lt, not-leb→lt, ◌==◌, ==_iff, eq_nil,
}
use cloudstorageapi.Buffers.{ConstBufferSequence, bytes}
use cloudstorageapi.Upload.{Session}
use cloudstorageapi.WriteStream.{
  Streambuf, is_open, flush_round_chunk, flush, failed_response, sync, xsputn, overflow, sputc,
}
use cloudstorageapi.WriteStream.Accepted.{Delivering, Writing, Keeps, flush_round_chunk-Keeps}

module _ {S : Type 0} (session : Session S) (stored : S → List ℕ)
    (delivering : Delivering session stored) where
  flush-Writing :
      (accepted : List ℕ) (b : Streambuf S)
      → Writing session stored accepted b
      → failed_response (flush session b).last_response ≡ false
      → Writing session stored accepted (flush session b)
        × (is_open session b ≡ true
            → session.file_chunk_size_quantum b.inner ≤ length b.put_area
            → length (flush session b).put_area < (flush session b).max_buffer_size)
  unfolding flush
  flush-Writing accepted b w =
      let sent : Keeps session stored accepted (flush_round_chunk session (b.put_area ∷ []) b) =
        flush_round_chunk-Keeps session stored delivering accepted accepted (b.put_area ∷ []) b w
          (ap (λ t. stored b.inner ++ t) (append-nil b.put_area) ∙ w.holds) in
      elim (Bool-cases (is_open session b)) [
        | inl o ↦
            rw o
              (elim (Bool-cases
                (ltb (length b.put_area) (session.file_chunk_size_quantum b.inner))) [
                  | inl e ↦ rw e (λ q. (
                    w,
                    λ _ le. absurd (
                        omega (
                          arith,
                          ltb→lt (length b.put_area) (session.file_chunk_size_quantum b.inner) e,
                        )),
                  ))
                  | inr e ↦ rw e (λ q. ((sent q).0, λ _ _. (sent q).1))
                ])
        | inr o ↦ rw o (λ q. (w, λ p _. absurd cc))
      ]

  -- A successful `sync` loses nothing.
  pub sync-Writing :
      (accepted : List ℕ) (b b' : Streambuf S)
      → Writing session stored accepted b
      → sync session b ≡ (true, b')
      → Writing session stored accepted b'
  unfolding sync
  sync-Writing accepted b b' w e =
      let here : flush session b ≡ b' = ap (λ x. x.1) e in
      let fine : failed_response (flush session b).last_response ≡ false =
        ground (arith, ap (λ x. x.0) e) in
      subst (Writing session stored accepted) here (flush-Writing accepted b w fine).0

  -- A byte is taken, or EOF is returned.
  abbrev Took : ℕ → List ℕ → Option ℕ × Streambuf S → Type 0
  Took k accepted (none, b) = Unit {0}
  Took k accepted (some n, b) = (n ≡ k) × Writing session stored accepted b

  -- More bytes in the put area.
  Writing-append :
      (accepted s : List ℕ) (b : Streambuf S)
      → Writing session stored accepted b
      → length s + length b.put_area ≤ b.max_buffer_size
      → Writing session stored (accepted ++ s) (record b { put_area = b.put_area ++ s })
  Writing-append accepted s b w h = record {
    is_live = w.is_live;
    knows = w.knows;
    has_area = w.has_area;
    has_buffer = w.has_buffer;
    positive = w.positive;
    enough = w.enough;
    holds = sym (append_assoc (stored b.inner) b.put_area s) ∙ ap (λ t. t ++ s) w.holds;
    fits = omega (arith, length-append b.put_area s);
  }

  Took-Keeps :
      (k : ℕ) (accepted : List ℕ) (b : Streambuf S)
      → Keeps session stored accepted b
      → Took k accepted (if failed_response b.last_response then none else some k, b)
  Took-Keeps k accepted b keeps = elim (Bool-cases (failed_response b.last_response)) [
    | inl e ↦ rw e tt
    | inr e ↦ rw e (refl, (keeps e).0)
  ]

  xsputn-Took :
      (accepted s : List ℕ) (b : Streambuf S)
      → Writing session stored accepted b
      → Took (length s) (accepted ++ s) (xsputn session s b)
  unfolding xsputn
  xsputn-Took accepted s b w = elim (Bool-cases (is_open session b)) [
    | inr o ↦ rw o tt
    | inl o ↦ rw o (elim (Bool-cases (leb b.max_buffer_size (length s + length b.put_area))) [
      | inr small ↦ rw small (
        refl,
        Writing-append accepted s b w
            (omega (arith, not-leb→lt b.max_buffer_size (length s + length b.put_area) small)),
      )
      | inl large ↦ rw large (elim (Bool-cases (length b.put_area == 0)) [
        | inl e ↦ rw e (
            Took-Keeps (length s) (accepted ++ s) _ (
              sent (s ∷ []) (
                append-nil s
                ∙ ap (λ t. t ++ s) (sym (eq_nil b.put_area ((==_iff (length b.put_area) 0).0 e))))))
        | inr e ↦ rw e (
            Took-Keeps (length s) (accepted ++ s) _
              (sent (b.put_area ∷ s ∷ []) (ap (λ t. b.put_area ++ t) (append-nil s))))
      ])
    ])
  ]
    where
      sent :
          (buffers : ConstBufferSequence)
          → bytes buffers ≡ b.put_area ++ s
          → Keeps session stored (accepted ++ s) (flush_round_chunk session buffers b)
      sent buffers all =
          flush_round_chunk-Keeps session stored delivering accepted (accepted ++ s) buffers b w (
            ap (λ t. stored b.inner ++ t) all
            ∙ sym (append_assoc (stored b.inner) b.put_area s)
            ∙ ap (λ t. t ++ s) w.holds)

  overflow-Took :
      (accepted : List ℕ) (c : ℕ) (b : Streambuf S)
      → Writing session stored accepted b
      → Took c (accepted ++ c ∷ []) (overflow session (some c) b)
  unfolding overflow
  overflow-Took accepted c b w = elim (Bool-cases (is_open session b)) [
    | inr o ↦ rw o tt
    | inl o ↦ rw o (elim (Bool-cases (leb b.max_buffer_size (length b.put_area))) [
      | inr small ↦ rw small (elim (Bool-cases (failed_response b.last_response)) [
        | inl e ↦ rw e tt
        | inr e ↦ rw e (
          refl,
          Writing-append accepted (c ∷ []) b w
              (omega (arith, not-leb→lt b.max_buffer_size (length b.put_area) small)),
        )
      ])
      | inl large ↦ rw large (elim (Bool-cases (failed_response (flush session b).last_response)) [
        | inl e ↦ rw e tt
        | inr e ↦
            let (w', room) = flush-Writing accepted b w e in
            rw e (
              refl,
              Writing-append accepted (c ∷ []) (flush session b) w' (
                  omega (
                    arith,
                    room o (
                        omega
                          (arith, w.enough, leb→le b.max_buffer_size (length b.put_area) large)),
                  )),
            )
      ])
    ])
  ]

  sputc-Took :
      (accepted : List ℕ) (c : ℕ) (b : Streambuf S)
      → Writing session stored accepted b
      → Took c (accepted ++ c ∷ []) (sputc session c b)
  unfolding sputc
  sputc-Took accepted c b w = elim (Bool-cases (ltb (length b.put_area) b.area_size)) [
    | inl e ↦ rw e (
      refl,
      Writing-append accepted (c ∷ []) b w
          (omega (arith, w.has_area, ltb→lt (length b.put_area) b.area_size e)),
    )
    | inr e ↦ rw e (overflow-Took accepted c b w)
  ]

  -- If `xsputn` takes bytes, it takes all that it is given: they are stored, or follow in the put area.
  pub xsputn-Writing :
      (accepted s : List ℕ) (b b' : Streambuf S) (n : ℕ)
      → Writing session stored accepted b
      → xsputn session s b ≡ (some n, b')
      → (n ≡ length s) × Writing session stored (accepted ++ s) b'
  xsputn-Writing accepted s b b' n w e =
      subst (Took (length s) (accepted ++ s)) e (xsputn-Took accepted s b w)

  -- So it is for a single character, whether it has room or goes through `overflow`.
  pub sputc-Writing :
      (accepted : List ℕ) (c d : ℕ) (b b' : Streambuf S)
      → Writing session stored accepted b
      → sputc session c b ≡ (some d, b')
      → (d ≡ c) × Writing session stored (accepted ++ c ∷ []) b'
  sputc-Writing accepted c d b b' w e =
      subst (Took c (accepted ++ c ∷ [])) e (sputc-Took accepted c b w)
