-- ===== src/FileDownload/Loop.antt =====
-- The loop of a download: what it has written is what it has read.
use cloudstorageapi.Prelude.{
  ℕ, zero, suc, ◌+◌, ◌≡◌, refl, sym, ap, ◌∙◌, ◌≤◌, ◌<◌, ◌⊎◌, Bool, true, false, not, ◌&&◌, Option,
  none, some, String, List, [], ◌++◌, arith, inl, inr, Bool-cases, length, length-take, length-drop,
  take, drop, take_all, take-append-take-drop, subst, ◌==◌, if◌then◌else◌,
}
use cloudstorageapi.Status.{Status, value, failure, is_ok}
use cloudstorageapi.ReadSource.{ReadRequest}
use cloudstorageapi.ReadStream.{ReadStreambuf, Returned, gives, throws, xsgetn}
use cloudstorageapi.ReadStream.Delivered.{Begins, Reading, Gives, xsgetn-Gives}
use cloudstorageapi.ReadStream.Full.{Filling, Fills, xsgetn-Fills}
use cloudstorageapi.FileDownload.{
  FileReadStream, good, Downloader, after_get, read_bytes, download_loop,
}

-- What a download of `content` relies on: the source stands at its start once it is opened, the
-- destination is empty once it is opened and takes what is written, and neither disturbs the other.
pub record Fetching {S : Type 0} (api : Downloader S) (content : List ℕ)
    (stands_at : ℕ → S → Type 0) (written : S → List ℕ) : Type 0 where
  pub filling : Filling api.source content stands_at written
  pub on_open : (q : ReadRequest) (s s' : S) → api.read_file q s ≡ (value tt, s') → stands_at 0 s'
  pub on_failure :
      (q : ReadRequest) (s s' : S) (e : Status)
      → api.read_file q s ≡ (failure e, s')
      → is_ok e ≡ false
  pub on_destination :
      (file : String) (s s' : S) → api.open_destination file s ≡ (true, s') → written s' ≡ []
  pub still_destination :
      (o : ℕ) (file : String) (s : S) → stands_at o s → stands_at o (api.open_destination file s).1
  pub on_write :
      (bytes : List ℕ) (s s' : S) → api.write bytes s ≡ (true, s') → written s' ≡ written s ++ bytes
  pub still_write :
      (o : ℕ) (bytes : List ℕ) (s : S) → stands_at o s → stands_at o (api.write bytes s).1
  pub on_close : (s s' : S) → api.close_destination s ≡ (true, s') → written s' ≡ written s

-- A stream with one of its flags set is not good.
==→eq : (m n : ℕ) → (m == n) ≡ true → m ≡ n
==→eq m n h = ground arith

not-==→lt : (m n : ℕ) → (m == n) ≡ false → m ≤ n → m < n
not-==→lt m n h le = ground arith

not-good : (a b c : Bool) → a ≡ true ⊎ (b ≡ true ⊎ c ≡ true) → (not a && not b && not c) ≡ false
not-good true b c h = refl
not-good false true c h = refl
not-good false false true h = refl
not-good false false false h = absurd (no h)
  where
    no : false ≡ true ⊎ (false ≡ true ⊎ false ≡ true) → ⊥
    no (inl e) = absurd cc
    no (inr (inl e)) = absurd cc
    no (inr (inr e)) = absurd cc

module _ {S : Type 0} (api : Downloader S) (content : List ℕ) (stands_at : ℕ → S → Type 0)
    (written : S → List ℕ) (fetching : Fetching api content stands_at written) (start : ℕ) where
  open fetching use {filling}

  -- A stream without a failure that stands at `o`, and is not good only at the end.
  pub record Standing (o : ℕ) (i : FileReadStream S) : Type 0 where
    pub reads : Reading api.source content stands_at filling.providing start o i.buf
    pub fine : is_ok i.buf.status ≡ true
    pub within : o ≤ length content
    pub ended : good i ≡ false → length content ≤ o

  -- After a read of `n` bytes: a failure, or the next bytes.
  Got : ℕ → ℕ → FileReadStream S → List ℕ × FileReadStream S → Type 0
  Got n o i (bytes, i') =
      ((is_ok i'.buf.status ≡ false) × (good i' ≡ false))
      ⊎ (Begins bytes (drop o content)
          × Standing (o + length bytes) i'
          × (written i'.buf.source ≡ written i.buf.source)
          × (good i' ≡ true → length bytes ≡ n))

  after_get-Got :
      (n o left : ℕ) (i : FileReadStream S) (x : Returned (List ℕ) × ReadStreambuf S)
      → Standing o i
      → good i ≡ true
      → Gives api.source content stands_at filling.providing start o left x
      → Fills api.source content stands_at written filling start n o i.buf x
      → Got n o i (after_get api n i x)
  unfolding Got Gives Fills
  after_get-Got n o left i (throws e, b) h g r f =
      inl (f, not-good i.eof i.fail true (inr (inr refl)))
  after_get-Got n o left i (gives bytes, b) h g (begin, small, r) (same, still, le, short) =
      elim (Bool-cases (length bytes == n)) [
        | inl full ↦ rw (full) (
            inr (
              begin,
              standing (record i { buf = b }) refl (λ q. absurd cc),
              still,
              λ q. ==→eq (length bytes) n full,
            ))
        | inr less ↦ rw (less) (
            inr (
              begin,
              standing (record i { buf = b; eof = true; fail = true }) refl
                  (λ q. short (not-==→lt (length bytes) n less le)),
              still,
              λ q. absurd cc,
            ))
      ]
    where
      within : o + length bytes ≤ length content
      within = omega (
        arith,
        h.within,
        ap length begin,
        length-take (length bytes) (drop o content),
        length-drop o content,
      )

      standing :
          (i' : FileReadStream S)
          → i'.buf ≡ b
          → (good i' ≡ false → length content ≤ o + length bytes)
          → Standing (o + length bytes) i'
      standing i' here ended = record {
        reads =
            subst
              (λ k.
                Reading api.source content stands_at filling.providing start (o + length bytes) k)
              (sym here) r;
        fine = ap (λ k. is_ok k.status) here ∙ ap is_ok same ∙ h.fine;
        within = within;
        ended = ended;
      }

  read_bytes-Got : (n o : ℕ) (i : FileReadStream S) → Standing o i → Got n o i (read_bytes api n i)
  unfolding read_bytes Got
  read_bytes-Got n o i h = elim (Bool-cases (good i)) [
    | inl g ↦ rw (g) (
        after_get-Got n o (length i.buf.get_area) i (xsgetn api.source n i.buf) h g
          (xsgetn-Gives api.source content stands_at filling.providing start o n i.buf h.reads)
          (xsgetn-Fills api.source content stands_at written filling start n o i.buf h.reads
            h.fine))
    | inr g ↦ rw (g) (
        inr (
          refl,
          subst (λ k. Standing k (record i { fail = true })) {x = o} {y = o + 0} (omega arith)
              (record {
                reads = h.reads;
                fine = h.fine;
                within = h.within;
                ended = λ q. h.ended g;
              }),
          refl,
          λ q. absurd (cc (not-good i.eof true i.bad (inr (inl refl)))),
        ))
  ]

  -- The loop's end: without a failure of either side the destination holds the whole content.
  unfoldable pub Stored : Option (Bool × FileReadStream S) → Type 0
  Stored none = ⊥
  Stored (some (os_good, i)) =
      os_good ≡ true → is_ok i.buf.status ≡ true → written i.buf.source ≡ content

  -- What the round does with the bytes that were read.
  abbrev written_on :
      (FileReadStream S → Option (Bool × FileReadStream S))
      → FileReadStream S
      → Bool × S
      → Option (Bool × FileReadStream S)
  written_on more i (os_good, s) =
      let next : FileReadStream S = record i { buf = record i.buf { source = s } } in
      let rest = more next in if os_good && good next then rest else some (os_good, next)

  -- The source may change where it stands as before.
  pub move_source :
      {o : ℕ} {i : FileReadStream S} {s : S}
      → Standing o i
      → stands_at (o + length i.buf.get_area) s
      → Standing o (record i { buf = record i.buf { source = s } })
  move_source {o} {i} {s} h here = record {
    reads = record { area = h.reads.area; ahead = here; place = h.reads.place };
    fine = h.fine;
    within = h.within;
    ended = h.ended;
  }

  module _ (n : ℕ) (some_buffer : 0 < n) where
    unfoldable pub Continues : ℕ → (FileReadStream S → Option (Bool × FileReadStream S)) → Type 0
    Continues fuel more =
        (o : ℕ) (i : FileReadStream S)
        → Standing o i
        → written i.buf.source ≡ take o content
        → length content < o + fuel
        → Stored (more i)

    written_on-Stored :
        (fuel o : ℕ) (more : FileReadStream S → Option (Bool × FileReadStream S)) (bytes : List ℕ)
        (i i' : FileReadStream S)
        → Continues fuel more
        → Standing o i
        → written i.buf.source ≡ take o content
        → length content < o + suc fuel
        → Got n o i (bytes, i')
        → Stored (written_on more i' (api.write bytes i'.buf.source))
    unfolding Got Stored Continues
    written_on-Stored fuel o more bytes i i' ih h w enough (inl (lost, stops)) =
        follow (api.write bytes i'.buf.source)
      where
        follow : (x : Bool × S) → Stored (written_on more i' x)
        follow (false, s) = λ q. absurd cc
        follow (true, s) = rw (stops) (λ q fine. absurd (cc lost))
    written_on-Stored fuel o more bytes i i' ih h w enough (inr (begin, next, still, all)) =
        follow (api.write bytes i'.buf.source) refl
      where
        follow : (x : Bool × S) → api.write bytes i'.buf.source ≡ x → Stored (written_on more i' x)
        follow (false, s) e = λ q. absurd cc
        follow (true, s) e = elim (Bool-cases (good i')) [
          | inl g ↦ rw (g) (
              ih (o + length bytes) _ (move_source next (stands e)) (wrote e)
                (omega (arith, all g)))
          | inr g ↦ rw (g) (λ q fine. wrote e ∙ take_all (o + length bytes) content (next.ended g))
        ]
          where
            stands :
                api.write bytes i'.buf.source ≡ (true, s)
                → stands_at (o + length bytes + length i'.buf.get_area) s
            stands e =
                subst (λ x. stands_at (o + length bytes + length i'.buf.get_area) x.1) e
                  (fetching.still_write _ bytes i'.buf.source next.reads.ahead)

            wrote :
                api.write bytes i'.buf.source ≡ (true, s)
                → written s ≡ take (o + length bytes) content
            wrote e =
                fetching.on_write bytes i'.buf.source s e
                ∙ ap (λ l. l ++ bytes) (still ∙ w)
                ∙ ap (λ l. take o content ++ l) begin
                ∙ take-append-take-drop o (length bytes) content

  pub download_loop-Stored :
      (some_buffer : 0 < api.download_buffer_size) (fuel : ℕ)
      → Continues api.download_buffer_size some_buffer fuel (download_loop api fuel)
  unfolding download_loop Continues Stored
  download_loop-Stored some_buffer zero o i h w enough = absurd (omega (arith, h.within))
  download_loop-Stored some_buffer (suc fuel) o i h w enough =
      written_on-Stored api.download_buffer_size some_buffer fuel o (download_loop api fuel)
        (read_bytes api api.download_buffer_size i).0 i
        (read_bytes api api.download_buffer_size i).1 (download_loop-Stored some_buffer fuel) h w
        enough (read_bytes-Got api.download_buffer_size o i h)
