-- ===== src/Boundary/Search.antt =====
-- Where a text begins, and what a search for it finds.
use cloudstorageapi.Prelude.{
  ℕ, zero, suc, ◌+◌, ◌-◌, ◌≡◌, ◌≢◌, refl, sym, ap, ◌∙◌, ◌≤◌, ◌<◌, true, false, none, some, List, [],
  ◌∷◌, ◌++◌, inl, inr, arith, length, length-append, length-drop, drop, drop-append_ge, drop-drop,
  dec_lt, Bool-cases,
}
use cloudstorageapi.Boundary.{begins, find_at, find}

-- A text that begins with `p ++ q` begins with `p`.
pub begins-append : (p q t : List ℕ) → begins (p ++ q) t ≡ true → begins p t ≡ true
unfolding begins
begins-append [] q t h = refl
begins-append (c ∷ p) q [] h = h
begins-append (c ∷ p) q (d ∷ t) h = ground (arith, begins-append p q t)

pub begins-append_false : (p q t : List ℕ) → begins p t ≡ false → begins (p ++ q) t ≡ false
begins-append_false p q t h = elim (Bool-cases (begins (p ++ q) t)) [
  | inl e ↦ cc (begins-append p q t e)
  | inr e ↦ e
]

pub begins_self : (p q : List ℕ) → begins p (p ++ q) ≡ true
unfolding begins
begins_self [] q = refl
begins_self (c ∷ p) q = ground (arith, begins_self p q)

pub length-begins : (p t : List ℕ) → begins p t ≡ true → length p ≤ length t
unfolding begins
length-begins [] t h = omega arith
length-begins (c ∷ p) [] h = absurd_false h
  where
    absurd_false : false ≡ true → suc (length p) ≤ 0
    absurd_false e = cc
length-begins (c ∷ p) (d ∷ t) h = ground (arith, length-begins p t)

-- `p` is in no place of the text before the first `n`.
abbrev pub NotBefore : List ℕ → List ℕ → ℕ → Type 0
NotBefore p t n = (k : ℕ) → k < n → begins p (drop k t) ≡ false

-- What a search finds is a place, and none before it has the text.
pub find_at-some :
    (t : List ℕ) (i : ℕ) (p : List ℕ) (j : ℕ)
    → find_at t i p ≡ some j
    → (k : ℕ) × (j ≡ i + k) × (k ≤ length t) × (begins p (drop k t) ≡ true) × NotBefore p t k
unfolding find_at
find_at-some [] i p j h = ground (arith, found)
  where
    found :
        begins p [] ≡ true
        → i ≡ j
        → (k : ℕ) × (j ≡ i + k) × (k ≤ 0) × (begins p (drop k []) ≡ true) × NotBefore p [] k
    found e q = (0, omega arith, omega arith, e, λ k lt. absurd (omega arith))
find_at-some (c ∷ t) i p j h = elim (Bool-cases (begins p (c ∷ t))) [
  | inl e ↦ (0, ground arith, omega arith, e, λ k lt. absurd (omega arith))
  | inr e ↦ later e (find_at-some t (suc i) p j (ground arith))
]
  where
    later :
        begins p (c ∷ t) ≡ false
        → (k : ℕ) × (j ≡ suc i + k)
          × (k ≤ length t)
          × (begins p (drop k t) ≡ true)
          × NotBefore p t k
        → (k : ℕ) × (j ≡ i + k)
          × (k ≤ length (c ∷ t))
          × (begins p (drop k (c ∷ t)) ≡ true)
          × NotBefore p (c ∷ t) k
    later e (k, a, b, hit, before) = (suc k, omega arith, omega arith, hit, nowhere)
      where
        nowhere : NotBefore p (c ∷ t) (suc k)
        nowhere zero lt = e
        nowhere (suc m) lt = before m (omega arith)

-- A search that finds nothing has looked at every place.
pub find_at-none :
    (t : List ℕ) (i : ℕ) (p : List ℕ)
    → find_at t i p ≡ none
    → (k : ℕ) → k ≤ length t
    → begins p (drop k t) ≡ false
unfolding find_at
find_at-none [] i p h zero lt = ground arith
find_at-none [] i p h (suc k) lt = absurd (omega arith)
find_at-none (c ∷ t) i p h zero lt = ground arith
find_at-none (c ∷ t) i p h (suc k) lt = find_at-none t (suc i) p (ground arith) k (omega arith)

-- `p` is nowhere in the message.
abbrev pub Absent : List ℕ → List ℕ → Type 0
Absent p message = (before after : List ℕ) → message ≢ before ++ (p ++ after)

pub nowhere-Absent :
    (p message : List ℕ)
    → ((k : ℕ) → k ≤ length message → begins p (drop k message) ≡ false)
    → Absent p message
nowhere-Absent p message h before after e =
    clash (h (length before) (omega (arith, ap length e, length-append before (p ++ after))))
  where
    there : drop (length before) message ≡ p ++ after
    there =
        ap (drop (length before)) e
        ∙ drop-append_ge (length before) before (p ++ after) (omega arith)
        ∙ ap (λ n. drop n (p ++ after)) {x = length before - length before} {y = 0} (omega arith)

    clash : begins p (drop (length before) message) ≡ false → ⊥
    clash f = ground (arith, begins_self p after, ap (begins p) there)

-- A place `i + m` of the message is place `m` of the text from `i` on.
pub begins-drop :
    (message candidate : List ℕ) (i k : ℕ)
    → i ≤ k
    → begins candidate (drop (k - i) (drop i message)) ≡ begins candidate (drop k message)
begins-drop message candidate i k h =
    ap (begins candidate) (
      drop-drop i (k - i) message
      ∙ ap (λ n. drop n message) {x = i + (k - i)} {y = k} (omega arith))

-- One round of the loop: what is found at a later place is not before it, and neither is any longer
-- text that begins with it.
pub find-some :
    (message candidate more : List ℕ) (i j : ℕ)
    → i ≤ length message
    → NotBefore candidate message i
    → find message candidate i ≡ some j
    → (j ≤ length message)
      × NotBefore (candidate ++ more) message j
      × (length candidate ≤ length message)
find-some message candidate more i j hi before h =
    at_place (find_at-some (drop i message) i candidate j h)
  where
    at_place :
        (k : ℕ) × (j ≡ i + k)
          × (k ≤ length (drop i message))
          × (begins candidate (drop k (drop i message)) ≡ true)
          × NotBefore candidate (drop i message) k
        → (j ≤ length message)
          × NotBefore (candidate ++ more) message j
          × (length candidate ≤ length message)
    at_place (k, e, bound, hit, after) = (
      omega (arith, length-drop i message),
      nowhere,
      omega (
        arith,
        length-begins candidate (drop k (drop i message)) hit,
        length-drop k (drop i message),
        length-drop i message,
      ),
    )
      where
        nowhere : NotBefore (candidate ++ more) message j
        nowhere m lt = begins-append_false candidate more (drop m message) (elim (dec_lt m i) [
          | yes lower ↦ before m lower
          | no upper ↦
              sym (begins-drop message candidate i m (omega arith)) ∙ after (m - i) (omega arith)
        ])

-- The search that finds nothing ends the loop.
pub find-none :
    (message candidate : List ℕ) (i k : ℕ)
    → NotBefore candidate message i
    → find message candidate i ≡ none
    → k ≤ length message
    → begins candidate (drop k message) ≡ false
find-none message candidate i k before h lt = elim (dec_lt k i) [
  | yes lower ↦ before k lower
  | no upper ↦
      sym (begins-drop message candidate i k (omega arith))
      ∙ find_at-none (drop i message) i candidate h (k - i) (omega (arith, length-drop i message))
]
