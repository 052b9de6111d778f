-- ===== src/Scheduler/Choice.antt =====
-- The choice of the thread to run next, on sequences of threads.
use amazing_os.Base.{
  ℕ, ◌≡◌, refl, ◌∙◌, ap, sym, ◌⊎◌, inl, inr, Bool, true, false, Option, none, some, List, [], ◌∷◌,
  ◌++◌, if◌then◌else◌, All, Bool-cases, Option-cases,
}
use mathlib.Core.Option.{some-injective}
use amazing_os.Base.Chain.{NotIn, Distinct}

-- The first thread of high priority, and the others.
unfoldable pub take_high : (ℕ → Bool) → List ℕ → Option (ℕ × List ℕ)
take_high urgent [] = none
take_high urgent (t ∷ ts) =
    let later = take_high urgent ts in
    if urgent t
    then some (t, ts)
    else elim later [ none ↦ none | some (x, rest) ↦ some (x, t ∷ rest) ]

-- What `dequeue` is to do: the first thread of high priority goes first, else the first of all.
unfoldable pub take_next : (ℕ → Bool) → List ℕ → Option (ℕ × List ℕ)
take_next urgent [] = none
take_next urgent (t ∷ ts) = elim (take_high urgent (t ∷ ts)) [
  | none ↦ some (t, ts)
  | some r ↦ some r
]

take_high_step :
    (urgent : ℕ → Bool) (t x : ℕ) (ts rest : List ℕ)
    → take_high urgent (t ∷ ts) ≡ some (x, rest)
    → (rest ≡ ts) ⊎ ((r : List ℕ) × (take_high urgent ts ≡ some (x, r)) × (rest ≡ t ∷ r))
unfolding take_high
take_high_step urgent t x ts rest e = elim (Bool-cases (urgent t)) [
  | inl u ↦ inl (cc (rw u at e))
  | inr calm ↦ elim (Option-cases (take_high urgent ts)) [
    | inl l ↦ cc (rw (calm, l) at e)
    | inr (r, l) ↦
        let e' : some (r.0, t ∷ r.1) ≡ some (x, rest) = rw (calm, l) at e in
        let first : r.0 ≡ x = ap (λ y. y.0) (some-injective (r.0, t ∷ r.1) (x, rest) e') in
        let others : t ∷ r.1 ≡ rest = ap (λ y. y.1) (some-injective (r.0, t ∷ r.1) (x, rest) e') in
        inr (r.1, l ∙ ap (λ y. some (y, r.1)) first, sym others)
  ]
]

pub NotIn-take_high :
    (urgent : ℕ → Bool) (a x : ℕ) (ts rest : List ℕ)
    → take_high urgent ts ≡ some (x, rest)
    → NotIn a ts
    → NotIn a rest
unfolding take_high
NotIn-take_high urgent a x [] rest e h = cc
NotIn-take_high urgent a x (t ∷ ts) rest e h = elim (take_high_step urgent t x ts rest e) [
  | inl same ↦ rw same h.1
  | inr (r, later, same) ↦ rw same (h.0, NotIn-take_high urgent a x ts r later h.1)
]

pub Distinct-take_high :
    (urgent : ℕ → Bool) (x : ℕ) (ts rest : List ℕ)
    → take_high urgent ts ≡ some (x, rest)
    → Distinct ts
    → Distinct rest
unfolding take_high
Distinct-take_high urgent x [] rest e h = cc
Distinct-take_high urgent x (t ∷ ts) rest e h = elim (take_high_step urgent t x ts rest e) [
  | inl same ↦ rw same h.1
  | inr (r, later, same) ↦
      rw same
        (NotIn-take_high urgent t x ts r later h.0, Distinct-take_high urgent x ts r later h.1)
]

-- From a sequence that is not empty a thread is chosen.
take_next-cons :
    (urgent : ℕ → Bool) (t : ℕ) (ts : List ℕ)
    → (x : ℕ) × (rest : List ℕ) × (take_next urgent (t ∷ ts) ≡ some (x, rest))
unfolding take_next
take_next-cons urgent t ts = elim (Option-cases (take_high urgent (t ∷ ts))) [
  | inl e ↦ (t, ts, rw (e, take_next))
  | inr (r, e) ↦ (r.0, r.1, rw (e, take_next))
]

take_high_calm :
    (urgent : ℕ → Bool) (ts : List ℕ) → All (λ t. urgent t ≡ false) ts → take_high urgent ts ≡ none
unfolding take_high
take_high_calm urgent [] h = refl
take_high_calm urgent (t ∷ ts) h = rw (h.0, take_high_calm urgent ts h.1)

pub take_next_calm :
    (urgent : ℕ → Bool) (t : ℕ) (ts : List ℕ)
    → All (λ t. urgent t ≡ false) (t ∷ ts)
    → take_next urgent (t ∷ ts) ≡ some (t, ts)
unfolding take_next
take_next_calm urgent t ts h = rw (take_high_calm urgent (t ∷ ts) h, take_next)

take_high_last :
    (urgent : ℕ → Bool) (t : ℕ) (ts : List ℕ)
    → All (λ u. urgent u ≡ false) ts
    → urgent t ≡ true
    → take_high urgent (ts ++ t ∷ []) ≡ some (t, ts)
unfolding take_high
take_high_last urgent t [] h e = rw e
take_high_last urgent t (u ∷ ts) h e = rw (h.0, take_high_last urgent t ts h.1 e)

pub take_next_last :
    (urgent : ℕ → Bool) (t : ℕ) (ts : List ℕ)
    → All (λ u. urgent u ≡ false) ts
    → urgent t ≡ true
    → take_next urgent (ts ++ t ∷ []) ≡ some (t, ts)
unfolding take_next
take_next_last urgent t [] h e = rw (take_high_last urgent t [] h e, take_next)
take_next_last urgent t (u ∷ ts) h e = rw (take_high_last urgent t (u ∷ ts) h e, take_next)

pub take_next-append :
    (urgent : ℕ → Bool) (t : ℕ) (ts : List ℕ)
    → (x : ℕ) × (rest : List ℕ) × (take_next urgent (ts ++ t ∷ []) ≡ some (x, rest))
take_next-append urgent t [] = take_next-cons urgent t []
take_next-append urgent t (u ∷ ts) = take_next-cons urgent u (ts ++ t ∷ [])

pub All-append :
    (urgent : ℕ → Bool) (t : ℕ) (ts : List ℕ)
    → All (λ u. urgent u ≡ false) ts
    → urgent t ≡ false
    → All (λ u. urgent u ≡ false) (ts ++ t ∷ [])
All-append urgent t [] h e = (e, tt)
All-append urgent t (u ∷ ts) h e = (h.0, All-append urgent t ts h.1 e)
