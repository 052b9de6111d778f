-- ===== src/Ps2/Ring.antt =====
-- The two rings of ps2.cpp (`kbd_ring`, `mouse_ring`): an array of `size` slots, one of which stays
-- unused, with a read position `head` and a write position `tail`.
use amazing_os.Base.{
  ℕ, zero, suc, ◌+◌, ◌-◌, ◌%◌, ◌≤◌, ◌<◌, ◌≡◌, refl, ap, ◌≢◌, ◌⊎◌, inl, inr, ◌∙◌, Option, none, some,
  List, [], ◌∷◌, ◌++◌, arith, ◌==◌, if◌then◌else◌, length, get_elem?, length-append, Bool,
  Bool-cases, ltb, tests, ≢→==_false, sym,
}
use native.Mathlib.Nat.{mod-eq_of_lt, mod-eq-sub-mod, mod-add-mod}

pub record RingBuffer {ℓ} (A : Type ℓ) : Type ℓ where
  pub slots : ℕ → A
  pub head : ℕ
  pub tail : ℕ

abbrev pub is_full {ℓ} : {A : Type ℓ} → ℕ → RingBuffer A → Bool
is_full size r = (r.tail + 1) % size == r.head

module _ {ℓ} {A : Type ℓ} where
  -- A full ring drops the new entry.
  pub push : ℕ → A → RingBuffer A → RingBuffer A
  push size x r =
      let next_tail = (r.tail + 1) % size in
      if next_tail == r.head
      then r
      else record r { slots = λ i. if i == r.tail then x else r.slots i; tail = next_tail }

  pub poll : ℕ → RingBuffer A → Option (A × RingBuffer A)
  poll size r =
      if r.head == r.tail
      then none
      else some (r.slots r.head, record r { head = (r.head + 1) % size })

  -- The ring's entries, oldest first, are `xs`.
  pub record Holds (size : ℕ) (r : RingBuffer A) (xs : List A) : Type ℓ where
    pub head_lt : r.head < size
    pub tail_at : r.tail ≡ (r.head + length xs) % size
    pub room : length xs < size
    pub entries : (i : ℕ) (x : A) → get_elem? xs i ≡ some x → r.slots ((r.head + i) % size) ≡ x

-- One turn of the ring at most.
mod_cases : (a n : ℕ) → a < n + n → ((a < n) × (a % n ≡ a)) ⊎ ((n ≤ a) × (a % n ≡ a - n))
mod_cases a n h = elim (Bool-cases (ltb a n)) [
  | inl e ↦ let lt : a < n = omega tests in inl (lt, mod-eq_of_lt lt)
  | inr e ↦
      let le : n ≤ a = ground arith in inr (le, mod-eq-sub-mod le ∙ mod-eq_of_lt (omega arith))
]

-- The full test of `push` and the empty test of `poll`, as facts about the number of entries.
full_lem :
    (s h t k : ℕ)
    → h < s
    → t ≡ (h + k) % s
    → k < s
    → (((t + 1) % s ≡ h) × (k + 1 ≡ s)) ⊎ (((t + 1) % s ≢ h) × (k + 1 < s))
full_lem s h t k lt e room =
    let t_lt : t < s = omega (arith, mod_cases (h + k) s (omega arith)) in
    omega (arith, mod_cases (h + k) s (omega arith), mod_cases (t + 1) s (omega arith))

-- Two entries stand in two slots.
slot_ne : (s h i k : ℕ) → h < s → k < s → i < k → (h + i) % s ≢ (h + k) % s
slot_ne s h i k lt room less =
    omega (arith, mod_cases (h + i) s (omega arith), mod_cases (h + k) s (omega arith))

-- The slots counted from the next position.
slot_shift : (s h i : ℕ) → ((h + 1) % s + i) % s ≡ (h + suc i) % s
slot_shift s h i = mod-add-mod (h + 1) s i ∙ ap (λ a. a % s) (omega arith)

module _ {ℓ} {A : Type ℓ} where
  get_elem?-append_last :
      (xs : List A) (x y : A) (i : ℕ)
      → get_elem? (xs ++ x ∷ []) i ≡ some y
      → ((i ≡ length xs) × (x ≡ y)) ⊎ ((i < length xs) × (get_elem? xs i ≡ some y))
  get_elem?-append_last [] x y zero h = ground arith
  get_elem?-append_last [] x y (suc i) h = ground arith
  get_elem?-append_last (z ∷ xs) x y zero h = ground arith
  get_elem?-append_last (z ∷ xs) x y (suc i) h = ground (arith, get_elem?-append_last xs x y i h)

  -- On a ring with a free slot `push` appends; on a full one it changes nothing, and the ring is
  -- full exactly when all slots but one are taken.
  pub push-Holds :
      (size : ℕ) (r : RingBuffer A) (xs : List A) (x : A)
      → Holds size r xs
      → ((length xs + 1 < size) × Holds size (push size x r) (xs ++ x ∷ []))
        ⊎ ((length xs + 1 ≡ size) × (push size x r ≡ r))
  unfolding push
  push-Holds size r xs x h =
      elim (full_lem size r.head r.tail (length xs) h.head_lt h.tail_at h.room) [
        | inl (e, k) ↦ inr (k, ground arith)
        | inr (ne, k) ↦ inl (
          k,
          rw (≢→==_false _ _ ne) (record {
            head_lt = h.head_lt;
            tail_at =
                ap (λ t. (t + 1) % size) h.tail_at
                ∙ mod-add-mod (r.head + length xs) size 1
                ∙ ap (λ a. a % size) (omega (arith, length-append xs (x ∷ [])));
            room = omega (arith, length-append xs (x ∷ []));
            entries = λ i y e. elim (get_elem?-append_last xs x y i e) [
              | inl (at, same) ↦ ground (arith, h.tail_at)
              | inr (below, old) ↦ ground (
                arith,
                h.entries i y,
                h.tail_at,
                slot_ne size r.head i (length xs) h.head_lt h.room below,
              )
            ];
          }),
        )
      ]

  -- `poll` fails on an empty ring only, and otherwise takes the oldest entry.
  pub poll-nil : (size : ℕ) (r : RingBuffer A) → Holds size r [] → poll size r ≡ none
  unfolding poll
  poll-nil size r h =
      let e : r.head ≡ r.tail =
        sym (h.tail_at ∙ ap (λ a. a % size) (omega arith) ∙ mod-eq_of_lt h.head_lt) in
      ground arith

  pub poll-cons :
      (size : ℕ) (r : RingBuffer A) (x : A) (xs : List A)
      → Holds size r (x ∷ xs)
      → (r' : RingBuffer A) × (poll size r ≡ some (x, r')) × Holds size r' xs
  unfolding poll
  poll-cons size r x xs h =
      let ne : r.head ≢ r.tail = omega (
        arith,
        h.tail_at,
        mod_cases (r.head + suc (length xs)) size (omega (arith, h.room, h.head_lt)),
      ) in
      let first : r.slots r.head ≡ x =
        ap r.slots (sym (ap (λ a. a % size) (omega arith) ∙ mod-eq_of_lt h.head_lt))
        ∙ h.entries 0 x refl in
      (
        record r { head = (r.head + 1) % size },
        rw (≢→==_false _ _ ne) (ap (λ y. some (y, record r { head = (r.head + 1) % size })) first),
        record {
          head_lt = omega arith;
          tail_at = h.tail_at ∙ sym (slot_shift size r.head (length xs));
          room = omega (arith, h.room);
          entries = λ i y e. ap r.slots (slot_shift size r.head i) ∙ h.entries (suc i) y e;
        },
      )
