-- ===== src/Heap/Carving.antt =====
-- The objects of a page that becomes a slab.
use native.Mathlib.Nat.{suc-mul}
use amazing_os.Base.{
  ℕ, zero, suc, ◌+◌, ◌*◌, ◌≤◌, ◌<◌, ◌≡◌, ◌≢◌, ◌⊎◌, inl, inr, refl, ◌∙◌, true, false, List, [], ◌∷◌,
  arith, length, ◌==◌, leb, if◌then◌else◌, All, Bool-cases, ≢→==_false,
}
use amazing_os.Heap.{carve, object_start}

-- An object that lies in its page behind the header.
abbrev pub InPage : (page size o : ℕ) → Type 0
InPage page size o = (page + object_start ≤ o) × (o + size ≤ page + 4096)

-- Two objects that do not overlap.
abbrev pub Apart : (size o o' : ℕ) → Type 0
Apart size o o' = (o' + size ≤ o) ⊎ (o + size ≤ o')

-- The words lead from `p` through the objects, each in the page and none over another.
abbrev pub Objects : (ℕ → ℕ) → (page size p : ℕ) → List ℕ → Type 0
Objects w page size p [] = p ≡ 0
Objects w page size p (o ∷ os) =
    (p ≡ o) × (InPage page size o × (All (Apart size o) os × Objects w page size (w o) os))

-- Words that are the same at the objects lead the same way.
pub Objects-same :
    (w v : ℕ → ℕ) (page size p : ℕ) (os : List ℕ)
    → All (λ o. w o ≡ v o) os
    → Objects w page size p os
    → Objects v page size p os
Objects-same w v page size p [] same c = c
Objects-same w v page size p (o ∷ os) same c =
    (c.0, (c.1.0, (c.1.1.0, Objects-same w v page size (v o) os same.1 (rw same.0 at c.1.1.1))))

-- A word that is written elsewhere.
pub unwritten :
    (w : ℕ → ℕ) (a n : ℕ) (os : List ℕ)
    → All (λ o. o ≢ a) os
    → All (λ o. w o ≡ (if o == a then n else w o)) os
unwritten w a n [] h = tt
unwritten w a n (o ∷ os) h =
    let other : (o == a) ≡ false = ≢→==_false o a h.0 in (rw other refl, unwritten w a n os h.1)

-- The objects below a place are apart from one that starts there.
below-Apart :
    (page size offset : ℕ) (os : List ℕ)
    → All (λ o. o + size ≤ page + offset) os
    → All (Apart size (page + offset)) os
below-Apart page size offset [] h = tt
below-Apart page size offset (o ∷ os) h = (inl h.0, below-Apart page size offset os h.1)

below_ne :
    (page size offset : ℕ) (os : List ℕ)
    → 0 < size
    → All (λ o. o + size ≤ page + offset) os
    → All (λ o. o ≢ page + offset) os
below_ne page size offset [] pos h = tt
below_ne page size offset (o ∷ os) pos h =
    ((λ e. absurd (omega (arith, h.0))), below_ne page size offset os pos h.1)

below_later :
    (page size offset : ℕ) (os : List ℕ)
    → All (λ o. o + size ≤ page + offset) os
    → All (λ o. o + size ≤ page + (offset + size)) os
below_later page size offset [] h = tt
below_later page size offset (o ∷ os) h = (omega (arith, h.0), below_later page size offset os h.1)

-- As many objects as fit, each in its place; nothing outside of them is written.
pub record Carved (page size : ℕ) (w : ℕ → ℕ) (r : (ℕ → ℕ) × (ℕ × ℕ)) : Type 0 where
  pub objects : List ℕ
  pub linked : Objects r.0 page size r.1.0 objects
  pub counted : r.1.1 ≡ length objects
  pub fits : object_start + r.1.1 * size ≤ 4096
  pub full : 4096 < object_start + r.1.1 * size + size
  pub outside : (a : ℕ) → (a < page + object_start) ⊎ (page + 4096 ≤ a) → r.0 a ≡ w a

module _ (page size : ℕ) (large : 16 ≤ size) where
  carve_from :
      (fuel offset prev count : ℕ) (w : ℕ → ℕ) (os : List ℕ)
      → 4096 < offset + fuel * 16
      → offset ≡ object_start + count * size
      → offset ≤ 4096
      → Objects w page size prev os
      → count ≡ length os
      → All (λ o. o + size ≤ page + offset) os
      → Carved page size w (carve fuel page size offset prev count w)
  unfolding carve
  carve_from zero offset prev count w os enough at inside linked counted below =
      absurd (omega arith)
  carve_from (suc fuel) offset prev count w os enough at inside linked counted below =
      let ne = below_ne page size offset os (omega arith) below in
      let w1 = λ (a : ℕ). if a == page + offset then prev else w a in
      let same : (page + offset == page + offset) ≡ true = ground arith in
      elim (Bool-cases (leb (offset + size) 4096)) [
        | inr full ↦
            rw (full, carve)
              (record {
                objects = os;
                linked = linked;
                counted = counted;
                fits = omega arith;
                full = ground (arith, at);
                outside = λ a h. refl;
              })
        | inl more ↦
            let grown : offset + size ≡ object_start + suc count * size =
              omega (arith, suc-mul count size) in
            let first : Objects w1 page size prev os =
              Objects-same w w1 page size prev os (unwritten w (page + offset) prev os ne) linked in
            let rest =
              carve_from fuel (offset + size) (page + offset) (count + 1) w1 ((page + offset) ∷ os)
                (omega arith) (omega (arith, grown)) (ground arith)
                (
                  refl,
                  (
                    (omega arith, ground arith),
                    (below-Apart page size offset os below, rw same first),
                  ),
                )
                (omega arith) (omega arith, below_later page size offset os below) in
            rw (more, carve)
              (record {
                objects = rest.objects;
                linked = rest.linked;
                counted = rest.counted;
                fits = rest.fits;
                full = rest.full;
                outside = λ a h.
                    let other : (a == page + offset) ≡ false = ground (arith, h, more) in
                    rest.outside a h ∙ rw other refl;
              })
      ]

  pub carve-Carved : (w : ℕ → ℕ) → Carved page size w (carve 256 page size object_start 0 0 w)
  carve-Carved w =
      carve_from 256 object_start 0 0 w [] (omega arith) (omega arith) (omega arith) refl refl tt
