-- ===== src/Display/Dirty/Cover.antt =====
-- What `DirtyList::add` of kernel/wm.cpp keeps: the points that are covered, and rectangles apart.
pub mod Add
mod Tests
use amazing_os.Base.{
  ℕ, zero, suc, ◌+◌, ◌-◌, ◌*◌, ◌≤◌, ◌<◌, ◌≡◌, refl, sym, ap, ◌∙◌, ◌⊎◌, inl, inr, Bool, true, false,
  ◌&&◌, ◌||◌, Option, none, some, List, [], ◌∷◌, ◌++◌, arith, ltb, leb, if◌then◌else◌, Bool-cases,
  length, length-append, All, ℤ, pos, negsuc, ◌+ℤ◌, ◌-ℤ◌, ◌*ℤ◌, ◌≤ℤ◌, ◌<ℤ◌, ltb_ℤ, leb_ℤ, int_laws,
  +ℤ_parts, -ℤ_parts, Option-cases,
}
use amazing_os.Display.{
  Rect, contains, intersects, Within, Inside, contains→Inside, Inside→contains,
}
use amazing_os.Display.Dirty.{
  DirtyList, union_rects, first_hit, merge_loop, place, add, Inside-union,
}

-- Some rectangle of the list contains the point.
unfoldable pub covered : DirtyList → ℤ → ℤ → Bool
covered [] px py = false
covered (r ∷ rects) px py = contains r px py || covered rects px py

-- No rectangle intersects a later one.
pub IsApart : DirtyList → Type 0
IsApart [] = Unit
IsApart (r ∷ rects) = All (λ s. intersects r s ≡ false) rects × IsApart rects

pub contains-union :
    (a b : Rect) (px py : ℤ)
    → (contains a px py || contains b px py) ≡ true
    → contains (union_rects a b) px py ≡ true
contains-union a b px py h = elim (Bool-cases (contains a px py)) [
  | inl t ↦
      Inside→contains (union_rects a b) px py
        (Inside-union a b px py (inl (contains→Inside a px py t)))
  | inr f ↦
      Inside→contains (union_rects a b) px py
        (Inside-union a b px py (inr (contains→Inside b px py (ground arith))))
]

-- A rectangle that `add` refuses contains no point.
pub contains-empty :
    (r : Rect) (px py : ℤ)
    → (leb_ℤ r.w (pos 0) || leb_ℤ r.h (pos 0)) ≡ true
    → contains r px py ≡ false
contains-empty r px py h = elim (Bool-cases (contains r px py)) [
  | inl t ↦ absurd (no_point (flat r.w r.h h) (contains→Inside r px py t))
  | inr f ↦ f
]
  where
    flat : (w h : ℤ) → (leb_ℤ w (pos 0) || leb_ℤ h (pos 0)) ≡ true → (w ≤ℤ pos 0) ⊎ (h ≤ℤ pos 0)
    flat w h e = ground arith

    no_point : (r.w ≤ℤ pos 0) ⊎ (r.h ≤ℤ pos 0) → ¬ Inside r px py
    no_point (inl e) i = omega (int_laws, i.0)
    no_point (inr e) i = omega (int_laws, i.1)

-- What the search takes out of the list is the rectangle it returns.
record Taken (rects : DirtyList) (hit : Rect) (others : DirtyList) : Type 1 where
  size : length rects ≡ suc (length others)
  points : (px py : ℤ) → covered rects px py ≡ (contains hit px py || covered others px py)
  keeps : (P : Rect → Type 0) → All P rects → All P others
  apart : IsApart rects → IsApart others

pub Misses : DirtyList → Rect → Type 0
Misses rects cur = All (λ r. intersects r cur ≡ false) rects

Taken-cons :
    (r : Rect) {rects : DirtyList} {hit : Rect} {others : DirtyList}
    → Taken rects hit others
    → Taken (r ∷ rects) hit (r ∷ others)
unfolding covered IsApart
Taken-cons r t = record {
  size = ap suc t.size;
  points = λ px py. ground (arith, t.points px py);
  keeps = λ P h. (h.0, t.keeps P h.1);
  apart = λ h. (t.keeps _ h.0, t.apart h.1);
}

first_hit-cases :
    (rects : DirtyList) (cur : Rect)
    → ((first_hit rects cur ≡ none) × Misses rects cur)
      ⊎ ((hit : Rect) × (others : DirtyList) × (first_hit rects cur ≡ some (hit, others))
          × Taken rects hit others)
unfolding first_hit Misses covered IsApart
first_hit-cases [] cur = inl (refl, tt)
first_hit-cases (r ∷ rects) cur = elim (Bool-cases (intersects r cur)) [
  | inl t ↦ inr (
    r,
    rects,
    rw t,
    record { size = refl; points = λ px py. refl; keeps = λ P h. h.1; apart = λ h. h.1 },
  )
  | inr f ↦ elim (first_hit-cases rects cur) [
    | inl miss ↦ inl (rw (f, miss.0) refl, (f, miss.1))
    | inr (hit, others, e, taken) ↦ inr (hit, r ∷ others, rw (f, e) refl, Taken-cons r taken)
  ]
]

-- The loop ends, and loses no point.
pub record Merged (rects : DirtyList) (cur : Rect) (out : Option (DirtyList × Rect)) : Type 1 where
  pub others : DirtyList
  pub swallowed : Rect
  pub returns : out ≡ some (others, swallowed)
  pub size : length others ≤ length rects
  pub points :
      (px py : ℤ)
      → (covered rects px py || contains cur px py) ≡ true
      → (covered others px py || contains swallowed px py) ≡ true
  pub misses : Misses others swallowed
  pub apart : IsApart rects → IsApart others

pub merge_loop-Merged :
    (fuel : ℕ) (rects : DirtyList) (cur : Rect)
    → length rects < fuel
    → Merged rects cur (merge_loop fuel rects cur)
unfolding merge_loop
merge_loop-Merged zero rects cur h = elim h [ ]
merge_loop-Merged (suc fuel) rects cur h = elim (first_hit-cases rects cur) [
  | inl (e, miss) ↦ record {
    others = rects;
    swallowed = cur;
    returns = rw (merge_loop, e) refl;
    size = omega arith;
    points = λ px py c. c;
    misses = miss;
    apart = λ a. a;
  }
  | inr (hit, others, e, taken) ↦
      let size = taken.size in
      let rest = merge_loop-Merged fuel others (union_rects hit cur) (omega arith) in
      let shorter = rest.size in
      record {
        others = rest.others;
        swallowed = rest.swallowed;
        returns = rw (merge_loop, e) rest.returns;
        size = omega arith;
        points = λ px py c.
            rest.points px py (union_points hit others cur px py (rw (taken.points px py) at c));
        misses = rest.misses;
        apart = λ a. rest.apart (taken.apart a);
      }
]
  where
    or3 : (a b c u : Bool) → ((a || b) || c) ≡ true → ((a || c) ≡ true → u ≡ true) → (b || u) ≡ true
    or3 a b c u h k = ground arith

    union_points :
        (hit : Rect) (others : DirtyList) (cur : Rect) (px py : ℤ)
        → ((contains hit px py || covered others px py) || contains cur px py) ≡ true
        → (covered others px py || contains (union_rects hit cur) px py) ≡ true
    union_points hit others cur px py c =
        or3 (contains hit px py) (covered others px py) (contains cur px py)
          (contains (union_rects hit cur) px py) c (contains-union hit cur px py)
