-- ===== src/Display/Dirty.antt =====
-- The list of damaged rectangles of kernel/wm.cpp: `union_rects`, `expanded_rect`,
-- `DirtyList::add` and `DirtyList::get_bounding_box`. A `DirtyList` is the list of the first `count`
-- cells of its array.
pub mod Cover
use amazing_os.Base.{
  ℕ, zero, suc, ◌+◌, ◌-◌, ◌*◌, ◌≤◌, ◌<◌, ◌≡◌, refl, sym, ap, ◌∙◌, ◌⊎◌, inl, inr, Bool, true, false,
  ◌&&◌, ◌||◌, Option, none, some, List, [], ◌∷◌, ◌++◌, arith, ltb, leb, if◌then◌else◌, Bool-cases,
  length, All, ℤ, pos, negsuc, ◌+ℤ◌, ◌-ℤ◌, ◌*ℤ◌, ◌≤ℤ◌, ◌<ℤ◌, ltb_ℤ, leb_ℤ, int_laws, +ℤ_parts,
  -ℤ_parts, +ℤ--ℤ_cancel,
}
use amazing_os.Display.{Rect, contains, intersects, Within, Inside}

-- `a < b ? a : b` and `a > b ? a : b`.
abbrev smaller : ℤ → ℤ → ℤ
smaller a b = if ltb_ℤ a b then a else b

abbrev larger : ℤ → ℤ → ℤ
larger a b = if ltb_ℤ b a then a else b

pub union_rects : Rect → Rect → Rect
union_rects a b =
    let x1 = smaller a.x b.x in
    let y1 = smaller a.y b.y in
    let x2 = larger (a.x +ℤ a.w) (b.x +ℤ b.w) in
    let y2 = larger (a.y +ℤ a.h) (b.y +ℤ b.h) in
    record { x = x1; y = y1; w = x2 -ℤ x1; h = y2 -ℤ y1 }

pub expanded_rect : Rect → ℤ → Rect
expanded_rect r pad = record {
  x = r.x -ℤ pad;
  y = r.y -ℤ pad;
  w = r.w +ℤ pad *ℤ pos 2;
  h = r.h +ℤ pad *ℤ pos 2;
}

abbrev pub DirtyList : Type 0
DirtyList = List Rect

-- The first rectangle that intersects `cur`, and the list without it, the later ones shifted down.
pub first_hit : DirtyList → Rect → Option (Rect × DirtyList)
first_hit [] cur = none
first_hit (r ∷ rects) cur =
    let rest = first_hit rects cur in
    if intersects r cur
    then some (r, rects)
    else (elim rest [ none ↦ none | some (hit, others) ↦ some (hit, r ∷ others) ])

-- `while (merged)`: what is left of the list, and the rectangle with all that it has swallowed.
pub merge_loop : (fuel : ℕ) → DirtyList → Rect → Option (DirtyList × Rect)
merge_loop zero rects cur = none
merge_loop (suc fuel) rects cur = elim (first_hit rects cur) [
  | none ↦ some (rects, cur)
  | some (hit, others) ↦ merge_loop fuel others (union_rects hit cur)
]

-- `rects[count++] = cur;`, or the first cell takes it.
pub place : DirtyList → Rect → DirtyList
place [] cur = cur ∷ []
place (r ∷ rects) cur =
    if ltb (length (r ∷ rects)) 16 then (r ∷ rects) ++ cur ∷ [] else union_rects r cur ∷ rects

-- `DirtyList::add`.
pub add : (fuel : ℕ) → DirtyList → Rect → Option DirtyList
add fuel rects r =
    if leb_ℤ r.w (pos 0) || leb_ℤ r.h (pos 0) then some rects else (elim (merge_loop fuel rects r) [
      | none ↦ none
      | some (others, cur) ↦ some (place others cur)
    ])

abbrev bounding_loop : Rect → DirtyList → Rect
bounding_loop bbox [] = bbox
bounding_loop bbox (r ∷ rects) = bounding_loop (union_rects bbox r) rects

pub get_bounding_box : DirtyList → Rect
get_bounding_box [] = record { x = pos 0; y = pos 0; w = pos 0; h = pos 0 }
get_bounding_box (r ∷ rects) = bounding_loop r rects

-- A span of the union contains both spans.
Within-union :
    (a a2 b b2 p : ℤ)
    → Within a a2 p ⊎ Within b b2 p
    → Within (smaller a b) (smaller a b +ℤ (larger a2 b2 -ℤ smaller a b)) p
Within-union a a2 b b2 p h =
    rw (+ℤ--ℤ_cancel (smaller a b) (larger a2 b2)) (Within-span a a2 b b2 p h)
  where
    Within-span :
        (a a2 b b2 p : ℤ) → Within a a2 p ⊎ Within b b2 p → Within (smaller a b) (larger a2 b2) p
    Within-span a a2 b b2 p (inl h) = ground arith
    Within-span a a2 b b2 p (inr h) = ground arith

-- A union contains the points of both.
pub Inside-union :
    (a b : Rect) (px py : ℤ) → Inside a px py ⊎ Inside b px py → Inside (union_rects a b) px py
unfolding union_rects
Inside-union a b px py (inl h) = (
  Within-union a.x (a.x +ℤ a.w) b.x (b.x +ℤ b.w) px (inl h.0),
  Within-union a.y (a.y +ℤ a.h) b.y (b.y +ℤ b.h) py (inl h.1),
)
Inside-union a b px py (inr h) = (
  Within-union a.x (a.x +ℤ a.w) b.x (b.x +ℤ b.w) px (inr h.0),
  Within-union a.y (a.y +ℤ a.h) b.y (b.y +ℤ b.h) py (inr h.1),
)
