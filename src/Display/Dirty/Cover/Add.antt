-- ===== src/Display/Dirty/Cover/Add.antt =====
-- `DirtyList::add` of kernel/wm.cpp as a whole.
use amazing_os.Base.{
  ℕ, ◌≤◌, ◌<◌, ◌≡◌, refl, ◌∙◌, inl, inr, Bool, true, false, ◌||◌, some, [], ◌∷◌, ◌++◌, arith, ltb,
  Bool-cases, length, length-append, All, ℤ, pos, leb_ℤ, lt→ltb,
}
use amazing_os.Display.{Rect, contains, intersects}
use amazing_os.Display.Dirty.{DirtyList, union_rects, place, add}
use amazing_os.Display.Dirty.Cover.{
  covered, IsApart, contains-union, contains-empty, Misses, merge_loop-Merged,
}

covered-append :
    (rects : DirtyList) (cur : Rect) (px py : ℤ)
    → covered (rects ++ cur ∷ []) px py ≡ (covered rects px py || contains cur px py)
unfolding covered
covered-append [] cur px py = ground arith
covered-append (r ∷ rects) cur px py = ground (arith, covered-append rects cur px py)

IsApart-append :
    (rects : DirtyList) (cur : Rect)
    → IsApart rects
    → Misses rects cur
    → IsApart (rects ++ cur ∷ [])
unfolding IsApart Misses
IsApart-append [] cur a m = (tt, tt)
IsApart-append (r ∷ rects) cur a m =
    (All-append r rects cur a.0 m.0, IsApart-append rects cur a.1 m.1)
  where
    All-append :
        (r : Rect) (rects : DirtyList) (cur : Rect)
        → All (λ s. intersects r s ≡ false) rects
        → intersects r cur ≡ false
        → All (λ s. intersects r s ≡ false) (rects ++ cur ∷ [])
    All-append r [] cur h e = (e, tt)
    All-append r (s ∷ rects) cur h e = (h.0, All-append r rects cur h.1 e)

-- The place of a rectangle covers its points, whether it gets a cell or shares one.
covered-place :
    (rects : DirtyList) (cur : Rect) (px py : ℤ)
    → (covered rects px py || contains cur px py) ≡ true
    → covered (place rects cur) px py ≡ true
unfolding place covered
covered-place [] cur px py h = ground arith
covered-place (r ∷ rects) cur px py h = elim (Bool-cases (ltb (length (r ∷ rects)) 16)) [
  | inl t ↦ rw t (covered-append (r ∷ rects) cur px py ∙ h)
  | inr f ↦ rw f (
      shared (contains r px py) (covered rects px py) (contains cur px py)
        (contains (union_rects r cur) px py) h (contains-union r cur px py))
]
  where
    shared :
        (a b c u : Bool) → ((a || b) || c) ≡ true → ((a || c) ≡ true → u ≡ true) → (u || b) ≡ true
    shared a b c u h k = ground arith

length-place : (rects : DirtyList) (cur : Rect) → length rects ≤ 16 → length (place rects cur) ≤ 16
unfolding place
length-place [] cur h = omega arith
length-place (r ∷ rects) cur h = elim (Bool-cases (ltb (length (r ∷ rects)) 16)) [
  | inl t ↦ rw t (ground (arith, length-append rects (cur ∷ [])))
  | inr f ↦ rw f h
]

IsApart-place :
    (rects : DirtyList) (cur : Rect)
    → length rects < 16
    → IsApart rects
    → Misses rects cur
    → IsApart (place rects cur)
unfolding place
IsApart-place [] cur h a m = IsApart-append [] cur a m
IsApart-place (r ∷ rects) cur h a m =
    rw (lt→ltb (length (r ∷ rects)) 16 h) (IsApart-append (r ∷ rects) cur a m)

-- For a list of at most 16 rectangles, fuel for one step more than it has, and a point that is in the new
-- rectangle or in one of the list's, `DirtyList::add` ends, with at most 16 rectangles again, of which one
-- has the point in it.
pub add-covered :
    (fuel : ℕ) (rects : DirtyList) (r : Rect) (px py : ℤ)
    → length rects ≤ 16
    → length rects < fuel
    → (covered rects px py || contains r px py) ≡ true
    → (out : DirtyList) × (add fuel rects r ≡ some out)
      × (length out ≤ 16)
      × (covered out px py ≡ true)
unfolding add
add-covered fuel rects r px py full enough c =
    elim (Bool-cases (leb_ℤ r.w (pos 0) || leb_ℤ r.h (pos 0))) [
      | inl t ↦ (
        rects,
        rw t refl,
        full,
        rw (contains-empty r px py t, or_false (covered rects px py)) at c,
      )
      | inr f ↦
          let m = merge_loop-Merged fuel rects r enough in
          let shorter = m.size in
          (
            place m.others m.swallowed,
            rw (f, m.returns) refl,
            length-place m.others m.swallowed (omega arith),
            covered-place m.others m.swallowed px py (m.points px py c),
          )
    ]
  where
    or_false : (a : Bool) → (a || false) ≡ a
    or_false a = ground arith

-- Where no rectangle of a list of fewer than 16 intersects a later one, `DirtyList::add`, with fuel
-- for one step more than the list has rectangles, returns a list of which that is true again.
pub add-IsApart :
    (fuel : ℕ) (rects : DirtyList) (r : Rect)
    → length rects < 16
    → length rects < fuel
    → IsApart rects
    → (out : DirtyList) × (add fuel rects r ≡ some out) × IsApart out
unfolding add
add-IsApart fuel rects r room enough apart =
    elim (Bool-cases (leb_ℤ r.w (pos 0) || leb_ℤ r.h (pos 0))) [
      | inl t ↦ (rects, rw t refl, apart)
      | inr f ↦
          let m = merge_loop-Merged fuel rects r enough in
          let shorter = m.size in
          (
            place m.others m.swallowed,
            rw (f, m.returns) refl,
            IsApart-place m.others m.swallowed (omega arith) (m.apart apart) m.misses,
          )
    ]
