-- ===== src/Display.antt =====
-- Rectangles of drivers/framebuffer.hpp. An `int` is an integer: a sum that leaves 32 bits is
-- undefined in the source, and is not reduced here.
pub mod Dirty
pub mod Framebuffer
use amazing_os.Base.{◌≡◌, refl, Bool, true, false, ◌&&◌, arith, ℤ, ◌+ℤ◌, ◌≤ℤ◌, ◌<ℤ◌, ltb_ℤ, leb_ℤ}

pub record Rect : Type 0 where
  pub x : ℤ
  pub y : ℤ
  pub w : ℤ
  pub h : ℤ

unfoldable pub contains : Rect → ℤ → ℤ → Bool
contains r px py = leb_ℤ r.x px && ltb_ℤ px (r.x +ℤ r.w) && leb_ℤ r.y py && ltb_ℤ py (r.y +ℤ r.h)

unfoldable pub intersects : Rect → Rect → Bool
intersects r other =
    ltb_ℤ r.x (other.x +ℤ other.w)
    && ltb_ℤ other.x (r.x +ℤ r.w)
    && ltb_ℤ r.y (other.y +ℤ other.h)
    && ltb_ℤ other.y (r.y +ℤ r.h)

and4 :
    (a b c d : Bool) → (a && b && c && d) ≡ true → (a ≡ true) × (b ≡ true) × (c ≡ true) × (d ≡ true)
and4 a b c d h = ground arith

and4_intro :
    (a b c d : Bool) → a ≡ true → b ≡ true → c ≡ true → d ≡ true → (a && b && c && d) ≡ true
and4_intro a b c d ha hb hc hd = ground arith

-- The half-open spans of a rectangle.
abbrev pub Within : ℤ → ℤ → ℤ → Type 0
Within lo hi p = (lo ≤ℤ p) × (p <ℤ hi)

abbrev pub Inside : Rect → ℤ → ℤ → Type 0
Inside r px py = Within r.x (r.x +ℤ r.w) px × Within r.y (r.y +ℤ r.h) py

Within-of : (lo hi p : ℤ) → leb_ℤ lo p ≡ true → ltb_ℤ p hi ≡ true → Within lo hi p
Within-of lo hi p a b = ground arith

Within-all :
    (xlo xhi ylo yhi px py : ℤ)
    → (leb_ℤ xlo px && ltb_ℤ px xhi && leb_ℤ ylo py && ltb_ℤ py yhi) ≡ true
    → Within xlo xhi px × Within ylo yhi py
Within-all xlo xhi ylo yhi px py h =
    let t = and4 (leb_ℤ xlo px) (ltb_ℤ px xhi) (leb_ℤ ylo py) (ltb_ℤ py yhi) h in
    (Within-of xlo xhi px t.0 t.1, Within-of ylo yhi py t.2 t.3)

Within-both :
    (xlo xhi ylo yhi px py : ℤ)
    → Within xlo xhi px
    → Within ylo yhi py
    → (leb_ℤ xlo px && ltb_ℤ px xhi && leb_ℤ ylo py && ltb_ℤ py yhi) ≡ true
Within-both xlo xhi ylo yhi px py h k =
    and4_intro (leb_ℤ xlo px) (ltb_ℤ px xhi) (leb_ℤ ylo py) (ltb_ℤ py yhi) (ground arith)
      (ground arith) (ground arith) (ground arith)

pub contains→Inside : (r : Rect) (px py : ℤ) → contains r px py ≡ true → Inside r px py
unfolding contains
contains→Inside r px py h = Within-all r.x (r.x +ℤ r.w) r.y (r.y +ℤ r.h) px py h

pub Inside→contains : (r : Rect) (px py : ℤ) → Inside r px py → contains r px py ≡ true
unfolding contains
Inside→contains r px py h = Within-both r.x (r.x +ℤ r.w) r.y (r.y +ℤ r.h) px py h.0 h.1
