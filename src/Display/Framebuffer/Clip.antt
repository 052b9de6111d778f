-- ===== src/Display/Framebuffer/Clip.antt =====
-- The clip rectangle and the redirection of drivers/framebuffer.cpp.
use native.Mathlib.Nat.{add-mul, mul-le-mul_right}
use amazing_os.Base.{
  ℕ, ◌+◌, ◌*◌, ◌/◌, ◌^◌, ◌≤◌, ◌<◌, ◌≡◌, ◌≢◌, ◌↔◌, refl, sym, ap, ◌∙◌, subst, Bool, true, false,
  arith, ℤ, pos, ◌+ℤ◌, ◌≤ℤ◌, pos_part, neg_part, ◌⊎◌, inl, inr, +ℤ--ℤ_cancel, to_int, to_int-small,
  ≢→==_false, +ℤ_parts,
}
use amazing_os.Display.{Rect, contains, Within, Inside, contains→Inside, Inside→contains}
use amazing_os.Display.Framebuffer.{
  Framebuffer, at_least, at_most, set_clip_rect, redirect_drawing, restore_drawing, whole,
}
use amazing_os.Display.Framebuffer.Fill.{draw_rect}
use amazing_os.Display.Framebuffer.Fill.Spans.{IsFramebuffer, pixel_address}
use amazing_os.Display.Framebuffer.Fill.Rects.{draw_rect-outside, draw_rect-memory}

-- One span: from `at_least 0 x` to the end, which is at most `lim` and not before it.
abbrev clip_end : ℕ → ℤ → ℤ → ℤ
clip_end lim x x2 = at_least (at_least (pos 0) x) (at_most (pos lim) x2)

Within-clip :
    (lim p : ℕ) (x x2 : ℤ)
    → p < lim
    → Within (at_least (pos 0) x) (clip_end lim x x2) (pos p) ↔ Within x x2 (pos p)
Within-clip lim p x x2 h = (out lim p x x2 h, inn lim p x x2 h)
  where
    out :
        (lim p : ℕ) (x x2 : ℤ)
        → p < lim
        → Within (at_least (pos 0) x) (clip_end lim x x2) (pos p)
        → Within x x2 (pos p)
    out lim p x x2 h w = ground arith

    inn :
        (lim p : ℕ) (x x2 : ℤ)
        → p < lim
        → Within x x2 (pos p)
        → Within (at_least (pos 0) x) (clip_end lim x x2) (pos p)
    inn lim p x x2 h w = ground arith

clip_end-le :
    (lim : ℕ) (x x2 : ℤ)
    → ((clip_end lim x x2 ≡ at_least (pos 0) x)) ⊎ (clip_end lim x x2 ≤ℤ pos lim)
clip_end-le lim x x2 = ground arith

module _ (fb : Framebuffer) (r : Rect) (wide : fb.width < 2 ^ 31) (high : fb.height < 2 ^ 31) where
  clip : Rect
  clip = (set_clip_rect fb r).clip_rect

  clip_right : clip.x +ℤ clip.w ≡ clip_end fb.width r.x (r.x +ℤ r.w)
  unfolding clip set_clip_rect
  clip_right =
      +ℤ--ℤ_cancel (at_least (pos 0) r.x)
        (at_least (at_least (pos 0) r.x) (at_most (to_int fb.width) (r.x +ℤ r.w)))
      ∙ ap (λ lim. at_least (at_least (pos 0) r.x) (at_most lim (r.x +ℤ r.w)))
          (to_int-small fb.width (omega arith))

  clip_bottom : clip.y +ℤ clip.h ≡ clip_end fb.height r.y (r.y +ℤ r.h)
  unfolding clip set_clip_rect
  clip_bottom =
      +ℤ--ℤ_cancel (at_least (pos 0) r.y)
        (at_least (at_least (pos 0) r.y) (at_most (to_int fb.height) (r.y +ℤ r.h)))
      ∙ ap (λ lim. at_least (at_least (pos 0) r.y) (at_most lim (r.y +ℤ r.h)))
          (to_int-small fb.height (omega arith))

  Inside-clip :
      (px py : ℕ)
      → px < fb.width
      → py < fb.height
      → Inside clip (pos px) (pos py) ↔ Inside r (pos px) (pos py)
  unfolding clip set_clip_rect
  Inside-clip px py hx hy =
      let bx = Within-clip fb.width px r.x (r.x +ℤ r.w) hx in
      let by = Within-clip fb.height py r.y (r.y +ℤ r.h) hy in
      (
        λ i. (
          bx.0 (subst (λ e. Within (at_least (pos 0) r.x) e (pos px)) clip_right i.0),
          by.0 (subst (λ e. Within (at_least (pos 0) r.y) e (pos py)) clip_bottom i.1),
        ),
        λ i. (
          subst (λ e. Within (at_least (pos 0) r.x) e (pos px)) (sym clip_right) (bx.1 i.0),
          subst (λ e. Within (at_least (pos 0) r.y) e (pos py)) (sym clip_bottom) (by.1 i.1),
        ),
      )

-- Where the screen has fewer than 2 ^ 31 columns and rows, `set_clip_rect` keeps of any rectangle
-- just its pixels on the screen: a pixel of the screen is in the clip rectangle if and only if it is
-- in the rectangle that was asked for.
set_clip_rect-contains :
    (fb : Framebuffer) (r : Rect) (px py : ℕ)
    → fb.width < 2 ^ 31
    → fb.height < 2 ^ 31
    → px < fb.width
    → py < fb.height
    → contains (set_clip_rect fb r).clip_rect (pos px) (pos py) ≡ contains r (pos px) (pos py)
unfolding clip
set_clip_rect-contains fb r px py wide high hx hy =
    same (contains _ (pos px) (pos py)) (contains r (pos px) (pos py))
      (λ h.
        Inside→contains r (pos px) (pos py)
          (both.0 (contains→Inside (clip fb r wide high) (pos px) (pos py) h)))
      (λ h.
        Inside→contains (clip fb r wide high) (pos px) (pos py)
          (both.1 (contains→Inside r (pos px) (pos py) h)))
  where
    both : Inside (clip fb r wide high) (pos px) (pos py) ↔ Inside r (pos px) (pos py)
    both = Inside-clip fb r wide high px py hx hy

    same : (a b : Bool) → (a ≡ true → b ≡ true) → (b ≡ true → a ≡ true) → a ≡ b
    same a b f g = ground arith

-- Whatever rectangle is asked for, the frame buffer is well formed after `set_clip_rect`.
pub set_clip_rect-IsFramebuffer :
    (fb : Framebuffer) (r : Rect)
    → fb.width < 2 ^ 31
    → fb.height < 2 ^ 31
    → fb.width ≤ fb.pitch / 4
    → fb.height * (fb.pitch / 4) ≤ 2 ^ 32
    → IsFramebuffer (set_clip_rect fb r)
unfolding clip set_clip_rect
set_clip_rect-IsFramebuffer fb r wide high columns words = record {
  left = at_least-nonneg r.x;
  top = at_least-nonneg r.y;
  right =
      edge fb.width (clip fb r wide high).x (clip fb r wide high).w r.x (r.x +ℤ r.w) refl
        (clip_right fb r wide high);
  bottom =
      edge fb.height (clip fb r wide high).y (clip fb r wide high).h r.y (r.y +ℤ r.h) refl
        (clip_bottom fb r wide high);
  columns = columns;
  words = words;
  rows = high;
}
  where
    at_least-nonneg : (x : ℤ) → pos 0 ≤ℤ at_least (pos 0) x
    at_least-nonneg x = ground arith

    empty : (c w : ℤ) → c +ℤ w ≡ c → w ≤ℤ pos 0
    empty c w e = omega (arith, +ℤ_parts c w, ap pos_part e, ap neg_part e)

    edge :
        (lim : ℕ) (c w x x2 : ℤ)
        → c ≡ at_least (pos 0) x
        → c +ℤ w ≡ clip_end lim x x2
        → (w ≤ℤ pos 0) ⊎ (c +ℤ w ≤ℤ pos lim)
    edge lim c w x x2 h e = elim (clip_end-le lim x x2) [
      | inl k ↦ inl (empty c w (e ∙ k ∙ sym h))
      | inr k ↦ inr (subst (λ z. z ≤ℤ pos lim) (sym e) k)
    ]

from_zero : (n : ℕ) → n < 2 ^ 31 → pos 0 +ℤ to_int n ≤ℤ pos n
from_zero n h =
    let e : to_int n ≡ pos n = to_int-small n (omega arith) in
    subst (λ z. pos 0 +ℤ z ≤ℤ pos n) (sym e) (omega (arith, +ℤ_parts (pos 0) (pos n)))

-- Where drawing is not redirected, and the other buffer is not null, has fewer than 2 ^ 31 columns
-- and rows and fits its rows, a rectangle drawn between `redirect_drawing` and `restore_drawing` goes
-- to that buffer: all memory outside of it stays as it is, and drawing goes on with the buffer, the
-- size and the clip rectangle of before.
pub restore_drawing-redirect_drawing :
    (fb : Framebuffer) (temp_buf temp_w temp_h temp_pitch x y w h color a : ℕ)
    → fb.is_redirected ≡ false
    → temp_buf ≢ 0
    → temp_w < 2 ^ 31
    → temp_h < 2 ^ 31
    → temp_w ≤ temp_pitch / 4
    → temp_h * (temp_pitch / 4) ≤ 2 ^ 32
    → (a < temp_buf) ⊎ (temp_buf + 4 * (temp_h * (temp_pitch / 4)) ≤ a)
    → let out =
        restore_drawing
          (draw_rect (redirect_drawing fb temp_buf temp_w temp_h temp_pitch) x y w h color) in
      (out.memory a ≡ fb.memory a)
      × (out.back_buffer ≡ fb.back_buffer)
      × (out.width ≡ fb.width)
      × (out.height ≡ fb.height)
      × (out.pitch ≡ fb.pitch)
      × (out.clip_rect ≡ fb.clip_rect)
      × (out.is_redirected ≡ false)
unfolding redirect_drawing restore_drawing
restore_drawing-redirect_drawing fb t tw th tp x y w h color a direct null wide high columns words
      out =
    rw (direct, ≢→==_false t 0 null, draw_rect-memory redirected x y w h color)
      (draw_rect-outside redirected x y w h color a valid off, refl, refl, refl, refl, refl, refl)
  where
    redirected : Framebuffer
    redirected = record fb {
      saved_back_buffer = fb.back_buffer;
      saved_width = fb.width;
      saved_height = fb.height;
      saved_pitch = fb.pitch;
      saved_clip_rect = fb.clip_rect;
      back_buffer = t;
      width = tw;
      height = th;
      pitch = tp;
      clip_rect = whole tw th;
      is_redirected = true;
    }

    valid : IsFramebuffer redirected
    valid = record {
      left = omega arith;
      top = omega arith;
      right = inr (from_zero tw wide);
      bottom = inr (from_zero th high);
      columns = columns;
      words = words;
      rows = high;
    }

    off : (px py : ℕ) → px < tw → py < th → a ≢ pixel_address redirected px py
    off px py hx hy e =
        let step : (py + 1) * (tp / 4) ≤ th * (tp / 4) =
          mul-le-mul_right {m = py + 1} {n = th} (tp / 4) (omega arith) in
        let sum : (py + 1) * (tp / 4) ≡ py * (tp / 4) + 1 * (tp / 4) = add-mul py 1 (tp / 4) in
        elim out [ inl l ↦ omega arith | inr g ↦ omega arith ]
