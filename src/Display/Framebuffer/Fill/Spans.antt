-- ===== src/Display/Framebuffer/Fill/Spans.antt =====
-- Frame buffers of drivers/framebuffer.cpp that are well formed, and the spans of a rectangle that is cut to
-- the clip rectangle.
use native.Mathlib.Nat.{zero-mul, suc-mul}
use amazing_os.Base.{
  ℕ, zero, suc, ◌+◌, ◌*◌, ◌/◌, ◌^◌, ◌≤◌, ◌<◌, ◌≡◌, ◌↔◌, refl, ap, Bool, true, false, ◌&&◌, arith, ℤ,
  pos, ◌+ℤ◌, ◌-ℤ◌, ◌≤ℤ◌, ◌<ℤ◌, pos_part, neg_part, leb_ℤ, ◌⊎◌, inl, inr, pos_of-nonneg,
  neg_part_of-nonneg, -ℤ_parts, +ℤ_parts,
}
use amazing_os.Display.{Within}
use amazing_os.Display.Framebuffer.{Framebuffer, at_least, at_most}

-- A clip rectangle lies on the screen, or is empty; the screen's rows fit the buffer's, whose words
-- 32 bits can count.
pub record IsFramebuffer (fb : Framebuffer) : Type 0 where
  pub left : pos 0 ≤ℤ fb.clip_rect.x
  pub top : pos 0 ≤ℤ fb.clip_rect.y
  pub right : (fb.clip_rect.w ≤ℤ pos 0) ⊎ (fb.clip_rect.x +ℤ fb.clip_rect.w ≤ℤ pos fb.width)
  pub bottom : (fb.clip_rect.h ≤ℤ pos 0) ⊎ (fb.clip_rect.y +ℤ fb.clip_rect.h ≤ℤ pos fb.height)
  pub columns : fb.width ≤ fb.pitch / 4
  pub words : fb.height * (fb.pitch / 4) ≤ 2 ^ 32
  pub rows : fb.height < 2 ^ 31

-- The word of a pixel in the buffer.
abbrev pub pixel_address : Framebuffer → ℕ → ℕ → ℕ
pixel_address fb px py = fb.back_buffer + 4 * (py * (fb.pitch / 4) + px)

pub Within-cut :
    (c c2 x x2 p : ℤ) → (Within x x2 p × Within c c2 p) ↔ Within (at_least c x) (at_most c2 x2) p
Within-cut c c2 x x2 p = (cut c c2 x x2 p, uncut c c2 x x2 p)
  where
    cut :
        (c c2 x x2 p : ℤ) → Within x x2 p × Within c c2 p → Within (at_least c x) (at_most c2 x2) p
    cut c c2 x x2 p h = ground arith

    uncut :
        (c c2 x x2 p : ℤ) → Within (at_least c x) (at_most c2 x2) p → Within x x2 p × Within c c2 p
    uncut c c2 x x2 p h = ground arith

-- Rows are told apart by the quotient.
pub row_unique : (n y x i j : ℕ) → x < n → j < n → y * n + x ≡ i * n + j → (y ≡ i) × (x ≡ j)
row_unique n zero x zero j hx hj e = (refl, omega (arith, zero-mul n))
row_unique n zero x (suc i) j hx hj e = absurd (omega (arith, zero-mul n, suc-mul i n))
row_unique n (suc y) x zero j hx hj e = absurd (omega (arith, zero-mul n, suc-mul y n))
row_unique n (suc y) x (suc i) j hx hj e =
    let r = row_unique n y x i j hx hj (omega (arith, suc-mul y n, suc-mul i n)) in
    (ap suc r.0, r.1)

-- A span of the clip rectangle that is cut and not empty, in numbers.
pub record Span (lim : ℕ) (s e : ℤ) : Type 0 where
  pub starts : s ≡ pos (pos_part s)
  pub fits : pos_part s + pos_part (e -ℤ s) ≤ lim
  pub within :
      (p : ℕ) → Within s e (pos p) → (pos_part s ≤ p) × (p < pos_part s + pos_part (e -ℤ s))
  pub back : (j : ℕ) → j < pos_part (e -ℤ s) → Within s e (pos (pos_part s + j))

pub cut_Span :
    (lim : ℕ) (c w s e : ℤ)
    → pos 0 ≤ℤ c
    → (w ≤ℤ pos 0) ⊎ (c +ℤ w ≤ℤ pos lim)
    → c ≤ℤ s
    → e ≤ℤ c +ℤ w
    → s <ℤ e
    → Span lim s e
cut_Span lim c w s e h0 hw hc he lt = record {
  starts = pos_of-nonneg s (omega arith);
  fits = fit hw;
  within = λ p h. (
    omega (arith, s0),
    omega (arith, s0, neg_part_of-nonneg (e -ℤ s) (omega (arith, -ℤ_parts e s)), -ℤ_parts e s),
  );
  back = λ j h. (
    omega (arith, s0),
    omega (arith, s0, neg_part_of-nonneg (e -ℤ s) (omega (arith, -ℤ_parts e s)), -ℤ_parts e s),
  );
}
  where
    s0 : neg_part s ≡ 0
    s0 = neg_part_of-nonneg s (omega arith)

    fit : (w ≤ℤ pos 0) ⊎ (c +ℤ w ≤ℤ pos lim) → pos_part s + pos_part (e -ℤ s) ≤ lim
    fit (inl e0) = absurd (omega (arith, +ℤ_parts c w))
    fit (inr e1) =
        omega (arith, -ℤ_parts e s, s0, neg_part_of-nonneg (e -ℤ s) (omega (arith, -ℤ_parts e s)))

pub at_least-ge : (c x : ℤ) → c ≤ℤ at_least c x
at_least-ge c x = ground arith

pub at_most-le : (c x : ℤ) → at_most c x ≤ℤ c
at_most-le c x = ground arith

pub lt_of-leb : (e s : ℤ) → leb_ℤ e s ≡ false → s <ℤ e
lt_of-leb e s h = ground arith

pub not_lt_of-leb : (e s : ℤ) → leb_ℤ e s ≡ true → ¬ (s <ℤ e)
not_lt_of-leb e s h lt = ground arith

pub and_left : (a b : Bool) → (a && b) ≡ true → a ≡ true
and_left a b h = ground arith

pub and_right : (a b : Bool) → (a && b) ≡ true → b ≡ true
and_right a b h = ground arith

pub and_intro : (a b : Bool) → a ≡ true → b ≡ true → (a && b) ≡ true
and_intro a b h k = ground arith

pub absurd_bool : ¬ (false ≡ true)
absurd_bool h = ground arith

pub Within-lt : (s e p : ℤ) → Within s e p → s <ℤ e
Within-lt s e p h = omega arith
