-- ===== src/Display/Framebuffer/Swap/Rects.antt =====
-- What `copy_rects` of drivers/framebuffer.cpp does to a pixel of the page: the pixels that a rectangle
-- contains come from the back buffer.
use amazing_os.Base.{
  ℕ, ◌+◌, ◌*◌, ◌/◌, ◌^◌, ◌≤◌, ◌<◌, ◌≡◌, refl, sym, ap, ◌∙◌, Bool, true, false, ◌&&◌, ◌||◌, ltb, leb,
  if◌then◌else◌, List, [], ◌∷◌, arith, Bool-cases, ◌⊎◌, inl, inr, ℤ, pos, ◌+ℤ◌, ◌-ℤ◌, leb_ℤ, ltb_ℤ,
  pos_part, to_int-small, -ℤ_parts,
}
use amazing_os.Base.Memory.{Memory}
use amazing_os.Display.{Rect, contains}
use amazing_os.Display.Dirty.Cover.{covered}
use amazing_os.Display.Framebuffer.{Framebuffer, at_most}
use amazing_os.Display.Framebuffer.Swap.{
  copy_lines, copy_rect, copy_rects, start_of, end_of, is_off,
}
use amazing_os.Display.Framebuffer.Swap.Copies.{
  Apart, Beyond, copy_lines-outside, copy_lines-pixel, row_end,
}

-- The screen fits the rows of the buffer, a row is a whole number of words, and the back buffer is apart
-- from the two pages.
pub record IsPaged (fb : Framebuffer) : Type 0 where
  pub ready : fb.initialized ≡ true
  pub columns : fb.width ≤ fb.pitch / 4
  pub narrow : fb.width < 2 ^ 31
  pub low : fb.height < 2 ^ 31
  pub words : fb.pitch ≡ 4 * (fb.pitch / 4)
  pub page : fb.current_page < 2
  pub apart :
      (fb.virtual_base + 2 * (fb.height * fb.pitch) ≤ fb.back_buffer)
      ⊎ (fb.back_buffer + fb.height * fb.pitch ≤ fb.virtual_base)

start_of-pos : (x : ℤ) → start_of x ≡ pos (pos_part (start_of x))
start_of-pos x = ground arith

-- The columns (or rows) of a rectangle that is cut to the screen are those of the rectangle.
cut_hit :
    (lim : ℕ) (x w : ℤ) (p : ℕ)
    → lim < 2 ^ 31
    → p < lim
    → (leb (pos_part (start_of x)) p
        && ltb p (pos_part (start_of x) + pos_part (end_of lim x w -ℤ start_of x)))
      ≡ (leb_ℤ x (pos p) && ltb_ℤ (pos p) (x +ℤ w))
cut_hit lim x w p h lt = rw (to_int-small lim (omega (arith, h))) (cut (x +ℤ w))
  where
    cut :
        (e : ℤ)
        → (leb (pos_part (start_of x)) p
            && ltb p (pos_part (start_of x) + pos_part (at_most (pos lim) e -ℤ start_of x)))
          ≡ (leb_ℤ x (pos p) && ltb_ℤ (pos p) e)
    cut e = ground (arith, -ℤ_parts (at_most (pos lim) e) (start_of x))

cut_fits :
    (lim : ℕ) (x w : ℤ)
    → lim < 2 ^ 31
    → leb_ℤ (end_of lim x w) (start_of x) ≡ false
    → pos_part (start_of x) + pos_part (end_of lim x w -ℤ start_of x) ≤ lim
cut_fits lim x w h = rw (to_int-small lim (omega (arith, h))) (fits (x +ℤ w))
  where
    fits :
        (e : ℤ)
        → leb_ℤ (at_most (pos lim) e) (start_of x) ≡ false
        → pos_part (start_of x) + pos_part (at_most (pos lim) e -ℤ start_of x) ≤ lim
    fits e f = ground (arith, -ℤ_parts (at_most (pos lim) e) (start_of x))

cut_none : (e s : ℤ) → leb_ℤ e s ≡ true → pos_part (e -ℤ s) ≡ 0
cut_none e s h = ground (arith, -ℤ_parts e s)

or_cases : (a b : Bool) → (a || b) ≡ true → (a ≡ true) ⊎ (b ≡ true)
or_cases a b h = ground arith

or_neither : (a b : Bool) → (a || b) ≡ false → (a ≡ false) × (b ≡ false)
or_neither a b h = ground arith

module _ (fb : Framebuffer) where
  -- What is copied of a rectangle.
  abbrev left_of : Rect → ℕ
  left_of r = pos_part (start_of r.x)

  abbrev top_of : Rect → ℕ
  top_of r = pos_part (start_of r.y)

  abbrev columns_of : Rect → ℕ
  columns_of r = pos_part (end_of fb.width r.x r.w -ℤ start_of r.x)

  abbrev rows_of : Rect → ℕ
  rows_of r = pos_part (end_of fb.height r.y r.h -ℤ start_of r.y)

  abbrev pub words : ℕ
  words = fb.height * (fb.pitch / 4)

  record OnScreen (r : Rect) : Type 0 where
    wide : left_of r + columns_of r ≤ fb.width
    high : top_of r + rows_of r ≤ fb.height
    lines :
        (dest : ℕ) (m : Memory)
        → copy_rect fb dest r m
          ≡ copy_lines dest fb.back_buffer
              (fb.pitch / 4)
              (pos (left_of r))
              (columns_of r)
              (rows_of r)
              (pos (top_of r))
              m

  OnScreen-not_off : IsPaged fb → (r : Rect) → is_off fb r ≡ false → OnScreen r
  unfolding copy_rect
  OnScreen-not_off v r f =
      let n =
        or_neither (leb_ℤ (end_of fb.width r.x r.w) (start_of r.x))
          (leb_ℤ (end_of fb.height r.y r.h) (start_of r.y)) f in
      record {
        wide = cut_fits fb.width r.x r.w v.narrow n.0;
        high = cut_fits fb.height r.y r.h v.low n.1;
        lines = λ dest m. rw f (
            ap
              (λ c.
                copy_lines dest fb.back_buffer (fb.pitch / 4) c (columns_of r) (rows_of r)
                  (start_of r.y) m)
              (start_of-pos r.x)
            ∙ ap
                (λ c.
                  copy_lines dest fb.back_buffer (fb.pitch / 4) (pos (left_of r)) (columns_of r)
                    (rows_of r) c m)
                (start_of-pos r.y));
      }

  module _ (v : IsPaged fb) (px py : ℕ) (hx : px < fb.width) (hy : py < fb.height) where
    abbrev pub pixel : ℕ
    pixel = 4 * (py * (fb.pitch / 4) + px)

    abbrev hit_x : Rect → Bool
    hit_x r = leb (left_of r) px && ltb px (left_of r + columns_of r)

    abbrev hit_y : Rect → Bool
    hit_y r = leb (top_of r) py && ltb py (top_of r + rows_of r)

    -- The rows and columns that are copied are those of the rectangle.
    contains-hit : (r : Rect) → contains r (pos px) (pos py) ≡ (hit_x r && hit_y r)
    unfolding contains
    contains-hit r =
        join (leb_ℤ r.x (pos px)) (ltb_ℤ (pos px) (r.x +ℤ r.w)) (leb_ℤ r.y (pos py))
          (ltb_ℤ (pos py) (r.y +ℤ r.h)) (hit_x r) (hit_y r)
          (cut_hit fb.width r.x r.w px v.narrow hx) (cut_hit fb.height r.y r.h py v.low hy)
      where
        join : (a b c d x y : Bool) → x ≡ (a && b) → y ≡ (c && d) → (a && b && c && d) ≡ (x && y)
        join a b c d x y e f = ground arith

    off-contains : (r : Rect) → is_off fb r ≡ true → contains r (pos px) (pos py) ≡ false
    off-contains r h =
        contains-hit r
        ∙ elim (or_cases (leb_ℤ (end_of fb.width r.x r.w) (start_of r.x))
            (leb_ℤ (end_of fb.height r.y r.h) (start_of r.y)) h) [
              | inl t ↦ either (hit_x r) (hit_y r) (
                  inl (
                    empty (left_of r) (columns_of r) px
                      (cut_none (end_of fb.width r.x r.w) (start_of r.x) t)))
              | inr t ↦ either (hit_x r) (hit_y r) (
                  inr (
                    empty (top_of r) (rows_of r) py
                      (cut_none (end_of fb.height r.y r.h) (start_of r.y) t)))
            ]
      where
        empty : (s n p : ℕ) → n ≡ 0 → (leb s p && ltb p (s + n)) ≡ false
        empty s n p e = ground arith

        either : (a b : Bool) → (a ≡ false) ⊎ (b ≡ false) → (a && b) ≡ false
        either a b h = ground arith

    module _ (dest : ℕ) (apart : Apart words dest fb.back_buffer) where
      copy_rect-outside :
          (r : Rect) (m : Memory) (a : ℕ) → Beyond words dest a → copy_rect fb dest r m a ≡ m a
      unfolding copy_rect
      copy_rect-outside r m a h = elim (Bool-cases (is_off fb r)) [
        | inl t ↦ rw t refl
        | inr f ↦
            let o = OnScreen-not_off v r f in
            let wide = o.wide in
            let columns = v.columns in
            ap (λ (k : Memory). k a) (o.lines dest m)
            ∙ copy_lines-outside (fb.pitch / 4) fb.height dest fb.back_buffer apart (left_of r)
                (columns_of r) (rows_of r) (top_of r) m a (omega arith) o.high h
      ]

      copy_rect-pixel :
          (r : Rect) (m : Memory)
          → copy_rect fb dest r m (dest + pixel) ≡ (
              if contains r (pos px) (pos py) then m (fb.back_buffer + pixel) else m (dest + pixel))
      unfolding copy_rect
      copy_rect-pixel r m = elim (Bool-cases (is_off fb r)) [
        | inl t ↦ let off = off-contains r t in rw (t, off) refl
        | inr f ↦
            let o = OnScreen-not_off v r f in
            let wide = o.wide in
            let columns = v.columns in
            ap (λ (k : Memory). k (dest + pixel)) (o.lines dest m)
            ∙ copy_lines-pixel (fb.pitch / 4) fb.height dest fb.back_buffer apart (left_of r)
                (columns_of r) (rows_of r) (top_of r) m px py (omega arith) o.high (omega arith) hy
            ∙ ap (λ b. if b then m (fb.back_buffer + pixel) else m (dest + pixel))
                (turn (leb (left_of r) px) (ltb px (left_of r + columns_of r)) (leb (top_of r) py)
                    (ltb py (top_of r + rows_of r))
                  ∙ sym (contains-hit r))
      ]
        where
          turn : (a b c d : Bool) → (c && d && a && b) ≡ ((a && b) && (c && d))
          turn a b c d = ground arith

      pub copy_rects-outside :
          (rects : List Rect) (m : Memory) (a : ℕ)
          → Beyond words dest a
          → copy_rects fb dest rects m a ≡ m a
      unfolding copy_rects
      copy_rects-outside [] m a h = refl
      copy_rects-outside (r ∷ rects) m a h =
          copy_rects-outside rects (copy_rect fb dest r m) a h ∙ copy_rect-outside r m a h

      pub back_Beyond : Beyond words dest (fb.back_buffer + pixel)
      back_Beyond =
          let columns = v.columns in
          let inside = row_end (fb.pitch / 4) fb.height py 0 px 1 (omega arith) (omega arith) in
          elim apart [ inl l ↦ inr (omega arith) | inr r ↦ inl (omega arith) ]

      pub copy_rects-pixel :
          (rects : List Rect) (m : Memory)
          → copy_rects fb dest rects m (dest + pixel) ≡ (
              if covered rects (pos px) (pos py)
              then m (fb.back_buffer + pixel)
              else m (dest + pixel))
      unfolding copy_rects covered
      copy_rects-pixel [] m = refl
      copy_rects-pixel (r ∷ rects) m =
          copy_rects-pixel rects (copy_rect fb dest r m)
          ∙ both (contains r (pos px) (pos py)) (covered rects (pos px) (pos py)) _ _ _ _
              (copy_rect-outside r m (fb.back_buffer + pixel) back_Beyond) (copy_rect-pixel r m)
        where
          both :
              (h k : Bool) (x y u w : ℕ)
              → x ≡ u
              → y ≡ (if h then u else w)
              → (if k then x else y) ≡ (if h || k then u else w)
          both h k x y u w e f = ground arith
