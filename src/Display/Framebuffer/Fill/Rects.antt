-- ===== src/Display/Framebuffer/Fill/Rects.antt =====
-- `draw_rect` and `draw_rect_alpha` of drivers/framebuffer.cpp paint the rectangle within the clip
-- rectangle, pixel by pixel.
use native.Mathlib.Nat.{add-mul, le_trans, mul-le-mul_right}
use amazing_os.Base.{
  Bool, ℕ, ◌+◌, ◌-◌, ◌*◌, ◌/◌, ◌<◌, ◌≡◌, ◌≢◌, refl, sym, ap, ◌∙◌, subst, true, false, ◌&&◌, ◌||◌,
  not, arith, ℤ, pos, ◌+ℤ◌, ◌-ℤ◌, ◌<ℤ◌, pos_part, leb_ℤ, ◌==◌, if◌then◌else◌, ◌⊎◌, inl, inr,
  Bool-cases,
}
use amazing_os.Base.Memory.{Memory}
use amazing_os.Display.{Rect, contains, Within, contains→Inside, Inside→contains}
use amazing_os.Display.Framebuffer.{Framebuffer, at_least, at_most}
use amazing_os.Display.Framebuffer.Fill.{
  paint_rows, paint_rect, int_rect, draw_rect, blend, draw_rect_alpha,
}
use amazing_os.Display.Framebuffer.Fill.Cells.{runs, runs-inside, runs-outside, paint_rows-runs}
use amazing_os.Display.Framebuffer.Fill.Spans.{
  IsFramebuffer, pixel_address, Within-cut, row_unique, Span, cut_Span, at_least-ge, at_most-le,
  lt_of-leb, not_lt_of-leb, and_left, and_right, and_intro, absurd_bool, Within-lt,
}

module _ (fb : Framebuffer) (r : Rect) (paint : ℕ → ℕ) where
  clip : Rect
  clip = fb.clip_rect

  start_x : ℤ
  start_x = at_least clip.x r.x

  end_x : ℤ
  end_x = at_most (clip.x +ℤ clip.w) (r.x +ℤ r.w)

  start_y : ℤ
  start_y = at_least clip.y r.y

  end_y : ℤ
  end_y = at_most (clip.y +ℤ clip.h) (r.y +ℤ r.h)

  -- The words of the cut rectangle, painted.
  abbrev painted_words : Memory
  painted_words =
      runs paint fb.back_buffer (fb.pitch / 4) (pos_part (end_x -ℤ start_x))
        (pos_part (end_y -ℤ start_y)) (pos_part start_y * (fb.pitch / 4) + pos_part start_x)
        fb.memory

  abbrev Outcome : Type 0
  Outcome =
      ((paint_rect fb r paint ≡ fb) × ¬ ((start_x <ℤ end_x) × (start_y <ℤ end_y)))
      ⊎ (((paint_rect fb r paint).memory ≡ painted_words)
          × Span fb.width start_x end_x
          × Span fb.height start_y end_y)

  -- The guard lets nothing through, or the two spans have a size.
  paint_rect-cases : IsFramebuffer fb → Outcome
  unfolding paint_rect clip start_x end_x start_y end_y
  paint_rect-cases v = elim (Bool-cases (leb_ℤ end_x start_x)) [
    | inl t ↦ inl (rw t refl, λ h. not_lt_of-leb end_x start_x t h.0)
    | inr f ↦ elim (Bool-cases (leb_ℤ end_y start_y)) [
      | inl t ↦ inl (rw (f, t) refl, λ h. not_lt_of-leb end_y start_y t h.1)
      | inr g ↦
          let sx : Span fb.width start_x end_x =
            cut_Span fb.width clip.x clip.w start_x end_x v.left v.right (at_least-ge clip.x r.x)
              (at_most-le (clip.x +ℤ clip.w) (r.x +ℤ r.w)) (lt_of-leb end_x start_x f) in
          let sy : Span fb.height start_y end_y =
            cut_Span fb.height clip.y clip.h start_y end_y v.top v.bottom (at_least-ge clip.y r.y)
              (at_most-le (clip.y +ℤ clip.h) (r.y +ℤ r.h)) (lt_of-leb end_y start_y g) in
          inr (rw (f, g) (loops v sx sy), sx, sy)
    ]
  ]
    where
      loops :
          IsFramebuffer fb
          → Span fb.width start_x end_x
          → Span fb.height start_y end_y
          → paint_rows paint fb.back_buffer
              (fb.pitch / 4)
              start_x
              (pos_part (end_x -ℤ start_x))
              (pos_part (end_y -ℤ start_y))
              start_y
              fb.memory
            ≡ runs paint fb.back_buffer
                (fb.pitch / 4)
                (pos_part (end_x -ℤ start_x))
                (pos_part (end_y -ℤ start_y))
                (pos_part start_y * (fb.pitch / 4) + pos_part start_x)
                fb.memory
      loops v sx sy =
          let fits = sx.fits in
          let low = sy.fits in
          let cols = v.columns in
          let rows = v.rows in
          ap
            (λ x.
              paint_rows paint fb.back_buffer (fb.pitch / 4) x (pos_part (end_x -ℤ start_x))
                (pos_part (end_y -ℤ start_y)) start_y fb.memory)
            sx.starts
          ∙ ap
              (λ y.
                paint_rows paint fb.back_buffer (fb.pitch / 4) (pos (pos_part start_x))
                  (pos_part (end_x -ℤ start_x)) (pos_part (end_y -ℤ start_y)) y fb.memory)
              sy.starts
          ∙ paint_rows-runs paint fb.back_buffer (fb.pitch / 4) (pos_part start_x)
              (pos_part (end_x -ℤ start_x)) (pos_part (end_y -ℤ start_y)) (pos_part start_y)
              fb.memory (omega arith)
              (le_trans
                (mul-le-mul_right {m = pos_part start_y + pos_part (end_y -ℤ start_y)}
                  {n = fb.height} (fb.pitch / 4) low)
                v.words)
              (omega arith)

  -- A point is in both rectangles just if the cut spans hold it.
  inside_both :
      (px py : ℤ)
      → (contains r px py && contains clip px py) ≡ true
      → Within start_x end_x px × Within start_y end_y py
  unfolding start_x end_x start_y end_y
  inside_both px py h =
      let i = contains→Inside r px py (and_left (contains r px py) (contains clip px py) h) in
      let k = contains→Inside clip px py (and_right (contains r px py) (contains clip px py) h) in
      (
        (Within-cut clip.x (clip.x +ℤ clip.w) r.x (r.x +ℤ r.w) px).0 (i.0, k.0),
        (Within-cut clip.y (clip.y +ℤ clip.h) r.y (r.y +ℤ r.h) py).0 (i.1, k.1),
      )

  both_inside :
      (px py : ℤ)
      → Within start_x end_x px
      → Within start_y end_y py
      → (contains r px py && contains clip px py) ≡ true
  unfolding start_x end_x start_y end_y
  both_inside px py hx hy =
      let i = (Within-cut clip.x (clip.x +ℤ clip.w) r.x (r.x +ℤ r.w) px).1 hx in
      let k = (Within-cut clip.y (clip.y +ℤ clip.h) r.y (r.y +ℤ r.h) py).1 hy in
      and_intro (contains r px py) (contains clip px py) (Inside→contains r px py (i.0, k.0))
        (Inside→contains clip px py (i.1, k.1))

  both_at :
      (px py qx qy : ℕ)
      → px ≡ qx
      → py ≡ qy
      → Within start_x end_x (pos qx)
      → Within start_y end_y (pos qy)
      → (contains r (pos px) (pos py) && contains clip (pos px) (pos py)) ≡ true
  both_at px py qx qy ex ey hx hy = rw (ex, ey) (both_inside (pos qx) (pos qy) hx hy)

  painted :
      (px py : ℕ)
      → IsFramebuffer fb
      → Within start_x end_x (pos px)
      → Within start_y end_y (pos py)
      → Outcome
      → (paint_rect fb r paint).memory (pixel_address fb px py)
        ≡ paint (fb.memory (pixel_address fb px py))
  painted px py v wx wy (inl c) =
      absurd (c.1 (Within-lt start_x end_x (pos px) wx, Within-lt start_y end_y (pos py) wy))
  painted px py v wx wy (inr (e, sx, sy)) =
      let x = sx.within px wx in
      let y = sy.within py wy in
      let cols = v.columns in
      let fits = sx.fits in
      let back : pos_part start_y + (py - pos_part start_y) ≡ py = omega arith in
      ap (λ (m : Memory). m (pixel_address fb px py)) e
      ∙ subst
          (λ k. painted_words (fb.back_buffer + 4 * k) ≡ paint (fb.memory (fb.back_buffer + 4 * k)))
          (omega (
            arith,
            add-mul (pos_part start_y) (py - pos_part start_y) (fb.pitch / 4),
            ap (λ k. k * (fb.pitch / 4)) back,
          ))
          (runs-inside paint fb.back_buffer (fb.pitch / 4) (pos_part (end_x -ℤ start_x))
            (pos_part (end_y -ℤ start_y)) (pos_part start_y * (fb.pitch / 4) + pos_part start_x)
            fb.memory (py - pos_part start_y) (px - pos_part start_x) (omega arith) (omega arith)
            (omega arith))

  kept :
      (px py : ℕ)
      → IsFramebuffer fb
      → px < fb.width
      → py < fb.height
      → (contains r (pos px) (pos py) && contains clip (pos px) (pos py)) ≡ false
      → Outcome
      → (paint_rect fb r paint).memory (pixel_address fb px py) ≡ fb.memory (pixel_address fb px py)
  kept px py v hx hy f (inl c) = ap (λ (b : Framebuffer). b.memory (pixel_address fb px py)) c.0
  kept px py v hx hy f (inr (e, sx, sy)) =
      let cols = v.columns in
      let fits = sx.fits in
      ap (λ (m : Memory). m (pixel_address fb px py)) e
      ∙ runs-outside paint fb.back_buffer (fb.pitch / 4) (pos_part (end_x -ℤ start_x))
          (pos_part (end_y -ℤ start_y)) (pos_part start_y * (fb.pitch / 4) + pos_part start_x)
          fb.memory (pixel_address fb px py)
          (λ i j il jl same.
            let u =
              row_unique (fb.pitch / 4) py px (pos_part start_y + i) (pos_part start_x + j)
                (omega arith) (omega arith)
                (omega (arith, same, add-mul (pos_part start_y) i (fb.pitch / 4))) in
            absurd_bool (
              sym f
              ∙ both_at px py (pos_part start_x + j) (pos_part start_y + i) u.1 u.0 (sx.back j jl)
                  (sy.back i il)))

  -- Nothing but pixels of the screen is written.
  pub paint_rect-outside :
      (a : ℕ)
      → IsFramebuffer fb
      → ((px py : ℕ) → px < fb.width → py < fb.height → a ≢ pixel_address fb px py)
      → (paint_rect fb r paint).memory a ≡ fb.memory a
  paint_rect-outside a v h = elim (paint_rect-cases v) [
    | inl c ↦ ap (λ (b : Framebuffer). b.memory a) c.0
    | inr (e, sx, sy) ↦
        let fits = sx.fits in
        let low = sy.fits in
        ap (λ (m : Memory). m a) e
        ∙ runs-outside paint fb.back_buffer (fb.pitch / 4) (pos_part (end_x -ℤ start_x))
            (pos_part (end_y -ℤ start_y)) (pos_part start_y * (fb.pitch / 4) + pos_part start_x)
            fb.memory a
            (λ i j il jl same.
              h (pos_part start_x + j) (pos_part start_y + i) (omega arith) (omega arith)
                (omega (arith, same, add-mul (pos_part start_y) i (fb.pitch / 4))))
  ]

  -- A pixel of the screen is painted just if it is in both rectangles.
  paint_rect-pixel :
      (px py : ℕ)
      → IsFramebuffer fb
      → px < fb.width
      → py < fb.height
      → (paint_rect fb r paint).memory (pixel_address fb px py) ≡ (
          if contains r (pos px) (pos py) && contains clip (pos px) (pos py)
          then paint (fb.memory (pixel_address fb px py))
          else fb.memory (pixel_address fb px py))
  paint_rect-pixel px py v hx hy =
      elim (Bool-cases (contains r (pos px) (pos py) && contains clip (pos px) (pos py))) [
        | inl t ↦
            let w = inside_both (pos px) (pos py) t in
            rw t (painted px py v w.0 w.1 (paint_rect-cases v))
        | inr f ↦ rw f (kept px py v hx hy f (paint_rect-cases v))
      ]

-- On a frame buffer whose clip rectangle is empty or on the screen, and whose rows fit the buffer,
-- `draw_rect` gives the colour to each pixel of the screen that is in the rectangle and in the clip
-- rectangle, and leaves every other pixel as it is.
pub draw_rect-contains :
    (fb : Framebuffer) (x y w h color px py : ℕ)
    → IsFramebuffer fb
    → px < fb.width
    → py < fb.height
    → (draw_rect fb x y w h color).memory (pixel_address fb px py) ≡ (
        if contains (int_rect x y w h) (pos px) (pos py) && contains fb.clip_rect (pos px) (pos py)
        then color
        else fb.memory (pixel_address fb px py))
unfolding draw_rect clip
draw_rect-contains fb x y w h color px py v hx hy =
    paint_rect-pixel fb (int_rect x y w h) (λ _. color) px py v hx hy

-- On a frame buffer whose clip rectangle is empty or on the screen, and whose rows fit the buffer,
-- `draw_rect_alpha` writes to no word of memory but those of pixels of the screen, whatever the
-- rectangle.
draw_rect_alpha-outside :
    (fb : Framebuffer) (x y w h color alpha a : ℕ)
    → IsFramebuffer fb
    → ((px py : ℕ) → px < fb.width → py < fb.height → a ≢ pixel_address fb px py)
    → (draw_rect_alpha fb x y w h color alpha).memory a ≡ fb.memory a
unfolding draw_rect_alpha
draw_rect_alpha-outside fb x y w h color alpha a v off =
    elim (Bool-cases (not fb.initialized || alpha == 0)) [
      | inl t ↦ rw t refl
      | inr f ↦ rw f (
          paint_rect-outside fb (int_rect x y w h)
            (λ bg. if alpha == 255 then color else blend color alpha bg) a v off)
    ]

guarded-memory :
    (fb : Framebuffer) (m : Memory) (b : Bool)
    → (if b then fb else record fb { memory = m })
      ≡ record fb { memory = (if b then fb else record fb { memory = m }).memory }
guarded-memory fb m true = refl
guarded-memory fb m false = refl

paint_rect-memory :
    (fb : Framebuffer) (r : Rect) (paint : ℕ → ℕ)
    → paint_rect fb r paint ≡ record fb { memory = (paint_rect fb r paint).memory }
unfolding paint_rect clip start_x end_x start_y end_y
paint_rect-memory fb r paint =
    guarded-memory fb
      (paint_rows paint fb.back_buffer (fb.pitch / 4) (start_x fb r paint)
        (pos_part (end_x fb r paint -ℤ start_x fb r paint))
        (pos_part (end_y fb r paint -ℤ start_y fb r paint)) (start_y fb r paint) fb.memory)
      (leb_ℤ (end_x fb r paint) (start_x fb r paint)
        || leb_ℤ (end_y fb r paint) (start_y fb r paint))

-- Drawing changes memory alone.
pub draw_rect-memory :
    (fb : Framebuffer) (x y w h color : ℕ)
    → draw_rect fb x y w h color ≡ record fb { memory = (draw_rect fb x y w h color).memory }
unfolding draw_rect
draw_rect-memory fb x y w h color = paint_rect-memory fb (int_rect x y w h) (λ _. color)

pub draw_rect-outside :
    (fb : Framebuffer) (x y w h color a : ℕ)
    → IsFramebuffer fb
    → ((px py : ℕ) → px < fb.width → py < fb.height → a ≢ pixel_address fb px py)
    → (draw_rect fb x y w h color).memory a ≡ fb.memory a
unfolding draw_rect
draw_rect-outside fb x y w h color a v off =
    paint_rect-outside fb (int_rect x y w h) (λ _. color) a v off
