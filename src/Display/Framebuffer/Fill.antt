-- ===== src/Display/Framebuffer/Fill.antt =====
-- The rectangles of drivers/framebuffer.cpp, plain and blended, with the clear of the whole buffer.
pub mod Cells
pub mod Spans
pub mod Rects
use amazing_os.Base.{
  ℕ, zero, suc, ◌+◌, ◌-◌, ◌*◌, ◌/◌, ◌%◌, ◌^◌, Bool, true, false, ◌||◌, not, if◌then◌else◌, ltb, leb,
  ◌==◌, ℤ, pos, ◌+ℤ◌, ◌-ℤ◌, ltb_ℤ, leb_ℤ, pos_part, to_u32, to_int, bit_and, bit_or,
}
use amazing_os.Base.Memory.{Memory, poke}
use amazing_os.Display.{Rect}
use amazing_os.Display.Framebuffer.{Framebuffer, at_least, at_most}

-- `back_buffer[i] = paint(back_buffer[i])`.
abbrev pub paint_word : (ℕ → ℕ) → (base i : ℕ) → Memory → Memory
paint_word paint base i m = poke m (base + 4 * i) (paint (m (base + 4 * i)))

-- `for (cx = …; cx < end_x; ++cx)`, with `left` steps to go.
pub paint_row : (paint : ℕ → ℕ) (base line_offset : ℕ) → (left : ℕ) → (cx : ℤ) → Memory → Memory
paint_row paint base line_offset zero cx m = m
paint_row paint base line_offset (suc left) cx m =
    paint_row paint base line_offset left (cx +ℤ pos 1)
      (paint_word paint base ((line_offset + to_u32 cx) % 2 ^ 32) m)

-- `for (cy = …; cy < end_y; ++cy)`, with `left` rows to go.
pub paint_rows :
    (paint : ℕ → ℕ) (base pitch_words : ℕ) (start_x : ℤ) (columns : ℕ)
    → (left : ℕ) → (cy : ℤ) → Memory
    → Memory
paint_rows paint base pitch_words start_x columns zero cy m = m
paint_rows paint base pitch_words start_x columns (suc left) cy m =
    paint_rows paint base pitch_words start_x columns left (cy +ℤ pos 1)
      (paint_row paint base ((to_u32 cy * pitch_words) % 2 ^ 32) columns start_x m)

-- What `draw_rect` and `draw_rect_alpha` share: the rectangle is cut to the clip rectangle.
pub paint_rect : Framebuffer → Rect → (ℕ → ℕ) → Framebuffer
paint_rect fb r paint =
    let clip = fb.clip_rect in
    let start_x = at_least clip.x r.x in
    let start_y = at_least clip.y r.y in
    let end_x = at_most (clip.x +ℤ clip.w) (r.x +ℤ r.w) in
    let end_y = at_most (clip.y +ℤ clip.h) (r.y +ℤ r.h) in
    if leb_ℤ end_x start_x || leb_ℤ end_y start_y then fb else record fb {
      memory =
          paint_rows paint fb.back_buffer (fb.pitch / 4) start_x (pos_part (end_x -ℤ start_x))
            (pos_part (end_y -ℤ start_y)) start_y fb.memory;
    }

-- `(int)x` and the others.
abbrev pub int_rect : (x y w h : ℕ) → Rect
int_rect x y w h = record { x = to_int x; y = to_int y; w = to_int w; h = to_int h }

pub draw_rect : Framebuffer → (x y w h color : ℕ) → Framebuffer
draw_rect fb x y w h color = paint_rect fb (int_rect x y w h) (λ _. color)

-- The sum of two colours in the parts `alpha` and `255 - alpha` of 256.
pub blend : (color alpha bg : ℕ) → ℕ
blend color alpha bg =
    let src_rb = (bit_and color 0xFF00FF * alpha) % 2 ^ 32 in
    let src_g = (bit_and color 0x00FF00 * alpha) % 2 ^ 32 in
    let inv = 255 - alpha in
    let rb = (src_rb + bit_and bg 0xFF00FF * inv) % 2 ^ 32 / 2 ^ 8 in
    let g = (src_g + bit_and bg 0x00FF00 * inv) % 2 ^ 32 / 2 ^ 8 in
    bit_or (bit_and rb 0xFF00FF) (bit_and g 0x00FF00)

pub draw_rect_alpha : Framebuffer → (x y w h color alpha : ℕ) → Framebuffer
draw_rect_alpha fb x y w h color alpha =
    if not fb.initialized || alpha == 0
    then fb
    else paint_rect fb (int_rect x y w h)
        (λ bg. if alpha == 255 then color else blend color alpha bg)

-- `for (i = 0; i < size_words; ++i) back_buffer[i] = color;`
clear_loop : (left : ℕ) → (i base color : ℕ) → Memory → Memory
clear_loop zero i base color m = m
clear_loop (suc left) i base color m =
    clear_loop left (i + 1) base color (poke m (base + 4 * i) color)

pub clear : Framebuffer → (color : ℕ) → Framebuffer
clear fb color = if not fb.initialized then fb else record fb {
  memory = clear_loop ((fb.height * fb.pitch) / 4) 0 fb.back_buffer color fb.memory;
}
