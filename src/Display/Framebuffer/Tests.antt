-- ===== src/Display/Framebuffer/Tests.antt =====
-- A frame buffer of four columns and four rows.
use amazing_os.Base.{
  ℕ, [], ◌∷◌, ◌+◌, ◌*◌, ◌/◌, ◌≡◌, ◌&&◌, refl, some, true, false, arith, if◌then◌else◌, inl, inr,
  pos, to_u32, abs, ◌+ℤ◌, ◌-ℤ◌,
}
use amazing_os.Display.{Rect, contains}
use amazing_os.Display.Framebuffer.{
  Framebuffer, whole, draw_pixel, redirect_drawing, restore_drawing,
}
use amazing_os.Display.Framebuffer.Fill.{int_rect, draw_rect}
use amazing_os.Display.Framebuffer.Fill.Spans.{IsFramebuffer, pixel_address}
use amazing_os.Display.Framebuffer.Fill.Rects.{draw_rect-contains}
use amazing_os.Display.Framebuffer.Clip.{restore_drawing-redirect_drawing}
use amazing_os.Display.Dirty.Cover.{covered}
use amazing_os.Display.Framebuffer.Swap.{page_base, swap_dirty_rects}
use amazing_os.Display.Framebuffer.Swap.Rects.{IsPaged}
use amazing_os.Display.Framebuffer.Swap.Sync.{swap_dirty_rects-covered}
use amazing_os.Display.Framebuffer.Lines.{draw_line, draw_line-ends}

abbrev square : ℕ → ℕ → Rect
square at size = record { x = pos at; y = pos at; w = pos size; h = pos size }

abbrev screen : Framebuffer
screen = record {
  memory = λ a. 0;
  virtual_base = 0x10000;
  back_buffer = 0x1000;
  width = 4;
  height = 4;
  pitch = 16;
  initialized = true;
  clip_rect = whole 4 4;
  current_page = 0;
  y_offset = 0;
  saved_back_buffer = 0;
  saved_width = 0;
  saved_height = 0;
  saved_pitch = 0;
  saved_clip_rect = whole 0 0;
  is_redirected = false;
}

screen-IsFramebuffer : IsFramebuffer screen
unfolding ◌+ℤ◌
screen-IsFramebuffer = record {
  left = omega arith;
  top = omega arith;
  right = inr (omega arith);
  bottom = inr (omega arith);
  columns = omega arith;
  words = omega arith;
  rows = omega arith;
}

draw_rect-contains_example : (draw_rect screen 1 1 2 2 7).memory (pixel_address screen 2 1) ≡ (
    if contains (int_rect 1 1 2 2) (pos 2) (pos 1) && contains screen.clip_rect (pos 2) (pos 1)
    then 7
    else screen.memory (pixel_address screen 2 1))
draw_rect-contains_example =
    draw_rect-contains screen 1 1 2 2 7 2 1 screen-IsFramebuffer (omega arith) (omega arith)

abbrev drawn_aside : Framebuffer
drawn_aside = restore_drawing (draw_rect (redirect_drawing screen 0x8000 2 2 8) 0 0 9 9 7)

restore_drawing-redirect_drawing_example :
    (drawn_aside.memory 0x1000 ≡ 0)
    × (drawn_aside.back_buffer ≡ 0x1000)
    × (drawn_aside.width ≡ 4)
    × (drawn_aside.height ≡ 4)
    × (drawn_aside.pitch ≡ 16)
    × (drawn_aside.clip_rect ≡ whole 4 4)
    × (drawn_aside.is_redirected ≡ false)
restore_drawing-redirect_drawing_example =
    restore_drawing-redirect_drawing screen 0x8000 2 2 8 0 0 9 9 7 0x1000 refl
      (λ e. absurd (omega (arith, e))) (omega arith) (omega arith) (omega arith) (omega arith)
      (inl (omega arith))

draw_line-ends_example :
    (before : Framebuffer) × (draw_line 6 screen (pos 0) (pos 0) (pos 3) (pos 1) 9
      ≡ some (draw_pixel before (to_u32 (pos 3)) (to_u32 (pos 1)) 9))
unfolding abs ◌-ℤ◌
draw_line-ends_example = draw_line-ends 6 screen (pos 0) (pos 0) (pos 3) (pos 1) 9 (omega arith)

-- Each word of memory has its address.
abbrev two_pages : Framebuffer
two_pages = record screen { memory = λ a. a }

two_pages-IsPaged : IsPaged two_pages
two_pages-IsPaged = record {
  ready = refl;
  columns = omega arith;
  narrow = omega arith;
  low = omega arith;
  words = refl;
  page = omega arith;
  apart = inr (omega arith);
}

swap_dirty_rects-covered_example :
    (swap_dirty_rects two_pages (square 3 1 ∷ square 1 2 ∷ [])).memory
      (page_base two_pages 1 + 4 * (1 * (two_pages.pitch / 4) + 2))
    ≡ (if covered (square 3 1 ∷ square 1 2 ∷ []) (pos 2) (pos 1)
        then two_pages.memory (pixel_address two_pages 2 1)
        else two_pages.memory (page_base two_pages 1 + 4 * (1 * (two_pages.pitch / 4) + 2)))
swap_dirty_rects-covered_example =
    swap_dirty_rects-covered two_pages (square 3 1 ∷ square 1 2 ∷ []) 1 2 1 two_pages-IsPaged
      (omega arith) (omega arith) (omega arith)
