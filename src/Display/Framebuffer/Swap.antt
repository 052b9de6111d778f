-- ===== src/Display/Framebuffer/Swap.antt =====
-- The two pages of video memory of drivers/framebuffer.cpp: `swap_buffers`, `swap_dirty_rect` and
-- `swap_dirty_rects`. A page is `height * pitch` bytes, page 0 at `virtual_base`; `memcpy` copies words.
pub mod Copies
pub mod Rects
pub mod Sync
use amazing_os.Base.{
  ℕ, zero, suc, ◌+◌, ◌*◌, ◌/◌, ◌%◌, ◌^◌, Bool, ◌||◌, not, ◌==◌, if◌then◌else◌, List, [], ◌∷◌, ℤ,
  pos, ◌+ℤ◌, ◌-ℤ◌, leb_ℤ, pos_part, to_int,
}
use amazing_os.Base.Memory.{Memory, poke}
use amazing_os.Display.{Rect}
use amazing_os.Display.Framebuffer.{Framebuffer, at_least, at_most}

pub copy_words : (n dest src : ℕ) → Memory → Memory
copy_words zero dest src m = m
copy_words (suc n) dest src m = copy_words n (dest + 4) (src + 4) (poke m dest (m src))

-- `current_page ^ 1`; the page is 0 or 1.
abbrev pub other_page : ℕ → ℕ
other_page page = if page == 0 then 1 else 0

abbrev pub page_base : Framebuffer → ℕ → ℕ
page_base fb page = fb.virtual_base + page * (fb.height * fb.pitch)

-- `bga_write(9, back_page * height)`, and the page that is shown from then on.
abbrev pub flip : Framebuffer → Memory → Framebuffer
flip fb m = record fb {
  memory = m;
  y_offset = (other_page fb.current_page * fb.height) % 2 ^ 16;
  current_page = other_page fb.current_page;
}

pub swap_buffers : Framebuffer → Framebuffer
swap_buffers fb =
    let total_words = (fb.height * fb.pitch) / 4 in
    let m1 =
      copy_words total_words (page_base fb (other_page fb.current_page)) fb.back_buffer fb.memory in
    if not fb.initialized
    then fb
    else flip fb (copy_words total_words (page_base fb fb.current_page) fb.back_buffer m1)

-- `for (cy = …; cy < end_y; ++cy)`, with `left` lines to go.
pub copy_lines :
    (dest src pitch_words : ℕ) (start_x : ℤ) (columns : ℕ) → (left : ℕ) → (cy : ℤ) → Memory → Memory
copy_lines dest src pitch_words start_x columns zero cy m = m
copy_lines dest src pitch_words start_x columns (suc left) cy m =
    let offset = pos_part cy * pitch_words + pos_part start_x in
    copy_lines dest src pitch_words start_x columns left (cy +ℤ pos 1)
      (copy_words columns (dest + 4 * offset) (src + 4 * offset) m)

abbrev pub start_of : ℤ → ℤ
start_of x = at_least (pos 0) x

abbrev pub end_of : ℕ → ℤ → ℤ → ℤ
end_of lim x w = at_most (to_int lim) (x +ℤ w)

abbrev pub is_off : Framebuffer → Rect → Bool
is_off fb r =
    leb_ℤ (end_of fb.width r.x r.w) (start_of r.x)
    || leb_ℤ (end_of fb.height r.y r.h) (start_of r.y)

-- A rectangle, cut to the screen, goes from the back buffer to the page at `dest`.
pub copy_rect : Framebuffer → (dest : ℕ) → Rect → Memory → Memory
copy_rect fb dest r m =
    if is_off fb r
    then m
    else copy_lines dest fb.back_buffer (fb.pitch / 4) (start_of r.x)
        (pos_part (end_of fb.width r.x r.w -ℤ start_of r.x))
        (pos_part (end_of fb.height r.y r.h -ℤ start_of r.y)) (start_of r.y) m

pub copy_rects : Framebuffer → (dest : ℕ) → List Rect → Memory → Memory
copy_rects fb dest [] m = m
copy_rects fb dest (r ∷ rects) m = copy_rects fb dest rects (copy_rect fb dest r m)

-- Both pages get the rectangles, the hidden one before the flip.
abbrev pub swap_rects : Framebuffer → List Rect → Framebuffer
swap_rects fb rects = flip fb (
    copy_rects fb (page_base fb fb.current_page) rects
      (copy_rects fb (page_base fb (other_page fb.current_page)) rects fb.memory))

pub swap_dirty_rect : Framebuffer → Rect → Framebuffer
swap_dirty_rect fb r = if not fb.initialized || is_off fb r then fb else swap_rects fb (r ∷ [])

pub swap_dirty_rects : Framebuffer → List Rect → Framebuffer
swap_dirty_rects fb [] = fb
swap_dirty_rects fb (r ∷ rects) = if not fb.initialized then fb else swap_rects fb (r ∷ rects)
