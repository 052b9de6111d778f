-- ===== src/Display/Framebuffer.antt =====
-- class Framebuffer of drivers/framebuffer.cpp: its static state, the clip rectangle, single pixels,
-- and the redirection of drawing to another buffer. Memory has 32-bit words at their addresses.
pub mod Fill
pub mod Clip
pub mod Lines
pub mod Swap
mod Tests
use amazing_os.Base.{
  ℕ, ◌+◌, ◌-◌, ◌*◌, ◌/◌, ◌%◌, ◌^◌, Bool, true, false, ◌||◌, not, if◌then◌else◌, ltb, leb, ◌==◌, ℤ,
  pos, ◌+ℤ◌, ◌-ℤ◌, ltb_ℤ, to_u32, to_int,
}
use amazing_os.Base.Memory.{Memory, poke}
use amazing_os.Display.{Rect}

pub record Framebuffer : Type 0 where
  pub memory : Memory
  pub virtual_base : ℕ
  pub back_buffer : ℕ
  pub width : ℕ
  pub height : ℕ
  pub pitch : ℕ
  pub initialized : Bool
  pub clip_rect : Rect
  pub current_page : ℕ
  -- the register of the display that `bga_write(9, …)` sets
  pub y_offset : ℕ
  pub saved_back_buffer : ℕ
  pub saved_width : ℕ
  pub saved_height : ℕ
  pub saved_pitch : ℕ
  pub saved_clip_rect : Rect
  pub is_redirected : Bool

-- `{0, 0, (int)width, (int)height}`.
abbrev pub whole : ℕ → ℕ → Rect
whole width height = record { x = pos 0; y = pos 0; w = to_int width; h = to_int height }

-- `if (z < bound) z = bound;` and `if (z > bound) z = bound;`.
abbrev pub at_least : ℤ → ℤ → ℤ
at_least bound z = if ltb_ℤ z bound then bound else z

abbrev pub at_most : ℤ → ℤ → ℤ
at_most bound z = if ltb_ℤ bound z then bound else z

pub set_clip_rect : Framebuffer → Rect → Framebuffer
set_clip_rect fb r =
    let x1 = at_least (pos 0) r.x in
    let y1 = at_least (pos 0) r.y in
    let x2 = at_least x1 (at_most (to_int fb.width) (r.x +ℤ r.w)) in
    let y2 = at_least y1 (at_most (to_int fb.height) (r.y +ℤ r.h)) in
    record fb { clip_rect = record { x = x1; y = y1; w = x2 -ℤ x1; h = y2 -ℤ y1 } }

pub clear_clip_rect : Framebuffer → Framebuffer
clear_clip_rect fb = record fb { clip_rect = whole fb.width fb.height }

-- The index `y * (pitch / 4) + x`, of 32 bits.
abbrev pub word_index : Framebuffer → ℕ → ℕ → ℕ
word_index fb x y = (y * (fb.pitch / 4) + x) % 2 ^ 32

-- `back_buffer[i]`, and a write to it.
abbrev pub load : Framebuffer → ℕ → ℕ
load fb i = fb.memory (fb.back_buffer + 4 * i)

abbrev pub store : Framebuffer → ℕ → ℕ → Framebuffer
store fb i v = record fb { memory = poke fb.memory (fb.back_buffer + 4 * i) v }

-- The clip test of `draw_pixel` and `get_pixel`, on unsigned numbers.
abbrev pub clipped : Framebuffer → ℕ → ℕ → Bool
clipped fb x y =
    let r = fb.clip_rect in
    ltb x (to_u32 r.x)
    || leb (to_u32 (r.x +ℤ r.w)) x
    || ltb y (to_u32 r.y)
    || leb (to_u32 (r.y +ℤ r.h)) y

pub draw_pixel : Framebuffer → (x y color : ℕ) → Framebuffer
draw_pixel fb x y color = if clipped fb x y then fb else store fb (word_index fb x y) color

pub get_pixel : Framebuffer → (x y : ℕ) → ℕ
get_pixel fb x y = if not fb.initialized || clipped fb x y then 0 else load fb (word_index fb x y)

pub get_pixel_unclipped : Framebuffer → (x y : ℕ) → ℕ
get_pixel_unclipped fb x y =
    if not fb.initialized || leb fb.width x || leb fb.height y
    then 0
    else load fb (word_index fb x y)

pub draw_pixel_physical : Framebuffer → (x y color : ℕ) → Framebuffer
draw_pixel_physical fb x y color =
    if not fb.initialized || leb fb.width x || leb fb.height y
    then fb
    else record fb { memory = poke fb.memory (fb.virtual_base + 4 * word_index fb x y) color }

pub redirect_drawing : Framebuffer → (temp_buf temp_w temp_h temp_pitch : ℕ) → Framebuffer
redirect_drawing fb temp_buf temp_w temp_h temp_pitch =
    if fb.is_redirected || temp_buf == 0 then fb else record fb {
      saved_back_buffer = fb.back_buffer;
      saved_width = fb.width;
      saved_height = fb.height;
      saved_pitch = fb.pitch;
      saved_clip_rect = fb.clip_rect;
      back_buffer = temp_buf;
      width = temp_w;
      height = temp_h;
      pitch = temp_pitch;
      clip_rect = whole temp_w temp_h;
      is_redirected = true;
    }

pub restore_drawing : Framebuffer → Framebuffer
restore_drawing fb = if not fb.is_redirected then fb else record fb {
  back_buffer = fb.saved_back_buffer;
  width = fb.saved_width;
  height = fb.saved_height;
  pitch = fb.saved_pitch;
  clip_rect = fb.saved_clip_rect;
  is_redirected = false;
}

pub get_active_vram_buffer : Framebuffer → ℕ
get_active_vram_buffer fb =
    if not fb.initialized || fb.virtual_base == 0
    then 0
    else fb.virtual_base + fb.current_page * (fb.height * fb.pitch)
