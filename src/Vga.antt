-- ===== src/Vga.antt =====
-- Kernel/CrecentKernel/src/drivers/vga.cpp: the text screen. `buffer` has the 16-bit cells from address
-- 0xB8000 on, and `hardware_cursor` is the position that the ports got last. A `char` is a signed byte.
pub mod Scroll
mod Tests
use amazing_os.Base.{
  ℕ, zero, suc, ◌+◌, ◌-◌, ◌*◌, ◌/◌, ◌%◌, ◌^◌, Bool, Option, none, some, List, [], ◌∷◌, ◌==◌, ltb,
  leb, if◌then◌else◌, bit_or,
}
use amazing_os.Base.Memory.{Memory, poke}
use amazing_os.Fs.CString.{CString}

pub record Vga : Type 0 where
  pub cursor_x : ℕ
  pub cursor_y : ℕ
  pub current_color_attr : ℕ
  pub buffer : Memory
  pub hardware_cursor : ℕ

abbrev pub rows : ℕ
rows = 25

abbrev pub cols : ℕ
cols = 80

-- `(uint8_t)fg | ((uint8_t)bg << 4)`, as a byte.
abbrev pub color_attr : (fg bg : ℕ) → ℕ
color_attr fg bg = bit_or fg (bg * 2 ^ 4) % 2 ^ 8

-- `(uint16_t)(c | (attr << 8))`; a negative `char` fills the upper byte with ones.
abbrev pub cell : (c attr : ℕ) → ℕ
cell c attr = bit_or (if ltb c 128 then c else c + 0xFF00) (attr * 2 ^ 8) % 2 ^ 16

abbrev pub space : ℕ
space = 32

pub update_cursor : Vga → Vga
update_cursor s = record s { hardware_cursor = (s.cursor_y * cols + s.cursor_x) % 2 ^ 16 }

-- `for (i = …; i < end; ++i) buffer[i] = blank;`, with `left` cells to go.
pub fill_cells : (left i blank : ℕ) → Memory → Memory
fill_cells zero i blank m = m
fill_cells (suc left) i blank m = fill_cells left (i + 1) blank (poke m i blank)

pub clear : (bg : ℕ) → Vga → Vga
clear bg s = update_cursor (record s {
  buffer = fill_cells (rows * cols) 0 (cell space (color_attr 7 bg)) s.buffer;
  cursor_x = 0;
  cursor_y = 0;
})

pub set_color : (fg bg : ℕ) → Vga → Vga
set_color fg bg s = record s { current_color_attr = color_attr fg bg }

pub init : Vga → Vga
init s = clear 0 (record s { current_color_attr = color_attr 7 0 })

-- The columns `x` and on of row `y` go to the row above.
pub copy_row : (left x y : ℕ) → Memory → Memory
copy_row zero x y m = m
copy_row (suc left) x y m = copy_row left (x + 1) y (poke m ((y - 1) * cols + x) (m (y * cols + x)))

pub copy_rows : (left y : ℕ) → Memory → Memory
copy_rows zero y m = m
copy_rows (suc left) y m = copy_rows left (y + 1) (copy_row cols 0 y m)

pub scroll : Vga → Vga
scroll s = record s {
  buffer =
      fill_cells cols ((rows - 1) * cols) (cell space s.current_color_attr)
        (copy_rows (rows - 1) 1 s.buffer);
  cursor_y = rows - 1;
}

abbrev pub put_cell : (c : ℕ) → Vga → Vga
put_cell c s = record s {
  buffer = poke s.buffer (s.cursor_y * cols + s.cursor_x) (cell c s.current_color_attr);
}

-- `'\b'` steps back, to the end of the row above at the start of a row.
pub step_back : Vga → Vga
step_back s =
    if ltb 0 s.cursor_x
    then record s { cursor_x = s.cursor_x - 1 }
    else if ltb 0 s.cursor_y
    then record s { cursor_y = s.cursor_y - 1; cursor_x = cols - 1 }
    else s

-- What a character does before the wrap at the end of a row.
pub put_char : (c : ℕ) → Vga → Vga
put_char c s =
    if c == 10
    then record s { cursor_x = 0; cursor_y = s.cursor_y + 1 }
    else if c == 13
    then record s { cursor_x = 0 }
    else if c == 9
    then record s { cursor_x = (s.cursor_x + 8) / 8 * 8 }
    else if c == 8
    then put_cell space (step_back s)
    else let written = put_cell c s in record written { cursor_x = s.cursor_x + 1 }

pub wrap : Vga → Vga
wrap s = if leb cols s.cursor_x then record s { cursor_x = 0; cursor_y = s.cursor_y + 1 } else s

pub putc : (c : ℕ) → Vga → Vga
putc c s =
    let s1 = wrap (put_char c s) in update_cursor (if leb rows s1.cursor_y then scroll s1 else s1)

pub print_chars : CString → Vga → Vga
print_chars [] s = s
print_chars (c ∷ str) s = print_chars str (putc c s)

pub print : Option CString → Vga → Vga
print none s = s
print (some str) s = print_chars str s

pub println : Option CString → Vga → Vga
println str s = putc 10 (print str s)
