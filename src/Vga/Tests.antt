-- ===== src/Vga/Tests.antt =====
-- A line that ends on the last row.
use amazing_os.Base.{◌≡◌, [], ◌∷◌, arith}
use amazing_os.Vga.{Vga, print_chars}
use amazing_os.Vga.Scroll.{IsVga, print_chars-IsVga}

abbrev last_row : Vga
last_row = record {
  cursor_x = 78;
  cursor_y = 24;
  current_color_attr = 7;
  buffer = λ a. 0;
  hardware_cursor = 0;
}

print_chars-IsVga_example :
    IsVga (print_chars (72 ∷ 105 ∷ 33 ∷ 10 ∷ []) last_row)
    × ((print_chars (72 ∷ 105 ∷ 33 ∷ 10 ∷ []) last_row).buffer 2000 ≡ 0)
print_chars-IsVga_example =
    print_chars-IsVga (72 ∷ 105 ∷ 33 ∷ 10 ∷ []) last_row 2000
      (record { column = omega arith; row = omega arith }) (omega arith)
