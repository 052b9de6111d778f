-- ===== src/Vga/Scroll.antt =====
-- What drivers/vga.cpp keeps: the cursor on the screen, and all memory outside of it; and what a scroll
-- makes of the rows.
use amazing_os.Base.{
  ℕ, zero, suc, ◌+◌, ◌-◌, ◌*◌, ◌≤◌, ◌<◌, ◌≡◌, refl, ap, ◌∙◌, Bool, true, false, [], ◌∷◌, arith,
  ◌==◌, ltb, leb, if◌then◌else◌, Bool-cases, ◌⊎◌, inl, inr, ◌&&◌,
}
use amazing_os.Base.Memory.{Memory, poke}
use amazing_os.Fs.CString.{CString}
use amazing_os.Vga.{
  Vga, cols, cell, space, update_cursor, fill_cells, copy_row, copy_rows, scroll, put_cell,
  step_back, put_char, wrap, putc, print_chars,
}

fill_cells-lem :
    (left i blank : ℕ) (m : Memory) (a : ℕ)
    → fill_cells left i blank m a ≡ (if leb i a && ltb a (i + left) then blank else m a)
unfolding fill_cells
fill_cells-lem zero i blank m a = ground arith
fill_cells-lem (suc left) i blank m a =
    fill_cells-lem left (i + 1) blank (poke m i blank) a ∙ ground arith

copy_row-lem :
    (left x y : ℕ) (m : Memory) (a : ℕ)
    → 1 ≤ y
    → x + left ≤ 80
    → copy_row left x y m a
      ≡ (if leb ((y - 1) * 80 + x) a && ltb a ((y - 1) * 80 + x + left) then m (a + 80) else m a)
unfolding copy_row
copy_row-lem zero x y m a h k = ground arith
copy_row-lem (suc left) x y m a h k =
    copy_row-lem left (x + 1) y (poke m ((y - 1) * 80 + x) (m (y * 80 + x))) a h (omega arith)
    ∙ one (y * 80) ((y - 1) * 80) (omega arith)
  where
    one :
        (p q : ℕ)
        → p ≡ q + 80
        → (if leb (q + (x + 1)) a && ltb a (q + (x + 1) + left)
            then poke m (q + x) (m (p + x)) (a + 80)
            else poke m (q + x) (m (p + x)) a)
          ≡ (if leb (q + x) a && ltb a (q + x + suc left) then m (a + 80) else m a)
    one p q e = elim (Bool-cases (a == q + x)) [
      | inl t ↦ let at : p + x ≡ a + 80 = ground arith in ground (arith, ap m at)
      | inr f ↦ ground arith
    ]

copy_rows-lem :
    (left y : ℕ) (m : Memory) (a : ℕ)
    → 1 ≤ y
    → copy_rows left y m a
      ≡ (if leb ((y - 1) * 80) a && ltb a ((y - 1 + left) * 80) then m (a + 80) else m a)
unfolding copy_rows
copy_rows-lem zero y m a h = ground arith
copy_rows-lem (suc left) y m a h =
    copy_rows-lem left (y + 1) (copy_row cols 0 y m) a (omega arith)
    ∙ both (copy_row cols 0 y m) (copy_row-lem 80 0 y m (a + 80) h (omega arith))
        (copy_row-lem 80 0 y m a h (omega arith))
  where
    both :
        (r : Memory)
        → r (a + 80) ≡ (
            if leb ((y - 1) * 80 + 0) (a + 80) && ltb (a + 80) ((y - 1) * 80 + 0 + 80)
            then m (a + 80 + 80)
            else m (a + 80))
        → r a
          ≡ (if leb ((y - 1) * 80 + 0) a && ltb a ((y - 1) * 80 + 0 + 80) then m (a + 80) else m a)
        → (if leb ((y + 1 - 1) * 80) a && ltb a ((y + 1 - 1 + left) * 80) then r (a + 80) else r a)
          ≡ (if leb ((y - 1) * 80) a && ltb a ((y - 1 + suc left) * 80) then m (a + 80) else m a)
    both r e k = ground arith

-- The cursor is on the screen.
pub record IsVga (s : Vga) : Type 0 where
  pub column : s.cursor_x < 80
  pub row : s.cursor_y < 25

-- A scroll moves each row up by one, and leaves the last row blank.
scroll-buffer :
    (s : Vga) (a : ℕ)
    → (scroll s).buffer a ≡ (
        if ltb a 1920
        then s.buffer (a + 80)
        else if ltb a 2000
        then cell space s.current_color_attr
        else s.buffer a)
unfolding scroll
scroll-buffer s a =
    fill_cells-lem 80 1920 (cell space s.current_color_attr) (copy_rows 24 1 s.buffer) a
    ∙ shifted (copy_rows 24 1 s.buffer a) (copy_rows-lem 24 1 s.buffer a (omega arith))
  where
    shifted :
        (r : ℕ)
        → r ≡ (
            if leb ((1 - 1) * 80) a && ltb a ((1 - 1 + 24) * 80)
            then s.buffer (a + 80)
            else s.buffer a)
        → (if leb 1920 a && ltb a (1920 + 80) then cell space s.current_color_attr else r) ≡ (
            if ltb a 1920
            then s.buffer (a + 80)
            else if ltb a 2000
            then cell space s.current_color_attr
            else s.buffer a)
    shifted r e = ground arith

-- Between the character and the wraps the cursor may be one column or one row beyond the screen; the
-- screen alone was written.
record Near (s t : Vga) : Type 0 where
  column : t.cursor_x ≤ 80
  row : t.cursor_y ≤ 25
  corner : (t.cursor_x < 80) ⊎ (t.cursor_y < 25)
  outside : (a : ℕ) → 2000 ≤ a → t.buffer a ≡ s.buffer a

Near-if : (s t u : Vga) (b : Bool) → Near s t → Near s u → Near s (if b then t else u)
Near-if s t u true h k = h
Near-if s t u false h k = k

put_cell-Near :
    (s t : Vga) (c : ℕ)
    → t.cursor_x < 80
    → t.cursor_y < 25
    → ((a : ℕ) → t.buffer a ≡ s.buffer a)
    → (a : ℕ) → 2000 ≤ a
    → (put_cell c t).buffer a ≡ s.buffer a
put_cell-Near s t c hx hy same a h = ground (arith, same a)

step_back-IsVga : (s : Vga) → IsVga s → IsVga (step_back s)
unfolding step_back
step_back-IsVga s v =
    let column = v.column in
    let row = v.row in
    elim (Bool-cases (ltb 0 s.cursor_x)) [
      | inl t ↦ rw t (record { column = omega arith; row = omega arith })
      | inr f ↦ elim (Bool-cases (ltb 0 s.cursor_y)) [
        | inl t ↦ rw (f, t) (record { column = omega arith; row = omega arith })
        | inr g ↦ rw (f, g) v
      ]
    ]

step_back-buffer : (s : Vga) (a : ℕ) → (step_back s).buffer a ≡ s.buffer a
unfolding step_back
step_back-buffer s a = elim (Bool-cases (ltb 0 s.cursor_x)) [
  | inl t ↦ rw (step_back, t) refl
  | inr f ↦ elim (Bool-cases (ltb 0 s.cursor_y)) [
    | inl t ↦ rw (step_back, f, t) refl
    | inr g ↦ rw (step_back, f, g) refl
  ]
]

put_char-Near : (c : ℕ) (s : Vga) → IsVga s → Near s (put_char c s)
unfolding put_char
put_char-Near c s v =
    let column = v.column in
    let row = v.row in
    let back = step_back-IsVga s v in
    let back_column = back.column in
    let back_row = back.row in
    Near-if s _ _ (c == 10)
      (record {
        column = omega arith;
        row = omega arith;
        corner = inl (omega arith);
        outside = λ a h. refl;
      })
      (Near-if s _ _ (c == 13)
        (record {
          column = omega arith;
          row = omega arith;
          corner = inl (omega arith);
          outside = λ a h. refl;
        })
        (Near-if s _ _ (c == 9)
          (record {
            column = omega arith;
            row = omega arith;
            corner = inr row;
            outside = λ a h. refl;
          })
          (Near-if s _ _ (c == 8)
            (record {
              column = omega arith;
              row = omega arith;
              corner = inl back_column;
              outside =
                  put_cell-Near s (step_back s) space back_column back_row (step_back-buffer s);
            })
            (record {
              column = omega arith;
              row = omega arith;
              corner = inr row;
              outside = put_cell-Near s s c column row (λ a. refl);
            }))))

wrap-Near : (s t : Vga) → Near s t → Near s (wrap t) × ((wrap t).cursor_x < 80)
unfolding wrap
wrap-Near s t n =
    let column = n.column in
    let row = n.row in
    let corner = n.corner in
    elim (Bool-cases (leb 80 t.cursor_x)) [
      | inl e ↦ rw e (
        record {
          column = omega arith;
          row = ground (arith, corner);
          corner = inl (omega arith);
          outside = n.outside;
        },
        omega arith,
      )
      | inr f ↦ rw f (n, ground arith)
    ]

putc-IsVga :
    (c : ℕ) (s : Vga) (a : ℕ)
    → IsVga s
    → 2000 ≤ a
    → IsVga (putc c s) × ((putc c s).buffer a ≡ s.buffer a)
unfolding putc update_cursor scroll
putc-IsVga c s a v h = last (wrap (put_char c s)) (wrap-Near s (put_char c s) (put_char-Near c s v))
  where
    last :
        (t : Vga)
        → Near s t × (t.cursor_x < 80)
        → IsVga (update_cursor (if leb 25 t.cursor_y then scroll t else t))
          × ((update_cursor (if leb 25 t.cursor_y then scroll t else t)).buffer a ≡ s.buffer a)
    last t (n, column) = elim (Bool-cases (leb 25 t.cursor_y)) [
      | inl e ↦ rw e (
        record { column = column; row = omega arith },
        scroll-buffer t a ∙ ground (arith, n.outside a h),
      )
      | inr f ↦ rw f (record { column = column; row = ground arith }, n.outside a h)
    ]

-- Where the cursor is on the screen, it is there after a string was printed, and nothing but the 2000
-- cells of the screen was written.
pub print_chars-IsVga :
    (str : CString) (s : Vga) (a : ℕ)
    → IsVga s
    → 2000 ≤ a
    → IsVga (print_chars str s) × ((print_chars str s).buffer a ≡ s.buffer a)
unfolding print_chars
print_chars-IsVga [] s a v h = (v, refl)
print_chars-IsVga (c ∷ str) s a v h =
    let one = putc-IsVga c s a v h in
    let rest = print_chars-IsVga str (putc c s) a one.0 h in (rest.0, rest.1 ∙ one.1)
