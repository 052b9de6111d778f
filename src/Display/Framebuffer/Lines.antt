-- ===== src/Display/Framebuffer/Lines.antt =====
-- `draw_line` of drivers/framebuffer.cpp. Its loop runs on fuel, one step more than the columns and
-- rows from one end of the line to the other.
use native.Mathlib.Nat.{suc-mul, zero-mul}
use amazing_os.Base.{
  ℕ, zero, suc, ◌+◌, ◌*◌, ◌≤◌, ◌<◌, ◌≡◌, ◌≢◌, refl, sym, ap, ◌∙◌, Bool, true, false, ◌&&◌, arith,
  Option, none, some, ℤ, pos, negsuc, ◌+ℤ◌, ◌-ℤ◌, ◌*ℤ◌, pos_part, neg_part, ltb_ℤ, eq_ℤ, abs,
  to_u32, if◌then◌else◌, ◌⊎◌, inl, inr, Bool-cases, -ℤ_parts, eq_of_parts, int_laws, ≢→==_false,
  abs_parts, neg_part_of-nonneg, pos_part_of-nonpos, lt_of-ltb_ℤ, le_of-ltb_ℤ, ltb_ℤ-false,
  lt-ltb_ℤ, double_parts,
}
use amazing_os.Display.Framebuffer.{Framebuffer, draw_pixel}

-- What the loop does not change: the end, the distances and the directions.
pub record Line : Type 0 where
  pub x1 : ℤ
  pub y1 : ℤ
  pub dx : ℤ
  pub dy : ℤ
  pub sx : ℤ
  pub sy : ℤ
  pub color : ℕ

-- `while (true)`, from the point `(x0, y0)` and the error `err` on.
pub line_loop : (fuel : ℕ) → Line → (x0 y0 err : ℤ) → Framebuffer → Option Framebuffer
line_loop zero l x0 y0 err fb = none
line_loop (suc fuel) l x0 y0 err fb =
    let drawn = draw_pixel fb (to_u32 x0) (to_u32 y0) l.color in
    let e2 = pos 2 *ℤ err in
    let step_x = ltb_ℤ (pos 0 -ℤ l.dy) e2 in
    let step_y = ltb_ℤ e2 l.dx in
    let err_x = if step_x then err -ℤ l.dy else err in
    let err_y = if step_y then err_x +ℤ l.dx else err_x in
    let rest =
      line_loop fuel l (if step_x then x0 +ℤ l.sx else x0) (if step_y then y0 +ℤ l.sy else y0) err_y
        drawn in
    if eq_ℤ x0 l.x1 && eq_ℤ y0 l.y1 then some drawn else rest

pub draw_line : (fuel : ℕ) → Framebuffer → (x0 y0 x1 y1 : ℤ) → ℕ → Option Framebuffer
draw_line fuel fb x0 y0 x1 y1 color =
    let dx = abs (x1 -ℤ x0) in
    let dy = abs (y1 -ℤ y0) in
    line_loop fuel
      (record {
        x1 = x1;
        y1 = y1;
        dx = dx;
        dy = dy;
        sx = if ltb_ℤ x0 x1 then pos 1 else negsuc 0;
        sy = if ltb_ℤ y0 y1 then pos 1 else negsuc 0;
        color = color;
      })
      x0 y0 (dx -ℤ dy) fb

-- `a` steps of `s` lead from `x0` to `x1`.
Toward : (s x0 x1 : ℤ) → ℕ → Type 0
Toward s x0 x1 a = ((s ≡ pos 1) × (x0 +ℤ pos a ≡ x1)) ⊎ ((s ≡ negsuc 0) × (x1 +ℤ pos a ≡ x0))

Toward-step : (s x0 x1 : ℤ) (a : ℕ) → Toward s x0 x1 (suc a) → Toward s (x0 +ℤ s) x1 a
unfolding Toward
Toward-step s x0 x1 a (inl (e, h)) = inl (
  e,
  eq_of_parts (x0 +ℤ s +ℤ pos a) x1
      (omega (int_laws, ap pos_part e, ap neg_part e, ap pos_part h, ap neg_part h)),
)
Toward-step s x0 x1 a (inr (e, h)) = inr (
  e,
  eq_of_parts (x1 +ℤ pos a) (x0 +ℤ s)
      (omega (int_laws, ap pos_part e, ap neg_part e, ap pos_part h, ap neg_part h)),
)

Toward-zero : (s x0 x1 : ℤ) → Toward s x0 x1 0 → x0 ≡ x1
unfolding Toward
Toward-zero s x0 x1 (inl (e, h)) =
    eq_of_parts x0 x1 (omega (int_laws, ap pos_part h, ap neg_part h))
Toward-zero s x0 x1 (inr (e, h)) =
    eq_of_parts x0 x1 (omega (int_laws, ap pos_part h, ap neg_part h))

Toward-suc : (s x0 x1 : ℤ) (a : ℕ) → Toward s x0 x1 (suc a) → eq_ℤ x0 x1 ≡ false
unfolding Toward
Toward-suc s x0 x1 a (inl (e, h)) =
    apart x0 x1 (λ k. absurd (omega (int_laws, ap pos_part h, ap neg_part h)))
  where
    apart : (x0 x1 : ℤ) → pos_part x0 + neg_part x1 ≢ pos_part x1 + neg_part x0 → eq_ℤ x0 x1 ≡ false
    apart x0 x1 h = ≢→==_false _ _ h
Toward-suc s x0 x1 a (inr (e, h)) =
    ≢→==_false _ _ (λ k. absurd (omega (int_laws, ap pos_part h, ap neg_part h)))

-- The start of a line on one axis.
Toward-start :
    (x0 x1 : ℤ)
    → (a : ℕ) × (abs (x1 -ℤ x0) ≡ pos a) × Toward (if ltb_ℤ x0 x1 then pos 1 else negsuc 0) x0 x1 a
unfolding Toward
Toward-start x0 x1 = elim (Bool-cases (ltb_ℤ x0 x1)) [
  | inl t ↦
      let lt = lt_of-ltb_ℤ x0 x1 t in
      (
        pos_part (x1 -ℤ x0) + neg_part (x1 -ℤ x0),
        abs_parts (x1 -ℤ x0),
        rw t (
            inl (
              refl,
              eq_of_parts _ _ (
                  omega
                    (int_laws, neg_part_of-nonneg (x1 -ℤ x0) (omega (int_laws, -ℤ_parts x1 x0)))),
            )),
      )
  | inr f ↦
      let le = le_of-ltb_ℤ x0 x1 f in
      (
        pos_part (x1 -ℤ x0) + neg_part (x1 -ℤ x0),
        abs_parts (x1 -ℤ x0),
        rw f (
            inr (
              refl,
              eq_of_parts _ _ (
                  omega
                    (int_laws, pos_part_of-nonpos (x1 -ℤ x0) (omega (int_laws, -ℤ_parts x1 x0)))),
            )),
      )
]

eq_ℤ_self : (a : ℤ) → eq_ℤ a a ≡ true
eq_ℤ_self a = ground arith

and_false : (a : Bool) → (a && false) ≡ false
and_false a = ground arith

module _ (l : Line) (dx dy : ℕ) (wide : l.dx ≡ pos dx) (high : l.dy ≡ pos dy) where
  -- With `a` columns and `b` rows to go the error is `dx - dy + a * dy - b * dx`.
  Balanced : (a b : ℕ) → ℤ → Type 0
  Balanced a b err = pos_part err + dy + b * dx ≡ neg_part err + dx + a * dy

  -- The loop steps along a column while one is left, and along a row while one is left.
  step_x-left :
      (b : ℕ) (err : ℤ) → Balanced 0 (suc b) err → ltb_ℤ (pos 0 -ℤ l.dy) (pos 2 *ℤ err) ≡ false
  unfolding Balanced
  step_x-left b err h = ltb_ℤ-false (pos 0 -ℤ l.dy) (pos 2 *ℤ err) (
      omega
        (int_laws, suc-mul b dx, zero-mul dy, double_parts err, ap pos_part high, ap neg_part high))

  step_y-left : (a : ℕ) (err : ℤ) → Balanced (suc a) 0 err → ltb_ℤ (pos 2 *ℤ err) l.dx ≡ false
  unfolding Balanced
  step_y-left a err h = ltb_ℤ-false (pos 2 *ℤ err) l.dx (
      omega
        (int_laws, suc-mul a dy, zero-mul dx, double_parts err, ap pos_part wide, ap neg_part wide))

  -- One of the two steps is made.
  step_either :
      (err : ℤ)
      → 0 < dx + dy
      → ltb_ℤ (pos 0 -ℤ l.dy) (pos 2 *ℤ err) ≡ false
      → ltb_ℤ (pos 2 *ℤ err) l.dx ≡ true
  step_either err h f = lt-ltb_ℤ (pos 2 *ℤ err) l.dx (
      omega (
        int_laws,
        le_of-ltb_ℤ (pos 0 -ℤ l.dy) (pos 2 *ℤ err) f,
        ap pos_part high,
        ap neg_part high,
        ap pos_part wide,
        ap neg_part wide,
      ))

  Balanced-x : (a b : ℕ) (err : ℤ) → Balanced (suc a) b err → Balanced a b (err -ℤ l.dy)
  unfolding Balanced
  Balanced-x a b err h = omega (int_laws, suc-mul a dy, ap pos_part high, ap neg_part high)

  Balanced-y : (a b : ℕ) (err : ℤ) → Balanced a (suc b) err → Balanced a b (err +ℤ l.dx)
  unfolding Balanced
  Balanced-y a b err h = omega (int_laws, suc-mul b dx, ap pos_part wide, ap neg_part wide)

  -- The loop ends, and the last pixel that it draws is the line's end.
  Ends : Option Framebuffer → Type 0
  Ends out =
      (before : Framebuffer) × (out ≡ some (draw_pixel before (to_u32 l.x1) (to_u32 l.y1) l.color))

  absurd_bool : ¬ (false ≡ true)
  absurd_bool h = ground arith

  line_loop-Ends :
      (fuel a b : ℕ) (x0 y0 err : ℤ) (fb : Framebuffer)
      → a + b < fuel
      → a ≤ dx
      → b ≤ dy
      → Toward l.sx x0 l.x1 a
      → Toward l.sy y0 l.y1 b
      → Balanced a b err
      → Ends (line_loop fuel l x0 y0 err fb)
  unfolding line_loop Ends
  line_loop-Ends zero a b x0 y0 err fb enough ax by tx ty e = elim enough [ ]
  line_loop-Ends (suc fuel) zero zero x0 y0 err fb enough ax by tx ty e = (
    fb,
    rw (Toward-zero l.sx x0 l.x1 tx, Toward-zero l.sy y0 l.y1 ty, eq_ℤ_self l.x1, eq_ℤ_self l.y1)
        refl,
  )
  line_loop-Ends (suc fuel) zero (suc b) x0 y0 err fb enough ax by tx ty e =
      let f : ltb_ℤ (pos 0 -ℤ l.dy) (pos 2 *ℤ err) ≡ false = step_x-left b err e in
      let rest =
        line_loop-Ends fuel zero b x0 (y0 +ℤ l.sy) (err +ℤ l.dx)
          (draw_pixel fb (to_u32 x0) (to_u32 y0) l.color) (omega arith) ax (omega arith) tx
          (Toward-step l.sy y0 l.y1 b ty) (Balanced-y zero b err e) in
      (
        rest.0,
        rw
            (
              line_loop,
              Toward-suc l.sy y0 l.y1 b ty,
              and_false (eq_ℤ x0 l.x1),
              f,
              step_either err (omega arith) f,
            )
            rest.1,
      )
  line_loop-Ends (suc fuel) (suc a) zero x0 y0 err fb enough ax by tx ty e =
      let g : ltb_ℤ (pos 2 *ℤ err) l.dx ≡ false = step_y-left a err e in
      let rest =
        line_loop-Ends fuel a zero (x0 +ℤ l.sx) y0 (err -ℤ l.dy)
          (draw_pixel fb (to_u32 x0) (to_u32 y0) l.color) (omega arith) (omega arith) by
          (Toward-step l.sx x0 l.x1 a tx) ty (Balanced-x a zero err e) in
      elim (Bool-cases (ltb_ℤ (pos 0 -ℤ l.dy) (pos 2 *ℤ err))) [
        | inl t ↦ (rest.0, rw (line_loop, Toward-suc l.sx x0 l.x1 a tx, t, g) rest.1)
        | inr f ↦ absurd (absurd_bool (sym g ∙ step_either err (omega arith) f))
      ]
  line_loop-Ends (suc fuel) (suc a) (suc b) x0 y0 err fb enough ax by tx ty e =
      let stop = Toward-suc l.sx x0 l.x1 a tx in
      let drawn = draw_pixel fb (to_u32 x0) (to_u32 y0) l.color in
      elim (Bool-cases (ltb_ℤ (pos 0 -ℤ l.dy) (pos 2 *ℤ err))) [
        | inl t ↦ elim (Bool-cases (ltb_ℤ (pos 2 *ℤ err) l.dx)) [
          | inl u ↦
              let rest =
                line_loop-Ends fuel a b (x0 +ℤ l.sx) (y0 +ℤ l.sy) (err -ℤ l.dy +ℤ l.dx) drawn
                  (omega arith) (omega arith) (omega arith) (Toward-step l.sx x0 l.x1 a tx)
                  (Toward-step l.sy y0 l.y1 b ty)
                  (Balanced-y a b (err -ℤ l.dy) (Balanced-x a (suc b) err e)) in
              (rest.0, rw (line_loop, stop, t, u) rest.1)
          | inr g ↦
              let rest =
                line_loop-Ends fuel a (suc b) (x0 +ℤ l.sx) y0 (err -ℤ l.dy) drawn (omega arith)
                  (omega arith) by (Toward-step l.sx x0 l.x1 a tx) ty
                  (Balanced-x a (suc b) err e) in
              (rest.0, rw (line_loop, stop, t, g) rest.1)
        ]
        | inr f ↦
            let rest =
              line_loop-Ends fuel (suc a) b x0 (y0 +ℤ l.sy) (err +ℤ l.dx) drawn (omega arith) ax
                (omega arith) tx (Toward-step l.sy y0 l.y1 b ty) (Balanced-y (suc a) b err e) in
            (rest.0, rw (line_loop, stop, f, step_either err (omega arith) f) rest.1)
      ]

-- `draw_line` ends, with fuel for one step more than the columns and the rows from its start to its
-- end, and the last pixel that it draws is its end.
pub draw_line-ends :
    (fuel : ℕ) (fb : Framebuffer) (x0 y0 x1 y1 : ℤ) (color : ℕ)
    → pos_part (abs (x1 -ℤ x0)) + pos_part (abs (y1 -ℤ y0)) < fuel
    → (before : Framebuffer) × (draw_line fuel fb x0 y0 x1 y1 color
        ≡ some (draw_pixel before (to_u32 x1) (to_u32 y1) color))
unfolding draw_line Ends Balanced
draw_line-ends fuel fb x0 y0 x1 y1 color enough =
    let tx = Toward-start x0 x1 in
    let ty = Toward-start y0 y1 in
    let ex : abs (x1 -ℤ x0) ≡ pos tx.0 = tx.1 in
    let ey : abs (y1 -ℤ y0) ≡ pos ty.0 = ty.1 in
    line_loop-Ends _ tx.0 ty.0 ex ey fuel tx.0 ty.0 x0 y0 _ fb
      (omega (arith, ap pos_part ex, ap pos_part ey)) (omega arith) (omega arith) tx.2 ty.2
      (omega (int_laws, ap pos_part ex, ap pos_part ey, ap neg_part ex, ap neg_part ey))
