-- ===== src/Display/Framebuffer/Swap/Sync.antt =====
-- `swap_dirty_rects` of drivers/framebuffer.cpp brings the pixels of the rectangles to both pages of video
-- memory, and leaves the other pixels of each page.
use native.Mathlib.Nat.{zero-mul, suc-mul, one-mul}
use amazing_os.Base.{
  ℕ, zero, suc, ◌+◌, ◌*◌, ◌/◌, ◌<◌, ◌≡◌, ◌≢◌, refl, sym, ap, ◌∙◌, Bool, true, not, if◌then◌else◌,
  List, [], ◌∷◌, arith, ◌⊎◌, inl, inr, pos,
}
use amazing_os.Base.Memory.{Memory}
use amazing_os.Display.{Rect}
use amazing_os.Display.Dirty.Cover.{covered}
use amazing_os.Display.Framebuffer.{Framebuffer}
use amazing_os.Display.Framebuffer.Fill.Spans.{pixel_address}
use amazing_os.Display.Framebuffer.Swap.{
  copy_rects, other_page, page_base, swap_rects, swap_dirty_rects,
}
use amazing_os.Display.Framebuffer.Swap.Rects.{
  IsPaged, words, pixel, copy_rects-outside, copy_rects-pixel, back_Beyond,
}
use amazing_os.Display.Framebuffer.Swap.Copies.{Apart, Beyond, row_end}

-- Page 0 begins where the video memory does, and page 1 behind it.
record IsPlace (fb : Framebuffer) (page base : ℕ) : Type 0 where
  apart : Apart (words fb) base fb.back_buffer
  place :
      ((page ≡ 0) × (base ≡ fb.virtual_base))
      ⊎ ((page ≡ 1) × (base ≡ fb.virtual_base + 4 * words fb))

page_size : (fb : Framebuffer) → IsPaged fb → fb.height * fb.pitch ≡ 4 * words fb
page_size fb v = ap (λ p. fb.height * p) v.words ∙ rows fb.height (fb.pitch / 4)
  where
    rows : (h q : ℕ) → h * (4 * q) ≡ 4 * (h * q)
    rows zero q = omega (arith, zero-mul (4 * q), zero-mul q)
    rows (suc h) q = omega (arith, suc-mul h (4 * q), suc-mul h q, rows h q)

page_base-IsPlace :
    (fb : Framebuffer) (page : ℕ) → IsPaged fb → page < 2 → IsPlace fb page (page_base fb page)
page_base-IsPlace fb zero v h =
    let size = page_size fb v in
    let apart = v.apart in
    let base : page_base fb 0 ≡ fb.virtual_base = omega (arith, zero-mul (fb.height * fb.pitch)) in
    record {
      apart = elim apart [ inl l ↦ inl (omega arith) | inr r ↦ inr (omega arith) ];
      place = inl (refl, base);
    }
page_base-IsPlace fb (suc zero) v h =
    let size = page_size fb v in
    let apart = v.apart in
    let base : page_base fb 1 ≡ fb.virtual_base + 4 * words fb =
      omega (arith, one-mul (fb.height * fb.pitch)) in
    record {
      apart = elim apart [ inl l ↦ inl (omega arith) | inr r ↦ inr (omega arith) ];
      place = inr (refl, base);
    }
page_base-IsPlace fb (suc (suc page)) v h = absurd (omega arith)

module _ (fb : Framebuffer) (v : IsPaged fb) (px py : ℕ) (hx : px < fb.width)
    (hy : py < fb.height) where
  abbrev at_pixel : ℕ
  at_pixel = pixel fb v px py hx hy

  -- A pixel of one page is not in the other page.
  other-Beyond :
      (a b base_a base_b : ℕ)
      → IsPlace fb a base_a
      → IsPlace fb b base_b
      → a ≢ b
      → Beyond (words fb) base_b (base_a + at_pixel)
  other-Beyond a b base_a base_b p q ne =
      let columns = v.columns in
      let inside = row_end (fb.pitch / 4) fb.height py 0 px 1 (omega arith) (omega arith) in
      elim p.place [
        | inl (ea, fa) ↦ elim q.place [
          | inl (eb, ef) ↦ absurd (ne (ea ∙ sym eb))
          | inr (eb, ef) ↦ inl (omega (arith, fa, ef))
        ]
        | inr (ea, fa) ↦ elim q.place [
          | inl (eb, ef) ↦ inr (omega (arith, fa, ef))
          | inr (eb, ef) ↦ absurd (ne (ea ∙ sym eb))
        ]
      ]

  -- Rectangles go to page `b` and then to page `a`; either page has them.
  both_pages :
      (a b : ℕ) (rects : List Rect) (m : Memory) (page : ℕ)
      → a < 2
      → b < 2
      → a ≢ b
      → (page ≡ a) ⊎ (page ≡ b)
      → copy_rects fb
          (page_base fb a)
          rects
          (copy_rects fb (page_base fb b) rects m)
          (page_base fb page + at_pixel)
        ≡ (if covered rects (pos px) (pos py)
            then m (fb.back_buffer + at_pixel)
            else m (page_base fb page + at_pixel))
  both_pages a b rects m page ha hb ne which =
      let pa = page_base-IsPlace fb a v ha in
      let pb = page_base-IsPlace fb b v hb in
      let first = copy_rects fb (page_base fb b) rects m in
      elim which [
        | inl e ↦ rw e (
            copy_rects-pixel fb v px py hx hy (page_base fb a) pa.apart rects first
            ∙ either (covered rects (pos px) (pos py)) _ _ _ _
                (copy_rects-outside fb v px py hx hy (page_base fb b) pb.apart rects m
                  (fb.back_buffer + at_pixel)
                  (back_Beyond fb v px py hx hy (page_base fb b) pb.apart))
                (copy_rects-outside fb v px py hx hy (page_base fb b) pb.apart rects m
                  (page_base fb a + at_pixel)
                  (other-Beyond a b (page_base fb a) (page_base fb b) pa pb ne)))
        | inr e ↦ rw e (
            copy_rects-outside fb v px py hx hy (page_base fb a) pa.apart rects first
              (page_base fb b + at_pixel)
              (other-Beyond b a (page_base fb b) (page_base fb a) pb pa (λ e. ne (sym e)))
            ∙ copy_rects-pixel fb v px py hx hy (page_base fb b) pb.apart rects m)
      ]
    where
      either :
          (h : Bool) (x y u w : ℕ) → x ≡ u → y ≡ w → (if h then x else y) ≡ (if h then u else w)
      either h x y u w e f = ground arith

one_of_two :
    (page current : ℕ) → page < 2 → current < 2 → (page ≡ current) ⊎ (page ≡ other_page current)
one_of_two page current h k = ground arith

other_page-lt : (page : ℕ) → page < 2 → (other_page page < 2) × (page ≢ other_page page)
other_page-lt page h = (ground arith, λ e. ground arith)

-- On an initialized frame buffer whose rows are whole words, as wide as the screen or wider, and whose
-- back buffer is apart from the two pages of video memory, `swap_dirty_rects` gives on each of the two
-- pages the pixels of the screen that a rectangle of the list contains their value in the back buffer,
-- and leaves the other pixels of the page as they were.
pub swap_dirty_rects-covered :
    (fb : Framebuffer) (rects : List Rect) (page px py : ℕ)
    → IsPaged fb
    → page < 2
    → px < fb.width
    → py < fb.height
    → (swap_dirty_rects fb rects).memory (page_base fb page + 4 * (py * (fb.pitch / 4) + px)) ≡ (
        if covered rects (pos px) (pos py)
        then fb.memory (pixel_address fb px py)
        else fb.memory (page_base fb page + 4 * (py * (fb.pitch / 4) + px)))
unfolding swap_dirty_rects covered
swap_dirty_rects-covered fb [] page px py v h hx hy = refl
swap_dirty_rects-covered fb (r ∷ rects) page px py v h hx hy =
    let other = other_page-lt fb.current_page v.page in
    ap (λ (f : Framebuffer). f.memory (page_base fb page + 4 * (py * (fb.pitch / 4) + px)))
      (unless fb.initialized fb (swap_rects fb (r ∷ rects)) v.ready)
    ∙ both_pages fb v px py hx hy fb.current_page (other_page fb.current_page) (r ∷ rects) fb.memory
        page v.page other.0 other.1 (one_of_two page fb.current_page h v.page)
  where
    unless : (b : Bool) (x y : Framebuffer) → b ≡ true → (if not b then x else y) ≡ y
    unless b x y e = rw e refl
