-- ===== src/Display/Framebuffer/Fill/Cells.antt =====
-- The words that the loops of drivers/framebuffer.cpp over rows and columns paint.
use native.Mathlib.Nat.{mul-zero, suc-mul, mul-le-mul_right, add-mul, mod-eq_of_lt}
use amazing_os.Base.{
  ℕ, zero, suc, ◌+◌, ◌*◌, ◌%◌, ◌^◌, ◌≤◌, ◌<◌, ◌≡◌, ◌≢◌, refl, ap, subst, ◌∙◌, arith, pos, pos-+ℤ,
}
use amazing_os.Base.Memory.{Memory}
use amazing_os.Display.Framebuffer.Fill.{paint_word, paint_row, paint_rows}

module _ (paint : ℕ → ℕ) (base : ℕ) where
  -- The words from `start` on.
  pub run : (left start : ℕ) → Memory → Memory
  run zero start m = m
  run (suc left) start m = run left (start + 1) (paint_word paint base start m)

  run-outside :
      (left start : ℕ) (m : Memory) (a : ℕ)
      → ((j : ℕ) → j < left → a ≢ base + 4 * (start + j))
      → run left start m a ≡ m a
  unfolding run
  run-outside zero start m a h = refl
  run-outside (suc left) start m a h =
      run-outside left (start + 1) (paint_word paint base start m) a
        (λ j lt e. h (j + 1) (omega arith) (omega (arith, e)))
      ∙ ground (arith, h 0)

  run-inside :
      (left start : ℕ) (m : Memory) (j : ℕ)
      → j < left
      → run left start m (base + 4 * (start + j)) ≡ paint (m (base + 4 * (start + j)))
  unfolding run
  run-inside zero start m j lt = elim lt [ ]
  run-inside (suc left) start m zero lt =
      run-outside left (start + 1) (paint_word paint base start m) (base + 4 * (start + 0))
        (λ j lt e. absurd (omega (arith, e)))
      ∙ ground arith
  run-inside (suc left) start m (suc j) lt =
      subst
        (λ i.
          run left (start + 1) (paint_word paint base start m) (base + 4 * i)
          ≡ paint (m (base + 4 * i)))
        (omega arith)
        (run-inside left (start + 1) (paint_word paint base start m) j (omega arith) ∙ ground arith)

  -- Rows of `columns` words, `pitch_words` apart.
  pub runs : (pitch_words columns left start : ℕ) → Memory → Memory
  runs pitch_words columns zero start m = m
  runs pitch_words columns (suc left) start m =
      runs pitch_words columns left (start + pitch_words) (run columns start m)

  pub runs-outside :
      (pitch_words columns left start : ℕ) (m : Memory) (a : ℕ)
      → ((i j : ℕ) → i < left → j < columns → a ≢ base + 4 * (start + i * pitch_words + j))
      → runs pitch_words columns left start m a ≡ m a
  unfolding runs
  runs-outside p columns zero start m a h = refl
  runs-outside p columns (suc left) start m a h =
      runs-outside p columns left (start + p) (run columns start m) a
        (λ i j il jl e. h (suc i) j (omega arith) jl (omega (arith, e, suc-mul i p)))
      ∙ run-outside columns start m a (λ j jl e. h 0 j (omega arith) jl (omega (arith, e)))

  pub runs-inside :
      (pitch_words columns left start : ℕ) (m : Memory) (i j : ℕ)
      → columns ≤ pitch_words
      → i < left
      → j < columns
      → runs pitch_words columns left start m (base + 4 * (start + i * pitch_words + j))
        ≡ paint (m (base + 4 * (start + i * pitch_words + j)))
  unfolding runs
  runs-inside p columns zero start m i j c il jl = elim il [ ]
  runs-inside p columns (suc left) start m zero j c il jl =
      runs-outside p columns left (start + p) (run columns start m) (base + 4 * (start + 0 * p + j))
        (λ i k _ kl e. absurd (omega (arith, e)))
      ∙ subst (λ s. run columns start m (base + 4 * s) ≡ paint (m (base + 4 * s))) (omega arith)
          (run-inside columns start m j jl)
  runs-inside p columns (suc left) start m (suc i) j c il jl =
      subst
        (λ s.
          runs p columns left (start + p) (run columns start m) (base + 4 * s)
          ≡ paint (m (base + 4 * s)))
        (omega (arith, suc-mul i p))
        (runs-inside p columns left (start + p) (run columns start m) i j c (omega arith) jl
          ∙ ap paint (
              run-outside columns start m (base + 4 * (start + p + i * p + j))
                (λ k kl e. absurd (omega (arith, e)))))

  -- On numbers that 32 bits hold the loops of the source are these.
  pub paint_row-run :
      (left line_offset x : ℕ) (m : Memory)
      → line_offset + x + left ≤ 2 ^ 32
      → paint_row paint base line_offset left (pos x) m ≡ run left (line_offset + x) m
  unfolding paint_row run
  paint_row-run zero off x m h = refl
  paint_row-run (suc left) off x m h = rw (pos-+ℤ x 1) (
      ap (λ i. paint_row paint base off left (pos (x + 1)) (paint_word paint base i m))
        (omega arith)
      ∙ paint_row-run left off (x + 1) (paint_word paint base (off + x) m) (omega arith)
      ∙ ap (λ i. run left i (paint_word paint base (off + x) m)) (omega arith))

  pub paint_rows-runs :
      (pitch_words x columns left y : ℕ) (m : Memory)
      → x + columns ≤ pitch_words
      → (y + left) * pitch_words ≤ 2 ^ 32
      → y + left < 2 ^ 32
      → paint_rows paint base pitch_words (pos x) columns left (pos y) m
        ≡ runs pitch_words columns left (y * pitch_words + x) m
  unfolding paint_rows runs
  paint_rows-runs p x columns zero y m c h s = refl
  paint_rows-runs p x columns (suc left) y m c h s = rw (pos-+ℤ y 1) (
      ap
        (λ o.
          paint_rows paint base p (pos x) columns left (pos (y + 1))
            (paint_row paint base o columns (pos x) m))
        offset
      ∙ paint_rows-runs p x columns left (y + 1) (paint_row paint base (y * p) columns (pos x) m) c
          (subst (λ k. k * p ≤ 2 ^ 32) (omega arith) h) (omega arith)
      ∙ ap (λ k. runs p columns left k (paint_row paint base (y * p) columns (pos x) m))
          (omega (arith, suc-mul y p))
      ∙ ap (runs p columns left (y * p + x + p))
          (paint_row-run columns (y * p) x m (omega (arith, bound))))
    where
      -- a row's offset fits where a row is not empty, and is taken modulo 2 ^ 32 else
      row_small : (q : ℕ) → y * q + q ≤ 2 ^ 32 → (y * q) % 2 ^ 32 ≡ y * q
      row_small zero b = omega (arith, mul-zero y)
      row_small (suc q) b = mod-eq_of_lt {n = y * suc q} {m = 2 ^ 32} (omega arith)

      bound : y * p + p ≤ 2 ^ 32
      bound =
          let step : (y + 1) * p ≤ (y + suc left) * p =
            mul-le-mul_right {m = y + 1} {n = y + suc left} p (omega arith) in
          omega (arith, add-mul y 1 p)

      offset : ((y % 2 ^ 32) * p) % 2 ^ 32 ≡ y * p
      offset =
          ap (λ k. (k * p) % 2 ^ 32) (mod-eq_of_lt {n = y} {m = 2 ^ 32} (omega arith))
          ∙ row_small p bound
