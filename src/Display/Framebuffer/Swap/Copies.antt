-- ===== src/Display/Framebuffer/Swap/Copies.antt =====
-- What the copies of drivers/framebuffer.cpp to a page of video memory do to each word.
use native.Mathlib.Nat.{add-mul, mul-le-mul_right}
use amazing_os.Base.{
  ℕ, zero, suc, ◌+◌, ◌-◌, ◌*◌, ◌≤◌, ◌<◌, ◌≡◌, refl, ap, ◌∙◌, subst, true, ◌&&◌, ltb, leb, ◌==◌,
  if◌then◌else◌, arith, Bool-cases, ◌⊎◌, inl, inr, pos, pos-+ℤ,
}
use amazing_os.Base.Memory.{Memory, poke}
use amazing_os.Display.Framebuffer.Swap.{copy_words, copy_lines}

-- `n` words from address `dest` and those from `src` lie apart.
abbrev pub Apart : ℕ → ℕ → ℕ → Type 0
Apart n dest src = (dest + 4 * n ≤ src) ⊎ (src + 4 * n ≤ dest)

abbrev pub Beyond : ℕ → ℕ → ℕ → Type 0
Beyond n dest a = (a < dest) ⊎ (dest + 4 * n ≤ a)

copy_words-outside :
    (n dest src : ℕ) (m : Memory) (a : ℕ) → Beyond n dest a → copy_words n dest src m a ≡ m a
unfolding copy_words
copy_words-outside zero dest src m a h = refl
copy_words-outside (suc n) dest src m a h =
    copy_words-outside n (dest + 4) (src + 4) (poke m dest (m src)) a (ground arith) ∙ ground arith

copy_words-inside :
    (n dest src : ℕ) (m : Memory) (j : ℕ)
    → Apart n dest src
    → j < n
    → copy_words n dest src m (dest + 4 * j) ≡ m (src + 4 * j)
unfolding copy_words
copy_words-inside zero dest src m j h lt = elim lt [ ]
copy_words-inside (suc n) dest src m zero h lt =
    copy_words-outside n (dest + 4) (src + 4) (poke m dest (m src)) (dest + 4 * 0)
      (inl (omega arith))
    ∙ ground arith
copy_words-inside (suc n) dest src m (suc j) h lt =
    let at : dest + 4 + 4 * j ≡ dest + 4 * suc j = omega arith in
    let from : src + 4 + 4 * j ≡ src + 4 * suc j = omega arith in
    subst (λ a. copy_words n (dest + 4) (src + 4) (poke m dest (m src)) a ≡ m (src + 4 * suc j)) at
      (copy_words-inside n (dest + 4) (src + 4) (poke m dest (m src)) j (ground arith) (omega arith)
        ∙ ap (poke m dest (m src)) from
        ∙ ground arith)

-- A word of a row is hit just if the row and the column are.
row_hit :
    (pw c py sx columns px : ℕ)
    → sx + columns ≤ pw
    → px < pw
    → (leb (c * pw + sx) (py * pw + px) && ltb (py * pw + px) (c * pw + sx + columns))
      ≡ (py == c && leb sx px && ltb px (sx + columns))
row_hit pw c py sx columns px fits lt = elim (Bool-cases (ltb py c)) [
  | inl t ↦
      let low : (py + 1) * pw ≤ c * pw = mul-le-mul_right {m = py + 1} {n = c} pw (ground arith) in
      below (c * pw) (py * pw) t (omega (arith, low, add-mul py 1 pw))
  | inr f ↦ elim (Bool-cases (ltb c py)) [
    | inl t ↦
        let low : (c + 1) * pw ≤ py * pw =
          mul-le-mul_right {m = c + 1} {n = py} pw (ground arith) in
        above (c * pw) (py * pw) t (omega (arith, low, add-mul c 1 pw))
    | inr g ↦
        let same : py ≡ c = ground arith in level (c * pw) (py * pw) same (ap (λ k. k * pw) same)
  ]
]
  where
    below :
        (a b : ℕ)
        → ltb py c ≡ true
        → b + pw ≤ a
        → (leb (a + sx) (b + px) && ltb (b + px) (a + sx + columns))
          ≡ (py == c && leb sx px && ltb px (sx + columns))
    below a b t h = ground arith

    above :
        (a b : ℕ)
        → ltb c py ≡ true
        → a + pw ≤ b
        → (leb (a + sx) (b + px) && ltb (b + px) (a + sx + columns))
          ≡ (py == c && leb sx px && ltb px (sx + columns))
    above a b t h = ground arith

    level :
        (a b : ℕ)
        → py ≡ c
        → b ≡ a
        → (leb (a + sx) (b + px) && ltb (b + px) (a + sx + columns))
          ≡ (py == c && leb sx px && ltb px (sx + columns))
    level a b e h = ground arith

-- A row that starts before row `height` ends before it.
pub row_end :
    (pw height c left sx columns : ℕ)
    → sx + columns ≤ pw
    → c + suc left ≤ height
    → c * pw + sx + columns ≤ height * pw
row_end pw height c left sx columns fits low =
    let next : (c + 1) * pw ≤ height * pw =
      mul-le-mul_right {m = c + 1} {n = height} pw (omega arith) in
    omega (arith, next, add-mul c 1 pw)

-- The words from `dest` and from `src`, in `height` rows of `pw`.
module _ (pw height dest src : ℕ) (apart : Apart (height * pw) dest src) where
  copy_words-word :
      (count o i : ℕ) (m : Memory)
      → o + count ≤ height * pw
      → i < height * pw
      → copy_words count (dest + 4 * o) (src + 4 * o) m (dest + 4 * i)
        ≡ (if leb o i && ltb i (o + count) then m (src + 4 * i) else m (dest + 4 * i))
  copy_words-word count o i m h lt = elim (Bool-cases (leb o i && ltb i (o + count))) [
    | inl t ↦
        let j : ℕ = i - o in
        let at : o + j ≡ i = ground arith in
        rw t (
          subst
            (λ k. copy_words count (dest + 4 * o) (src + 4 * o) m (dest + 4 * k) ≡ m (src + 4 * k))
            at
            (subst (λ a. copy_words count (dest + 4 * o) (src + 4 * o) m a ≡ m (src + 4 * (o + j)))
              (omega arith)
              (copy_words-inside count (dest + 4 * o) (src + 4 * o) m j (ground arith)
                  (ground arith)
                ∙ ap m (omega arith))))
    | inr f ↦
        rw f (copy_words-outside count (dest + 4 * o) (src + 4 * o) m (dest + 4 * i) (ground arith))
  ]

  pub copy_lines-outside :
      (sx columns left c : ℕ) (m : Memory) (a : ℕ)
      → sx + columns ≤ pw
      → c + left ≤ height
      → Beyond (height * pw) dest a
      → copy_lines dest src pw (pos sx) columns left (pos c) m a ≡ m a
  unfolding copy_lines
  copy_lines-outside sx columns zero c m a fits low h = refl
  copy_lines-outside sx columns (suc left) c m a fits low h =
      let last = row_end pw height c left sx columns fits low in
      rw (pos-+ℤ c 1) (
        copy_lines-outside sx columns left (c + 1)
          (copy_words columns (dest + 4 * (c * pw + sx)) (src + 4 * (c * pw + sx)) m) a fits
          (omega arith) h
        ∙ copy_words-outside columns (dest + 4 * (c * pw + sx)) (src + 4 * (c * pw + sx)) m a
            (elim h [ inl l ↦ inl (omega arith) | inr r ↦ inr (omega arith) ]))

  pub copy_lines-pixel :
      (sx columns left c : ℕ) (m : Memory) (px py : ℕ)
      → sx + columns ≤ pw
      → c + left ≤ height
      → px < pw
      → py < height
      → copy_lines dest src pw (pos sx) columns left (pos c) m (dest + 4 * (py * pw + px)) ≡ (
          if leb c py && ltb py (c + left) && leb sx px && ltb px (sx + columns)
          then m (src + 4 * (py * pw + px))
          else m (dest + 4 * (py * pw + px)))
  unfolding copy_lines
  copy_lines-pixel sx columns zero c m px py fits low hx hy = ground arith
  copy_lines-pixel sx columns (suc left) c m px py fits low hx hy =
      let last = row_end pw height c left sx columns fits low in
      let row = copy_words columns (dest + 4 * (c * pw + sx)) (src + 4 * (c * pw + sx)) m in
      let inside = row_end pw height py 0 px 1 (omega arith) (omega arith) in
      rw (pos-+ℤ c 1) (
        copy_lines-pixel sx columns left (c + 1) row px py fits (omega arith) hx hy
        ∙ both (row (dest + 4 * (py * pw + px))) (row (src + 4 * (py * pw + px)))
            (m (dest + 4 * (py * pw + px))) (m (src + 4 * (py * pw + px)))
            (copy_words-word columns (c * pw + sx) (py * pw + px) m last (omega arith)
              ∙ ap (λ b. if b then m (src + 4 * (py * pw + px)) else m (dest + 4 * (py * pw + px)))
                  (row_hit pw c py sx columns px fits hx))
            (copy_words-outside columns (dest + 4 * (c * pw + sx)) (src + 4 * (c * pw + sx)) m
              (src + 4 * (py * pw + px))
              (elim apart [ inl l ↦ inr (omega arith) | inr r ↦ inl (omega arith) ])))
    where
      both :
          (d s d0 s0 : ℕ)
          → d ≡ (if py == c && leb sx px && ltb px (sx + columns) then s0 else d0)
          → s ≡ s0
          → (if leb (c + 1) py && ltb py (c + 1 + left) && leb sx px && ltb px (sx + columns)
              then s
              else d)
            ≡ (if leb c py && ltb py (c + suc left) && leb sx px && ltb px (sx + columns)
                then s0
                else d0)
      both d s d0 s0 e f = ground arith
