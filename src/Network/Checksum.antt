-- ===== src/Network/Checksum.antt =====
-- The checksum of kernel/syscall.cpp makes a header sum to zero, as a receiver checks it.
use amazing_os.Base.{
  ℕ, suc, ◌+◌, ◌-◌, ◌*◌, ◌/◌, ◌%◌, ◌^◌, ◌≤◌, ◌<◌, ◌≡◌, refl, sym, ap, ◌∙◌, Option, some, List, [],
  ◌∷◌, ◌++◌, ltb, length, length-append, All, arith, Bool-cases, inl, inr, lt→ltb, lt→ltb_false,
  ltb→lt,
}
use amazing_os.Network.{htons, sum_bytes, fold, complement, ip_checksum}

-- The 16-bit words of the bytes, added up.
total : List ℕ → ℕ
total [] = 0
total (a ∷ []) = a * 256
total (a ∷ b ∷ rest) = a * 256 + b + total rest

abbrev pub Bytes : List ℕ → Type 0
Bytes bytes = All (λ b. b < 256) bytes

total-le : (bytes : List ℕ) → Bytes bytes → total bytes ≤ 65535 * length bytes
unfolding total
total-le [] h = omega arith
total-le (a ∷ []) h = omega (arith, h.0)
total-le (a ∷ b ∷ rest) h = omega (arith, h.0, h.1.0, total-le rest h.1.1)

-- Up to 2 ^ 16 bytes the sum does not overflow.
sum_bytes-total :
    (bytes : List ℕ) (sum : ℕ)
    → Bytes bytes
    → sum + 65535 * length bytes < 2 ^ 32
    → sum_bytes bytes sum ≡ sum + total bytes
unfolding sum_bytes total
sum_bytes-total [] sum h k = omega arith
sum_bytes-total (a ∷ []) sum h k = omega (arith, h.0)
sum_bytes-total (a ∷ b ∷ rest) sum h k =
    ap (sum_bytes rest) (small (omega (arith, h.0, h.1.0)))
    ∙ sum_bytes-total rest (sum + (a * 256 + b)) h.1.1 (omega (arith, h.0, h.1.0))
    ∙ omega arith
  where
    small : sum + (a * 256 + b) < 2 ^ 32 → (sum + (a * 256 + b)) % 2 ^ 32 ≡ sum + (a * 256 + b)
    small lt = omega arith

-- A fold keeps the sum modulo 2 ^ 16 - 1, and does not make it 0.
record Folded (sum : ℕ) (out : Option ℕ) : Type 0 where
  result : ℕ
  returns : out ≡ some result
  small : result < 2 ^ 16
  times : ℕ
  same : sum ≡ result + times * 65535
  positive : 0 < sum → 0 < result

Folded-next :
    (fuel sum : ℕ)
    → 2 ^ 16 ≤ sum
    → Folded (sum % 2 ^ 16 + sum / 2 ^ 16) (fold fuel (sum % 2 ^ 16 + sum / 2 ^ 16))
    → Folded sum (fold (suc fuel) sum)
unfolding fold
Folded-next fuel sum h f = record {
  result = f.result;
  returns = rw (lt→ltb_false sum (2 ^ 16) h) f.returns;
  small = f.small;
  times = f.times + sum / 2 ^ 16;
  same = omega (arith, f.same);
  positive = λ p. f.positive (omega arith);
}

Folded-end : (fuel sum : ℕ) → sum < 2 ^ 16 → Folded sum (fold (suc fuel) sum)
unfolding fold
Folded-end fuel sum h = record {
  result = sum;
  returns = rw (lt→ltb sum (2 ^ 16) h) refl;
  small = h;
  times = 0;
  same = omega arith;
  positive = λ p. p;
}

fold_twice-Folded : (fuel sum : ℕ) → sum ≤ 131070 → Folded sum (fold (suc (suc fuel)) sum)
fold_twice-Folded fuel sum h = elim (Bool-cases (ltb sum (2 ^ 16))) [
  | inl t ↦ Folded-end (suc fuel) sum (ltb→lt sum (2 ^ 16) t)
  | inr f ↦
      let big : 2 ^ 16 ≤ sum = ground arith in
      Folded-next (suc fuel) sum big (Folded-end fuel (sum % 2 ^ 16 + sum / 2 ^ 16) (omega arith))
]

-- Three rounds are enough for 32 bits.
fold-Folded : (fuel sum : ℕ) → sum < 2 ^ 32 → Folded sum (fold (suc (suc (suc fuel))) sum)
fold-Folded fuel sum h = elim (Bool-cases (ltb sum (2 ^ 16))) [
  | inl t ↦ Folded-end (suc (suc fuel)) sum (ltb→lt sum (2 ^ 16) t)
  | inr f ↦
      let big : 2 ^ 16 ≤ sum = ground arith in
      Folded-next (suc (suc fuel)) sum big
        (fold_twice-Folded fuel (sum % 2 ^ 16 + sum / 2 ^ 16) (omega arith))
]

-- A word at an even place counts as a word.
total-append :
    (pre post : List ℕ) (a b : ℕ)
    → length pre % 2 ≡ 0
    → total (pre ++ a ∷ b ∷ post) ≡ total pre + (a * 256 + b) + total post
unfolding total
total-append [] post a b h = omega arith
total-append (c ∷ []) post a b h = absurd (omega arith)
total-append (c ∷ d ∷ pre) post a b h = omega (arith, total-append pre post a b (omega arith))

Bytes-replace :
    (pre post : List ℕ) (a b c d : ℕ)
    → Bytes (pre ++ a ∷ b ∷ post)
    → c < 256
    → d < 256
    → Bytes (pre ++ c ∷ d ∷ post)
Bytes-replace [] post a b c d h hc hd = (hc, (hd, h.1.1))
Bytes-replace (x ∷ pre) post a b c d h hc hd = (h.0, Bytes-replace pre post a b c d h.1 hc hd)

htons-bytes : (x : ℕ) → x < 2 ^ 16 → (htons x % 256 ≡ x / 256) × (htons x / 256 ≡ x % 256)
unfolding htons
htons-bytes x h = (omega arith, omega arith)

-- A sum that is a positive multiple of 2 ^ 16 - 1 folds to 2 ^ 16 - 1, whose complement is 0.
checksum_of-multiple :
    (fuel k : ℕ)
    → (k + 1) * 65535 < 2 ^ 32
    → complement (fold (suc (suc (suc fuel))) ((k + 1) * 65535)) ≡ some 0
unfolding htons
checksum_of-multiple fuel k h =
    let f = fold-Folded fuel ((k + 1) * 65535) h in
    let small = f.small in
    let positive = f.positive (omega arith) in
    let all_ones : f.result ≡ 65535 = omega (arith, f.same) in
    ap complement (f.returns ∙ ap some all_ones)

-- For a header of at most 2 ^ 16 bytes whose checksum field, at an even place, is 0, `ip_checksum` ends,
-- with fuel for three rounds; with the checksum stored in the field, low byte first, the header's
-- checksum is 0.
pub ip_checksum-verifies :
    (fuel : ℕ) (pre post : List ℕ)
    → Bytes (pre ++ 0 ∷ 0 ∷ post)
    → length pre % 2 ≡ 0
    → length (pre ++ 0 ∷ 0 ∷ post) ≤ 2 ^ 16
    → (c : ℕ) × (ip_checksum (suc (suc (suc fuel))) (pre ++ 0 ∷ 0 ∷ post) ≡ some c)
      × (ip_checksum (suc (suc (suc fuel))) (pre ++ c % 256 ∷ c / 256 ∷ post) ≡ some 0)
unfolding ip_checksum
ip_checksum-verifies fuel pre post bytes even short =
    let sum = total (pre ++ 0 ∷ 0 ∷ post) in
    let bound = total-le (pre ++ 0 ∷ 0 ∷ post) bytes in
    let f = fold-Folded fuel sum (omega arith) in
    let small = f.small in
    let first : sum_bytes (pre ++ 0 ∷ 0 ∷ post) 0 ≡ sum =
      sum_bytes-total (pre ++ 0 ∷ 0 ∷ post) 0 bytes (omega arith) ∙ omega arith in
    let x : ℕ = 65535 - f.result in
    let c : ℕ = htons x in
    let halves = htons-bytes x (omega arith) in
    let hi : c % 256 < 256 = omega arith in
    let lo : c / 256 < 256 = omega (arith, halves.1) in
    let size : length (pre ++ c % 256 ∷ c / 256 ∷ post) ≡ length (pre ++ 0 ∷ 0 ∷ post) =
      length-append pre (c % 256 ∷ c / 256 ∷ post) ∙ sym (length-append pre (0 ∷ 0 ∷ post)) in
    let second : sum_bytes (pre ++ c % 256 ∷ c / 256 ∷ post) 0 ≡ (f.times + 1) * 65535 =
      sum_bytes-total (pre ++ c % 256 ∷ c / 256 ∷ post) 0
        (Bytes-replace pre post 0 0 (c % 256) (c / 256) bytes hi lo) (omega arith)
      ∙ omega (
        arith,
        total-append pre post (c % 256) (c / 256) even,
        total-append pre post 0 0 even,
        halves.0,
        halves.1,
        f.same,
      ) in
    (
      c,
      ap (λ n. complement (fold (suc (suc (suc fuel))) n)) first ∙ ap complement f.returns,
      ap (λ n. complement (fold (suc (suc (suc fuel))) n)) second
          ∙ checksum_of-multiple fuel f.times (omega (arith, f.same)),
    )
