-- ===== src/Fs/Tarfs/Init/Termination.antt =====
-- `tarfs_init` over any memory, whatever bytes stand in it.
use amazing_os.Base.{
  ℕ, zero, suc, ◌+◌, ◌-◌, ◌*◌, ◌%◌, ◌^◌, ◌≤◌, ◌<◌, ◌≡◌, refl, ◌∙◌, ap, sym, inl, inr, false, ◌&&◌,
  ◌||◌, List, [], ◌∷◌, some, arith, if◌then◌else◌, ◌==◌, length, length-append, leb, Bool-cases,
}
use amazing_os.Base.Memory.{Memory}
use amazing_os.Fs.CString.{CString}
use amazing_os.Fs.Node.{VfsNode}
use amazing_os.Fs.Tarfs.{parse_octal}
use amazing_os.Fs.Tarfs.Init.{
  read_bytes, header_name, header_size, next_header, member_node, absorb, init_loop, tarfs_init,
}
use native.Mathlib.Nat.{mod-le, pow-suc, pow-succ', mul_assoc}

pow_pos : (k : ℕ) → 1 ≤ 8 ^ k
pow_pos zero = omega arith
pow_pos (suc k) = omega (arith, pow_pos k, pow-suc 8 k)

-- A field of `k` bytes stands for less than 8 ^ k, whatever the bytes are.
parse_octal-lt : (val b : ℕ) (str : List ℕ) → val < b → parse_octal val str < b * 8 ^ length str
unfolding parse_octal
parse_octal-lt val b [] h = omega arith
parse_octal-lt val b (c ∷ str) h =
    let v = if leb b'0' c && leb c b'7' then (val * 8 + (c - b'0')) % 2 ^ 64 else val in
    let small : v < b * 8 = ground (arith, mod-le (val * 8 + (c - b'0')) (2 ^ 64)) in
    let scale : b * 8 ^ suc (length str) ≡ b * 8 * 8 ^ length str =
      ap (λ p. b * p) (pow-succ' 8 (length str)) ∙ sym (mul_assoc b 8 (8 ^ length str)) in
    let step = parse_octal-lt v (b * 8) str small in
    let one : 1 ≤ 8 ^ length str = pow_pos (length str) in
    let here : b ≤ b * 8 * 8 ^ length str = grind arith in
    rw scale (elim (Bool-cases (c == 0 || c == b' ')) [
      | inl stop ↦ rw (stop, parse_octal) (omega arith)
      | inr more ↦ rw (more, parse_octal) step
    ])

length-read_bytes : (n : ℕ) (m : Memory) (a : ℕ) → length (read_bytes n m a) ≡ n
unfolding read_bytes
length-read_bytes zero m a = refl
length-read_bytes (suc n) m a = omega (arith, length-read_bytes n m (a + 1))

header_size-lt : (m : Memory) (curr : ℕ) → header_size m curr < 8 ^ 12
unfolding header_size
header_size-lt m curr =
    let k = parse_octal-lt 0 1 (read_bytes 12 m (curr + 124)) (omega arith) in
    let l = length-read_bytes 12 m (curr + 124) in rw l at k

next_header-lt : (m : Memory) (curr end : ℕ) → curr < end → end ≤ 2 ^ 63 → curr < next_header m curr
unfolding next_header
next_header-lt m curr end lt wide = omega (arith, header_size-lt m curr)

length-absorb :
    (s : CString) (n : VfsNode) (nodes : List VfsNode)
    → length nodes ≤ 128
    → length (absorb s n nodes) ≤ 128
unfolding absorb
length-absorb [] n nodes h = h
length-absorb (c ∷ s) n nodes h = ground (arith, length-append nodes (n ∷ []))

init_loop_total :
    (fuel : ℕ) (m : Memory) (curr end : ℕ) (nodes : List VfsNode)
    → end ≤ 2 ^ 63
    → end - curr < fuel
    → length nodes ≤ 128
    → (out : List VfsNode) × (init_loop fuel m curr end nodes ≡ some out) × (length out ≤ 128)
unfolding init_loop
init_loop_total zero m curr end nodes wide fuel room = absurd (omega arith)
init_loop_total (suc k) m curr end nodes wide fuel room = elim (Bool-cases (leb end curr)) [
  | inl over ↦ (nodes, rw over, room)
  | inr under ↦ elim (Bool-cases (m curr == 0)) [
    | inl stop ↦ (nodes, rw (under, stop), room)
    | inr live ↦
        let lt : curr < end = ground arith in
        rw (under, live)
          (init_loop_total k m (next_header m curr) end _ wide
            (omega (arith, next_header-lt m curr end lt wide))
            (length-absorb (header_name m curr) (member_node m curr) nodes room))
  ]
]

-- Whatever stands in memory, the walk over a range that is not empty, above 0 and up to 2 ^ 63 ends,
-- with at most 128 nodes.
pub tarfs_init_total :
    (m : Memory) (start end : ℕ)
    → 0 < start
    → start < end
    → end ≤ 2 ^ 63
    → (out : List VfsNode) × (tarfs_init m start end ≡ some (some out)) × (length out ≤ 128)
unfolding tarfs_init
tarfs_init_total m start end pos lt wide =
    let ok : (start == 0 || end == 0 || leb end start) ≡ false = ground arith in
    let (out, e, room) =
      init_loop_total (end - start + 1) m start end [] wide (omega arith) (omega arith) in
    (out, rw (ok, e), room)
