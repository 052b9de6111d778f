-- ===== src/Fs/Node/Access.antt =====
-- Reads and writes of a node whose contents lie in memory.
use amazing_os.Base.{
  ℕ, ◌+◌, ◌-◌, ◌%◌, ◌^◌, ◌≤◌, ◌<◌, ◌≡◌, refl, ◌∙◌, ◌⊎◌, inl, inr, some, arith, min, leb, ltb,
  if◌then◌else◌, Bool-cases, tests, false,
}
use native.Mathlib.Nat.{mod-eq_of_lt}
use amazing_os.Base.Memory.{Memory, copy_bytes, copy_bytes-outside, copy_bytes_lem}
use amazing_os.Fs.Node.{VfsNode, clamp, ram_read, ram_write}

abbrev pub Apart : (a n b k : ℕ) → Type 0
Apart a n b k = (a + n ≤ b) ⊎ (b + k ≤ a)

clamp-min :
    (limit offset count : ℕ)
    → offset < limit
    → offset + count < 2 ^ 64
    → clamp limit offset count ≡ min count (limit - offset)
clamp-min limit offset count below fits = ground (arith, mod-eq_of_lt fits)

abbrev grown : VfsNode → ℕ → ℕ → VfsNode
grown node offset count = record node {
  size = if ltb node.size (offset + count) then offset + count else node.size;
}

module _ (node : VfsNode) (offset buffer count start : ℕ) (m : Memory)
    (has : node.contents ≡ some start) (fits : offset + count < 2 ^ 64) where
  -- A read whose `offset + count` fits 64 bits reads as many bytes as are asked for and there (none
  -- at or past the end), puts them into the buffer, and leaves all other memory as it was.
  pub ram_read_lem :
      Apart buffer
        (min count (node.size - offset))
        (start + offset)
        (min count (node.size - offset))
      → ((ram_read node offset (some buffer) count m).0 ≡ min count (node.size - offset))
        × ((i : ℕ)
            → i < min count (node.size - offset)
            → (ram_read node offset (some buffer) count m).1 (buffer + i) ≡ m (start + offset + i))
        × ((a : ℕ)
            → (a < buffer) ⊎ (buffer + min count (node.size - offset) ≤ a)
            → (ram_read node offset (some buffer) count m).1 a ≡ m a)
  unfolding ram_read
  ram_read_lem apart = elim (Bool-cases (leb node.size offset)) [
    | inl past ↦
        let end : node.size ≤ offset = omega tests in
        rw (has, past) (omega arith, (λ i lt. absurd (omega arith)), λ a h. refl)
    | inr inside ↦
        let below : offset < node.size = ground arith in
        rw (has, inside, clamp-min node.size offset count below fits)
          (
            refl,
            (λ i lt. copy_bytes_lem _ m buffer (start + offset) i apart lt),
            λ a h. copy_bytes-outside _ m buffer (start + offset) a h,
          )
  ]

  -- A write that fits the capacity writes all of its bytes and grows the node if it has to.
  ram_write_lem :
      0 < count
      → offset + count ≤ node.capacity
      → ram_write node offset (some buffer) count m
        ≡ (count, grown node offset count, copy_bytes count m (start + offset) buffer)
  unfolding ram_write
  ram_write_lem pos room =
      let inside : leb node.capacity offset ≡ false = ground arith in
      let all : clamp node.capacity offset count ≡ count = ground (arith, mod-eq_of_lt fits) in
      rw (has, inside, all, mod-eq_of_lt fits)
        (elim (Bool-cases (ltb node.size (offset + count))) [ inl g ↦ rw g | inr g ↦ rw g ])

-- What is written to a node is read back: a write of `count` bytes, at least one, that fits the capacity
-- of a node with contents, which is below 2 ^ 64, writes all of them, if its buffer and that of the read lie apart from the
-- contents, and a read of `count` bytes at that place then returns them, whatever else the node holds.
pub ram_read-ram_write :
    (node : VfsNode) (offset buffer target count start : ℕ) (m : Memory)
    → node.contents ≡ some start
    → 0 < count
    → offset + count ≤ node.capacity
    → node.capacity < 2 ^ 64
    → Apart buffer count start node.capacity
    → Apart target count start node.capacity
    → let (written, node', m') = ram_write node offset (some buffer) count m in
      let (got, m2) = ram_read node' offset (some target) count m' in
      (written ≡ count) × (got ≡ count) × ((i : ℕ) → i < count → m2 (target + i) ≡ m (buffer + i))
ram_read-ram_write node offset buffer target count start m has pos room wide apart away =
    let fits : offset + count < 2 ^ 64 = omega arith in
    let g = grown node offset count in
    let m' = copy_bytes count m (start + offset) buffer in
    let size : offset + count ≤ g.size = ground arith in
    let all : min count (g.size - offset) ≡ count = omega arith in
    let read = ram_read_lem g offset target count start m' has fits (omega arith) in
    rw (ram_write_lem node offset buffer count start m has fits pos room) (
      refl,
      read.0 ∙ all,
      λ i lt.
          read.1 i (omega arith)
          ∙ copy_bytes_lem count m (start + offset) buffer i (omega arith) lt,
    )

-- The bound of a read is lost where `offset + count` wraps around to at most the size: such a read
-- asks for more than there is, and returns that count uncut.
pub ram_read_wraps :
    (node : VfsNode) (offset buffer count start : ℕ) (m : Memory)
    → node.contents ≡ some start
    → offset < node.size
    → node.size < 2 ^ 64
    → 2 ^ 64 ≤ offset + count
    → (offset + count) % 2 ^ 64 ≤ node.size
    → ((ram_read node offset (some buffer) count m).0 ≡ count) × (node.size - offset < count)
unfolding ram_read
ram_read_wraps node offset buffer count start m has inside wide over wraps =
    let below : leb node.size offset ≡ false = ground arith in
    let uncut : ltb node.size ((offset + count) % 2 ^ 64) ≡ false = ground arith in
    rw (has, below, uncut) (refl, omega arith)
