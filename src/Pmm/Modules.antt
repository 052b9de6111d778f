-- ===== src/Pmm/Modules.antt =====
-- `pmm_find_modules`: the modules that the boot loader names in its information. `info` is the 32-bit
-- word at an address.
use amazing_os.Base.{
  ℕ, zero, suc, ◌+◌, ◌-◌, ◌%◌, ◌^◌, ◌≤◌, ◌<◌, ◌≡◌, refl, ◌∙◌, inl, inr, true, false, ◌&&◌, Option,
  none, some, List, [], ◌∷◌, ◌++◌, arith, ◌==◌, leb, ltb, if◌then◌else◌, min, bit_and, length,
  length-append, Bool-cases,
}
use native.Mathlib.Nat.{mod-eq_of_lt}
use amazing_os.Pmm.{Module}

abbrev pub max_modules : ℕ
max_modules = 4

abbrev pub direct_map : ℕ
direct_map = 0xFFFF800000000000

-- The entries of the table of Multiboot 1.
pub read_modules : (n : ℕ) → (ℕ → ℕ) → (a : ℕ) → List Module
read_modules zero info a = []
read_modules (suc n) info a =
    record { start = info a; end = info (a + 4) } ∷ read_modules n info (a + 16)

pub find_modules_1 : (ℕ → ℕ) → (maddr : ℕ) → List Module
unfolding read_modules
find_modules_1 info maddr =
    if bit_and (info maddr) 8 == 0
    then []
    else read_modules (min (info (maddr + 20)) max_modules) info (info (maddr + 24) + direct_map)

-- `(size + 7) & ~7` on 32 bits.
abbrev pub padded : ℕ → ℕ
padded size = (size + 7) % 2 ^ 32 - (size + 7) % 8

-- What a tag of Multiboot 2 adds.
pub add_module : (ℕ → ℕ) → (curr : ℕ) → List Module → List Module
add_module info curr ms =
    if info curr == 3 && ltb (length ms) max_modules
    then ms ++ record { start = info (curr + 8); end = info (curr + 12) } ∷ []
    else ms

-- `none` means that the fuel ran out.
pub find_modules_2 : ℕ → (ℕ → ℕ) → (curr end : ℕ) → List Module → Option (List Module)
unfolding add_module
find_modules_2 zero info curr end ms = none
find_modules_2 (suc fuel) info curr end ms =
    let rest =
      find_modules_2 fuel info ((curr + padded (info (curr + 4))) % 2 ^ 64) end
        (add_module info curr ms) in
    if leb end curr
    then some ms
    else if info curr == 0 && info (curr + 4) == 8
    then some ms
    else rest

pub pmm_find_modules : (fuel magic maddr : ℕ) → (ℕ → ℕ) → Option (List Module)
unfolding find_modules_1 find_modules_2
pmm_find_modules fuel magic maddr info =
    if magic == 0x2badb002
    then some (find_modules_1 info maddr)
    else if magic == 0x36d76289
    then find_modules_2 fuel info (maddr + 8) (maddr + info maddr) []
    else some []

length-read_modules : (n : ℕ) (info : ℕ → ℕ) (a : ℕ) → length (read_modules n info a) ≡ n
unfolding read_modules
length-read_modules zero info a = refl
length-read_modules (suc n) info a = omega (arith, length-read_modules n info (a + 16))

length-add_module :
    (info : ℕ → ℕ) (curr : ℕ) (ms : List Module)
    → length ms ≤ 4
    → length (add_module info curr ms) ≤ 4
unfolding add_module
length-add_module info curr ms h =
    ground
      (arith, length-append ms (record { start = info (curr + 8); end = info (curr + 12) } ∷ []))

length-find_modules_1 : (info : ℕ → ℕ) (maddr : ℕ) → length (find_modules_1 info maddr) ≤ 4
unfolding find_modules_1
length-find_modules_1 info maddr = elim (Bool-cases (bit_and (info maddr) 8 == 0)) [
  | inl no_table ↦ rw no_table (omega arith)
  | inr table ↦
      rw
        (
          table,
          length-read_modules (min (info (maddr + 20)) 4) info (info (maddr + 24) + direct_map),
        )
        (omega arith)
]

-- The tags from an address on, each as large as it says, up to the end or an end tag.
pub data Tags (info : ℕ → ℕ) (end : ℕ) : ℕ → Type 0 where
  past : {curr : ℕ} → end ≤ curr → Tags info end curr
  end_tag : {curr : ℕ} → curr < end → info curr ≡ 0 → info (curr + 4) ≡ 8 → Tags info end curr
  tag :
      {curr : ℕ}
      → curr < end
      → 0 < info (curr + 4)
      → info (curr + 4) < 2 ^ 32 - 8
      → Tags info end (curr + padded (info (curr + 4)))
      → Tags info end curr

find_modules_2_total :
    (fuel : ℕ) (info : ℕ → ℕ) (curr end : ℕ) (ms : List Module)
    → Tags info end curr
    → end < 2 ^ 64 - 2 ^ 32
    → end - curr < fuel
    → length ms ≤ 4
    → (found : List Module) × (find_modules_2 fuel info curr end ms ≡ some found)
      × (length found ≤ 4)
unfolding find_modules_2
find_modules_2_total zero info curr end ms tags wide enough room = absurd (omega arith)
find_modules_2_total (suc k) info curr end ms (past over) wide enough room =
    let e : leb end curr ≡ true = ground arith in (ms, rw e, room)
find_modules_2_total (suc k) info curr end ms (end_tag below t z) wide enough room =
    let e : leb end curr ≡ false = ground arith in (ms, rw (e, t, z), room)
find_modules_2_total (suc k) info curr end ms (tag below pos small tags) wide enough room =
    let e : leb end curr ≡ false = ground arith in
    let next : (curr + padded (info (curr + 4))) % 2 ^ 64 ≡ curr + padded (info (curr + 4)) =
      mod-eq_of_lt (omega arith) in
    elim (Bool-cases (info curr == 0 && info (curr + 4) == 8)) [
      | inl stop ↦ (ms, rw (e, stop), room)
      | inr more ↦
          let (found, r, count) =
            find_modules_2_total k info (curr + padded (info (curr + 4))) end
              (add_module info curr ms) tags wide (omega arith)
              (length-add_module info curr ms room) in
          (found, step k info curr end ms e more next ∙ r, count)
    ]
  where
    step :
        (k : ℕ) (info : ℕ → ℕ) (curr end : ℕ) (ms : List Module)
        → leb end curr ≡ false
        → (info curr == 0 && info (curr + 4) == 8) ≡ false
        → (curr + padded (info (curr + 4))) % 2 ^ 64 ≡ curr + padded (info (curr + 4))
        → find_modules_2 (suc k) info curr end ms
          ≡ find_modules_2 k info (curr + padded (info (curr + 4))) end (add_module info curr ms)
    step k info curr end ms e more next = rw (e, more, next) refl

-- The search for modules ends, with no more modules than the arrays have room for, if under the magic
-- number of Multiboot 2 the information is a sequence of tags that have a size, one that can be
-- rounded up in 32 bits, and the information ends more than 2 ^ 32 bytes below 2 ^ 64. Fuel for one step more than the information has bytes is enough.
pub pmm_find_modules_total :
    (fuel magic maddr : ℕ) (info : ℕ → ℕ)
    → (magic ≡ 0x36d76289 → Tags info (maddr + info maddr) (maddr + 8))
    → maddr + info maddr < 2 ^ 64 - 2 ^ 32
    → info maddr < fuel
    → (found : List Module) × (pmm_find_modules fuel magic maddr info ≡ some found)
      × (length found ≤ 4)
unfolding pmm_find_modules
pmm_find_modules_total fuel magic maddr info tags wide enough =
    elim (Bool-cases (magic == 0x2badb002)) [
      | inl first ↦ (find_modules_1 info maddr, rw first, length-find_modules_1 info maddr)
      | inr other ↦ elim (Bool-cases (magic == 0x36d76289)) [
        | inl second ↦
            rw (other, second)
              (find_modules_2_total fuel info (maddr + 8) (maddr + info maddr) []
                (tags (ground arith)) wide (omega arith) (omega arith))
        | inr unknown ↦ ([], rw (other, unknown), omega arith)
      ]
    ]
