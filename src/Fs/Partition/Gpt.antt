-- ===== src/Fs/Partition/Gpt.antt =====
-- The search of the partition table against the entries in their sectors.
use native.Mathlib.Nat.{mul-le-mul_right, zero-mod, div-add-mod', mod-lt, suc-mul, div-eq-sub-div}
use amazing_os.Base.{
  ℕ, zero, suc, ◌+◌, ◌*◌, ◌/◌, ◌%◌, ◌<◌, ◌≤◌, ◌≡◌, ◌≢◌, refl, ◌∙◌, ap, sym, subst, Bool, true,
  false, ◌==◌, ltb, List, [], ◌∷◌, length, Option, none, some, if◌then◌else◌, arith, Bool-cases,
  inl, inr,
}
use amazing_os.Base.Memory.{Memory}
use amazing_os.Fs.Node.{u64}
use amazing_os.Fs.Exfat.{Ahci, load_32}
use amazing_os.Fs.Exfat.Chain.{div_at, mod_at}
use amazing_os.Fs.Exfat.Writing.{has_name}
use amazing_os.Fs.Exfat.Directory.{load_16, load_64}
use amazing_os.Fs.Partition.{
  exfat_gpt_guid, filled, gpt_sig, visit_entry, is_exfat_entry, starting_lba, load_sector, gpt_loop,
  find_in_gpt, find_in_mbr, find_in_table, find_in_disk, find_exfat_partition,
}

-- The next entry is in the same sector, unless it is the first one there.
same_sector : (per i : ℕ) → 0 < per → (i + 1) % per ≢ 0 → (i + 1) / per ≡ i / per
same_sector per i pos ne =
    let q = i / per in
    let r = i % per in
    let at : q * per + r ≡ i = div-add-mod' i per in
    let lt : r < per = mod-lt i pos in
    let next : i + 1 ≡ q * per + (r + 1) = omega (arith, at) in
    elim (Bool-cases (ltb (r + 1) per)) [
      | inl inside ↦ ap (λ a. a / per) next ∙ div_at q (r + 1) per (ground arith)
      | inr last ↦
          let full : r + 1 ≡ per = ground arith in
          let first : i + 1 ≡ suc q * per + 0 = omega (arith, at, suc-mul q per, full) in
          absurd (ne (ap (λ a. a % per) first ∙ mod_at (suc q) 0 per pos))
    ]

-- The first of the entries `i` up to `i + n` that is exFAT's, where `sectors k` is sector `k` of the
-- table and holds `per` entries.
abbrev pub first_exfat : (sectors : ℕ → Memory) → (per entry_size n i : ℕ) → ℕ
first_exfat sectors per entry_size zero i = 0
first_exfat sectors per entry_size (suc n) i =
    let rest = first_exfat sectors per entry_size n (i + 1) in
    if is_exfat_entry (sectors (i / per)) (i % per * entry_size)
    then starting_lba (sectors (i / per)) (i % per * entry_size)
    else rest

-- A buffer whose first 512 bytes are those of a sector.
abbrev Holds : (buf sector : Memory) → Type 0
Holds buf sector = (a : ℕ) → a < 512 → buf a ≡ sector a

has_name-Holds :
    (name : List ℕ) (buf sector : Memory) (place : ℕ)
    → place + length name ≤ 512
    → Holds buf sector
    → has_name name buf place ≡ has_name name sector place
unfolding has_name
has_name-Holds [] buf sector place fits same = refl
has_name-Holds (c ∷ name) buf sector place fits same =
    let here = same place (omega arith) in
    let rest = has_name-Holds name buf sector (place + 1) (omega arith) same in
    ap (λ b. if b == c then has_name name buf (place + 1) else false) here
    ∙ ap (λ b. if sector place == c then b else false) rest

starting_lba-Holds :
    (buf sector : Memory) (place : ℕ)
    → place + 40 ≤ 512
    → Holds buf sector
    → starting_lba buf place ≡ starting_lba sector place
starting_lba-Holds buf sector place fits same = omega (
  arith,
  same (place + 32) (omega arith),
  same (place + 32 + 1) (omega arith),
  same (place + 32 + 2) (omega arith),
  same (place + 32 + 3) (omega arith),
  same (place + 32 + 4) (omega arith),
  same (place + 32 + 4 + 1) (omega arith),
  same (place + 32 + 4 + 2) (omega arith),
  same (place + 32 + 4 + 3) (omega arith),
)

module _ {D : Type 0} (ahci : Ahci D) (d : D) (lba entry_size per count : ℕ) (sectors : ℕ → Memory)
    (pos : 0 < per) (large : 40 ≤ entry_size) (room : per * entry_size ≤ 512)
    (readable : (i : ℕ)
      → i < count
      → ahci.read_sectors ((lba + i / per) % u64) 1 d ≡ some (sectors (i / per))) where
  loaded :
      (i : ℕ) (buf : Memory)
      → i < count
      → (i % per ≢ 0 → Holds buf (sectors (i / per)))
      → (after : Memory) × (load_sector ahci d lba per i buf ≡ some after)
        × Holds after (sectors (i / per))
  loaded i buf lt here = elim (Bool-cases (i % per == 0)) [
    | inl first ↦ (
      (λ a. if ltb a 512 then sectors (i / per) a else buf a),
      rw first (ap (filled buf) (readable i lt)),
      λ a low. ground arith,
    )
    | inr later ↦ (buf, rw later refl, here (ground arith))
  ]

  -- An entry lies in its sector as far as the search reads it.
  in_sector : (i : ℕ) → i % per * entry_size + 40 ≤ 512
  in_sector i =
      let lt = mod-lt i pos in
      let le : suc (i % per) * entry_size ≤ per * entry_size =
        mul-le-mul_right {m = suc (i % per)} {n = per} entry_size (omega arith) in
      omega (arith, le, suc-mul (i % per) entry_size)

  gpt_loop-first_exfat :
      (n i : ℕ) (buf : Memory)
      → i + n ≤ count
      → (i % per ≢ 0 → Holds buf (sectors (i / per)))
      → gpt_loop ahci d lba entry_size per n i buf ≡ first_exfat sectors per entry_size n i
  unfolding gpt_loop
  gpt_loop-first_exfat zero i buf lt here = refl
  gpt_loop-first_exfat (suc n) i buf lt here =
      let (after, read, same) = loaded i buf (omega arith) here in
      let rest =
        gpt_loop-first_exfat n (i + 1) after (omega arith)
          (λ ne. subst (λ k. Holds after (sectors k)) (sym (same_sector per i pos ne)) same) in
      let place = i % per * entry_size in
      let fits = in_sector i in
      ap (λ r. visit_entry r place (λ buf. gpt_loop ahci d lba entry_size per n (i + 1) buf)) read
      ∙ ap (λ a. if is_exfat_entry after place then starting_lba after place else a) rest
      ∙ ap
          (λ (b : Bool).
            if b then starting_lba after place else first_exfat sectors per entry_size n (i + 1))
          (has_name-Holds exfat_gpt_guid after (sectors (i / per)) place (omega arith) same)
      ∙ ap
          (λ a.
            if is_exfat_entry (sectors (i / per)) place
            then a
            else first_exfat sectors per entry_size n (i + 1))
          (starting_lba-Holds after (sectors (i / per)) place fits same)

-- A sector has room for an entry.
some_entry : (size : ℕ) → 0 < size → size ≤ 512 → 0 < 512 / size
some_entry size pos fits = omega (arith, div-eq-sub-div pos fits)

find_in_gpt-first_exfat :
    {D : Type 0} (ahci : Ahci D) (d : D) (gpt uninitialised : Memory) (sectors : ℕ → Memory)
    (count size lba : ℕ)
    → load_32 gpt 80 ≡ count
    → load_32 gpt 84 ≡ size
    → load_64 gpt 72 ≡ lba
    → 40 ≤ size
    → size ≤ 512
    → ((i : ℕ)
        → i < count
        → ahci.read_sectors ((lba + i / (512 / size)) % u64) 1 d
          ≡ some (sectors (i / (512 / size))))
    → find_in_gpt ahci d gpt uninitialised ≡ some (first_exfat sectors (512 / size) size count 0)
unfolding find_in_gpt
find_in_gpt-first_exfat ahci d gpt uninitialised sectors count size lba at_count at_size at_lba
      large fits readable =
    let per = 512 / size in
    let pos : 0 < size = omega arith in
    let room : 0 < per = some_entry size pos fits in
    let whole : per * size ≤ 512 = omega (arith, div-add-mod' 512 size) in
    let sized : (size == 0) ≡ false = ground arith in
    let filled : (per == 0) ≡ false = ground arith in
    let loop : ℕ → ℕ → ℕ → ℕ → Option ℕ = λ c n p l.
      if c == 0
      then some 0
      else if p == 0
      then none
      else some (gpt_loop ahci d l n p c 0 uninitialised) in
    let start : ℕ → ℕ → ℕ → Option ℕ = λ c n l. loop c n (if n == 0 then 0 else 512 / n) l in
    let found =
      gpt_loop-first_exfat ahci d lba size per count sectors room large whole readable count 0
        uninitialised (omega arith) (λ ne. absurd (ne (zero-mod per))) in
    ap (λ c. start c (load_32 gpt 84) (load_64 gpt 72)) at_count
    ∙ ap (λ n. start count n (load_64 gpt 72)) at_size
    ∙ ap (start count size) at_lba
    ∙ ap (λ (b : Bool). loop count size (if b then 0 else per) lba) sized
    ∙ elim (Bool-cases (count == 0)) [
      | inl empty ↦
          let e : count ≡ 0 = ground arith in
          ap (λ c. loop c size per lba) e
          ∙ sym (ap (λ c. some (first_exfat sectors per size c 0)) e)
      | inr more ↦
          ap
            (λ (b : Bool).
              if b
              then some 0
              else if per == 0
              then none
              else some (gpt_loop ahci d lba size per count 0 uninitialised))
            more
          ∙ ap
              (λ (b : Bool).
                if b then none else some (gpt_loop ahci d lba size per count 0 uninitialised))
              filled
          ∙ ap some found
    ]

-- Where the boot record has its signature, the second sector is the header of a GUID partition table
-- with entries of 40 to 512 bytes, and the sectors of all its entries can be read, the search returns
-- the start of the first partition with the type of exFAT, and 0 where there is none, whatever the
-- buffer holds before it.
pub find_exfat_partition-first_exfat :
    {D : Type 0} (ahci : Ahci D) (d : D) (mbr gpt uninitialised : Memory) (sectors : ℕ → Memory)
    → ahci.read_sectors 0 1 d ≡ some mbr
    → load_16 mbr 510 ≡ 0xAA55
    → ahci.read_sectors 1 1 d ≡ some gpt
    → has_name gpt_sig gpt 0 ≡ true
    → 40 ≤ load_32 gpt 84
    → load_32 gpt 84 ≤ 512
    → ((i : ℕ)
        → i < load_32 gpt 80
        → ahci.read_sectors ((load_64 gpt 72 + i / (512 / load_32 gpt 84)) % u64) 1 d
          ≡ some (sectors (i / (512 / load_32 gpt 84))))
    → find_exfat_partition ahci d uninitialised
      ≡ some (first_exfat sectors (512 / load_32 gpt 84) (load_32 gpt 84) (load_32 gpt 80) 0)
unfolding find_exfat_partition
find_exfat_partition-first_exfat ahci d mbr gpt uninitialised sectors boot signed header named large
      fits readable =
    ap (find_in_disk ahci d uninitialised) boot
    ∙ ap
        (λ a.
          if a == 0xAA55
          then find_in_table ahci d mbr uninitialised (ahci.read_sectors 1 1 d)
          else some 0)
        signed
    ∙ ap (find_in_table ahci d mbr uninitialised) header
    ∙ ap
        (λ (b : Bool).
          if b then find_in_gpt ahci d gpt uninitialised else some (find_in_mbr ahci d 4 446 mbr))
        named
    ∙ find_in_gpt-first_exfat ahci d gpt uninitialised sectors (load_32 gpt 80) (load_32 gpt 84)
        (load_64 gpt 72) refl refl refl large fits readable
