-- ===== src/Fs/Partition.antt =====
-- Kernel/CrecentKernel/src/fs/partition.cpp: the search for a partition with exFAT, in a GUID partition
-- table or in the master boot record.
pub mod Gpt
mod Tests
use amazing_os.Base.{
  ℕ, zero, suc, ◌+◌, ◌*◌, ◌/◌, ◌%◌, ◌^◌, Bool, true, false, not, ◌==◌, ltb, Option, none, some,
  List, [], ◌∷◌, if◌then◌else◌,
}
use amazing_os.Base.Memory.{Memory}
use amazing_os.Fs.Node.{u64}
use amazing_os.Fs.Exfat.{Ahci, load_32}
use amazing_os.Fs.Exfat.Writing.{has_name}
use amazing_os.Fs.Exfat.Directory.{load_16, load_64}

abbrev pub exfat_gpt_guid : List ℕ
exfat_gpt_guid =
    0xA2 ∷ 0xA0 ∷ 0xD0 ∷ 0xEB ∷ 0xE5 ∷ 0xB9 ∷ 0x33 ∷ 0x44 ∷ 0x87 ∷ 0xC0 ∷ 0x68 ∷ 0xB6 ∷ 0xB7 ∷ 0x26
    ∷ 0x99 ∷ 0xC7 ∷ []

-- "EFI PART".
abbrev pub gpt_sig : List ℕ
gpt_sig = 0x45 ∷ 0x46 ∷ 0x49 ∷ 0x20 ∷ 0x50 ∷ 0x41 ∷ 0x52 ∷ 0x54 ∷ []

-- `entry->partition_type_guid` and `entry->starting_lba`.
abbrev pub is_exfat_entry : (entry_buf : Memory) → (place : ℕ) → Bool
is_exfat_entry entry_buf place = has_name exfat_gpt_guid entry_buf place

abbrev pub starting_lba : (entry_buf : Memory) → (place : ℕ) → ℕ
starting_lba entry_buf place = load_64 entry_buf (place + 32)

-- An entry whose sector is there; `rest` is the search from the next one on.
abbrev pub visit_entry : Option Memory → (place : ℕ) → (rest : Memory → ℕ) → ℕ
visit_entry none place rest = 0
visit_entry (some buf) place rest =
    if is_exfat_entry buf place then starting_lba buf place else rest buf

-- `uint8_t entry_buf[512]` and the stack behind it, after a sector was read into the buffer.
abbrev pub filled : (before : Memory) → Option Memory → Option Memory
filled before none = none
filled before (some sector) = some (λ a. if ltb a 512 then sector a else before a)

module _ {D : Type 0} (ahci : Ahci D) (d : D) where
  -- A sector is read where its first entry is due. Behind its 512 bytes stands what stood there before: an
  -- entry of fewer than 40 bytes may be read on there.
  abbrev pub load_sector : (entries_lba per_sector i : ℕ) → (entry_buf : Memory) → Option Memory
  load_sector entries_lba per_sector i entry_buf =
      if i % per_sector == 0
      then filled entry_buf (ahci.read_sectors ((entries_lba + i / per_sector) % u64) 1 d)
      else some entry_buf

  -- Entries `i` up to `i + n`.
  pub gpt_loop : (entries_lba entry_size per_sector n i : ℕ) → (entry_buf : Memory) → ℕ
  gpt_loop entries_lba entry_size per_sector zero i entry_buf = 0
  gpt_loop entries_lba entry_size per_sector (suc n) i entry_buf =
      visit_entry (load_sector entries_lba per_sector i entry_buf) (i % per_sector * entry_size)
        (λ buf. gpt_loop entries_lba entry_size per_sector n (i + 1) buf)

  -- `none` is a division by zero, for entries of no byte or of more than a sector.
  pub find_in_gpt : (gpt : Memory) → (uninitialised : Memory) → Option ℕ
  unfolding gpt_loop
  find_in_gpt gpt uninitialised =
      let entry_size = load_32 gpt 84 in
      let per_sector = if entry_size == 0 then 0 else 512 / entry_size in
      if load_32 gpt 80 == 0
      then some 0
      else if per_sector == 0
      then none
      else some (gpt_loop (load_64 gpt 72) entry_size per_sector (load_32 gpt 80) 0 uninitialised)

  -- The four entries of the boot record; 7 stands for exFAT and NTFS.
  pub find_in_mbr : (n place : ℕ) → (mbr : Memory) → ℕ
  find_in_mbr zero place mbr = 0
  find_in_mbr (suc n) place mbr =
      let rest = find_in_mbr n (place + 16) mbr in
      if mbr (place + 4) == 0x07 then load_32 mbr (place + 8) else rest

  abbrev pub find_in_table : (mbr uninitialised : Memory) → Option Memory → Option ℕ
  find_in_table mbr uninitialised none = some 0
  find_in_table mbr uninitialised (some gpt) =
      if has_name gpt_sig gpt 0 then find_in_gpt gpt uninitialised else some (find_in_mbr 4 446 mbr)

  abbrev pub find_in_disk : (uninitialised : Memory) → Option Memory → Option ℕ
  find_in_disk uninitialised none = some 0
  find_in_disk uninitialised (some mbr) =
      if load_16 mbr 510 == 0xAA55
      then find_in_table mbr uninitialised (ahci.read_sectors 1 1 d)
      else some 0

  pub find_exfat_partition : (uninitialised : Memory) → Option ℕ
  find_exfat_partition uninitialised = find_in_disk uninitialised (ahci.read_sectors 0 1 d)
