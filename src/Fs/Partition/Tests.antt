-- ===== src/Fs/Partition/Tests.antt =====
-- A disk with a table of two entries, of which the second is exFAT's and starts at sector 9.
use amazing_os.Base.{
  ℕ, zero, suc, ◌-◌, ◌+◌, ◌/◌, ◌%◌, ◌<◌, ◌≡◌, refl, ◌&&◌, ◌==◌, leb, ltb, some, if◌then◌else◌,
  arith, get_or,
}
use amazing_os.Base.Memory.{Memory}
use amazing_os.Fs.Node.{u64}
use amazing_os.Fs.Exfat.{Ahci}
use amazing_os.Fs.Exfat.Writing.{has_name}
use amazing_os.Fs.Partition.{gpt_sig, exfat_gpt_guid, find_exfat_partition}
use amazing_os.Fs.Partition.Gpt.{find_exfat_partition-first_exfat}

abbrev boot_record : Memory
boot_record a = if a == 510 then 0x55 else if a == 511 then 0xAA else 0

abbrev table_header : Memory
table_header a =
    if ltb a 8
    then get_or gpt_sig a 0
    else if a == 72
    then 2
    else if a == 80
    then 2
    else if a == 84
    then 128
    else 0

abbrev table_entries : Memory
table_entries a =
    if leb 128 a && ltb a 144 then get_or exfat_gpt_guid (a - 128) 0 else if a == 160 then 9 else 0

abbrev disk : Ahci ℕ
disk = record {
  read_sectors = λ lba count d.
      some (if lba == 0 then boot_record else if lba == 1 then table_header else table_entries);
  write_sectors = λ lba count m d. some d;
}

entries_read : (i : ℕ) → i < 2 → disk.read_sectors ((2 + i / 4) % u64) 1 0 ≡ some table_entries
entries_read zero lt = refl
entries_read (suc zero) lt = refl
entries_read (suc (suc i)) lt = absurd (omega arith)

find_exfat_partition-first_exfat_example : find_exfat_partition disk 0 (λ _. 0) ≡ some 9
unfolding has_name
find_exfat_partition-first_exfat_example =
    find_exfat_partition-first_exfat disk 0 boot_record table_header (λ _. 0) (λ _. table_entries)
      refl refl refl refl (omega arith) (omega arith) entries_read
