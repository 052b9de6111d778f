-- ===== src/Fs/Exfat/Writing.antt =====
-- `Exfat::write` and `Exfat::init`.
use amazing_os.Base.{
  ℕ, zero, suc, ◌+◌, ◌-◌, ◌*◌, ◌/◌, ◌%◌, ◌^◌, Bool, true, false, ◌&&◌, ◌||◌, ◌==◌, ltb, Option,
  none, some, if◌then◌else◌, List, [], ◌∷◌,
}
use amazing_os.Base.Memory.{Memory}
use amazing_os.Fs.Node.{failed, u64}
use amazing_os.Fs.Exfat.{
  Ahci, Volume, ExfatFileInfo, u32, is_end, traverse_clusters, next_cluster, copy_across, sector_of,
  chunk_of, load_32,
}

module _ {D : Type 0} (ahci : Ahci D) (v : Volume) where
  -- A cluster that is written in part is read before. One that cannot be read ends the call.
  abbrev pub fetch : (partly : Bool) → (cluster : ℕ) → D → (cluster_buf : Memory) → Option Memory
  fetch partly cluster d cluster_buf =
      if partly
      then ahci.read_sectors (sector_of ahci v cluster) v.sectors_per_cluster d
      else some cluster_buf

  -- The bytes that are written, or `failed`, and the disk. The buffer of a cluster keeps what the
  -- cluster before has left in it.
  pub write_loop :
      (fuel flags buffer count bytes_written cluster cluster_offset : ℕ)
      → Memory
      → (cluster_buf : Memory) → D
      → ℕ × D
  unfolding next_cluster copy_across
  write_loop zero flags buffer count bytes_written cluster cluster_offset m cluster_buf d =
      (bytes_written, d)
  write_loop (suc fuel) flags buffer count bytes_written cluster cluster_offset m cluster_buf d =
      let partly = ltb 0 cluster_offset || ltb (count - bytes_written) v.cluster_size in
      let chunk = chunk_of ahci v count bytes_written cluster_offset in
      elim (ltb bytes_written count) [
        | false ↦ (bytes_written, d)
        | true ↦ elim (fetch partly cluster d cluster_buf) [
          | none ↦ (failed, d)
          | some before ↦
              let after = copy_across chunk before cluster_offset m (buffer + bytes_written) in
              elim (ahci.write_sectors (sector_of ahci v cluster) v.sectors_per_cluster after d) [
                | none ↦ (failed, d)
                | some d1 ↦
                    let next = next_cluster ahci v flags cluster d1 in
                    elim (ltb (bytes_written + chunk) count && is_end next) [
                      | true ↦ (bytes_written + chunk, d1)
                      | false ↦
                          write_loop fuel flags buffer count (bytes_written + chunk) next 0 m after
                            d1
                    ]
              ]
        ]
      ]

  -- The size grows when the write ends behind it; a write that fails leaves it.
  abbrev pub grow : (info : ExfatFileInfo) → (offset : ℕ) → ℕ × D → ℕ × (ExfatFileInfo × D)
  grow info offset (written, d) = if written == failed then (failed, (info, d)) else (
    written,
    (
      (if ltb info.size ((offset + written) % u64)
          then record info { size = (offset + written) % u64 }
          else info),
      d,
    ),
  )

  -- `uninitialised` is what the local buffer holds when the call starts.
  pub write_from :
      (info : ExfatFileInfo)
      → (offset buffer count cluster : ℕ) → Memory
      → (uninitialised : Memory) → D
      → ℕ × (ExfatFileInfo × D)
  unfolding write_loop
  write_from info offset buffer count cluster m uninitialised d =
      if is_end cluster
      then (failed, (info, d))
      else grow info offset (
          write_loop (suc count) info.flags buffer count 0 cluster (offset % v.cluster_size) m
            uninitialised d)

  -- The node has its data, and the buffer is no null pointer.
  pub exfat_write :
      (info : ExfatFileInfo)
      → (offset buffer count : ℕ) → Memory
      → (uninitialised : Memory) → D
      → ℕ × (ExfatFileInfo × D)
  unfolding write_from traverse_clusters
  exfat_write info offset buffer count m uninitialised d =
      write_from info offset buffer count
        (traverse_clusters ahci v info.first_cluster info.flags (offset / v.cluster_size % u32) d) m
        uninitialised d

-- "EXFAT   ", which stands at place 3 of the boot sector.
abbrev pub fs_name : List ℕ
fs_name = 0x45 ∷ 0x58 ∷ 0x46 ∷ 0x41 ∷ 0x54 ∷ 0x20 ∷ 0x20 ∷ 0x20 ∷ []

unfoldable pub has_name : List ℕ → Memory → (place : ℕ) → Bool
has_name [] vbr place = true
has_name (c ∷ cs) vbr place = if vbr place == c then has_name cs vbr (place + 1) else false

abbrev pub parse_vbr : (partition_lba : ℕ) → Memory → Volume
parse_vbr partition_lba vbr = record {
  bytes_per_sector = 2 ^ vbr 108 % u32;
  sectors_per_cluster = 2 ^ vbr 109 % u32;
  cluster_size = 2 ^ vbr 109 % u32 * (2 ^ vbr 108 % u32) % u32;
  fat_start_sector = (partition_lba + load_32 vbr 80) % u32;
  cluster_heap_start_sector = (partition_lba + load_32 vbr 88) % u32;
  root_dir_cluster = load_32 vbr 96;
  cluster_count = load_32 vbr 92;
}

abbrev pub mount_vbr : (partition_lba : ℕ) → Option Memory → Option Volume
unfolding has_name
mount_vbr partition_lba none = none
mount_vbr partition_lba (some vbr) =
    if has_name fs_name vbr 3 then some (parse_vbr partition_lba vbr) else none

-- `none` is a mount that fails.
pub exfat_init : {D : Type 0} → Ahci D → (partition_lba : ℕ) → D → Option Volume
unfolding mount_vbr
exfat_init ahci partition_lba d = mount_vbr partition_lba (ahci.read_sectors partition_lba 1 d)
