-- ===== src/Fs/Exfat.antt =====
-- Kernel/CrecentKernel/src/fs/exfat.cpp: cluster chains, and the contents of files. Values of type
-- uint32_t are reduced modulo 2 ^ 32. A cluster is read into a buffer of its own, which the source
-- gives 4096 bytes on the stack. What `Exfat::read` does where a cluster is larger is not defined there: an
-- argument `overrun` stands for it. The other operations are modelled for clusters of up to 4096 bytes.
pub mod Chain
pub mod Reading
pub mod Writing
pub mod Directory
pub mod Listing
mod Tests
use amazing_os.Base.{
  ℕ, zero, suc, ◌+◌, ◌-◌, ◌*◌, ◌/◌, ◌%◌, ◌^◌, Bool, true, false, ◌&&◌, ◌||◌, not, ◌==◌, leb, ltb,
  Option, none, some, if◌then◌else◌,
}
use amazing_os.Base.Memory.{Memory, poke}
use amazing_os.Fs.Node.{clamp, failed, u64}

-- The driver of the disk: sectors come as a buffer, or a call fails.
pub record Ahci (D : Type 0) : Type 0 where
  pub read_sectors : (lba count : ℕ) → D → Option Memory
  pub write_sectors : (lba count : ℕ) → Memory → D → Option D

pub record Volume : Type 0 where
  pub bytes_per_sector : ℕ
  pub sectors_per_cluster : ℕ
  pub cluster_size : ℕ
  pub fat_start_sector : ℕ
  pub cluster_heap_start_sector : ℕ
  pub root_dir_cluster : ℕ
  pub cluster_count : ℕ

pub record ExfatFileInfo : Type 0 where
  pub first_cluster : ℕ
  pub flags : ℕ
  pub size : ℕ

abbrev pub u32 : ℕ
u32 = 2 ^ 32

-- `uint8_t cluster_buf[4096]`.
abbrev pub cluster_buf_size : ℕ
cluster_buf_size = 4096

abbrev pub no_cluster : ℕ
no_cluster = 0xFFFFFFFF

-- `cluster >= 0xFFFFFFF8`.
abbrev pub is_end : ℕ → Bool
is_end cluster = leb 0xFFFFFFF8 cluster

-- `flags & 0x02`: the clusters follow each other.
abbrev pub is_contiguous : ℕ → Bool
is_contiguous flags = flags / 2 % 2 == 1

abbrev pub load_32 : Memory → ℕ → ℕ
load_32 m a = m a + m (a + 1) * 2 ^ 8 + m (a + 2) * 2 ^ 16 + m (a + 3) * 2 ^ 24

abbrev pub fat_entry : Option Memory → (offset : ℕ) → ℕ
fat_entry none offset = no_cluster
fat_entry (some sector_buf) offset = load_32 sector_buf offset

-- `dest[i] = src[i]` for `i` below `n`, between two buffers.
pub copy_across : (n : ℕ) → Memory → (dest : ℕ) → Memory → (src : ℕ) → Memory
copy_across zero m dest from src = m
copy_across (suc n) m dest from src =
    copy_across n (poke m dest (from src)) (dest + 1) from (src + 1)

module _ {D : Type 0} (ahci : Ahci D) (v : Volume) where
  pub get_next_cluster : (cluster : ℕ) → D → ℕ
  get_next_cluster cluster d =
      if ltb cluster 2
      then no_cluster
      else fat_entry
          (ahci.read_sectors ((v.fat_start_sector + cluster * 4 % u32 / v.bytes_per_sector) % u32) 1
            d)
          (cluster * 4 % u32 % v.bytes_per_sector)

  -- `target_index` steps along the FAT.
  pub follow : (target_index cluster : ℕ) → D → ℕ
  unfolding get_next_cluster
  follow zero cluster d = cluster
  follow (suc n) cluster d =
      let next = get_next_cluster cluster d in
      let rest = follow n next d in if is_end next then no_cluster else rest

  pub traverse_clusters : (start_cluster flags target_index : ℕ) → D → ℕ
  unfolding follow
  traverse_clusters start_cluster flags target_index d =
      if is_contiguous flags
      then (start_cluster + target_index) % u32
      else follow target_index start_cluster d

  pub next_cluster : (flags cluster : ℕ) → D → ℕ
  unfolding get_next_cluster
  next_cluster flags cluster d =
      if is_contiguous flags then (cluster + 1) % u32 else get_next_cluster cluster d

  abbrev pub sector_of : ℕ → ℕ
  sector_of cluster =
      (v.cluster_heap_start_sector + (cluster + u32 - 2) % u32 * v.sectors_per_cluster) % u32

  abbrev pub chunk_of : (count bytes_done cluster_offset : ℕ) → ℕ
  chunk_of count bytes_done cluster_offset =
      let chunk = v.cluster_size - cluster_offset in
      if ltb (count - bytes_done) chunk then count - bytes_done else chunk

  -- `overrun` is what comes of a cluster that the buffer has no room for.
  module _ (overrun : Memory → ℕ × Memory) where
    -- Each step takes at least one byte, so that one step more than there are bytes is enough.
    pub read_loop :
        (fuel flags buffer count bytes_read cluster cluster_offset : ℕ) → D → Memory → ℕ × Memory
    unfolding next_cluster copy_across
    read_loop zero flags buffer count bytes_read cluster cluster_offset d m = (bytes_read, m)
    read_loop (suc fuel) flags buffer count bytes_read cluster cluster_offset d m =
        elim (ltb bytes_read count) [
          | false ↦ (bytes_read, m)
          | true ↦ elim (ltb cluster_buf_size v.cluster_size) [
            | true ↦ overrun m
            | false ↦ elim (ahci.read_sectors (sector_of cluster) v.sectors_per_cluster d) [
              | none ↦ (failed, m)
              | some cluster_buf ↦
                  let chunk = chunk_of count bytes_read cluster_offset in
                  let m1 = copy_across chunk m (buffer + bytes_read) cluster_buf cluster_offset in
                  let next = next_cluster flags cluster d in
                  elim (ltb (bytes_read + chunk) count && is_end next) [
                    | true ↦ (bytes_read + chunk, m1)
                    | false ↦ read_loop fuel flags buffer count (bytes_read + chunk) next 0 d m1
                  ]
            ]
          ]
        ]

    abbrev pub read_from :
        (info : ExfatFileInfo) → (offset buffer count cluster : ℕ) → D → Memory → ℕ × Memory
    unfolding read_loop
    read_from info offset buffer count cluster d m =
        if is_end cluster
        then (failed, m)
        else read_loop (suc count) info.flags buffer count 0 cluster (offset % v.cluster_size) d m

    -- `Exfat::read` with the data of the node and the buffer, which may be null pointers.
    pub exfat_read :
        Option ExfatFileInfo → (offset : ℕ) → Option ℕ → (count : ℕ) → D → Memory → ℕ × Memory
    unfolding traverse_clusters read_from
    exfat_read none offset buffer count d m = (failed, m)
    exfat_read (some info) offset none count d m = (failed, m)
    exfat_read (some info) offset (some buffer) count d m =
        if leb info.size offset
        then (0, m)
        else read_from info offset buffer (clamp info.size offset count)
            (traverse_clusters info.first_cluster info.flags (offset / v.cluster_size % u32) d) d m
