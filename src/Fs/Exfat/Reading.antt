-- ===== src/Fs/Exfat/Reading.antt =====
-- `Exfat::read` against the bytes of the clusters.
use amazing_os.Base.{
  ℕ, zero, suc, ◌+◌, ◌*◌, ◌/◌, ◌%◌, ◌<◌, ◌≤◌, ◌≡◌, refl, ◌∙◌, false, some, arith, ◌⊎◌,
}
use amazing_os.Base.Memory.{Memory, poke}
use amazing_os.Fs.Exfat.{
  Ahci, Volume, ExfatFileInfo, is_end, traverse_clusters, copy_across, sector_of,
}

pub copy_across-outside :
    (n : ℕ) (m : Memory) (dest : ℕ) (from : Memory) (src a : ℕ)
    → (a < dest) ⊎ (dest + n ≤ a)
    → copy_across n m dest from src a ≡ m a
unfolding copy_across
copy_across-outside zero m dest from src a h = refl
copy_across-outside (suc n) m dest from src a h =
    copy_across-outside n (poke m dest (from src)) (dest + 1) from (src + 1) a (ground arith)
    ∙ ground arith

pub copy_across_lem :
    (n : ℕ) (m : Memory) (dest : ℕ) (from : Memory) (src i : ℕ)
    → i < n
    → copy_across n m dest from src (dest + i) ≡ from (src + i)
unfolding copy_across
copy_across_lem zero m dest from src i lt = elim lt [ ]
copy_across_lem (suc n) m dest from src zero lt =
    ground
      (arith, copy_across-outside n (poke m dest (from src)) (dest + 1) from (src + 1) (dest + 0))
copy_across_lem (suc n) m dest from src (suc i) lt =
    ground (arith, copy_across_lem n (poke m dest (from src)) (dest + 1) from (src + 1) i)

-- The byte at `p` of a file, whose cluster `k` holds `clusters k`.
abbrev pub file_byte : (cluster_size : ℕ) → (ℕ → Memory) → ℕ → ℕ
file_byte cluster_size clusters p = clusters (p / cluster_size) (p % cluster_size)

-- Clusters that are part of the chain and can be read, as far as `count` bytes from `offset` on need.
abbrev pub Readable :
    {D : Type 0}
    → Ahci D
    → Volume
    → D
    → (info : ExfatFileInfo) → (ℕ → Memory)
    → (offset count : ℕ) → Type 0
Readable ahci v d info clusters offset count =
    (k : ℕ)
    → offset < k * v.cluster_size + v.cluster_size
    → k * v.cluster_size < offset + count
    → (is_end (traverse_clusters ahci v info.first_cluster info.flags k d) ≡ false)
      × (ahci.read_sectors
            (sector_of ahci v (traverse_clusters ahci v info.first_cluster info.flags k d))
            v.sectors_per_cluster d
          ≡ some (clusters k))

-- The bytes from `done` up to `count` have come into the buffer, and nothing else has changed.
abbrev pub Arrived :
    (cluster_size : ℕ)
    → (ℕ → Memory)
    → (offset buffer count done : ℕ) → Memory
    → ℕ × Memory
    → Type 0
Arrived cluster_size clusters offset buffer count done m r =
    (r.0 ≡ count)
    × ((i : ℕ)
        → done ≤ i
        → i < count
        → r.1 (buffer + i) ≡ file_byte cluster_size clusters (offset + i))
    × ((a : ℕ) → (a < buffer + done) ⊎ (buffer + count ≤ a) → r.1 a ≡ m a)

module _ {D : Type 0} (ahci : Ahci D) (v : Volume) (d : D) (info : ExfatFileInfo)
    (clusters : ℕ → Memory) (offset buffer count : ℕ)
    (readable : Readable ahci v d info clusters offset count) (overrun : Memory → ℕ × Memory)
    (small : v.cluster_size ≤ 4096) where
  chain : ℕ → ℕ
  chain k = traverse_clusters ahci v info.first_cluster info.flags k d
