-- ===== src/Fs/Exfat/Tests.antt =====
-- A file of 600 bytes in two clusters that follow each other, on a disk of sectors of 512 bytes.
use amazing_os.Base.{ℕ, ◌+◌, ◌*◌, none, some}
use amazing_os.Base.Memory.{Memory}
use amazing_os.Fs.Exfat.{Ahci, Volume, ExfatFileInfo}

-- Byte `i` of a sector is its number times 1000, plus `i`.
abbrev numbered : Ahci ℕ
numbered = record {
  read_sectors = λ lba count d. some (λ i. lba * 1000 + i);
  write_sectors = λ lba count m d. none;
}

abbrev volume : Volume
volume = record {
  bytes_per_sector = 512;
  sectors_per_cluster = 1;
  cluster_size = 512;
  fat_start_sector = 50;
  cluster_heap_start_sector = 100;
  root_dir_cluster = 5;
  cluster_count = 100;
}

abbrev two_clusters : ExfatFileInfo
two_clusters = record { first_cluster = 2; flags = 3; size = 600 }

abbrev contents : ℕ → Memory
contents k i = (100 + k) * 1000 + i
