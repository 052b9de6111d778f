-- ===== src/Fs/Exfat/Listing.antt =====
-- `Exfat::readdir`: the entry of a directory at an index.
use amazing_os.Base.{
  ℕ, zero, suc, ◌+◌, ◌/◌, Bool, true, false, ◌&&◌, ◌||◌, ◌==◌, ltb, Option, none, some,
  if◌then◌else◌, length,
}
use amazing_os.Base.Memory.{Memory}
use amazing_os.Fs.Exfat.{Ahci, Volume, u32, is_end, get_next_cluster, sector_of}
use amazing_os.Fs.Exfat.Directory.{
  EntrySet, no_entry, file_directory_entry, stream_entry, name_entry, ExfatNode, node_of,
}

-- How the loop over the entries of a cluster ends.
pub data ScanEnd : Type 0 where
  exhausted : ScanEnd
  end_of_directory : ScanEnd
  completed_entry : ScanEnd

-- Entries that have a name, which are counted.
abbrev pub is_named : EntrySet → Bool
is_named e = e.active && ltb 0 (length e.file_name)

-- The entries of a cluster from `place` on; the number counts the files that are complete.
pub count_entries :
    (n : ℕ) → Memory → (place index unique_count : ℕ) → EntrySet → EntrySet × (ℕ × ScanEnd)
unfolding name_entry
count_entries zero m place index unique_count e = (e, (unique_count, exhausted))
count_entries (suc n) m place index unique_count e =
    let t = m place in
    elim (t == 0) [
      | true ↦ (e, (unique_count, end_of_directory))
      | false ↦ elim (t == 0x85) [
        | true ↦ elim (is_named e && unique_count == index) [
          | true ↦ (e, (unique_count, completed_entry))
          | false ↦
              count_entries n m (place + 32) index
                (if is_named e then unique_count + 1 else unique_count)
                (file_directory_entry m place e)
        ]
        | false ↦ count_entries n m (place + 32) index unique_count (
            if t == 0xC0 && e.active
            then stream_entry m place e
            else if t == 0xC1 && e.active
            then name_entry m place e
            else e)
      ]
    ]

abbrev pub is_completed : ScanEnd → Bool
is_completed exhausted = false
is_completed end_of_directory = false
is_completed completed_entry = true

abbrev pub is_exhausted : ScanEnd → Bool
is_exhausted exhausted = true
is_exhausted end_of_directory = false
is_exhausted completed_entry = false

-- `some none` is the end of the directory.
abbrev pub entry_out : (index : ℕ) → EntrySet × (ℕ × ScanEnd) → Option (Option ExfatNode)
entry_out index (e, (unique_count, how)) =
    if is_completed how || is_named e && unique_count == index
    then some (some (node_of e))
    else some none

module _ {D : Type 0} (ahci : Ahci D) (v : Volume) (d : D) where
  -- The walk goes along the FAT whatever the flags of the directory are.
  pub list_clusters : (fuel index cluster unique_count : ℕ) → EntrySet → Option (Option ExfatNode)
  unfolding count_entries get_next_cluster
  list_clusters zero index cluster unique_count e = none
  list_clusters (suc fuel) index cluster unique_count e = elim (is_end cluster) [
    | true ↦ entry_out index (e, (unique_count, exhausted))
    | false ↦ elim (ahci.read_sectors (sector_of ahci v cluster) v.sectors_per_cluster d) [
      | none ↦ none
      | some cluster_buf ↦
          let (e1, (unique, how)) =
            count_entries ((v.cluster_size + 31) / 32) cluster_buf 0 index unique_count e in
          elim (is_exhausted how) [
            | false ↦ entry_out index (e1, (unique, how))
            | true ↦ list_clusters fuel index (get_next_cluster ahci v cluster d) unique e1
          ]
    ]
  ]

  -- `none` is -1.
  pub exfat_readdir : (directory : ExfatNode) → (index : ℕ) → Option (Option ExfatNode)
  unfolding list_clusters
  exfat_readdir directory index =
      if directory.is_directory
      then list_clusters u32 index directory.info.first_cluster 0 no_entry
      else none
