-- ===== src/Fs/Vfs/Tests.antt =====
-- The VFS with the root mounted, and with a volume at /disk that finds every name.
use amazing_os.Base.{
  ℕ, ◌⊎◌, drop, length, get_elem?, zero, suc, ◌≡◌, refl, List, [], ◌∷◌, ◌++◌, some, none, arith,
}
use amazing_os.Fs.CString.{CString, str_len, str_starts_with}
use amazing_os.Fs.Node.{directory, exfat, root_node, child_node, exfat_node, MountPoint}
use amazing_os.Fs.Tarfs.{slash}
use amazing_os.Fs.Tarfs.Init.{skip_slashes}
use amazing_os.Fs.Vfs.{
  Exfat, World, blank, ram_node, find_child, finddir_root, mount_covers, best_mount, deref,
  call_finddir, open_below, open_path, create_file,
}
use amazing_os.Fs.Vfs.Opening.{Uncovered, Covers, AtMost, open_path-longest}
use amazing_os.Fs.Vfs.Creation.{open_path-create_file}

abbrev slash_mount : MountPoint
slash_mount = record { path = slash ∷ []; path_len = 1; root = root_node }

abbrev disk_path : CString
disk_path = slash ∷ b'd' ∷ b'i' ∷ b's' ∷ b'k' ∷ []

abbrev disk_mount : MountPoint
disk_mount = record { path = disk_path; path_len = 5; root = exfat_node 1 }

abbrev mounts : List MountPoint
mounts = slash_mount ∷ disk_mount ∷ []

abbrev pub on_disk : CString
on_disk = disk_path ++ slash ∷ b'a' ∷ []

-- A volume whose root is node 1 and which has one file, node 0.
abbrev pub volume : Exfat (Unit {0})
volume = record {
  node = λ _ i. elim i [
    | zero ↦ record blank {
      name = b'a' ∷ [];
      size = 7;
      read = some (exfat 0);
      write = some (exfat 0);
    }
    | suc _ ↦ record blank { type = directory; finddir = some (exfat 1) }
  ];
  finddir = λ _ _ e. (some (exfat_node 0), e);
  read = λ _ _ _ _ _ m. (0, m);
  write = λ _ _ _ _ _ e. (0, e);
  set_size = λ _ _ e. e;
}

abbrev pub world : World (Unit {0})
world = record {
  child_nodes = [];
  mounts = mounts;
  tar_nodes = [];
  unregistered = [];
  disk = tt;
  mem = λ _. 0;
  freed = [];
}

abbrev hello : CString
hello = slash ∷ b'h' ∷ b'i' ∷ []

hello-absent : open_path volume (some hello) world ≡ (none, world)
unfolding open_path find_child best_mount mount_covers open_below call_finddir finddir_root deref
    skip_slashes str_starts_with str_len
hello-absent = refl

open_path-create_file_example :
    let (made, after) = create_file volume (some hello) (some 4096) 64 world in
    (made ≡ some (child_node 0))
    × (open_path volume (some hello) after ≡ (made, after))
    × (deref volume after (child_node 0)
        ≡ record (ram_node [] (some 4096) 64) { name = b'h' ∷ b'i' ∷ [] })
open_path-create_file_example =
    open_path-create_file volume hello (some 4096) 64 world (λ e. cc) (omega arith) world
      (omega arith) hello-absent

pub on_disk-found : open_path volume (some on_disk) world ≡ (some (exfat_node 0), world)
unfolding open_path find_child best_mount mount_covers open_below call_finddir finddir_root deref
    skip_slashes str_starts_with str_len
on_disk-found = refl

open_path-longest_example :
    ((open_path volume (some on_disk) world ≡ (none, world)) × Uncovered on_disk mounts)
    ⊎ ((k : ℕ) × (m : MountPoint) × (get_elem? mounts k ≡ some m)
        × (open_path volume (some on_disk) world
            ≡ open_below volume m (skip_slashes (drop (length m.path) on_disk)) world)
        × Covers on_disk m.path
        × AtMost on_disk mounts (length m.path))
unfolding find_child
open_path-longest_example =
    open_path-longest volume slash (drop 1 on_disk) world (omega arith)
      ((refl, [], refl), ((refl, drop 1 disk_path, refl), tt)) refl
