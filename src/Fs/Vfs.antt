-- ===== src/Fs/Vfs.antt =====
-- The VFS of Kernel/CrecentKernel/src/fs/vfs.cpp: the RAM overlay `child_nodes[0 .. node_count)`, the
-- mount table `mounts[0 .. mount_count)`, and the dispatch to the file systems behind the mounts.
-- exFAT is an argument: its state with what its handlers do.
pub mod Handle
pub mod Opening
pub mod Listing
pub mod Creation
pub mod Tests
use amazing_os.Base.{
  ℕ, zero, suc, ◌+◌, ◌-◌, ◌%◌, ◌^◌, Bool, true, false, not, ◌&&◌, ◌||◌, Option, none, some, List,
  [], ◌∷◌, ◌++◌, ◌==◌, ltb, leb, if◌then◌else◌, length, take, drop, get_or, get_elem?, set,
}
use amazing_os.Base.Memory.{Memory}
use amazing_os.Fs.CString.{CString, char_at, str_len, str_starts_with, str_equal, str_copy}
use amazing_os.Fs.Node.{
  NodeType, file, directory, Handler, ram, tarfs, exfat, VfsNode, NodeRef, root_node, child_node,
  tar_root, tar_node, synth_node, exfat_node, File, MountPoint, u64, failed, ram_read, ram_write,
}
use amazing_os.Fs.Tarfs.{slash, tarfs_finddir, tarfs_read}
use amazing_os.Fs.Tarfs.Init.{skip_slashes}

abbrev pub max_nodes : ℕ
max_nodes = 64

abbrev pub max_mounts : ℕ
max_mounts = 8

-- What the VFS calls of exfat.cpp. A `VFSNode*` of exFAT is a number; `failed` is -1.
pub record Exfat (E : Type 0) : Type 0 where
  pub node : E → ℕ → VfsNode
  pub finddir : NodeRef → CString → E → Option NodeRef × E
  pub read : (handle offset buffer count : ℕ) → E → Memory → ℕ × Memory
  pub write : (handle offset buffer count : ℕ) → Memory → E → ℕ × E
  -- `node->size = size`.
  pub set_size : ℕ → ℕ → E → E

pub record World (E : Type 0) : Type 0 where
  pub child_nodes : List VfsNode
  pub mounts : List MountPoint
  pub tar_nodes : List VfsNode
  -- What TarFS allocated and had no room for in its table.
  pub unregistered : List VfsNode
  pub disk : E
  pub mem : Memory
  -- What `kfree` was called with, the last first.
  pub freed : List ℕ

abbrev pub root_dir : VfsNode
root_dir = record {
  name = slash ∷ [];
  type = directory;
  size = 0;
  capacity = 0;
  contents = none;
  read = none;
  write = none;
  finddir = some ram;
  readdir = some ram;
}

abbrev pub tarfs_root_node : VfsNode
tarfs_root_node = record {
  name = b't' ∷ b'a' ∷ b'r' ∷ [];
  type = directory;
  size = 0;
  capacity = 0;
  contents = none;
  read = none;
  write = none;
  finddir = some tarfs;
  readdir = some tarfs;
}

-- Static storage before its first use.
abbrev pub blank : VfsNode
blank = record {
  name = [];
  type = file;
  size = 0;
  capacity = 0;
  contents = none;
  read = none;
  write = none;
  finddir = none;
  readdir = none;
}

-- The overlay node whose name is `rel`, counting from `i`.
pub find_child : CString → List VfsNode → ℕ → Option ℕ
find_child rel [] i = none
find_child rel (n ∷ ns) i = if str_equal n.name rel then some i else find_child rel ns (i + 1)

pub finddir_root : VfsNode → CString → List VfsNode → Option NodeRef
finddir_root node name child_nodes = elim node.type [
  | file ↦ none
  | directory ↦ elim (find_child name child_nodes 0) [ none ↦ none | some i ↦ some (child_node i) ]
]

-- A mount point covers a path that goes on with a slash or ends there.
pub mount_covers : CString → MountPoint → Bool
mount_covers path m =
    str_starts_with path m.path
    && (m.path_len == 1 || char_at path m.path_len == 0 || char_at path m.path_len == slash)

-- The longest of the mount points that cover a path, given the best one so far.
pub best_mount : CString → List MountPoint → Option MountPoint → ℕ → Option MountPoint
best_mount path [] matched longest = matched
best_mount path (m ∷ ms) matched longest =
    let better = mount_covers path m && ltb longest m.path_len in
    best_mount path ms (if better then some m else matched) (if better then m.path_len else longest)

pub parse_filename : Option CString → Option CString
parse_filename none = none
parse_filename (some path) = some (if char_at path 0 == slash then drop 1 path else path)

abbrev pub ram_node : CString → Option ℕ → ℕ → VfsNode
ram_node filename buffer capacity = record {
  name = str_copy filename 128;
  type = file;
  size = 0;
  capacity = capacity;
  contents = buffer;
  read = some ram;
  write = some ram;
  finddir = none;
  readdir = none;
}

module _ {E : Type 0} (ex : Exfat E) where
  pub register_mount : Option CString → Option NodeRef → World E → Bool × World E
  register_mount none root w = (false, w)
  register_mount (some path) none w = (false, w)
  register_mount (some path) (some root) w =
      if leb max_mounts (length w.mounts)
      then (false, w)
      else let p = str_copy path 64 in
        let m : MountPoint = record { path = p; path_len = str_len p; root = root } in
        (true, record w { mounts = w.mounts ++ m ∷ [] })

  pub init : World E → Bool × World E
  init w =
      let (done, w') =
        register_mount (some (slash ∷ [])) (some root_node)
          (record w { child_nodes = []; mounts = [] }) in
      (true, w')

  pub deref : World E → NodeRef → VfsNode
  deref w root_node = root_dir
  deref w (child_node i) = get_or w.child_nodes i blank
  deref w tar_root = tarfs_root_node
  deref w (tar_node i) = get_or w.tar_nodes i blank
  deref w (synth_node i) = get_or w.unregistered i blank
  deref w (exfat_node i) = ex.node w.disk i

  -- A call through `root->finddir`.
  pub call_finddir : NodeRef → CString → World E → Option NodeRef × World E
  call_finddir root name w = elim (deref w root).finddir [
    | none ↦ (none, w)
    | some ram ↦ (finddir_root (deref w root) name w.child_nodes, w)
    | some tarfs ↦
        let (found, (nodes, others)) = tarfs_finddir name w.tar_nodes w.unregistered in
        (found, record w { tar_nodes = nodes; unregistered = others })
    | some (exfat i) ↦
        let (found, disk) = ex.finddir root name w.disk in (found, record w { disk = disk })
  ]

  -- The part of a path behind its mount point.
  pub open_below : MountPoint → CString → World E → Option NodeRef × World E
  open_below m subpath w =
      if str_len subpath == 0 then (some m.root, w) else call_finddir m.root subpath w

  pub open_path : Option CString → World E → Option NodeRef × World E
  open_path none w = (none, w)
  open_path (some []) w = (none, w)
  open_path (some (c ∷ s)) w =
      let path : CString = c ∷ s in
      let rel = if c == slash then s else path in
      elim (find_child rel w.child_nodes 0) [
        | some i ↦ (some (child_node i), w)
        | none ↦ elim (best_mount path w.mounts none 0) [
          | none ↦ (none, w)
          | some m ↦ open_below m (skip_slashes (drop m.path_len path)) w
        ]
      ]

  -- `return existing`, or a node taken from the pool.
  add_unless : CString → Option ℕ → ℕ → Option NodeRef × World E → Option NodeRef × World E
  add_unless filename buffer capacity (some existing, w) = (some existing, w)
  add_unless filename buffer capacity (none, w) = (
    some (child_node (length w.child_nodes)),
    record w { child_nodes = w.child_nodes ++ ram_node filename buffer capacity ∷ [] },
  )

  -- A file that can be opened is returned as it is; otherwise an overlay node is added.
  pub create_file : Option CString → Option ℕ → ℕ → World E → Option NodeRef × World E
  unfolding add_unless
  create_file path buffer capacity w = elim (parse_filename path) [
    | none ↦ (none, w)
    | some filename ↦
        if str_len filename == 0 || leb max_nodes (length w.child_nodes)
        then (none, w)
        else add_unless filename buffer capacity (open_path path w)
  ]
