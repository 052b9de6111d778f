-- ===== src/Fs/Vfs/Handle.antt =====
-- `VFS::read` and `VFS::write` of Kernel/CrecentKernel/src/fs/vfs.cpp: access through a `File`.
use amazing_os.Base.{
  ℕ, ◌+◌, ◌%◌, ◌^◌, Bool, true, false, ◌&&◌, Option, none, some, ◌∷◌, ◌==◌, ltb, if◌then◌else◌,
  take, set, get_or,
}
use amazing_os.Fs.CString.{CString}
use amazing_os.Fs.Node.{
  Handler, ram, tarfs, exfat, VfsNode, NodeRef, child_node, tar_node, synth_node, exfat_node, File,
  u64, failed, ram_read, ram_write,
}
use amazing_os.Fs.Tarfs.{slash, tarfs_read}
use amazing_os.Fs.Vfs.{Exfat, World, blank, deref, create_file}

-- A positive `ssize_t` moves the offset.
abbrev pub advance : File → ℕ → File
advance file bytes =
    if ltb 0 bytes && ltb bytes (2 ^ 63)
    then record file { offset = (file.offset + bytes) % u64 }
    else file

-- "/disk/" and what of the name fits before place 250.
abbrev pub overlay_path : CString → CString
overlay_path name = slash ∷ b'd' ∷ b'i' ∷ b's' ∷ b'k' ∷ slash ∷ take 244 name

-- What a call of the VFS returns, with the handle and the state after it.
pub record Outcome (E : Type 0) : Type 0 where
  pub result : ℕ
  pub handle : File
  pub world : World E

module _ {E : Type 0} (ex : Exfat E) where
  -- A call through `node->read`; the buffer is not null.
  pub call_read : NodeRef → (offset buffer count : ℕ) → World E → ℕ × World E
  call_read ref offset buffer count w = elim (deref ex w ref).read [
    | none ↦ (failed, w)
    | some ram ↦
        let (n, m) = ram_read (deref ex w ref) offset (some buffer) count w.mem in
        (n, record w { mem = m })
    | some tarfs ↦
        let (n, m) = tarfs_read (deref ex w ref) offset (some buffer) count w.mem in
        (n, record w { mem = m })
    | some (exfat i) ↦
        let (n, m) = ex.read i offset buffer count w.disk w.mem in (n, record w { mem = m })
  ]

  -- A node of the overlay after its `ram_write`; other nodes have no `ram_write`.
  pub set_node : NodeRef → VfsNode → World E → World E
  set_node (child_node i) n w = record w { child_nodes = set w.child_nodes i n }
  set_node ref n w = w

  -- `node->size = size`. The sizes of the roots are never read.
  pub set_size : NodeRef → ℕ → World E → World E
  set_size (child_node i) size w = record w {
    child_nodes = set w.child_nodes i (record (get_or w.child_nodes i blank) { size = size });
  }
  set_size (tar_node i) size w = record w {
    tar_nodes = set w.tar_nodes i (record (get_or w.tar_nodes i blank) { size = size });
  }
  set_size (synth_node i) size w = record w {
    unregistered = set w.unregistered i (record (get_or w.unregistered i blank) { size = size });
  }
  set_size (exfat_node i) size w = record w { disk = ex.set_size i size w.disk }
  set_size ref size w = w

  -- A call through `node->write`.
  pub call_write : NodeRef → (offset buffer count : ℕ) → World E → ℕ × World E
  call_write ref offset buffer count w = elim (deref ex w ref).write [
    | none ↦ (failed, w)
    | some ram ↦
        let (n, node, m) = ram_write (deref ex w ref) offset (some buffer) count w.mem in
        (n, set_node ref node (record w { mem = m }))
    | some tarfs ↦ (failed, w)
    | some (exfat i) ↦
        let (n, disk) = ex.write i offset buffer count w.mem w.disk in (n, record w { disk = disk })
  ]

  pub vfs_read : File → Option ℕ → ℕ → World E → Outcome E
  vfs_read file none count w = record { result = failed; handle = file; world = w }
  vfs_read file (some buffer) count w = elim file.node [
    | none ↦ record { result = failed; handle = file; world = w }
    | some ref ↦
        let (bytes, w') = call_read ref file.offset buffer count w in
        record { result = bytes; handle = advance file bytes; world = w' }
  ]

  abbrev pub is_exfat : Option Handler → Bool
  is_exfat none = false
  is_exfat (some ram) = false
  is_exfat (some tarfs) = false
  is_exfat (some (exfat i)) = true

  finish_overlay : (ram_buf size : ℕ) → Option NodeRef × World E → Option NodeRef × World E
  finish_overlay ram_buf size (none, w) = (none, record w { freed = ram_buf ∷ w.freed })
  finish_overlay ram_buf size (some node, w) = (some node, set_size node size w)

  -- The node is put under a name of its own in the overlay, with the old contents in a new buffer.
  -- `none` stands for the early `return -1`.
  pub register_overlay : NodeRef → (ram_buf capacity : ℕ) → World E → Option NodeRef × World E
  unfolding finish_overlay
  register_overlay ref ram_buf capacity w =
      finish_overlay ram_buf (deref ex w ref).size
        (create_file ex (some (overlay_path (deref ex w ref).name)) (some ram_buf) capacity w)

  -- Copy-on-write promotion; `ram_buf` is what `kmalloc` returns for the new capacity.
  pub promote : NodeRef → (capacity : ℕ) → Option ℕ → World E → Option NodeRef × World E
  promote ref capacity none w = (none, w)
  promote ref capacity (some ram_buf) w =
      let old_size = (deref ex w ref).size in
      if old_size == 0
      then register_overlay ref ram_buf capacity w
      else let (n, w') = call_read ref 0 ram_buf old_size w in
        if n == old_size
        then register_overlay ref ram_buf capacity w'
        else (none, record w' { freed = ram_buf ∷ w'.freed })

  -- The new capacity of a promoted file.
  abbrev pub new_capacity : File → ℕ → ℕ
  new_capacity file count = let n = (file.offset + count) % u64 in if ltb n 4096 then 4096 else n

  abbrev pub write_to : File → NodeRef → (buffer count : ℕ) → World E → Outcome E
  write_to file ref buffer count w =
      let (bytes, w') = call_write ref file.offset buffer count w in
      record {
        result = bytes;
        handle = advance (record file { node = some ref }) bytes;
        world = w';
      }

  write_promoted : File → (buffer count : ℕ) → Option NodeRef × World E → Outcome E
  write_promoted file buffer count (none, w) = record { result = failed; handle = file; world = w }
  write_promoted file buffer count (some node, w) = write_to file node buffer count w

  pub vfs_write : File → Option ℕ → ℕ → Option ℕ → World E → Outcome E
  unfolding write_promoted
  vfs_write file none count ram_buf w = record { result = failed; handle = file; world = w }
  vfs_write file (some buffer) count ram_buf w = elim file.node [
    | none ↦ record { result = failed; handle = file; world = w }
    | some ref ↦ elim (deref ex w ref).write [
      | none ↦ record { result = failed; handle = file; world = w }
      | some _ ↦
          if is_exfat (deref ex w ref).read
            && ltb (deref ex w ref).size ((file.offset + count) % u64)
          then write_promoted file buffer count (promote ref (new_capacity file count) ram_buf w)
          else write_to file ref buffer count w
    ]
  ]
