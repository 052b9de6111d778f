-- ===== src/Fs/Node.antt =====
-- `VFSNode`, `File` and `MountPoint` of Kernel/CrecentKernel/src/fs/vfs.hpp, and the handlers of nodes
-- whose contents lie in memory (vfs.cpp `ram_read`, `ram_write`).
pub mod Access
mod Tests
use amazing_os.Base.{ℕ, ◌+◌, ◌-◌, ◌^◌, ◌%◌, Option, none, some, leb, ltb, if◌then◌else◌}
use amazing_os.Base.Memory.{Memory, copy_bytes}
use amazing_os.Fs.CString.{CString}

pub data NodeType : Type 0 where
  file : NodeType
  directory : NodeType

-- The functions that a node's pointers may point to. Those of exFAT find their cluster chain behind
-- the node's `data`, which the index stands for.
pub data Handler : Type 0 where
  ram : Handler
  tarfs : Handler
  exfat : ℕ → Handler

pub record VfsNode : Type 0 where
  pub name : CString
  pub type : NodeType
  pub size : ℕ
  pub capacity : ℕ
  pub contents : Option ℕ
  pub read : Option Handler
  pub write : Option Handler
  pub finddir : Option Handler
  pub readdir : Option Handler

-- What a `VFSNode*` may point to. A `synth_node` is one that TarFS allocated when its table was full.
pub data NodeRef : Type 0 where
  root_node : NodeRef
  child_node : ℕ → NodeRef
  tar_root : NodeRef
  tar_node : ℕ → NodeRef
  synth_node : ℕ → NodeRef
  exfat_node : ℕ → NodeRef

pub record File : Type 0 where
  pub node : Option NodeRef
  pub offset : ℕ
  pub flags : ℕ
  pub ref_count : ℕ

pub record MountPoint : Type 0 where
  pub path : CString
  pub path_len : ℕ
  pub root : NodeRef

-- `size_t` and `ssize_t` values are their 64-bit patterns; this one is -1.
abbrev pub u64 : ℕ
u64 = 2 ^ 64

abbrev pub failed : ℕ
failed = 2 ^ 64 - 1

-- The count that an access of `count` bytes at `offset` is cut to, at a limit above `offset`.
abbrev pub clamp : (limit offset count : ℕ) → ℕ
clamp limit offset count = if ltb limit ((offset + count) % u64) then limit - offset else count

-- The result and the memory after it. `none` is a null pointer.
pub ram_read : VfsNode → ℕ → Option ℕ → ℕ → Memory → ℕ × Memory
ram_read node offset none count m = (failed, m)
ram_read node offset (some buffer) count m = elim node.contents [
  | none ↦ (failed, m)
  | some start ↦ if leb node.size offset then (0, m) else (
    clamp node.size offset count,
    copy_bytes (clamp node.size offset count) m buffer (start + offset),
  )
]

-- The node's new size comes with the result.
pub ram_write : VfsNode → ℕ → Option ℕ → ℕ → Memory → ℕ × VfsNode × Memory
ram_write node offset none count m = (failed, node, m)
ram_write node offset (some buffer) count m = elim node.contents [
  | none ↦ (failed, node, m)
  | some start ↦
      if leb node.capacity offset
      then (0, node, m)
      else let n = clamp node.capacity offset count in
        (
          n,
          (if ltb node.size ((offset + n) % u64)
              then record node { size = (offset + n) % u64 }
              else node),
          copy_bytes n m (start + offset) buffer,
        )
]
