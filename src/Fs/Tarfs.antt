-- ===== src/Fs/Tarfs.antt =====
-- Kernel/CrecentKernel/src/fs/tarfs.cpp: a read-only file system over a tar archive in memory. The
-- table `tar_nodes[0 .. tar_node_count)` is a list, and so are the nodes that lookups allocated and had no
-- room for in the table, in the order of their allocation.
pub mod Init
pub mod Lookup
pub mod Listing
mod Tests
use amazing_os.Base.{
  ℕ, zero, suc, ◌+◌, ◌-◌, ◌*◌, ◌/◌, ◌%◌, Bool, true, false, not, ◌&&◌, ◌||◌, Option, none, some,
  List, [], ◌∷◌, ◌++◌, ◌==◌, ltb, leb, if◌then◌else◌, length, take, drop,
}
use amazing_os.Base.Memory.{Memory}
use amazing_os.Fs.CString.{CString, char_at, str_len, str_starts_with, str_equal, str_copy}
use amazing_os.Fs.Node.{
  NodeType, file, directory, VfsNode, NodeRef, tar_node, synth_node, Handler, tarfs, ram_read, u64,
}

abbrev pub max_tar_nodes : ℕ
max_tar_nodes = 128

abbrev pub slash : ℕ
slash = b'/'

-- `val` is the value so far.
pub parse_octal : ℕ → List ℕ → ℕ
parse_octal val [] = val
parse_octal val (c ∷ str) = elim (c == 0 || c == b' ') [
  | true ↦ val
  | false ↦ parse_octal (if leb b'0' c && leb c b'7' then (val * 8 + (c - b'0')) % u64 else val) str
]

-- `tarfs_read` has the text of `ram_read`.
abbrev pub tarfs_read : VfsNode → ℕ → Option ℕ → ℕ → Memory → ℕ × Memory
tarfs_read = ram_read

pub strip_slash : CString → CString
strip_slash [] = []
strip_slash (c ∷ []) = if c == slash then [] else c ∷ []
strip_slash (c ∷ d ∷ s) = c ∷ strip_slash (d ∷ s)

-- Lookups compare names cut to 255 bytes and with one slash at the end taken off.
pub clean_name : CString → CString
unfolding strip_slash
clean_name name = strip_slash (str_copy name 256)

pub find_clean : CString → List VfsNode → ℕ → Option ℕ
find_clean c [] i = none
find_clean c (n ∷ ns) i =
    let rest = find_clean c ns (i + 1) in if str_equal (clean_name n.name) c then some i else rest

pub any_under : CString → List VfsNode → Bool
any_under prefix [] = false
any_under prefix (n ∷ ns) = if str_starts_with n.name prefix then true else any_under prefix ns

-- The bytes of a synthesized name: the array has 128, and a slash is put behind what was copied. A
-- name of 127 bytes would lose its end, and what follows is read on from `type`, which is 2.
pub synth_name : CString → CString
synth_name c =
    let s = str_copy c 128 in if str_len s == 127 then s ++ slash ∷ 2 ∷ [] else s ++ slash ∷ []

pub synth : CString → VfsNode
synth c = record {
  name = synth_name c;
  type = directory;
  size = 0;
  capacity = 0;
  contents = none;
  read = none;
  write = none;
  finddir = some tarfs;
  readdir = some tarfs;
}

-- The node that is found or made, and the two lists after it.
pub tarfs_finddir :
    CString → (nodes unregistered : List VfsNode) → Option NodeRef × (List VfsNode × List VfsNode)
tarfs_finddir name nodes unregistered =
    let c = clean_name name in
    elim (find_clean c nodes 0) [
      | some i ↦ (some (tar_node i), (nodes, unregistered))
      | none ↦
          if any_under (str_copy c 256 ++ slash ∷ []) nodes
          then (if ltb (length nodes) max_tar_nodes
              then (some (tar_node (length nodes)), (nodes ++ synth c ∷ [], unregistered))
              else (some (synth_node (length unregistered)), (nodes, unregistered ++ synth c ∷ [])))
          else (none, (nodes, unregistered))
    ]

pub ends_with_slash : CString → Bool
ends_with_slash [] = false
ends_with_slash (c ∷ []) = c == slash
ends_with_slash (c ∷ d ∷ s) = ends_with_slash (d ∷ s)

-- The prefix of the names below a directory.
pub dir_prefix : CString → CString
dir_prefix name =
    if str_equal name (b't' ∷ b'a' ∷ b'r' ∷ [])
    then []
    else let p = str_copy name 256 in
      if ltb 0 (str_len p) && not (ends_with_slash p) then p ++ slash ∷ [] else p

pub slash_index : CString → Option ℕ
slash_index [] = none
slash_index (c ∷ s) =
    if c == slash then some 0 else elim (slash_index s) [ none ↦ none | some i ↦ some (suc i) ]

pub dir_entry : CString → VfsNode
dir_entry child = record {
  name = str_copy child 128;
  type = directory;
  size = 0;
  capacity = 0;
  contents = none;
  read = none;
  write = none;
  finddir = some tarfs;
  readdir = some tarfs;
}

pub file_entry : CString → VfsNode → VfsNode
file_entry child n = record n {
  name = str_copy (str_copy child 128) 128;
  finddir = none;
  readdir = none;
}

-- What the node `n` adds to the listing of the directory `name` with `prefix`, where the nodes
-- `earlier` stand before it in the table: nothing, a subdirectory at its first member, or a file.
pub listed : (name prefix : CString) (earlier : List VfsNode) → VfsNode → Option VfsNode
listed name prefix earlier n =
    if str_equal n.name name
    then none
    else if ltb 0 (str_len prefix) && not (str_starts_with n.name prefix)
    then none
    else let child = drop (str_len prefix) n.name in
      if str_len child == 0 then none else elim (slash_index child) [
        | none ↦ some (file_entry child n)
        | some i ↦
            if any_under (str_copy prefix 270 ++ take i child ++ slash ∷ []) earlier
            then none
            else some (dir_entry (take i child))
      ]

pub readdir_loop :
    (name prefix : CString) (index : ℕ) (earlier rest : List VfsNode) (unique : ℕ) → Option VfsNode
readdir_loop name prefix index earlier [] unique = none
readdir_loop name prefix index earlier (n ∷ rest) unique = elim (listed name prefix earlier n) [
  | none ↦ readdir_loop name prefix index (earlier ++ n ∷ []) rest unique
  | some e ↦ elim (unique == index) [
    | true ↦ some e
    | false ↦ readdir_loop name prefix index (earlier ++ n ∷ []) rest (unique + 1)
  ]
]

-- The C function returns -1 (`none`), 0 (`some none`) or 1 with an entry.
pub tarfs_readdir : VfsNode → ℕ → List VfsNode → Option (Option VfsNode)
tarfs_readdir node index nodes = elim node.type [
  | file ↦ none
  | directory ↦ some (readdir_loop node.name (dir_prefix node.name) index [] nodes 0)
]
