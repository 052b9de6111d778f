-- ===== src/Fs/Tarfs/Init.antt =====
-- `tarfs_init` of Kernel/CrecentKernel/src/fs/tarfs.cpp: the walk over the headers of an archive that
-- lies in memory from `start` to `end`. Mounting the result is `Fs.Vfs.register_mount`.
pub mod Fields
pub mod Archive
pub mod Termination
use amazing_os.Base.{
  ℕ, zero, suc, ◌+◌, ◌-◌, ◌%◌, Bool, true, false, ◌&&◌, ◌||◌, Option, none, some, List, [], ◌∷◌,
  ◌++◌, ◌==◌, ltb, leb, if◌then◌else◌, length,
}
use amazing_os.Base.Memory.{Memory}
use amazing_os.Fs.CString.{CString, char_at, str_copy}
use amazing_os.Fs.Node.{file, directory, VfsNode, tarfs, u64}
use amazing_os.Fs.Tarfs.{max_tar_nodes, slash, parse_octal}

-- The C string at an address, as far as its first `n` bytes go.
pub read_string : ℕ → Memory → ℕ → CString
read_string zero m a = []
read_string (suc n) m a = elim (m a == 0) [ true ↦ [] | false ↦ m a ∷ read_string n m (a + 1) ]

pub read_bytes : ℕ → Memory → ℕ → List ℕ
read_bytes zero m a = []
read_bytes (suc n) m a = m a ∷ read_bytes n m (a + 1)

unfoldable pub skip_slashes : CString → CString
skip_slashes [] = []
skip_slashes (c ∷ s) = if c == slash then skip_slashes s else c ∷ s

pub skip_dot : CString → CString
skip_dot [] = []
skip_dot (c ∷ []) = c ∷ []
skip_dot (c ∷ d ∷ s) = if c == b'.' && d == slash then s else c ∷ d ∷ s

-- A header block has 512 bytes; the name is taken to end within it.
pub header_name : Memory → ℕ → CString
header_name m curr = skip_slashes (skip_dot (read_string 512 m curr))

pub header_size : Memory → ℕ → ℕ
header_size m curr = parse_octal 0 (read_bytes 12 m (curr + 124))

abbrev pub align_512 : ℕ → ℕ
align_512 size = (size + 511) - (size + 511) % 512

-- Past the header and the padded contents.
pub next_header : Memory → ℕ → ℕ
next_header m curr = (curr + (512 + align_512 (header_size m curr))) % u64

pub member_node : Memory → ℕ → VfsNode
member_node m curr = record {
  name = str_copy (header_name m curr) 128;
  type = if m (curr + 156) == b'5' then directory else file;
  size = header_size m curr;
  capacity = header_size m curr;
  contents = some (curr + 512);
  read = some tarfs;
  write = none;
  finddir = none;
  readdir = none;
}

abbrev pub add_node : VfsNode → List VfsNode → List VfsNode
add_node n nodes = if ltb (length nodes) max_tar_nodes then nodes ++ n ∷ [] else nodes

-- A member whose name comes out empty is skipped.
pub absorb : CString → VfsNode → List VfsNode → List VfsNode
absorb [] n nodes = nodes
absorb (c ∷ s) n nodes = add_node n nodes

-- The table when the walk ends; `none` means that the fuel ran out.
pub init_loop : ℕ → Memory → (curr end : ℕ) → List VfsNode → Option (List VfsNode)
init_loop zero m curr end nodes = none
init_loop (suc fuel) m curr end nodes =
    let rest =
      init_loop fuel m (next_header m curr) end
        (absorb (header_name m curr) (member_node m curr) nodes) in
    if leb end curr then some nodes else if m curr == 0 then some nodes else rest

-- `none` for a range that is refused; else the table, if the fuel sufficed.
pub tarfs_init : Memory → (start end : ℕ) → Option (Option (List VfsNode))
tarfs_init m start end =
    if start == 0 || end == 0 || leb end start
    then none
    else some (init_loop (end - start + 1) m start end [])
