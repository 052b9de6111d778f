-- ===== src/Syscall/Files.antt =====
-- The file descriptors of a thread in kernel/syscall.cpp: sys_open, sys_close and the copy that sys_fork
-- makes. A pointer into the thread's `fd_pool` is an index into it. The strings that `open` gets are
-- the bytes at its argument. The nodes 1, 2 and 3 of the standard streams are left out, and so is
-- what sys_read and sys_write do.
pub mod Table
pub mod Calls
mod Tests
use amazing_os.Base.{
  ℕ, zero, suc, ◌+◌, ◌-◌, ◌%◌, ◌^◌, Bool, true, false, not, ◌||◌, Option, none, some, List, [], ◌∷◌,
  ◌==◌, ltb, leb, if◌then◌else◌, length, get_or, set, replicate, min, ℤ, pos, negsuc, to_int,
}
use amazing_os.Pmm.{Pmm}
use amazing_os.Fs.CString.{CString}
use amazing_os.Fs.Node.{NodeRef, File}
use amazing_os.Fs.Vfs.{World, Exfat, open_path}
use amazing_os.Syscall.{syscall_validate_buffer}

-- `fd_pool` and `fd_table` of a `Thread`.
pub record Descriptors : Type 0 where
  pub fd_pool : List File
  pub fd_table : List (Option ℕ)

-- `-code`, as the 64 bits of rax.
abbrev pub error : ℕ → ℕ
error code = 2 ^ 64 - code

abbrev pub ebadf : ℕ
ebadf = 9

abbrev pub enoent : ℕ
enoent = 2

abbrev pub emfile : ℕ
emfile = 24

abbrev pub efault : ℕ
efault = 14

-- What a slot that nothing uses holds.
abbrev pub closed_file : File
closed_file = record { node = none; offset = 0; flags = 0; ref_count = 0 }

-- The first null pointer of the table, counting from `i`.
pub free_descriptor : List (Option ℕ) → ℕ → Option ℕ
free_descriptor [] i = none
free_descriptor (none ∷ table) i = some i
free_descriptor (some p ∷ table) i = free_descriptor table (suc i)

-- The first slot of the pool that has no references, counting from `i`.
pub free_slot : List File → ℕ → Option ℕ
free_slot [] i = none
free_slot (f ∷ pool) i =
    let rest = free_slot pool (suc i) in if f.ref_count == 0 then some i else rest

-- From `int free_fd = -1;` on: the node that was found gets a slot and a descriptor.
pub install : NodeRef → (flags : ℕ) → Descriptors → ℕ × Descriptors
install node flags d = elim (free_descriptor d.fd_table 0) [
  | none ↦ (error emfile, d)
  | some fd ↦ elim (free_slot d.fd_pool 0) [
    | none ↦ (error emfile, d)
    | some slot ↦ (
      fd,
      record {
        fd_pool =
            set d.fd_pool slot
              (record { node = some node; offset = 0; flags = flags; ref_count = 1 });
        fd_table = set d.fd_table fd (some slot);
      },
    )
  ]
]

-- What follows the lookup of the path.
pub open_result : Option NodeRef → (flags : ℕ) → Descriptors → ℕ × Descriptors
open_result none flags d = (error enoent, d)
open_result (some node) flags d = install node flags d

-- `fd < 0 || fd >= 16` is refused.
abbrev pub descriptor : ℤ → Option ℕ
descriptor (pos fd) = if ltb fd 16 then some fd else none
descriptor (negsuc n) = none

-- The file that a descriptor points to.
pub file_of : Descriptors → ℕ → Option File
file_of d fd = elim (get_or d.fd_table fd none) [
  | none ↦ none
  | some slot ↦ some (get_or d.fd_pool slot closed_file)
]

-- `file->ref_count--`, and the slot is cleared when nothing refers to it.
abbrev pub release : File → File
release f = if f.ref_count == 1 then closed_file else record f { ref_count = f.ref_count - 1 }

-- sys_close of a descriptor in range.
pub close_descriptor : ℕ → Descriptors → ℕ × Descriptors
close_descriptor fd d = elim (get_or d.fd_table fd none) [
  | none ↦ (error ebadf, d)
  | some slot ↦
      let f = get_or d.fd_pool slot closed_file in
      if f.ref_count == 0 then (error ebadf, d) else (
        0,
        record { fd_pool = set d.fd_pool slot (release f); fd_table = set d.fd_table fd none },
      )
]

pub sys_close : (rdi : ℕ) → Descriptors → ℕ × Descriptors
sys_close rdi d = elim (descriptor (to_int rdi)) [
  | none ↦ (error ebadf, d)
  | some fd ↦ close_descriptor fd d
]

module _ {E : Type 0} (ex : Exfat E) where
  -- sys_open; `path` is the string at `rdi`, of which at most 256 bytes are checked.
  pub sys_open :
      (pml4 rdi : ℕ) (path : CString) (flags : ℕ)
      → Pmm
      → World E
      → Descriptors
      → ℕ × Descriptors × World E
  sys_open pml4 rdi path flags s w d =
      if not (syscall_validate_buffer pml4 rdi (min 256 (length path)) s)
      then (error efault, d, w)
      else let (found, after) = open_path ex (some path) w in
        let out = open_result found flags d in (out.0, out.1, after)

-- The loop of sys_fork over the descriptors of the parent, from `i` on: a slot of the child's pool is
-- copied from the slot of the same index.
abbrev pub fork_slots : List (Option ℕ) → List File → List File
fork_slots [] pool = []
fork_slots (none ∷ table) [] = closed_file ∷ fork_slots table []
fork_slots (some p ∷ table) [] = record closed_file { ref_count = 1 } ∷ fork_slots table []
fork_slots (none ∷ table) (f ∷ pool) = closed_file ∷ fork_slots table pool
fork_slots (some p ∷ table) (f ∷ pool) = record f { ref_count = 1 } ∷ fork_slots table pool

abbrev pub fork_table : List (Option ℕ) → ℕ → List (Option ℕ)
fork_table [] i = []
fork_table (none ∷ table) i = none ∷ fork_table table (suc i)
fork_table (some p ∷ table) i = some i ∷ fork_table table (suc i)

pub fork_descriptors : Descriptors → Descriptors
fork_descriptors d = record {
  fd_pool = fork_slots d.fd_table d.fd_pool;
  fd_table = fork_table d.fd_table 0;
}
