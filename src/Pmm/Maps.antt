-- ===== src/Pmm/Maps.antt =====
-- `pmm_init`: the memory maps of the boot loader, whose usable regions become free frames. `info` is
-- the 32-bit word at an address, and stays as it is while frames are linked.
use amazing_os.Base.{
  ℕ, zero, suc, ◌+◌, ◌-◌, ◌*◌, ◌%◌, ◌^◌, Bool, true, false, not, ◌&&◌, Option, none, some, ◌==◌,
  leb, if◌then◌else◌, bit_and,
}
use amazing_os.Pmm.{Pmm, Guards, register_region}
use amazing_os.Pmm.Modules.{direct_map, padded, pmm_find_modules}

abbrev pub long_at : (ℕ → ℕ) → ℕ → ℕ
long_at info a = info a + info (a + 4) * 2 ^ 32

-- `maddr - VMM_DIRECT_MAP_OFFSET`.
abbrev pub to_phys : ℕ → ℕ
to_phys a = (a + 2 ^ 64 - direct_map) % 2 ^ 64

-- A region of type 1 is usable.
abbrev pub register_usable : (fuel type base len : ℕ) → Guards → Pmm → Option Pmm
register_usable fuel type base len g s =
    if type == 1 then register_region fuel base len g s else some s

-- The entries of Multiboot 1 from `curr` on. `none` means that the fuel ran out, here and below.
pub map_loop_1 : (steps fuel : ℕ) → Guards → (ℕ → ℕ) → (curr mmap_end : ℕ) → Pmm → Option Pmm
map_loop_1 zero fuel g info curr mmap_end s = none
map_loop_1 (suc steps) fuel g info curr mmap_end s = elim (leb mmap_end curr) [
  | true ↦ some s
  | false ↦
      elim (register_usable fuel (info (curr + 20)) (long_at info (curr + 4))
        (long_at info (curr + 12)) g s) [
          | none ↦ none
          | some s1 ↦
              map_loop_1 steps fuel g info ((curr + (info curr + 4) % 2 ^ 32) % 2 ^ 64) mmap_end s1
        ]
]

pub parse_multiboot1 :
    (steps fuel kern_start kern_end : ℕ) → (ℕ → ℕ) → (maddr : ℕ) → Pmm → Option Pmm
unfolding map_loop_1
parse_multiboot1 steps fuel kern_start kern_end info maddr s =
    let curr = (info (maddr + 48) + direct_map) % 2 ^ 64 in
    let g : Guards = record {
      kern_start = kern_start;
      kern_end = kern_end;
      guard_start = to_phys maddr;
      guard_end = (to_phys maddr + 4096) % 2 ^ 64;
    } in
    if bit_and (info maddr) 64 == 0
    then some s
    else map_loop_1 steps fuel g info curr ((curr + info (maddr + 44)) % 2 ^ 64) s

-- The entries of one memory map of Multiboot 2.
pub map_entries_2 :
    (steps fuel : ℕ) → Guards → (ℕ → ℕ) → (entry_ptr tag_end entry_size : ℕ) → Pmm → Option Pmm
map_entries_2 zero fuel g info entry_ptr tag_end entry_size s = none
map_entries_2 (suc steps) fuel g info entry_ptr tag_end entry_size s =
    elim (leb tag_end entry_ptr) [
      | true ↦ some s
      | false ↦
          elim (register_usable fuel (info (entry_ptr + 16)) (long_at info entry_ptr)
            (long_at info (entry_ptr + 8)) g s) [
              | none ↦ none
              | some s1 ↦
                  map_entries_2 steps fuel g info ((entry_ptr + entry_size) % 2 ^ 64) tag_end
                    entry_size s1
            ]
    ]

-- What a tag adds; type 6 is a memory map.
abbrev pub map_tag : (steps fuel : ℕ) → Guards → (ℕ → ℕ) → (curr : ℕ) → Pmm → Option Pmm
map_tag steps fuel g info curr s =
    if info curr == 6
    then map_entries_2 steps fuel g info (curr + 16) ((curr + info (curr + 4)) % 2 ^ 64)
        (info (curr + 8)) s
    else some s

pub map_loop_2 : (steps fuel : ℕ) → Guards → (ℕ → ℕ) → (curr mbi_end : ℕ) → Pmm → Option Pmm
unfolding map_entries_2
map_loop_2 zero fuel g info curr mbi_end s = none
map_loop_2 (suc steps) fuel g info curr mbi_end s = elim (leb mbi_end curr) [
  | true ↦ some s
  | false ↦ elim (info curr == 0 && info (curr + 4) == 8) [
    | true ↦ some s
    | false ↦ elim (map_tag steps fuel g info curr s) [
      | none ↦ none
      | some s1 ↦
          map_loop_2 steps fuel g info ((curr + padded (info (curr + 4))) % 2 ^ 64) mbi_end s1
    ]
  ]
]

pub parse_multiboot2 :
    (steps fuel kern_start kern_end : ℕ) → (ℕ → ℕ) → (maddr : ℕ) → Pmm → Option Pmm
unfolding map_loop_2
parse_multiboot2 steps fuel kern_start kern_end info maddr s =
    let mbi_end = (maddr + info maddr) % 2 ^ 64 in
    let g : Guards = record {
      kern_start = kern_start;
      kern_end = kern_end;
      guard_start = to_phys maddr;
      guard_end = to_phys mbi_end;
    } in
    map_loop_2 steps fuel g info ((maddr + 8) % 2 ^ 64) mbi_end s

-- Without a free frame the start fails.
abbrev pub with_frames : Option Pmm → Option (Bool × Pmm)
with_frames none = none
with_frames (some s) = some (not (s.free_frames_count == 0), s)

pub pmm_init :
    (steps fuel kern_start kern_end magic maddr : ℕ) → (ℕ → ℕ) → Pmm → Option (Bool × Pmm)
unfolding parse_multiboot1 parse_multiboot2
pmm_init steps fuel kern_start kern_end magic maddr info s =
    elim (pmm_find_modules steps magic maddr info) [
      | none ↦ none
      | some ms ↦
          let s1 = record s { free_list_head = 0; free_frames_count = 0; modules = ms } in
          if magic == 0x2badb002
          then with_frames (parse_multiboot1 steps fuel kern_start kern_end info maddr s1)
          else if magic == 0x36d76289
          then with_frames (parse_multiboot2 steps fuel kern_start kern_end info maddr s1)
          else some (false, s1)
    ]
