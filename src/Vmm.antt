-- ===== src/Vmm.antt =====
-- Kernel/CrecentKernel/src/kernel/vmm.cpp: page tables of four levels, which lie in the words of the
-- physical memory manager. A table is its frame's physical address, entry `i` is the word at
-- `table + 8 * i`, and `active_pml4` is an argument. The TLB, and with it CR3, is left out.
pub mod Bits
pub mod Entries
pub mod Tables
pub mod Linking
pub mod Walks
pub mod Mapped
pub mod Mapping
pub mod Paging
pub mod Space
pub mod Boot
pub mod Teardown
pub mod Cloning
mod Tests
use amazing_os.Base.{
  ℕ, zero, suc, ◌+◌, ◌*◌, ◌/◌, ◌%◌, ◌^◌, Bool, true, false, ◌&&◌, ◌||◌, not, ◌==◌, if◌then◌else◌,
  bit_or,
}
use amazing_os.Pmm.{Pmm, within, pmm_alloc_frame, pmm_free_frame}

-- The flags of an entry: `e & VMM_FLAG_PRESENT` and so on.
abbrev pub is_present : ℕ → Bool
is_present e = e % 2 == 1

abbrev pub is_user : ℕ → Bool
is_user e = e / 4 % 2 == 1

abbrev pub is_huge : ℕ → Bool
is_huge e = e / 128 % 2 == 1

-- `e & VMM_PHYS_ADDR_MASK`: the bits 12 to 51.
abbrev pub frame_of : ℕ → ℕ
frame_of e = e / 4096 % 2 ^ 40 * 4096

-- PRESENT, WRITABLE and USER, which every table is linked with.
abbrev pub table_flags : ℕ
table_flags = 7

abbrev pub pml4_idx : ℕ → ℕ
pml4_idx virt = virt / 2 ^ 39 % 512

abbrev pub pdpt_idx : ℕ → ℕ
pdpt_idx virt = virt / 2 ^ 30 % 512

abbrev pub pd_idx : ℕ → ℕ
pd_idx virt = virt / 2 ^ 21 % 512

abbrev pub pt_idx : ℕ → ℕ
pt_idx virt = virt / 2 ^ 12 % 512

abbrev pub entry : Pmm → (table i : ℕ) → ℕ
entry s table i = s.words (table + 8 * i)

abbrev pub set_entry : (table i e : ℕ) → Pmm → Pmm
set_entry table i e s = record s { words = λ a. if a == table + 8 * i then e else s.words a }

-- The 512 entries of a table are set to 0.
abbrev pub clear_table : ℕ → Pmm → Pmm
clear_table table s = record s {
  words = λ a. if within table (table + 4096) a then 0 else s.words a;
}

-- A new table goes into an entry; with no frame left the call fails.
abbrev pub link_table : (table i frame : ℕ) → Pmm → Bool × Pmm
link_table table i frame s =
    if frame == 0
    then (false, s)
    else (true, set_entry table i (bit_or frame table_flags) (clear_table frame s))

pub ensure_table : (table i : ℕ) → Pmm → Bool × Pmm
ensure_table table i s =
    if is_present (entry s table i)
    then (true, s)
    else let (frame, s1) = pmm_alloc_frame s in link_table table i frame s1

-- The three levels in turn, each after the one above it has succeeded.
pub map_in_pt : (pd virt phys flags : ℕ) → Bool × Pmm → Bool × Pmm
map_in_pt pd virt phys flags (false, s) = (false, s)
map_in_pt pd virt phys flags (true, s) =
    (true, set_entry (frame_of (entry s pd (pd_idx virt))) (pt_idx virt) (bit_or phys flags) s)

pub map_in_pd : (pdpt virt phys flags : ℕ) → Bool × Pmm → Bool × Pmm
unfolding ensure_table map_in_pt
map_in_pd pdpt virt phys flags (false, s) = (false, s)
map_in_pd pdpt virt phys flags (true, s) =
    let pd = frame_of (entry s pdpt (pdpt_idx virt)) in
    map_in_pt pd virt phys flags (ensure_table pd (pd_idx virt) s)

pub map_in_pdpt : (pml4 virt phys flags : ℕ) → Bool × Pmm → Bool × Pmm
unfolding ensure_table map_in_pd
map_in_pdpt pml4 virt phys flags (false, s) = (false, s)
map_in_pdpt pml4 virt phys flags (true, s) =
    let pdpt = frame_of (entry s pml4 (pml4_idx virt)) in
    map_in_pd pdpt virt phys flags (ensure_table pdpt (pdpt_idx virt) s)

pub vmm_map_page_in_pml4 : (pml4 virt phys flags : ℕ) → Pmm → Bool × Pmm
unfolding ensure_table map_in_pdpt
vmm_map_page_in_pml4 pml4 virt phys flags s =
    if virt % 4096 == 0 && phys % 4096 == 0
    then map_in_pdpt pml4 virt phys flags (ensure_table pml4 (pml4_idx virt) s)
    else (false, s)

-- `vmm_map_page`, in the active address space.
pub vmm_map_page : (active_pml4 virt phys flags : ℕ) → Pmm → Bool × Pmm
unfolding vmm_map_page_in_pml4
vmm_map_page active_pml4 virt phys flags s = vmm_map_page_in_pml4 active_pml4 virt phys flags s

-- The tables that a walk goes through below the entries that are present.
abbrev pub pdpt_of : (pml4 virt : ℕ) → Pmm → ℕ
pdpt_of pml4 virt s = frame_of (entry s pml4 (pml4_idx virt))

abbrev pub pd_of : (pml4 virt : ℕ) → Pmm → ℕ
pd_of pml4 virt s = frame_of (entry s (pdpt_of pml4 virt s) (pdpt_idx virt))

abbrev pub pt_of : (pml4 virt : ℕ) → Pmm → ℕ
pt_of pml4 virt s = frame_of (entry s (pd_of pml4 virt s) (pd_idx virt))

pub vmm_get_phys : (pml4 virt : ℕ) → Pmm → ℕ
vmm_get_phys pml4 virt s =
    let pde = entry s (pd_of pml4 virt s) (pd_idx virt) in
    let pte = entry s (pt_of pml4 virt s) (pt_idx virt) in
    if not (is_present (entry s pml4 (pml4_idx virt)))
    then 0
    else if not (is_present (entry s (pdpt_of pml4 virt s) (pdpt_idx virt)))
    then 0
    else if not (is_present pde)
    then 0
    else if is_huge pde
    then (pde / 2 ^ 21 * 2 ^ 21 + virt % 2 ^ 21) % 2 ^ 64
    else if not (is_present pte)
    then 0
    else frame_of pte + virt % 4096

pub vmm_is_mapped : (pml4 virt : ℕ) → Pmm → Bool
vmm_is_mapped pml4 virt s =
    let pde = entry s (pd_of pml4 virt s) (pd_idx virt) in
    if not (is_present (entry s pml4 (pml4_idx virt)))
    then false
    else if not (is_present (entry s (pdpt_of pml4 virt s) (pdpt_idx virt)))
    then false
    else if not (is_present pde)
    then false
    else if is_huge pde
    then true
    else is_present (entry s (pt_of pml4 virt s) (pt_idx virt))

unfoldable pub vmm_is_user_mapped : (pml4 virt : ℕ) → Pmm → Bool
vmm_is_user_mapped pml4 virt s =
    let pml4e = entry s pml4 (pml4_idx virt) in
    let pdpte = entry s (pdpt_of pml4 virt s) (pdpt_idx virt) in
    let pde = entry s (pd_of pml4 virt s) (pd_idx virt) in
    let pte = entry s (pt_of pml4 virt s) (pt_idx virt) in
    if not (is_present pml4e)
    then false
    else if not (is_user pml4e)
    then false
    else if not (is_present pdpte)
    then false
    else if not (is_user pdpte)
    then false
    else if not (is_present pde)
    then false
    else if not (is_user pde)
    then false
    else if is_huge pde
    then true
    else if not (is_present pte)
    then false
    else is_user pte

-- The walk of `vmm_unmap_page` does not look at the huge flag.
pub vmm_unmap_page : (pml4 virt : ℕ) → Pmm → Bool × Pmm
vmm_unmap_page pml4 virt s =
    if not (virt % 4096 == 0)
    then (false, s)
    else if not (is_present (entry s pml4 (pml4_idx virt)))
    then (false, s)
    else if not (is_present (entry s (pdpt_of pml4 virt s) (pdpt_idx virt)))
    then (false, s)
    else if not (is_present (entry s (pd_of pml4 virt s) (pd_idx virt)))
    then (false, s)
    else if not (is_present (entry s (pt_of pml4 virt s) (pt_idx virt)))
    then (false, s)
    else (true, set_entry (pt_of pml4 virt s) (pt_idx virt) 0 s)
