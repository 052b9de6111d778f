-- ===== src/Vmm/Boot.antt =====
-- Kernel/CrecentKernel/src/kernel/vmm.cpp: the tables of the boot code are taken over. The register CR3
-- is an argument.
use amazing_os.Base.{ℕ, ◌/◌, ◌*◌, ◌%◌, not, ◌&&◌, ◌==◌, if◌then◌else◌, bit_or}
use amazing_os.Pmm.{Pmm, pmm_alloc_frame}
use amazing_os.Vmm.{frame_of, entry, set_entry}
use amazing_os.Vmm.Space.{copy_entries}

-- The active PML4, whose first entry gets the flag USER.
pub vmm_init : (cr3 : ℕ) → Pmm → ℕ × Pmm
vmm_init cr3 s =
    let active_pml4 = cr3 / 4096 * 4096 in
    (active_pml4, set_entry active_pml4 0 (bit_or (entry s active_pml4 0) 4) s)

-- The direct map gets a copy of the PDPT as its own.
pub separate_at : (active_pml4 old_pdpt new_pdpt : ℕ) → Pmm → Pmm
unfolding copy_entries
separate_at active_pml4 old_pdpt new_pdpt s =
    if new_pdpt == 0
    then s
    else let s1 = copy_entries new_pdpt old_pdpt 0 512 s in
      set_entry active_pml4 256 (bit_or new_pdpt (entry s1 active_pml4 256 % 4096)) s1

pub vmm_separate_dpm : (active_pml4 : ℕ) → Pmm → Pmm
unfolding separate_at pmm_alloc_frame
vmm_separate_dpm active_pml4 s =
    let old_pdpt = frame_of (entry s active_pml4 256) in
    if not (old_pdpt == 0) && old_pdpt == frame_of (entry s active_pml4 0)
    then (let (new_pdpt, s1) = pmm_alloc_frame s in separate_at active_pml4 old_pdpt new_pdpt s1)
    else s
