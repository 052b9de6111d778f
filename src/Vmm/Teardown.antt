-- ===== src/Vmm/Teardown.antt =====
-- Kernel/CrecentKernel/src/kernel/vmm.cpp: an address space is given back, table by table. A table is
-- freed by its address in the direct map, as the source does.
use amazing_os.Base.{ℕ, zero, suc, ◌+◌, ◌%◌, ◌^◌, not, ◌&&◌, ◌==◌, if◌then◌else◌}
use amazing_os.Pmm.{Pmm, pmm_free_frame}
use amazing_os.Vmm.{is_present, is_user, is_huge, frame_of, entry}

abbrev pub phys_to_virt : ℕ → ℕ
phys_to_virt phys = (phys + 0xFFFF800000000000) % 2 ^ 64

-- The loops over the entries `i` up to `i + n` of a table of each level.
pub destroy_pt : (pt n i : ℕ) → Pmm → Pmm
destroy_pt pt zero i s = s
destroy_pt pt (suc n) i s =
    let e = entry s pt i in
    destroy_pt pt n (suc i) (if is_present e && is_user e then pmm_free_frame (frame_of e) s else s)

pub destroy_pd : (pd n i : ℕ) → Pmm → Pmm
unfolding destroy_pt
destroy_pd pd zero i s = s
destroy_pd pd (suc n) i s =
    let e = entry s pd i in
    destroy_pd pd n (suc i) (
      if is_present e && not (is_huge e)
      then pmm_free_frame (phys_to_virt (frame_of e)) (destroy_pt (frame_of e) 512 0 s)
      else s)

pub destroy_pdpt : (pdpt n i : ℕ) → Pmm → Pmm
unfolding destroy_pd
destroy_pdpt pdpt zero i s = s
destroy_pdpt pdpt (suc n) i s =
    let e = entry s pdpt i in
    destroy_pdpt pdpt n (suc i) (
      if is_present e && not (is_huge e)
      then pmm_free_frame (phys_to_virt (frame_of e)) (destroy_pd (frame_of e) 512 0 s)
      else s)

pub destroy_pml4 : (pml4 n i : ℕ) → Pmm → Pmm
unfolding destroy_pdpt
destroy_pml4 pml4 zero i s = s
destroy_pml4 pml4 (suc n) i s =
    let e = entry s pml4 i in
    destroy_pml4 pml4 n (suc i) (
      if is_present e
      then pmm_free_frame (phys_to_virt (frame_of e)) (destroy_pdpt (frame_of e) 512 0 s)
      else s)

pub vmm_destroy_user_address_space : (pml4 : ℕ) → Pmm → Pmm
unfolding destroy_pml4
vmm_destroy_user_address_space pml4 s =
    if pml4 == 0 then s else pmm_free_frame pml4 (destroy_pml4 pml4 256 0 s)
