-- ===== src/Vmm/Cloning.antt =====
-- Kernel/CrecentKernel/src/kernel/vmm.cpp: the user's pages are copied into another address space.
use amazing_os.Base.{ℕ, zero, suc, ◌+◌, ◌-◌, ◌*◌, ◌%◌, ◌^◌, not, ◌&&◌, ◌==◌, if◌then◌else◌, bit_or}
use amazing_os.Pmm.{Pmm, within, pmm_alloc_frame}
use amazing_os.Vmm.{is_present, is_user, is_huge, frame_of, entry, vmm_map_page_in_pml4}

-- The 4096 bytes of a frame are copied into another one.
pub copy_frame : (dest src : ℕ) → Pmm → Pmm
copy_frame dest src s = record s {
  words = λ a. if within dest (dest + 4096) a then s.words (src + (a - dest)) else s.words a;
}

-- The result of the mapping is not looked at.
pub clone_into : (child_pml4 virt phys flags child_phys : ℕ) → Pmm → Pmm
unfolding copy_frame
clone_into child_pml4 virt phys flags child_phys s =
    if child_phys == 0
    then s
    else (vmm_map_page_in_pml4 child_pml4 virt child_phys flags (copy_frame child_phys phys s)).1

pub clone_page : (child_pml4 virt e : ℕ) → Pmm → Pmm
unfolding clone_into pmm_alloc_frame
clone_page child_pml4 virt e s =
    if is_present e && is_user (e % 4096)
    then (let (child_phys, s1) = pmm_alloc_frame s in
        clone_into child_pml4 virt (frame_of e) (e % 4096) child_phys s1)
    else s

-- The loops over the entries `i` up to `i + n` of a table, whose part of the address is `virt`.
pub clone_pt : (child_pml4 virt pt n i : ℕ) → Pmm → Pmm
unfolding clone_page
clone_pt child_pml4 virt pt zero i s = s
clone_pt child_pml4 virt pt (suc n) i s =
    clone_pt child_pml4 virt pt n (suc i)
      (clone_page child_pml4 (bit_or virt (i * 2 ^ 12)) (entry s pt i) s)

pub clone_pd : (child_pml4 virt pd n i : ℕ) → Pmm → Pmm
unfolding clone_pt
clone_pd child_pml4 virt pd zero i s = s
clone_pd child_pml4 virt pd (suc n) i s =
    let e = entry s pd i in
    clone_pd child_pml4 virt pd n (suc i) (
      if is_present e && not (is_huge e)
      then clone_pt child_pml4 (bit_or virt (i * 2 ^ 21)) (frame_of e) 512 0 s
      else s)

pub clone_pdpt : (child_pml4 virt pdpt n i : ℕ) → Pmm → Pmm
unfolding clone_pd
clone_pdpt child_pml4 virt pdpt zero i s = s
clone_pdpt child_pml4 virt pdpt (suc n) i s =
    let e = entry s pdpt i in
    clone_pdpt child_pml4 virt pdpt n (suc i) (
      if is_present e && not (is_huge e)
      then clone_pd child_pml4 (bit_or virt (i * 2 ^ 30)) (frame_of e) 512 0 s
      else s)

pub clone_pml4 : (child_pml4 parent_pml4 n i : ℕ) → Pmm → Pmm
unfolding clone_pdpt
clone_pml4 child_pml4 parent_pml4 zero i s = s
clone_pml4 child_pml4 parent_pml4 (suc n) i s =
    let e = entry s parent_pml4 i in
    clone_pml4 child_pml4 parent_pml4 n (suc i)
      (if is_present e then clone_pdpt child_pml4 (i * 2 ^ 39) (frame_of e) 512 0 s else s)

pub vmm_clone_user_space : (parent_pml4 child_pml4 : ℕ) → Pmm → Pmm
unfolding clone_pml4
vmm_clone_user_space parent_pml4 child_pml4 s = clone_pml4 child_pml4 parent_pml4 256 0 s
