-- ===== src/Vmm/Space.antt =====
-- Kernel/CrecentKernel/src/kernel/vmm.cpp: a new address space, which shares the kernel's tables.
pub mod Copying
pub mod Child
pub mod Sharing
pub mod Creation
use amazing_os.Base.{
  ℕ, zero, suc, ◌+◌, ◌-◌, ◌*◌, ◌/◌, ◌%◌, ◌^◌, ◌≤◌, ◌<◌, ◌≡◌, ◌≢◌, ◌⊎◌, inl, inr, refl, ◌∙◌, ap, sym,
  subst, Bool, true, false, not, ◌&&◌, ◌||◌, List, [], ◌∷◌, arith, length, ◌==◌, leb, ltb,
  if◌then◌else◌, All, Bool-cases, ≢→==_false, bit_or,
}
use amazing_os.Pmm.{Pmm, within, take_frame, pmm_alloc_frame}
use amazing_os.Vmm.{
  is_present, is_user, is_huge, frame_of, table_flags, entry, set_entry, clear_table, pml4_idx,
  pdpt_idx, pd_idx, pt_idx, pdpt_of, pd_of, pt_of, vmm_get_phys, vmm_is_mapped,
}

-- Entries `i` up to `i + n` of a table are set to those of another, one by one.
unfoldable pub copy_entries : (dest src i n : ℕ) → Pmm → Pmm
copy_entries dest src i zero s = s
copy_entries dest src i (suc n) s =
    copy_entries dest src (suc i) n (set_entry dest i (entry s src i) s)

pub clear_entries : (dest i n : ℕ) → Pmm → Pmm
clear_entries dest i zero s = s
clear_entries dest i (suc n) s = clear_entries dest (suc i) n (set_entry dest i 0 s)

-- The new table is cleared and linked whether or not a frame was left.
abbrev pub link_pdpt : (child pdpt : ℕ) → Pmm → Pmm
link_pdpt child pdpt s = set_entry child 0 (bit_or pdpt table_flags) (clear_table pdpt s)

pub ensure_child_pdpt : (child : ℕ) → Pmm → Pmm
unfolding pmm_alloc_frame
ensure_child_pdpt child s =
    if is_present (entry s child 0)
    then s
    else let (pdpt, s1) = pmm_alloc_frame s in link_pdpt child pdpt s1

-- The first 16 entries, one for each GB, are the parent's.
pub share_low : (active_pml4 child : ℕ) → Pmm → Pmm
unfolding copy_entries
share_low active_pml4 child s =
    copy_entries (frame_of (entry s child 0)) (frame_of (entry s active_pml4 0)) 0 16 s

pub vmm_copy_kernel_identity_mappings : (active_pml4 child : ℕ) → Pmm → Pmm
unfolding share_low ensure_child_pdpt
vmm_copy_kernel_identity_mappings active_pml4 child s =
    if is_present (entry s active_pml4 0)
    then share_low active_pml4 child (ensure_child_pdpt child s)
    else s

pub fill_pml4 : (active_pml4 child : ℕ) → Pmm → Pmm
fill_pml4 active_pml4 child s = copy_entries child active_pml4 256 256 (clear_entries child 0 256 s)

pub create_at : (active_pml4 child : ℕ) → Pmm → ℕ × Pmm
create_at active_pml4 child s = if child == 0 then (0, s) else (
  child,
  vmm_copy_kernel_identity_mappings active_pml4 child (fill_pml4 active_pml4 child s),
)

pub vmm_create_user_address_space : (active_pml4 : ℕ) → Pmm → ℕ × Pmm
vmm_create_user_address_space active_pml4 s =
    let (child, s1) = pmm_alloc_frame s in create_at active_pml4 child s1
