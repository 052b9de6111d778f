-- ===== src/Vmm/Tests.antt =====
-- One page at address 0, in tables at 0x1000 to 0x4000, and three free frames.
use amazing_os.Base.{
  ℕ, ◌+◌, ◌%◌, ◌^◌, ◌≤◌, ◌<◌, ◌≡◌, inr, refl, true, false, ◌&&◌, List, [], ◌∷◌, arith, ◌==◌,
  if◌then◌else◌, bit_or,
}
use amazing_os.Pmm.{Pmm}
use amazing_os.Vmm.{
  is_present, entry, set_entry, pml4_idx, pdpt_idx, pd_idx, pt_idx, pdpt_of, pd_of, pt_of,
  vmm_map_page_in_pml4, vmm_get_phys, vmm_is_mapped, vmm_is_user_mapped, vmm_unmap_page,
}
use amazing_os.Vmm.Tables.{IsPaged, PointsTo}
use amazing_os.Vmm.Walks.{Walk}
use amazing_os.Vmm.Mapped.{NotHuge}
use amazing_os.Vmm.Space.{vmm_create_user_address_space}
use amazing_os.Vmm.Space.Sharing.{is_shared}
use amazing_os.Vmm.Space.Creation.{
  vmm_create_user_address_space-IsPaged, vmm_create_user_address_space-get_phys,
}
use amazing_os.Vmm.Paging.{
  vmm_map_page_in_pml4-get_phys, vmm_map_page_in_pml4-is_user_mapped,
  vmm_map_page_in_pml4-other_page, vmm_unmap_page-is_mapped, vmm_map_page_in_pml4-no_frame,
}

abbrev one_page : Pmm
one_page = record {
  free_list_head = 0x200000;
  free_frames_count = 3;
  modules = [];
  words = λ a.
      if a == 0x1000
      then 0x2007
      else if a == 0x2000
      then 0x3007
      else if a == 0x3000
      then 0x4007
      else if a == 0x4000
      then 0x5003
      else if a == 0x200000
      then 0x300000
      else if a == 0x300000
      then 0x400000
      else 0;
}

abbrev one_level : ℕ → ℕ
one_level a =
    if a == 0x1000
    then 4
    else if a == 0x2000
    then 3
    else if a == 0x3000
    then 2
    else if a == 0x4000
    then 1
    else 0

-- An entry of a table is the first one, or empty.
one_points :
    (t i : ℕ) → i < 512 → 2 ≤ one_level t → PointsTo one_level (entry one_page t i) (one_level t)
one_points t i lt high here = ground arith

one_page-IsPaged : IsPaged one_page one_level (0x200000 ∷ 0x300000 ∷ 0x400000 ∷ [])
one_page-IsPaged = record {
  free = record {
    frames = (
      refl,
      (
        omega arith,
        (
          refl,
          (
            (omega arith, (omega arith, tt)),
            (
              refl,
              (omega arith, (refl, ((omega arith, tt), (refl, (omega arith, (refl, (tt, refl))))))),
            ),
          ),
        ),
      ),
    );
    counted = refl;
  };
  unused = ((refl, omega arith), ((refl, omega arith), ((refl, omega arith), tt)));
  aligned = λ t h. ground arith;
  points = one_points;
}

one_page-Walk : Walk one_page 0x1000 0 0x4000 0x5003
one_page-Walk = record {
  p3 = 0x2000;
  p2 = 0x3000;
  present_4 = refl;
  at_3 = refl;
  present_3 = refl;
  at_2 = refl;
  present_2 = refl;
  small = refl;
  at_1 = refl;
  last = refl;
}

-- The 513th gigabyte has no tables yet.
far_small : NotHuge 0x1000 (2 ^ 39 + 0x3000) one_page
far_small here = absurd (ground arith)

vmm_map_page_in_pml4-get_phys_example :
    (s' : Pmm) × (level' : ℕ → ℕ) × (fs' : List ℕ) × (vmm_map_page_in_pml4 0x1000
        (2 ^ 39 + 0x3000)
        0x700000
        (2 ^ 63 + 7)
        one_page
      ≡ (true, s'))
    × IsPaged s' level' fs'
    × (level' 0x1000 ≡ 4)
    × (vmm_get_phys 0x1000 (2 ^ 39 + 0x3000 + 5) s' ≡ 0x700005)
vmm_map_page_in_pml4-get_phys_example =
    vmm_map_page_in_pml4-get_phys 0x1000 (2 ^ 39 + 0x3000) 0x700000 (2 ^ 63 + 7) 5 one_page
      one_level (0x200000 ∷ 0x300000 ∷ 0x400000 ∷ []) one_page-IsPaged refl (omega arith) far_small
      refl refl (omega arith) (omega arith) (omega arith)

vmm_map_page_in_pml4-is_user_mapped_example :
    (s' : Pmm) × (vmm_map_page_in_pml4 0x1000 (2 ^ 39 + 0x3000) 0x700000 3 one_page ≡ (true, s'))
    × (vmm_is_user_mapped 0x1000 (2 ^ 39 + 0x3000 + 5) s' ≡ false)
vmm_map_page_in_pml4-is_user_mapped_example =
    vmm_map_page_in_pml4-is_user_mapped 0x1000 (2 ^ 39 + 0x3000) 0x700000 3 5 one_page one_level
      (0x200000 ∷ 0x300000 ∷ 0x400000 ∷ []) one_page-IsPaged refl (omega arith) far_small refl refl
      (omega arith) (omega arith) (omega arith) refl

-- Another page of the same table.
near_small : NotHuge 0x1000 0x3000 one_page
near_small here there = refl

abbrev after : Pmm
after = set_entry 0x4000 3 (bit_or 0x700000 7) one_page

near_mapped : vmm_map_page_in_pml4 0x1000 0x3000 0x700000 7 one_page ≡ (true, after)
unfolding vmm_map_page_in_pml4
near_mapped = refl

vmm_map_page_in_pml4-other_page_example :
    vmm_get_phys 0x1000 0 after ≡ vmm_get_phys 0x1000 0 one_page
vmm_map_page_in_pml4-other_page_example =
    vmm_map_page_in_pml4-other_page 0x1000 0x3000 0x700000 7 one_page after one_level
      (0x200000 ∷ 0x300000 ∷ 0x400000 ∷ []) 0x1000 0 0x4000 0x5003 one_page-IsPaged refl
      (omega arith) near_small refl refl refl one_page-Walk near_mapped (inr (omega arith))

vmm_unmap_page-is_mapped_example :
    (s' : Pmm) × (vmm_unmap_page 0x1000 0 one_page ≡ (true, s'))
    × IsPaged s' one_level (0x200000 ∷ 0x300000 ∷ 0x400000 ∷ [])
    × (vmm_is_mapped 0x1000 9 s' ≡ false)
    × (vmm_get_phys 0x1000 9 s' ≡ 0)
vmm_unmap_page-is_mapped_example =
    vmm_unmap_page-is_mapped 0x1000 0 0x4000 0x5003 9 one_page one_level
      (0x200000 ∷ 0x300000 ∷ 0x400000 ∷ []) one_page-IsPaged refl one_page-Walk refl refl
      (omega arith)

-- The same tables with no frame left.
abbrev full : Pmm
full = record one_page { free_list_head = 0; free_frames_count = 0 }

vmm_map_page_in_pml4-no_frame_example : vmm_map_page_in_pml4 0x1000 0x3000 0x700000 7 full ≡ (
    if 0x3000 % 4096 == 0
      && 0x700000 % 4096 == 0
      && is_present (entry full 0x1000 (pml4_idx 0x3000))
      && is_present (entry full (pdpt_of 0x1000 0x3000 full) (pdpt_idx 0x3000))
      && is_present (entry full (pd_of 0x1000 0x3000 full) (pd_idx 0x3000))
    then (true, set_entry (pt_of 0x1000 0x3000 full) (pt_idx 0x3000) (bit_or 0x700000 7) full)
    else (false, full))
vmm_map_page_in_pml4-no_frame_example =
    vmm_map_page_in_pml4-no_frame 0x1000 0x3000 0x700000 7 full
      (record { frames = refl; counted = refl })

vmm_create_user_address_space-IsPaged_example :
    (s' : Pmm) × (level' : ℕ → ℕ) × (vmm_create_user_address_space 0x1000 one_page ≡ (0x200000, s'))
    × IsPaged s' level' (0x400000 ∷ [])
    × (level' 0x200000 ≡ 4)
    × (level' 0x1000 ≡ 4)
vmm_create_user_address_space-IsPaged_example =
    vmm_create_user_address_space-IsPaged 0x1000 0x200000 0x300000 one_page one_level
      (0x400000 ∷ []) one_page-IsPaged refl refl

vmm_create_user_address_space-get_phys_example :
    (s' : Pmm) × (vmm_create_user_address_space 0x1000 one_page ≡ (0x200000, s'))
    × (vmm_get_phys 0x200000 8 s' ≡ (if is_shared 8 then vmm_get_phys 0x1000 8 one_page else 0))
    × (vmm_get_phys 0x1000 8 s' ≡ vmm_get_phys 0x1000 8 one_page)
vmm_create_user_address_space-get_phys_example =
    vmm_create_user_address_space-get_phys 0x1000 0x200000 0x300000 8 one_page one_level
      (0x400000 ∷ []) one_page-IsPaged refl refl
