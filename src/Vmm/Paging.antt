-- ===== src/Vmm/Paging.antt =====
-- What the walks return once a page is mapped or unmapped.
use amazing_os.Base.{
  ℕ, ◌+◌, ◌%◌, ◌^◌, ◌≤◌, ◌<◌, ◌≡◌, ◌≢◌, ◌⊎◌, inl, inr, refl, ◌∙◌, ap, sym, subst, Bool, true, false,
  not, ◌&&◌, List, [], arith, length, ◌==◌, if◌then◌else◌, Bool-cases, bit_or,
}
use amazing_os.Pmm.{Pmm, pmm_alloc_frame}
use amazing_os.Vmm.{
  is_present, is_user, frame_of, entry, set_entry, ensure_table, pml4_idx, pdpt_idx, pd_idx, pt_idx,
  pdpt_of, pd_of, pt_of, map_in_pt, map_in_pd, map_in_pdpt, vmm_map_page_in_pml4, vmm_get_phys,
  vmm_is_mapped, vmm_is_user_mapped, vmm_unmap_page,
}
use amazing_os.Pmm.FreeList.{IsFree}
use amazing_os.Vmm.Bits.{bit_or_page}
use amazing_os.Vmm.Entries.{entry_other, entry_same, set_entry-IsFree, not_in_use}
use amazing_os.Vmm.Tables.{IsPaged, PointsTo}
use amazing_os.Vmm.Walks.{
  Walk, get_phys-Walk, Walk-offset, is_mapped-Walk, is_user_mapped-Walk, unmap-Walk, Walk-kept,
  level_1, pt_of-Walk,
}
use amazing_os.Vmm.Mapped.{NotHuge}
use amazing_os.Vmm.Mapping.{map-Mapped}

-- The fields of a page-table entry.
leaf_entry :
    (phys flags : ℕ)
    → phys % 4096 ≡ 0
    → phys < 2 ^ 52
    → flags % 2 ^ 63 < 4096
    → (is_present (bit_or phys flags) ≡ is_present flags)
      × (is_user (bit_or phys flags) ≡ is_user flags)
      × (frame_of (bit_or phys flags) ≡ phys)
leaf_entry phys flags a small lt =
    let e : bit_or phys flags ≡ phys + flags = bit_or_page phys flags a small lt in
    rw e (ground arith, ground arith, omega arith)

-- Where the page tables are well formed from a level 4 table on, three frames are free, the page and
-- the frame are aligned, the frame lies below 2^52, the flags are below 2^12 but for the bit 63, and
-- no huge page is in the way, a page is mapped. The tables are well formed after it, and each address
-- of the page then translates to its place in the frame, when the flags hold PRESENT.
pub vmm_map_page_in_pml4-get_phys :
    (pml4 virt phys flags off : ℕ) (s : Pmm) (level : ℕ → ℕ) (fs : List ℕ)
    → IsPaged s level fs
    → level pml4 ≡ 4
    → 3 ≤ length fs
    → NotHuge pml4 virt s
    → virt % 4096 ≡ 0
    → phys % 4096 ≡ 0
    → phys < 2 ^ 52
    → flags % 2 ^ 63 < 4096
    → off < 4096
    → (s' : Pmm) × (level' : ℕ → ℕ) × (fs' : List ℕ) × (vmm_map_page_in_pml4 pml4 virt phys flags s
        ≡ (true, s'))
      × IsPaged s' level' fs'
      × (level' pml4 ≡ 4)
      × (vmm_get_phys pml4 (virt + off) s' ≡ (if is_present flags then phys + off else 0))
vmm_map_page_in_pml4-get_phys pml4 virt phys flags off s level fs q root enough small a b below lt
      off_lt =
    let m = map-Mapped pml4 virt s level fs q root enough small phys flags a b in
    let (here, user, at) = leaf_entry phys flags b below lt in
    let e : (virt + off) % 4096 ≡ off = omega arith in
    let w = Walk-offset m.state pml4 virt off m.table _ a off_lt m.walk in
    (
      m.state,
      m.levels,
      m.frames,
      m.result,
      m.paged,
      m.root,
      get_phys-Walk m.state pml4 (virt + off) m.table _ w
          ∙ ap (λ c. if not c then 0 else frame_of (bit_or phys flags) + (virt + off) % 4096) here
          ∙ rw (at, e) (ground arith),
    )

-- Where the page tables are well formed from a level 4 table on, three frames are free, the page and
-- the frame are aligned, the frame lies below 2^52, the flags are below 2^12 but for the bit 63 and
-- without USER, and no huge page is in the way, the page is mapped and is not the user's at any of its
-- addresses, whatever the flags of the tables above it.
pub vmm_map_page_in_pml4-is_user_mapped :
    (pml4 virt phys flags off : ℕ) (s : Pmm) (level : ℕ → ℕ) (fs : List ℕ)
    → IsPaged s level fs
    → level pml4 ≡ 4
    → 3 ≤ length fs
    → NotHuge pml4 virt s
    → virt % 4096 ≡ 0
    → phys % 4096 ≡ 0
    → phys < 2 ^ 52
    → flags % 2 ^ 63 < 4096
    → off < 4096
    → is_user flags ≡ false
    → (s' : Pmm) × (vmm_map_page_in_pml4 pml4 virt phys flags s ≡ (true, s'))
      × (vmm_is_user_mapped pml4 (virt + off) s' ≡ false)
vmm_map_page_in_pml4-is_user_mapped pml4 virt phys flags off s level fs q root enough small a b
      below lt off_lt kernel =
    let m = map-Mapped pml4 virt s level fs q root enough small phys flags a b in
    let (here, user, at) = leaf_entry phys flags b below lt in
    let w = Walk-offset m.state pml4 virt off m.table _ a off_lt m.walk in
    (m.state, m.result, is_user_mapped-Walk m.state pml4 (virt + off) m.table _ w (user ∙ kernel))

-- Where the tables are well formed, three frames are free, no huge page is in the way, the page and the
-- frame are aligned and the page is mapped, an address whose walk from a root of level 4 ends in a
-- page table keeps its translation, unless its entry is the one of the page that is mapped.
pub vmm_map_page_in_pml4-other_page :
    (pml4 virt phys flags : ℕ) (s s' : Pmm) (level : ℕ → ℕ) (fs : List ℕ) (root virt' p1 e : ℕ)
    → IsPaged s level fs
    → level pml4 ≡ 4
    → 3 ≤ length fs
    → NotHuge pml4 virt s
    → virt % 4096 ≡ 0
    → phys % 4096 ≡ 0
    → level root ≡ 4
    → Walk s root virt' p1 e
    → vmm_map_page_in_pml4 pml4 virt phys flags s ≡ (true, s')
    → (p1 ≢ pt_of pml4 virt s') ⊎ (pt_idx virt' ≢ pt_idx virt)
    → vmm_get_phys root virt' s' ≡ vmm_get_phys root virt' s
vmm_map_page_in_pml4-other_page pml4 virt phys flags s s' level fs root virt' p1 e q at enough small
      a b at' w done other =
    let m = map-Mapped pml4 virt s level fs q at enough small phys flags a b in
    let leaf = level_1 root virt' p1 e s s level fs q at' w in
    let same : s' ≡ m.state = ap (λ (r : Bool × Pmm). r.1) (sym done ∙ m.result) in
    let table : pt_of pml4 virt s' ≡ m.table =
      ap (pt_of pml4 virt) same ∙ pt_of-Walk m.state pml4 virt m.table _ m.walk in
    let ne : (p1 ≢ m.table) ⊎ (pt_idx virt' ≢ pt_idx virt) = ground (arith, table) in
    let above : (t i : ℕ)
        → 2 ≤ level t
        → i < 512
        → is_present (entry s t i) ≡ true
        → entry m.state t i ≡ entry s t i =
      λ t i high lt here.
        m.keeps t i (omega arith) lt (inr here) (
          inl
            (λ z. absurd (omega (arith, ap m.levels z, m.leaf, m.keeps_level t (omega arith))))) in
    let kept =
      m.keeps p1 (pt_idx virt') (omega (arith, leaf)) (omega arith) (inl leaf) ne ∙ w.last in
    ap (vmm_get_phys root virt') same
    ∙ get_phys-Walk m.state root virt' p1 e
        (Walk-kept root virt' p1 e s m.state level fs q at' w e above kept)
    ∙ sym (get_phys-Walk s root virt' p1 e w)

-- A page that is mapped by tables that are well formed, at an aligned address, is unmapped: none of its
-- addresses is mapped or translates to a frame after it. The tables stay well formed, and the free
-- frames stay as they are.
pub vmm_unmap_page-is_mapped :
    (pml4 virt p1 e off : ℕ) (s : Pmm) (level : ℕ → ℕ) (fs : List ℕ)
    → IsPaged s level fs
    → level pml4 ≡ 4
    → Walk s pml4 virt p1 e
    → virt % 4096 ≡ 0
    → is_present e ≡ true
    → off < 4096
    → (s' : Pmm) × (vmm_unmap_page pml4 virt s ≡ (true, s'))
      × IsPaged s' level fs
      × (vmm_is_mapped pml4 (virt + off) s' ≡ false)
      × (vmm_get_phys pml4 (virt + off) s' ≡ 0)
vmm_unmap_page-is_mapped pml4 virt p1 e off s level fs q root w a here lt =
    let leaf = level_1 pml4 virt p1 e s s level fs q root w in
    let p1_aligned = q.aligned p1 (omega (arith, leaf)) in
    let s' = set_entry p1 (pt_idx virt) 0 s in
    let above : (t i : ℕ) → 2 ≤ level t → i < 512 → entry s' t i ≡ entry s t i = λ t i high lt.
      entry_other p1 (pt_idx virt) 0 t i s p1_aligned (q.aligned t (omega arith)) (omega arith) lt
        (inl (λ z. absurd (omega (arith, ap level z, leaf)))) in
    let w' = Walk-offset s' pml4 virt off p1 0 a lt (
      Walk-kept pml4 virt p1 e s s' level fs q root w 0 (λ t i high lt here. above t i high lt)
        (entry_same p1 (pt_idx virt) 0 s)) in
    (
      s',
      unmap-Walk s pml4 virt p1 e w a here,
      record {
        free =
            set_entry-IsFree p1 (pt_idx virt) 0 s fs p1_aligned (omega arith)
              (not_in_use level p1 fs (omega (arith, leaf)) q.unused) q.free;
        unused = q.unused;
        aligned = q.aligned;
        points = λ t i lt high.
            subst (λ e. PointsTo level e (level t)) (sym (above t i high lt))
              (q.points t i lt high);
      },
      is_mapped-Walk s' pml4 (virt + off) p1 0 w',
      get_phys-Walk s' pml4 (virt + off) p1 0 w',
    )

-- With no free frame, a table is only found.
ensure_found :
    (t i : ℕ) (s : Pmm) → IsFree s [] → ensure_table t i s ≡ (is_present (entry s t i), s)
unfolding ensure_table pmm_alloc_frame
ensure_found t i s q = elim (Bool-cases (is_present (entry s t i))) [
  | inl here ↦ rw here refl
  | inr absent ↦ rw (absent, q.frames) refl
]

module _ (virt phys flags : ℕ) (s : Pmm) (q : IsFree s []) where
  at_pt : ℕ → Pmm
  at_pt pd = set_entry (frame_of (entry s pd (pd_idx virt))) (pt_idx virt) (bit_or phys flags) s

  found_pt :
      (b : Bool) (pd : ℕ)
      → map_in_pt pd virt phys flags (b, s) ≡ (if b then (true, at_pt pd) else (false, s))
  unfolding map_in_pt at_pt
  found_pt false pd = refl
  found_pt true pd = refl

  found_pd :
      (b : Bool) (pdpt : ℕ)
      → map_in_pd pdpt virt phys flags (b, s) ≡ (
          if b && is_present (entry s (frame_of (entry s pdpt (pdpt_idx virt))) (pd_idx virt))
          then (true, at_pt (frame_of (entry s pdpt (pdpt_idx virt))))
          else (false, s))
  unfolding map_in_pd
  found_pd false pdpt = refl
  found_pd true pdpt =
      let pd = frame_of (entry s pdpt (pdpt_idx virt)) in
      ap (map_in_pt pd virt phys flags) (ensure_found pd (pd_idx virt) s q) ∙ found_pt _ pd

  found_pdpt :
      (b : Bool) (pml4 : ℕ)
      → map_in_pdpt pml4 virt phys flags (b, s) ≡ (
          if b
            && is_present (entry s (pdpt_of pml4 virt s) (pdpt_idx virt))
            && is_present (entry s (pd_of pml4 virt s) (pd_idx virt))
          then (true, at_pt (pd_of pml4 virt s))
          else (false, s))
  unfolding map_in_pdpt
  found_pdpt false pml4 = refl
  found_pdpt true pml4 =
      let pdpt = pdpt_of pml4 virt s in
      ap (map_in_pd pdpt virt phys flags) (ensure_found pdpt (pdpt_idx virt) s q) ∙ found_pd _ pdpt

-- With no free frame, a page at an aligned address and frame is mapped only where the three tables
-- are there; the state is else as it was. An address or a frame that is not aligned is refused.
pub vmm_map_page_in_pml4-no_frame :
    (pml4 virt phys flags : ℕ) (s : Pmm)
    → IsFree s []
    → vmm_map_page_in_pml4 pml4 virt phys flags s ≡ (
        if virt % 4096 == 0
          && phys % 4096 == 0
          && is_present (entry s pml4 (pml4_idx virt))
          && is_present (entry s (pdpt_of pml4 virt s) (pdpt_idx virt))
          && is_present (entry s (pd_of pml4 virt s) (pd_idx virt))
        then (true, set_entry (pt_of pml4 virt s) (pt_idx virt) (bit_or phys flags) s)
        else (false, s))
unfolding vmm_map_page_in_pml4 at_pt
vmm_map_page_in_pml4-no_frame pml4 virt phys flags s q = elim (Bool-cases (virt % 4096 == 0)) [
  | inr bad ↦ rw bad refl
  | inl good ↦ elim (Bool-cases (phys % 4096 == 0)) [
    | inr bad ↦ rw (good, bad) refl
    | inl fine ↦
        rw (good, fine)
          (ap (map_in_pdpt pml4 virt phys flags) (ensure_found pml4 (pml4_idx virt) s q)
            ∙ found_pdpt virt phys flags s q _ pml4)
  ]
]
