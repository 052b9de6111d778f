-- ===== src/Pmm/Tests.antt =====
-- The frame allocator with two free frames, and an empty one that gets a region.
use amazing_os.Base.{
  length, ◌≤◌, List, ◌⊎◌, ℕ, ◌+◌, ◌<◌, ◌≡◌, refl, [], ◌∷◌, some, arith, ◌==◌, if◌then◌else◌,
}
use amazing_os.Pmm.{Module, Pmm, pmm_alloc_frame, Guards, register_region}
use amazing_os.Pmm.FreeList.{IsFree, pmm_alloc_frame-IsFree}
use amazing_os.Pmm.Modules.{pmm_find_modules, end_tag, tag, pmm_find_modules_total}
use amazing_os.Pmm.Region.{In, WholeIn, register_region-IsFree}

abbrev two : Pmm
two = record {
  free_list_head = 0x200000;
  free_frames_count = 2;
  modules = [];
  words = λ a. if a == 0x200000 then 0x300000 else 0;
}

two-IsFree : IsFree two (0x200000 ∷ 0x300000 ∷ [])
two-IsFree = record {
  frames =
      (refl, (omega arith, (refl, ((omega arith, tt), (refl, (omega arith, (refl, (tt, refl))))))));
  counted = refl;
}

pmm_alloc_frame-IsFree_example :
    let (frame, s') = pmm_alloc_frame two in
    (frame ≡ 0x200000)
    × IsFree s' (0x300000 ∷ [])
    × ((i : ℕ) → i < 4096 → s'.words (0x200000 + i) ≡ 0)
pmm_alloc_frame-IsFree_example = pmm_alloc_frame-IsFree 0x200000 two (0x300000 ∷ []) two-IsFree

abbrev empty : Pmm
empty = record {
  free_list_head = 0;
  free_frames_count = 0;
  modules = record { start = 0x101000; end = 0x102000 } ∷ [];
  words = λ _. 0;
}

abbrev guards : Guards
guards = record { kern_start = 0x100000; kern_end = 0x101000; guard_start = 0; guard_end = 4096 }

-- Neither end of the region is at a frame's address.
register_region-IsFree_example :
    (s' : Pmm) × (register_region 0x10000 0xFF800 0x4A00 guards empty ≡ some s')
    × (all : List ℕ) × IsFree s' all
    × ((f : ℕ) → In f all → In f [] ⊎ WholeIn guards empty.modules 0xFF800 0x4A00 f)
    × ((f : ℕ) → In f [] ⊎ WholeIn guards empty.modules 0xFF800 0x4A00 f → In f all)
register_region-IsFree_example =
    register_region-IsFree guards 0xFF800 0x4A00 0x10000 empty [] (omega arith)
      (record { frames = refl; counted = refl }) tt (omega arith)

-- A module tag at 16 and an end tag at 32.
abbrev boot_info : ℕ → ℕ
boot_info a =
    if a == 8
    then 40
    else if a == 16
    then 3
    else if a == 20
    then 16
    else if a == 24
    then 0x101000
    else if a == 28
    then 0x102000
    else if a == 36
    then 8
    else 0

pmm_find_modules_total_example :
    (found : List Module) × (pmm_find_modules 41 0x36d76289 8 boot_info ≡ some found)
    × (length found ≤ 4)
pmm_find_modules_total_example =
    pmm_find_modules_total 41 0x36d76289 8 boot_info
      (λ _. tag (omega arith) (omega arith) (omega arith) (end_tag (omega arith) refl refl))
      (omega arith) (omega arith)
