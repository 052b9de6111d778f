-- ===== src/Heap/Tests.antt =====
-- Two slabs with one free object each, in the caches of 64 and of 128 bytes.
use amazing_os.Base.{
  ℕ, List, All, ◌⊎◌, ◌≤◌, ◌≡◌, refl, [], ◌∷◌, arith, ◌==◌, if◌then◌else◌, set, inr, some,
}
use amazing_os.Heap.{
  PageHeader, KmemCache, Heap, slab_magic, initial_caches, find_cache, kmalloc, kfree,
}
use amazing_os.Heap.Slabs.{IsSlab, kfree-IsSlab}
use amazing_os.Heap.Allocation.{Allocated, kmalloc-IsSlab}
use amazing_os.Heap.Carving.{InPage}
use amazing_os.Pmm.FreeList.{IsFree}

abbrev header : (next free_list_head size : ℕ) → PageHeader
header next free_list_head size = record {
  magic = slab_magic;
  page_count = 1;
  next = next;
  free_list_head = free_list_head;
  free_count = 1;
  total_count = 63;
  object_size = size;
}

abbrev small_cache : KmemCache
small_cache = record { object_size = 64; slabs = 0x5000 }

abbrev two_slabs : Heap
two_slabs = record {
  pmm = record { free_list_head = 0x200000; free_frames_count = 1; modules = []; words = λ a. 0 };
  headers = λ a. if a == 0x5000 then header 0 0x5070 64 else header 0 0x6030 128;
  caches = set (set initial_caches 2 small_cache) 3 (record { object_size = 128; slabs = 0x6000 });
  next_large_virt = 0xFFFF800100000000;
}

first-IsSlab : IsSlab two_slabs 0x5000 64 (0x5070 ∷ [])
first-IsSlab = record {
  valid = refl;
  linked = (refl, ((omega arith, omega arith), (tt, refl)));
  counted = refl;
  aligned = refl;
  real = omega arith;
}

second-IsSlab : IsSlab two_slabs 0x6000 128 (0x6030 ∷ [])
second-IsSlab = record {
  valid = refl;
  linked = (refl, ((omega arith, omega arith), (tt, refl)));
  counted = refl;
  aligned = refl;
  real = omega arith;
}

find_small : find_cache 50 two_slabs.caches 0 ≡ some (2, small_cache)
unfolding find_cache
find_small = refl

small_frames : IsFree two_slabs.pmm (0x200000 ∷ [])
small_frames = record { frames = (refl, (omega arith, (refl, (tt, refl)))); counted = refl }

abbrev one_other : List (ℕ × ℕ × List ℕ)
one_other = (0x6000, 128, 0x6030 ∷ []) ∷ []

kmalloc-IsSlab_example :
    let r = kmalloc 0x1000 2 50 two_slabs in
    (50 ≤ 64)
    × Allocated two_slabs 64 0x200000 r
    × All (λ q. InPage q.0 64 r.0 ⊎ IsSlab r.1 q.0 q.1 q.2) one_other
kmalloc-IsSlab_example =
    kmalloc-IsSlab 0x1000 2 50 two_slabs 2 small_cache ((0x5000, 0x5070 ∷ []) ∷ []) 0x200000 []
      one_other (omega arith) (omega arith) find_small (omega arith) (omega arith)
      (refl, (first-IsSlab, refl)) (omega arith) small_frames
      ((omega arith, omega arith, second-IsSlab), tt)

kfree-IsSlab_example :
    IsSlab (kfree 0x1000 0x5030 two_slabs) 0x5000 64 (0x5030 ∷ 0x5070 ∷ [])
    × All (λ q. IsSlab (kfree 0x1000 0x5030 two_slabs) q.0 q.1 q.2) one_other
kfree-IsSlab_example =
    kfree-IsSlab 0x1000 two_slabs 0x5000 64 0x5030 (0x5070 ∷ []) one_other first-IsSlab
      (omega arith) (omega arith, omega arith) (inr (omega arith), tt) (omega arith)
      ((omega arith, omega arith, second-IsSlab), tt)
