-- ===== src/Heap.antt =====
-- Kernel/CrecentKernel/src/kernel/heap.cpp: slab caches for small objects, pages of their own for
-- large ones. Headers are records at the address of their page, and the links of free objects are
-- words of memory. A frame is used at its physical address, as the source does.
pub mod Carving
pub mod Slabs
pub mod Allocation
mod Tests
use amazing_os.Base.{
  ℕ, zero, suc, ◌+◌, ◌-◌, ◌*◌, ◌/◌, ◌%◌, ◌^◌, Bool, true, false, ◌&&◌, not, ◌==◌, leb, ltb, Option,
  none, some, List, [], ◌∷◌, if◌then◌else◌, set,
}
use amazing_os.Pmm.{Pmm, pmm_alloc_frame, pmm_free_frame}
use amazing_os.Vmm.{vmm_map_page, vmm_get_phys, vmm_unmap_page}

pub record PageHeader : Type 0 where
  pub magic : ℕ
  pub page_count : ℕ
  pub next : ℕ
  pub free_list_head : ℕ
  pub free_count : ℕ
  pub total_count : ℕ
  pub object_size : ℕ

pub record KmemCache : Type 0 where
  pub object_size : ℕ
  pub slabs : ℕ

pub record Heap : Type 0 where
  pub pmm : Pmm
  pub headers : ℕ → PageHeader
  pub caches : List KmemCache
  pub next_large_virt : ℕ

-- The caches at the start.
abbrev pub initial_caches : List KmemCache
initial_caches =
    record { object_size = 16; slabs = 0 }
    ∷ record { object_size = 32; slabs = 0 }
    ∷ record { object_size = 64; slabs = 0 }
    ∷ record { object_size = 128; slabs = 0 }
    ∷ record { object_size = 256; slabs = 0 }
    ∷ record { object_size = 512; slabs = 0 }
    ∷ record { object_size = 1024; slabs = 0 }
    ∷ record { object_size = 2048; slabs = 0 }
    ∷ []

abbrev pub u64 : ℕ
u64 = 2 ^ 64

abbrev pub slab_magic : ℕ
slab_magic = 0x51ABCA08

abbrev pub direct_magic : ℕ
direct_magic = 0xD12EC100

-- `sizeof(PageHeader)`, and the place of the first object.
abbrev pub sizeof_header : ℕ
sizeof_header = 40

abbrev pub object_start : ℕ
object_start = 48

abbrev pub set_header : ℕ → PageHeader → Heap → Heap
set_header page p h = record h { headers = λ a. if a == page then p else h.headers a }

abbrev pub set_words : (ℕ → ℕ) → Heap → Heap
set_words w h = record h { pmm = record h.pmm { words = w } }

-- The first cache whose objects are large enough, with its index.
pub find_cache : (size : ℕ) → List KmemCache → (i : ℕ) → Option (ℕ × KmemCache)
find_cache size [] i = none
find_cache size (c ∷ cs) i =
    let rest = find_cache size cs (i + 1) in if leb size c.object_size then some (i, c) else rest

-- The first slab with a free object, or 0.
pub find_slab : (fuel : ℕ) → (headers : ℕ → PageHeader) → (slab : ℕ) → ℕ
find_slab zero headers slab = 0
find_slab (suc fuel) headers slab =
    let rest = find_slab fuel headers (headers slab).next in
    if slab == 0 then 0 else if ltb 0 (headers slab).free_count then slab else rest

-- The loop that links the objects of a page: the words, the last object and the count.
pub carve : (fuel page size offset prev count : ℕ) → (ℕ → ℕ) → (ℕ → ℕ) × (ℕ × ℕ)
carve zero page size offset prev count w = (w, (prev, count))
carve (suc fuel) page size offset prev count w =
    let rest =
      carve fuel page size (offset + size) (page + offset) (count + 1)
        (λ a. if a == page + offset then prev else w a) in
    if leb (offset + size) 4096 then rest else (w, (prev, count))

-- A page becomes the first slab of its cache. An object takes 16 bytes at least.
abbrev pub link_slab : (page i : ℕ) → KmemCache → (ℕ → ℕ) × (ℕ × ℕ) → Heap → Heap
link_slab page i c (w, (last, count)) h =
    let h1 = set_words w (
      set_header page
        (record {
          magic = slab_magic;
          page_count = 1;
          next = c.slabs;
          free_list_head = last;
          free_count = count;
          total_count = count;
          object_size = c.object_size;
        })
        h) in
    record h1 { caches = set h1.caches i (record c { slabs = page }) }

pub new_slab : (page i : ℕ) → KmemCache → Heap → Heap
unfolding carve
new_slab page i c h =
    link_slab page i c (carve 256 page c.object_size object_start 0 0 h.pmm.words) h

pub pop_object : (slab : ℕ) → Heap → ℕ × Heap
pop_object slab h =
    let p = h.headers slab in
    (
      p.free_list_head,
      set_header slab
          (record p {
            free_list_head = h.pmm.words p.free_list_head;
            free_count = p.free_count - 1;
          })
          h,
    )

-- With no slab, a frame is made one, if there is a frame.
pub slab_from : (page i : ℕ) → KmemCache → Heap → ℕ × Heap
slab_from page i c h = if page == 0 then (0, h) else pop_object page (new_slab page i c h)

pub alloc_object : (slab i : ℕ) → KmemCache → Heap → ℕ × Heap
unfolding pmm_alloc_frame
alloc_object slab i c h =
    if slab == 0
    then (let (page, pmm) = pmm_alloc_frame h.pmm in slab_from page i c (record h { pmm = pmm }))
    else pop_object slab h

pub in_cache : (fuel : ℕ) → Option (ℕ × KmemCache) → Heap → ℕ × Heap
in_cache fuel none h = (0, h)
in_cache fuel (some (i, c)) h = alloc_object (find_slab fuel h.headers c.slabs) i c h

pub kmalloc_small : (fuel size : ℕ) → Heap → ℕ × Heap
kmalloc_small fuel size h = in_cache fuel (find_cache size h.caches 0) h

-- Pages `i` up to `i + n` of a large allocation; the flags are PRESENT and WRITABLE. The frames that a
-- call has mapped when it fails stay mapped.
pub map_pages : (active_pml4 virt_start n i : ℕ) → Pmm → Bool × Pmm
unfolding pmm_alloc_frame
map_pages active_pml4 virt_start zero i s = (true, s)
map_pages active_pml4 virt_start (suc n) i s =
    let (frame, s1) = pmm_alloc_frame s in
    let s2 = (vmm_map_page active_pml4 ((virt_start + i * 4096) % u64) frame 3 s1).1 in
    elim (frame == 0) [ true ↦ (false, s1) | false ↦ map_pages active_pml4 virt_start n (i + 1) s2 ]

abbrev pub write_header : (virt_start size pages : ℕ) → Bool × Pmm → Heap → ℕ × Heap
write_header virt_start size pages (false, s) h = (0, record h { pmm = s })
write_header virt_start size pages (true, s) h = (
  (virt_start + sizeof_header) % u64,
  set_header virt_start
      (record {
        magic = direct_magic;
        page_count = pages % 2 ^ 32;
        next = 0;
        free_list_head = 0;
        free_count = 0;
        total_count = 0;
        object_size = size;
      })
      (record h { pmm = s }),
)

abbrev pub pages_for : (size : ℕ) → ℕ
pages_for size = ((size + sizeof_header) % u64 + 4095) % u64 / 4096

pub kmalloc_large : (active_pml4 size : ℕ) → Heap → ℕ × Heap
unfolding map_pages
kmalloc_large active_pml4 size h =
    let virt_start = h.next_large_virt in
    let pages = pages_for size in
    let h1 = record h { next_large_virt = (virt_start + pages * 4096) % u64 } in
    write_header virt_start size pages (map_pages active_pml4 virt_start pages 0 h1.pmm) h1

-- The address, or 0, and the heap after it.
pub kmalloc : (active_pml4 fuel size : ℕ) → Heap → ℕ × Heap
kmalloc active_pml4 fuel size h =
    if size == 0
    then (0, h)
    else if leb size 2048
    then kmalloc_small fuel size h
    else kmalloc_large active_pml4 size h

pub push_object : (page ptr : ℕ) → Heap → Heap
push_object page ptr h =
    let p = h.headers page in
    set_header page (record p { free_list_head = ptr; free_count = (p.free_count + 1) % 2 ^ 32 })
      (set_words (λ a. if a == ptr then p.free_list_head else h.pmm.words a) h)

pub unmap_pages : (active_pml4 virt_start n i : ℕ) → Pmm → Pmm
unmap_pages active_pml4 virt_start zero i s = s
unmap_pages active_pml4 virt_start (suc n) i s =
    let virt_page = (virt_start + i * 4096) % u64 in
    let phys_page = vmm_get_phys active_pml4 virt_page s in
    let s1 = if phys_page == 0 then s else pmm_free_frame phys_page s in
    unmap_pages active_pml4 virt_start n (i + 1) (vmm_unmap_page active_pml4 virt_page s1).1

-- A pointer without a valid header changes nothing.
pub kfree : (active_pml4 ptr : ℕ) → Heap → Heap
unfolding push_object unmap_pages
kfree active_pml4 ptr h =
    let page = ptr / 4096 * 4096 in
    let p = h.headers page in
    if ptr == 0
    then h
    else if p.magic == slab_magic
    then push_object page ptr h
    else if p.magic == direct_magic
    then record h { pmm = unmap_pages active_pml4 page p.page_count 0 h.pmm }
    else h
