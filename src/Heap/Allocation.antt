-- ===== src/Heap/Allocation.antt =====
-- `kmalloc` of a small size, against the slabs that are well formed.
use amazing_os.Base.{
  ℕ, zero, suc, ◌+◌, ◌*◌, ◌%◌, ◌≤◌, ◌<◌, ◌≡◌, ◌≢◌, ◌⊎◌, inl, inr, refl, ◌∙◌, ap, sym, subst, Bool,
  true, false, List, [], ◌∷◌, arith, length, ◌==◌, leb, ltb, Option, none, some, if◌then◌else◌, All,
  Bool-cases, ≢→==_false,
}
use amazing_os.Pmm.{Pmm, within, take_frame, pmm_alloc_frame}
use amazing_os.Pmm.FreeList.{IsFree, alloc_first}
use amazing_os.Heap.{
  KmemCache, Heap, object_start, find_cache, find_slab, new_slab, pop_object, slab_from,
  alloc_object, kmalloc_small, in_cache, kmalloc,
}
use amazing_os.Heap.Carving.{InPage, Apart}
use amazing_os.Heap.Slabs.{
  IsSlab, SlabList, Others, IsSlab-kept, pop_object-IsSlab, carved, new_slab-IsSlab, new_slab-kept,
}

-- The search ends at a slab with a free object, or there is none.
find_slab_lem :
    (fuel size p : ℕ) (h : Heap) (ss : List (ℕ × List ℕ))
    → SlabList h size p ss
    → length ss < fuel
    → (find_slab fuel h.headers p ≡ 0)
      ⊎ ((page o : ℕ) × (os : List ℕ) × (find_slab fuel h.headers p ≡ page)
          × IsSlab h page size (o ∷ os))
unfolding find_slab
find_slab_lem zero size p h ss s enough = absurd (omega arith)
find_slab_lem (suc fuel) size p h [] s enough = inl (rw s refl)
find_slab_lem (suc fuel) size p h ((page, []) ∷ ss) s enough =
    let there : (p == 0) ≡ false = ground (arith, s.0, s.1.0.real) in
    let none_free : ltb 0 (h.headers p).free_count ≡ false =
      ap (λ a. ltb 0 (h.headers a).free_count) s.0 ∙ ap (ltb 0) s.1.0.counted in
    let step : find_slab (suc fuel) h.headers p ≡ find_slab fuel h.headers (h.headers page).next =
      rw (there, find_slab)
        (rw none_free (ap (λ a. find_slab fuel h.headers (h.headers a).next) s.0)) in
    elim (find_slab_lem fuel size (h.headers page).next h ss s.1.1 (omega arith)) [
      | inl empty ↦ inl (step ∙ empty)
      | inr (q, o, os, at, good) ↦ inr (q, o, os, step ∙ at, good)
    ]
find_slab_lem (suc fuel) size p h ((page, o ∷ os) ∷ ss) s enough =
    let there : (p == 0) ≡ false = ground (arith, s.0, s.1.0.real) in
    let some_free : ltb 0 (h.headers p).free_count ≡ true =
      ap (λ a. ltb 0 (h.headers a).free_count) s.0 ∙ ap (ltb 0) s.1.0.counted ∙ ground arith in
    inr (page, o, os, rw (there, find_slab) (rw some_free s.0), s.1.0)

abbrev found_size : Option (ℕ × KmemCache) → ℕ
found_size none = 0
found_size (some (i, c)) = c.object_size

find_cache_lem :
    (size : ℕ) (cs : List KmemCache) (n i : ℕ) (c : KmemCache)
    → find_cache size cs n ≡ some (i, c)
    → size ≤ c.object_size
unfolding find_cache
find_cache_lem size [] n i c found = cc found
find_cache_lem size (x ∷ cs) n i c found = elim (Bool-cases (leb size x.object_size)) [
  | inr small ↦ find_cache_lem size cs (n + 1) i c (rw small at found)
  | inl fits ↦
      let same : x.object_size ≡ c.object_size = ap found_size (rw fits at found) in
      let enough : size ≤ x.object_size = ground arith in omega arith
]

take_frame-kept :
    (f q size : ℕ) (xs : List ℕ) (h : Heap)
    → f % 4096 ≡ 0
    → 0 < size
    → q ≢ f
    → IsSlab h q size xs
    → IsSlab (record h { pmm = take_frame f h.pmm }) q size xs
unfolding take_frame
take_frame-kept f q size xs h aligned pos ne s =
    IsSlab-kept h _ q size xs pos refl
      (λ a low high.
        let outside : within f (f + 4096) a ≡ false = ground (arith, s.aligned) in rw outside refl)
      s

-- What an allocation of an object of `size` bytes does: `f` is the first free frame.
pub record Allocated (h : Heap) (size f : ℕ) (r : ℕ × Heap) : Type 0 where
  pub page : ℕ
  pub others : List ℕ
  pub state : Heap
  pub o : ℕ
  pub result : r ≡ (o, state)
  pub inside : InPage page size o
  pub apart : All (Apart size o) others
  pub slab : IsSlab state page size others
  pub was_free : (page ≡ f) ⊎ IsSlab h page size (o ∷ others)

-- And the other slabs.
record Taken (h : Heap) (size f : ℕ) (r : ℕ × Heap) : Type 0 where
  allocated : Allocated h size f r
  keeps :
      (q size' : ℕ) (xs : List ℕ)
      → 0 < size'
      → q ≢ f
      → IsSlab h q size' xs
      → (q ≡ allocated.page) ⊎ IsSlab allocated.state q size' xs

module _ (h : Heap) (size f : ℕ) where
  -- The first object of a slab, in a state that keeps the other slabs.
  taken :
      (h2 : Heap) (page o : ℕ) (os : List ℕ)
      → IsSlab h2 page size (o ∷ os)
      → ((page ≡ f) ⊎ IsSlab h page size (o ∷ os))
      → ((q size' : ℕ) (xs : List ℕ)
          → 0 < size'
          → q ≢ f
          → IsSlab h q size' xs
          → IsSlab h2 q size' xs)
      → Taken h size f (pop_object page h2)
  taken h2 page o os s before keeps =
      let (h3, popped, left, rest) = pop_object-IsSlab h2 page size o os s in
      record {
        allocated = record {
          page = page;
          others = os;
          state = h3;
          o = o;
          result = popped;
          inside = s.linked.1.0;
          apart = s.linked.1.1.0;
          slab = left;
          was_free = before;
        };
        keeps = λ q size' xs pos ne other. elim (Bool-cases (q == page)) [
          | inl same ↦ inl (ground arith)
          | inr out ↦ inr (rest q size' xs pos (ground arith) (keeps q size' xs pos ne other))
        ];
      }

  -- A slab that is new has an object.
  fresh-Taken :
      (h2 : Heap) (os : List ℕ)
      → 0 < length os
      → IsSlab h2 f size os
      → ((q size' : ℕ) (xs : List ℕ)
          → 0 < size'
          → q ≢ f
          → IsSlab h q size' xs
          → IsSlab h2 q size' xs)
      → Taken h size f (pop_object f h2)
  fresh-Taken h2 [] some_object s keeps = absurd (omega arith)
  fresh-Taken h2 (o ∷ os) some_object s keeps = taken h2 f o os s (inl refl) keeps

alloc_old :
    (slab i : ℕ) (c : KmemCache) (h : Heap) → slab ≢ 0 → alloc_object slab i c h ≡ pop_object slab h
unfolding alloc_object
alloc_old slab i c h ne =
    let fresh = pmm_alloc_frame h.pmm in
    ap
      (λ (b : Bool).
        if b then slab_from fresh.0 i c (record h { pmm = fresh.1 }) else pop_object slab h)
      (≢→==_false slab 0 ne)

slab_from_lem :
    (f i : ℕ) (c : KmemCache) (h : Heap)
    → f ≢ 0
    → slab_from f i c h ≡ pop_object f (new_slab f i c h)
unfolding slab_from
slab_from_lem f i c h ne =
    ap (λ (b : Bool). if b then (0, h) else pop_object f (new_slab f i c h)) (≢→==_false f 0 ne)

alloc_new :
    (i : ℕ) (c : KmemCache) (h : Heap) (f : ℕ) (fs : List ℕ)
    → IsFree h.pmm (f ∷ fs)
    → alloc_object 0 i c h ≡ pop_object f (new_slab f i c (record h { pmm = take_frame f h.pmm }))
unfolding alloc_object
alloc_new i c h f fs free =
    ap (λ (r : ℕ × Pmm). slab_from r.0 i c (record h { pmm = r.1 })) (alloc_first f h.pmm fs free)
    ∙ slab_from_lem f i c (record h { pmm = take_frame f h.pmm }) free.frames.1.0

kmalloc_step :
    (active_pml4 fuel size : ℕ) (h : Heap) (i : ℕ) (c : KmemCache)
    → 0 < size
    → size ≤ 2048
    → find_cache size h.caches 0 ≡ some (i, c)
    → kmalloc active_pml4 fuel size h ≡ alloc_object (find_slab fuel h.headers c.slabs) i c h
unfolding kmalloc kmalloc_small in_cache
kmalloc_step active_pml4 fuel size h i c positive small found =
    let nonzero : (size == 0) ≡ false = ground arith in
    let fits : leb size 2048 ≡ true = ground arith in
    rw (nonzero, kmalloc) (rw fits (ap (λ r. in_cache fuel r h) found))

-- An object is in a slab of objects of up to 2048 bytes.
has_object :
    (page size count : ℕ) (os : List ℕ)
    → size ≤ 2048
    → count ≡ length os
    → 4096 < object_start + count * size + size
    → 0 < length os
has_object page size count [] small counted full =
    absurd (omega (arith, ap (λ n. n * size) counted))
has_object page size count (o ∷ os) small counted full = omega arith

kmalloc-Taken :
    (active_pml4 fuel size : ℕ) (h : Heap) (i : ℕ) (c : KmemCache) (ss : List (ℕ × List ℕ)) (f : ℕ)
    (fs : List ℕ)
    → 0 < size
    → size ≤ 2048
    → find_cache size h.caches 0 ≡ some (i, c)
    → 16 ≤ c.object_size
    → c.object_size ≤ 2048
    → SlabList h c.object_size c.slabs ss
    → length ss < fuel
    → IsFree h.pmm (f ∷ fs)
    → Taken h c.object_size f (kmalloc active_pml4 fuel size h)
kmalloc-Taken active_pml4 fuel size h i c ss f fs positive small found low high slabs enough free =
    subst (Taken h c.object_size f)
      (sym (kmalloc_step active_pml4 fuel size h i c positive small found))
      (elim (find_slab_lem fuel c.object_size c.slabs h ss slabs enough) [
        | inr (page, o, os, at, good) ↦
            subst (Taken h c.object_size f)
              (sym (ap (λ a. alloc_object a i c h) at ∙ alloc_old page i c h good.real))
              (taken h c.object_size f h page o os good (inr good)
                (λ q size' xs pos ne other. other))
        | inl none_free ↦
            let h1 = record h { pmm = take_frame f h.pmm } in
            let a = free.frames.1.1.0 in
            let z = free.frames.1.0 in
            let fresh = carved f i c h1 a z low in
            subst (Taken h c.object_size f)
              (sym (ap (λ a. alloc_object a i c h) none_free ∙ alloc_new i c h f fs free))
              (fresh-Taken h c.object_size f (new_slab f i c h1) fresh.objects
                (has_object f c.object_size _ fresh.objects high fresh.counted fresh.full)
                (new_slab-IsSlab f i c h1 a z low)
                (λ q size' xs pos ne other.
                  new_slab-kept f i c h1 a z low q size' xs pos ne
                    (take_frame-kept f q size' xs h a pos ne other)))
      ])

-- Where a positive size up to 2048 has a cache whose objects have 16 to 2048 bytes and whose slabs,
-- fewer than the fuel, are well formed, and a frame is free, `kmalloc` returns an object of at least
-- that size. It lies in its page behind the header, does not overlap an object that is free in its
-- slab after the call, and was free before or is in the first free frame. Its slab is well formed
-- without it. Whatever other slabs there are, outside of the first free frame and of objects of positive
-- sizes, stay as they are, but for the one whose page the object is from.
pub kmalloc-IsSlab :
    (active_pml4 fuel size : ℕ) (h : Heap) (i : ℕ) (c : KmemCache) (ss : List (ℕ × List ℕ)) (f : ℕ)
    (fs : List ℕ) (qs : List (ℕ × ℕ × List ℕ))
    → 0 < size
    → size ≤ 2048
    → find_cache size h.caches 0 ≡ some (i, c)
    → 16 ≤ c.object_size
    → c.object_size ≤ 2048
    → SlabList h c.object_size c.slabs ss
    → length ss < fuel
    → IsFree h.pmm (f ∷ fs)
    → Others h f qs
    → (size ≤ c.object_size)
      × Allocated h c.object_size f (kmalloc active_pml4 fuel size h)
      × All
          (λ q.
            InPage q.0 c.object_size (kmalloc active_pml4 fuel size h).0
            ⊎ IsSlab (kmalloc active_pml4 fuel size h).1 q.0 q.1 q.2)
          qs
kmalloc-IsSlab active_pml4 fuel size h i c ss f fs qs positive small found low high slabs enough
      free others =
    let t =
      kmalloc-Taken active_pml4 fuel size h i c ss f fs positive small found low high slabs enough
        free in
    (find_cache_lem size h.caches 0 i c found, t.allocated, each t qs others)
  where
    each :
        Taken h c.object_size f (kmalloc active_pml4 fuel size h)
        → (qs : List (ℕ × ℕ × List ℕ)) → Others h f qs
        → All
            (λ q.
              InPage q.0 c.object_size (kmalloc active_pml4 fuel size h).0
              ⊎ IsSlab (kmalloc active_pml4 fuel size h).1 q.0 q.1 q.2)
            qs
    each t [] g = tt
    each t (q ∷ qs) g =
        let a = t.allocated in
        (
          subst (λ (r : ℕ × Heap). InPage q.0 c.object_size r.0 ⊎ IsSlab r.1 q.0 q.1 q.2)
              (sym a.result)
              (elim (t.keeps q.0 q.1 q.2 g.0.1 g.0.0 g.0.2) [
                | inl same ↦ inl (subst (λ p. InPage p c.object_size a.o) (sym same) a.inside)
                | inr good ↦ inr good
              ]),
          each t qs g.1,
        )
