-- ===== src/Heap/Slabs.antt =====
-- Slabs that are well formed: what allocation and release do to one, and to the others.
use amazing_os.Base.{
  ℕ, ◌+◌, ◌-◌, ◌*◌, ◌/◌, ◌%◌, ◌^◌, ◌≤◌, ◌<◌, ◌≡◌, ◌≢◌, refl, ◌∙◌, ap, sym, subst, true, false, List,
  [], ◌∷◌, arith, length, ◌==◌, if◌then◌else◌, All, ≢→==_false,
}
use amazing_os.Heap.{
  PageHeader, KmemCache, Heap, slab_magic, object_start, set_header, set_words, carve, new_slab,
  pop_object, push_object, kfree,
}
use amazing_os.Heap.Carving.{InPage, Apart, Objects, Objects-same, unwritten, Carved, carve-Carved}

-- A slab of objects of a size, of which `os` are free.
pub record IsSlab (h : Heap) (page size : ℕ) (os : List ℕ) : Type 0 where
  pub valid : (h.headers page).magic ≡ slab_magic
  pub linked : Objects h.pmm.words page size (h.headers page).free_list_head os
  pub counted : (h.headers page).free_count ≡ length os
  pub aligned : page % 4096 ≡ 0
  pub real : page ≢ 0

-- The slabs that the headers lead through from `p` on.
abbrev pub SlabList : (h : Heap) → (size p : ℕ) → List (ℕ × List ℕ) → Type 0
SlabList h size p [] = p ≡ 0
SlabList h size p ((page, os) ∷ ss) =
    (p ≡ page) × (IsSlab h page size os × SlabList h size (h.headers page).next ss)

-- Words that are the same in a page.
Objects-page :
    (w v : ℕ → ℕ) (page size p : ℕ) (os : List ℕ)
    → 0 < size
    → ((a : ℕ) → page ≤ a → a < page + 4096 → w a ≡ v a)
    → Objects w page size p os
    → Objects v page size p os
Objects-page w v page size p [] pos same c = c
Objects-page w v page size p (o ∷ os) pos same c =
    let here = same o (omega (arith, c.1.0.0)) (omega (arith, c.1.0.1)) in
    (c.0, (c.1.0, (c.1.1.0, Objects-page w v page size (v o) os pos same (rw here at c.1.1.1))))

Apart-ne : (size o : ℕ) (os : List ℕ) → 0 < size → All (Apart size o) os → All (λ x. x ≢ o) os
Apart-ne size o [] pos h = tt
Apart-ne size o (x ∷ os) pos h = ((λ e. absurd (omega (arith, h.0))), Apart-ne size o os pos h.1)

header_same : (page : ℕ) (p : PageHeader) (h : Heap) → (set_header page p h).headers page ≡ p
header_same page p h = let same : (page == page) ≡ true = ground arith in rw same refl

header_other :
    (page q : ℕ) (p : PageHeader) (h : Heap)
    → q ≢ page
    → (set_header page p h).headers q ≡ h.headers q
header_other page q p h ne = rw (≢→==_false q page ne) refl

-- A slab whose header and page are as they were.
pub IsSlab-kept :
    (h h' : Heap) (page size : ℕ) (os : List ℕ)
    → 0 < size
    → h'.headers page ≡ h.headers page
    → ((a : ℕ) → page ≤ a → a < page + 4096 → h.pmm.words a ≡ h'.pmm.words a)
    → IsSlab h page size os
    → IsSlab h' page size os
IsSlab-kept h h' page size os pos header words q = record {
  valid = ap (λ (p : PageHeader). p.magic) header ∙ q.valid;
  linked =
      subst (λ (p : PageHeader). Objects h'.pmm.words page size p.free_list_head os) (sym header)
        (Objects-page h.pmm.words h'.pmm.words page size _ os pos words q.linked);
  counted = ap (λ (p : PageHeader). p.free_count) header ∙ q.counted;
  aligned = q.aligned;
  real = q.real;
}

-- The first free object is taken; every other slab stays as it is.
pub pop_object-IsSlab :
    (h : Heap) (page size o : ℕ) (os : List ℕ)
    → IsSlab h page size (o ∷ os)
    → (h' : Heap) × (pop_object page h ≡ (o, h'))
      × IsSlab h' page size os
      × ((q size' : ℕ) (xs : List ℕ)
          → 0 < size'
          → q ≢ page
          → IsSlab h q size' xs
          → IsSlab h' q size' xs)
unfolding pop_object
pop_object-IsSlab h page size o os q =
    let p = h.headers page in
    let p' = record p {
      free_list_head = h.pmm.words p.free_list_head;
      free_count = p.free_count - 1;
    } in
    let h' = set_header page p' h in
    let head : p.free_list_head ≡ o = q.linked.0 in
    let new = header_same page p' h in
    (
      h',
      ap (λ a. (a, h')) head,
      record {
        valid = ap (λ (p : PageHeader). p.magic) new ∙ q.valid;
        linked =
            subst (λ a. Objects h.pmm.words page size a os)
              (sym (ap (λ (p : PageHeader). p.free_list_head) new ∙ ap h.pmm.words head))
              q.linked.1.1.1;
        counted = ap (λ (p : PageHeader). p.free_count) new ∙ omega (arith, q.counted);
        aligned = q.aligned;
        real = q.real;
      },
      (λ q' size' xs pos ne s.
          IsSlab-kept h h' q' size' xs pos (header_other page q' p' h ne) (λ a low high. refl) s),
    )

-- What `kfree` makes of the heap, for an object in a slab's page.
pushed : (page o : ℕ) → Heap → Heap
pushed page o h =
    let p = h.headers page in
    let w = λ (a : ℕ). if a == o then p.free_list_head else h.pmm.words a in
    set_header page (record p { free_list_head = o; free_count = (p.free_count + 1) % 2 ^ 32 })
      (set_words w h)

kfree-pushed :
    (active_pml4 : ℕ) (h : Heap) (page size o : ℕ) (os : List ℕ)
    → IsSlab h page size os
    → 0 < size
    → InPage page size o
    → kfree active_pml4 o h ≡ pushed page o h
unfolding kfree push_object pushed
kfree-pushed active_pml4 h page size o os s pos inside =
    let at : o / 4096 * 4096 ≡ page = omega (arith, s.aligned) in
    let there : (o == 0) ≡ false = ground arith in
    let valid : ((h.headers page).magic == slab_magic) ≡ true = rw s.valid refl in
    rw (there, kfree) (rw at (rw valid refl))

freed-IsSlab :
    (active_pml4 : ℕ) (h : Heap) (page size o : ℕ) (os : List ℕ)
    → IsSlab h page size os
    → 0 < size
    → InPage page size o
    → All (Apart size o) os
    → length os + 1 < 2 ^ 32
    → IsSlab (kfree active_pml4 o h) page size (o ∷ os)
unfolding pushed
freed-IsSlab active_pml4 h page size o os s pos inside apart few =
    let p = h.headers page in
    let w = λ (a : ℕ). if a == o then p.free_list_head else h.pmm.words a in
    let p' = record p { free_list_head = o; free_count = (p.free_count + 1) % 2 ^ 32 } in
    let new = header_same page p' (set_words w h) in
    let mine : (o == o) ≡ true = ground arith in
    subst (λ a. IsSlab a page size (o ∷ os))
      (sym (kfree-pushed active_pml4 h page size o os s pos inside))
      (record {
        valid = ap (λ (p : PageHeader). p.magic) new ∙ s.valid;
        linked = (
          ap (λ (p : PageHeader). p.free_list_head) new,
          (
            inside,
            (
              apart,
              rw mine (
                  Objects-same h.pmm.words w page size p.free_list_head os
                    (unwritten h.pmm.words o p.free_list_head os (Apart-ne size o os pos apart))
                    s.linked),
            ),
          ),
        );
        counted = ap (λ (p : PageHeader). p.free_count) new ∙ omega (arith, s.counted);
        aligned = s.aligned;
        real = s.real;
      })

freed-kept :
    (active_pml4 : ℕ) (h : Heap) (page size o : ℕ) (os : List ℕ) (q size' : ℕ) (xs : List ℕ)
    → IsSlab h page size os
    → 0 < size
    → InPage page size o
    → 0 < size'
    → q ≢ page
    → IsSlab h q size' xs
    → IsSlab (kfree active_pml4 o h) q size' xs
unfolding pushed
freed-kept active_pml4 h page size o os q size' xs s pos inside pos' ne other =
    let p = h.headers page in
    let w = λ (a : ℕ). if a == o then p.free_list_head else h.pmm.words a in
    let p' = record p { free_list_head = o; free_count = (p.free_count + 1) % 2 ^ 32 } in
    subst (λ a. IsSlab a q size' xs) (sym (kfree-pushed active_pml4 h page size o os s pos inside))
      (IsSlab-kept h (set_header page p' (set_words w h)) q size' xs pos'
        (header_other page q p' (set_words w h) ne)
        (λ a low high.
          let elsewhere : (a == o) ≡ false = ground (arith, inside, s.aligned, other.aligned) in
          rw elsewhere refl)
        other)

-- Slabs that are not in a page: each has its page, the size of its objects, and the free ones.
abbrev pub Others : (h : Heap) → (page : ℕ) → List (ℕ × ℕ × List ℕ) → Type 0
Others h page qs = All (λ q. (q.0 ≢ page) × (0 < q.1) × IsSlab h q.0 q.1 q.2) qs

-- Where an object of a positive size lies in a slab's page behind the header, does not overlap a free
-- object of the slab, and the count of free objects stays below 2^32, `kfree` makes it the first free
-- object of that slab. Whatever other slabs there are, in other pages and of objects of positive sizes, stay
-- as they are.
pub kfree-IsSlab :
    (active_pml4 : ℕ) (h : Heap) (page size o : ℕ) (os : List ℕ) (qs : List (ℕ × ℕ × List ℕ))
    → IsSlab h page size os
    → 0 < size
    → InPage page size o
    → All (Apart size o) os
    → length os + 1 < 2 ^ 32
    → Others h page qs
    → IsSlab (kfree active_pml4 o h) page size (o ∷ os)
      × All (λ q. IsSlab (kfree active_pml4 o h) q.0 q.1 q.2) qs
kfree-IsSlab active_pml4 h page size o os qs s pos inside apart few others =
    (freed-IsSlab active_pml4 h page size o os s pos inside apart few, each qs others)
  where
    each :
        (qs : List (ℕ × ℕ × List ℕ))
        → Others h page qs
        → All (λ q. IsSlab (kfree active_pml4 o h) q.0 q.1 q.2) qs
    each [] g = tt
    each (q ∷ qs) g = (
      freed-kept active_pml4 h page size o os q.0 q.1 q.2 s pos inside g.0.1 g.0.0 g.0.2,
      each qs g.1,
    )

-- A frame becomes a slab with every object free.
module _ (f i : ℕ) (c : KmemCache) (h : Heap) (aligned : f % 4096 ≡ 0) (real : f ≢ 0)
    (large : 16 ≤ c.object_size) where
  pub carved :
      Carved f c.object_size h.pmm.words (carve 256 f c.object_size object_start 0 0 h.pmm.words)
  carved = carve-Carved f c.object_size large h.pmm.words

  pub new_slab-IsSlab : IsSlab (new_slab f i c h) f c.object_size carved.objects
  unfolding new_slab
  new_slab-IsSlab =
      let same : (f == f) ≡ true = ground arith in
      record {
        valid = rw same refl;
        linked = rw same carved.linked;
        counted = rw same carved.counted;
        aligned = aligned;
        real = real;
      }

  pub new_slab-kept :
      (q size : ℕ) (xs : List ℕ)
      → 0 < size
      → q ≢ f
      → IsSlab h q size xs
      → IsSlab (new_slab f i c h) q size xs
  unfolding new_slab
  new_slab-kept q size xs pos ne s =
      IsSlab-kept h _ q size xs pos (rw (≢→==_false q f ne) refl)
        (λ a low high. sym (carved.outside a (ground (arith, s.aligned)))) s
