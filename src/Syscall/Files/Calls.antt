-- ===== src/Syscall/Files/Calls.antt =====
-- sys_open, sys_close and sys_fork of kernel/syscall.cpp on the descriptors of a thread.
use amazing_os.Base.{
  ℕ, suc, ◌<◌, ◌≡◌, ◌≢◌, refl, sym, ap, ◌∙◌, subst, true, Option, none, some, List, [], ◌∷◌, ltb,
  length, get_or, set, min, pos, to_int, to_int-small, lt→ltb, get_or-set_self, get_or-set_ne,
  set-get_or, set-set, arith, Bool-cases, Option-cases, inl, inr, length-set,
}
use amazing_os.Pmm.{Pmm}
use amazing_os.Fs.CString.{CString}
use amazing_os.Fs.Node.{NodeRef, File}
use amazing_os.Fs.Vfs.{World, Exfat, open_path}
use amazing_os.Syscall.{syscall_validate_buffer}
use amazing_os.Syscall.Files.{
  Descriptors, error, ebadf, closed_file, install, file_of, close_descriptor, sys_close, sys_open,
  fork_descriptors, descriptor, open_result,
}
use amazing_os.Syscall.Files.Table.{
  InStep, IsDescriptors, InStep-set, slot_get, install-cases, fork_slots-InStep, length-fork_table,
  fork_get,
}

install-IsDescriptors :
    (node : NodeRef) (flags : ℕ) (d : Descriptors)
    → IsDescriptors d
    → IsDescriptors (install node flags d).1
install-IsDescriptors node flags d v = elim (install-cases node flags d v) [
  | inl e ↦ subst (λ (r : ℕ × Descriptors). IsDescriptors r.1) (sym e) v
  | inr (fd, lt, free, e) ↦
      subst (λ (r : ℕ × Descriptors). IsDescriptors r.1) (sym e)
        (record {
          in_step = InStep-set 0 fd d.fd_table d.fd_pool (some fd) _ v.in_step (omega arith, refl);
          size = length-set d.fd_table fd (some fd) ∙ v.size;
        })
]

-- Whatever sys_open does, with whatever path, the descriptors stay in step with their slots.
pub sys_open-IsDescriptors :
    {E : Type 0} (ex : Exfat E) (pml4 rdi : ℕ) (path : CString) (flags : ℕ) (s : Pmm) (w : World E)
    (d : Descriptors)
    → IsDescriptors d
    → IsDescriptors (sys_open ex pml4 rdi path flags s w d).1
unfolding sys_open open_result
sys_open-IsDescriptors ex pml4 rdi path flags s w d v =
    elim (Bool-cases (syscall_validate_buffer pml4 rdi (min 256 (length path)) s)) [
      | inr f ↦ rw f v
      | inl t ↦ rw t (found (open_path ex (some path) w).0)
    ]
  where
    found : (o : Option NodeRef) → IsDescriptors (open_result o flags d).1
    found none = v
    found (some node) = install-IsDescriptors node flags d v

-- sys_close, of any descriptor, keeps the descriptors in step with their slots.
pub sys_close-IsDescriptors :
    (rdi : ℕ) (d : Descriptors) → IsDescriptors d → IsDescriptors (sys_close rdi d).1
unfolding sys_close close_descriptor
sys_close-IsDescriptors rdi d v = range (descriptor (to_int rdi))
  where
    range :
        (o : Option ℕ)
        → IsDescriptors (
            (elim o as (λ _. ℕ × Descriptors) [
              | none ↦ (error ebadf, d)
              | some fd ↦ close_descriptor fd d
            ]).1)
    range none = v
    range (some fd) = elim (Option-cases (get_or d.fd_table fd none)) [
      | inl e ↦ rw (close_descriptor, e) v
      | inr (slot, e) ↦
          let h = slot_get fd slot d.fd_table d.fd_pool v.in_step e in
          let at : slot ≡ fd = h.0 in
          rw (close_descriptor, e, h.1)
            (record {
              in_step =
                  subst (λ k. InStep 0 (set d.fd_table fd none) (set d.fd_pool k closed_file))
                    (sym at) (InStep-set 0 fd d.fd_table d.fd_pool none closed_file v.in_step refl);
              size = length-set d.fd_table fd none ∙ v.size;
            })
    ]

-- The child that sys_fork makes has the parent's files at its descriptors, in slots of its own, and
-- its descriptors are in step with them.
pub fork_descriptors-file_of :
    (d : Descriptors) (fd : ℕ)
    → IsDescriptors d
    → (file_of (fork_descriptors d) fd ≡ file_of d fd) × IsDescriptors (fork_descriptors d)
unfolding file_of fork_descriptors
fork_descriptors-file_of d fd v = (
  elim (fork_get fd d.fd_table d.fd_pool v.in_step) [
    | inl (e, k) ↦ rw (file_of, e, k) refl
    | inr (e, k, f) ↦ rw (file_of, e, k, fork_descriptors, f) refl
  ],
  record {
    in_step = fork_slots-InStep 0 d.fd_table d.fd_pool v.in_step;
    size = length-fork_table d.fd_table 0 ∙ v.size;
  },
)

length-InStep :
    (i : ℕ) (table : List (Option ℕ)) (pool : List File)
    → InStep i table pool
    → length pool ≡ length table
length-InStep i [] [] h = refl
length-InStep i [] (f ∷ pool) h = elim h [ ]
length-InStep i (t ∷ table) [] h = elim h [ ]
length-InStep i (t ∷ table) (f ∷ pool) h = ap suc (length-InStep (suc i) table pool h.1)

-- What sys_open has opened where it returns a descriptor.
record Opened {E : Type 0} (ex : Exfat E) (path : CString) (flags : ℕ) (w : World E)
    (d : Descriptors) (fd : ℕ) (d' : Descriptors) (w' : World E) : Type 0 where
  node : NodeRef
  lookup : open_path ex (some path) w ≡ (some node, w')
  free : get_or d.fd_table fd none ≡ none
  slots :
      d'.fd_pool
      ≡ set d.fd_pool fd (record { node = some node; offset = 0; flags = flags; ref_count = 1 })
  table : d'.fd_table ≡ set d.fd_table fd (some fd)

sys_open-Opened :
    {E : Type 0} (ex : Exfat E) (pml4 rdi : ℕ) (path : CString) (flags : ℕ) (s : Pmm) (w : World E)
    (d : Descriptors) (fd : ℕ) (d' : Descriptors) (w' : World E)
    → IsDescriptors d
    → fd < 16
    → sys_open ex pml4 rdi path flags s w d ≡ (fd, d', w')
    → Opened ex path flags w d fd d' w'
unfolding sys_open open_result
sys_open-Opened {E} ex pml4 rdi path flags s w d fd d' w' v lt e =
    elim (Bool-cases (syscall_validate_buffer pml4 rdi (min 256 (length path)) s)) [
      | inr f ↦ absurd (omega (arith, ap (λ (r : ℕ × Descriptors × World E). r.0) (rw f at e)))
      | inl t ↦
          let k = rw t at e in
          found (open_path ex (some path) w).0 refl (ap (λ (r : ℕ × Descriptors × World E). r.0) k)
            (ap (λ (r : ℕ × Descriptors × World E). r.1) k)
            (ap (λ (r : ℕ × Descriptors × World E). r.2) k)
    ]
  where
    after : World E
    after = (open_path ex (some path) w).1

    found :
        (o : Option NodeRef)
        → (open_path ex (some path) w).0 ≡ o
        → (open_result o flags d).0 ≡ fd
        → (open_result o flags d).1 ≡ d'
        → after ≡ w'
        → Opened ex path flags w d fd d' w'
    found none l k m n = absurd (omega arith)
    found (some node) l k m n = elim (install-cases node flags d v) [
      | inl e ↦ absurd (omega (arith, k, ap (λ (r : ℕ × Descriptors). r.0) e))
      | inr (slot, small, free, e) ↦
          let at : slot ≡ fd = sym (ap (λ (r : ℕ × Descriptors). r.0) e) ∙ k in
          let same = sym m ∙ ap (λ (r : ℕ × Descriptors). r.1) e in
          record {
            node = node;
            lookup =
                ap (λ (x : Option NodeRef). (x, after)) l ∙ ap (λ (x : World E). (some node, x)) n;
            free = subst (λ j. get_or d.fd_table j none ≡ none) at free;
            slots =
                ap (λ (x : Descriptors). x.fd_pool) same
                ∙ ap
                    (λ j.
                      set d.fd_pool j
                        (record { node = some node; offset = 0; flags = flags; ref_count = 1 }))
                    at;
            table =
                ap (λ (x : Descriptors). x.fd_table) same ∙ ap (λ j. set d.fd_table j (some j)) at;
          }
    ]

-- The descriptors once a free one got the slot of its index.
abbrev opened : Descriptors → ℕ → File → Descriptors
opened d fd f = record { fd_pool = set d.fd_pool fd f; fd_table = set d.fd_table fd (some fd) }

module _ (d : Descriptors) (fd : ℕ) (f : File) (v : IsDescriptors d) (lt : fd < 16) where
  at_self : get_or (opened d fd f).fd_table fd none ≡ some fd
  at_self = let size = v.size in get_or-set_self d.fd_table fd (some fd) none (omega arith)

  slot_self : get_or (opened d fd f).fd_pool fd closed_file ≡ f
  slot_self =
      let size = v.size in
      let same = length-InStep 0 d.fd_table d.fd_pool v.in_step in
      get_or-set_self d.fd_pool fd f closed_file (omega arith)

  file_of-opened : file_of (opened d fd f) fd ≡ some f
  unfolding file_of
  file_of-opened = rw (file_of, at_self, slot_self) refl

  file_of-opened_other : (other : ℕ) → other ≢ fd → file_of (opened d fd f) other ≡ file_of d other
  unfolding file_of
  file_of-opened_other other ne =
      let same : get_or (set d.fd_table fd (some fd)) other none ≡ get_or d.fd_table other none =
        get_or-set_ne d.fd_table fd other (some fd) none (λ e. ne (sym e)) in
      elim (Option-cases (get_or d.fd_table other none)) [
        | inl e ↦ rw (file_of, same, e) refl
        | inr (slot, e) ↦
            let at : slot ≡ other = (slot_get other slot d.fd_table d.fd_pool v.in_step e).0 in
            rw (file_of, same, e)
              (ap some (get_or-set_ne d.fd_pool fd slot f closed_file (λ k. ne (sym (k ∙ at)))))
      ]

  close-opened :
      f.ref_count ≡ 1
      → get_or d.fd_table fd none ≡ none
      → (sys_close fd (opened d fd f)).0 ≡ 0
        × ((sys_close fd (opened d fd f)).1.fd_table ≡ d.fd_table)
  unfolding sys_close close_descriptor
  close-opened one free =
      let small : to_int fd ≡ pos fd = to_int-small fd (omega arith) in
      let range : ltb fd 16 ≡ true = lt→ltb fd 16 lt in
      rw (sys_close, descriptor, small, range, close_descriptor, at_self, slot_self, one)
        (
          refl,
          set-set d.fd_table fd (some fd) none
              ∙ ap (λ t. set d.fd_table fd t) (sym free)
              ∙ set-get_or d.fd_table fd none,
        )

-- Where the descriptors are in step with their slots and sys_open returns a descriptor, the path was
-- found, and the descriptor, which was free, points to a file at offset 0 of the node that was found;
-- any other descriptor points to the file that it pointed to before. Closing it succeeds, and leaves
-- the table of descriptors as it was before the file was opened.
pub sys_close-sys_open :
    {E : Type 0} (ex : Exfat E) (pml4 rdi : ℕ) (path : CString) (flags : ℕ) (s : Pmm) (w : World E)
    (d : Descriptors) (fd other : ℕ) (d' : Descriptors) (w' : World E)
    → IsDescriptors d
    → fd < 16
    → other ≢ fd
    → sys_open ex pml4 rdi path flags s w d ≡ (fd, d', w')
    → (file_of d fd ≡ none)
      × ((node : NodeRef) × (open_path ex (some path) w ≡ (some node, w'))
          × (file_of d' fd
              ≡ some (record { node = some node; offset = 0; flags = flags; ref_count = 1 })))
      × (file_of d' other ≡ file_of d other)
      × ((sys_close fd d').0 ≡ 0)
      × ((sys_close fd d').1.fd_table ≡ d.fd_table)
unfolding file_of
sys_close-sys_open ex pml4 rdi path flags s w d fd other d' w' v lt ne e =
    let o = sys_open-Opened ex pml4 rdi path flags s w d fd d' w' v lt e in
    let file : File = record { node = some o.node; offset = 0; flags = flags; ref_count = 1 } in
    let same : opened d fd file ≡ d' =
      ap (λ pool. record { fd_pool = pool; fd_table = set d.fd_table fd (some fd) }) (sym o.slots)
      ∙ ap (λ table. record { fd_pool = d'.fd_pool; fd_table = table }) (sym o.table) in
    let closed = close-opened d fd file v lt refl o.free in
    (
      rw (file_of, o.free) refl,
      (
        o.node,
        o.lookup,
        ap (λ (x : Descriptors). file_of x fd) (sym same) ∙ file_of-opened d fd file v lt,
      ),
      ap (λ (x : Descriptors). file_of x other) (sym same)
          ∙ file_of-opened_other d fd file v lt other ne,
      ap (λ (x : Descriptors). (sys_close fd x).0) (sym same) ∙ closed.0,
      ap (λ (x : Descriptors). (sys_close fd x).1.fd_table) (sym same) ∙ closed.1,
    )
