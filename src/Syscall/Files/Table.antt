-- ===== src/Syscall/Files/Table.antt =====
-- The descriptor table of kernel/syscall.cpp stays in step with its pool.
use amazing_os.Base.{
  ℕ, zero, suc, ◌+◌, ◌<◌, ◌≡◌, refl, sym, ap, ◌∙◌, subst, Option, none, some, List, [], ◌∷◌, length,
  get_or, set, arith, Option-cases, ◌⊎◌, inl, inr,
}
use amazing_os.Fs.Node.{NodeRef, File}
use amazing_os.Syscall.Files.{
  Descriptors, error, emfile, closed_file, free_descriptor, free_slot, install, fork_slots,
  fork_table,
}

-- A descriptor is null and its slot unused, or it points to the slot of its own index, which has one
-- reference.
abbrev pub Slot : ℕ → Option ℕ → File → Type 0
Slot i none f = f.ref_count ≡ 0
Slot i (some p) f = (p ≡ i) × (f.ref_count ≡ 1)

abbrev pub InStep : ℕ → List (Option ℕ) → List File → Type 0
InStep i [] [] = Unit
InStep i [] (f ∷ pool) = ⊥
InStep i (t ∷ table) [] = ⊥
InStep i (t ∷ table) (f ∷ pool) = Slot i t f × InStep (suc i) table pool

pub record IsDescriptors (d : Descriptors) : Type 0 where
  pub in_step : InStep 0 d.fd_table d.fd_pool
  pub size : length d.fd_table ≡ 16

-- The first null descriptor is the first unused slot.
free_slot-free_descriptor :
    (i : ℕ) (table : List (Option ℕ)) (pool : List File)
    → InStep i table pool
    → free_slot pool i ≡ free_descriptor table i
unfolding free_slot free_descriptor
free_slot-free_descriptor i [] [] h = refl
free_slot-free_descriptor i [] (f ∷ pool) h = elim h [ ]
free_slot-free_descriptor i (t ∷ table) [] h = elim h [ ]
free_slot-free_descriptor i (none ∷ table) (f ∷ pool) h = rw h.0 refl
free_slot-free_descriptor i (some p ∷ table) (f ∷ pool) h =
    rw h.0.1 (free_slot-free_descriptor (suc i) table pool h.1)

-- A free descriptor is in range, and null.
Free : ℕ → List (Option ℕ) → ℕ → Type 0
Free i table fd = (k : ℕ) × (fd ≡ i + k) × (k < length table) × (get_or table k none ≡ none)

free_descriptor-Free :
    (i fd : ℕ) (table : List (Option ℕ)) → free_descriptor table i ≡ some fd → Free i table fd
unfolding free_descriptor Free
free_descriptor-Free i fd [] h = ground arith
free_descriptor-Free i fd (none ∷ table) h = (0, ground arith, omega arith, refl)
free_descriptor-Free i fd (some p ∷ table) h =
    let (k, e, lt, free) = free_descriptor-Free (suc i) fd table h in
    (suc k, omega arith, omega arith, free)

pub InStep-set :
    (i k : ℕ) (table : List (Option ℕ)) (pool : List File) (t : Option ℕ) (f : File)
    → InStep i table pool
    → Slot (i + k) t f
    → InStep i (set table k t) (set pool k f)
InStep-set i k [] [] t f h s = tt
InStep-set i k [] (g ∷ pool) t f h s = elim h [ ]
InStep-set i k (u ∷ table) [] t f h s = elim h [ ]
InStep-set i zero (u ∷ table) (g ∷ pool) t f h s = (subst (λ j. Slot j t f) (omega arith) s, h.1)
InStep-set i (suc k) (u ∷ table) (g ∷ pool) t f h s =
    (h.0, InStep-set (suc i) k table pool t f h.1 (subst (λ j. Slot j t f) (omega arith) s))

-- What a descriptor that is not null points to.
InStep-get :
    (i k p : ℕ) (table : List (Option ℕ)) (pool : List File)
    → InStep i table pool
    → get_or table k none ≡ some p
    → (p ≡ i + k) × ((get_or pool k closed_file).ref_count ≡ 1)
InStep-get i k p [] [] h e = ground arith
InStep-get i k p [] (g ∷ pool) h e = elim h [ ]
InStep-get i k p (u ∷ table) [] h e = elim h [ ]
InStep-get i zero p (none ∷ table) (g ∷ pool) h e = ground arith
InStep-get i zero p (some q ∷ table) (g ∷ pool) h e = (ground arith, h.0.1)
InStep-get i (suc k) p (u ∷ table) (g ∷ pool) h e =
    let r = InStep-get (suc i) k p table pool h.1 e in (omega (arith, r.0), r.1)

-- What `install` does: there is no free descriptor, or the first one gets the slot of its index.
pub install-cases :
    (node : NodeRef) (flags : ℕ) (d : Descriptors)
    → IsDescriptors d
    → (install node flags d ≡ (error emfile, d))
      ⊎ ((fd : ℕ) × (fd < 16)
          × (get_or d.fd_table fd none ≡ none)
          × (install node flags d ≡ (
            fd,
            record {
              fd_pool =
                  set d.fd_pool fd
                    (record { node = some node; offset = 0; flags = flags; ref_count = 1 });
              fd_table = set d.fd_table fd (some fd);
            },
          )))
unfolding install Free
install-cases node flags d v = elim (Option-cases (free_descriptor d.fd_table 0)) [
  | inl e ↦ inl (rw (install, e) refl)
  | inr (fd, e) ↦
      let slot : free_slot d.fd_pool 0 ≡ some fd =
        free_slot-free_descriptor 0 d.fd_table d.fd_pool v.in_step ∙ e in
      let (k, same, lt, free) = free_descriptor-Free 0 fd d.fd_table e in
      let at : k ≡ fd = omega arith in
      let size = v.size in
      inr (
        fd,
        omega arith,
        subst (λ j. get_or d.fd_table j none ≡ none) at free,
        rw (install, e, slot) refl,
      )
]

-- The copies of the slots for a child.
pub fork_slots-InStep :
    (i : ℕ) (table : List (Option ℕ)) (pool : List File)
    → InStep i table pool
    → InStep i (fork_table table i) (fork_slots table pool)
fork_slots-InStep i [] [] h = tt
fork_slots-InStep i [] (f ∷ pool) h = elim h [ ]
fork_slots-InStep i (t ∷ table) [] h = elim h [ ]
fork_slots-InStep i (none ∷ table) (f ∷ pool) h = (refl, fork_slots-InStep (suc i) table pool h.1)
fork_slots-InStep i (some p ∷ table) (f ∷ pool) h =
    ((refl, refl), fork_slots-InStep (suc i) table pool h.1)

pub length-fork_table :
    (table : List (Option ℕ)) (i : ℕ) → length (fork_table table i) ≡ length table
length-fork_table [] i = refl
length-fork_table (none ∷ table) i = ap suc (length-fork_table table (suc i))
length-fork_table (some p ∷ table) i = ap suc (length-fork_table table (suc i))

-- A descriptor of the child is null, or points to its slot, just as the parent's.
fork_table-get :
    (i k : ℕ) (table : List (Option ℕ)) (pool : List File)
    → InStep i table pool
    → ((get_or table k none ≡ none) × (get_or (fork_table table i) k none ≡ none))
      ⊎ ((get_or table k none ≡ some (i + k))
          × (get_or (fork_table table i) k none ≡ some (i + k))
          × (get_or (fork_slots table pool) k closed_file ≡ get_or pool k closed_file))
fork_table-get i k [] [] h = inl (refl, refl)
fork_table-get i k [] (f ∷ pool) h = elim h [ ]
fork_table-get i k (t ∷ table) [] h = elim h [ ]
fork_table-get i zero (none ∷ table) (f ∷ pool) h = inl (refl, refl)
fork_table-get i zero (some p ∷ table) (f ∷ pool) h =
    inr (ap some (omega (arith, h.0.0)), ap some (omega arith), same f h.0.1)
  where
    same : (f : File) → f.ref_count ≡ 1 → record f { ref_count = 1 } ≡ f
    same f e = ap (λ n. record f { ref_count = n }) (sym e)
fork_table-get i (suc k) (none ∷ table) (f ∷ pool) h =
    subst
      (λ (n : ℕ).
        ((get_or table k none ≡ none) × (get_or (fork_table table (suc i)) k none ≡ none))
        ⊎ ((get_or table k none ≡ some n)
            × (get_or (fork_table table (suc i)) k none ≡ some n)
            × (get_or (fork_slots table pool) k closed_file ≡ get_or pool k closed_file)))
      (omega arith) (fork_table-get (suc i) k table pool h.1)
fork_table-get i (suc k) (some p ∷ table) (f ∷ pool) h =
    subst
      (λ (n : ℕ).
        ((get_or table k none ≡ none) × (get_or (fork_table table (suc i)) k none ≡ none))
        ⊎ ((get_or table k none ≡ some n)
            × (get_or (fork_table table (suc i)) k none ≡ some n)
            × (get_or (fork_slots table pool) k closed_file ≡ get_or pool k closed_file)))
      (omega arith) (fork_table-get (suc i) k table pool h.1)

-- The same at the start of the lists.
pub slot_get :
    (k p : ℕ) (table : List (Option ℕ)) (pool : List File)
    → InStep 0 table pool
    → get_or table k none ≡ some p
    → (p ≡ k) × ((get_or pool p closed_file).ref_count ≡ 1)
slot_get k p table pool h e =
    let r = InStep-get 0 k p table pool h e in
    let at : p ≡ k = omega (arith, r.0) in
    (at, subst (λ j. (get_or pool j closed_file).ref_count ≡ 1) (sym at) r.1)

pub fork_get :
    (k : ℕ) (table : List (Option ℕ)) (pool : List File)
    → InStep 0 table pool
    → ((get_or table k none ≡ none) × (get_or (fork_table table 0) k none ≡ none))
      ⊎ ((get_or table k none ≡ some k)
          × (get_or (fork_table table 0) k none ≡ some k)
          × (get_or (fork_slots table pool) k closed_file ≡ get_or pool k closed_file))
fork_get k table pool h =
    subst
      (λ (n : ℕ).
        ((get_or table k none ≡ none) × (get_or (fork_table table 0) k none ≡ none))
        ⊎ ((get_or table k none ≡ some n)
            × (get_or (fork_table table 0) k none ≡ some n)
            × (get_or (fork_slots table pool) k closed_file ≡ get_or pool k closed_file)))
      (omega arith) (fork_table-get 0 k table pool h)
