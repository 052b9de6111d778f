-- ===== src/Vmm/Space/Creation.antt =====
-- A new address space: well-formed tables, the pages of the kernel, and none of the user.
use amazing_os.Base.{
  ℕ, suc, ◌%◌, ◌≤◌, ◌<◌, ◌≡◌, ◌≢◌, inl, inr, ◌∙◌, ap, sym, subst, true, List, ◌∷◌, arith, ◌==◌, ltb,
  if◌then◌else◌, Bool-cases,
}
use amazing_os.Pmm.{Pmm}
use amazing_os.Vmm.{is_present, frame_of, entry, vmm_get_phys}
use amazing_os.Vmm.Tables.{IsPaged, PointsTo}
use amazing_os.Vmm.Linking.{new_entry, with_level, with_level_same, with_level_other, unused_later}
use amazing_os.Vmm.Space.{vmm_create_user_address_space}
use amazing_os.Vmm.Space.Child.{Child, create-Child}
use amazing_os.Vmm.Space.Sharing.{
  is_shared, p3, points_root, points_p3, g_ne_f, g_aligned, child_phys, child_kept,
}

module _ (active f g : ℕ) (s : Pmm) (level : ℕ → ℕ) (fs : List ℕ) (q : IsPaged s level (f ∷ g ∷ fs))
    (root : level active ≡ 4) (low : is_present (entry s active 0) ≡ true)
    (c : Child active f g s level fs) where
  with_pdpt : ℕ → ℕ
  with_pdpt = with_level g 3 level

  levels : ℕ → ℕ
  levels = with_level f 4 with_pdpt

  levels_f : levels f ≡ 4
  unfolding levels
  levels_f = with_level_same f 4 with_pdpt

  levels_g : levels g ≡ 3
  unfolding levels with_pdpt
  levels_g =
      with_level_other f 4 with_pdpt g (g_ne_f active f g s level fs q root low c)
      ∙ with_level_same g 3 level

  old_ne : (a : ℕ) → level a ≢ 0 → (a ≢ f) × (a ≢ g)
  old_ne a h = ((λ e. h (ap level e ∙ q.unused.0.0)), (λ e. h (ap level e ∙ q.unused.1.0.0)))

  levels_old : (a : ℕ) → level a ≢ 0 → levels a ≡ level a
  unfolding levels with_pdpt
  levels_old a h =
      with_level_other f 4 with_pdpt a (old_ne a h).0 ∙ with_level_other g 3 level a (old_ne a h).1

  PointsTo-levels : (e l : ℕ) → 2 ≤ l → PointsTo level e l → PointsTo levels e l
  PointsTo-levels e l high h here small =
      let down = h here small in ap suc (levels_old (frame_of e) (omega (arith, down))) ∙ down

  PointsTo-absent : (l : ℕ) → PointsTo levels 0 l
  PointsTo-absent l here = cc here

  points_f : (i : ℕ) → i < 512 → PointsTo levels (entry c.state f i) 4
  points_f i lt =
      subst (λ e. PointsTo levels e 4) (sym (c.at_root i lt))
        (elim (Bool-cases (i == 0)) [
          | inl first ↦
              let new = new_entry g (g_aligned active f g s level fs q root low c) q.unused.1.0.1 in
              rw first (λ here small. ap (λ a. suc (levels a)) new.2 ∙ ap suc levels_g)
          | inr later ↦ elim (Bool-cases (ltb i 256)) [
            | inl user ↦ rw (later, user) (PointsTo-absent 4)
            | inr kernel ↦
                rw (later, kernel)
                  (PointsTo-levels (entry s active i) 4 (omega arith)
                    (points_root active f g s level fs q root low c i lt))
          ]
        ])

  points_g : (i : ℕ) → i < 512 → PointsTo levels (entry c.state g i) 3
  points_g i lt =
      subst (λ e. PointsTo levels e 3) (sym (c.at_pdpt i lt))
        (elim (Bool-cases (ltb i 16)) [
          | inl shared ↦ rw shared (
              PointsTo-levels (entry s (p3 active f g s level fs q root low c) i) 3 (omega arith)
                (points_p3 active f g s level fs q root low c i lt))
          | inr high ↦ rw high (PointsTo-absent 3)
        ])

  points_all : (t i : ℕ) → i < 512 → 2 ≤ levels t → PointsTo levels (entry c.state t i) (levels t)
  unfolding with_pdpt levels
  points_all t i lt high = elim (Bool-cases (t == f)) [
    | inl root_new ↦
        let e : t ≡ f = ground arith in
        subst (λ a. PointsTo levels (entry c.state a i) (levels a)) (sym e)
          (subst (PointsTo levels (entry c.state f i)) (sym levels_f) (points_f i lt))
    | inr other ↦ elim (Bool-cases (t == g)) [
      | inl pdpt_new ↦
          let e : t ≡ g = ground arith in
          subst (λ a. PointsTo levels (entry c.state a i) (levels a)) (sym e)
            (subst (PointsTo levels (entry c.state g i)) (sym levels_g) (points_g i lt))
      | inr old ↦
          let same : levels t ≡ level t =
            with_level_other f 4 with_pdpt t (ground arith)
            ∙ with_level_other g 3 level t (ground arith) in
          let h : level t ≢ 0 = omega (arith, same) in
          subst (PointsTo levels (entry c.state t i)) (sym same) (
            subst (λ e. PointsTo levels e (level t)) (sym (c.old t i h lt))
              (PointsTo-levels (entry s t i) (level t) (omega (arith, same))
                (q.points t i lt (omega (arith, same)))))
    ]
  ]

  child_aligned : (t : ℕ) → levels t ≢ 0 → t % 4096 ≡ 0
  unfolding with_pdpt levels
  child_aligned t h = elim (Bool-cases (t == f)) [
    | inl root_new ↦ let e : t ≡ f = ground arith in ap (λ a. a % 4096) e ∙ q.free.frames.1.1.0
    | inr other ↦ elim (Bool-cases (t == g)) [
      | inl pdpt_new ↦
          let e : t ≡ g = ground arith in
          ap (λ a. a % 4096) e ∙ g_aligned active f g s level fs q root low c
      | inr old ↦ q.aligned t (λ z. h (
          with_level_other f 4 with_pdpt t (ground arith)
          ∙ with_level_other g 3 level t (ground arith)
          ∙ z))
    ]
  ]

  child-IsPaged : IsPaged c.state levels fs
  unfolding with_pdpt levels
  child-IsPaged = record {
    free = c.free;
    unused =
        unused_later f 4 with_pdpt fs q.free.frames.1.1.1.0.1
          (unused_later g 3 level fs q.free.frames.1.1.1.1.1.1.1.0 q.unused.1.1);
    aligned = child_aligned;
    points = points_all;
  }

-- Where the page tables are well formed from the active PML4 on, its first entry is present and two
-- frames are free, the first of them becomes the PML4 of a new address space, and all tables are well
-- formed after it, the new PML4 and the active one at level 4, with those two frames in use.
pub vmm_create_user_address_space-IsPaged :
    (active f g : ℕ) (s : Pmm) (level : ℕ → ℕ) (fs : List ℕ)
    → IsPaged s level (f ∷ g ∷ fs)
    → level active ≡ 4
    → is_present (entry s active 0) ≡ true
    → (s' : Pmm) × (level' : ℕ → ℕ) × (vmm_create_user_address_space active s ≡ (f, s'))
      × IsPaged s' level' fs
      × (level' f ≡ 4)
      × (level' active ≡ 4)
vmm_create_user_address_space-IsPaged active f g s level fs q root low =
    let c = create-Child active f g s level fs q root low in
    (
      c.state,
      levels active f g s level fs q root low c,
      c.result,
      child-IsPaged active f g s level fs q root low c,
      levels_f active f g s level fs q root low c,
      levels_old active f g s level fs q root low c active (omega (arith, root)) ∙ root,
    )

-- Where the page tables are well formed from the active PML4 on, its first entry is present and two
-- frames are free, an address translates in the new address space as in the active one if it is in the
-- kernel's half or in the first 16 GB, and not at all elsewhere. The translations of the active
-- address space stay as they are.
pub vmm_create_user_address_space-get_phys :
    (active f g virt : ℕ) (s : Pmm) (level : ℕ → ℕ) (fs : List ℕ)
    → IsPaged s level (f ∷ g ∷ fs)
    → level active ≡ 4
    → is_present (entry s active 0) ≡ true
    → (s' : Pmm) × (vmm_create_user_address_space active s ≡ (f, s'))
      × (vmm_get_phys f virt s' ≡ (if is_shared virt then vmm_get_phys active virt s else 0))
      × (vmm_get_phys active virt s' ≡ vmm_get_phys active virt s)
vmm_create_user_address_space-get_phys active f g virt s level fs q root low =
    let c = create-Child active f g s level fs q root low in
    (
      c.state,
      c.result,
      child_phys active f g s level fs q root low c virt,
      child_kept active f g s level fs q root low c virt,
    )
