-- ===== src/Vmm/Space/Sharing.antt =====
-- An address space shares the kernel's pages, and has none of its own.
use amazing_os.Base.{
  ℕ, ◌+◌, ◌*◌, ◌/◌, ◌%◌, ◌^◌, ◌<◌, ◌≡◌, ◌≢◌, inl, inr, refl, ◌∙◌, ap, sym, subst, Bool, true, not,
  ◌&&◌, ◌||◌, List, ◌∷◌, arith, ◌==◌, leb, ltb, if◌then◌else◌, Bool-cases,
}
use amazing_os.Pmm.{Pmm}
use amazing_os.Vmm.{
  is_present, is_huge, frame_of, entry, pml4_idx, pdpt_idx, pd_idx, pt_idx, vmm_get_phys,
}
use amazing_os.Vmm.Tables.{IsPaged, PointsTo}
use amazing_os.Vmm.Linking.{new_entry}
use amazing_os.Vmm.Space.Child.{Child}

-- The walk from the entry of a PDPT on, and from that of a PML4 on.
from_pdpte : (e virt : ℕ) → Pmm → ℕ
from_pdpte e virt s =
    let pde = entry s (frame_of e) (pd_idx virt) in
    let pte = entry s (frame_of pde) (pt_idx virt) in
    if not (is_present e)
    then 0
    else if not (is_present pde)
    then 0
    else if is_huge pde
    then (pde / 2 ^ 21 * 2 ^ 21 + virt % 2 ^ 21) % 2 ^ 64
    else if not (is_present pte)
    then 0
    else frame_of pte + virt % 4096

from_pml4e : (e virt : ℕ) → Pmm → ℕ
unfolding from_pdpte
from_pml4e e virt s =
    if not (is_present e) then 0 else from_pdpte (entry s (frame_of e) (pdpt_idx virt)) virt s

get_phys_from :
    (pml4 virt : ℕ) (s : Pmm)
    → vmm_get_phys pml4 virt s ≡ from_pml4e (entry s pml4 (pml4_idx virt)) virt s
unfolding vmm_get_phys from_pml4e from_pdpte
get_phys_from pml4 virt s = refl

-- An entry that is not present ends the walk.
from_pml4e-absent : (virt : ℕ) (s : Pmm) → from_pml4e 0 virt s ≡ 0
unfolding from_pml4e
from_pml4e-absent virt s = refl

from_pdpte-absent : (virt : ℕ) (s : Pmm) → from_pdpte 0 virt s ≡ 0
unfolding from_pdpte
from_pdpte-absent virt s = refl

-- Walks through tables that stay as they are.
module _ (virt : ℕ) (s s' : Pmm) (level : ℕ → ℕ) (fs : List ℕ) (q : IsPaged s level fs)
    (old : (t i : ℕ) → level t ≢ 0 → i < 512 → entry s' t i ≡ entry s t i) where
  from_pdpte-kept : (e : ℕ) → PointsTo level e 3 → from_pdpte e virt s' ≡ from_pdpte e virt s
  unfolding from_pdpte
  from_pdpte-kept e to = elim (Bool-cases (is_present e)) [
    | inr absent ↦ rw absent refl
    | inl here ↦
        let level_2 = to here (λ z. absurd (omega arith)) in
        let kept_2 = old (frame_of e) (pd_idx virt) (omega (arith, level_2)) (omega arith) in
        let pde = entry s (frame_of e) (pd_idx virt) in
        rw (here, kept_2)
          (elim (Bool-cases (is_present pde)) [
            | inr absent ↦ rw absent refl
            | inl there ↦ elim (Bool-cases (is_huge pde)) [
              | inl huge ↦ rw (there, huge) refl
              | inr small ↦
                  let level_1 =
                    q.points (frame_of e) (pd_idx virt) (omega arith) (omega (arith, level_2)) there
                      (λ _. small) in
                  rw
                    (
                      there,
                      small,
                      old (frame_of pde) (pt_idx virt) (omega (arith, level_1, level_2))
                          (omega arith),
                    )
                    refl
            ]
          ])
  ]

  from_pml4e-kept : (e : ℕ) → PointsTo level e 4 → from_pml4e e virt s' ≡ from_pml4e e virt s
  unfolding from_pml4e
  from_pml4e-kept e to = elim (Bool-cases (is_present e)) [
    | inr absent ↦ rw absent refl
    | inl here ↦
        let level_3 : level (frame_of e) ≡ 3 = omega (arith, to here (λ z. absurd (omega arith))) in
        rw (here, old (frame_of e) (pdpt_idx virt) (omega (arith, level_3)) (omega arith))
          (from_pdpte-kept (entry s (frame_of e) (pdpt_idx virt)) (
            subst (PointsTo level (entry s (frame_of e) (pdpt_idx virt))) level_3
              (q.points (frame_of e) (pdpt_idx virt) (omega arith) (omega (arith, level_3)))))
  ]

-- The kernel's half of the addresses, and its first 16 GB of the other half.
abbrev pub is_shared : ℕ → Bool
is_shared virt = leb 256 (pml4_idx virt) || pml4_idx virt == 0 && ltb (pdpt_idx virt) 16

module _ (active f g : ℕ) (s : Pmm) (level : ℕ → ℕ) (fs : List ℕ) (q : IsPaged s level (f ∷ g ∷ fs))
    (root : level active ≡ 4) (low : is_present (entry s active 0) ≡ true)
    (c : Child active f g s level fs) where
  abbrev pub p3 : ℕ
  p3 = frame_of (entry s active 0)

  pub level_p3 : level p3 ≡ 3
  level_p3 =
      omega
        (arith, root, q.points active 0 (omega arith) (omega arith) low (λ z. absurd (omega arith)))

  pub g_ne_f : g ≢ f
  g_ne_f = q.free.frames.1.1.1.0.0

  pub g_aligned : g % 4096 ≡ 0
  g_aligned = q.free.frames.1.1.1.1.1.1.0

  pub points_root : (i : ℕ) → i < 512 → PointsTo level (entry s active i) 4
  points_root i lt =
      subst (PointsTo level (entry s active i)) root (q.points active i lt (omega (arith, root)))

  pub points_p3 : (i : ℕ) → i < 512 → PointsTo level (entry s p3 i) 3
  points_p3 i lt =
      subst (PointsTo level (entry s p3 i)) level_p3 (q.points p3 i lt (omega (arith, level_p3)))

  low_phys :
      (virt : ℕ)
      → pml4_idx virt ≡ 0
      → vmm_get_phys active virt s ≡ from_pdpte (entry s p3 (pdpt_idx virt)) virt s
  unfolding from_pml4e
  low_phys virt first =
      get_phys_from active virt s
      ∙ ap (λ i. from_pml4e (entry s active i) virt s) first
      ∙ rw low refl

  child_low :
      (virt : ℕ)
      → pml4_idx virt ≡ 0
      → vmm_get_phys f virt c.state
        ≡ from_pdpte (if ltb (pdpt_idx virt) 16 then entry s p3 (pdpt_idx virt) else 0) virt c.state
  unfolding from_pml4e
  child_low virt first =
      let new = new_entry g g_aligned q.unused.1.0.1 in
      get_phys_from f virt c.state
      ∙ ap (λ i. from_pml4e (entry c.state f i) virt c.state) first
      ∙ ap (λ e. from_pml4e e virt c.state) (c.at_root 0 (omega arith))
      ∙ rw (new.0, new.2)
          (ap (λ e. from_pdpte e virt c.state) (c.at_pdpt (pdpt_idx virt) (omega arith)))

  pub child_phys :
      (virt : ℕ)
      → vmm_get_phys f virt c.state ≡ (if is_shared virt then vmm_get_phys active virt s else 0)
  child_phys virt = elim (Bool-cases (leb 256 (pml4_idx virt))) [
    | inl kernel ↦
        let same : entry c.state f (pml4_idx virt) ≡ entry s active (pml4_idx virt) =
          c.at_root (pml4_idx virt) (omega arith) ∙ ground arith in
        rw kernel (
          get_phys_from f virt c.state
          ∙ ap (λ e. from_pml4e e virt c.state) same
          ∙ from_pml4e-kept virt s c.state level (f ∷ g ∷ fs) q c.old
              (entry s active (pml4_idx virt)) (points_root (pml4_idx virt) (omega arith))
          ∙ sym (get_phys_from active virt s))
    | inr user ↦ elim (Bool-cases (pml4_idx virt == 0)) [
      | inr other ↦
          let none : entry c.state f (pml4_idx virt) ≡ 0 =
            c.at_root (pml4_idx virt) (omega arith) ∙ ground arith in
          rw (user, other)
            (get_phys_from f virt c.state
              ∙ ap (λ e. from_pml4e e virt c.state) none
              ∙ from_pml4e-absent virt c.state)
      | inl first ↦
          let walk = child_low virt (ground arith) in
          elim (Bool-cases (ltb (pdpt_idx virt) 16)) [
            | inl shared ↦
                rw (user, first, shared)
                  (rw shared at walk
                    ∙ from_pdpte-kept virt s c.state level (f ∷ g ∷ fs) q c.old
                        (entry s p3 (pdpt_idx virt)) (points_p3 (pdpt_idx virt) (omega arith))
                    ∙ sym (low_phys virt (ground arith)))
            | inr high ↦ rw (user, first, high) (rw high at walk ∙ from_pdpte-absent virt c.state)
          ]
    ]
  ]

  pub child_kept : (virt : ℕ) → vmm_get_phys active virt c.state ≡ vmm_get_phys active virt s
  child_kept virt =
      get_phys_from active virt c.state
      ∙ ap (λ e. from_pml4e e virt c.state)
          (c.old active (pml4_idx virt) (omega (arith, root)) (omega arith))
      ∙ from_pml4e-kept virt s c.state level (f ∷ g ∷ fs) q c.old (entry s active (pml4_idx virt))
          (points_root (pml4_idx virt) (omega arith))
      ∙ sym (get_phys_from active virt s)
