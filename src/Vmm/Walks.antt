-- ===== src/Vmm/Walks.antt =====
-- The walk through the tables, which every operation on a page goes through.
use amazing_os.Base.{
  ℕ, ◌+◌, ◌%◌, ◌≤◌, ◌<◌, ◌≡◌, refl, ◌∙◌, ap, true, false, not, List, arith, ◌==◌, if◌then◌else◌,
}
use amazing_os.Pmm.{Pmm}
use amazing_os.Vmm.{
  is_present, is_user, is_huge, frame_of, entry, set_entry, pml4_idx, pdpt_idx, pd_idx, pt_idx,
  pt_of, vmm_get_phys, vmm_is_mapped, vmm_is_user_mapped, vmm_unmap_page,
}
use amazing_os.Vmm.Tables.{IsPaged}

-- The walk for `virt` goes through the tables p3, p2 and p1 to the entry `e`.
pub record Walk (s : Pmm) (pml4 virt p1 e : ℕ) : Type 0 where
  pub p3 : ℕ
  pub p2 : ℕ
  pub present_4 : is_present (entry s pml4 (pml4_idx virt)) ≡ true
  pub at_3 : frame_of (entry s pml4 (pml4_idx virt)) ≡ p3
  pub present_3 : is_present (entry s p3 (pdpt_idx virt)) ≡ true
  pub at_2 : frame_of (entry s p3 (pdpt_idx virt)) ≡ p2
  pub present_2 : is_present (entry s p2 (pd_idx virt)) ≡ true
  pub small : is_huge (entry s p2 (pd_idx virt)) ≡ false
  pub at_1 : frame_of (entry s p2 (pd_idx virt)) ≡ p1
  pub last : entry s p1 (pt_idx virt) ≡ e

pub get_phys-Walk :
    (s : Pmm) (pml4 virt p1 e : ℕ)
    → Walk s pml4 virt p1 e
    → vmm_get_phys pml4 virt s ≡ (if not (is_present e) then 0 else frame_of e + virt % 4096)
unfolding vmm_get_phys
get_phys-Walk s pml4 virt p1 e w =
    rw (w.present_4, w.at_3, w.present_3, w.at_2, w.present_2, w.small, w.at_1, w.last) refl

-- The index fields of an address do not depend on its offset in the page.
same_walk :
    (virt off : ℕ)
    → virt % 4096 ≡ 0
    → off < 4096
    → (pml4_idx (virt + off) ≡ pml4_idx virt)
      × (pdpt_idx (virt + off) ≡ pdpt_idx virt)
      × (pd_idx (virt + off) ≡ pd_idx virt)
      × (pt_idx (virt + off) ≡ pt_idx virt)
same_walk virt off a lt = (omega arith, omega arith, omega arith, omega arith)

-- A walk is the same at each offset of the page.
pub Walk-offset :
    (s : Pmm) (pml4 virt off p1 e : ℕ)
    → virt % 4096 ≡ 0
    → off < 4096
    → Walk s pml4 virt p1 e
    → Walk s pml4 (virt + off) p1 e
Walk-offset s pml4 virt off p1 e a lt w =
    let (i4, i3, i2, i1) = same_walk virt off a lt in
    record {
      p3 = w.p3;
      p2 = w.p2;
      present_4 = ap (λ i. is_present (entry s pml4 i)) i4 ∙ w.present_4;
      at_3 = ap (λ i. frame_of (entry s pml4 i)) i4 ∙ w.at_3;
      present_3 = ap (λ i. is_present (entry s w.p3 i)) i3 ∙ w.present_3;
      at_2 = ap (λ i. frame_of (entry s w.p3 i)) i3 ∙ w.at_2;
      present_2 = ap (λ i. is_present (entry s w.p2 i)) i2 ∙ w.present_2;
      small = ap (λ i. is_huge (entry s w.p2 i)) i2 ∙ w.small;
      at_1 = ap (λ i. frame_of (entry s w.p2 i)) i2 ∙ w.at_1;
      last = ap (entry s p1) i1 ∙ w.last;
    }

pub is_mapped-Walk :
    (s : Pmm) (pml4 virt p1 e : ℕ)
    → Walk s pml4 virt p1 e
    → vmm_is_mapped pml4 virt s ≡ is_present e
unfolding vmm_is_mapped
is_mapped-Walk s pml4 virt p1 e w =
    rw (w.present_4, w.at_3, w.present_3, w.at_2, w.present_2, w.small, w.at_1, w.last) refl

-- A page without the user flag in its own entry is none of the user's.
pub is_user_mapped-Walk :
    (s : Pmm) (pml4 virt p1 e : ℕ)
    → Walk s pml4 virt p1 e
    → is_user e ≡ false
    → vmm_is_user_mapped pml4 virt s ≡ false
unfolding vmm_is_user_mapped
is_user_mapped-Walk s pml4 virt p1 e w kernel =
    rw (w.present_4, w.at_3, w.present_3, w.at_2, w.present_2, w.small, w.at_1, w.last, kernel)
      (ground arith)

pub unmap-Walk :
    (s : Pmm) (pml4 virt p1 e : ℕ)
    → Walk s pml4 virt p1 e
    → virt % 4096 ≡ 0
    → is_present e ≡ true
    → vmm_unmap_page pml4 virt s ≡ (true, set_entry p1 (pt_idx virt) 0 s)
unfolding vmm_unmap_page
unmap-Walk s pml4 virt p1 e w a here =
    let aligned : (virt % 4096 == 0) ≡ true = ground arith in
    rw (aligned, w.present_4, w.at_3, w.present_3, w.at_2, w.present_2, w.at_1, w.last, here) refl

pub pt_of-Walk : (s : Pmm) (pml4 virt p1 e : ℕ) → Walk s pml4 virt p1 e → pt_of pml4 virt s ≡ p1
pt_of-Walk s pml4 virt p1 e w = rw (w.at_3, w.at_2, w.at_1) refl

-- A walk of settled entries is the same where they are kept.
module _ (pml4 virt p1 e : ℕ) (s s' : Pmm) (level : ℕ → ℕ) (fs : List ℕ) (q : IsPaged s level fs)
    (root : level pml4 ≡ 4) (w : Walk s pml4 virt p1 e) where
  level_3 : level w.p3 ≡ 3
  level_3 = omega (
    arith,
    root,
    ap level w.at_3,
    q.points pml4 (pml4_idx virt) (omega arith) (omega arith) w.present_4
        (λ z. absurd (omega arith)),
  )

  level_2 : level w.p2 ≡ 2
  level_2 = omega (
    arith,
    level_3,
    ap level w.at_2,
    q.points w.p3 (pdpt_idx virt) (omega arith) (omega (arith, level_3)) w.present_3
        (λ z. absurd (omega (arith, level_3))),
  )

  pub level_1 : level p1 ≡ 1
  level_1 = omega (
    arith,
    level_2,
    ap level w.at_1,
    q.points w.p2 (pd_idx virt) (omega arith) (omega (arith, level_2)) w.present_2 (λ _. w.small),
  )

  pub Walk-kept :
      (e' : ℕ)
      → ((t i : ℕ)
          → 2 ≤ level t
          → i < 512
          → is_present (entry s t i) ≡ true
          → entry s' t i ≡ entry s t i)
      → entry s' p1 (pt_idx virt) ≡ e'
      → Walk s' pml4 virt p1 e'
  Walk-kept e' keeps last =
      let at_4 = keeps pml4 (pml4_idx virt) (omega arith) (omega arith) w.present_4 in
      let at_3 = keeps w.p3 (pdpt_idx virt) (omega (arith, level_3)) (omega arith) w.present_3 in
      let at_2 = keeps w.p2 (pd_idx virt) (omega (arith, level_2)) (omega arith) w.present_2 in
      record {
        p3 = w.p3;
        p2 = w.p2;
        present_4 = ap is_present at_4 ∙ w.present_4;
        at_3 = ap frame_of at_4 ∙ w.at_3;
        present_3 = ap is_present at_3 ∙ w.present_3;
        at_2 = ap frame_of at_3 ∙ w.at_2;
        present_2 = ap is_present at_2 ∙ w.present_2;
        small = ap is_huge at_2 ∙ w.small;
        at_1 = ap frame_of at_2 ∙ w.at_1;
        last = last;
      }

-- What is the user's is so by the page.
pub is_user_mapped-offset :
    (s : Pmm) (pml4 virt off : ℕ)
    → virt % 4096 ≡ 0
    → off < 4096
    → vmm_is_user_mapped pml4 (virt + off) s ≡ vmm_is_user_mapped pml4 virt s
unfolding vmm_is_user_mapped
is_user_mapped-offset s pml4 virt off a lt =
    let (i4, i3, i2, i1) = same_walk virt off a lt in rw (i4, i3, i2, i1) refl
