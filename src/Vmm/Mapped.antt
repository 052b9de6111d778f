-- ===== src/Vmm/Mapped.antt =====
-- What mapping a page promises, and the entries that it keeps.
use amazing_os.Base.{
  ℕ, suc, ◌<◌, ◌≡◌, ◌≢◌, ◌⊎◌, inl, inr, ◌∙◌, ap, sym, true, false, ◌&&◌, List, arith, ◌==◌,
  Bool-cases, bit_or,
}
use amazing_os.Pmm.{Pmm}
use amazing_os.Vmm.{
  is_present, is_huge, entry, pml4_idx, pdpt_idx, pd_idx, pt_idx, pdpt_of, pd_of,
  vmm_map_page_in_pml4,
}
use amazing_os.Vmm.Tables.{IsPaged, Ensured}
use amazing_os.Vmm.Walks.{Walk}

-- An entry that no later table takes the place of.
abbrev pub Settled : Pmm → (ℕ → ℕ) → (t i : ℕ) → Type 0
Settled s level t i = (level t ≡ 1) ⊎ (is_present (entry s t i) ≡ true)

-- What is known of a page that is mapped.
pub record Mapped (pml4 virt phys flags : ℕ) (s : Pmm) (level : ℕ → ℕ) : Type 0 where
  pub state : Pmm
  pub levels : ℕ → ℕ
  pub frames : List ℕ
  pub table : ℕ
  pub result : vmm_map_page_in_pml4 pml4 virt phys flags s ≡ (true, state)
  pub paged : IsPaged state levels frames
  pub root : levels pml4 ≡ 4
  pub leaf : levels table ≡ 1
  pub keeps_level : (a : ℕ) → level a ≢ 0 → levels a ≡ level a
  pub walk : Walk state pml4 virt table (bit_or phys flags)
  pub keeps :
      (t i : ℕ)
      → level t ≢ 0
      → i < 512
      → Settled s level t i
      → (t ≢ table) ⊎ (i ≢ pt_idx virt)
      → entry state t i ≡ entry s t i

-- No huge page is in the way of the walk.
abbrev pub NotHuge : (pml4 virt : ℕ) → Pmm → Type 0
NotHuge pml4 virt s =
    is_present (entry s pml4 (pml4_idx virt)) ≡ true
    → is_present (entry s (pdpt_of pml4 virt s) (pdpt_idx virt)) ≡ true
    → is_huge (entry s (pd_of pml4 virt s) (pd_idx virt)) ≡ false

pub Settled-after :
    (s s' : Pmm) (level level' : ℕ → ℕ) (t i : ℕ)
    → level' t ≡ level t
    → entry s' t i ≡ entry s t i
    → Settled s level t i
    → Settled s' level' t i
Settled-after s s' level level' t i e k (inl leaf) = inl (e ∙ leaf)
Settled-after s s' level level' t i e k (inr here) = inr (ap is_present k ∙ here)

-- An entry that is present, or that is in a page table, stays as it is.
pub Ensured-keeps :
    (t i l : ℕ) (s : Pmm) (level : ℕ → ℕ) (fs : List ℕ) (r : Ensured t i l s level fs) (t' i' : ℕ)
    → level t ≡ suc (suc l)
    → level t' ≢ 0
    → i' < 512
    → Settled s level t' i'
    → entry r.state t' i' ≡ entry s t' i'
Ensured-keeps t i l s level fs r t' i' at h lt (inl leaf) =
    r.keeps_entry t' i' h lt (inl (λ e. absurd (omega (arith, ap level e, at, leaf))))
Ensured-keeps t i l s level fs r t' i' at h lt (inr here) = elim (Bool-cases (t' == t && i' == i)) [
  | inr elsewhere ↦ r.keeps_entry t' i' h lt (ground arith)
  | inl same ↦
      let e : t' ≡ t = ground arith in
      let k : i' ≡ i = ground arith in
      ap (λ a. entry a t' i')
        (r.unchanged (
          sym (ap (λ a. is_present (entry s a i')) e ∙ ap (λ a. is_present (entry s t a)) k)
          ∙ here))
]
