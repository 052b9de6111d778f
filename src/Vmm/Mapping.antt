-- ===== src/Vmm/Mapping.antt =====
-- The steps of `vmm_map_page_in_pml4`, one table after the other.
use amazing_os.Base.{
  ℕ, ◌%◌, ◌≤◌, ◌<◌, ◌≡◌, ◌≢◌, ◌⊎◌, inl, inr, refl, ◌∙◌, ap, sym, subst, true, false, List, arith,
  length, ◌==◌, Bool-cases, bit_or,
}
use amazing_os.Pmm.{Pmm}
use amazing_os.Vmm.{
  is_present, is_huge, frame_of, entry, set_entry, pml4_idx, pdpt_idx, pd_idx, pt_idx, map_in_pt,
  map_in_pd, map_in_pdpt, vmm_map_page_in_pml4,
}
use amazing_os.Vmm.Entries.{entry_other, entry_same, set_entry-IsFree, not_in_use}
use amazing_os.Vmm.Tables.{PointsTo, IsPaged, Ensured}
use amazing_os.Vmm.Linking.{ensure_table-Ensured}
use amazing_os.Vmm.Walks.{Walk}
use amazing_os.Vmm.Mapped.{Settled, Settled-after, Mapped, NotHuge, Ensured-keeps}

module _ (pml4 virt : ℕ) (s : Pmm) (level : ℕ → ℕ) (fs : List ℕ) (q : IsPaged s level fs)
    (root : level pml4 ≡ 4) (enough : 3 ≤ length fs) (no_huge : NotHuge pml4 virt s) where
  first : Ensured pml4 (pml4_idx virt) 2 s level fs
  first =
      ensure_table-Ensured pml4 (pml4_idx virt) 2 s level fs q (omega arith) root (omega arith)
        (λ z. absurd (omega arith))

  pdpt : ℕ
  pdpt = frame_of (entry first.state pml4 (pml4_idx virt))

  second : Ensured pdpt (pdpt_idx virt) 1 first.state first.levels first.frames
  unfolding pdpt
  second =
      ensure_table-Ensured pdpt (pdpt_idx virt) 1 first.state first.levels first.frames first.paged
        (omega (arith, first.left)) first.below (omega arith) (λ z. absurd (omega arith))

  pd : ℕ
  pd = frame_of (entry second.state pdpt (pdpt_idx virt))

  not_huge : is_huge (entry second.state pd (pd_idx virt)) ≡ false
  unfolding pdpt pd
  not_huge = elim (Bool-cases (is_present (entry s pml4 (pml4_idx virt)))) [
    | inr absent ↦
        let empty : entry first.state pdpt (pdpt_idx virt) ≡ 0 =
          first.fresh absent (pdpt_idx virt) (omega arith) in
        ap is_huge (second.fresh (ap is_present empty) (pd_idx virt) (omega arith))
    | inl here ↦ elim (Bool-cases (is_present (entry first.state pdpt (pdpt_idx virt)))) [
      | inr absent ↦ ap is_huge (second.fresh absent (pd_idx virt) (omega arith))
      | inl there ↦
          let same : first.state ≡ s = first.unchanged here in
          let walk : Pmm → ℕ = λ a. frame_of (entry a pml4 (pml4_idx virt)) in
          ap (λ a. is_huge (entry a (frame_of (entry a pdpt (pdpt_idx virt))) (pd_idx virt)))
            (second.unchanged there ∙ same)
          ∙ ap (λ a. is_huge (entry s (frame_of (entry s (walk a) (pdpt_idx virt))) (pd_idx virt)))
              same
          ∙ no_huge here
              (sym (ap (λ a. is_present (entry a (walk a) (pdpt_idx virt))) same) ∙ there)
    ]
  ]

  third : Ensured pd (pd_idx virt) 0 second.state second.levels second.frames
  unfolding pdpt pd
  third =
      ensure_table-Ensured pd (pd_idx virt) 0 second.state second.levels second.frames second.paged
        (omega (arith, first.left, second.left)) second.below (omega arith) (λ _. not_huge)

  pt : ℕ
  pt = frame_of (entry third.state pd (pd_idx virt))

  root_first : first.levels pml4 ≡ 4
  root_first = first.keeps_level pml4 (omega (arith, root)) ∙ root

  root_second : second.levels pml4 ≡ 4
  root_second = second.keeps_level pml4 (omega (arith, root_first)) ∙ root_first

  root_third : third.levels pml4 ≡ 4
  root_third = third.keeps_level pml4 (omega (arith, root_second)) ∙ root_second

  pdpt_second : second.levels pdpt ≡ 3
  unfolding pdpt
  pdpt_second = second.keeps_level pdpt (omega (arith, first.below)) ∙ first.below

  pdpt_third : third.levels pdpt ≡ 3
  unfolding pdpt
  pdpt_third = third.keeps_level pdpt (omega (arith, pdpt_second)) ∙ pdpt_second

  pd_third : third.levels pd ≡ 2
  unfolding pdpt pd
  pd_third = third.keeps_level pd (omega (arith, second.below)) ∙ second.below

  pt_third : third.levels pt ≡ 1
  unfolding pdpt pd pt
  pt_third = third.below

  pt_aligned : pt % 4096 ≡ 0
  pt_aligned = third.paged.aligned pt (omega (arith, pt_third))

  module _ (phys flags : ℕ) where
    final : Pmm
    final = set_entry pt (pt_idx virt) (bit_or phys flags) third.state

    final_other :
        (t i : ℕ)
        → third.levels t ≢ 0
        → i < 512
        → (t ≢ pt) ⊎ (i ≢ pt_idx virt)
        → entry final t i ≡ entry third.state t i
    unfolding final
    final_other t i h lt ne =
        entry_other pt (pt_idx virt) (bit_or phys flags) t i third.state pt_aligned
          (third.paged.aligned t h) (omega arith) lt ne

    final_above : (t i : ℕ) → 2 ≤ third.levels t → i < 512 → entry final t i ≡ entry third.state t i
    final_above t i h lt =
        final_other t i (omega arith) lt
          (inl (λ e. absurd (omega (arith, ap third.levels e, pt_third))))

    final-IsPaged : IsPaged final third.levels third.frames
    unfolding final
    final-IsPaged = record {
      free =
          set_entry-IsFree pt (pt_idx virt) (bit_or phys flags) third.state third.frames pt_aligned
            (omega arith)
            (not_in_use third.levels pt third.frames (omega (arith, pt_third)) third.paged.unused)
            third.paged.free;
      unused = third.paged.unused;
      aligned = third.paged.aligned;
      points = λ t i lt high.
          subst (λ e. PointsTo third.levels e (third.levels t)) (sym (final_above t i high lt))
            (third.paged.points t i lt high);
    }

    at_pml4 : entry final pml4 (pml4_idx virt) ≡ entry first.state pml4 (pml4_idx virt)
    unfolding pdpt pd
    at_pml4 =
        final_above pml4 (pml4_idx virt) (omega (arith, root_third)) (omega arith)
        ∙ third.keeps_entry pml4 (pml4_idx virt) (omega (arith, root_second)) (omega arith)
            (inl (λ e. absurd (omega (arith, ap second.levels e, root_second, second.below))))
        ∙ second.keeps_entry pml4 (pml4_idx virt) (omega (arith, root_first)) (omega arith)
            (inl (λ e. absurd (omega (arith, ap first.levels e, root_first, first.below))))

    at_pdpt : entry final pdpt (pdpt_idx virt) ≡ entry second.state pdpt (pdpt_idx virt)
    unfolding pd
    at_pdpt =
        final_above pdpt (pdpt_idx virt) (omega (arith, pdpt_third)) (omega arith)
        ∙ third.keeps_entry pdpt (pdpt_idx virt) (omega (arith, pdpt_second)) (omega arith)
            (inl (λ e. absurd (omega (arith, ap second.levels e, pdpt_second, second.below))))

    at_pd : entry final pd (pd_idx virt) ≡ entry third.state pd (pd_idx virt)
    at_pd = final_above pd (pd_idx virt) (omega (arith, pd_third)) (omega arith)

    final-Walk : Walk final pml4 virt pt (bit_or phys flags)
    unfolding pdpt pd pt final
    final-Walk = record {
      p3 = pdpt;
      p2 = pd;
      present_4 = ap is_present at_pml4 ∙ first.present;
      at_3 = ap frame_of at_pml4;
      present_3 = ap is_present at_pdpt ∙ second.present;
      at_2 = ap frame_of at_pdpt;
      present_2 = ap is_present at_pd ∙ third.present;
      small = ap is_huge at_pd ∙ third.small refl;
      at_1 = ap frame_of at_pd;
      last = entry_same pt (pt_idx virt) (bit_or phys flags) third.state;
    }

    map_result :
        virt % 4096 ≡ 0
        → phys % 4096 ≡ 0
        → vmm_map_page_in_pml4 pml4 virt phys flags s ≡ (true, final)
    unfolding vmm_map_page_in_pml4 map_in_pdpt map_in_pd map_in_pt pdpt pd pt final
    map_result a b =
        let virt_aligned : (virt % 4096 == 0) ≡ true = ground arith in
        let phys_aligned : (phys % 4096 == 0) ≡ true = ground arith in
        rw (virt_aligned, phys_aligned)
          (ap (map_in_pdpt pml4 virt phys flags) first.result
            ∙ ap (map_in_pd pdpt virt phys flags) second.result
            ∙ ap (map_in_pt pd virt phys flags) third.result)

    final_keeps :
        (t i : ℕ)
        → level t ≢ 0
        → i < 512
        → Settled s level t i
        → (t ≢ pt) ⊎ (i ≢ pt_idx virt)
        → entry final t i ≡ entry s t i
    unfolding pdpt pd
    final_keeps t i h lt k ne =
        let level_1 = first.keeps_level t h in
        let entry_1 = Ensured-keeps pml4 (pml4_idx virt) 2 s level fs first t i root h lt k in
        let k_1 = Settled-after s first.state level first.levels t i level_1 entry_1 k in
        let level_2 = second.keeps_level t (omega (arith, level_1)) in
        let entry_2 =
          Ensured-keeps pdpt (pdpt_idx virt) 1 first.state first.levels first.frames second t i
            first.below (omega (arith, level_1)) lt k_1 in
        let k_2 =
          Settled-after first.state second.state first.levels second.levels t i level_2 entry_2
            k_1 in
        let level_3 = third.keeps_level t (omega (arith, level_1, level_2)) in
        let entry_3 =
          Ensured-keeps pd (pd_idx virt) 0 second.state second.levels second.frames third t i
            second.below (omega (arith, level_1, level_2)) lt k_2 in
        final_other t i (omega (arith, level_1, level_2, level_3)) lt ne
        ∙ entry_3
        ∙ entry_2
        ∙ entry_1

    pub map-Mapped : virt % 4096 ≡ 0 → phys % 4096 ≡ 0 → Mapped pml4 virt phys flags s level
    unfolding pdpt pd
    map-Mapped a b = record {
      state = final;
      levels = third.levels;
      frames = third.frames;
      table = pt;
      result = map_result a b;
      paged = final-IsPaged;
      root = root_third;
      leaf = pt_third;
      keeps_level = λ t h.
          let one = first.keeps_level t h in
          let two = second.keeps_level t (omega (arith, one)) in
          third.keeps_level t (omega (arith, one, two)) ∙ two ∙ one;
      walk = final-Walk;
      keeps = final_keeps;
    }
