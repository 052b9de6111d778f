-- ===== src/Vmm/Space/Child.antt =====
-- The tables of a new address space, entry by entry.
use amazing_os.Base.{
  ℕ, ◌%◌, ◌<◌, ◌≡◌, ◌≢◌, ◌⊎◌, inl, inr, ◌∙◌, ap, sym, true, false, List, ◌∷◌, arith, ◌==◌, ltb,
  if◌then◌else◌, Bool-cases, ≢→==_false, bit_or,
}
use amazing_os.Pmm.{Pmm, take_frame}
use amazing_os.Vmm.{is_present, frame_of, entry, clear_table}
use amazing_os.Pmm.FreeList.{IsFree, take_frame-IsFree, alloc_first}
use amazing_os.Vmm.Entries.{entry_same, set_entry-IsFree, clear_table-IsFree}
use amazing_os.Vmm.Tables.{IsPaged}
use amazing_os.Vmm.Linking.{new_entry, take_other, linked, linked_other, linked_new}
use amazing_os.Vmm.Space.{
  copy_entries, clear_entries, ensure_child_pdpt, share_low, link_pdpt,
  vmm_copy_kernel_identity_mappings, fill_pml4, create_at, vmm_create_user_address_space,
}
use amazing_os.Vmm.Space.Copying.{
  entry-copy_entries, entry-clear_entries, copy_entries-IsFree, clear_entries-IsFree,
}

-- What the PML4 `f` and its PDPT `g` hold in the state after they are made.
pub record Child (active f g : ℕ) (s : Pmm) (level : ℕ → ℕ) (fs : List ℕ) : Type 0 where
  pub state : Pmm
  pub result : vmm_create_user_address_space active s ≡ (f, state)
  pub free : IsFree state fs
  pub old : (t i : ℕ) → level t ≢ 0 → i < 512 → entry state t i ≡ entry s t i
  pub at_root :
      (i : ℕ)
      → i < 512
      → entry state f i ≡ (if i == 0 then bit_or g 7 else if ltb i 256 then 0 else entry s active i)
  pub at_pdpt :
      (i : ℕ)
      → i < 512
      → entry state g i ≡ (if ltb i 16 then entry s (frame_of (entry s active 0)) i else 0)

-- The first free frame becomes the PML4, the next one its first PDPT.
module _ (active f g : ℕ) (s : Pmm) (level : ℕ → ℕ) (fs : List ℕ) (q : IsPaged s level (f ∷ g ∷ fs))
    (root : level active ≡ 4) (low : is_present (entry s active 0) ≡ true) where
  p3 : ℕ
  p3 = frame_of (entry s active 0)

  level_p3 : level p3 ≡ 3
  unfolding p3
  level_p3 =
      omega
        (arith, root, q.points active 0 (omega arith) (omega arith) low (λ z. absurd (omega arith)))

  f_aligned : f % 4096 ≡ 0
  f_aligned = q.free.frames.1.1.0

  g_ne_f : g ≢ f
  g_ne_f = q.free.frames.1.1.1.0.0

  g_aligned : g % 4096 ≡ 0
  g_aligned = q.free.frames.1.1.1.1.1.1.0

  f_unused : (a : ℕ) → level a ≢ 0 → a ≢ f
  f_unused a h e = h (ap level e ∙ q.unused.0.0)

  g_unused : (a : ℕ) → level a ≢ 0 → a ≢ g
  g_unused a h e = h (ap level e ∙ q.unused.1.0.0)

  active_aligned : active % 4096 ≡ 0
  active_aligned = q.aligned active (omega (arith, root))

  p3_aligned : p3 % 4096 ≡ 0
  p3_aligned = q.aligned p3 (omega (arith, level_p3))

  filled : Pmm
  filled = fill_pml4 active f (take_frame f s)

  entry-filled :
      (t i : ℕ)
      → t % 4096 ≡ 0
      → i < 512
      → entry filled t i
        ≡ (if t == f then (if ltb i 256 then 0 else entry s active i) else entry s t i)
  unfolding filled fill_pml4
  entry-filled t i a lt =
      let s1 = take_frame f s in
      let copied =
        entry-copy_entries f active 256 256 t i (clear_entries f 0 256 s1) f_aligned active_aligned
          a (λ z. f_unused active (omega (arith, root)) (sym z)) (omega arith) lt in
      let cleared = entry-clear_entries f 0 256 t i s1 f_aligned a (omega arith) lt in
      let kept =
        entry-clear_entries f 0 256 active i s1 f_aligned active_aligned (omega arith) lt in
      let there =
        take_other f active i s f_aligned active_aligned lt
          (f_unused active (omega (arith, root))) in
      let apart : active ≢ f = f_unused active (omega (arith, root)) in
      elim (Bool-cases (t == f)) [
        | inl new ↦ copied ∙ ground (arith, cleared, kept, there, apart)
        | inr old ↦
            let before = take_other f t i s f_aligned a lt (ground arith) in
            copied ∙ ground (arith, cleared, before)
      ]

  filled-IsFree : IsFree filled (g ∷ fs)
  unfolding filled fill_pml4
  filled-IsFree =
      let left = q.free.frames.1.1.1.0 in
      copy_entries-IsFree f active 256 256 _ (g ∷ fs) f_aligned (omega arith) left (
        clear_entries-IsFree f 0 256 (take_frame f s) (g ∷ fs) f_aligned (omega arith) left
          (take_frame-IsFree f s (g ∷ fs) q.free).0)

  with_pdpt : Pmm
  with_pdpt = linked f 0 g filled

  child : Pmm
  child = copy_entries g p3 0 16 with_pdpt

  with_pdpt_root : entry with_pdpt f 0 ≡ bit_or g 7
  unfolding with_pdpt
  with_pdpt_root = entry_same f 0 _ (clear_table g (take_frame g filled))

  to_pdpt : frame_of (entry with_pdpt f 0) ≡ g
  to_pdpt = ap frame_of with_pdpt_root ∙ (new_entry g g_aligned q.unused.1.0.1).2

  with_pdpt_other :
      (t i : ℕ)
      → t % 4096 ≡ 0
      → i < 512
      → t ≢ g
      → (t ≢ f) ⊎ (i ≢ 0)
      → entry with_pdpt t i ≡ entry filled t i
  unfolding with_pdpt
  with_pdpt_other t i a lt ne apart =
      linked_other f 0 g t i filled f_aligned g_aligned a (omega arith) lt ne apart

  with_pdpt_old : (t i : ℕ) → level t ≢ 0 → i < 512 → entry with_pdpt t i ≡ entry s t i
  with_pdpt_old t i h lt =
      let ne = f_unused t h in
      with_pdpt_other t i (q.aligned t h) lt (g_unused t h) (inl ne)
      ∙ entry-filled t i (q.aligned t h) lt
      ∙ ground arith

  with_pdpt-IsFree : IsFree with_pdpt fs
  unfolding with_pdpt
  with_pdpt-IsFree =
      let left = q.free.frames.1.1.1.1.1.1.1.0 in
      set_entry-IsFree f 0 _ (clear_table g (take_frame g filled)) fs f_aligned (omega arith)
        q.free.frames.1.1.1.0.1
        (clear_table-IsFree g (take_frame g filled) fs g_aligned left
          (take_frame-IsFree g filled fs filled-IsFree).0)

  -- The entries of the tables that were there, of the PML4 and of its PDPT.
  child_old : (t i : ℕ) → level t ≢ 0 → i < 512 → entry child t i ≡ entry s t i
  unfolding child
  child_old t i h lt =
      let ne = g_unused t h in
      entry-copy_entries g p3 0 16 t i with_pdpt g_aligned p3_aligned (q.aligned t h)
        (λ z. g_unused p3 (omega (arith, level_p3)) (sym z)) (omega arith) lt
      ∙ ground (arith, with_pdpt_old t i h lt)

  child_root :
      (i : ℕ)
      → i < 512
      → entry child f i ≡ (if i == 0 then bit_or g 7 else if ltb i 256 then 0 else entry s active i)
  unfolding child
  child_root i lt =
      let copied =
        entry-copy_entries g p3 0 16 f i with_pdpt g_aligned p3_aligned f_aligned
          (λ z. g_unused p3 (omega (arith, level_p3)) (sym z)) (omega arith) lt in
      elim (Bool-cases (i == 0)) [
        | inl first ↦
            let k : i ≡ 0 = ground arith in
            copied ∙ ground (arith, g_ne_f, ap (entry with_pdpt f) k ∙ with_pdpt_root)
        | inr later ↦
            let other =
              with_pdpt_other f i f_aligned lt (λ z. g_ne_f (sym z)) (inr (ground arith)) in
            copied ∙ ground (arith, g_ne_f, other, entry-filled f i f_aligned lt)
      ]

  child_pdpt : (i : ℕ) → i < 512 → entry child g i ≡ (if ltb i 16 then entry s p3 i else 0)
  unfolding child with_pdpt
  child_pdpt i lt =
      let copied =
        entry-copy_entries g p3 0 16 g i with_pdpt g_aligned p3_aligned g_aligned
          (λ z. g_unused p3 (omega (arith, level_p3)) (sym z)) (omega arith) lt in
      let old = with_pdpt_old p3 i (omega (arith, level_p3)) lt in
      let new = linked_new f 0 g i filled f_aligned g_aligned (omega arith) lt g_ne_f in
      copied ∙ ground (arith, old, new)

  absent : is_present (entry filled f 0) ≡ false
  absent = ap is_present (entry-filled f 0 f_aligned (omega arith)) ∙ ground arith

  still : entry filled active 0 ≡ entry s active 0
  still =
      let ne = f_unused active (omega (arith, root)) in
      entry-filled active 0 active_aligned (omega arith) ∙ ground arith

  ensured : ensure_child_pdpt f filled ≡ with_pdpt
  unfolding with_pdpt ensure_child_pdpt take_frame
  ensured =
      rw absent (ap (λ (r : ℕ × Pmm). link_pdpt f r.0 r.1) (alloc_first g filled fs filled-IsFree))

  shared : share_low active f with_pdpt ≡ child
  unfolding child p3 share_low copy_entries
  shared =
      ap (λ d. copy_entries d (frame_of (entry with_pdpt active 0)) 0 16 with_pdpt) to_pdpt
      ∙ ap (λ e. copy_entries g (frame_of e) 0 16 with_pdpt)
          (with_pdpt_old active 0 (omega (arith, root)) (omega arith))

  result : vmm_create_user_address_space active s ≡ (f, child)
  unfolding vmm_create_user_address_space vmm_copy_kernel_identity_mappings create_at filled
  result =
      ap (λ (r : ℕ × Pmm). create_at active r.0 r.1) (alloc_first f s (g ∷ fs) q.free)
      ∙ rw (≢→==_false f 0 q.free.frames.1.0) (
          rw (ap is_present still ∙ low)
            (ap (λ a. (f, share_low active f a)) ensured ∙ ap (λ a. (f, a)) shared))

  child-IsFree : IsFree child fs
  unfolding child
  child-IsFree =
      copy_entries-IsFree g p3 0 16 with_pdpt fs g_aligned (omega arith)
        q.free.frames.1.1.1.1.1.1.1.0 with_pdpt-IsFree

  pub create-Child : Child active f g s level fs
  unfolding p3
  create-Child = record {
    state = child;
    result = result;
    free = child-IsFree;
    old = child_old;
    at_root = child_root;
    at_pdpt = child_pdpt;
  }
