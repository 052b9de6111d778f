-- ===== src/Vmm/Linking.antt =====
-- A table that is made and linked leaves the page tables well formed.
use amazing_os.Base.{
  ℕ, suc, ◌+◌, ◌%◌, ◌^◌, ◌≤◌, ◌<◌, ◌≡◌, ◌≢◌, ◌⊎◌, inl, inr, refl, ◌∙◌, ap, sym, subst, true, false,
  ◌&&◌, List, [], ◌∷◌, arith, length, ◌==◌, if◌then◌else◌, All, Bool-cases, ≢→==_false, bit_or,
}
use amazing_os.Pmm.{Pmm, take_frame}
use amazing_os.Pmm.FreeList.{IsFree, take_frame-IsFree, alloc_first}
use amazing_os.Vmm.{
  is_present, is_huge, frame_of, table_flags, entry, set_entry, clear_table, link_table,
  ensure_table,
}
use amazing_os.Vmm.Bits.{bit_or_page}
use amazing_os.Vmm.Entries.{
  entry_other, entry_same, clear_other, clear_same, set_entry-IsFree, clear_table-IsFree,
  not_in_use,
}
use amazing_os.Vmm.Tables.{PointsTo, IsPaged, Ensured, found}

-- The entry of a new table.
pub new_entry :
    (f : ℕ)
    → f % 4096 ≡ 0
    → f < 2 ^ 52
    → (is_present (bit_or f 7) ≡ true)
      × (is_huge (bit_or f 7) ≡ false)
      × (frame_of (bit_or f 7) ≡ f)
new_entry f a small =
    let e : bit_or f 7 ≡ f + 7 = bit_or_page f 7 a small (omega arith) in
    rw e (ground arith, ground arith, omega arith)

-- The state after a new table `f` is linked.
abbrev pub linked : (t i f : ℕ) → Pmm → Pmm
linked t i f s = set_entry t i (bit_or f table_flags) (clear_table f (take_frame f s))

pub take_other :
    (f t' i' : ℕ) (s : Pmm)
    → f % 4096 ≡ 0
    → t' % 4096 ≡ 0
    → i' < 512
    → t' ≢ f
    → entry (take_frame f s) t' i' ≡ entry s t' i'
unfolding take_frame
take_other f t' i' s = clear_other f t' i' s

pub linked_other :
    (t i f t' i' : ℕ) (s : Pmm)
    → t % 4096 ≡ 0
    → f % 4096 ≡ 0
    → t' % 4096 ≡ 0
    → i < 512
    → i' < 512
    → t' ≢ f
    → (t' ≢ t) ⊎ (i' ≢ i)
    → entry (linked t i f s) t' i' ≡ entry s t' i'
linked_other t i f t' i' s a b c lt lt' ne other =
    entry_other t i _ t' i' (clear_table f (take_frame f s)) a c lt lt' other
    ∙ clear_other f t' i' (take_frame f s) b c lt' ne
    ∙ take_other f t' i' s b c lt' ne

pub linked_new :
    (t i f i' : ℕ) (s : Pmm)
    → t % 4096 ≡ 0
    → f % 4096 ≡ 0
    → i < 512
    → i' < 512
    → f ≢ t
    → entry (linked t i f s) f i' ≡ 0
linked_new t i f i' s a b lt lt' ne =
    entry_other t i _ f i' (clear_table f (take_frame f s)) a b lt lt' (inl ne)
    ∙ clear_same f i' (take_frame f s) lt'

abbrev pub with_level : ℕ → ℕ → (ℕ → ℕ) → ℕ → ℕ
with_level f l level a = if a == f then l else level a

pub with_level_same : (f l : ℕ) (level : ℕ → ℕ) → with_level f l level f ≡ l
with_level_same f l level = ground arith

pub with_level_other : (f l : ℕ) (level : ℕ → ℕ) (a : ℕ) → a ≢ f → with_level f l level a ≡ level a
with_level_other f l level a ne = ground arith

pub unused_later :
    (f l : ℕ) (level : ℕ → ℕ) (fs : List ℕ)
    → All (λ g. g ≢ f) fs
    → All (λ g. (level g ≡ 0) × (g < 2 ^ 52)) fs
    → All (λ g. (with_level f l level g ≡ 0) × (g < 2 ^ 52)) fs
unused_later f l level [] h k = tt
unused_later f l level (g ∷ fs) h k =
    ((with_level_other f l level g h.0 ∙ k.0.0, k.0.1), unused_later f l level fs h.1 k.1)

module _ (t i l f : ℕ) (s : Pmm) (level : ℕ → ℕ) (fs : List ℕ) (q : IsPaged s level (f ∷ fs))
    (at : level t ≡ suc (suc l)) (lt : i < 512) where
  new_aligned : f % 4096 ≡ 0
  new_aligned = q.free.frames.1.1.0

  table_aligned : t % 4096 ≡ 0
  table_aligned = q.aligned t (omega arith)

  new_ne : (a : ℕ) → level a ≢ 0 → a ≢ f
  new_ne a h e = h (ap level e ∙ q.unused.0.0)

  table_ne : t ≢ f
  table_ne = new_ne t (omega arith)

  linked-IsFree : IsFree (linked t i f s) fs
  linked-IsFree =
      let others = q.free.frames.1.1.1.0 in
      set_entry-IsFree t i _ (clear_table f (take_frame f s)) fs table_aligned lt
        (not_in_use level t fs (omega arith) q.unused.1)
        (clear_table-IsFree f (take_frame f s) fs new_aligned others
          (take_frame-IsFree f s fs q.free).0)

  linked-at : entry (linked t i f s) t i ≡ bit_or f 7
  linked-at = entry_same t i _ (clear_table f (take_frame f s))

  levels_after : ℕ → ℕ
  levels_after = with_level f (suc l) level

  keeps_levels : (a : ℕ) → level a ≢ 0 → levels_after a ≡ level a
  unfolding levels_after
  keeps_levels a h = with_level_other f (suc l) level a (new_ne a h)

  levels_at_new : levels_after f ≡ suc l
  unfolding levels_after
  levels_at_new = with_level_same f (suc l) level

  new_points : PointsTo levels_after (bit_or f 7) (suc (suc l))
  new_points here small =
      ap (λ a. suc (levels_after a)) (new_entry f new_aligned q.unused.0.1).2 ∙ ap suc levels_at_new

  old_points :
      (e t' : ℕ) → 2 ≤ level t' → PointsTo level e (level t') → PointsTo levels_after e (level t')
  old_points e t' high h here small =
      let down = h here small in ap suc (keeps_levels (frame_of e) (omega (arith, down))) ∙ down

  linked-points :
      (t' i' : ℕ)
      → i' < 512
      → 2 ≤ levels_after t'
      → PointsTo levels_after (entry (linked t i f s) t' i') (levels_after t')
  unfolding levels_after
  linked-points t' i' lt' high = elim (Bool-cases (t' == f)) [
    | inl new ↦
        let e : t' ≡ f = ground arith in
        let zero_entry : entry (linked t i f s) t' i' ≡ 0 =
          ap (λ a. entry (linked t i f s) a i') e
          ∙ linked_new t i f i' s table_aligned new_aligned lt lt' (λ z. table_ne (sym z)) in
        subst (λ e. PointsTo levels_after e (levels_after t')) (sym zero_entry) (λ here. cc here)
    | inr old ↦
        let ne : t' ≢ f = ground arith in
        let same : levels_after t' ≡ level t' = with_level_other f (suc l) level t' ne in
        let there : 2 ≤ level t' = omega (arith, same) in
        elim (Bool-cases (t' == t && i' == i)) [
          | inl here ↦
              let e : t' ≡ t = ground arith in
              let k : i' ≡ i = ground arith in
              let entry_new : entry (linked t i f s) t' i' ≡ bit_or f 7 =
                ap (λ a. entry (linked t i f s) a i') e
                ∙ ap (λ a. entry (linked t i f s) t a) k
                ∙ linked-at in
              subst (λ e. PointsTo levels_after e (levels_after t')) (sym entry_new)
                (subst (PointsTo levels_after (bit_or f 7)) (sym (same ∙ ap level e ∙ at))
                  new_points)
          | inr elsewhere ↦
              let apart : (t' ≢ t) ⊎ (i' ≢ i) = ground arith in
              subst (λ e. PointsTo levels_after e (levels_after t'))
                (sym (
                  linked_other t i f t' i' s table_aligned new_aligned (q.aligned t' (omega arith))
                    lt lt' ne apart))
                (subst (PointsTo levels_after (entry s t' i')) (sym same)
                  (old_points (entry s t' i') t' there (q.points t' i' lt' there)))
        ]
  ]

  linked-IsPaged : IsPaged (linked t i f s) levels_after fs
  unfolding levels_after
  linked-IsPaged = record {
    free = linked-IsFree;
    unused = unused_later f (suc l) level fs q.free.frames.1.1.1.0 q.unused.1;
    aligned = λ a h. elim (Bool-cases (a == f)) [
      | inl new ↦ let e : a ≡ f = ground arith in ap (λ a. a % 4096) e ∙ new_aligned
      | inr old ↦
          let ne : a ≢ f = ground arith in
          q.aligned a (λ z. h (with_level_other f (suc l) level a ne ∙ z))
    ];
    points = linked-points;
  }

  made : is_present (entry s t i) ≡ false → Ensured t i l s level (f ∷ fs)
  unfolding ensure_table
  made absent = record {
    state = linked t i f s;
    levels = levels_after;
    frames = fs;
    result = rw absent (
        ap (λ (r : ℕ × Pmm). link_table t i r.0 r.1) (alloc_first f s fs q.free)
        ∙ rw (≢→==_false f 0 q.free.frames.1.0) refl);
    paged = linked-IsPaged;
    left = omega arith;
    keeps_level = keeps_levels;
    keeps_entry = λ t' i' h lt' apart.
        linked_other t i f t' i' s table_aligned new_aligned (q.aligned t' h) lt lt' (new_ne t' h)
          apart;
    present = ap is_present linked-at ∙ (new_entry f new_aligned q.unused.0.1).0;
    below =
        ap (λ e. levels_after (frame_of e)) linked-at
        ∙ ap levels_after (new_entry f new_aligned q.unused.0.1).2
        ∙ levels_at_new;
    small = λ _. ap is_huge linked-at ∙ (new_entry f new_aligned q.unused.0.1).1;
    unchanged = λ here. cc (sym here ∙ absent);
    fresh = λ _ i' lt'.
        ap (λ e. entry (linked t i f s) (frame_of e) i') linked-at
        ∙ ap (λ a. entry (linked t i f s) a i') (new_entry f new_aligned q.unused.0.1).2
        ∙ linked_new t i f i' s table_aligned new_aligned lt lt' (λ z. table_ne (sym z));
  }

-- A table is found or made below an entry that is no huge page, while a frame is free.
pub ensure_table-Ensured :
    (t i l : ℕ) (s : Pmm) (level : ℕ → ℕ) (fs : List ℕ)
    → IsPaged s level fs
    → 0 < length fs
    → level t ≡ suc (suc l)
    → i < 512
    → (l ≡ 0 → is_huge (entry s t i) ≡ false)
    → Ensured t i l s level fs
ensure_table-Ensured t i l s level [] q some_free at lt small = absurd (omega arith)
ensure_table-Ensured t i l s level (f ∷ fs) q some_free at lt small =
    elim (Bool-cases (is_present (entry s t i))) [
      | inl here ↦ found t i l s level (f ∷ fs) q at lt small here
      | inr absent ↦ made t i l f s level fs q at lt absent
    ]
