-- ===== src/Vmm/Tables.antt =====
-- Well-formed page tables: each table has a level, and its entries lead to tables one level down.
use amazing_os.Base.{
  ℕ, suc, ◌+◌, ◌%◌, ◌^◌, ◌≤◌, ◌<◌, ◌≡◌, ◌≢◌, ◌⊎◌, refl, ◌∙◌, sym, true, false, List, arith, length,
  All,
}
use amazing_os.Pmm.{Pmm}
use amazing_os.Pmm.FreeList.{IsFree}
use amazing_os.Vmm.{is_present, is_huge, frame_of, entry, ensure_table}

-- What an entry of a table of level `l` leads to, unless it is a huge page.
abbrev pub PointsTo : (ℕ → ℕ) → (e l : ℕ) → Type 0
PointsTo level e l =
    is_present e ≡ true → (l ≡ 2 → is_huge e ≡ false) → suc (level (frame_of e)) ≡ l

-- `level t` is 4 for a PML4 down to 1 for a page table, and 0 for what is no table.
pub record IsPaged (s : Pmm) (level : ℕ → ℕ) (fs : List ℕ) : Type 0 where
  pub free : IsFree s fs
  pub unused : All (λ f. (level f ≡ 0) × (f < 2 ^ 52)) fs
  pub aligned : (t : ℕ) → level t ≢ 0 → t % 4096 ≡ 0
  pub points : (t i : ℕ) → i < 512 → 2 ≤ level t → PointsTo level (entry s t i) (level t)

-- What a table that is made or found is good for.
pub record Ensured (t i l : ℕ) (s : Pmm) (level : ℕ → ℕ) (fs : List ℕ) : Type 0 where
  pub state : Pmm
  pub levels : ℕ → ℕ
  pub frames : List ℕ
  pub result : ensure_table t i s ≡ (true, state)
  pub paged : IsPaged state levels frames
  pub left : length fs ≤ length frames + 1
  pub keeps_level : (a : ℕ) → level a ≢ 0 → levels a ≡ level a
  pub keeps_entry :
      (t' i' : ℕ)
      → level t' ≢ 0
      → i' < 512
      → (t' ≢ t) ⊎ (i' ≢ i)
      → entry state t' i' ≡ entry s t' i'
  pub present : is_present (entry state t i) ≡ true
  pub below : levels (frame_of (entry state t i)) ≡ suc l
  pub small : l ≡ 0 → is_huge (entry state t i) ≡ false
  pub unchanged : is_present (entry s t i) ≡ true → state ≡ s
  pub fresh :
      is_present (entry s t i) ≡ false
      → (i' : ℕ) → i' < 512
      → entry state (frame_of (entry state t i)) i' ≡ 0

-- An entry that is present is used as it is.
pub found :
    (t i l : ℕ) (s : Pmm) (level : ℕ → ℕ) (fs : List ℕ)
    → IsPaged s level fs
    → level t ≡ suc (suc l)
    → i < 512
    → (l ≡ 0 → is_huge (entry s t i) ≡ false)
    → is_present (entry s t i) ≡ true
    → Ensured t i l s level fs
unfolding ensure_table
found t i l s level fs q at lt small here = record {
  state = s;
  levels = level;
  frames = fs;
  result = rw here refl;
  paged = q;
  left = omega arith;
  keeps_level = λ a h. refl;
  keeps_entry = λ t' i' h k ne. refl;
  present = here;
  below = omega (arith, q.points t i lt (omega arith) here (λ e. small (omega arith)));
  small = small;
  unchanged = λ _. refl;
  fresh = λ absent. cc (sym here ∙ absent);
}
