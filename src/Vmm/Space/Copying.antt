-- ===== src/Vmm/Space/Copying.antt =====
-- What the loops over the entries of a table do to every entry.
use amazing_os.Base.{
  ℕ, zero, suc, ◌+◌, ◌%◌, ◌≤◌, ◌<◌, ◌≡◌, ◌≢◌, inl, inr, ◌∙◌, ap, Bool, ◌&&◌, List, arith, ◌==◌, leb,
  ltb, if◌then◌else◌, All, Bool-cases,
}
use amazing_os.Pmm.{Pmm}
use amazing_os.Vmm.{entry, set_entry}
use amazing_os.Pmm.FreeList.{IsFree}
use amazing_os.Vmm.Entries.{set_entry-IsFree}
use amazing_os.Vmm.Space.{copy_entries, clear_entries}

abbrev pub in_range : (table i n t j : ℕ) → Bool
in_range table i n t j = t == table && leb i j && ltb j (i + n)

set_entry_at :
    (d i e t j : ℕ) (s : Pmm)
    → d % 4096 ≡ 0
    → t % 4096 ≡ 0
    → i < 512
    → j < 512
    → entry (set_entry d i e s) t j ≡ (if t == d && j == i then e else entry s t j)
set_entry_at d i e t j s a b lt lt' = ground arith

pub entry-copy_entries :
    (dest src i n t j : ℕ) (s : Pmm)
    → dest % 4096 ≡ 0
    → src % 4096 ≡ 0
    → t % 4096 ≡ 0
    → dest ≢ src
    → i + n ≤ 512
    → j < 512
    → entry (copy_entries dest src i n s) t j
      ≡ (if in_range dest i n t j then entry s src j else entry s t j)
unfolding copy_entries
entry-copy_entries dest src i zero t j s a b c ne lt lt' = ground arith
entry-copy_entries dest src i (suc n) t j s a b c ne lt lt' =
    let rest =
      entry-copy_entries dest src (suc i) n t j (set_entry dest i (entry s src i) s) a b c ne
        (omega arith) lt' in
    let here = set_entry_at dest i (entry s src i) t j s a c (omega arith) lt' in
    let there = set_entry_at dest i (entry s src i) src j s a b (omega arith) lt' in
    elim (Bool-cases (t == dest && j == i)) [
      | inr other ↦ rest ∙ ground (arith, here, there)
      | inl same ↦
          let k : j ≡ i = ground arith in rest ∙ ground (arith, here, there, ap (entry s src) k)
    ]

pub entry-clear_entries :
    (dest i n t j : ℕ) (s : Pmm)
    → dest % 4096 ≡ 0
    → t % 4096 ≡ 0
    → i + n ≤ 512
    → j < 512
    → entry (clear_entries dest i n s) t j ≡ (if in_range dest i n t j then 0 else entry s t j)
unfolding clear_entries
entry-clear_entries dest i zero t j s a c lt lt' = ground arith
entry-clear_entries dest i (suc n) t j s a c lt lt' =
    let rest =
      entry-clear_entries dest (suc i) n t j (set_entry dest i 0 s) a c (omega arith) lt' in
    let here = set_entry_at dest i 0 t j s a c (omega arith) lt' in rest ∙ ground (arith, here)

pub copy_entries-IsFree :
    (dest src i n : ℕ) (s : Pmm) (fs : List ℕ)
    → dest % 4096 ≡ 0
    → i + n ≤ 512
    → All (λ g. g ≢ dest) fs
    → IsFree s fs
    → IsFree (copy_entries dest src i n s) fs
unfolding copy_entries
copy_entries-IsFree dest src i zero s fs a lt h q = q
copy_entries-IsFree dest src i (suc n) s fs a lt h q =
    copy_entries-IsFree dest src (suc i) n _ fs a (omega arith) h
      (set_entry-IsFree dest i (entry s src i) s fs a (omega arith) h q)

pub clear_entries-IsFree :
    (dest i n : ℕ) (s : Pmm) (fs : List ℕ)
    → dest % 4096 ≡ 0
    → i + n ≤ 512
    → All (λ g. g ≢ dest) fs
    → IsFree s fs
    → IsFree (clear_entries dest i n s) fs
unfolding clear_entries
clear_entries-IsFree dest i zero s fs a lt h q = q
clear_entries-IsFree dest i (suc n) s fs a lt h q =
    clear_entries-IsFree dest (suc i) n _ fs a (omega arith) h
      (set_entry-IsFree dest i 0 s fs a (omega arith) h q)
