-- ===== src/Vmm/Entries.antt =====
-- The words of one table, against those of other tables and of the free frames.
use amazing_os.Base.{
  ℕ, ◌+◌, ◌*◌, ◌%◌, ◌^◌, ◌<◌, ◌≡◌, ◌≢◌, ◌⊎◌, refl, ◌∙◌, ap, sym, true, false, List, [], ◌∷◌, arith,
  ◌==◌, if◌then◌else◌, All,
}
use amazing_os.Pmm.{Pmm, within}
use amazing_os.Vmm.{entry, set_entry, clear_table}
use amazing_os.Pmm.FreeList.{Frames, IsFree, Frames-frame, zero_outside}

-- The entry of a table that is written, among the entries of all tables.
pub entry_other :
    (t i e t' i' : ℕ) (s : Pmm)
    → t % 4096 ≡ 0
    → t' % 4096 ≡ 0
    → i < 512
    → i' < 512
    → (t' ≢ t) ⊎ (i' ≢ i)
    → entry (set_entry t i e s) t' i' ≡ entry s t' i'
entry_other t i e t' i' s a a' lt lt' ne =
    let other : (t' + 8 * i' == t + 8 * i) ≡ false = ground arith in rw other refl

pub entry_same : (t i e : ℕ) (s : Pmm) → entry (set_entry t i e s) t i ≡ e
entry_same t i e s = let same : (t + 8 * i == t + 8 * i) ≡ true = ground arith in rw same refl

pub clear_other :
    (f t' i' : ℕ) (s : Pmm)
    → f % 4096 ≡ 0
    → t' % 4096 ≡ 0
    → i' < 512
    → t' ≢ f
    → entry (clear_table f s) t' i' ≡ entry s t' i'
clear_other f t' i' s a a' lt' ne =
    let outside : within f (f + 4096) (t' + 8 * i') ≡ false = ground arith in rw outside refl

pub clear_same : (f i : ℕ) (s : Pmm) → i < 512 → entry (clear_table f s) f i ≡ 0
clear_same f i s lt =
    let inside : within f (f + 4096) (f + 8 * i) ≡ true = ground arith in rw inside refl

entry_outside :
    (w : ℕ → ℕ) (t i e p : ℕ) (fs : List ℕ)
    → t % 4096 ≡ 0
    → i < 512
    → All (λ g. g ≢ t) fs
    → Frames w p fs
    → All (λ g. w g ≡ (if g == t + 8 * i then e else w g)) fs
entry_outside w t i e p [] a lt h c = tt
entry_outside w t i e p (g ∷ fs) a lt h c =
    let other : (g == t + 8 * i) ≡ false = ground (arith, h.0, c.1.1.0) in
    (rw other refl, entry_outside w t i e (w g) fs a lt h.1 c.1.1.1.1)

pub set_entry-IsFree :
    (t i e : ℕ) (s : Pmm) (fs : List ℕ)
    → t % 4096 ≡ 0
    → i < 512
    → All (λ g. g ≢ t) fs
    → IsFree s fs
    → IsFree (set_entry t i e s) fs
set_entry-IsFree t i e s fs a lt h q = record {
  frames =
      Frames-frame s.words _ s.free_list_head fs
        (entry_outside s.words t i e s.free_list_head fs a lt h q.frames) q.frames;
  counted = q.counted;
}

pub clear_table-IsFree :
    (f : ℕ) (s : Pmm) (fs : List ℕ)
    → f % 4096 ≡ 0
    → All (λ g. g ≢ f) fs
    → IsFree s fs
    → IsFree (clear_table f s) fs
clear_table-IsFree f s fs a h q = record {
  frames =
      Frames-frame s.words _ s.free_list_head fs
        (zero_outside s.words f s.free_list_head fs a h q.frames) q.frames;
  counted = q.counted;
}

pub not_in_use :
    (level : ℕ → ℕ) (t : ℕ) (fs : List ℕ)
    → level t ≢ 0
    → All (λ g. (level g ≡ 0) × (g < 2 ^ 52)) fs
    → All (λ g. g ≢ t) fs
not_in_use level t [] h k = tt
not_in_use level t (g ∷ fs) h k = ((λ e. h (ap level (sym e) ∙ k.0.0)), not_in_use level t fs h k.1)
