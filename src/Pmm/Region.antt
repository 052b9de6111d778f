-- ===== src/Pmm/Region.antt =====
-- `register_region`: which frames of a region become free, by its loop over aligned frames.
use amazing_os.Base.{
  ℕ, zero, suc, ◌+◌, ◌-◌, ◌%◌, ◌^◌, ◌≤◌, ◌<◌, ◌≡◌, ◌↔◌, ◌≢◌, ◌⊎◌, inl, inr, refl, ◌∙◌, ap, sym,
  Bool, true, false, some, List, [], ◌∷◌, arith, ◌==◌, leb, if◌then◌else◌, All, Bool-cases,
}
use native.Mathlib.Nat.{mod-eq_of_lt}
use amazing_os.Pmm.{
  Module, Pmm, pmm_free_frame, Guards, in_module, is_guarded, region_loop, align_down,
  register_region,
}
use amazing_os.Pmm.FreeList.{IsFree, Frames, pmm_free_frame-IsFree}

abbrev pub In : ℕ → List ℕ → Type 0
In f [] = ⊥
In f (g ∷ fs) = (f ≡ g) ⊎ In f fs

abbrev Usable : Guards → List Module → (frame end f : ℕ) → Type 0
Usable g ms frame end f = (f % 4096 ≡ 0) × (frame ≤ f) × (f < end) × (is_guarded g ms f ≡ false)

-- What a registered region adds to the free list.
abbrev Registered : Guards → List Module → (frame end : ℕ) → List ℕ → Pmm → Type 0
Registered g ms frame end fs s' =
    (all : List ℕ) × IsFree s' all
    × ((f : ℕ) → In f all → In f fs ⊎ Usable g ms frame end f)
    × ((f : ℕ) → In f fs ⊎ Usable g ms frame end f → In f all)

outside_ne :
    (frame end : ℕ) (fs : List ℕ)
    → frame < end
    → All (λ f. (f < frame) ⊎ (end ≤ f)) fs
    → All (λ f. f ≢ frame) fs
outside_ne frame end [] lt h = tt
outside_ne frame end (f ∷ fs) lt h = (omega (arith, h.0), outside_ne frame end fs lt h.1)

outside_next :
    (frame end : ℕ) (fs : List ℕ)
    → All (λ f. (f < frame) ⊎ (end ≤ f)) fs
    → All (λ f. (f < frame + 4096) ⊎ (end ≤ f)) fs
outside_next frame end [] h = tt
outside_next frame end (f ∷ fs) h = (omega (arith, h.0), outside_next frame end fs h.1)

above_low : (g : Guards) (ms : List Module) (f : ℕ) → is_guarded g ms f ≡ false → f ≢ 0
unfolding is_guarded
above_low g ms f h = ground arith

next_aligned : (frame : ℕ) → frame % 4096 ≡ 0 → (frame + 4096) % 4096 ≡ 0
next_aligned frame h = omega arith

first_or_later :
    (g : Guards) (ms : List Module) (frame end f : ℕ)
    → frame % 4096 ≡ 0
    → Usable g ms frame end f
    → (f ≡ frame) ⊎ Usable g ms (frame + 4096) end f
first_or_later g ms frame end f a (b, le, lt, u) = elim (Bool-cases (f == frame)) [
  | inl same ↦ inl (ground arith)
  | inr other ↦ let ne : f ≢ frame = ground arith in inr (b, omega arith, lt, u)
]

widen_range :
    (g : Guards) (ms : List Module) (frame end f : ℕ)
    → Usable g ms (frame + 4096) end f
    → Usable g ms frame end f
widen_range g ms frame end f (b, le, lt, u) = (b, omega arith, lt, u)

free_modules : (frame : ℕ) (s : Pmm) → (pmm_free_frame frame s).modules ≡ s.modules
unfolding pmm_free_frame
free_modules frame s = elim (Bool-cases (frame % 4096 == 0)) [ inl e ↦ rw e | inr e ↦ rw e ]

-- A frame that is passed over, and one that is taken in.
skip_Registered :
    (g : Guards) (ms : List Module) (frame end : ℕ) (fs : List ℕ) (s' : Pmm)
    → frame % 4096 ≡ 0
    → is_guarded g ms frame ≡ true
    → Registered g ms (frame + 4096) end fs s'
    → Registered g ms frame end fs s'
skip_Registered g ms frame end fs s' a guarded (all, q, to, from) = (
  all,
  q,
  (λ f h. elim (to f h) [ inl old ↦ inl old | inr new ↦ inr (widen_range g ms frame end f new) ]),
  λ f h. elim h [
    | inl old ↦ from f (inl old)
    | inr new ↦ elim (first_or_later g ms frame end f a new) [
      | inl here ↦ cc (sym guarded ∙ ap (is_guarded g ms) (sym here) ∙ new.3)
      | inr later ↦ from f (inr later)
    ]
  ],
)

add_Registered :
    (g : Guards) (ms : List Module) (frame end : ℕ) (fs : List ℕ) (s' : Pmm)
    → frame % 4096 ≡ 0
    → frame < end
    → is_guarded g ms frame ≡ false
    → Registered g ms (frame + 4096) end (frame ∷ fs) s'
    → Registered g ms frame end fs s'
add_Registered g ms frame end fs s' a lt usable (all, q, to, from) = (
  all,
  q,
  (λ f h. elim (to f h) [
    | inl (inl here) ↦ inr (rw here (a, omega arith, lt, usable))
    | inl (inr old) ↦ inl old
    | inr new ↦ inr (widen_range g ms frame end f new)
  ]),
  λ f h. elim h [
    | inl old ↦ from f (inl (inr old))
    | inr new ↦ elim (first_or_later g ms frame end f a new) [
      | inl here ↦ from f (inl (inl here))
      | inr later ↦ from f (inr later)
    ]
  ],
)

region_loop-step :
    (k : ℕ) (g : Guards) (frame end : ℕ) (b : Bool) (s : Pmm)
    → leb end frame ≡ false
    → is_guarded g s.modules frame ≡ b
    → (frame + 4096) % 2 ^ 64 ≡ frame + 4096
    → region_loop (suc k) g frame end s
      ≡ region_loop k g (frame + 4096) end (if b then s else pmm_free_frame frame s)
unfolding region_loop
region_loop-step k g frame end b s under guard next = rw (under, next, guard) refl

module _ (g : Guards) (ms : List Module) (end : ℕ) (wide : end + 4096 ≤ 2 ^ 64) where
  region_loop_lem :
      (fuel frame : ℕ) (s : Pmm) (fs : List ℕ)
      → s.modules ≡ ms
      → IsFree s fs
      → frame % 4096 ≡ 0
      → All (λ f. (f < frame) ⊎ (end ≤ f)) fs
      → end - frame < fuel
      → (s' : Pmm) × (region_loop fuel g frame end s ≡ some s') × Registered g ms frame end fs s'
  unfolding region_loop
  region_loop_lem zero frame s fs same q aligned out enough = absurd (omega arith)
  region_loop_lem (suc k) frame s fs same q aligned out enough = elim (Bool-cases (leb end frame)) [
    | inl over ↦
        let past : end ≤ frame = ground arith in
        (
          s,
          rw over,
          (
            fs,
            q,
            (λ f h. inl h),
            λ f h. elim h [ inl old ↦ old | inr (b, le, lt, u) ↦ absurd (omega arith) ],
          ),
        )
    | inr under ↦
        let below : frame < end = ground arith in
        let next : (frame + 4096) % 2 ^ 64 ≡ frame + 4096 = mod-eq_of_lt (omega arith) in
        let covers : is_guarded g s.modules frame ≡ is_guarded g ms frame =
          ap (λ m. is_guarded g m frame) same in
        elim (Bool-cases (is_guarded g ms frame)) [
          | inl guarded ↦
              let (s', e, r) =
                region_loop_lem k (frame + 4096) s fs same q (next_aligned frame aligned)
                  (outside_next frame end fs out) (omega arith) in
              (
                s',
                region_loop-step k g frame end true s under (covers ∙ guarded) next ∙ e,
                skip_Registered g ms frame end fs s' aligned guarded r,
              )
          | inr usable ↦
              let (s', e, r) =
                region_loop_lem k (frame + 4096) (pmm_free_frame frame s) (frame ∷ fs)
                  (free_modules frame s ∙ same)
                  (pmm_free_frame-IsFree frame s fs q (above_low g ms frame usable) aligned
                    (outside_ne frame end fs below out))
                  (next_aligned frame aligned) (inl (omega arith), outside_next frame end fs out)
                  (omega arith) in
              (
                s',
                region_loop-step k g frame end false s under (covers ∙ usable) next ∙ e,
                add_Registered g ms frame end fs s' aligned below usable r,
              )
        ]
  ]

-- Frames that no guard covers: above 1 MB, outside the kernel, the boot information and all modules.
abbrev pub Allowed : Guards → List Module → ℕ → Type 0
Allowed g ms f =
    (0x100000 ≤ f)
    × ((f < g.kern_start) ⊎ (g.kern_end ≤ f))
    × ((f < g.guard_start) ⊎ (g.guard_end ≤ f))
    × All (λ m. (f < m.start) ⊎ (m.end ≤ f)) ms

in_module_lem :
    (f : ℕ) (ms : List Module)
    → (in_module f ms ≡ false) ↔ All (λ m. (f < m.start) ⊎ (m.end ≤ f)) ms
unfolding in_module
in_module_lem f [] = ((λ _. tt), λ _. refl)
in_module_lem f (m ∷ ms) = ground (arith, in_module_lem f ms)

is_guarded-Allowed :
    (g : Guards) (ms : List Module) (f : ℕ) → (is_guarded g ms f ≡ false) ↔ Allowed g ms f
unfolding is_guarded
is_guarded-Allowed g ms f = ground (arith, in_module_lem f ms)

abbrev AllowedIn : Guards → List Module → (frame end f : ℕ) → Type 0
AllowedIn g ms frame end f = (f % 4096 ≡ 0) × (frame ≤ f) × (f < end) × Allowed g ms f

region_loop-IsFree :
    (g : Guards) (end fuel frame : ℕ) (s : Pmm) (fs : List ℕ)
    → end + 4096 ≤ 2 ^ 64
    → IsFree s fs
    → frame % 4096 ≡ 0
    → All (λ f. (f < frame) ⊎ (end ≤ f)) fs
    → end - frame < fuel
    → (s' : Pmm) × (region_loop fuel g frame end s ≡ some s')
      × (all : List ℕ) × IsFree s' all
      × ((f : ℕ) → In f all → In f fs ⊎ AllowedIn g s.modules frame end f)
      × ((f : ℕ) → In f fs ⊎ AllowedIn g s.modules frame end f → In f all)
region_loop-IsFree g end fuel frame s fs wide q aligned out enough =
    let (s', e, (all, whole, to, from)) =
      region_loop_lem g s.modules end wide fuel frame s fs refl q aligned out enough in
    (
      s',
      e,
      all,
      whole,
      (λ f h. elim (to f h) [
        | inl old ↦ inl old
        | inr (a, le, lt, u) ↦ inr (a, le, lt, (is_guarded-Allowed g s.modules f).0 u)
      ]),
      λ f h. elim h [
        | inl old ↦ from f (inl old)
        | inr (a, le, lt, u) ↦ from f (inr (a, le, lt, (is_guarded-Allowed g s.modules f).1 u))
      ],
    )

-- A frame that lies wholly in the region, and that no guard covers.
abbrev pub WholeIn : Guards → List Module → (base len f : ℕ) → Type 0
WholeIn g ms base len f = (f % 4096 ≡ 0) × (base ≤ f) × (f + 4096 ≤ base + len) × Allowed g ms f

outside_aligned :
    (w : ℕ → ℕ) (p base len : ℕ) (fs : List ℕ)
    → Frames w p fs
    → All (λ f. (f < base) ⊎ (base + len < f + 4096)) fs
    → All (λ f. (f < align_down (base + 4095)) ⊎ (align_down (base + len) ≤ f)) fs
outside_aligned w p base len [] c h = tt
outside_aligned w p base len (f ∷ fs) c h =
    let aligned = c.1.1.0 in
    (
      elim h.0 [ inl low ↦ inl (omega arith) | inr high ↦ inr (omega arith) ],
      outside_aligned w (w f) base len fs c.1.1.1.1 h.1,
    )

-- Registering a region that ends at least a page before 2 ^ 64, and in which no free frame lies wholly,
-- makes free, besides the frames that were free, just the aligned frames that lie wholly in the region
-- and that no guard covers, wherever the region begins and ends. The free list then holds no frame twice
-- and its count is right. Fuel for one step more than the region has bytes is enough.
pub register_region-IsFree :
    (g : Guards) (base len fuel : ℕ) (s : Pmm) (fs : List ℕ)
    → base + len + 4096 ≤ 2 ^ 64
    → IsFree s fs
    → All (λ f. (f < base) ⊎ (base + len < f + 4096)) fs
    → len < fuel
    → (s' : Pmm) × (register_region fuel base len g s ≡ some s')
      × (all : List ℕ) × IsFree s' all
      × ((f : ℕ) → In f all → In f fs ⊎ WholeIn g s.modules base len f)
      × ((f : ℕ) → In f fs ⊎ WholeIn g s.modules base len f → In f all)
unfolding register_region
register_region-IsFree g base len fuel s fs wide q out enough =
    let frame = align_down (base + 4095) in
    let end = align_down (base + len) in
    let up : (base + 4095) % 2 ^ 64 ≡ base + 4095 = mod-eq_of_lt (omega arith) in
    let down : (base + len) % 2 ^ 64 ≡ base + len = mod-eq_of_lt (omega arith) in
    let (s', e, all, whole, to, from) =
      region_loop-IsFree g end fuel frame s fs (omega arith) q (omega arith)
        (outside_aligned s.words s.free_list_head base len fs q.frames out) (omega arith) in
    (
      s',
      ap (λ n. region_loop fuel g (align_down n) (align_down ((base + len) % 2 ^ 64)) s) up
          ∙ ap (λ n. region_loop fuel g frame (align_down n) s) down
          ∙ e,
      all,
      whole,
      (λ f h. elim (to f h) [
        | inl old ↦ inl old
        | inr (a, le, lt, u) ↦ inr (a, omega arith, omega arith, u)
      ]),
      λ f h. elim h [
        | inl old ↦ from f (inl old)
        | inr (a, le, lt, u) ↦ from f (inr (a, omega arith, omega arith, u))
      ],
    )
