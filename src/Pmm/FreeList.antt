-- ===== src/Pmm/FreeList.antt =====
-- The free list as a sequence of frames: what allocation and release do to it.
use amazing_os.Base.{
  ℕ, ◌+◌, ◌%◌, ◌<◌, ◌≡◌, ◌≢◌, refl, ◌∙◌, ap, true, false, List, [], ◌∷◌, arith, length, ◌==◌,
  if◌then◌else◌, All, ≢→==_false,
}
use amazing_os.Pmm.{Pmm, within, take_frame, alloc_at, pmm_alloc_frame, pmm_free_frame}

-- The frames that the words lead to from `p` on: aligned, and none twice.
abbrev pub Frames : (ℕ → ℕ) → ℕ → List ℕ → Type 0
Frames w p [] = p ≡ 0
Frames w p (f ∷ fs) =
    (p ≡ f) × ((f ≢ 0) × ((f % 4096 ≡ 0) × (All (λ g. g ≢ f) fs × Frames w (w f) fs)))

-- The free list holds `fs`, and its count is right.
pub record IsFree (s : Pmm) (fs : List ℕ) : Type 0 where
  pub frames : Frames s.words s.free_list_head fs
  pub counted : s.free_frames_count ≡ length fs

pub Frames-frame :
    (w v : ℕ → ℕ) (p : ℕ) (fs : List ℕ) → All (λ f. w f ≡ v f) fs → Frames w p fs → Frames v p fs
Frames-frame w v p [] same c = c
Frames-frame w v p (f ∷ fs) same c = (
  c.0,
  (c.1.0, (c.1.1.0, (c.1.1.1.0, Frames-frame w v (v f) fs same.1 (rw same.0 at c.1.1.1.1)))),
)

update_outside :
    (w : ℕ → ℕ) (f n : ℕ) (fs : List ℕ)
    → All (λ g. g ≢ f) fs
    → All (λ g. w g ≡ (if g == f then n else w g)) fs
update_outside w f n [] h = tt
update_outside w f n (g ∷ fs) h = (ground (arith, h.0), update_outside w f n fs h.1)

-- Another aligned frame does not begin within this one.
apart : (f g : ℕ) → f % 4096 ≡ 0 → g % 4096 ≡ 0 → g ≢ f → within f (f + 4096) g ≡ false
apart f g a b ne = ground arith

pub zero_outside :
    (w : ℕ → ℕ) (f p : ℕ) (fs : List ℕ)
    → f % 4096 ≡ 0
    → All (λ g. g ≢ f) fs
    → Frames w p fs
    → All (λ g. w g ≡ (if within f (f + 4096) g then 0 else w g)) fs
zero_outside w f p [] a h c = tt
zero_outside w f p (g ∷ fs) a h c =
    (rw (apart f g a c.1.1.0 h.0) refl, zero_outside w f (w g) fs a h.1 c.1.1.1.1)

-- An aligned frame that is not free and not frame 0 becomes the first one of the free list.
pub pmm_free_frame-IsFree :
    (frame : ℕ) (s : Pmm) (fs : List ℕ)
    → IsFree s fs
    → frame ≢ 0
    → frame % 4096 ≡ 0
    → All (λ g. g ≢ frame) fs
    → IsFree (pmm_free_frame frame s) (frame ∷ fs)
unfolding pmm_free_frame
pmm_free_frame-IsFree frame s fs q nz aligned new =
    let self : (frame == frame) ≡ true = ground arith in
    rw aligned (record {
      frames = (
        refl,
        (
          nz,
          (
            aligned,
            (
              new,
              rw self (
                  Frames-frame s.words _ s.free_list_head fs
                    (update_outside s.words frame s.free_list_head fs new) q.frames),
            ),
          ),
        ),
      );
      counted = omega (arith, q.counted);
    })

pub take_frame-IsFree :
    (f : ℕ) (s : Pmm) (fs : List ℕ)
    → IsFree s (f ∷ fs)
    → IsFree (take_frame f s) fs × ((i : ℕ) → i < 4096 → (take_frame f s).words (f + i) ≡ 0)
unfolding take_frame
take_frame-IsFree f s fs q =
    let (at, (nz, (aligned, (new, rest)))) = q.frames in
    (
      record {
        frames =
            Frames-frame s.words _ (s.words f) fs
              (zero_outside s.words f (s.words f) fs aligned new rest) rest;
        counted = omega (arith, q.counted);
      },
      λ i h. let inside : within f (f + 4096) (f + i) ≡ true = ground arith in rw inside refl,
    )

pub alloc_first :
    (f : ℕ) (s : Pmm) (fs : List ℕ) → IsFree s (f ∷ fs) → pmm_alloc_frame s ≡ (f, take_frame f s)
unfolding pmm_alloc_frame
alloc_first f s fs q = ap (λ p. alloc_at p s) q.frames.0 ∙ rw (≢→==_false f 0 q.frames.1.0) refl

-- Allocation takes the first frame of the free list, all of whose words are 0 then, and leaves the
-- others free in their order.
pub pmm_alloc_frame-IsFree :
    (f : ℕ) (s : Pmm) (fs : List ℕ)
    → IsFree s (f ∷ fs)
    → let (frame, s') = pmm_alloc_frame s in
      (frame ≡ f) × IsFree s' fs × ((i : ℕ) → i < 4096 → s'.words (f + i) ≡ 0)
pmm_alloc_frame-IsFree f s fs q =
    let (left, zeroed) = take_frame-IsFree f s fs q in
    rw (alloc_first f s fs q) (refl, left, zeroed)
