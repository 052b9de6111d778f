-- ===== src/Scheduler/Exit/Unregister.antt =====
-- The list of all threads when a thread is taken from it.
use amazing_os.Base.{
  ℕ, zero, suc, ◌+◌, ◌<◌, ◌≡◌, ◌≢◌, refl, ◌∙◌, sym, Bool, true, false, List, [], ◌∷◌, ◌++◌, some,
  arith, length, ◌==◌, if◌then◌else◌, ≢→==_false,
}
use amazing_os.Scheduler.{Thread, Scheduler, set_all_next}
use amazing_os.Base.Chain.{
  Chain, NotIn, Distinct, update, update_same, update_other, Chain-frame, All-of, update-frame,
}
use amazing_os.Scheduler.Exit.{find_before, bypass, scheduler_unregister_thread}

abbrev pub all_links : Scheduler → ℕ → ℕ
all_links s a = (s.threads a).all_next

-- The list of all threads holds `ts`.
pub record IsRegistry (s : Scheduler) (ts : List ℕ) : Type 0 where
  pub chain : Chain (all_links s) s.all_threads_head ts
  pub distinct : Distinct ts

if-all_next :
    (b : Bool) (v w : Thread)
    → (if b then v else w).all_next ≡ (if b then v.all_next else w.all_next)
if-all_next true v w = refl
if-all_next false v w = refl

NotIn-middle : (a t : ℕ) (xs ys : List ℕ) → NotIn a (xs ++ t ∷ ys) → t ≢ a
NotIn-middle a t [] ys h = h.0
NotIn-middle a t (x ∷ xs) ys h = NotIn-middle a t xs ys h.1

NotIn-without : (a t : ℕ) (xs ys : List ℕ) → NotIn a (xs ++ t ∷ ys) → NotIn a (xs ++ ys)
NotIn-without a t [] ys h = h.1
NotIn-without a t (x ∷ xs) ys h = (h.0, NotIn-without a t xs ys h.1)

Distinct-without : (t : ℕ) (xs ys : List ℕ) → Distinct (xs ++ t ∷ ys) → Distinct (xs ++ ys)
Distinct-without t [] ys d = d.1
Distinct-without t (x ∷ xs) ys d = (NotIn-without x t xs ys d.0, Distinct-without t xs ys d.1)

-- The search finds the thread before `t`, and a link from there around `t` leaves all others.
before_lem :
    (fuel p u t : ℕ) (s : Scheduler) (xs ys : List ℕ)
    → Chain (all_links s) p ((u ∷ xs) ++ t ∷ ys)
    → Distinct ((u ∷ xs) ++ t ∷ ys)
    → length xs + 1 < fuel
    → (w : ℕ) × (find_before fuel p t s ≡ some w)
      × (w ≢ 0)
      × ((a : ℕ) → NotIn a ((u ∷ xs) ++ t ∷ ys) → w ≢ a)
      × Chain (update (all_links s) w (all_links s t)) p ((u ∷ xs) ++ ys)
unfolding find_before
before_lem zero p u t s xs ys c d enough = absurd (omega arith)
before_lem (suc k) p u t s [] ys c d enough =
    let L = all_links s in
    let here : (L u == t) ≡ true = ground arith in
    let after : update L u (L t) u ≡ L t = update_same L u (L t) in
    (
      u,
      rw (c.0, ≢→==_false u 0 c.1.0, here),
      c.1.0,
      (λ a h. h.0),
      (
        c.0,
        (
          c.1.0,
          rw after (
              Chain-frame L (update L u (L t)) (L t) ys (update-frame L u (L t) ys d.0.1)
                c.1.1.1.1),
        ),
      ),
    )
before_lem (suc k) p u t s (v ∷ xs) ys c d enough =
    let L = all_links s in
    let not_yet : (L u == t) ≡ false =
      ≢→==_false (L u) t (λ e. NotIn-middle v t xs ys d.1.0 (sym e ∙ c.1.1.0)) in
    let (w, found, nz, inside, rest) = before_lem k (L u) v t s xs ys c.1.1 d.1 (omega arith) in
    let kept : update L w (L t) u ≡ L u = update_other L w (L t) u (λ e. inside u d.0 (sym e)) in
    (
      w,
      rw (c.0, ≢→==_false u 0 c.1.0, not_yet) found,
      nz,
      (λ a h. inside a h.1),
      (c.0, (c.1.0, rw kept rest)),
    )

-- A thread that is in the list of all threads is taken out of it, wherever it stands, and the others
-- stay in their order. Fuel for one step more than the list has threads is enough.
pub scheduler_unregister_thread-IsRegistry :
    (fuel t : ℕ) (s : Scheduler) (xs ys : List ℕ)
    → IsRegistry s (xs ++ t ∷ ys)
    → length xs + 1 < fuel
    → (s' : Scheduler) × (scheduler_unregister_thread fuel t s ≡ some s') × IsRegistry s' (xs ++ ys)
unfolding scheduler_unregister_thread
scheduler_unregister_thread-IsRegistry fuel t s [] ys r enough =
    let here : (s.all_threads_head == t) ≡ true = ground (arith, r.chain) in
    (
      record s { all_threads_head = all_links s t },
      rw here,
      record { chain = r.chain.1.1; distinct = r.distinct.1 },
    )
scheduler_unregister_thread-IsRegistry fuel t s (u ∷ xs) ys r enough =
    let other : (s.all_threads_head == t) ≡ false =
      ≢→==_false _ t (λ e. NotIn-middle u t xs ys r.distinct.0 (sym e ∙ r.chain.0)) in
    let (w, found, nz, inside, rest) =
      before_lem fuel s.all_threads_head u t s xs ys r.chain r.distinct (omega arith) in
    (
      bypass w t s,
      rw (other, found, scheduler_unregister_thread),
      rw (≢→==_false w 0 nz) (record {
        chain =
            Chain-frame _ (all_links (set_all_next w (all_links s t) s)) s.all_threads_head
              ((u ∷ xs) ++ ys) (All-of ((u ∷ xs) ++ ys) (λ a. sym (if-all_next (a == w) _ _))) rest;
        distinct = Distinct-without t (u ∷ xs) ys r.distinct;
      }),
    )
