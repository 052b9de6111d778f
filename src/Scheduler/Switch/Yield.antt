-- ===== src/Scheduler/Switch/Yield.antt =====
-- A thread that yields, against the choice from the sequence of waiting threads.
use amazing_os.Base.{
  ℕ, ◌+◌, ◌<◌, ◌≡◌, ◌≢◌, inl, inr, refl, ◌∙◌, ap, sym, Bool, true, false, List, [], ◌∷◌, ◌++◌, some,
  arith, length, length-append, All, Bool-cases, ◌==◌, if◌then◌else◌,
}
use mathlib.Core.Path.{fun_ext}
use mathlib.Core.Option.{some-injective}
use amazing_os.Scheduler.{
  Thread, Scheduler, runnable, running, is_high, put, set_next, set_state, enqueue, dequeue,
}
use amazing_os.Base.Chain.{NotIn, Chain-frame, All-of}
use amazing_os.Scheduler.Choice.{
  take_next, take_next-append, take_next_calm, take_next_last, All-append,
}
use amazing_os.Scheduler.Queue.{IsQueue, links, urgency, enqueue-IsQueue, dequeue-IsQueue}
use amazing_os.Scheduler.Switch.{reap, switch_to, requeue, choose, schedule}

-- What the run queue consists of.
record SameQueue (s s' : Scheduler) : Type 0 where
  same_links : (a : ℕ) → links s a ≡ links s' a
  same_head : s'.run_queue_head ≡ s.run_queue_head
  same_tail : s'.run_queue_tail ≡ s.run_queue_tail

IsQueue-same : (s s' : Scheduler) (ts : List ℕ) → SameQueue s s' → IsQueue s ts → IsQueue s' ts
IsQueue-same s s' ts e q = record {
  chain =
      rw e.same_head
        (Chain-frame (links s) (links s') s.run_queue_head ts (All-of ts e.same_links) q.chain);
  distinct = q.distinct;
  tail_at = λ ne. e.same_tail ∙ q.tail_at ne;
}

if_lem :
    {B : Type 0} (f : Thread → B) (a t : ℕ) (v : Thread) (s : Scheduler)
    → f v ≡ f (s.threads t)
    → f ((put t v s).threads a) ≡ f (s.threads a)
if_lem f a t v s e = elim (Bool-cases (a == t)) [
  | inl same ↦
      let at : a ≡ t = ground arith in
      ap (λ (b : Bool). f (if b then v else s.threads a)) same
      ∙ e
      ∙ ap (λ b. f (s.threads b)) (sym at)
  | inr other ↦ ap (λ (b : Bool). f (if b then v else s.threads a)) other
]

set_state-SameQueue : (t : ℕ) (s : Scheduler) → SameQueue s (set_state t runnable s)
set_state-SameQueue t s = record {
  same_links = λ a. sym (if_lem (λ v. v.next) a t _ s refl);
  same_head = refl;
  same_tail = refl;
}

set_running-SameQueue : (t : ℕ) (s : Scheduler) → SameQueue s (set_state t running s)
set_running-SameQueue t s = record {
  same_links = λ a. sym (if_lem (λ v. v.next) a t _ s refl);
  same_head = refl;
  same_tail = refl;
}

switch_to_lem :
    (t : ℕ) (s : Scheduler)
    → (SameQueue (set_state t running s) (switch_to t s))
      × ((switch_to t s).current_thread ≡ t)
      × (((switch_to t s).threads t).state ≡ running)
unfolding switch_to
switch_to_lem t s = (
  record { same_links = λ a. refl; same_head = refl; same_tail = refl },
  refl,
  ap (λ (b : Bool). (if b then record (s.threads t) { state = running } else s.threads t).state)
      self,
)
  where
    self : (t == t) ≡ true
    self = ground arith

reap-SameQueue : (s : Scheduler) → SameQueue s (reap s)
unfolding reap
reap-SameQueue s = record { same_links = λ a. refl; same_head = refl; same_tail = refl }

enqueue-urgency : (t : ℕ) (s : Scheduler) (a : ℕ) → urgency (enqueue t s) a ≡ urgency s a
unfolding enqueue
enqueue-urgency t s a = elim (Bool-cases (s.run_queue_head == 0)) [
  | inl e ↦ rw e (if_lem (λ v. is_high v.priority) a t _ s refl)
  | inr e ↦ rw e (
      if_lem (λ v. is_high v.priority) a s.run_queue_tail _ (set_next t 0 s) refl
      ∙ if_lem (λ v. is_high v.priority) a t _ s refl)
]

-- A running thread, not in the run queue itself, that calls `schedule` goes to the end of the run queue; then the first waiting
-- thread of high priority runs, or the first of all where there is none, and the others wait on in
-- their order. The thread that runs is the current one, and it is marked as running.
pub schedule-IsQueue :
    (fuel : ℕ) (s : Scheduler) (ts : List ℕ)
    → IsQueue s ts
    → (s.threads s.current_thread).state ≡ running
    → s.current_thread ≢ 0
    → NotIn s.current_thread ts
    → length ts + 1 < fuel
    → (x : ℕ) × (rest : List ℕ) × (s' : Scheduler) × (take_next
          (urgency s)
          (ts ++ s.current_thread ∷ [])
        ≡ some (x, rest))
      × (schedule fuel s ≡ some s')
      × (s'.current_thread ≡ x)
      × ((s'.threads x).state ≡ running)
      × IsQueue s' rest
unfolding schedule requeue choose reap
schedule-IsQueue fuel s ts q runs nz new enough =
    let t = s.current_thread in
    let s0 = set_state t runnable (reap s) in
    let s1 = enqueue t s0 in
    let waiting : IsQueue s1 (ts ++ t ∷ []) =
      enqueue-IsQueue t s0 ts
        (IsQueue-same s s0 ts
          (record {
            same_links = λ a. sym (if_lem (λ v. v.next) a t _ s refl);
            same_head = refl;
            same_tail = refl;
          })
          q)
        nz new in
    let same : urgency s1 ≡ urgency s =
      fun_ext (λ a. enqueue-urgency t s0 a ∙ if_lem (λ v. is_high v.priority) a t _ s refl) in
    let requeued : requeue t (reap s) ≡ s1 = rw runs in
    elim (dequeue-IsQueue fuel s1 (ts ++ t ∷ []) waiting
      (omega (arith, length-append ts (t ∷ [])))) [
        | inl (e, r) ↦
            let (x, rest, chosen) = take_next-append (urgency s1) t ts in cc (sym chosen ∙ e)
        | inr (x, rest, s2, e, r, left) ↦
            let (kept, current, marked) = switch_to_lem x s2 in
            (
              x,
              rest,
              switch_to x s2,
              ap (λ u. take_next u (ts ++ t ∷ [])) (sym same) ∙ e,
              ap (λ s1. choose t (dequeue fuel s1) s1) requeued ∙ ap (λ d. choose t d s1) r,
              current,
              marked,
              IsQueue-same (set_state x running s2) (switch_to x s2) rest kept
                  (IsQueue-same s2 (set_state x running s2) rest (set_running-SameQueue x s2) left),
            )
      ]

-- What a `schedule` that chooses `x` leads to, given what the choice comes to.
chosen :
    (fuel : ℕ) (s : Scheduler) (ts : List ℕ) (y : ℕ) (left : List ℕ)
    → IsQueue s ts
    → (s.threads s.current_thread).state ≡ running
    → s.current_thread ≢ 0
    → NotIn s.current_thread ts
    → length ts + 1 < fuel
    → take_next (urgency s) (ts ++ s.current_thread ∷ []) ≡ some (y, left)
    → (s' : Scheduler) × (schedule fuel s ≡ some s') × (s'.current_thread ≡ y) × IsQueue s' left
chosen fuel s ts y left q runs nz new enough choice =
    let (x, rest, s', e, r, current, marked, q') =
      schedule-IsQueue fuel s ts q runs nz new enough in
    let same = some-injective (x, rest) (y, left) (sym e ∙ choice) in
    (s', r, current ∙ ap (λ p. p.0) same, rw (← ap (λ p. p.1) same) q')

-- Round robin: where neither the running thread nor a waiting one has high priority, the one that has
-- waited longest runs next, and the one that yields waits behind all others.
pub schedule_round_robin :
    (fuel : ℕ) (s : Scheduler) (u : ℕ) (ts : List ℕ)
    → IsQueue s (u ∷ ts)
    → (s.threads s.current_thread).state ≡ running
    → s.current_thread ≢ 0
    → NotIn s.current_thread (u ∷ ts)
    → length ts + 2 < fuel
    → All (λ t. urgency s t ≡ false) (u ∷ ts)
    → urgency s s.current_thread ≡ false
    → (s' : Scheduler) × (schedule fuel s ≡ some s')
      × (s'.current_thread ≡ u)
      × IsQueue s' (ts ++ s.current_thread ∷ [])
schedule_round_robin fuel s u ts q runs nz new enough calm own =
    chosen fuel s (u ∷ ts) u (ts ++ s.current_thread ∷ []) q runs nz new (omega arith) (
      take_next_calm (urgency s) u (ts ++ s.current_thread ∷ [])
        (calm.0, All-append (urgency s) s.current_thread ts calm.1 own))

-- A thread of high priority that yields while no waiting thread has high priority is chosen again,
-- and the others wait on as before.
pub schedule_urgent :
    (fuel : ℕ) (s : Scheduler) (ts : List ℕ)
    → IsQueue s ts
    → (s.threads s.current_thread).state ≡ running
    → s.current_thread ≢ 0
    → NotIn s.current_thread ts
    → length ts + 1 < fuel
    → All (λ t. urgency s t ≡ false) ts
    → urgency s s.current_thread ≡ true
    → (s' : Scheduler) × (schedule fuel s ≡ some s')
      × (s'.current_thread ≡ s.current_thread)
      × IsQueue s' ts
schedule_urgent fuel s ts q runs nz new enough calm own =
    chosen fuel s ts s.current_thread ts q runs nz new enough
      (take_next_last (urgency s) s.current_thread ts calm own)
