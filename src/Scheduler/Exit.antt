-- ===== src/Scheduler/Exit.antt =====
-- `thread_exit`, `scheduler_waitpid` and `scheduler_unregister_thread`, which work on the list of all
-- threads from `all_threads_head` on. The printed messages are left out.
pub mod Unregister
pub mod Waitpid
use amazing_os.Base.{
  ℕ, zero, suc, Bool, Option, none, some, List, [], ◌∷◌, ◌&&◌, ◌==◌, if◌then◌else◌,
}
use amazing_os.Scheduler.{
  runnable, running, blocked, terminated, Thread, Scheduler, put, set_state, set_all_next,
  is_blocked, is_terminated, enqueue, dequeue,
}
use amazing_os.Scheduler.Switch.{reap, switch_to, schedule}

-- The thread with an identifier: `none` means that the fuel ran out, `some 0` that there is none.
pub find_thread : ℕ → (curr pid : ℕ) → Scheduler → Option ℕ
find_thread zero curr pid s = none
find_thread (suc fuel) curr pid s =
    let rest = find_thread fuel (s.threads curr).all_next pid s in
    if curr == 0 then some 0 else if (s.threads curr).id == pid then some curr else rest

-- The thread before `t` in the list, or 0.
pub find_before : ℕ → (curr t : ℕ) → Scheduler → Option ℕ
find_before zero curr t s = none
find_before (suc fuel) curr t s =
    let rest = find_before fuel (s.threads curr).all_next t s in
    if curr == 0 then some 0 else if (s.threads curr).all_next == t then some curr else rest

abbrev pub bypass : (p t : ℕ) → Scheduler → Scheduler
bypass p t s = if p == 0 then s else set_all_next p (s.threads t).all_next s

pub scheduler_unregister_thread : ℕ → ℕ → Scheduler → Option Scheduler
scheduler_unregister_thread fuel t s =
    if s.all_threads_head == t
    then some (record s { all_threads_head = (s.threads t).all_next })
    else elim (find_before fuel s.all_threads_head t s) [
      | none ↦ none
      | some p ↦ some (bypass p t s)
    ]

-- `kfree(t->stack_limit); delete t;`
abbrev pub free_thread : ℕ → Scheduler → Scheduler
free_thread t s = record s { freed = t ∷ (s.threads t).stack_limit ∷ s.freed }

pub data WaitResult : Type 0 where
  -- No thread has this identifier.
  no_child : WaitResult
  -- The thread had ended; this is its status.
  collected : (status : ℕ) → Scheduler → WaitResult
  -- The parent is blocked and another thread runs.
  waits : Scheduler → WaitResult
  -- The parent is woken, and the thread is not there or has not ended.
  woken : WaitResult

abbrev pub collect : (fuel child : ℕ) → Scheduler → Option WaitResult
collect fuel child s = elim (scheduler_unregister_thread fuel child s) [
  | none ↦ none
  | some s' ↦ some (collected (s.threads child).exit_status (free_thread child s'))
]

abbrev pub block_on : ℕ → Scheduler → Scheduler
block_on pid s =
    put s.current_thread
      (record (s.threads s.current_thread) { state = blocked; waiting_for_pid = pid }) s

pub wait_on : (fuel pid child : ℕ) → Scheduler → Option WaitResult
wait_on fuel pid child s =
    if child == 0
    then some no_child
    else if is_terminated (s.threads child).state
    then collect fuel child s
    else elim (schedule fuel (block_on pid s)) [ none ↦ none | some s' ↦ some (waits s') ]

-- As far as the call of `schedule`.
pub waitpid_begin : (fuel pid : ℕ) → Scheduler → Option WaitResult
unfolding wait_on
waitpid_begin fuel pid s = elim (find_thread fuel s.all_threads_head pid s) [
  | none ↦ none
  | some child ↦ wait_on fuel pid child s
]

-- From there on, when the parent runs again.
pub waitpid_end : (fuel pid : ℕ) → Scheduler → Option WaitResult
waitpid_end fuel pid s = elim (find_thread fuel s.all_threads_head pid s) [
  | none ↦ none
  | some child ↦
      if child == 0
      then some woken
      else if is_terminated (s.threads child).state
      then collect fuel child s
      else some woken
]

-- A thread that waits for the one that ends is woken.
abbrev pub wake_waiter : (me curr : ℕ) → Scheduler → Scheduler
wake_waiter me curr s =
    if is_blocked (s.threads curr).state && (s.threads curr).waiting_for_pid == me
    then enqueue curr
        (put curr (record (s.threads curr) { state = runnable; waiting_for_pid = 0 }) s)
    else s

abbrev pub unlink_all : (prev after : ℕ) → Scheduler → Scheduler
unlink_all prev after s =
    if prev == 0 then record s { all_threads_head = after } else set_all_next prev after s

-- A child that the main thread has got is reaped if it has ended.
abbrev pub adopt : (prev curr after : ℕ) → Scheduler → Scheduler
adopt prev curr after s =
    if is_terminated (s.threads curr).state then free_thread curr (unlink_all prev after s) else s

-- One thread of the list when the thread with the identifier `me` ends: a
-- child of that thread is given to the main thread, or reaped if it has ended itself.
pub visit : (me prev curr : ℕ) → Scheduler → Scheduler
visit me prev curr s =
    let after = (s.threads curr).all_next in
    let s1 = wake_waiter me curr s in
    if (s1.threads curr).parent_id == me
    then adopt prev curr after (put curr (record (s1.threads curr) { parent_id = 0 }) s1)
    else s1

abbrev pub is_reaped : (me curr : ℕ) → Scheduler → Bool
is_reaped me curr s = is_terminated (s.threads curr).state && (s.threads curr).parent_id == me

pub visit_all : ℕ → (me prev curr : ℕ) → Scheduler → Option Scheduler
unfolding visit
visit_all zero me prev curr s = none
visit_all (suc fuel) me prev curr s =
    let rest =
      visit_all fuel me (if is_reaped me curr s then prev else curr) (s.threads curr).all_next
        (visit me prev curr s) in
    if curr == 0 then some s else rest

-- What `thread_exit` ends in.
pub data ExitResult : Type 0 where
  switched : Scheduler → ExitResult
  halted : ExitResult

-- The resources of a thread without a parent are left to the next one that enters the scheduler.
abbrev pub leave_resources : ℕ → Scheduler → Scheduler
leave_resources t s =
    let detached = (s.threads t).parent_id == 0 in
    record s {
      stack_to_free = if detached then (s.threads t).stack_limit else 0;
      thread_to_free = if detached then t else 0;
    }

pub leave : ℕ → Option (Option (ℕ × Scheduler)) → Option ExitResult
leave t none = none
leave t (some none) = some halted
leave t (some (some (next, s))) = some (switched (leave_resources t (switch_to next s)))

pub thread_exit : (fuel status : ℕ) → Scheduler → Option ExitResult
unfolding leave visit_all
thread_exit fuel status s =
    let t = s.current_thread in
    let s1 = reap s in
    let s2 = put t (record (s1.threads t) { exit_status = status; state = terminated }) s1 in
    elim (visit_all fuel (s2.threads t).id 0 s2.all_threads_head s2) [
      | none ↦ none
      | some s3 ↦ leave t (dequeue fuel s3)
    ]
