-- ===== src/Scheduler.antt =====
-- Kernel/CrecentKernel/src/kernel/scheduler.cpp: threads, the run queue and the switch between them.
-- A `Thread*` is a number, 0 for null, and `threads` is what stands behind it. All of it runs with
-- interrupts off. File descriptors are left out: the scheduler fills them in and never reads them.
pub mod Choice
pub mod Queue
pub mod Switch
pub mod Exit
mod Tests
use amazing_os.Base.{
  ℕ, zero, suc, ◌+◌, ◌%◌, ◌^◌, Bool, true, false, not, ◌&&◌, Option, none, some, List, [], ◌∷◌,
  ◌==◌, if◌then◌else◌,
}

pub data ThreadState : Type 0 where
  runnable : ThreadState
  running : ThreadState
  blocked : ThreadState
  terminated : ThreadState

pub data ThreadPriority : Type 0 where
  normal : ThreadPriority
  high : ThreadPriority

pub record Thread : Type 0 where
  pub id : ℕ
  pub state : ThreadState
  pub stack_limit : ℕ
  pub rsp0 : ℕ
  pub next : ℕ
  pub all_next : ℕ
  pub priority : ThreadPriority
  pub pml4_phys : ℕ
  pub waiting_for_pid : ℕ
  pub exit_status : ℕ
  pub parent_id : ℕ

pub record Scheduler : Type 0 where
  pub threads : ℕ → Thread
  pub run_queue_head : ℕ
  pub run_queue_tail : ℕ
  pub all_threads_head : ℕ
  pub next_thread_id : ℕ
  pub current_thread : ℕ
  pub stack_to_free : ℕ
  pub thread_to_free : ℕ
  pub gui_thread : ℕ
  pub active_pml4 : ℕ
  -- The register CR3, and the kernel stack in the TSS.
  pub cr3 : ℕ
  pub tss_rsp0 : ℕ
  -- What `kfree` and `delete` were called with, the last first.
  pub freed : List ℕ

abbrev pub put : ℕ → Thread → Scheduler → Scheduler
put t v s = record s { threads = λ a. if a == t then v else s.threads a }

abbrev pub set_next : ℕ → ℕ → Scheduler → Scheduler
set_next t n s = put t (record (s.threads t) { next = n }) s

abbrev pub set_all_next : ℕ → ℕ → Scheduler → Scheduler
set_all_next t n s = put t (record (s.threads t) { all_next = n }) s

abbrev pub set_state : ℕ → ThreadState → Scheduler → Scheduler
set_state t st s = put t (record (s.threads t) { state = st }) s

abbrev pub is_high : ThreadPriority → Bool
is_high normal = false
is_high high = true

abbrev pub is_running : ThreadState → Bool
is_running runnable = false
is_running running = true
is_running blocked = false
is_running terminated = false

abbrev pub is_runnable : ThreadState → Bool
is_runnable runnable = true
is_runnable running = false
is_runnable blocked = false
is_runnable terminated = false

abbrev pub is_blocked : ThreadState → Bool
is_blocked runnable = false
is_blocked running = false
is_blocked blocked = true
is_blocked terminated = false

abbrev pub is_terminated : ThreadState → Bool
is_terminated runnable = false
is_terminated running = false
is_terminated blocked = false
is_terminated terminated = true

pub enqueue : ℕ → Scheduler → Scheduler
enqueue t s =
    let cleared = set_next t 0 s in
    if s.run_queue_head == 0
    then record cleared { run_queue_head = t; run_queue_tail = t }
    else record (set_next s.run_queue_tail t cleared) { run_queue_tail = t }

-- `curr` is taken out behind `prev`, or at the head where `prev` is null.
pub unlink : (prev curr : ℕ) → Scheduler → Scheduler
unlink prev curr s =
    let after = (s.threads curr).next in
    if prev == 0
    then set_next curr 0 (record s {
      run_queue_head = after;
      run_queue_tail = if after == 0 then 0 else s.run_queue_tail;
    })
    else let s1 = set_next prev after s in
      set_next curr 0 (record s1 {
        run_queue_tail = if (s1.threads curr).next == 0 then prev else s.run_queue_tail;
      })

-- The search for a thread of high priority: `none` means that the fuel ran out, and `some none` that
-- there is no such thread.
pub scan : ℕ → (prev curr : ℕ) → Scheduler → Option (Option (ℕ × Scheduler))
scan zero prev curr s = none
scan (suc fuel) prev curr s =
    let rest = scan fuel curr (s.threads curr).next s in
    if curr == 0
    then some none
    else if is_high (s.threads curr).priority
    then some (some (curr, unlink prev curr s))
    else rest

-- The thread that is taken out of a queue with the head `p`.
pub take_from : ℕ → (p : ℕ) → Scheduler → Option (Option (ℕ × Scheduler))
take_from fuel p s = if p == 0 then some none else elim (scan fuel 0 p s) [
  | none ↦ none
  | some (some r) ↦ some (some r)
  | some none ↦ some (some (p, unlink 0 p s))
]

-- `none` means that the fuel ran out, and `some none` an empty queue.
pub dequeue : ℕ → Scheduler → Option (Option (ℕ × Scheduler))
unfolding take_from
dequeue fuel s = take_from fuel s.run_queue_head s
