-- ===== src/Scheduler/Switch.antt =====
-- `schedule`, `thread_create`, and the calls on the list of all threads and on the GUI thread.
pub mod Yield
use amazing_os.Base.{
  ℕ, zero, suc, ◌+◌, ◌%◌, ◌^◌, Option, none, some, List, [], ◌∷◌, ◌&&◌, not, ◌==◌, if◌then◌else◌,
}
use amazing_os.Scheduler.{
  ThreadState, runnable, running, ThreadPriority, normal, high, Thread, Scheduler, put, set_state,
  set_all_next, is_running, is_runnable, is_blocked, enqueue, dequeue,
}

abbrev pub release : ℕ → List ℕ → List ℕ
release p freed = if p == 0 then freed else p ∷ freed

-- The resources of a thread that has ended are freed by the next one that enters the scheduler.
pub reap : Scheduler → Scheduler
reap s = record s {
  freed = release s.thread_to_free (release s.stack_to_free s.freed);
  stack_to_free = 0;
  thread_to_free = 0;
}

abbrev pub load_address_space : ℕ → Scheduler → Scheduler
load_address_space pml4 s = record s {
  active_pml4 = if pml4 == s.cr3 then s.active_pml4 else pml4;
  cr3 = if pml4 == s.cr3 then s.cr3 else pml4;
}

pub switch_to : ℕ → Scheduler → Scheduler
switch_to next s =
    let s1 = record (set_state next running s) { current_thread = next } in
    record (load_address_space (s1.threads next).pml4_phys s1) { tss_rsp0 = (s1.threads next).rsp0 }

-- A running thread goes back to the run queue.
pub requeue : ℕ → Scheduler → Scheduler
requeue prev s =
    if is_running (s.threads prev).state then enqueue prev (set_state prev runnable s) else s

-- `prev` goes on where nobody else can.
pub resume : ℕ → Scheduler → Scheduler
resume prev s = if is_runnable (s.threads prev).state then set_state prev running s else s

pub choose : ℕ → Option (Option (ℕ × Scheduler)) → Scheduler → Option Scheduler
choose prev none s = none
choose prev (some none) s = some (resume prev s)
choose prev (some (some (next, s'))) s = some (switch_to next s')

-- `none` means that the fuel of `dequeue` ran out.
pub schedule : ℕ → Scheduler → Option Scheduler
unfolding requeue resume choose switch_to reap
schedule fuel s =
    let s1 = requeue s.current_thread (reap s) in choose s.current_thread (dequeue fuel s1) s1

pub scheduler_register_thread : ℕ → Scheduler → Scheduler
scheduler_register_thread t s = record (set_all_next t s.all_threads_head s) {
  all_threads_head = t;
}

-- `t` is what `new Thread()` returns and `stack_page` what `kmalloc` does, 0 for null.
pub thread_create : (t stack_page : ℕ) → Scheduler → ℕ × Scheduler
unfolding scheduler_register_thread
thread_create t stack_page s =
    if stack_page == 0
    then (0, s)
    else let pml4 =
        if s.current_thread == 0 then s.active_pml4 else (s.threads s.current_thread).pml4_phys in
      let s1 =
        record (put t
          (record {
            id = s.next_thread_id;
            state = runnable;
            stack_limit = stack_page;
            rsp0 = (stack_page + 4096) % 2 ^ 64;
            next = 0;
            all_next = (s.threads t).all_next;
            priority = normal;
            pml4_phys = pml4;
            waiting_for_pid = 0;
            exit_status = 0;
            parent_id = 0;
          })
          s) { next_thread_id = (s.next_thread_id + 1) % 2 ^ 64 } in
      (t, enqueue t (scheduler_register_thread t s1))

pub scheduler_register_gui_thread : ℕ → Scheduler → Scheduler
scheduler_register_gui_thread t s =
    let s1 = record s { gui_thread = t } in
    if t == 0 then s1 else put t (record (s1.threads t) { priority = high }) s1

pub scheduler_wake_gui_thread : Scheduler → Scheduler
scheduler_wake_gui_thread s =
    if not (s.gui_thread == 0) && is_blocked (s.threads s.gui_thread).state
    then enqueue s.gui_thread (set_state s.gui_thread runnable s)
    else s

pub scheduler_generate_id : Scheduler → ℕ × Scheduler
scheduler_generate_id s =
    (s.next_thread_id, record s { next_thread_id = (s.next_thread_id + 1) % 2 ^ 64 })

-- The thread at `main_thread` is the one that runs, and no other is known yet.
pub scheduler_init : (main_thread boot_stack_top : ℕ) → Scheduler → Scheduler
unfolding scheduler_generate_id
scheduler_init main_thread boot_stack_top s =
    let (id, s1) = scheduler_generate_id s in
    record (put main_thread
      (record {
        id = id;
        state = running;
        stack_limit = 0;
        rsp0 = boot_stack_top;
        next = 0;
        all_next = 0;
        priority = normal;
        pml4_phys = s.active_pml4;
        waiting_for_pid = 0;
        exit_status = 0;
        parent_id = 0;
      })
      s1) {
        all_threads_head = main_thread;
        current_thread = main_thread;
        tss_rsp0 = boot_stack_top;
      }
