-- ===== src/Scheduler/Tests.antt =====
-- The scheduler with the thread 1 running, and 2 and 3 waiting.
use amazing_os.Base.{ℕ, ◌+◌, ◌≡◌, ◌⊎◌, refl, List, [], ◌∷◌, some, none, arith, ◌==◌, if◌then◌else◌}
use amazing_os.Scheduler.{
  Thread, Scheduler, ThreadPriority, ThreadState, normal, high, runnable, running, terminated,
  dequeue,
}
use amazing_os.Scheduler.Choice.{take_next}
use amazing_os.Scheduler.Queue.{IsQueue, urgency, dequeue-IsQueue}
use amazing_os.Scheduler.Switch.{schedule}
use amazing_os.Scheduler.Switch.Yield.{schedule-IsQueue}
use amazing_os.Scheduler.Exit.{collected, free_thread, waitpid_begin}
use amazing_os.Scheduler.Exit.Unregister.{IsRegistry}
use amazing_os.Scheduler.Exit.Waitpid.{waitpid_begin-terminated}

abbrev thread : (id next all_next : ℕ) → ThreadPriority → ThreadState → Thread
thread id next all_next priority state = record {
  id = id;
  state = state;
  stack_limit = 4096 + id;
  rsp0 = 8192;
  next = next;
  all_next = all_next;
  priority = priority;
  pml4_phys = 4096;
  waiting_for_pid = 0;
  exit_status = 7;
  parent_id = 0;
}

-- The priorities of the threads 1 and 3.
abbrev three : (first third : ThreadPriority) → Scheduler
three first third = record {
  threads = λ a.
      if a == 1
      then thread 10 0 0 first running
      else if a == 2
      then thread 20 3 1 normal runnable
      else if a == 3
      then thread 30 0 2 third runnable
      else thread 40 0 0 normal terminated;
  run_queue_head = 2;
  run_queue_tail = 3;
  all_threads_head = 3;
  next_thread_id = 50;
  current_thread = 1;
  stack_to_free = 0;
  thread_to_free = 0;
  gui_thread = 0;
  active_pml4 = 4096;
  cr3 = 4096;
  tss_rsp0 = 8192;
  freed = [];
}

three-IsQueue : (first third : ThreadPriority) → IsQueue (three first third) (2 ∷ 3 ∷ [])
three-IsQueue first third = record {
  chain = (refl, (omega arith, (refl, (omega arith, refl))));
  distinct = ((omega arith, tt), (tt, tt));
  tail_at = λ _. refl;
}

dequeue-IsQueue_example :
    let s = three normal high in
    ((take_next (urgency s) (2 ∷ 3 ∷ []) ≡ none) × (dequeue 4 s ≡ some none))
    ⊎ ((x : ℕ) × (rest : List ℕ) × (s' : Scheduler) × (take_next (urgency s) (2 ∷ 3 ∷ [])
          ≡ some (x, rest))
        × (dequeue 4 s ≡ some (some (x, s')))
        × IsQueue s' rest)
dequeue-IsQueue_example =
    dequeue-IsQueue 4 (three normal high) (2 ∷ 3 ∷ []) (three-IsQueue normal high) (omega arith)

schedule-IsQueue_example :
    let s = three normal high in
    (x : ℕ) × (rest : List ℕ) × (s' : Scheduler) × (take_next (urgency s) (2 ∷ 3 ∷ 1 ∷ [])
      ≡ some (x, rest))
    × (schedule 5 s ≡ some s')
    × (s'.current_thread ≡ x)
    × ((s'.threads x).state ≡ running)
    × IsQueue s' rest
schedule-IsQueue_example =
    schedule-IsQueue 5 (three normal high) (2 ∷ 3 ∷ []) (three-IsQueue normal high) refl
      (omega arith) (omega arith, (omega arith, tt)) (omega arith)

three-IsRegistry : IsRegistry (three normal normal) (3 ∷ 2 ∷ 1 ∷ [])
three-IsRegistry = record {
  chain = (refl, (omega arith, (refl, (omega arith, (refl, (omega arith, refl))))));
  distinct = ((omega arith, (omega arith, tt)), ((omega arith, tt), (tt, tt)));
}

-- The thread 4 has ended and stands before the thread 5.
abbrev ended : Scheduler
ended = record (three normal normal) {
  threads = λ a. if a == 4 then thread 40 0 5 normal terminated else thread 10 0 0 normal running;
  all_threads_head = 4;
}

waitpid_begin-terminated_example :
    (s' : Scheduler) × (waitpid_begin 3 40 ended ≡ some (collected 7 (free_thread 4 s')))
    × IsRegistry s' (5 ∷ [])
waitpid_begin-terminated_example =
    waitpid_begin-terminated 3 40 4 ended [] (5 ∷ [])
      (record {
        chain = (refl, (omega arith, (refl, (omega arith, refl))));
        distinct = ((omega arith, tt), (tt, tt));
      })
      tt refl refl (omega arith)
