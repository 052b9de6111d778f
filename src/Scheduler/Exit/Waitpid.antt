-- ===== src/Scheduler/Exit/Waitpid.antt =====
-- `scheduler_waitpid` for a child that has ended already.
use amazing_os.Base.{
  ℕ, zero, suc, ◌+◌, ◌<◌, ◌≡◌, ◌≢◌, true, false, List, [], ◌∷◌, ◌++◌, some, arith, length, ◌==◌,
  ≢→==_false, All,
}
use amazing_os.Scheduler.{Scheduler, terminated}
use amazing_os.Base.Chain.{Chain}
use amazing_os.Scheduler.Exit.{find_thread, collected, free_thread, collect, wait_on, waitpid_begin}
use amazing_os.Scheduler.Exit.Unregister.{
  all_links, IsRegistry, scheduler_unregister_thread-IsRegistry,
}

find_thread_lem :
    (fuel p pid t : ℕ) (s : Scheduler) (xs ys : List ℕ)
    → Chain (all_links s) p (xs ++ t ∷ ys)
    → All (λ a. (s.threads a).id ≢ pid) xs
    → (s.threads t).id ≡ pid
    → length xs < fuel
    → find_thread fuel p pid s ≡ some t
unfolding find_thread
find_thread_lem zero p pid t s xs ys c others own enough = absurd (omega arith)
find_thread_lem (suc k) p pid t s [] ys c others own enough =
    let here : ((s.threads t).id == pid) ≡ true = ground arith in
    rw (c.0, ≢→==_false t 0 c.1.0, here)
find_thread_lem (suc k) p pid t s (x ∷ xs) ys c others own enough =
    rw (c.0, ≢→==_false x 0 c.1.0, ≢→==_false (s.threads x).id pid others.0)
      (find_thread_lem k (all_links s x) pid t s xs ys c.1.1 others.1 own (omega arith))

NotIn-0 : (f : ℕ → ℕ) (p t : ℕ) (xs ys : List ℕ) → Chain f p (xs ++ t ∷ ys) → t ≢ 0
NotIn-0 f p t [] ys c = c.1.0
NotIn-0 f p t (x ∷ xs) ys c = NotIn-0 f (f x) t xs ys c.1.1

-- Waiting for a child that has ended returns its exit status at once, takes it from the list of all
-- threads, where the others stay in their order, and frees its stack and then the child itself.
pub waitpid_begin-terminated :
    (fuel pid t : ℕ) (s : Scheduler) (xs ys : List ℕ)
    → IsRegistry s (xs ++ t ∷ ys)
    → All (λ a. (s.threads a).id ≢ pid) xs
    → (s.threads t).id ≡ pid
    → (s.threads t).state ≡ terminated
    → length xs + 1 < fuel
    → (s' : Scheduler) × (waitpid_begin fuel pid s
        ≡ some (collected (s.threads t).exit_status (free_thread t s')))
      × IsRegistry s' (xs ++ ys)
unfolding waitpid_begin wait_on
waitpid_begin-terminated fuel pid t s xs ys r others own ended enough =
    let (s', e, left) = scheduler_unregister_thread-IsRegistry fuel t s xs ys r enough in
    let there =
      find_thread_lem fuel s.all_threads_head pid t s xs ys r.chain others own (omega arith) in
    let some_child : (t == 0) ≡ false = ≢→==_false t 0 (NotIn-0 (all_links s) _ t xs ys r.chain) in
    (s', rw (there, waitpid_begin) (rw (some_child, ended, wait_on) (rw (e, collect))), left)
