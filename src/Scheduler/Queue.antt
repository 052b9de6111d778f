-- ===== src/Scheduler/Queue.antt =====
-- The run queue as a sequence of threads, and what `enqueue` and `dequeue` do to it.
use amazing_os.Base.{
  ℕ, zero, suc, ◌<◌, ◌≡◌, refl, ◌∙◌, ap, sym, ◌≢◌, ◌⊎◌, inl, inr, Bool, true, false, none, some,
  List, [], ◌∷◌, ◌++◌, arith, ◌==◌, if◌then◌else◌, length, Bool-cases, ≢→==_false,
}
use amazing_os.Scheduler.{
  Thread, Scheduler, is_high, set_next, enqueue, unlink, scan, take_from, dequeue,
}
use amazing_os.Base.Chain.{
  Chain, NotIn, Distinct, last, update, update_same, update_other, Chain-frame, All-of,
  update-frame, Chain-append, last-append, Distinct-append, NotIn-frame, tail_after,
}
use amazing_os.Scheduler.Choice.{take_high, take_next, NotIn-take_high, Distinct-take_high}

abbrev pub links : Scheduler → ℕ → ℕ
links s a = (s.threads a).next

-- The run queue holds the threads `ts`, the next one to run first.
pub record IsQueue (s : Scheduler) (ts : List ℕ) : Type 0 where
  pub chain : Chain (links s) s.run_queue_head ts
  pub distinct : Distinct ts
  pub tail_at : ts ≢ [] → s.run_queue_tail ≡ last 0 ts

if-next : (b : Bool) (v w : Thread) → (if b then v else w).next ≡ (if b then v.next else w.next)
if-next true v w = refl
if-next false v w = refl

links-set_next :
    (t n : ℕ) (s : Scheduler) (a : ℕ) → links (set_next t n s) a ≡ update (links s) t n a
links-set_next t n s a = if-next (a == t) _ _

links-set_next_twice :
    (t n u k : ℕ) (s : Scheduler) (a : ℕ)
    → update (update (links s) t n) u k a ≡ links (set_next u k (set_next t n s)) a
links-set_next_twice t n u k s a = sym (
    links-set_next u k (set_next t n s) a
    ∙ ap (λ x. if a == u then k else x) (links-set_next t n s a))

-- A thread, not null, that does not wait in the run queue goes to its end, and the queue is whole after it.
pub enqueue-IsQueue :
    (t : ℕ) (s : Scheduler) (ts : List ℕ)
    → IsQueue s ts
    → t ≢ 0
    → NotIn t ts
    → IsQueue (enqueue t s) (ts ++ t ∷ [])
unfolding enqueue
enqueue-IsQueue t s [] q nz new =
    let empty : (s.run_queue_head == 0) ≡ true = ground (arith, q.chain) in
    rw empty (record {
      chain = (refl, (nz, links-set_next t 0 s t ∙ update_same (links s) t 0));
      distinct = (tt, tt);
      tail_at = λ _. refl;
    })
enqueue-IsQueue t s (u ∷ ts) q nz new =
    let full : (s.run_queue_head == 0) ≡ false =
      ≢→==_false _ _ (λ z. q.chain.1.0 (sym q.chain.0 ∙ z)) in
    let cleared = set_next t 0 s in
    let g = update (links s) t 0 in
    let kept : Chain g s.run_queue_head (u ∷ ts) =
      Chain-frame (links s) g s.run_queue_head (u ∷ ts) (update-frame (links s) t 0 (u ∷ ts) new)
        q.chain in
    let at_end : s.run_queue_tail ≡ last u ts = q.tail_at (λ e. cc e) in
    rw (full, at_end)
      (record {
        chain =
            Chain-frame (update g (last u ts) t) _ s.run_queue_head ((u ∷ ts) ++ t ∷ [])
              (All-of ((u ∷ ts) ++ t ∷ []) (links-set_next_twice t 0 (last u ts) t s))
              (Chain-append g s.run_queue_head t u ts kept q.distinct nz new
                (update_same (links s) t 0));
        distinct = Distinct-append t (u ∷ ts) q.distinct new;
        tail_at = λ _. sym (last-append u t ts);
      })

abbrev pub urgency : Scheduler → ℕ → Bool
urgency s t = is_high (s.threads t).priority

-- What `unlink` behind a thread does to the links and to the tail.
unlink_lem :
    (prev curr : ℕ) (s : Scheduler)
    → prev ≢ 0
    → prev ≢ curr
    → ((a : ℕ)
        → update (update (links s) prev (links s curr)) curr 0 a ≡ links (unlink prev curr s) a)
      × ((unlink prev curr s).run_queue_head ≡ s.run_queue_head)
      × ((unlink prev curr s).run_queue_tail
          ≡ (if links s curr == 0 then prev else s.run_queue_tail))
unfolding unlink
unlink_lem prev curr s nz ne =
    let kept : links (set_next prev (links s curr) s) curr ≡ links s curr =
      links-set_next prev (links s curr) s curr
      ∙ update_other (links s) prev (links s curr) curr (λ e. ne (sym e)) in
    rw (≢→==_false prev 0 nz) (
      links-set_next_twice prev (links s curr) curr 0 s,
      refl,
      ap (λ n. if n == 0 then prev else s.run_queue_tail) kept,
    )

-- What holds after a thread behind `prev` is taken out and `rest` is left of `ts`.
record Taken (prev : ℕ) (ts rest : List ℕ) (s s' : Scheduler) : Type 0 where
  chain : Chain (links s') (links s' prev) rest
  head_kept : s'.run_queue_head ≡ s.run_queue_head
  tail_at : s'.run_queue_tail ≡ last prev rest
  frame : (a : ℕ) → a ≢ prev → NotIn a ts → links s' a ≡ links s a

unlink-Taken :
    (prev t : ℕ) (s : Scheduler) (ts : List ℕ)
    → prev ≢ 0
    → NotIn prev (t ∷ ts)
    → Distinct (t ∷ ts)
    → Chain (links s) (links s t) ts
    → s.run_queue_tail ≡ last t ts
    → Taken prev (t ∷ ts) ts s (unlink prev t s)
unlink-Taken prev t s ts nz new dis c tail =
    let ne : prev ≢ t = λ e. new.0 (sym e) in
    let (same, head, end) = unlink_lem prev t s nz ne in
    let L = links s in
    let after : links (unlink prev t s) prev ≡ L t =
      sym (same prev) ∙ update_other (update L prev (L t)) t 0 prev ne ∙ update_same L prev (L t) in
    let kept : (a : ℕ) → a ≢ prev → a ≢ t → L a ≡ links (unlink prev t s) a = λ a ha hb. sym (
      sym (same a)
      ∙ update_other (update L prev (L t)) t 0 a hb
      ∙ update_other L prev (L t) a ha) in
    record {
      chain = rw after (
          Chain-frame L (links (unlink prev t s)) (L t) ts
            (NotIn-frame L _ prev t ts new.1 dis.0 kept) c);
      head_kept = head;
      tail_at = end ∙ tail_after L prev t s.run_queue_tail ts c tail;
      frame = λ a ha hb. sym (kept a ha (λ e. hb.0 (sym e)));
    }

-- The search behind `prev` finds the first thread of high priority among `ts` and takes it out.
scan_lem :
    (fuel prev curr : ℕ) (s : Scheduler) (ts : List ℕ)
    → prev ≢ 0
    → links s prev ≡ curr
    → NotIn prev ts
    → Distinct ts
    → Chain (links s) curr ts
    → s.run_queue_tail ≡ last prev ts
    → length ts < fuel
    → ((take_high (urgency s) ts ≡ none) × (scan fuel prev curr s ≡ some none))
      ⊎ ((x : ℕ) × (rest : List ℕ) × (s' : Scheduler) × (take_high (urgency s) ts ≡ some (x, rest))
          × (scan fuel prev curr s ≡ some (some (x, s')))
          × Taken prev ts rest s s')
unfolding scan take_high
scan_lem zero prev curr s ts nz at new dis c tail fuel = absurd (omega arith)
scan_lem (suc k) prev curr s [] nz at new dis c tail fuel = inl (refl, ground arith)
scan_lem (suc k) prev curr s (t ∷ ts) nz at new dis c tail fuel =
    let some_thread : (t == 0) ≡ false = ≢→==_false t 0 c.1.0 in
    elim (Bool-cases (urgency s t)) [
      | inl urgent ↦ inr (
        t,
        ts,
        unlink prev t s,
        rw urgent,
        rw (c.0, some_thread, urgent),
        unlink-Taken prev t s ts nz new dis c.1.1 tail,
      )
      | inr calm ↦
          elim (scan_lem k t (links s t) s ts c.1.0 refl dis.0 dis.1 c.1.1 tail (omega arith)) [
            | inl (e, r) ↦ inl (rw (calm, e), rw (c.0, some_thread, calm) r)
            | inr (x, rest, s', e, r, taken) ↦ inr (
              x,
              t ∷ rest,
              s',
              rw (calm, e),
              rw (c.0, some_thread, calm) r,
              record {
                chain =
                    (taken.frame prev (λ z. new.0 (sym z)) new.1 ∙ at ∙ c.0, (c.1.0, taken.chain));
                head_kept = taken.head_kept;
                tail_at = taken.tail_at;
                frame = λ a ha hb. taken.frame a (λ z. hb.0 (sym z)) hb.1;
              },
            )
          ]
    ]

-- The head is taken out.
unlink-IsQueue :
    (t : ℕ) (s : Scheduler) (ts : List ℕ) → IsQueue s (t ∷ ts) → IsQueue (unlink 0 t s) ts
unfolding unlink
unlink-IsQueue t s ts q =
    let L = links s in
    let s0 = record s {
      run_queue_head = L t;
      run_queue_tail = if L t == 0 then 0 else s.run_queue_tail;
    } in
    record {
      chain =
          Chain-frame L (links (set_next t 0 s0)) (L t) ts
            (NotIn-frame L _ t t ts q.distinct.0 q.distinct.0
              (λ a h _. sym (links-set_next t 0 s0 a ∙ update_other L t 0 a h)))
            q.chain.1.1;
      distinct = q.distinct.1;
      tail_at = λ _. tail_after L 0 t s.run_queue_tail ts q.chain.1.1 (q.tail_at (λ e. cc e));
    }

-- `dequeue` on a queue that holds `ts` takes out the first thread of high priority, or the first of
-- all where there is none, and the queue then holds the others in their order; on an empty queue it
-- returns null. Fuel for one step more than the queue has threads is enough.
pub dequeue-IsQueue :
    (fuel : ℕ) (s : Scheduler) (ts : List ℕ)
    → IsQueue s ts
    → length ts < fuel
    → ((take_next (urgency s) ts ≡ none) × (dequeue fuel s ≡ some none))
      ⊎ ((x : ℕ) × (rest : List ℕ) × (s' : Scheduler) × (take_next (urgency s) ts ≡ some (x, rest))
          × (dequeue fuel s ≡ some (some (x, s')))
          × IsQueue s' rest)
unfolding dequeue take_from take_next take_high scan
dequeue-IsQueue zero s ts q enough = absurd (omega arith)
dequeue-IsQueue (suc k) s [] q enough = inl (refl, ap (λ p. take_from (suc k) p s) q.chain)
dequeue-IsQueue (suc k) s (t ∷ ts) q enough =
    let some_thread : (t == 0) ≡ false = ≢→==_false t 0 q.chain.1.0 in
    let head = ap (λ p. take_from (suc k) p s) q.chain.0 in
    elim (Bool-cases (urgency s t)) [
      | inl urgent ↦ inr (
        t,
        ts,
        unlink 0 t s,
        rw (urgent, take_next),
        head ∙ rw (some_thread, urgent, take_from),
        unlink-IsQueue t s ts q,
      )
      | inr calm ↦
          elim (scan_lem k t (links s t) s ts q.chain.1.0 refl q.distinct.0 q.distinct.1 q.chain.1.1
            (q.tail_at (λ e. cc e)) (omega arith)) [
              | inl (e, r) ↦ inr (
                t,
                ts,
                unlink 0 t s,
                rw (calm, e, take_next),
                head ∙ rw (some_thread, calm, r, take_from),
                unlink-IsQueue t s ts q,
              )
              | inr (x, rest, s', e, r, taken) ↦ inr (
                x,
                t ∷ rest,
                s',
                rw (calm, e, take_next),
                head ∙ rw (some_thread, calm, r, take_from),
                record {
                  chain = (taken.head_kept ∙ q.chain.0, (q.chain.1.0, taken.chain));
                  distinct = (
                    NotIn-take_high (urgency s) t x ts rest e q.distinct.0,
                    Distinct-take_high (urgency s) x ts rest e q.distinct.1,
                  );
                  tail_at = λ _. taken.tail_at;
                },
              )
            ]
    ]
