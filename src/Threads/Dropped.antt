-- ===== src/Threads/Dropped.antt =====
-- What hw4/userthread.cpp does with a thread that waits, or yields under SJF, while nobody else is ready.
use mathlib.Core.Path.{subst}
use opearting_system.Base.Sums.{one, one_self}
use opearting_system.Base.{
  ℕ, ◌≤◌, ◌≡◌, refl, sym, Bool, true, false, none, some, [], arith, ap, ◌∙◌,
}
use opearting_system.Threads.State.{
  Thread, Library, Platform, Inputs, sjf, stopped, yielded, Outcome, runs, fault, Control, returns,
  to_thread, to_main, exits, find_by_tid, write, note, halt,
}
use opearting_system.Threads.Queues.{
  choose_next_thread_fifo, choose_next_thread_sjf, choose_next_thread_pri,
}
use opearting_system.Threads.Scheduler.{
  nobody, choose_next_thread, after_current, after_stopped, after_yield, yield_sjf, end_run,
  my_scheduler, resume, go_main,
}
use opearting_system.Threads.Calls.{halt_thread, thread_yield, thread_join}
use opearting_system.Threads.Places.{named, placed, here}
use opearting_system.Threads.Places.Lists.{find-named, find-modify_self}
use opearting_system.Threads.Places.Choose.{IsPriorityQueue, NoneReady}
use opearting_system.Threads.Places.Turn.{Ends, Turned, mask_lem}
use opearting_system.Threads.Sound.{IsSound}
use opearting_system.Threads.Sound.Halting.{
  remask, current-found, thread_join-Turned, thread_yield-Turned,
}

module _ {R : Type 0} where
  -- `main` has the processor, and the thread stands nowhere.
  abbrev pub Dropped : ℕ → Library R → Control → Type 0
  Dropped id t c = (c ≡ to_main) × (t.current_active ≡ none) × (placed id t ≡ 0)

module _ {R : Type 0} (p : Platform R) (i : Inputs) where
  choose-none : (s : Library R) → NoneReady s → choose_next_thread p i s ≡ none
  unfolding choose_next_thread choose_next_thread_fifo choose_next_thread_sjf choose_next_thread_pri
  choose-none s n = ground arith

  -- The scheduler is called for a thread of which the branch finds nobody.
  to_main-scheduled :
      (id : ℕ) (t : Thread R) (s : Library R)
      → s.current_active ≡ some id
      → find_by_tid id s.thread_list ≡ some t
      → ((c : Bool)
          → (v : Library R) × (after_current p i t
                (write id (λ u. record u { active = false }) (record s { blocked = c }))
              ≡ nobody v))
      → Ends (λ u c. c ≡ to_main) (my_scheduler p i s)
  unfolding my_scheduler resume go_main
  to_main-scheduled id t s active found none_left =
      let (c, masked) = mask_lem true s in
      let left : Library R =
        write id (λ u. record u { active = false }) (record s { blocked = c }) in
      let (v, e) = none_left c in
      let computes : my_scheduler p i s ≡ resume p i (after_current p i t left) =
        ground (arith, active, found, masked) in
      subst (Ends (λ u c. c ≡ to_main)) (sym (computes ∙ ap (resume p i) e)) refl

  -- Only SJF looks at the times of a thread that waits.
  abbrev timed : Thread R → Library R → Library R
  timed t s = elim s.policy [ sjf ↦ write t.tid (end_run p i) s | _ ↦ s ]

  stopped-nobody :
      (t : Thread R) (s : Library R)
      → t.status ≡ stopped
      → NoneReady s
      → (v : Library R) × (after_current p i t s ≡ nobody v)
  unfolding after_current after_stopped
  stopped-nobody t s e n =
      (timed t s, ground (arith, choose-none s n, choose-none (write t.tid (end_run p i) s) n))

  yielded-nobody :
      (t : Thread R) (s : Library R)
      → t.status ≡ yielded
      → s.policy ≡ sjf
      → s.ready_sjf ≡ []
      → (v : Library R) × (after_current p i t s ≡ nobody v)
  unfolding after_current after_yield yield_sjf choose_next_thread choose_next_thread_sjf
  yielded-nobody t s e q n = (write t.tid (end_run p i) s, ground arith)

  halt-to_main :
      (id : ℕ) (f : Thread R → Thread R) (s : Library R) (t : Thread R)
      → ((u : Thread R) → (f u).tid ≡ u.tid)
      → s.current_active ≡ some id
      → find_by_tid id s.thread_list ≡ some t
      → ((v : Library R)
          → v.policy ≡ s.policy
          → v.ready_fifo ≡ s.ready_fifo
          → v.ready_sjf ≡ s.ready_sjf
          → v.ready_first ≡ s.ready_first
          → v.ready_second ≡ s.ready_second
          → v.ready_third ≡ s.ready_third
          → (w : Library R) × (after_current p i (f t) v ≡ nobody w))
      → Ends (λ u c. c ≡ to_main) (halt_thread p id f i s)
  unfolding note
  halt-to_main id f s t same active found none_left =
      let computes : halt_thread p id f i s
          ≡ my_scheduler p i (note i.log_clock halt t (write id f s)) =
        ground (arith, found) in
      subst (Ends (λ u c. c ≡ to_main)) (sym computes) (
        to_main-scheduled id (f t) (note i.log_clock halt t (write id f s)) active
          (find-modify_self id f s.thread_list t same found)
          (λ c.
            none_left
              (write id (λ u. record u { active = false })
                (record (note i.log_clock halt t (write id f s)) { blocked = c }))
              refl refl refl refl refl refl))

  Turned-Dropped :
      (id : ℕ) (s : Library R) (o : Outcome R)
      → s.current_active ≡ some id
      → IsSound s
      → i.timer_set ≡ true
      → Ends (Turned (λ x. one x id) i.timer_set s) o
      → Ends (λ u c. c ≡ to_main) o
      → Ends (Dropped id) o
  Turned-Dropped id s fault active sound set h k = h
  Turned-Dropped id s (runs t to_main) active (a, u, _, _) set (k, c, le, n) e =
      (refl, c, omega (arith, (n set).1 id, a id, u id, ap (here id) active, one_self id))
  Turned-Dropped id s (runs t (to_thread x)) active sound set h e = cc
  Turned-Dropped id s (runs t (returns x)) active sound set h e = cc
  Turned-Dropped id s (runs t exits) active sound set h e = cc

  module _ (queue : IsPriorityQueue p.extract) where
    -- In a sound state in which no thread is ready and the timer can be set, a thread that joins a
    -- thread of the list gives the processor to `main` and stands in no queue then, not even in the
    -- suspended queue of the thread that it waits for.
    pub thread_join-Dropped :
        (w id : ℕ) (s : Library R)
        → s.initialized ≡ true
        → s.current_active ≡ some id
        → 1 ≤ named w s.thread_list
        → NoneReady s
        → i.timer_set ≡ true
        → IsSound s
        → Ends (Dropped id) (thread_join p w i s)
    unfolding thread_join
    thread_join-Dropped w id s init active target n set sound =
        let (c, masked) = remask p queue i s in
        let (u, there) = find-named w s.thread_list target in
        let (t, found) = current-found p queue i id s active sound in
        let wait = λ (t : Thread R). record t { status = stopped; wait_tid = some w } in
        let computes : thread_join p w i s ≡ halt_thread p id wait i (record s { blocked = c }) =
          ground (arith, init, active, masked, there) in
        Turned-Dropped id s (thread_join p w i s) active sound set
          (thread_join-Turned p queue i w id s init active target sound)
          (subst (Ends (λ u c. c ≡ to_main)) (sym computes) (
            halt-to_main id wait (record s { blocked = c }) t (λ u. refl) active found
              λ v q a b d e f. stopped-nobody (wait t) v refl (rw (q, a, b, d, e, f) n)))

    -- Under SJF, in a sound state in which no thread is ready, a thread that yields gives the processor
    -- to `main` and stands in no queue then.
    pub thread_yield-Dropped :
        (id : ℕ) (s : Library R)
        → s.initialized ≡ true
        → s.current_active ≡ some id
        → s.policy ≡ sjf
        → s.ready_sjf ≡ []
        → i.timer_set ≡ true
        → IsSound s
        → Ends (Dropped id) (thread_yield p i s)
    unfolding thread_yield
    thread_yield-Dropped id s init active policy n set sound =
        let (c, masked) = remask p queue i s in
        let (t, found) = current-found p queue i id s active sound in
        let yield = λ (t : Thread R). record t { status = yielded } in
        let computes : thread_yield p i s ≡ halt_thread p id yield i (record s { blocked = c }) =
          ground (arith, init, active, masked) in
        Turned-Dropped id s (thread_yield p i s) active sound set
          (thread_yield-Turned p queue i id s init active sound)
          (subst (Ends (λ u c. c ≡ to_main)) (sym computes) (
            halt-to_main id yield (record s { blocked = c }) t (λ u. refl) active found
              λ v q a b d e f. yielded-nobody (yield t) v refl (q ∙ policy) (b ∙ n)))
