-- ===== src/Threads/RoundRobin/Promise.antt =====
-- The calls by which a thread gives the processor away under FIFO, against the queue of ids.
use mathlib.Core.Path.{subst}
use opearting_system.Base.{ℕ, ◌≡◌, ◌≤◌, refl, sym, ap, ◌∙◌, true, some, arith}
use opearting_system.Threads.State.{
  Thread, Library, Platform, Inputs, fifo, stopped, yielded, finished, Outcome, Event, halt,
  completion, find_by_tid, write, note,
}
use opearting_system.Threads.Scheduler.{my_scheduler}
use opearting_system.Threads.Calls.{thread_yield, thread_join, thread_wrapper}
use opearting_system.Threads.Places.{named, placed}
use opearting_system.Threads.Places.Lists.{find-modify_self, find-named, named-find}
use opearting_system.Threads.Places.Choose.{IsPriorityQueue}
use opearting_system.Threads.Places.Branches.{IsQuiet, write-quiet}
use opearting_system.Threads.Sound.{IsSound}
use opearting_system.Threads.Sound.Halting.{remask, current-found}
use opearting_system.Threads.RoundRobin.{Robin, rotate, leave, wait_for, view}
use opearting_system.Threads.RoundRobin.Turns.{Shows, view-quiet}
use opearting_system.Threads.RoundRobin.Refine.{turn-yielded, turn-finished, turn-stopped}

-- How a thread gives the processor away.
pub data Handover : Type 0 where
  yields finishes : Handover
  joins : ℕ → Handover

abbrev pub promise : Handover → ℕ → Robin → Robin
promise yields id m = rotate id m
promise finishes id m = leave id m
promise (joins w) id m = wait_for id w m

module _ {R : Type 0} (p : Platform R) where
  abbrev pub hand_over : Handover → Inputs → Library R → Outcome R
  hand_over yields i s = thread_yield p i s
  hand_over finishes i s = thread_wrapper p i s
  hand_over (joins w) i s = thread_join p w i s

  -- The thread that is waited for is there.
  abbrev pub IsPossible : Handover → Library R → Type 0
  IsPossible (joins w) s = 1 ≤ named w s.thread_list
  IsPossible _ s = Unit

  module _ (queue : IsPriorityQueue p.extract) (i : Inputs) where
    -- A thread's state is set, a line is logged, and what the scheduler then shows is `m (view s)`.
    shown :
        (e : Event) (f : Thread R → Thread R) (t : Thread R) (s : Library R) (m : Robin → Robin)
        → ((u : Thread R) → (f u).tid ≡ u.tid)
        → ((u : Thread R) → (f u).suspended_queue ≡ u.suspended_queue)
        → Shows
            (m (view (note i.log_clock e t (write t.tid f s))))
            (my_scheduler p i (note i.log_clock e t (write t.tid f s)))
        → Shows (m (view s)) (my_scheduler p i (note i.log_clock e t (write t.tid f s)))
    unfolding note view
    shown e f t s m same q h =
        subst (λ v. Shows (m v) (my_scheduler p i (note i.log_clock e t (write t.tid f s))))
          (view-quiet t.tid f s same q) h

    -- The state that the scheduler sees has every id in its place.
    left_all :
        (e : Event) (f : Thread R → Thread R) (t : Thread R) (s : Library R)
        → IsQuiet f
        → IsSound s
        → let left = note i.log_clock e t (write t.tid f s) in
          (x : ℕ) → placed x left ≤ named x left.thread_list
    unfolding note
    left_all e f t s q (all, _, _, _) x =
        let (k, w) = write-quiet t.tid f s q in omega (arith, w x, all x, k.3 x)

    module _ (t : Thread R) (s : Library R) (policy : s.policy ≡ fifo) (init : s.initialized ≡ true)
        (active : s.current_active ≡ some t.tid) (found : find_by_tid t.tid s.thread_list ≡ some t)
        (sound : IsSound s) where
      yields-Shows : Shows (rotate t.tid (view s)) (thread_yield p i s)
      unfolding thread_yield note view
      yields-Shows =
          let (c, masked) = remask p queue i s in
          let f = λ (u : Thread R). record u { status = yielded } in
          let masks : Library R = record s { blocked = c } in
          let left = note i.log_clock halt t (write t.tid f masks) in
          let computes : thread_yield p i s ≡ my_scheduler p i left =
            ground (arith, init, active, masked, found) in
          subst (Shows (rotate t.tid (view s))) (sym computes) (
            shown halt f t masks (rotate t.tid) (λ u. refl) (λ u. refl)
              (turn-yielded p i (f t) left policy active
                (find-modify_self t.tid f s.thread_list t (λ u. refl) found)
                (left_all halt f t masks (λ u. (refl, refl, refl)) sound) refl))

      finishes-Shows : Shows (leave t.tid (view s)) (thread_wrapper p i s)
      unfolding thread_wrapper note
      finishes-Shows =
          let f = λ (u : Thread R). record u { status = finished } in
          let left = note i.log_clock completion t (write t.tid f s) in
          let computes : thread_wrapper p i s ≡ my_scheduler p i left =
            ground (arith, active, found) in
          subst (Shows (leave t.tid (view s))) (sym computes) (
            shown completion f t s (leave t.tid) (λ u. refl) (λ u. refl)
              (turn-finished p i (f t) left policy active
                (find-modify_self t.tid f s.thread_list t (λ u. refl) found)
                (left_all completion f t s (λ u. (refl, refl, refl)) sound) refl))

      joins-Shows :
          (w : ℕ)
          → 1 ≤ named w s.thread_list
          → Shows (wait_for t.tid w (view s)) (thread_join p w i s)
      unfolding thread_join note view
      joins-Shows w target =
          let (c, masked) = remask p queue i s in
          let (u, there) = find-named w s.thread_list target in
          let f = λ (u : Thread R). record u { status = stopped; wait_tid = some w } in
          let masks : Library R = record s { blocked = c } in
          let left = note i.log_clock halt t (write t.tid f masks) in
          let computes : thread_join p w i s ≡ my_scheduler p i left =
            ground (arith, init, active, masked, found, there) in
          subst (Shows (wait_for t.tid w (view s))) (sym computes) (
            shown halt f t masks (wait_for t.tid w) (λ u. refl) (λ u. refl)
              (turn-stopped p i (f t) left policy active
                (find-modify_self t.tid f s.thread_list t (λ u. refl) found)
                (left_all halt f t masks (λ u. (refl, refl, refl)) sound) w refl refl
                (omega (arith, target, (write-quiet t.tid f s (λ u. (refl, refl, refl))).0.3 w))))

      given : (h : Handover) → IsPossible h s → Shows (promise h t.tid (view s)) (hand_over h i s)
      given yields possible = yields-Shows
      given finishes possible = finishes-Shows
      given (joins w) possible = joins-Shows w possible

    -- Under FIFO, in a sound state, a thread that yields, finishes or joins a thread of the list leaves
    -- the library as the queue of ids says, without a fault: the running id, the ready queue and those
    -- that wait for each id are, after the call, the promised step from what they were before it.
    pub hand_over-promise :
        (h : Handover) (id : ℕ) (s : Library R)
        → s.policy ≡ fifo
        → s.initialized ≡ true
        → s.current_active ≡ some id
        → IsPossible h s
        → IsSound s
        → Shows (promise h id (view s)) (hand_over h i s)
    hand_over-promise h id s policy init active possible sound =
        let (t, found) = current-found p queue i id s active sound in
        let tid = (named-find id s.thread_list t found).1 in
        subst (λ k. Shows (promise h k (view s)) (hand_over h i s)) tid
          (given t s policy init (active ∙ ap (λ k. some k) (sym tid))
            (subst (λ k. find_by_tid k s.thread_list ≡ some t) (sym tid) found) sound h possible)
