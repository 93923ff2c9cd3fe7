-- ===== src/Threads/Sound/Halting.antt =====
-- The calls by which a thread leaves the processor: nobody is lost or doubled while a thread is ready.
use mathlib.Core.Path.{subst}
use opearting_system.Base.Sums.{one, one_self}
use opearting_system.Base.{ℕ, ◌≤◌, ◌≡◌, refl, sym, Bool, true, false, none, some, arith, ap, ◌∙◌}
use opearting_system.Threads.State.{
  Thread, Library, Platform, Inputs, Status, stopped, finished, yielded, Outcome, runs, fault,
  Control, returns, to_thread, to_main, exits, Event, halt, completion, find_by_tid, write, mask,
  note,
}
use opearting_system.Threads.Scheduler.{my_scheduler}
use opearting_system.Threads.Calls.{
  halt_thread, thread_yield, thread_join, thread_wrapper, sigalarm_handler,
}
use opearting_system.Threads.Places.{stored, named, here}
use opearting_system.Threads.Places.Lists.{find-modify_self, find-named}
use opearting_system.Threads.Places.Choose.{IsPriorityQueue}
use opearting_system.Threads.Places.Branches.{Keeps, IsQuiet, write-quiet}
use opearting_system.Threads.Places.Leaving.{MayLeave, kept_as}
use opearting_system.Threads.Places.Turn.{
  Ends, Turned, mask_lem, my_scheduler-Idle, my_scheduler-Turned, Allowed-Keeps,
}
use opearting_system.Threads.Sound.{IsSound}

module _ {R : Type 0} where
  Turned-from :
      (kept : ℕ → ℕ) (timer : Bool) (s t u : Library R) (c : Control)
      → Keeps s t
      → ((x : ℕ) → stored x t ≡ stored x s)
      → Turned kept timer t u c
      → Turned kept timer s u c
  Turned-from kept timer s t u (to_thread id) k e (l, a, f) = (
    (l.0 ∙ k.0, l.1 ∙ k.1, l.2 ∙ k.2, (λ x. l.3 x ∙ k.3 x), λ a. l.4 (k.4 a)),
    a,
    λ x. omega (arith, e x, f x),
  )
  Turned-from kept timer s t u to_main k e (l, a, f, n) = (
    (l.0 ∙ k.0, l.1 ∙ k.1, l.2 ∙ k.2, (λ x. l.3 x ∙ k.3 x), λ a. l.4 (k.4 a)),
    a,
    (λ x. omega (arith, e x, f x)),
    λ h. ((n h).0, λ x. (n h).1 x ∙ e x),
  )
  Turned-from kept timer s t u (returns n) k e h = h
  Turned-from kept timer s t u exits k e h = h

  pub Ends-mono :
      (P Q : Library R → Control → Type 0) (r : Outcome R)
      → ((t : Library R) (c : Control) → P t c → Q t c)
      → Ends P r
      → Ends Q r
  Ends-mono P Q (runs t c) imp h = imp t c h
  Ends-mono P Q fault imp h = h

  module _ (p : Platform R) (queue : IsPriorityQueue p.extract) (i : Inputs) where
    -- A thread's state is set, a line is logged, and the scheduler runs.
    leaves :
        (id : ℕ) (f : Thread R → Thread R) (e : Event) (t : Thread R) (s : Library R)
        → IsQuiet f
        → s.current_active ≡ some id
        → find_by_tid id s.thread_list ≡ some t
        → MayLeave (f t) s.thread_list
        → IsSound s
        → Ends
            (Turned (kept_as (f t).status id) i.timer_set s)
            (my_scheduler p i (note i.log_clock e t (write id f s)))
    unfolding note
    leaves id f e t s q active found may (all, _, _, levels) =
        let (k, w) = write-quiet id f s q in
        let left = note i.log_clock e t (write id f s) in
        Ends-mono (Turned (kept_as (f t).status id) i.timer_set left) _ (my_scheduler p i left)
          (λ u c h. Turned-from _ i.timer_set s left u c k (λ x. omega (arith, w x)) h)
          (my_scheduler-Turned p queue i id (f t) left active
            (find-modify_self id f s.thread_list t (λ u. (q u).0) found)
            (Allowed-Keeps (f t).status (f t).wait_tid s.thread_list left.thread_list k.3 may)
            (k.4 levels) (λ x. omega (arith, w x, all x, k.3 x)))

    -- `current_active` of a sound state points to a thread.
    pub current-found :
        (id : ℕ) (s : Library R)
        → s.current_active ≡ some id
        → IsSound s
        → (t : Thread R) × (find_by_tid id s.thread_list ≡ some t)
    current-found id s active (all, _, _, _) =
        find-named id s.thread_list (omega (arith, all id, ap (here id) active, one_self id))

    halt_thread-Turned :
        (id : ℕ) (f : Thread R → Thread R) (q : Status) (s : Library R)
        → IsQuiet f
        → ((t : Thread R) → ((f t).status ≡ q) × MayLeave (f t) s.thread_list)
        → s.current_active ≡ some id
        → IsSound s
        → Ends (Turned (kept_as q id) i.timer_set s) (halt_thread p id f i s)
    halt_thread-Turned id f q s quiet may active sound =
        let (t, found) = current-found id s active sound in
        let computes : halt_thread p id f i s
            ≡ my_scheduler p i (note i.log_clock halt t (write id f s)) =
          ground (arith, found) in
        subst (λ o. Ends (Turned (kept_as q id) i.timer_set s) o) (sym computes)
          (subst
            (λ k.
              Ends (Turned (kept_as k id) i.timer_set s)
                (my_scheduler p i (note i.log_clock halt t (write id f s))))
            (may t).0 (leaves id f halt t s quiet active found (may t).1 sound))

    -- SIGALRM is blocked and released.
    pub remask :
        (s : Library R) → (c : Bool) × (mask false (mask true s) ≡ record s { blocked = c })
    remask s =
        let (c, first) = mask_lem true s in
        let (d, second) = mask_lem false (record s { blocked = c }) in
        (d, ap (mask false) first ∙ second)

    -- A thread yields: its id joins a queue, and the next thread's id leaves its own.
    pub thread_yield-Turned :
        (id : ℕ) (s : Library R)
        → s.initialized ≡ true
        → s.current_active ≡ some id
        → IsSound s
        → Ends (Turned (λ x. one x id) i.timer_set s) (thread_yield p i s)
    unfolding thread_yield
    thread_yield-Turned id s init active sound =
        let (c, masked) = remask s in
        let yield = λ (t : Thread R). record t { status = yielded } in
        let computes : thread_yield p i s ≡ halt_thread p id yield i (record s { blocked = c }) =
          ground (arith, init, active, masked) in
        subst (λ o. Ends (Turned (λ x. one x id) i.timer_set s) o) (sym computes)
          (halt_thread-Turned id yield yielded (record s { blocked = c }) (λ t. (refl, refl, refl))
            (λ t. (refl, tt)) active sound)

    -- In a sound state, under every policy, a thread that joins a thread of the list leaves the
    -- processor without a fault. If a thread runs next, every id stands as often in all queues and
    -- in `current_active` as before. If `main` does, no id stands there more often, and where the
    -- timer could be set nobody is ready and only the id of the joining thread is gone.
    pub thread_join-Turned :
        (w id : ℕ) (s : Library R)
        → s.initialized ≡ true
        → s.current_active ≡ some id
        → 1 ≤ named w s.thread_list
        → IsSound s
        → Ends (Turned (λ x. one x id) i.timer_set s) (thread_join p w i s)
    unfolding thread_join
    thread_join-Turned w id s init active target sound =
        let (c, masked) = remask s in
        let (u, there) = find-named w s.thread_list target in
        let wait = λ (t : Thread R). record t { status = stopped; wait_tid = some w } in
        let computes : thread_join p w i s ≡ halt_thread p id wait i (record s { blocked = c }) =
          ground (arith, init, active, masked, there) in
        subst (λ o. Ends (Turned (λ x. one x id) i.timer_set s) o) (sym computes)
          (halt_thread-Turned id wait stopped (record s { blocked = c }) (λ t. (refl, refl, refl))
            (λ t. (refl, (w, refl, target))) active sound)

    pub sigalarm_handler-Turned :
        (id : ℕ) (s : Library R)
        → s.current_active ≡ some id
        → IsSound s
        → Ends (Turned (λ x. one x id) i.timer_set s) (sigalarm_handler p i s)
    unfolding sigalarm_handler
    sigalarm_handler-Turned id s active sound =
        let (c, masked) = remask s in
        let yield = λ (t : Thread R). record t { status = yielded } in
        let computes : sigalarm_handler p i s
            ≡ halt_thread p id yield i (record s { blocked = c }) =
          ground (arith, active, masked) in
        subst (λ o. Ends (Turned (λ x. one x id) i.timer_set s) o) (sym computes)
          (halt_thread-Turned id yield yielded (record s { blocked = c }) (λ t. (refl, refl, refl))
            (λ t. (refl, tt)) active sound)

    pub thread_wrapper-Turned :
        (id : ℕ) (s : Library R)
        → s.current_active ≡ some id
        → IsSound s
        → Ends (Turned (λ x. 0) i.timer_set s) (thread_wrapper p i s)
    unfolding thread_wrapper
    thread_wrapper-Turned id s active sound =
        let end = λ (t : Thread R). record t { status = finished } in
        let (t, found) = current-found id s active sound in
        let computes : thread_wrapper p i s
            ≡ my_scheduler p i (note i.log_clock completion t (write id end s)) =
          ground (arith, active, found) in
        subst (λ o. Ends (Turned (λ x. 0) i.timer_set s) o) (sym computes)
          (leaves id end completion t s (λ u. (refl, refl, refl)) active found tt sound)

    -- `main` gives the processor away by a yield, or an alarm takes it.
    pub idle-Turned :
        (s : Library R) (c : Bool)
        → s.current_active ≡ none
        → IsSound s
        → Ends (Turned (λ x. 0) i.timer_set s) (my_scheduler p i (record s { blocked = c }))
    idle-Turned s c active (all, _, _, _) =
        my_scheduler-Idle p queue i (record s { blocked = c }) active (λ x. omega (arith, all x))
