-- ===== src/Threads/Places/Turn.antt =====
-- One turn of `my_scheduler`: who is put on the processor, and where the ids stand afterwards.
use mathlib.Core.Path.{subst}
use opearting_system.Base.Sums.{occurs, one, one_self}
use opearting_system.Base.{
  ℕ, ◌+◌, ◌≤◌, ◌≡◌, refl, Bool, true, false, Option, none, some, List, arith, if◌then◌else◌,
  Bool-cases, inl, inr, All, ap, sym, ◌∙◌,
}
use opearting_system.Threads.State.{
  Thread, fifo, sjf, priority, Status, created, scheduled, stopped, finished, yielded, Library,
  Platform, Inputs, find_by_tid, write, mask, note, Control, returns, to_thread, to_main, exits,
  Outcome, runs, fault,
}
use opearting_system.Threads.Times.{set_start_time}
use opearting_system.Threads.Scheduler.{
  Pick, picked, nobody, misfit, undefined, settle, choose_next_thread, after_current, go_main,
  dispatched, switch_to, dispatch_thread, resume, my_scheduler,
}
use opearting_system.Threads.Places.{named, stored, placed, here}
use opearting_system.Threads.Places.Lists.{
  find-named, find-modify_self, All-find, named-find, weigh-find,
}
use opearting_system.Threads.Places.Choose.{NoneReady, IsPriorityQueue, choose_next_thread-Taken}
use opearting_system.Threads.Places.Branches.{
  HasLevel, Keeps, Accounted, write-quiet, settle-Accounted,
}
use opearting_system.Threads.Places.Leaving.{MayLeave, Allowed, kept_as, after_current-Accounted}

kept_as-le : (q : Status) (id x : ℕ) → kept_as q id x ≤ one x id
kept_as-le q id x = ground arith

module _ {R : Type 0} where
  -- The call ends, without a fault, and `P` holds of its end.
  abbrev pub Ends : (Library R → Control → Type 0) → Outcome R → Type 0
  Ends P (runs s c) = P s c
  Ends P fault = ⊥

  -- The end of a turn that starts with the queues of `s`; `kept` has the ids that should join them.
  -- Only a timer that cannot be set leads back to `main` while a thread is ready.
  abbrev pub Turned : (ℕ → ℕ) → Bool → Library R → Library R → Control → Type 0
  Turned kept timer s t (to_thread id) =
      Keeps s t × (t.current_active ≡ some id) × ((x : ℕ) → placed x t ≡ stored x s + kept x)
  Turned kept timer s t to_main =
      Keeps s t
      × (t.current_active ≡ none)
      × ((x : ℕ) → placed x t ≤ stored x s + kept x)
      × (timer ≡ true → NoneReady t × ((x : ℕ) → placed x t ≡ stored x s))
  Turned kept timer s t (returns n) = ⊥
  Turned kept timer s t exits = ⊥

  -- The mask is one field.
  pub mask_lem : (b : Bool) (s : Library R) → (c : Bool) × (mask b s ≡ record s { blocked = c })
  unfolding mask
  mask_lem b s =
      elim s.policy
        as (λ q.
          (c : Bool) × ((elim q [ priority ↦ record s { blocked = b } | _ ↦ s ])
            ≡ record s { blocked = c })) [
              | fifo ↦ (s.blocked, refl)
              | sjf ↦ (s.blocked, refl)
              | priority ↦ (b, refl)
            ]

  pub Allowed-Keeps :
      (q : Status) (wait : Option ℕ) (ts us : List (Thread R))
      → ((x : ℕ) → named x us ≡ named x ts)
      → Allowed q wait ts
      → Allowed q wait us
  Allowed-Keeps stopped wait ts us same (w, e, n) = (w, e, rw (same w) n)
  Allowed-Keeps finished wait ts us same h = h
  Allowed-Keeps yielded wait ts us same h = h
  Allowed-Keeps created wait ts us same h = h
  Allowed-Keeps scheduled wait ts us same h = h

  Accounted-from :
      (kept : ℕ → ℕ) (s t : Library R) (r : Pick R)
      → Keeps s t
      → t.current_active ≡ s.current_active
      → ((x : ℕ) → stored x t ≡ stored x s)
      → Accounted kept t r
      → Accounted kept s r
  Accounted-from kept s t (picked id u) k c e (l, d, f) = (
    (l.0 ∙ k.0, l.1 ∙ k.1, l.2 ∙ k.2, (λ x. l.3 x ∙ k.3 x), λ a. l.4 (k.4 a)),
    d ∙ c,
    λ x. omega (arith, e x, f x),
  )
  Accounted-from kept s t (nobody u) k c e (l, n, f) = (
    (l.0 ∙ k.0, l.1 ∙ k.1, l.2 ∙ k.2, (λ x. l.3 x ∙ k.3 x), λ a. l.4 (k.4 a)),
    n,
    λ x. omega (arith, e x, f x),
  )
  Accounted-from kept s t (misfit u) k c e h = h
  Accounted-from kept s t undefined k c e h = h

  module _ (p : Platform R) (queue : IsPriorityQueue p.extract) (i : Inputs) where
    go_main-Turned :
        (kept : ℕ → ℕ) (s t : Library R)
        → Keeps s t
        → ((x : ℕ) → stored x t ≤ stored x s + kept x)
        → (i.timer_set ≡ true → NoneReady t × ((x : ℕ) → stored x t ≡ stored x s))
        → Ends (Turned kept i.timer_set s) (go_main p i (mask false t))
    unfolding go_main
    go_main-Turned kept s t k le n =
        let (c, e) = mask_lem false t in
        subst (λ u. Ends (Turned kept i.timer_set s) (go_main p i u)) (sym e)
          (k, refl, (λ x. omega (arith, le x)), λ h. ((n h).0, λ x. omega (arith, (n h).1 x)))

    dispatched_lem :
        (id : ℕ) (t : Thread R) (s : Library R)
        → Keeps s (dispatched p i id t s)
          × ((x : ℕ) → stored x (dispatched p i id t s) ≡ stored x s)
    unfolding dispatched note set_start_time
    dispatched_lem id t s =
        let mark = λ (u : Thread R). record u { active = true; status = scheduled } in
        let first = write-quiet id mark s (λ u. (refl, refl, refl)) in
        let marked = record (write id mark s) { current_active = some id } in
        let second =
          write-quiet id (set_start_time i.start_clock) marked (λ u. (refl, refl, refl)) in
        (
          (refl, refl, refl, (λ x. second.0.3 x ∙ first.0.3 x), λ a. second.0.4 (first.0.4 a)),
          λ x. omega (arith, first.1 x, second.1 x),
        )

    dispatched-current :
        (id : ℕ) (t : Thread R) (s : Library R) → (dispatched p i id t s).current_active ≡ some id
    unfolding dispatched
    dispatched-current id t s = refl

    switch_to-Turned :
        (kept : ℕ → ℕ) (id : ℕ) (s t : Library R)
        → Keeps s t
        → t.current_active ≡ some id
        → ((x : ℕ) → placed x t ≡ stored x s + kept x)
        → Ends (Turned kept i.timer_set s) (switch_to p i id t)
    unfolding switch_to
    switch_to-Turned kept id s t k c e =
        let (b, masked) = mask_lem false t in
        elim t.policy
          as (λ q. Ends (Turned kept i.timer_set s) (elim q [
            | priority ↦
                if i.timer_set
                then runs (mask false t) (to_thread id)
                else go_main p i (mask false t)
            | _ ↦ runs t (to_thread id)
          ])) [
            | fifo ↦ (k, c, e)
            | sjf ↦ (k, c, e)
            | priority ↦ elim (Bool-cases i.timer_set) [
              | inl set ↦
                  subst
                    (λ f. Ends (Turned kept f s) (
                      if f then runs (mask false t) (to_thread id) else go_main p i (mask false t)))
                    (sym set)
                    (subst (λ u. Turned kept true s u (to_thread id)) (sym masked) (k, c, e))
              | inr unset ↦
                  rw (unset, Ends)
                    (go_main-Turned kept s t k (λ x. omega (arith, e x, ap (here x) c))
                      λ h. absurd (cc))
            ]
          ]

    dispatch_thread-Turned :
        (kept : ℕ → ℕ) (id : ℕ) (s t : Library R)
        → 1 ≤ named id t.thread_list
        → Keeps s t
        → ((x : ℕ) → one x id + stored x t ≡ stored x s + kept x)
        → Ends (Turned kept i.timer_set s) (dispatch_thread p i id t)
    unfolding dispatch_thread
    dispatch_thread-Turned kept id s t n k e =
        let (u, found) = find-named id t.thread_list n in
        let (d, same) = dispatched_lem id u t in
        let computes : dispatch_thread p i id t ≡ switch_to p i id (dispatched p i id u t) =
          ground (arith, found) in
        subst (λ o. Ends (Turned kept i.timer_set s) o) (sym computes)
          (switch_to-Turned kept id s (dispatched p i id u t)
            (d.0 ∙ k.0, d.1 ∙ k.1, d.2 ∙ k.2, (λ x. d.3 x ∙ k.3 x), λ a. d.4 (k.4 a))
            (dispatched-current id u t)
            (λ x. omega (arith, e x, same x, ap (here x) (dispatched-current id u t))))

    resume-Turned :
        (kept : ℕ → ℕ) (s : Library R) (r : Pick R)
        → ((x : ℕ) → stored x s + kept x ≤ named x s.thread_list)
        → Accounted kept s r
        → Ends (Turned kept i.timer_set s) (resume p i r)
    unfolding resume
    resume-Turned kept s (picked id t) all (k, c, e) =
        dispatch_thread-Turned kept id s t (omega (arith, k.3 id, e id, all id, one_self id)) k e
    resume-Turned kept s (nobody t) all (k, n, e) =
        go_main-Turned kept s t k (λ x. omega (arith, e x)) λ h. (n, e)
    resume-Turned kept s (misfit t) all h = absurd h
    resume-Turned kept s undefined all h = absurd h

    -- With no current thread, the ids that stand in a queue stay, less the one that is taken.
    pub my_scheduler-Idle :
        (s : Library R)
        → s.current_active ≡ none
        → ((x : ℕ) → stored x s ≤ named x s.thread_list)
        → Ends (Turned (λ x. 0) i.timer_set s) (my_scheduler p i s)
    unfolding my_scheduler
    my_scheduler-Idle s none_active all =
        let (c, masked) = mask_lem true s in
        let t : Library R = record s { blocked = c } in
        let r : Pick R = settle t (choose_next_thread p i t) in
        let computes : my_scheduler p i s ≡ resume p i r = ground (arith, none_active, masked) in
        subst (λ o. Ends (Turned (λ x. 0) i.timer_set s) o) (sym computes)
          (resume-Turned (λ x. 0) s r (λ x. omega (arith, all x))
            (settle-Accounted (λ x. 0) s t (choose_next_thread p i t)
              (refl, refl, refl, (λ x. refl), λ a. a) refl (λ x. omega arith) (λ n x. refl)
              (choose_next_thread-Taken p queue i t)))

    -- With a current thread that may leave, its id joins a queue, unless it has finished or nobody
    -- else is ready.
    pub my_scheduler-Turned :
        (id : ℕ) (t : Thread R) (s : Library R)
        → s.current_active ≡ some id
        → find_by_tid id s.thread_list ≡ some t
        → MayLeave t s.thread_list
        → All HasLevel s.thread_list
        → ((x : ℕ) → placed x s ≤ named x s.thread_list)
        → Ends (Turned (kept_as t.status id) i.timer_set s) (my_scheduler p i s)
    unfolding my_scheduler
    my_scheduler-Turned id t s active found may levels all =
        let idle = λ (u : Thread R). record u { active = false } in
        let (c, masked) = mask_lem true s in
        let left : Library R = write id idle (record s { blocked = c }) in
        let quiet = write-quiet id idle s (λ u. (refl, refl, refl)) in
        let r : Pick R = after_current p i t left in
        let computes : my_scheduler p i s ≡ resume p i r = ground (arith, active, found, masked) in
        let tid = (named-find id s.thread_list t found).1 in
        let kept = kept_as t.status id in
        let there : find_by_tid id left.thread_list ≡ some (idle t) =
          find-modify_self id idle s.thread_list t (λ u. refl) found in
        let done : Accounted kept left r =
          subst (λ k. Accounted (kept_as t.status k) left r) tid
            (after_current-Accounted p queue i t (idle t) left
              (subst (λ k. find_by_tid k left.thread_list ≡ some (idle t)) (sym tid) there) refl
              (λ x m. omega (
                arith,
                quiet.0.3 x,
                all x,
                weigh-find (λ u. occurs x u.suspended_queue) id s.thread_list t found,
              ))
              (All-find HasLevel id s.thread_list t levels found)
              (Allowed-Keeps t.status t.wait_tid s.thread_list left.thread_list quiet.0.3 may)) in
        subst (λ o. Ends (Turned kept i.timer_set s) o) (sym computes)
          (resume-Turned kept s r
            (λ x. omega (arith, all x, ap (here x) active, kept_as-le t.status id x))
            (Accounted-from kept s left r quiet.0 refl (λ x. omega (arith, quiet.1 x)) done))
