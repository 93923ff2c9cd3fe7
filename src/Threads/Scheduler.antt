-- ===== src/Threads/Scheduler.antt =====
-- `my_scheduler` of hw4/userthread.cpp, lines 553 to 790. Its four branches find the next thread, or
-- nobody; `dispatch_thread` is what follows them.
use opearting_system.Base.{
  ℕ, suc, true, false, Option, none, some, List, [], ◌∷◌, ◌++◌, if◌then◌else◌,
}
use opearting_system.Base.Int.{ℤ, eqb_ℤ}
use opearting_system.Threads.State.{
  Thread, fifo, sjf, priority, created, scheduled, stopped, finished, yielded, Library, Platform,
  Inputs, Outcome, runs, fault, to_thread, to_main, dispatch, first_level, second_level,
  third_level, find_by_tid, write, mask, note,
}
use opearting_system.Threads.Queues.{
  choose_next_thread_fifo, choose_next_thread_sjf, choose_next_thread_pri,
}
use opearting_system.Threads.Times.{set_start_time, set_end_time, set_estimated_time}

-- The end of a branch: the next thread, nobody, nobody with SIGALRM still blocked, or an access
-- through NULL.
pub data Pick (R : Type 0) : Type 0 where
  picked : ℕ → Library R → Pick R
  nobody : Library R → Pick R
  misfit : Library R → Pick R
  undefined : Pick R

module _ {R : Type 0} where
  abbrev pub settle : Library R → Option (ℕ × Library R) → Pick R
  settle s none = nobody s
  settle s (some (id, t)) = picked id t

  abbrev pub push_fifo : ℕ → Library R → Library R
  push_fifo id s = record s { ready_fifo = s.ready_fifo ++ id ∷ [] }

  abbrev pub push_sjf : ℕ → ℤ → Library R → Library R
  push_sjf id cost s = record s { ready_sjf = s.ready_sjf ++ record { id = id; cost = cost } ∷ [] }

  abbrev pub push_first : ℕ → Library R → Library R
  push_first id s = record s { ready_first = s.ready_first ++ id ∷ [] }

  abbrev pub push_second : ℕ → Library R → Library R
  push_second id s = record s { ready_second = s.ready_second ++ id ∷ [] }

  abbrev pub push_third : ℕ → Library R → Library R
  push_third id s = record s { ready_third = s.ready_third ++ id ∷ [] }

  abbrev pub push_suspended : ℕ → Thread R → Thread R
  push_suspended id t = record t { suspended_queue = t.suspended_queue ++ id ∷ [] }

  -- The three loops that empty the suspended queue of a thread that has finished.
  unfoldable pub wake_fifo : List ℕ → Library R → Library R
  wake_fifo [] s = s
  wake_fifo (id ∷ ids) s = wake_fifo ids (push_fifo id s)

  unfoldable pub wake_sjf : Platform R → List ℕ → Library R → Option (Library R)
  wake_sjf p [] s = some s
  wake_sjf p (id ∷ ids) s = elim (find_by_tid id s.thread_list) [
    | none ↦ none
    | some t ↦ wake_sjf p ids (push_sjf id (p.to_int t.estimated_runtime) s)
  ]

  unfoldable pub push_level : ℤ → ℕ → Library R → Library R
  push_level level id s =
      if eqb_ℤ level first_level
      then push_first id s
      else if eqb_ℤ level second_level
      then push_second id s
      else push_third id s

  unfoldable pub wake_pri : List ℕ → Library R → Option (Library R)
  wake_pri [] s = some s
  wake_pri (id ∷ ids) s = elim (find_by_tid id s.thread_list) [
    | none ↦ none
    | some t ↦ wake_pri ids (push_level t.level id s)
  ]

  module _ (p : Platform R) (i : Inputs) where
    -- The function that each policy has for its queues.
    unfoldable pub choose_next_thread : Library R → Option (ℕ × Library R)
    choose_next_thread s = elim s.policy [
      | fifo ↦ choose_next_thread_fifo s
      | sjf ↦ choose_next_thread_sjf p s
      | priority ↦ choose_next_thread_pri i.rand s
    ]

    unfoldable pub wake : List ℕ → Library R → Option (Library R)
    wake ids s = elim s.policy [
      | fifo ↦ some (wake_fifo ids s)
      | sjf ↦ wake_sjf p ids s
      | priority ↦ wake_pri ids s
    ]

    unfoldable pub after_finished : Thread R → Library R → Pick R
    after_finished t s =
        let emptied = write t.tid (λ u. record u { suspended_queue = [] }) s in
        elim (wake t.suspended_queue emptied) [
          | none ↦ undefined
          | some woken ↦ settle woken (choose_next_thread woken)
        ]

    -- What SJF does to a thread that leaves the processor.
    unfoldable pub end_run : Thread R → Thread R
    end_run t =
        let u = set_estimated_time p (set_end_time i.end_clock t) in
        record u { yield_count = suc u.yield_count }

    unfoldable pub yield_fifo : Thread R → Library R → Pick R
    yield_fifo t s = let u = push_fifo t.tid s in settle u (choose_next_thread u)

    -- The next thread is chosen before this one joins the queue.
    unfoldable pub yield_sjf : Thread R → Library R → Pick R
    yield_sjf t s =
        let u = write t.tid end_run s in
        elim (choose_next_thread u) [
          | none ↦ nobody u
          | some (id, v) ↦ picked id (push_sjf t.tid (p.to_int (end_run t).estimated_runtime) v)
        ]

    unfoldable pub yield_pri : Thread R → Library R → Pick R
    yield_pri t s =
        let settled = λ (u : Library R). settle u (choose_next_thread u) in
        if eqb_ℤ t.level first_level
        then settled (push_first t.tid s)
        else if eqb_ℤ t.level second_level
        then settled (push_second t.tid s)
        else if eqb_ℤ t.level third_level
        then settled (push_third t.tid s)
        else misfit s

    unfoldable pub after_yield : Thread R → Library R → Pick R
    unfolding yield_fifo yield_sjf yield_pri
    after_yield t s = elim s.policy [
      | fifo ↦ yield_fifo t s
      | sjf ↦ yield_sjf t s
      | priority ↦ yield_pri t s
    ]

    -- The thread joins the queue of the one that it waits for, unless no other is ready.
    unfoldable pub suspend : Thread R → ℕ → Library R → Pick R
    suspend t id s = elim t.wait_tid [
      | none ↦ undefined
      | some w ↦ elim (find_by_tid w s.thread_list) [
        | none ↦ undefined
        | some target ↦ picked id (write w (push_suspended t.tid) s)
      ]
    ]

    unfoldable pub after_stopped : Thread R → Library R → Pick R
    unfolding suspend
    after_stopped t s =
        let u : Library R = elim s.policy [ sjf ↦ write t.tid end_run s | _ ↦ s ] in
        elim (choose_next_thread u) [ none ↦ nobody u | some (id, v) ↦ suspend t id v ]

    -- A thread that is in no state to leave the processor leaves `nextID` without a value.
    unfoldable pub after_current : Thread R → Library R → Pick R
    after_current t s = elim t.status [
      | finished ↦ after_finished t s
      | yielded ↦ after_yield t s
      | stopped ↦ after_stopped t s
      | created ↦ undefined
      | scheduled ↦ undefined
    ]

    unfoldable pub go_main : Library R → Outcome R
    go_main s = runs (record s { current_active = none }) to_main

    -- The next thread as the scheduler marks it, and as `current_active`.
    unfoldable pub dispatched : ℕ → Thread R → Library R → Library R
    dispatched id t s =
        let marked = write id (λ u. record u { active = true; status = scheduled }) s in
        let logged = record (note i.next_clock dispatch t marked) { current_active = some id } in
        write id (set_start_time i.start_clock) logged

    -- The timer is set anew, and the context of the thread taken up.
    unfoldable pub switch_to : ℕ → Library R → Outcome R
    unfolding go_main
    switch_to id s = elim s.policy [
      | priority ↦
          if i.timer_set then runs (mask false s) (to_thread id) else go_main (mask false s)
      | _ ↦ runs s (to_thread id)
    ]

    unfoldable pub dispatch_thread : ℕ → Library R → Outcome R
    unfolding dispatched switch_to
    dispatch_thread id s = elim (find_by_tid id s.thread_list) [
      | none ↦ fault
      | some t ↦ switch_to id (dispatched id t s)
    ]

    unfoldable pub resume : Pick R → Outcome R
    unfolding dispatch_thread go_main
    resume (picked id s) = dispatch_thread id s
    resume (nobody s) = go_main (mask false s)
    resume (misfit s) = go_main s
    resume undefined = fault

    unfoldable pub my_scheduler : Library R → Outcome R
    unfolding resume
    my_scheduler s =
        let masked = mask true s in
        elim s.current_active [
          | none ↦ resume (settle masked (choose_next_thread masked))
          | some id ↦ elim (find_by_tid id s.thread_list) [
            | none ↦ fault
            | some t ↦ resume (after_current t (write id (λ u. record u { active = false }) masked))
          ]
        ]
