-- ===== src/Threads/Calls.antt =====
-- hw4/userthread.cpp, lines 107 to 274, 537 to 551 and 792 to 817: the calls of a thread or of `main`,
-- the end of a thread and the handler of SIGALRM.
use opearting_system.Base.{
  ℕ, suc, ◌/◌, Bool, true, false, not, ◌||◌, none, some, [], ◌∷◌, ◌++◌, if◌then◌else◌,
}
use opearting_system.Base.Int.{ℤ, pos, eqb_ℤ}
use opearting_system.Threads.State.{
  Thread, fifo, sjf, priority, created, stopped, finished, yielded, Library, Platform, Inputs,
  Outcome, runs, fault, returns, exits, creation, halt, completion, exit_with_error, quanta,
  first_level, second_level, third_level, find_by_tid, write, mask, note,
}
use opearting_system.Threads.Times.{average_time_so_far}
use opearting_system.Threads.Scheduler.{
  push_fifo, push_sjf, push_first, push_second, push_third, my_scheduler,
}

abbrev pub is_level : ℤ → Bool
is_level l = eqb_ℤ l first_level || eqb_ℤ l second_level || eqb_ℤ l third_level

module _ {R : Type 0} (p : Platform R) where
  unfoldable pub new_thread : ℤ → Library R → Thread R
  new_thread level s = record {
    tid = s.thread_count;
    status = created;
    active = false;
    policy = s.policy;
    level = level;
    yield_count = 0;
    wait_tid = none;
    time_first = pos 0;
    time_second = pos 0;
    time_third = pos 0;
    estimated_runtime = average_time_so_far p s.thread_count s.thread_list;
    start_time = pos 0;
    end_time = pos 0;
    suspended_queue = [];
  }

  unfoldable pub enqueue_new : ℤ → Library R → Library R
  enqueue_new level s = elim s.policy [
    | fifo ↦ push_fifo s.thread_count s
    | sjf ↦ push_sjf s.thread_count (pos (quanta / 2)) s
    | priority ↦
        if eqb_ℤ level first_level
        then push_first s.thread_count s
        else if eqb_ℤ level second_level
        then push_second s.thread_count s
        else push_third s.thread_count s
  ]

  -- The state after `thread_count++`, where the stack was allocated.
  unfoldable pub add_thread : ℤ → Inputs → Library R → Library R
  unfolding new_thread enqueue_new
  add_thread level i s =
      let t = new_thread level s in
      note i.log_clock creation t
        (enqueue_new level (record s { thread_list = s.thread_list ++ t ∷ [] }))

  -- `given` says whether `func` is a function, and not NULL.
  unfoldable pub thread_create : Bool → ℤ → Inputs → Library R → Library R × ℤ
  unfolding add_thread
  thread_create given level i s =
      let counted = record s { thread_count = suc s.thread_count } in
      if not (is_level level)
      then (s, exit_with_error)
      else if not given
      then (s, exit_with_error)
      else if not s.initialized
      then (s, exit_with_error)
      else if not i.malloc_ok
      then (counted, exit_with_error)
      else (add_thread level i counted, pos (suc s.thread_count))

  -- The thread at the pointer `id` changes its state, with a line in the log, and the scheduler runs.
  abbrev pub halt_thread : ℕ → (Thread R → Thread R) → Inputs → Library R → Outcome R
  halt_thread id f i s = elim (find_by_tid id s.thread_list) [
    | none ↦ fault
    | some t ↦ my_scheduler p i (note i.log_clock halt t (write id f s))
  ]

  unfoldable pub thread_yield : Inputs → Library R → Outcome R
  thread_yield i s =
      let masked = mask true s in
      if s.initialized
      then elim s.current_active [
        | none ↦ my_scheduler p i (mask false masked)
        | some id ↦ halt_thread id (λ t. record t { status = yielded }) i (mask false masked)
      ]
      else runs s (returns exit_with_error)

  -- A negative argument names no thread, and neither does 0.
  unfoldable pub thread_join : ℕ → Inputs → Library R → Outcome R
  thread_join tid i s =
      let masked = mask true s in
      let wait = λ (t : Thread R). record t { status = stopped; wait_tid = some tid } in
      if s.initialized
      then elim (find_by_tid tid s.thread_list) [
        | none ↦ runs masked (returns exit_with_error)
        | some target ↦ elim s.current_active [
          | none ↦ my_scheduler p i (mask false masked)
          | some id ↦ halt_thread id wait i (mask false masked)
        ]
      ]
      else runs s (returns exit_with_error)

  -- `thread_wrapper` from where the thread's own function has returned. `uc_link` is 0.
  unfoldable pub thread_wrapper : Inputs → Library R → Outcome R
  thread_wrapper i s = elim s.current_active [
    | none ↦ runs s exits
    | some id ↦ elim (find_by_tid id s.thread_list) [
      | none ↦ fault
      | some t ↦
          my_scheduler p i
            (note i.log_clock completion t (write id (λ u. record u { status = finished }) s))
    ]
  ]

  unfoldable pub sigalarm_handler : Inputs → Library R → Outcome R
  sigalarm_handler i s =
      let masked = mask true s in
      elim s.current_active [
        | none ↦ my_scheduler p i masked
        | some id ↦ halt_thread id (λ t. record t { status = yielded }) i (mask false masked)
      ]
