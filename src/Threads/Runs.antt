-- ===== src/Threads/Runs.antt =====
-- Runs of hw4/userthread.cpp, and the theorems at concrete states. The estimates are integers here.
use opearting_system.Base.Sums.{one}
use opearting_system.Base.{
  ℕ, ◌+◌, ◌≤◌, ◌≡◌, refl, ◌⊎◌, Bool, true, false, Option, none, some, List, [], ◌∷◌, arith,
}
use opearting_system.Base.Int.{ℤ, pos, ◌+ℤ◌, ◌/ℤ◌}
use opearting_system.Threads.State.{
  Thread, Policy, fifo, priority, scheduled, Library, Platform, Inputs, mean, exit_with_error,
  find_by_tid, modify, mask, note,
}
use opearting_system.Threads.Queues.{choose_next_thread_fifo, choose_next_thread_pri}
use opearting_system.Threads.Times.{set_start_time, average_time_so_far}
use opearting_system.Threads.Setup.{policy_of, thread_libinit}
use opearting_system.Threads.Scheduler.{
  my_scheduler, wake, wake_fifo, choose_next_thread, after_current, after_yield, after_stopped,
  after_finished,
}
use opearting_system.Threads.Calls.{thread_create, thread_yield, thread_join, thread_wrapper}
use opearting_system.Threads.Session.{Request, create, yield, finish, join, call, run}
use opearting_system.Threads.Least.{extract_least, extract_least-IsPriorityQueue}
use opearting_system.Threads.Places.{placed}
use opearting_system.Threads.Places.Turn.{Ends, Turned}
use opearting_system.Threads.Sound.{IsSound}
use opearting_system.Threads.Sound.Halting.{thread_join-Turned}
use opearting_system.Threads.Sound.Creating.{thread_create-Added}
use opearting_system.Threads.RoundRobin.{view}
use opearting_system.Threads.RoundRobin.Turns.{Shows}
use opearting_system.Threads.RoundRobin.Promise.{joins, promise, hand_over, hand_over-promise}
use opearting_system.Threads.RoundRobin.Fair.{Runs, yielding, run-fair}
use opearting_system.Threads.Lottery.{
  low, middle, high, held, draws, first_ready, preference, choose_next_thread_pri-first_ready,
}
use opearting_system.Threads.Estimates.{one_run, end_run-mean}
use opearting_system.Threads.Dropped.{Dropped, thread_join-Dropped}
use opearting_system.Threads.Refusals.{thread_libinit-refused}

abbrev integers : Platform ℤ
integers = record {
  version = mean;
  of_long = λ n. n;
  to_int = λ n. n;
  add = λ a b. a +ℤ b;
  halve = λ a. a /ℤ 2;
  quotient = λ a n. a /ℤ n;
  extract = extract_least;
}

abbrev blank : Library ℤ
blank = record {
  initialized = false;
  policy = fifo;
  thread_count = 0;
  current_active = none;
  thread_list = [];
  ready_fifo = [];
  ready_sjf = [];
  ready_first = [];
  ready_second = [];
  ready_third = [];
  blocked = false;
  started = pos 0;
  log = [];
  has_scheduler_stack = false;
  has_main_stack = false;
  timer_armed = false;
}

abbrev at_ten : Inputs
at_ten = record {
  end_clock = pos 10;
  log_clock = pos 10;
  next_clock = pos 10;
  start_clock = pos 10;
  rand = 5;
  timer_set = true;
  malloc_ok = true;
}

abbrev thread : ℕ → Thread ℤ
thread id = record {
  tid = id;
  status = scheduled;
  active = true;
  policy = fifo;
  level = pos 0;
  yield_count = 1;
  wait_tid = none;
  time_first = pos 0;
  time_second = pos 0;
  time_third = pos 0;
  estimated_runtime = pos 50;
  start_time = pos 0;
  end_time = pos 0;
  suspended_queue = [];
}

-- The first of three threads runs, and the two others are ready.
abbrev three : Library ℤ
three = record blank {
  initialized = true;
  thread_count = 3;
  current_active = some 1;
  thread_list = thread 1 ∷ thread 2 ∷ thread 3 ∷ [];
  ready_fifo = 2 ∷ 3 ∷ [];
}

-- The first of two threads runs, and nobody is ready: the second waits for it.
abbrev alone : Policy → Library ℤ
alone policy = record blank {
  initialized = true;
  policy = policy;
  thread_count = 2;
  current_active = some 1;
  thread_list = record (thread 1) { suspended_queue = 2 ∷ [] } ∷ thread 2 ∷ [];
}

abbrev asked : Library ℤ
asked = record three { policy = priority; current_active = none; ready_third = 7 ∷ [] }

three-Sound : IsSound three
three-Sound =
    ((λ x. ground arith), (λ x. ground arith), (λ x h. ground arith), (refl, (refl, (refl, tt))))

alone-Sound : (policy : Policy) → IsSound (alone policy)
alone-Sound policy =
    ((λ x. ground arith), (λ x. ground arith), (λ x h. ground arith), (refl, (refl, tt)))

-- Two threads are made; `main` yields, the first joins the second, and both end.
abbrev program : List (Request × Inputs)
program =
    (create true (pos 0), at_ten)
    ∷ (create true (pos 0), at_ten)
    ∷ (yield, at_ten)
    ∷ (join 2, at_ten)
    ∷ (finish, at_ten)
    ∷ (finish, at_ten)
    ∷ []

abbrev ready_after : Option (Library ℤ) → Option (List ℕ × ℕ)
ready_after none = none
ready_after (some s) = some (s.ready_fifo, s.thread_count)

run-program :
    ready_after (run integers program (thread_libinit (pos 0) at_ten true blank).0) ≡ some ([], 2)
unfolding wake_fifo run thread_libinit call thread_create thread_yield thread_join thread_wrapper
    my_scheduler choose_next_thread choose_next_thread_fifo after_current after_yield after_stopped
    after_finished wake find_by_tid modify mask note average_time_so_far set_start_time
run-program = refl

hand_over-promise_example :
    Shows (promise (joins 3) 1 (view three)) (hand_over integers (joins 3) at_ten three)
hand_over-promise_example =
    hand_over-promise integers extract_least-IsPriorityQueue at_ten (joins 3) 1 three refl refl refl
      (omega arith) three-Sound

run-fair_example :
    (t : Library ℤ) × (run integers (yielding (at_ten ∷ at_ten ∷ [])) three ≡ some t)
    × Runs 3 t
    × (t.ready_fifo ≡ 1 ∷ 2 ∷ [])
run-fair_example =
    run-fair integers extract_least-IsPriorityQueue (2 ∷ []) 3 [] 1 (at_ten ∷ at_ten ∷ []) three
      (refl, refl, refl, three-Sound) refl refl

choose_next_thread_pri-first_ready_example :
    (choose_next_thread_pri 5 asked ≡ first_ready (preference 5) asked)
    × (held low asked.ready_third ≤ draws low asked)
    × (held middle asked.ready_second ≤ draws middle asked)
    × (held high asked.ready_first ≤ draws high asked)
    × ((draws low asked + draws middle asked + draws high asked ≡ 19)
        ⊎ ((asked.ready_first ≡ []) × (asked.ready_second ≡ []) × (asked.ready_third ≡ [])))
choose_next_thread_pri-first_ready_example = choose_next_thread_pri-first_ready 5 asked

end_run-mean_example :
    ((one_run integers at_ten 60 9
        (one_run integers at_ten 40 4 (one_run integers at_ten 10 7 (thread 1)))).estimated_runtime
      ≡ pos 6)
    × (4 ≤ 6)
    × (6 ≤ 9)
end_run-mean_example =
    end_run-mean integers at_ten at_ten at_ten 10 40 60 7 4 9 4 9 (thread 1) refl (omega arith)
      (omega arith, omega arith, omega arith) (omega arith, omega arith, omega arith)

thread_join-Dropped_example : Ends (Dropped 1) (thread_join integers 2 at_ten (alone fifo))
thread_join-Dropped_example =
    thread_join-Dropped integers at_ten extract_least-IsPriorityQueue 2 1 (alone fifo) refl refl
      (omega arith) refl refl (alone-Sound fifo)

thread_join-Turned_example :
    Ends (Turned (λ x. one x 1) true three) (thread_join integers 3 at_ten three)
thread_join-Turned_example =
    thread_join-Turned integers extract_least-IsPriorityQueue at_ten 3 1 three refl refl
      (omega arith) three-Sound

thread_create-Added_example :
    let (t, result) = thread_create integers true (pos 1) at_ten three in
    (result ≡ pos 4)
    × IsSound t
    × (t.thread_count ≡ 4)
    × (t.current_active ≡ some 1)
    × ((x : ℕ) → placed x t ≡ placed x three + one x 4)
thread_create-Added_example =
    thread_create-Added integers (pos 1) at_ten three refl refl refl three-Sound

abbrev no_memory : Inputs
no_memory = record at_ten { malloc_ok = false }

thread_libinit-refused_example :
    ((policy_of (pos 0) ≡ none) ⊎ (blank.initialized ≡ true)
      → thread_libinit (pos 0) no_memory true blank ≡ (blank, exit_with_error))
    × (policy_of (pos 0) ≡ some fifo
        → blank.initialized ≡ false
        → no_memory.malloc_ok ≡ false
        → let (t, result) = thread_libinit (pos 0) no_memory true blank in
          (result ≡ exit_with_error)
          × ((m : ℤ) (j : Inputs) (b : Bool) → thread_libinit m j b t ≡ (t, exit_with_error)))
thread_libinit-refused_example = thread_libinit-refused (pos 0) fifo no_memory true blank
