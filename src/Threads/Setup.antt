-- ===== src/Threads/Setup.antt =====
-- hw4/userthread.cpp, lines 10 to 105 and 281 to 381: starting and ending the library.
use opearting_system.Base.{
  zero, suc, ℕ, Bool, true, false, not, Option, none, some, List, [], ◌∷◌, if◌then◌else◌, length,
}
use opearting_system.Base.Int.{ℤ, pos}
use opearting_system.Threads.State.{
  Job, Policy, fifo, sjf, priority, Library, Platform, Inputs, exit_success, exit_with_error,
  first_thread,
}

-- A loop that pops until the queue is empty.
unfoldable pub clear_up {ℓ} : {A : Type ℓ} → List A → List A
clear_up [] = []
clear_up (x ∷ xs) = clear_up xs

unfoldable pub policy_of : ℤ → Option Policy
policy_of (pos zero) = some fifo
policy_of (pos (suc zero)) = some sjf
policy_of (pos (suc (suc zero))) = some priority
policy_of _ = none

module _ {R : Type 0} where
  unfoldable pub util_init : Library R → Library R
  util_init s =
      let t = record s { current_active = none; thread_list = []; thread_count = first_thread } in
      elim s.policy [
        | fifo ↦ record t { ready_fifo = [] }
        | sjf ↦ record t { ready_sjf = [] }
        | priority ↦ record t { ready_first = []; ready_second = []; ready_third = [] }
      ]

  -- `thread_libinit` from the test of `initialized` on. The two calls of `malloc` and `setitimer` may
  -- each fail; `start_clock` is the time at which the log begins.
  unfoldable pub start_library : Policy → Inputs → Bool → Library R → Library R × ℤ
  unfolding util_init
  start_library policy i main_allocated s =
      let opened = record s {
        initialized = true;
        started = i.start_clock;
        log = [];
        has_scheduler_stack = i.malloc_ok;
        policy = policy;
      } in
      let ready = util_init opened in
      let timed = record ready {
        timer_armed = elim policy [ priority ↦ true | _ ↦ ready.timer_armed ];
      } in
      let timer_failed : Bool = elim policy [ priority ↦ not i.timer_set | _ ↦ false ] in
      if not i.malloc_ok
      then (opened, exit_with_error)
      else if timer_failed
      then (ready, exit_with_error)
      else if main_allocated
      then (record timed { has_main_stack = true }, exit_success)
      else (record timed { has_main_stack = false }, exit_with_error)

  unfoldable pub thread_libinit : ℤ → Inputs → Bool → Library R → Library R × ℤ
  unfolding start_library policy_of
  thread_libinit policy i main_allocated s = elim (policy_of policy) [
    | none ↦ (s, exit_with_error)
    | some q ↦ if s.initialized then (s, exit_with_error) else start_library q i main_allocated s
  ]

  module _ (p : Platform R) where
    -- A round takes what `top` and `pop` take; `n` bounds the rounds.
    unfoldable pub clear_up_sjf_queue : ℕ → List Job → List Job
    clear_up_sjf_queue n [] = []
    clear_up_sjf_queue zero (j ∷ js) = j ∷ js
    clear_up_sjf_queue (suc n) (j ∷ js) = clear_up_sjf_queue n (p.extract j js).1

    unfoldable pub util_terminate : Library R → Library R × ℤ
    unfolding clear_up
    util_terminate s =
        let t = record s { thread_list = clear_up s.thread_list } in
        let cleared : Library R = elim s.policy [
          | fifo ↦ record t { ready_fifo = clear_up s.ready_fifo }
          | sjf ↦ record t { ready_sjf = clear_up_sjf_queue (length s.ready_sjf) s.ready_sjf }
          | priority ↦ record t {
            ready_first = clear_up s.ready_first;
            ready_second = clear_up s.ready_second;
            ready_third = clear_up s.ready_third;
          }
        ] in
        if s.initialized
        then (record cleared { initialized = false }, exit_success)
        else (s, exit_with_error)

    -- A stack that is freed leaves NULL behind.
    unfoldable pub thread_libterminate : Library R → Library R × ℤ
    unfolding util_terminate
    thread_libterminate s =
        if s.initialized
        then util_terminate (record s { has_scheduler_stack = false; has_main_stack = false })
        else (s, exit_with_error)
