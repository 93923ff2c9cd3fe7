-- ===== src/Threads/Sound/Ending.antt =====
-- `thread_libterminate` empties what the policy uses, and the library can be started anew.
use opearting_system.Base.{◌≡◌, false, []}
use opearting_system.Threads.State.{Library, fifo, sjf, priority}

module _ {R : Type 0} where
  -- The queues that the policy does not use.
  abbrev pub OthersEmpty : Library R → Type 0
  OthersEmpty s = elim s.policy [
    | fifo ↦
        (s.ready_sjf ≡ []) × (s.ready_first ≡ []) × (s.ready_second ≡ []) × (s.ready_third ≡ [])
    | sjf ↦
        (s.ready_fifo ≡ []) × (s.ready_first ≡ []) × (s.ready_second ≡ []) × (s.ready_third ≡ [])
    | priority ↦ (s.ready_fifo ≡ []) × (s.ready_sjf ≡ [])
  ]

  -- The static variables when nothing is left of a run but its log and its numbers.
  abbrev pub emptied : Library R → Library R
  emptied s = record s {
    initialized = false;
    thread_list = [];
    has_scheduler_stack = false;
    has_main_stack = false;
    ready_fifo = [];
    ready_sjf = [];
    ready_first = [];
    ready_second = [];
    ready_third = [];
  }
