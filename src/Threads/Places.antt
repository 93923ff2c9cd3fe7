-- ===== src/Threads/Places.antt =====
-- Where the ids of threads stand: the queues, the suspended queues and `current_active`. How often
-- an id stands there is a sum, which the operations on queues and threads change by known amounts.
pub mod Lists
pub mod Choose
pub mod Wake
pub mod Branches
pub mod Leaving
pub mod Turn
use opearting_system.Base.Sums.{weigh, one, occurs}
use opearting_system.Base.{ℕ, ◌+◌, ◌≤◌, ◌≡◌, Option, none, some, List, All}
use opearting_system.Base.Int.{◌≤ℤ◌}
use opearting_system.Threads.State.{Thread, Job, Library}

abbrev pub queued : ℕ → List Job → ℕ
queued x js = weigh (λ j. one x j.id) js

abbrev pub here : ℕ → Option ℕ → ℕ
here x none = 0
here x (some y) = one x y

module _ {R : Type 0} where
  abbrev pub waiting : ℕ → List (Thread R) → ℕ
  waiting x ts = weigh (λ t. occurs x t.suspended_queue) ts

  -- How many threads have the id.
  abbrev pub named : ℕ → List (Thread R) → ℕ
  named x ts = weigh (λ t. one x t.tid) ts

  abbrev pub ready : ℕ → Library R → ℕ
  ready x s =
      occurs x s.ready_fifo
      + queued x s.ready_sjf
      + occurs x s.ready_first
      + occurs x s.ready_second
      + occurs x s.ready_third

  -- How often the id stands in a queue.
  abbrev pub stored : ℕ → Library R → ℕ
  stored x s = ready x s + waiting x s.thread_list

  -- How often the id stands anywhere.
  abbrev pub placed : ℕ → Library R → ℕ
  placed x s = here x s.current_active + stored x s
