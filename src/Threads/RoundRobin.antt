-- ===== src/Threads/RoundRobin.antt =====
-- What hw4/userthread.cpp promises under FIFO: a queue of ids, and for each id those that wait for it.
pub mod Turns
pub mod Refine
pub mod Promise
pub mod Fair
use opearting_system.Base.{
  ℕ, ◌≡◌, Bool, Option, none, some, List, [], ◌∷◌, ◌++◌, ◌==◌, if◌then◌else◌,
}
use opearting_system.Threads.State.{Thread, Library, find_by_tid}

pub record Robin : Type 0 where
  pub running : Option ℕ
  pub queue : List ℕ
  pub waiters : ℕ → List ℕ

-- The front of the queue runs next, or `main` if there is none.
unfoldable pub next : Robin → Robin
next m = elim m.queue [
  | [] ↦ record m { running = none }
  | id ∷ rest ↦ record m { running = some id; queue = rest }
]

abbrev pub set_waiters : ℕ → List ℕ → (ℕ → List ℕ) → ℕ → List ℕ
set_waiters id ids w x = if x == id then ids else w x

-- The thread goes to the end of the queue.
unfoldable pub rotate : ℕ → Robin → Robin
rotate id m = next (record m { queue = m.queue ++ id ∷ [] })

-- Those that wait for the thread go to the end of the queue.
unfoldable pub leave : ℕ → Robin → Robin
leave id m =
    next (record m { queue = m.queue ++ m.waiters id; waiters = set_waiters id [] m.waiters })

-- The thread waits for `w`, if there is another that may run.
unfoldable pub wait_for : ℕ → ℕ → Robin → Robin
wait_for id w m = elim m.queue [
  | [] ↦ record m { running = none }
  | x ∷ rest ↦ record m {
    running = some x;
    queue = rest;
    waiters = set_waiters w (m.waiters w ++ id ∷ []) m.waiters;
  }
]

module _ {R : Type 0} where
  abbrev pub suspended_of : Option (Thread R) → List ℕ
  suspended_of none = []
  suspended_of (some t) = t.suspended_queue

  -- The view of the static variables: threads lose all but their ids and who waits for them.
  unfoldable pub view : Library R → Robin
  view s = record {
    running = s.current_active;
    queue = s.ready_fifo;
    waiters = λ x. suspended_of (find_by_tid x s.thread_list);
  }
