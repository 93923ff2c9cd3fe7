-- ===== src/Threads/Session.antt =====
-- The calls of hw4/userthread.h as a program makes them, one after another, while no timer runs: under
-- _FIFO and _SJF, in a process that has not started the library under _PRIORITY. A list of calls is a run of the whole program: it names the calls of whoever has the processor.
use opearting_system.Base.{ℕ, Bool, Option, none, some, List, [], ◌∷◌}
use opearting_system.Base.Int.{ℤ}
use opearting_system.Threads.State.{
  Library, Platform, Inputs, Outcome, runs, fault, returns, to_thread, to_main, exits,
}
use opearting_system.Threads.Calls.{thread_create, thread_yield, thread_join, thread_wrapper}

-- `finish` is the return of a thread's own function.
pub data Request : Type 0 where
  create : Bool → ℤ → Request
  yield finish : Request
  join : ℕ → Request

module _ {R : Type 0} (p : Platform R) where
  unfoldable pub call : Request → Inputs → Library R → Outcome R
  call (create given level) i s =
      runs (thread_create p given level i s).0 (returns (thread_create p given level i s).1)
  call yield i s = thread_yield p i s
  call finish i s = thread_wrapper p i s
  call (join tid) i s = thread_join p tid i s

  -- A fault leaves no state, and an end of the process ends the run.
  unfoldable pub after_call : (Library R → Option (Library R)) → Outcome R → Option (Library R)
  after_call rest fault = none
  after_call rest (runs s exits) = some s
  after_call rest (runs s to_main) = rest s
  after_call rest (runs s (to_thread id)) = rest s
  after_call rest (runs s (returns n)) = rest s

  unfoldable pub run : List (Request × Inputs) → Library R → Option (Library R)
  unfolding after_call
  run [] s = some s
  run ((r, i) ∷ rs) s = after_call (run rs) (call r i s)
