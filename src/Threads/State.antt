-- ===== src/Threads/State.antt =====
-- The data of hw4/util.h: a thread, the entries of the queue of short jobs, and the static variables.
use opearting_system.Base.{ℕ, Bool, Option, none, some, List, [], ◌∷◌, ◌++◌, ◌==◌, if◌then◌else◌}
use opearting_system.Base.Int.{ℤ, pos, negsuc, ◌-ℤ◌}

-- `schedule_policy`. `_FIFO`, `_SJF` and `_PRIORITY` are 0, 1 and 2.
pub data Policy : Type 0 where
  fifo sjf priority : Policy

pub data Status : Type 0 where
  created scheduled stopped finished yielded : Status

-- `myThread`, less its stack and its context. A pointer to one is its `tid`, and NULL is `none`.
pub record Thread (R : Type 0) : Type 0 where
  pub tid : ℕ
  pub status : Status
  pub active : Bool
  pub policy : Policy
  pub level : ℤ
  pub yield_count : ℕ
  pub wait_tid : Option ℕ
  pub time_first : ℤ
  pub time_second : ℤ
  pub time_third : ℤ
  pub estimated_runtime : R
  pub start_time : ℤ
  pub end_time : ℤ
  pub suspended_queue : List ℕ

-- `thread_PRI_SJF_FIFO`
pub record Job : Type 0 where
  pub id : ℕ
  pub cost : ℤ

pub data Event : Type 0 where
  creation dispatch halt completion : Event

-- One line of the log file.
pub record Line : Type 0 where
  pub at : ℤ
  pub event : Event
  pub who : ℕ
  pub level : ℤ

-- The static variables. `blocked` says whether SIGALRM is blocked.
pub record Library (R : Type 0) : Type 0 where
  pub initialized : Bool
  pub policy : Policy
  pub thread_count : ℕ
  pub current_active : Option ℕ
  pub thread_list : List (Thread R)
  pub ready_fifo : List ℕ
  pub ready_sjf : List Job
  pub ready_first : List ℕ
  pub ready_second : List ℕ
  pub ready_third : List ℕ
  pub blocked : Bool
  pub started : ℤ
  pub log : List Line
  pub has_scheduler_stack : Bool
  pub has_main_stack : Bool
  -- `setitimer` has started the timer: nothing in the code stops it again.
  pub timer_armed : Bool

-- `userthread.cpp` takes the mean of three runs, `userthread_aging.cpp` a weighted sum.
pub data Edition : Type 0 where
  mean aging : Edition

-- What the code takes from the language: the operations on `double`, whose values are `R`, and what
-- `top` and `pop` take from a priority queue that holds these jobs.
pub record Platform (R : Type 0) : Type 0 where
  pub version : Edition
  pub of_long : ℤ → R
  pub to_int : R → ℤ
  pub add : R → R → R
  pub halve : R → R
  pub quotient : R → ℕ → R
  pub extract : Job → List Job → Job × List Job

-- What the system returns in the course of one call: the clock in milliseconds at each place that
-- reads it, `rand()`, and whether `setitimer` and `malloc` succeed.
pub record Inputs : Type 0 where
  pub end_clock : ℤ
  pub log_clock : ℤ
  pub next_clock : ℤ
  pub start_clock : ℤ
  pub rand : ℕ
  pub timer_set : Bool
  pub malloc_ok : Bool

-- Where a call leaves the processor: with its caller, with a thread, or with `main`; or the process
-- ends.
pub data Control : Type 0 where
  returns : ℤ → Control
  to_thread : ℕ → Control
  to_main : Control
  exits : Control

-- A call ends with a state and the next to run. `fault` is a use of a null pointer or of a variable
-- without a value.
pub data Outcome (R : Type 0) : Type 0 where
  runs : Library R → Control → Outcome R
  fault : Outcome R

abbrev pub exit_success : ℤ
exit_success = pos 0

abbrev pub exit_with_error : ℤ
exit_with_error = negsuc 0

abbrev pub quanta : ℕ
quanta = 100

abbrev pub default_runtime : ℕ
default_runtime = 50

abbrev pub first_thread : ℕ
first_thread = 0

-- `FIRST - 1`, `SECOND - 1` and `THIRD - 1`, the levels that a caller names.
abbrev pub first_level : ℤ
first_level = negsuc 0

abbrev pub second_level : ℤ
second_level = pos 0

abbrev pub third_level : ℤ
third_level = pos 1

module _ {R : Type 0} where
  unfoldable pub find_by_tid : ℕ → List (Thread R) → Option (Thread R)
  find_by_tid tid [] = none
  find_by_tid tid (t ∷ ts) = if t.tid == tid then some t else find_by_tid tid ts

  pub find_active : List (Thread R) → Option ℕ
  find_active [] = none
  find_active (t ∷ ts) = if t.active then some t.tid else find_active ts

  -- A write through the pointer to a thread.
  unfoldable pub modify : ℕ → (Thread R → Thread R) → List (Thread R) → List (Thread R)
  modify tid f [] = []
  modify tid f (t ∷ ts) = if t.tid == tid then f t ∷ ts else t ∷ modify tid f ts

  abbrev pub write : ℕ → (Thread R → Thread R) → Library R → Library R
  write tid f s = record s { thread_list = modify tid f s.thread_list }

  -- sigprocmask on SIGALRM, which the code calls under one policy only.
  unfoldable pub mask : Bool → Library R → Library R
  mask b s = elim s.policy [ priority ↦ record s { blocked = b } | _ ↦ s ]

  unfoldable pub note : ℤ → Event → Thread R → Library R → Library R
  note now e t s = record s {
    log = s.log ++ record { at = now -ℤ s.started; event = e; who = t.tid; level = t.level } ∷ [];
  }
