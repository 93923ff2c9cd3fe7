-- ===== src/Threads/Refusals.antt =====
-- The calls of hw4/userthread.cpp that fail, and what they leave behind.
use opearting_system.Base.{suc, ◌≡◌, refl, sym, Bool, true, false, none, some, [], arith, ◌⊎◌}
use mathlib.Core.Path.{subst}
use opearting_system.Base.Int.{ℤ}
use opearting_system.Threads.State.{Library, Platform, Inputs, Policy, exit_with_error}
use opearting_system.Threads.Setup.{policy_of, start_library, thread_libinit}
use opearting_system.Threads.Calls.{is_level, thread_create}

module _ {R : Type 0} where
  refused_again :
      (m : ℤ) (j : Inputs) (b : Bool) (t : Library R)
      → t.initialized ≡ true
      → thread_libinit m j b t ≡ (t, exit_with_error)
  unfolding thread_libinit
  refused_again m j b t h = ground arith

  -- `thread_libinit` refuses a number that is no policy and a library that was started, and then
  -- changes nothing. Where the first stack cannot be had it fails too, and every later call of it,
  -- with any arguments, is refused and changes nothing.
  pub thread_libinit-refused :
      (n : ℤ) (q : Policy) (i : Inputs) (main_allocated : Bool) (s : Library R)
      → ((policy_of n ≡ none) ⊎ (s.initialized ≡ true)
          → thread_libinit n i main_allocated s ≡ (s, exit_with_error))
        × (policy_of n ≡ some q
            → s.initialized ≡ false
            → i.malloc_ok ≡ false
            → let (t, result) = thread_libinit n i main_allocated s in
              (result ≡ exit_with_error)
              × ((m : ℤ) (j : Inputs) (b : Bool) → thread_libinit m j b t ≡ (t, exit_with_error)))
  unfolding thread_libinit start_library
  thread_libinit-refused n q i main_allocated s = (
    ground arith,
    λ e f a.
        let opened : Library R = record s {
          initialized = true;
          started = i.start_clock;
          log = [];
          has_scheduler_stack = i.malloc_ok;
          policy = q;
        } in
        let failed : thread_libinit n i main_allocated s ≡ (opened, exit_with_error) =
          ground (arith, e, f, a) in
        subst
          (λ (r : Library R × ℤ).
            (r.1 ≡ exit_with_error)
            × ((m : ℤ) (j : Inputs) (b : Bool) → thread_libinit m j b r.0 ≡ (r.0, exit_with_error)))
          (sym failed) (refl, λ m j b. refused_again m j b opened refl),
  )

  module _ (p : Platform R) where
    -- `thread_create` refuses a level that is none of the three, a function that is NULL and a
    -- library that was not started, and changes nothing; without a stack it fails, and the number
    -- of the thread is used up.
    pub thread_create-refused :
        (given : Bool) (level : ℤ) (i : Inputs) (s : Library R)
        → ((is_level level ≡ false) ⊎ (given ≡ false) ⊎ (s.initialized ≡ false)
            → thread_create p given level i s ≡ (s, exit_with_error))
          × (is_level level ≡ true
              → given ≡ true
              → s.initialized ≡ true
              → i.malloc_ok ≡ false
              → thread_create p given level i s
                ≡ (record s { thread_count = suc s.thread_count }, exit_with_error))
    unfolding thread_create
    thread_create-refused given level i s = (ground arith, ground arith)
