-- ===== src/Threads/Sound/Starting.antt =====
-- `thread_libinit` leads to a sound state, and `thread_libterminate` undoes it.
use opearting_system.Base.{
  ◌≡◌, refl, Bool, true, false, not, some, [], arith, ◌∙◌, if◌then◌else◌, if_cases,
}
use opearting_system.Base.Int.{ℤ}
use opearting_system.Threads.State.{
  Library, Inputs, Policy, fifo, sjf, priority, exit_with_error, exit_success,
}
use opearting_system.Threads.Setup.{policy_of, util_init, start_library, thread_libinit}
use opearting_system.Threads.Places.{ready}

timer_fails :
    (q : Policy) (b : Bool)
    → b ≡ true
    → elim q as (λ _. Bool) [ priority ↦ not b | _ ↦ false ] ≡ true
    → ⊥
timer_fails fifo b e h = cc
timer_fails sjf b e h = cc
timer_fails priority b e h = ground arith

module _ {R : Type 0} where
  -- The three calls of the system succeed, and the library was not started.
  abbrev pub Started : Inputs → Bool → Library R → Type 0
  Started i main_allocated s =
      (i.malloc_ok ≡ true)
      × (i.timer_set ≡ true)
      × (main_allocated ≡ true)
      × (s.initialized ≡ false)

  -- What `thread_libinit` makes of the static variables when all goes well.
  abbrev pub begun : Policy → Inputs → Library R → Library R
  begun q i s =
      let ready = util_init (record s {
        initialized = true;
        started = i.start_clock;
        log = [];
        has_scheduler_stack = i.malloc_ok;
        policy = q;
      }) in
      record ready {
        has_main_stack = true;
        timer_armed = elim q [ priority ↦ true | _ ↦ ready.timer_armed ];
      }

  pub thread_libinit_lem :
      (n : ℤ) (q : Policy) (i : Inputs) (main_allocated : Bool) (s : Library R)
      → policy_of n ≡ some q
      → Started i main_allocated s
      → thread_libinit n i main_allocated s ≡ (begun q i s, exit_success)
  unfolding thread_libinit start_library
  thread_libinit_lem n q i main_allocated s e (a, t, m, f) =
      let P = λ (r : Library R × ℤ). r ≡ (begun q i s, exit_success) in
      let accepted : thread_libinit n i main_allocated s
          ≡ (if s.initialized then (s, exit_with_error) else start_library q i main_allocated s) =
        ground (arith, e) in
      accepted
      ∙ if_cases P s.initialized (λ h. absurd (cc))
          λ _.
            if_cases P (not i.malloc_ok) (λ h. absurd (ground arith))
              λ _.
                if_cases P (elim q as (λ _. Bool) [ priority ↦ not i.timer_set | _ ↦ false ])
                  (λ h. absurd (timer_fails q i.timer_set t h))
                  λ _. if_cases P main_allocated (λ _. refl) λ h. absurd (cc)
