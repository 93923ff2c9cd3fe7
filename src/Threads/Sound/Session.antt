-- ===== src/Threads/Sound/Session.antt =====
-- Whole runs: no call ends in a fault, and every state between two calls is sound.
use mathlib.Core.Path.{subst}
use opearting_system.Base.Sums.{one}
use opearting_system.Base.{
  ℕ, ◌+◌, ◌≤◌, ◌≡◌, refl, sym, Bool, true, false, Option, none, some, List, [], ◌∷◌, arith, ap,
  Bool-cases, inl, inr, ◌⊎◌,
}
use opearting_system.Threads.State.{
  Library, Platform, Inputs, Outcome, runs, fault, Control, returns, to_thread, to_main, exits,
  find_by_tid, mask, exit_with_error,
}
use opearting_system.Threads.Scheduler.{my_scheduler}
use opearting_system.Threads.Calls.{thread_yield, thread_join, thread_wrapper, sigalarm_handler}
use opearting_system.Threads.Session.{Request, create, yield, finish, join, call, after_call, run}
use opearting_system.Threads.Places.{stored, placed, here}
use opearting_system.Threads.Places.Lists.{named-find}
use opearting_system.Threads.Places.Choose.{IsPriorityQueue}
use opearting_system.Threads.Places.Turn.{Ends, Turned, mask_lem}
use opearting_system.Threads.Sound.{IsSound, Agrees, Turned-Sound}
use opearting_system.Threads.Sound.Halting.{
  Ends-mono, remask, thread_yield-Turned, thread_join-Turned, sigalarm_handler-Turned,
  thread_wrapper-Turned, idle-Turned,
}
use opearting_system.Threads.Sound.Creating.{thread_create-Sound}

Option-cases {ℓ} : {A : Type ℓ} (o : Option A) → (o ≡ none) ⊎ ((a : A) × (o ≡ some a))
Option-cases none = inl refl
Option-cases (some a) = inr (a, refl)

module _ {R : Type 0} where
  -- The call ends in a sound state, and `current_active` is what runs next.
  abbrev pub Served : Library R → Library R → Control → Type 0
  Served s t c = IsSound t × Agrees s t c

  module _ (p : Platform R) (queue : IsPriorityQueue p.extract) (i : Inputs) where
    Turned-Served :
        (kept : ℕ → ℕ) (s : Library R) (r : Outcome R)
        → ((x : ℕ) → stored x s + kept x ≤ placed x s)
        → IsSound s
        → Ends (Turned kept i.timer_set s) r
        → Ends (Served s) r
    Turned-Served kept s r le sound =
        Ends-mono (Turned kept i.timer_set s) (Served s) r
          (λ t c. Turned-Sound kept i.timer_set s t c le sound)

    idle-Served :
        (s : Library R) (u : Library R) (c : Bool)
        → s.current_active ≡ none
        → u ≡ record s { blocked = c }
        → IsSound s
        → Ends (Served s) (my_scheduler p i u)
    idle-Served s u c active e sound =
        subst (λ v. Ends (Served s) (my_scheduler p i v)) (sym e)
          (Turned-Served (λ x. 0) s _ (λ x. omega arith) sound
            (idle-Turned p queue i s c active sound))

    leaving-Served :
        (id : ℕ) (s : Library R) (r : Outcome R)
        → s.current_active ≡ some id
        → IsSound s
        → Ends (Turned (λ x. one x id) i.timer_set s) r
        → Ends (Served s) r
    leaving-Served id s r active sound =
        Turned-Served (λ x. one x id) s r (λ x. omega (arith, ap (here x) active)) sound

    thread_yield-Served : (s : Library R) → IsSound s → Ends (Served s) (thread_yield p i s)
    unfolding thread_yield
    thread_yield-Served s sound = elim (Bool-cases s.initialized) [
      | inr off ↦
          let e : thread_yield p i s ≡ runs s (returns exit_with_error) = ground (arith, off) in
          subst (Ends (Served s)) (sym e) (sound, refl)
      | inl on ↦ elim (Option-cases s.current_active) [
        | inr (id, active) ↦
            leaving-Served id s (thread_yield p i s) active sound
              (thread_yield-Turned p queue i id s on active sound)
        | inl active ↦
            let (c, masked) = remask p queue i s in
            let e : thread_yield p i s ≡ my_scheduler p i (mask false (mask true s)) =
              ground (arith, on, active) in
            subst (Ends (Served s)) (sym e)
              (idle-Served s (mask false (mask true s)) c active masked sound)
      ]
    ]

    thread_join-Served : (w : ℕ) (s : Library R) → IsSound s → Ends (Served s) (thread_join p w i s)
    unfolding thread_join
    thread_join-Served w s sound = elim (Bool-cases s.initialized) [
      | inr off ↦
          let e : thread_join p w i s ≡ runs s (returns exit_with_error) = ground (arith, off) in
          subst (Ends (Served s)) (sym e) (sound, refl)
      | inl on ↦ elim (Option-cases (find_by_tid w s.thread_list)) [
        | inl missing ↦
            let (c, masked) = mask_lem true s in
            let e : thread_join p w i s
                ≡ runs (record s { blocked = c }) (returns exit_with_error) =
              ground (arith, on, missing, masked) in
            subst (Ends (Served s)) (sym e) (sound, refl)
        | inr (u, found) ↦ elim (Option-cases s.current_active) [
          | inr (id, active) ↦ leaving-Served id s (thread_join p w i s) active sound (
              thread_join-Turned p queue i w id s on active (named-find w s.thread_list u found).0
                sound)
          | inl active ↦
              let (c, masked) = remask p queue i s in
              let e : thread_join p w i s ≡ my_scheduler p i (mask false (mask true s)) =
                ground (arith, on, active, found) in
              subst (Ends (Served s)) (sym e)
                (idle-Served s (mask false (mask true s)) c active masked sound)
        ]
      ]
    ]

    thread_wrapper-Served : (s : Library R) → IsSound s → Ends (Served s) (thread_wrapper p i s)
    unfolding thread_wrapper
    thread_wrapper-Served s sound = elim (Option-cases s.current_active) [
      | inl active ↦
          let e : thread_wrapper p i s ≡ runs s exits = ground (arith, active) in
          subst (Ends (Served s)) (sym e) (sound, active)
      | inr (id, active) ↦
          Turned-Served (λ x. 0) s (thread_wrapper p i s) (λ x. omega arith) sound
            (thread_wrapper-Turned p queue i id s active sound)
    ]

    sigalarm_handler-Served : (s : Library R) → IsSound s → Ends (Served s) (sigalarm_handler p i s)
    unfolding sigalarm_handler
    sigalarm_handler-Served s sound = elim (Option-cases s.current_active) [
      | inl active ↦
          let (c, masked) = mask_lem true s in
          let e : sigalarm_handler p i s ≡ my_scheduler p i (mask true s) =
            ground (arith, active) in
          subst (Ends (Served s)) (sym e) (idle-Served s (mask true s) c active masked sound)
      | inr (id, active) ↦
          leaving-Served id s (sigalarm_handler p i s) active sound
            (sigalarm_handler-Turned p queue i id s active sound)
    ]

    -- Any call in a sound state ends without a fault in a sound state.
    pub call-Served : (r : Request) (s : Library R) → IsSound s → Ends (Served s) (call p r i s)
    unfolding call
    call-Served (create given level) s sound = thread_create-Sound p given level i s sound
    call-Served yield s sound = thread_yield-Served s sound
    call-Served finish s sound = thread_wrapper-Served s sound
    call-Served (join w) s sound = thread_join-Served w s sound

  module _ (p : Platform R) (queue : IsPriorityQueue p.extract) where
    abbrev Reaches : Option (Library R) → Type 0
    Reaches o = (t : Library R) × (o ≡ some t) × IsSound t

    after_call-Sound :
        (rest : Library R → Option (Library R)) (s : Library R) (o : Outcome R)
        → ((t : Library R) → IsSound t → Reaches (rest t))
        → Ends (Served s) o
        → Reaches (after_call p rest o)
    unfolding after_call
    after_call-Sound rest s fault ih h = absurd h
    after_call-Sound rest s (runs t exits) ih h = (t, refl, h.0)
    after_call-Sound rest s (runs t to_main) ih h = ih t h.0
    after_call-Sound rest s (runs t (to_thread id)) ih h = ih t h.0
    after_call-Sound rest s (runs t (returns n)) ih h = ih t h.0

    -- A run of any calls from a sound state never faults, and ends in a sound state.
    pub run-Sound :
        (rs : List (Request × Inputs)) (s : Library R)
        → IsSound s
        → (t : Library R) × (run p rs s ≡ some t) × IsSound t
    unfolding run
    run-Sound [] s sound = (s, refl, sound)
    run-Sound ((r, i) ∷ rs) s sound =
        after_call-Sound (run p rs) s (call p r i s) (λ t h. run-Sound rs t h)
          (call-Served p queue i r s sound)
