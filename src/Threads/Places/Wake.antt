-- ===== src/Threads/Places/Wake.antt =====
-- Joining a ready queue, and the loops that empty a suspended queue.
use opearting_system.Base.Sums.{occurs, one, one_self, weigh-snoc}
use opearting_system.Base.{
  ℕ, ◌+◌, ◌≤◌, ◌≡◌, refl, Option, none, some, List, [], ◌∷◌, arith, Bool-cases, inl, inr,
}
use opearting_system.Base.Int.{ℤ, eqb_ℤ}
use opearting_system.Threads.State.{
  Thread, fifo, sjf, priority, Library, Platform, Inputs, first_level, second_level, find_by_tid,
}
use opearting_system.Threads.Scheduler.{
  push_fifo, push_sjf, push_first, push_second, push_third, wake_fifo, wake_sjf, push_level,
  wake_pri, wake,
}
use opearting_system.Threads.Places.{ready, named}
use opearting_system.Threads.Places.Lists.{find-named}
use opearting_system.Threads.Places.Choose.{Frame}

module _ {R : Type 0} where
  -- The ids have joined the ready queues.
  abbrev pub Joined : List ℕ → Library R → Library R → Type 0
  Joined ids s t = Frame s t × ((x : ℕ) → ready x t ≡ ready x s + occurs x ids)

  abbrev pub Woken : List ℕ → Library R → Option (Library R) → Type 0
  Woken ids s none = ⊥
  Woken ids s (some t) = Joined ids s t

  pub push_fifo-Joined : (id : ℕ) (s : Library R) → Joined (id ∷ []) s (push_fifo id s)
  push_fifo-Joined id s =
      ((refl, refl, refl, refl, refl), λ x. omega (arith, weigh-snoc (one x) s.ready_fifo id))

  pub push_sjf-Joined : (id : ℕ) (c : ℤ) (s : Library R) → Joined (id ∷ []) s (push_sjf id c s)
  push_sjf-Joined id c s = (
    (refl, refl, refl, refl, refl),
    λ x. omega (arith, weigh-snoc (λ j. one x j.id) s.ready_sjf (record { id = id; cost = c })),
  )

  pub push_first-Joined : (id : ℕ) (s : Library R) → Joined (id ∷ []) s (push_first id s)
  push_first-Joined id s =
      ((refl, refl, refl, refl, refl), λ x. omega (arith, weigh-snoc (one x) s.ready_first id))

  pub push_second-Joined : (id : ℕ) (s : Library R) → Joined (id ∷ []) s (push_second id s)
  push_second-Joined id s =
      ((refl, refl, refl, refl, refl), λ x. omega (arith, weigh-snoc (one x) s.ready_second id))

  pub push_third-Joined : (id : ℕ) (s : Library R) → Joined (id ∷ []) s (push_third id s)
  push_third-Joined id s =
      ((refl, refl, refl, refl, refl), λ x. omega (arith, weigh-snoc (one x) s.ready_third id))

  push_level-Joined : (l : ℤ) (id : ℕ) (s : Library R) → Joined (id ∷ []) s (push_level l id s)
  unfolding push_level
  push_level-Joined l id s = elim (Bool-cases (eqb_ℤ l first_level)) [
    | inl a ↦ rw a (push_first-Joined id s)
    | inr a ↦ rw a (elim (Bool-cases (eqb_ℤ l second_level)) [
      | inl b ↦ rw b (push_second-Joined id s)
      | inr b ↦ rw b (push_third-Joined id s)
    ])
  ]

  -- One id, and then the rest.
  Joined-cons :
      (id : ℕ) (ids : List ℕ) (s t u : Library R)
      → Joined (id ∷ []) s t
      → Joined ids t u
      → Joined (id ∷ ids) s u
  Joined-cons id ids s t u h k = ((cc, cc, cc, cc, cc), λ x. omega (arith, h.1 x, k.1 x))

  Woken-cons :
      (id : ℕ) (ids : List ℕ) (s t : Library R) (u : Option (Library R))
      → Joined (id ∷ []) s t
      → Woken ids t u
      → Woken (id ∷ ids) s u
  Woken-cons id ids s t none h k = k
  Woken-cons id ids s t (some u) h k = Joined-cons id ids s t u h k

  wake_fifo-Joined : (ids : List ℕ) (s : Library R) → Joined ids s (wake_fifo ids s)
  unfolding wake_fifo
  wake_fifo-Joined [] s = ((refl, refl, refl, refl, refl), λ x. omega arith)
  wake_fifo-Joined (id ∷ ids) s =
      Joined-cons id ids s (push_fifo id s) (wake_fifo ids (push_fifo id s)) (push_fifo-Joined id s)
        (wake_fifo-Joined ids (push_fifo id s))

  -- Every id of the list belongs to a thread.
  abbrev pub Known : List ℕ → Library R → Type 0
  Known ids s = (x : ℕ) → 1 ≤ occurs x ids → 1 ≤ named x s.thread_list

  Known-tail :
      (id : ℕ) (ids : List ℕ) (s t : Library R)
      → t.thread_list ≡ s.thread_list
      → Known (id ∷ ids) s
      → Known ids t
  Known-tail id ids s t e h x k = rw e (h x (omega arith))

  Known-head :
      (id : ℕ) (ids : List ℕ) (s : Library R)
      → Known (id ∷ ids) s
      → (t : Thread R) × (find_by_tid id s.thread_list ≡ some t)
  Known-head id ids s h = find-named id s.thread_list (h id (omega (arith, one_self id)))

  wake_sjf-Woken :
      (p : Platform R) (ids : List ℕ) (s : Library R) → Known ids s → Woken ids s (wake_sjf p ids s)
  unfolding wake_sjf
  wake_sjf-Woken p [] s h = ((refl, refl, refl, refl, refl), λ x. omega arith)
  wake_sjf-Woken p (id ∷ ids) s h =
      let (t, e) = Known-head id ids s h in
      let pushed = push_sjf id (p.to_int t.estimated_runtime) s in
      rw (e, Woken)
        (Woken-cons id ids s pushed _ (push_sjf-Joined id (p.to_int t.estimated_runtime) s)
          (wake_sjf-Woken p ids pushed (Known-tail id ids s pushed refl h)))

  wake_pri-Woken : (ids : List ℕ) (s : Library R) → Known ids s → Woken ids s (wake_pri ids s)
  unfolding wake_pri
  wake_pri-Woken [] s h = ((refl, refl, refl, refl, refl), λ x. omega arith)
  wake_pri-Woken (id ∷ ids) s h =
      let (t, e) = Known-head id ids s h in
      let pushed = push_level t.level id s in
      let joined = push_level-Joined t.level id s in
      rw (e, Woken)
        (Woken-cons id ids s pushed _ joined
          (wake_pri-Woken ids pushed (Known-tail id ids s pushed joined.0.4 h)))

  pub wake-Woken :
      (p : Platform R) (i : Inputs) (ids : List ℕ) (s : Library R)
      → Known ids s
      → Woken ids s (wake p i ids s)
  unfolding wake
  wake-Woken p i ids s h =
      elim s.policy
        as (λ q. Woken ids s (elim q [
          | fifo ↦ some (wake_fifo ids s)
          | sjf ↦ wake_sjf p ids s
          | priority ↦ wake_pri ids s
        ])) [
          | fifo ↦ wake_fifo-Joined ids s
          | sjf ↦ wake_sjf-Woken p ids s h
          | priority ↦ wake_pri-Woken ids s h
        ]
