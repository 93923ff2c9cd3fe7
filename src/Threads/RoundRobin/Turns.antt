-- ===== src/Threads/RoundRobin/Turns.antt =====
-- What writes to threads do to the view, and a turn of the scheduler.
use mathlib.Core.Path.{subst, fun_ext}
use opearting_system.Base.{
  ℕ, ◌≡◌, refl, sym, ap, ◌∙◌, true, false, none, some, List, [], ◌∷◌, ◌==◌, if◌then◌else◌, arith,
  ◌⊎◌, inl, inr,
}
use opearting_system.Threads.State.{
  Thread, Library, Platform, Inputs, fifo, Outcome, runs, to_thread, to_main, find_by_tid, modify,
  write, mask, note, scheduled,
}
use opearting_system.Threads.Times.{set_start_time}
use opearting_system.Threads.Queues.{choose_next_thread_fifo}
use opearting_system.Threads.Scheduler.{
  settle, choose_next_thread, resume, go_main, dispatched, switch_to, dispatch_thread,
}
use opearting_system.Threads.Places.Turn.{Ends}
use opearting_system.Threads.RoundRobin.{Robin, next, set_waiters, suspended_of, view}

pub List-cases {ℓ} :
    {A : Type ℓ} (xs : List A) → (xs ≡ []) ⊎ ((x : A) × (rest : List A) × (xs ≡ x ∷ rest))
List-cases [] = inl refl
List-cases (x ∷ xs) = inr (x, xs, refl)

module _ {R : Type 0} where
  -- Who waits for `x` after a write to the thread `id`.
  suspended-modify :
      (x id : ℕ) (f : Thread R → Thread R) (ts : List (Thread R)) (t : Thread R)
      → ((u : Thread R) → (f u).tid ≡ u.tid)
      → find_by_tid id ts ≡ some t
      → suspended_of (find_by_tid x (modify id f ts))
        ≡ (if x == id then (f t).suspended_queue else suspended_of (find_by_tid x ts))
  unfolding find_by_tid modify
  suspended-modify x id f [] t same h = cc
  suspended-modify x id f (u ∷ ts) t same h =
      ground (arith, same u, suspended-modify x id f ts t same)

  suspended-modify_same :
      (x id : ℕ) (f : Thread R → Thread R) (ts : List (Thread R))
      → ((u : Thread R) → (f u).tid ≡ u.tid)
      → ((u : Thread R) → (f u).suspended_queue ≡ u.suspended_queue)
      → suspended_of (find_by_tid x (modify id f ts)) ≡ suspended_of (find_by_tid x ts)
  unfolding find_by_tid modify
  suspended-modify_same x id f [] same q = refl
  suspended-modify_same x id f (u ∷ ts) same q =
      ground (arith, same u, q u, suspended-modify_same x id f ts same q)

  -- A write that the view does not show.
  pub view-quiet :
      (id : ℕ) (f : Thread R → Thread R) (s : Library R)
      → ((u : Thread R) → (f u).tid ≡ u.tid)
      → ((u : Thread R) → (f u).suspended_queue ≡ u.suspended_queue)
      → view (write id f s) ≡ view s
  unfolding view
  view-quiet id f s same q =
      ap (λ w. record { running = s.current_active; queue = s.ready_fifo; waiters = w })
        (fun_ext λ x. suspended-modify_same x id f s.thread_list same q)

  pub view-suspended :
      (id : ℕ) (f : Thread R → Thread R) (s : Library R) (t : Thread R)
      → ((u : Thread R) → (f u).tid ≡ u.tid)
      → find_by_tid id s.thread_list ≡ some t
      → view (write id f s)
        ≡ record (view s) { waiters = set_waiters id (f t).suspended_queue (view s).waiters }
  unfolding view
  view-suspended id f s t same h =
      ap (λ w. record { running = s.current_active; queue = s.ready_fifo; waiters = w })
        (fun_ext λ x. suspended-modify x id f s.thread_list t same h)

  -- The call ends with the view `m`.
  abbrev pub Shows : Robin → Outcome R → Type 0
  Shows m o = Ends (λ t c. (view t ≡ m) × (t.policy ≡ fifo)) o

  -- The ids in the queue belong to threads.
  abbrev pub QueueKnown : Library R → Type 0
  QueueKnown s =
      (id : ℕ) (rest : List ℕ)
      → s.ready_fifo ≡ id ∷ rest
      → (t : Thread R) × (find_by_tid id s.thread_list ≡ some t)

  module _ (p : Platform R) (i : Inputs) where
    view-dispatched :
        (id : ℕ) (t : Thread R) (s : Library R)
        → view (dispatched p i id t s) ≡ record (view s) { running = some id }
    unfolding dispatched note set_start_time view
    view-dispatched id t s =
        let mark = λ (u : Thread R). record u { active = true; status = scheduled } in
        let marked = record (write id mark s) { current_active = some id } in
        view-quiet id (set_start_time i.start_clock) marked (λ u. refl) (λ u. refl)
        ∙ ap (λ (m : Robin). record m { running = some id })
            (view-quiet id mark s (λ u. refl) (λ u. refl))

    dispatched-policy :
        (id : ℕ) (t : Thread R) (s : Library R) → (dispatched p i id t s).policy ≡ s.policy
    unfolding dispatched note
    dispatched-policy id t s = refl

    pub turn-dispatch :
        (id : ℕ) (t : Thread R) (s : Library R)
        → s.policy ≡ fifo
        → find_by_tid id s.thread_list ≡ some t
        → Shows (record (view s) { running = some id }) (dispatch_thread p i id s)
    unfolding dispatch_thread switch_to
    turn-dispatch id t s policy found =
        let put = dispatched p i id t s in
        let same = dispatched-policy id t s ∙ policy in
        let computes : dispatch_thread p i id s ≡ runs put (to_thread id) =
          ground (arith, found, same) in
        subst (Shows (record (view s) { running = some id })) (sym computes)
          (view-dispatched id t s, same)

    pub turn-main :
        (s : Library R)
        → s.policy ≡ fifo
        → Shows (record (view s) { running = none }) (go_main p i (mask false s))
    unfolding go_main mask view
    turn-main s policy =
        let computes : go_main p i (mask false s)
            ≡ runs (record s { current_active = none }) to_main =
          ground (arith, policy) in
        subst (Shows (record (view s) { running = none })) (sym computes) (refl, policy)

    pub turn-next :
        (s : Library R)
        → s.policy ≡ fifo
        → QueueKnown s
        → Shows (next (view s)) (resume p i (settle s (choose_next_thread p i s)))
    unfolding next resume choose_next_thread choose_next_thread_fifo view
    turn-next s policy known = elim (List-cases s.ready_fifo) [
      | inl e ↦
          let computes : resume p i (settle s (choose_next_thread p i s))
              ≡ go_main p i (mask false s) =
            ground (arith, policy, e) in
          let spec : next (view s) ≡ record (view s) { running = none } = ground (arith, e) in
          subst (Shows (next (view s))) (sym computes)
            (subst (λ m. Shows m (go_main p i (mask false s))) (sym spec) (turn-main s policy))
      | inr (id, rest, e) ↦
          let taken : Library R = record s { ready_fifo = rest } in
          let (t, found) = known id rest e in
          let computes : resume p i (settle s (choose_next_thread p i s))
              ≡ dispatch_thread p i id taken =
            ground (arith, policy, e) in
          let spec : next (view s) ≡ record (view taken) { running = some id } =
            ground (arith, e) in
          subst (Shows (next (view s))) (sym computes) (
            subst (λ m. Shows m (dispatch_thread p i id taken)) (sym spec)
              (turn-dispatch id t taken policy found))
    ]
