-- ===== src/Threads/Places/Branches.antt =====
-- What each branch of `my_scheduler` does to the sums: the next thread leaves the queues, and the
-- current one joins them, unless it has finished or no other thread is ready.
use opearting_system.Base.Sums.{occurs, one}
use opearting_system.Base.{
  ℕ, ◌+◌, ◌≡◌, refl, true, Option, none, some, List, [], ◌∷◌, arith, Bool-cases, inl, inr, All,
  ◌++◌, ap,
}
use opearting_system.Base.Int.{eqb_ℤ}
use opearting_system.Threads.State.{
  Thread, fifo, priority, Library, Platform, Inputs, first_level, second_level, third_level, modify,
  write,
}
use opearting_system.Threads.Times.{
  set_end_time, set_estimated_time, estimate_mean, estimate_aging, store_time,
}
use opearting_system.Threads.Scheduler.{
  Pick, picked, nobody, misfit, undefined, settle, push_fifo, push_first, push_second, push_third,
  choose_next_thread, end_run, yield_fifo, yield_pri,
}
use opearting_system.Threads.Calls.{is_level}
use opearting_system.Threads.Places.{named, waiting, stored}
use opearting_system.Threads.Places.Lists.{weigh-modify_same, All-modify}
use opearting_system.Threads.Places.Choose.{
  NoneReady, Taken, IsPriorityQueue, choose_next_thread-Taken,
}
use opearting_system.Threads.Places.Wake.{
  Joined, push_fifo-Joined, push_first-Joined, push_second-Joined, push_third-Joined,
}

-- A queue that was just joined is not empty.
joined-ne-nil : (id : ℕ) (xs : List ℕ) → xs ++ id ∷ [] ≡ [] → ⊥
joined-ne-nil id [] h = cc
joined-ne-nil id (x ∷ xs) h = cc

module _ {R : Type 0} where
  abbrev pub HasLevel : Thread R → Type 0
  HasLevel t = is_level t.level ≡ true

  -- No thread comes, goes or changes its level.
  abbrev pub Keeps : Library R → Library R → Type 0
  Keeps s t =
      (t.initialized ≡ s.initialized)
      × (t.policy ≡ s.policy)
      × (t.thread_count ≡ s.thread_count)
      × ((x : ℕ) → named x t.thread_list ≡ named x s.thread_list)
      × (All HasLevel s.thread_list → All HasLevel t.thread_list)

  -- A branch ends well. `kept` says which ids have joined a queue, if a next thread is found.
  abbrev pub Accounted : (ℕ → ℕ) → Library R → Pick R → Type 0
  Accounted kept s (picked id t) =
      Keeps s t
      × (t.current_active ≡ s.current_active)
      × ((x : ℕ) → one x id + stored x t ≡ stored x s + kept x)
  Accounted kept s (nobody t) = Keeps s t × NoneReady t × ((x : ℕ) → stored x t ≡ stored x s)
  Accounted kept s (misfit t) = ⊥
  Accounted kept s undefined = ⊥

  -- Writes that leave the id, the level and the suspended queue of a thread alone.
  abbrev pub IsQuiet : (Thread R → Thread R) → Type 0
  IsQuiet f =
      (t : Thread R)
      → ((f t).tid ≡ t.tid) × ((f t).level ≡ t.level) × ((f t).suspended_queue ≡ t.suspended_queue)

  pub write-quiet :
      (id : ℕ) (f : Thread R → Thread R) (s : Library R)
      → IsQuiet f
      → Keeps s (write id f s)
        × ((x : ℕ) → waiting x (modify id f s.thread_list) ≡ waiting x s.thread_list)
  write-quiet id f s q = (
    (
      refl,
      refl,
      refl,
      (λ x. weigh-modify_same (λ t. one x t.tid) id f (λ t. ground (arith, q t)) s.thread_list),
      (λ a. All-modify HasLevel id f (λ t h. rw ((q t).1) h) s.thread_list a),
    ),
    λ x.
        weigh-modify_same (λ t. occurs x t.suspended_queue) id f (λ t. rw ((q t).2) refl)
          s.thread_list,
  )

  pub end_run-IsQuiet : (p : Platform R) (i : Inputs) → IsQuiet (end_run p i)
  unfolding end_run set_estimated_time estimate_mean estimate_aging store_time set_end_time
  end_run-IsQuiet p i t = ground arith

  pub settle-Accounted :
      (kept : ℕ → ℕ) (s u : Library R) (r : Option (ℕ × Library R))
      → Keeps s u
      → u.current_active ≡ s.current_active
      → ((x : ℕ) → stored x u ≡ stored x s + kept x)
      → (NoneReady u → (x : ℕ) → kept x ≡ 0)
      → Taken (NoneReady u) u r
      → Accounted kept s (settle u r)
  settle-Accounted kept s u none k c e z h = (k, h, λ x. omega (arith, e x, z h x))
  settle-Accounted kept s u (some (id, t)) k c e z ((f1, f2, f3, f4, f5), taken) = (
    (cc, cc, cc, (λ x. rw f5 (k.3 x)), (λ a. rw f5 (k.4 a))),
    cc,
    λ x. omega (arith, e x, taken x, ap (waiting x) f5),
  )

  -- Joining a queue, as the start of a branch.
  Joined-stored :
      (id : ℕ) (s t : Library R)
      → Joined (id ∷ []) s t
      → Keeps s t
        × (t.current_active ≡ s.current_active)
        × ((x : ℕ) → stored x t ≡ stored x s + one x id)
  Joined-stored id s t ((f1, f2, f3, f4, f5), j) = (
    (f1, f2, f3, (λ x. rw f5 refl), (λ a. rw f5 a)),
    f4,
    λ x. omega (arith, j x, ap (waiting x) f5),
  )

  module _ (p : Platform R) (queue : IsPriorityQueue p.extract) (i : Inputs) where
    yield_settles :
        (id : ℕ) (s t : Library R)
        → Joined (id ∷ []) s t
        → (NoneReady t → ⊥)
        → Accounted (λ x. one x id) s (settle t (choose_next_thread p i t))
    yield_settles id s t j n =
        let (k, c, e) = Joined-stored id s t j in
        settle-Accounted (λ x. one x id) s t (choose_next_thread p i t) k c e (λ h. absurd (n h))
          (choose_next_thread-Taken p queue i t)

    pub yield_fifo-Accounted :
        (t : Thread R) (s : Library R)
        → s.policy ≡ fifo
        → Accounted (λ x. one x t.tid) s (yield_fifo p i t s)
    unfolding yield_fifo
    yield_fifo-Accounted t s h =
        yield_settles t.tid s (push_fifo t.tid s) (push_fifo-Joined t.tid s)
          (λ n. joined-ne-nil t.tid s.ready_fifo (rw h at n))

    pub yield_pri-Accounted :
        (t : Thread R) (s : Library R)
        → s.policy ≡ priority
        → HasLevel t
        → Accounted (λ x. one x t.tid) s (yield_pri p i t s)
    unfolding yield_pri
    yield_pri-Accounted t s h l = elim (Bool-cases (eqb_ℤ t.level first_level)) [
      | inl a ↦ rw a (
          yield_settles t.tid s (push_first t.tid s) (push_first-Joined t.tid s)
            (λ n. joined-ne-nil t.tid s.ready_first (rw h at n).0))
      | inr a ↦ rw a (elim (Bool-cases (eqb_ℤ t.level second_level)) [
        | inl b ↦ rw b (
            yield_settles t.tid s (push_second t.tid s) (push_second-Joined t.tid s)
              (λ n. joined-ne-nil t.tid s.ready_second (rw h at n).1))
        | inr b ↦ rw b (elim (Bool-cases (eqb_ℤ t.level third_level)) [
          | inl d ↦ rw d (
              yield_settles t.tid s (push_third t.tid s) (push_third-Joined t.tid s)
                (λ n. joined-ne-nil t.tid s.ready_third (rw h at n).2))
          | inr d ↦ absurd (cc)
        ])
      ])
    ]
