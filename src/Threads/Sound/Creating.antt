-- ===== src/Threads/Sound/Creating.antt =====
-- `thread_create`: a new id, on one queue.
use mathlib.Core.Path.{subst}
use opearting_system.Base.Sums.{occurs, one, one_cases, weigh-snoc}
use opearting_system.Base.{
  ℕ, ◌+◌, ◌≡◌, refl, sym, Bool, true, false, not, List, [], ◌∷◌, ◌++◌, arith, All, ap, ◌∙◌,
  if◌then◌else◌, suc, Bool-cases, if_cases, inl, inr, ◌/◌,
}
use opearting_system.Base.Int.{ℤ, pos, eqb_ℤ}
use opearting_system.Threads.State.{
  Thread, Library, Platform, Inputs, fifo, sjf, priority, note, exit_with_error, first_level,
  second_level, quanta,
}
use opearting_system.Threads.Scheduler.{push_fifo, push_sjf, push_first, push_second, push_third}
use opearting_system.Threads.Calls.{is_level, new_thread, enqueue_new, add_thread, thread_create}
use opearting_system.Threads.Places.{waiting, named, placed, here}
use opearting_system.Threads.Places.Wake.{
  Joined, push_fifo-Joined, push_sjf-Joined, push_first-Joined, push_second-Joined,
  push_third-Joined,
}
use opearting_system.Threads.Places.Branches.{HasLevel}
use opearting_system.Threads.Sound.{IsSound}

not-false : (b : Bool) → not b ≡ false → b ≡ true
not-false true h = refl
not-false false h = sym h

module _ {R : Type 0} (p : Platform R) where
  enqueue_new-Joined :
      (level : ℤ) (s : Library R) → Joined (s.thread_count ∷ []) s (enqueue_new p level s)
  unfolding enqueue_new
  enqueue_new-Joined level s =
      let id = s.thread_count in
      elim s.policy
        as (λ q. Joined (id ∷ []) s (elim q [
          | fifo ↦ push_fifo id s
          | sjf ↦ push_sjf id (pos (quanta / 2)) s
          | priority ↦
              if eqb_ℤ level first_level
              then push_first id s
              else if eqb_ℤ level second_level
              then push_second id s
              else push_third id s
        ])) [
          | fifo ↦ push_fifo-Joined id s
          | sjf ↦ push_sjf-Joined id (pos (quanta / 2)) s
          | priority ↦ elim (Bool-cases (eqb_ℤ level first_level)) [
            | inl a ↦ rw a (push_first-Joined id s)
            | inr a ↦ rw a (elim (Bool-cases (eqb_ℤ level second_level)) [
              | inl b ↦ rw b (push_second-Joined id s)
              | inr b ↦ rw b (push_third-Joined id s)
            ])
          ]
        ]

  All-snoc :
      (P : Thread R → Type 0) (ts : List (Thread R)) (t : Thread R)
      → All P ts
      → P t
      → All P (ts ++ t ∷ [])
  All-snoc P [] t a h = (h, tt)
  All-snoc P (u ∷ ts) t a h = (a.0, All-snoc P ts t a.1 h)

  -- What a new thread, with the id that `thread_count` now has, does to the sums.
  abbrev Added : Library R → Library R → Type 0
  Added s t =
      IsSound t
      × (t.current_active ≡ s.current_active)
      × (t.policy ≡ s.policy)
      × ((x : ℕ) → placed x t ≡ placed x s + one x s.thread_count)
      × (t.thread_count ≡ s.thread_count)

  add_thread-Added :
      (level : ℤ) (i : Inputs) (s : Library R)
      → is_level level ≡ true
      → named s.thread_count s.thread_list ≡ 0
      → IsSound s
      → Added s (add_thread p level i s)
  unfolding add_thread note new_thread
  add_thread-Added level i s l new (a, u, n, ls) =
      let t = new_thread p level s in
      let listed : Library R = record s { thread_list = s.thread_list ++ t ∷ [] } in
      let ((f1, f2, f3, f4, f5), j) = enqueue_new-Joined level listed in
      let names : (x : ℕ)
          → named x listed.thread_list ≡ named x s.thread_list + one x s.thread_count =
        λ x. weigh-snoc (λ t. one x t.tid) s.thread_list t in
      let waits : (x : ℕ) → waiting x listed.thread_list ≡ waiting x s.thread_list =
        λ x. omega (arith, weigh-snoc (λ t. occurs x t.suspended_queue) s.thread_list t) in
      let next = add_thread p level i s in
      let total : (x : ℕ)
          → named x next.thread_list ≡ named x s.thread_list + one x s.thread_count =
        λ x. ap (named x) f5 ∙ names x in
      let grown : (x : ℕ) → placed x next ≡ placed x s + one x s.thread_count =
        λ x. omega (arith, j x, waits x, ap (waiting x) f5, ap (here x) f4) in
      (
        (
          (λ x. omega (arith, total x, grown x, a x)),
          (λ x. elim (one_cases x s.thread_count) [
            | inl (e, h) ↦ omega (arith, total x, h, new, ap (λ k. named k s.thread_list) e)
            | inr h ↦ omega (arith, total x, h, u x)
          ]),
          (λ x h. elim (one_cases x s.thread_count) [
            | inl (e, k) ↦ absurd (omega (arith, f3))
            | inr k ↦ omega (arith, total x, k, n x (omega (arith, f3)))
          ]),
          subst (All HasLevel) (sym f5) (All-snoc HasLevel s.thread_list t ls l),
        ),
        f4,
        f2,
        grown,
        f3,
      )

  -- The number is taken, the thread is not made.
  Counted-Sound :
      (s : Library R) → IsSound s → IsSound (record s { thread_count = suc s.thread_count })
  Counted-Sound s (a, u, n, ls) = (a, u, (λ x h. n x (omega arith)), ls)

  -- In a sound state of a started library, `thread_create` with one of the three levels and a function
  -- returns the next number if its stack can be had. That id stands on one queue more than before,
  -- every other id stands as often as before, `current_active` is the same and the state is sound.
  pub thread_create-Added :
      (level : ℤ) (i : Inputs) (s : Library R)
      → is_level level ≡ true
      → s.initialized ≡ true
      → i.malloc_ok ≡ true
      → IsSound s
      → let (t, result) = thread_create p true level i s in
        (result ≡ pos (suc s.thread_count))
        × IsSound t
        × (t.thread_count ≡ suc s.thread_count)
        × (t.current_active ≡ s.current_active)
        × ((x : ℕ) → placed x t ≡ placed x s + one x (suc s.thread_count))
  unfolding thread_create
  thread_create-Added level i s l init alloc sound =
      let counted = record s { thread_count = suc s.thread_count } in
      let (ok, c, _, g, n) =
        add_thread-Added level i counted l (sound.2 (suc s.thread_count) (omega arith))
          (Counted-Sound s sound) in
      let computes : thread_create p true level i s
          ≡ (add_thread p level i counted, pos (suc s.thread_count)) =
        ground (arith, l, init, alloc) in
      subst
        (λ (r : Library R × ℤ).
          (r.1 ≡ pos (suc s.thread_count))
          × IsSound r.0
          × (r.0.thread_count ≡ suc s.thread_count)
          × (r.0.current_active ≡ s.current_active)
          × ((x : ℕ) → placed x r.0 ≡ placed x s + one x (suc s.thread_count)))
        (sym computes) (refl, ok, n, c, g)

  create_cases :
      (P : Library R × ℤ → Type 0) (given : Bool) (level : ℤ) (i : Inputs) (s : Library R)
      → P (s, exit_with_error)
      → P (record s { thread_count = suc s.thread_count }, exit_with_error)
      → (is_level level ≡ true
          → P (
            add_thread p level i (record s { thread_count = suc s.thread_count }),
            pos (suc s.thread_count),
          ))
      → P (thread_create p given level i s)
  unfolding thread_create
  create_cases P given level i s refused counted made =
      if_cases P (not (is_level level)) (λ _. refused)
        λ l.
          if_cases P (not given) (λ _. refused)
            λ _.
              if_cases P (not s.initialized) (λ _. refused)
                λ _.
                  if_cases P (not i.malloc_ok) (λ _. counted)
                    λ _. made (not-false (is_level level) l)

  -- Every call, refused or not, keeps the invariant and leaves the processor where it is.
  pub thread_create-Sound :
      (given : Bool) (level : ℤ) (i : Inputs) (s : Library R)
      → IsSound s
      → IsSound (thread_create p given level i s).0
        × ((thread_create p given level i s).0.current_active ≡ s.current_active)
  thread_create-Sound given level i s sound =
      create_cases (λ r. IsSound r.0 × (r.0.current_active ≡ s.current_active)) given level i s
        (sound, refl) (Counted-Sound s sound, refl)
        λ l.
          let counted = record s { thread_count = suc s.thread_count } in
          let (ok, c, _, g, n) =
            add_thread-Added level i counted l (sound.2 (suc s.thread_count) (omega arith))
              (Counted-Sound s sound) in
          (ok, c)
