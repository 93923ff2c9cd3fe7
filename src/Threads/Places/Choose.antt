-- ===== src/Threads/Places/Choose.antt =====
-- What taking the next thread does to the sums: its id leaves a queue, and nothing else changes.
use opearting_system.Base.Sums.{occurs, weigh, one}
use opearting_system.Base.{
  ℕ, ◌+◌, ◌%◌, ltb, ◌≡◌, refl, ap, inl, inr, Option, none, some, List, [], ◌∷◌, arith, Bool-cases,
  All,
}
use opearting_system.Base.Int.{◌≤ℤ◌}
use opearting_system.Threads.State.{Job, Policy, fifo, sjf, priority, Library, Platform, Inputs}
use opearting_system.Threads.Queues.{
  choose_next_thread_fifo, choose_next_thread_sjf, choose_next_thread_pri,
}
use opearting_system.Threads.Scheduler.{choose_next_thread}
use opearting_system.Threads.Places.{queued, ready}

-- What is documented of a priority queue: `top` and `pop` take an entry that it holds, and none
-- comes before it.
pub record IsPriorityQueue (extract : Job → List Job → Job × List Job) : Type 1 where
  pub keeps :
      (f : Job → ℕ) (j : Job) (js : List Job)
      → f (extract j js).0 + weigh f (extract j js).1 ≡ f j + weigh f js
  pub least :
      (j : Job) (js : List Job) → All (λ k. (extract j js).0.cost ≤ℤ k.cost) (extract j js).1

abbrev pub Empty : Policy → List ℕ → List Job → List ℕ → List ℕ → List ℕ → Type 0
Empty fifo queue jobs first second third = queue ≡ []
Empty sjf queue jobs first second third = jobs ≡ []
Empty priority queue jobs first second third = (first ≡ []) × (second ≡ []) × (third ≡ [])

module _ {R : Type 0} where
  -- The queues from which the policy takes the next thread are empty.
  abbrev pub NoneReady : Library R → Type 0
  NoneReady s = Empty s.policy s.ready_fifo s.ready_sjf s.ready_first s.ready_second s.ready_third

  -- Everything but the ready queues and the log is the same.
  abbrev pub Frame : Library R → Library R → Type 0
  Frame s t =
      (t.initialized ≡ s.initialized)
      × (t.policy ≡ s.policy)
      × (t.thread_count ≡ s.thread_count)
      × (t.current_active ≡ s.current_active)
      × (t.thread_list ≡ s.thread_list)

  -- Nobody is taken, and `E` is why; or one id has left the queues.
  abbrev pub Taken : Type 0 → Library R → Option (ℕ × Library R) → Type 0
  Taken E s none = E
  Taken E s (some (id, t)) = Frame s t × ((x : ℕ) → one x id + ready x t ≡ ready x s)

  -- The front of a queue, or what `other` gives where it is empty.
  take_first : Library R → Option (ℕ × Library R) → Option (ℕ × Library R)
  take_first s other = elim s.ready_first [
    | [] ↦ other
    | id ∷ rest ↦ some (id, record s { ready_first = rest })
  ]

  take_second : Library R → Option (ℕ × Library R) → Option (ℕ × Library R)
  take_second s other = elim s.ready_second [
    | [] ↦ other
    | id ∷ rest ↦ some (id, record s { ready_second = rest })
  ]

  take_third : Library R → Option (ℕ × Library R) → Option (ℕ × Library R)
  take_third s other = elim s.ready_third [
    | [] ↦ other
    | id ∷ rest ↦ some (id, record s { ready_third = rest })
  ]

  module _ (E : Type 0) (s : Library R) (other : Option (ℕ × Library R)) where
    take_first-Taken : (s.ready_first ≡ [] → Taken E s other) → Taken E s (take_first s other)
    unfolding take_first
    take_first-Taken h =
        elim s.ready_first
            as (λ q.
              s.ready_first ≡ q
              → Taken E s (elim q [
                | [] ↦ other
                | id ∷ rest ↦ some (id, record s { ready_first = rest })
              ])) [
                | [] ↦ h
                | id ∷ rest ↦
                    λ e. ((refl, refl, refl, refl, refl), λ x. omega (arith, ap (occurs x) e))
              ]
          refl

    take_second-Taken : (s.ready_second ≡ [] → Taken E s other) → Taken E s (take_second s other)
    unfolding take_second
    take_second-Taken h =
        elim s.ready_second
            as (λ q.
              s.ready_second ≡ q
              → Taken E s (elim q [
                | [] ↦ other
                | id ∷ rest ↦ some (id, record s { ready_second = rest })
              ])) [
                | [] ↦ h
                | id ∷ rest ↦
                    λ e. ((refl, refl, refl, refl, refl), λ x. omega (arith, ap (occurs x) e))
              ]
          refl

    take_third-Taken : (s.ready_third ≡ [] → Taken E s other) → Taken E s (take_third s other)
    unfolding take_third
    take_third-Taken h =
        elim s.ready_third
            as (λ q.
              s.ready_third ≡ q
              → Taken E s (elim q [
                | [] ↦ other
                | id ∷ rest ↦ some (id, record s { ready_third = rest })
              ])) [
                | [] ↦ h
                | id ∷ rest ↦
                    λ e. ((refl, refl, refl, refl, refl), λ x. omega (arith, ap (occurs x) e))
              ]
          refl

  choose_fifo-Taken : (s : Library R) → Taken (s.ready_fifo ≡ []) s (choose_next_thread_fifo s)
  unfolding choose_next_thread_fifo
  choose_fifo-Taken s =
      elim s.ready_fifo
          as (λ q.
            s.ready_fifo ≡ q
            → Taken (s.ready_fifo ≡ []) s
                (elim q [ [] ↦ none | id ∷ rest ↦ some (id, record s { ready_fifo = rest }) ])) [
                  | [] ↦ λ e. e
                  | id ∷ rest ↦
                      λ e. ((refl, refl, refl, refl, refl), λ x. omega (arith, ap (occurs x) e))
                ]
        refl

  choose_pri-Taken :
      (rand : ℕ) (s : Library R)
      → Taken
          ((s.ready_first ≡ []) × (s.ready_second ≡ []) × (s.ready_third ≡ []))
          s
          (choose_next_thread_pri rand s)
  unfolding choose_next_thread_pri take_first take_second take_third
  choose_pri-Taken rand s = elim (Bool-cases (ltb (rand % 19) 4)) [
    | inl low ↦ rw low (
        take_third-Taken _ s _
          λ c. take_first-Taken _ s _ λ a. take_second-Taken _ s none λ b. (a, b, c))
    | inr high ↦ rw high (elim (Bool-cases (ltb (rand % 19) 10)) [
      | inl low ↦ rw low (
          take_second-Taken _ s _
            λ b. take_first-Taken _ s _ λ a. take_third-Taken _ s none λ c. (a, b, c))
      | inr top ↦ rw top (
          take_first-Taken _ s _
            λ a. take_second-Taken _ s _ λ b. take_third-Taken _ s none λ c. (a, b, c))
    ])
  ]

  module _ (p : Platform R) (queue : IsPriorityQueue p.extract) where
    choose_sjf-Taken : (s : Library R) → Taken (s.ready_sjf ≡ []) s (choose_next_thread_sjf p s)
    unfolding choose_next_thread_sjf
    choose_sjf-Taken s =
        elim s.ready_sjf
            as (λ q.
              s.ready_sjf ≡ q
              → Taken (s.ready_sjf ≡ []) s (elim q [
                | [] ↦ none
                | j ∷ js ↦ some ((p.extract j js).0.id, record s { ready_sjf = (p.extract j js).1 })
              ])) [
                | [] ↦ λ e. e
                | j ∷ js ↦ λ e. (
                  (refl, refl, refl, refl, refl),
                  λ x. omega (arith, ap (queued x) e, queue.keeps (λ k. one x k.id) j js),
                )
              ]
          refl

    -- Whatever the policy: nobody is chosen only if its queues are empty, and else one id leaves them.
    pub choose_next_thread-Taken :
        (i : Inputs) (s : Library R) → Taken (NoneReady s) s (choose_next_thread p i s)
    unfolding choose_next_thread
    choose_next_thread-Taken i s =
        elim s.policy
          as (λ q.
            Taken (Empty q s.ready_fifo s.ready_sjf s.ready_first s.ready_second s.ready_third) s
              (elim q [
                | fifo ↦ choose_next_thread_fifo s
                | sjf ↦ choose_next_thread_sjf p s
                | priority ↦ choose_next_thread_pri i.rand s
              ])) [
                | fifo ↦ choose_fifo-Taken s
                | sjf ↦ choose_sjf-Taken s
                | priority ↦ choose_pri-Taken i.rand s
              ]
