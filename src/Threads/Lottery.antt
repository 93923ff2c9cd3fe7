-- ===== src/Threads/Lottery.antt =====
-- `choose_next_thread_PRI` of hw4/userthread.cpp, lines 428 to 500, against a draw from a list of
-- levels in order of preference.
use opearting_system.Base.{
  ℕ, ◌+◌, ◌%◌, ◌≤◌, ◌<◌, ◌≡◌, ◌⊎◌, inl, inr, refl, true, false, length, Option, none, some, List,
  [], ◌∷◌, arith, ltb, if◌then◌else◌,
}
use opearting_system.Base.Sums.{total}
use opearting_system.Threads.State.{Library}
use opearting_system.Threads.Queues.{choose_next_thread_pri}

-- The three levels of priority.
pub data Level : Type 0 where
  high middle low : Level

module _ {R : Type 0} where
  pub queue_of : Level → Library R → List ℕ
  queue_of high s = s.ready_first
  queue_of middle s = s.ready_second
  queue_of low s = s.ready_third

  pub put_queue : Level → List ℕ → Library R → Library R
  put_queue high q s = record s { ready_first = q }
  put_queue middle q s = record s { ready_second = q }
  put_queue low q s = record s { ready_third = q }

  -- The front of the first queue that is not empty.
  pub first_ready : List Level → Library R → Option (ℕ × Library R)
  first_ready [] s = none
  first_ready (l ∷ ls) s = elim (queue_of l s) [
    | [] ↦ first_ready ls s
    | id ∷ rest ↦ some (id, put_queue l rest s)
  ]

-- Of 19 tickets 4 are for the low level, 6 for the middle one and 9 for the high one.
pub preference : ℕ → List Level
preference ticket =
    if ltb ticket 4
    then low ∷ high ∷ middle ∷ []
    else if ltb ticket 10
    then middle ∷ high ∷ low ∷ []
    else high ∷ middle ∷ low ∷ []

-- The tickets of a level, and of a queue on it: an empty one has none.
pub tickets : Level → ℕ
tickets low = 4
tickets middle = 6
tickets high = 9

pub held : Level → List ℕ → ℕ
held l [] = 0
held l (id ∷ rest) = tickets l

shorter : {A : Type 0} (x : A) (xs : List A) → ltb (length xs) (length (x ∷ xs)) ≡ true
shorter x xs = ground arith

same_length : {A : Type 0} (xs : List A) → ltb (length xs) (length xs) ≡ false
same_length xs = ground arith

module _ {R : Type 0} where
  -- Whether the queue of the level has become shorter.
  pub served : Level → Library R → Option (ℕ × Library R) → ℕ
  served l s none = 0
  served l s (some (id, t)) = if ltb (length (queue_of l t)) (length (queue_of l s)) then 1 else 0

  -- How many of the 19 tickets serve a level.
  pub draws : Level → Library R → ℕ
  draws l s = total 19 (λ rand. served l s (choose_next_thread_pri rand s))

  abbrev Fair : Library R → Type 0
  Fair s =
      (held low s.ready_third ≤ draws low s)
      × (held middle s.ready_second ≤ draws middle s)
      × (held high s.ready_first ≤ draws high s)
      × ((draws low s + draws middle s + draws high s ≡ 19)
          ⊎ ((s.ready_first ≡ []) × (s.ready_second ≡ []) × (s.ready_third ≡ [])))

  abbrev with_queues : List ℕ → List ℕ → List ℕ → Library R → Library R
  with_queues a b c s = record s { ready_first = a; ready_second = b; ready_third = c }

  search_lem :
      (rand : ℕ) (s : Library R)
      → choose_next_thread_pri rand s ≡ first_ready (preference (rand % 19)) s
  unfolding choose_next_thread_pri first_ready preference queue_of put_queue
  search_lem rand s = ground arith

  draws_lem : (a b c : List ℕ) (s : Library R) → Fair (with_queues a b c s)
  unfolding draws served held tickets queue_of choose_next_thread_pri total
  draws_lem [] [] [] s = (omega arith, omega arith, omega arith, inr (refl, refl, refl))
  draws_lem (x ∷ xs) [] [] s = simp (shorter x xs) (omega arith, omega arith, omega arith, inl refl)
  draws_lem [] (x ∷ xs) [] s = simp (shorter x xs) (omega arith, omega arith, omega arith, inl refl)
  draws_lem [] [] (x ∷ xs) s = simp (shorter x xs) (omega arith, omega arith, omega arith, inl refl)
  draws_lem (x ∷ xs) (y ∷ ys) [] s =
      simp (shorter x xs, same_length (x ∷ xs), shorter y ys, same_length (y ∷ ys))
        (omega arith, omega arith, omega arith, inl refl)
  draws_lem (x ∷ xs) [] (y ∷ ys) s =
      simp (shorter x xs, same_length (x ∷ xs), shorter y ys, same_length (y ∷ ys))
        (omega arith, omega arith, omega arith, inl refl)
  draws_lem [] (x ∷ xs) (y ∷ ys) s =
      simp (shorter x xs, same_length (x ∷ xs), shorter y ys, same_length (y ∷ ys))
        (omega arith, omega arith, omega arith, inl refl)
  draws_lem (x ∷ xs) (y ∷ ys) (z ∷ zs) s =
      simp
        (
          shorter x xs,
          same_length (x ∷ xs),
          shorter y ys,
          same_length (y ∷ ys),
          shorter z zs,
          same_length (z ∷ zs),
        )
        (omega arith, omega arith, omega arith, inl refl)

module _ {R : Type 0} where
  -- The nested tests of `choose_next_thread_PRI` find what a search does that goes through the three
  -- queues in the order of preference of the ticket, `rand() % 19`, and takes the front of the
  -- first that is not empty; they find nobody where it does. Of the 19 tickets at least 4 serve the low
  -- queue, 6 the middle one and 9 the high one, if it is not empty; and if any is not empty then each
  -- of the 19 serves a queue.
  pub choose_next_thread_pri-first_ready :
      (rand : ℕ) (s : Library R)
      → (choose_next_thread_pri rand s ≡ first_ready (preference (rand % 19)) s)
        × (held low s.ready_third ≤ draws low s)
        × (held middle s.ready_second ≤ draws middle s)
        × (held high s.ready_first ≤ draws high s)
        × ((draws low s + draws middle s + draws high s ≡ 19)
            ⊎ ((s.ready_first ≡ []) × (s.ready_second ≡ []) × (s.ready_third ≡ [])))
  choose_next_thread_pri-first_ready rand s =
      let (a, b, c, d) = draws_lem s.ready_first s.ready_second s.ready_third s in
      (search_lem rand s, a, b, c, d)

-- The tickets that put a level first.
abbrev pub Favours : Level → ℕ → Type 0
Favours low ticket = ticket < 4
Favours middle ticket = (4 ≤ ticket) × (ticket < 10)
Favours high ticket = 10 ≤ ticket

module _ {R : Type 0} where
  -- Whatever stands in the other queues, `rand() % 19` below 4 takes the front of the low queue, from
  -- 4 to 9 that of the middle one and from 10 on that of the high one, if it is not empty.
  pub choose_next_thread_pri-favoured :
      (l : Level) (rand id : ℕ) (rest : List ℕ) (s : Library R)
      → queue_of l s ≡ id ∷ rest
      → Favours l (rand % 19)
      → choose_next_thread_pri rand s ≡ some (id, put_queue l rest s)
  unfolding choose_next_thread_pri queue_of put_queue
  choose_next_thread_pri-favoured high rand id rest s q f = ground arith
  choose_next_thread_pri-favoured middle rand id rest s q f = ground arith
  choose_next_thread_pri-favoured low rand id rest s q f = ground arith
