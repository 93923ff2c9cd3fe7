-- ===== src/Threads/Queues.antt =====
-- hw4/userthread.cpp, lines 281 to 324 and 403 to 500: the queues of threads that are ready.
use opearting_system.Base.{ℕ, ◌%◌, Option, none, some, [], ◌∷◌, ltb, if◌then◌else◌}
use opearting_system.Threads.State.{Library, Platform}

-- What a call of `choose_next_thread` finds, and the state that it leaves.
module _ {R : Type 0} where
  unfoldable pub choose_next_thread_fifo : Library R → Option (ℕ × Library R)
  choose_next_thread_fifo s = elim s.ready_fifo [
    | [] ↦ none
    | id ∷ rest ↦ some (id, record s { ready_fifo = rest })
  ]

  unfoldable pub choose_next_thread_sjf : Platform R → Library R → Option (ℕ × Library R)
  choose_next_thread_sjf p s = elim s.ready_sjf [
    | [] ↦ none
    | j ∷ js ↦ some ((p.extract j js).0.id, record s { ready_sjf = (p.extract j js).1 })
  ]

  -- `rand` is what `rand()` returns.
  unfoldable pub choose_next_thread_pri : ℕ → Library R → Option (ℕ × Library R)
  choose_next_thread_pri rand s =
      let lucky = rand % 19 in
      if ltb lucky 4
      then elim s.ready_third [
        | [] ↦ elim s.ready_first [
          | [] ↦ elim s.ready_second [
            | [] ↦ none
            | id ∷ rest ↦ some (id, record s { ready_second = rest })
          ]
          | id ∷ rest ↦ some (id, record s { ready_first = rest })
        ]
        | id ∷ rest ↦ some (id, record s { ready_third = rest })
      ]
      else if ltb lucky 10
      then elim s.ready_second [
        | [] ↦ elim s.ready_first [
          | [] ↦ elim s.ready_third [
            | [] ↦ none
            | id ∷ rest ↦ some (id, record s { ready_third = rest })
          ]
          | id ∷ rest ↦ some (id, record s { ready_first = rest })
        ]
        | id ∷ rest ↦ some (id, record s { ready_second = rest })
      ]
      else elim s.ready_first [
        | [] ↦ elim s.ready_second [
          | [] ↦ elim s.ready_third [
            | [] ↦ none
            | id ∷ rest ↦ some (id, record s { ready_third = rest })
          ]
          | id ∷ rest ↦ some (id, record s { ready_second = rest })
        ]
        | id ∷ rest ↦ some (id, record s { ready_first = rest })
      ]
