-- ===== src/Threads/Sound.antt =====
-- What holds of the library between two calls: every id stands in one place at most, and belongs to
-- a thread.
pub mod Halting
pub mod Creating
pub mod Starting
pub mod Ending
pub mod Session
use opearting_system.Base.Sums.{occurs, weigh, one}
use opearting_system.Base.{
  ℕ, ◌+◌, ◌≤◌, ◌<◌, ◌≡◌, Bool, true, false, Option, none, some, List, [], ◌∷◌, arith, All, ap, ◌∙◌,
}
use opearting_system.Threads.State.{Thread, Library, Control, returns, to_thread, to_main, exits}
use opearting_system.Threads.Places.{queued, ready, waiting, stored, named, placed, here}
use opearting_system.Threads.Places.Branches.{HasLevel, Keeps}
use opearting_system.Threads.Places.Turn.{Turned}

module _ {R : Type 0} where
  -- An id stands at most once in all the queues and in `current_active`, and only the id of a thread.
  -- The ids of the threads differ, and go up to `thread_count`.
  abbrev pub IsSound : Library R → Type 0
  IsSound s =
      ((x : ℕ) → placed x s ≤ named x s.thread_list)
      × ((x : ℕ) → named x s.thread_list ≤ 1)
      × ((x : ℕ) → s.thread_count < x → named x s.thread_list ≡ 0)
      × All HasLevel s.thread_list

  -- After a turn, `current_active` is the thread that runs.
  abbrev pub Agrees : Library R → Library R → Control → Type 0
  Agrees s t (to_thread id) = t.current_active ≡ some id
  Agrees s t to_main = t.current_active ≡ none
  Agrees s t (returns n) = t.current_active ≡ s.current_active
  Agrees s t exits = s.current_active ≡ none

  Keeps-Sound :
      (s t : Library R) → Keeps s t → ((x : ℕ) → placed x t ≤ placed x s) → IsSound s → IsSound t
  Keeps-Sound s t k le (a, u, n, l) = (
    (λ x. omega (arith, a x, le x, k.3 x)),
    (λ x. omega (arith, u x, k.3 x)),
    (λ x h. k.3 x ∙ n x (omega (arith, k.2))),
    k.4 l,
  )

  pub Turned-Sound :
      (kept : ℕ → ℕ) (timer : Bool) (s t : Library R) (c : Control)
      → ((x : ℕ) → stored x s + kept x ≤ placed x s)
      → IsSound s
      → Turned kept timer s t c
      → IsSound t × Agrees s t c
  Turned-Sound kept timer s t (to_thread id) le h (k, c, e) =
      (Keeps-Sound s t k (λ x. omega (arith, le x, e x)) h, c)
  Turned-Sound kept timer s t to_main le h (k, c, e, n) =
      (Keeps-Sound s t k (λ x. omega (arith, le x, e x)) h, c)
  Turned-Sound kept timer s t (returns n) le h w = absurd w
  Turned-Sound kept timer s t exits le h w = absurd w
