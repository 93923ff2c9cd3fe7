-- ===== src/Matrix/Pool.antt =====
-- Threads with the names of the places of a matrix, as `main` of hw2/matrix.c creates and joins them: a
-- schedule names who runs next.
use opearting_system.Base.{
  ℕ, zero, suc, Bool, true, false, ◌&&◌, Option, none, some, List, [], ◌∷◌, ltb, ◌==◌,
  if◌then◌else◌,
}

-- m[i][j] = v
abbrev pub put {ℓ} : {A : Type ℓ} → (ℕ → ℕ → A) → ℕ → ℕ → A → ℕ → ℕ → A
put m i j v x y = if i == x && j == y then v else m x y

unfoldable pub all_below : ℕ → (ℕ → Bool) → Bool
all_below zero p = true
all_below (suc n) p = all_below n p && p n

-- What the threads share, and how far each has come: `none` where no thread is.
pub record Pool (S P : Type 0) : Type 0 where
  pub shared : S
  pub threads : ℕ → ℕ → Option P

module _ {P : Type 0} where
  -- The threads of the first rows and columns, all at the start of their function.
  unfoldable pub spawn : ℕ → ℕ → P → ℕ → ℕ → Option P
  spawn rows columns start i j = if ltb i rows && ltb j columns then some start else none

  unfoldable pub has_returned : (P → Bool) → Option P → Bool
  has_returned is_end none = false
  has_returned is_end (some p) = is_end p

module _ {S P : Type 0} where
  -- The joins of all these threads: `main` goes on when the last has returned.
  unfoldable pub join_threads : (P → Bool) → ℕ → ℕ → Pool S P → Option S
  unfolding has_returned all_below
  join_threads is_end rows columns t =
      if all_below rows (λ i. all_below columns (λ j. has_returned is_end (t.threads i j)))
      then some t.shared
      else none

  module _ (step : ℕ → ℕ → S → P → S × P) where
    -- The thread at i, j goes one step on, or stays where it waits.
    unfoldable pub advance : ℕ → ℕ → Pool S P → Option P → Pool S P
    advance i j t none = t
    advance i j t (some p) = record {
      shared = (step i j t.shared p).0;
      threads = put t.threads i j (some (step i j t.shared p).1);
    }

    unfoldable pub turn : ℕ → ℕ → Pool S P → Pool S P
    turn i j t = advance i j t (t.threads i j)

    unfoldable pub run_threads : List (ℕ × ℕ) → Pool S P → Pool S P
    unfolding turn
    run_threads [] t = t
    run_threads ((i, j) ∷ order) t = run_threads order (turn i j t)
