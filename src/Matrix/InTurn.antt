-- ===== src/Matrix/InTurn.antt =====
-- The threads of hw2/matrix.c one after another: each runs to its end before the next.
use opearting_system.Base.{
  ℕ, zero, suc, ◌<◌, ◌≡◌, refl, sym, ap, ◌∙◌, Bool, true, ◌&&◌, ◌||◌, Option, none, some, List, [],
  ◌∷◌, ◌++◌, arith, ltb, ◌==◌, if◌then◌else◌,
}
use mathlib.Core.Path.{subst}
use opearting_system.Matrix.Pool.{
  Pool, put, all_below, spawn, has_returned, join_threads, advance, turn, run_threads,
}
use opearting_system.Matrix.Keeping.{put_cases, put-same}

-- k turns for the thread at i, j.
pub turns : ℕ → ℕ → ℕ → List (ℕ × ℕ)
turns i j zero = []
turns i j (suc k) = (i, j) ∷ turns i j k

-- Then the threads of a row, and the rows.
unfoldable pub row_turns : ℕ → ℕ → ℕ → List (ℕ × ℕ)
row_turns k i zero = []
row_turns k i (suc columns) = row_turns k i columns ++ turns i columns k

unfoldable pub in_turn : ℕ → ℕ → ℕ → List (ℕ × ℕ)
in_turn k zero columns = []
in_turn k (suc rows) columns = in_turn k rows columns ++ row_turns k rows columns

all_below-yes : (n : ℕ) (p : ℕ → Bool) → ((i : ℕ) → i < n → p i ≡ true) → all_below n p ≡ true
unfolding all_below
all_below-yes zero p h = refl
all_below-yes (suc n) p h =
    ground (arith, all_below-yes n p (λ i lt. h i (omega arith)), h n (omega arith))

put_back {ℓ} :
    {A : Type ℓ} (m : ℕ → ℕ → A) (i j : ℕ) (v : A) → m i j ≡ v → (x y : ℕ) → m x y ≡ put m i j v x y
put_back m i j v e = put_cases (λ x y w. m x y ≡ w) m i j v e (λ x y away. refl)

put-put {ℓ} :
    {A : Type ℓ} (m : ℕ → ℕ → A) (i j : ℕ) (v w : A) (x y : ℕ)
    → put (put m i j v) i j w x y ≡ put m i j w x y
put-put m i j v w x y = ground arith

pub join_threads-all :
    {S P : Type 0} (is_end : P → Bool) (rows columns : ℕ) (t : Pool S P)
    → ((i j : ℕ) → i < rows → j < columns → has_returned is_end (t.threads i j) ≡ true)
    → join_threads is_end rows columns t ≡ some t.shared
unfolding join_threads
join_threads-all is_end rows columns t h =
    ap (λ b. if b then some t.shared else none)
      (all_below-yes rows (λ i. all_below columns (λ j. has_returned is_end (t.threads i j)))
        (λ i li.
          all_below-yes columns (λ j. has_returned is_end (t.threads i j)) (λ j lj. h i j li lj)))

module _ {S P : Type 0} (step : ℕ → ℕ → S → P → S × P) where
  pub run_threads-append :
      (xs ys : List (ℕ × ℕ)) (t : Pool S P)
      → run_threads step (xs ++ ys) t ≡ run_threads step ys (run_threads step xs t)
  unfolding run_threads
  run_threads-append [] ys t = refl
  run_threads-append ((i, j) ∷ xs) ys t = run_threads-append xs ys (turn step i j t)

  -- What a thread does alone.
  unfoldable pub alone : ℕ → ℕ → ℕ → S → P → S × P
  alone i j zero s p = (s, p)
  alone i j (suc k) s p = alone i j k (step i j s p).0 (step i j s p).1

  turn-thread :
      (i j : ℕ) (p : P) (t : Pool S P)
      → t.threads i j ≡ some p
      → turn step i j t ≡ record {
        shared = (step i j t.shared p).0;
        threads = put t.threads i j (some (step i j t.shared p).1);
      }
  unfolding turn advance
  turn-thread i j p t e = ap (advance step i j t) e

  pub turns-alone :
      (i j k : ℕ) (p : P) (t : Pool S P)
      → t.threads i j ≡ some p
      → ((run_threads step (turns i j k) t).shared ≡ (alone i j k t.shared p).0)
        × ((x y : ℕ)
            → (run_threads step (turns i j k) t).threads x y
              ≡ put t.threads i j (some (alone i j k t.shared p).1) x y)
  unfolding run_threads turns alone
  turns-alone i j zero p t e = (refl, λ x y. put_back t.threads i j (some p) e x y)
  turns-alone i j (suc k) p t e =
      let next : Pool S P = record {
        shared = (step i j t.shared p).0;
        threads = put t.threads i j (some (step i j t.shared p).1);
      } in
      let rest =
        turns-alone i j k (step i j t.shared p).1 next
          (put-same t.threads i j (some (step i j t.shared p).1)) in
      subst
        (λ z.
          ((run_threads step (turns i j k) z).shared
            ≡ (alone i j k (step i j t.shared p).0 (step i j t.shared p).1).0)
          × ((x y : ℕ)
              → (run_threads step (turns i j k) z).threads x y
                ≡ put t.threads i j
                    (some (alone i j k (step i j t.shared p).0 (step i j t.shared p).1).1) x y))
        (sym (turn-thread i j p t e))
        (
          rest.0,
          λ x y.
              rest.1 x y
              ∙ put-put t.threads i j (some (step i j t.shared p).1)
                  (some (alone i j k (step i j t.shared p).0 (step i j t.shared p).1).1) x y,
        )

pub put-pointwise {ℓ} :
    {A : Type ℓ} (f g : ℕ → ℕ → A) (i j : ℕ) (v : A)
    → ((x y : ℕ) → f x y ≡ g x y)
    → (x y : ℕ) → put f i j v x y ≡ put g i j v x y
put-pointwise f g i j v h x y = ground (arith, h x y)

module _ {P : Type 0} (rows columns : ℕ) (begin end : P) where
  -- The threads up to that of row i and column j have returned, the others wait for their first turn.
  abbrev pub standing : ℕ → ℕ → ℕ → ℕ → Option P
  standing i j x y =
      if ltb x rows && ltb y columns
      then some (if ltb x i || (x == i && ltb y j) then end else begin)
      else none

  pub standing_next :
      (i j : ℕ)
      → i < rows
      → j < columns
      → (x y : ℕ) → put (standing i j) i j (some end) x y ≡ standing i (suc j) x y
  standing_next i j li lj x y = ground arith

  pub standing_row : (i x y : ℕ) → standing i columns x y ≡ standing (suc i) 0 x y
  standing_row i x y = ground arith

  pub spawn-standing : (x y : ℕ) → spawn rows columns begin x y ≡ standing 0 0 x y
  unfolding spawn
  spawn-standing x y = ground arith

  pub all_ended :
      (is_end : P → Bool)
      → is_end end ≡ true
      → (x y : ℕ) → x < rows
      → y < columns
      → has_returned is_end (standing rows 0 x y) ≡ true
  unfolding has_returned
  all_ended is_end e x y lx ly = ground (arith, e)

  pub at_turn : (i j : ℕ) → i < rows → j < columns → standing i j i j ≡ some begin
  at_turn i j li lj = ground arith

-- Where all have come to, they can begin again.
pub standing-again :
    {P : Type 0} (rows columns : ℕ) (begin middle end : P) (x y : ℕ)
    → standing rows columns begin middle rows 0 x y ≡ standing rows columns middle end 0 0 x y
standing-again rows columns begin middle end x y = ground arith
