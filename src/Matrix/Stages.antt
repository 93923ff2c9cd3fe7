-- ===== src/Matrix/Stages.antt =====
-- Threads of hw2/matrix.c that have run to their end, one after another, up to a row and a column.
use opearting_system.Base.{ℕ, zero, suc, ◌≤◌, ◌<◌, ◌≡◌, sym, ◌∙◌, Bool, true, some, arith}
use mathlib.Core.Path.{subst}
use opearting_system.Matrix.Pool.{Pool, put, spawn, has_returned, join_threads, run_threads}
use opearting_system.Matrix.InTurn.{
  alone, turns, row_turns, in_turn, standing, standing_next, standing_row, at_turn, spawn-standing,
  all_ended, join_threads-all, run_threads-append, turns-alone, put-pointwise,
}

module _ {S P : Type 0} (step : ℕ → ℕ → S → P → S × P) (k rows columns : ℕ) (begin end : P)
    (G : ℕ → ℕ → S → Type 0)
    (own : (i j : ℕ) (s : S)
      → i < rows
      → j < columns
      → G i j s
      → ((alone step i j k s begin).1 ≡ end) × G i (suc j) (alone step i j k s begin).0)
    (row_end : (i : ℕ) (s : S) → G i columns s → G (suc i) 0 s) where
  pub record Stage (i j : ℕ) (t : Pool S P) : Type 0 where
    pub good : G i j t.shared
    pub places : (x y : ℕ) → t.threads x y ≡ standing rows columns begin end i j x y

  turns-Stage :
      (i j : ℕ) (t : Pool S P)
      → i < rows
      → j < columns
      → Stage i j t
      → Stage i (suc j) (run_threads step (turns i j k) t)
  turns-Stage i j t li lj h =
      let here : t.threads i j ≡ some begin =
        h.places i j ∙ at_turn rows columns begin end i j li lj in
      let ran = turns-alone step i j k begin t here in
      let result = own i j t.shared li lj h.good in
      record {
        good = subst (G i (suc j)) (sym ran.0) result.1;
        places = λ x y.
            ran.1 x y
            ∙ put-pointwise t.threads (standing rows columns begin end i j) i j
                (some (alone step i j k t.shared begin).1) h.places x y
            ∙ subst
                (λ z.
                  put (standing rows columns begin end i j) i j (some z) x y
                  ≡ standing rows columns begin end i (suc j) x y)
                (sym result.0) (standing_next rows columns begin end i j li lj x y);
      }

  next_row : (i : ℕ) (t : Pool S P) → Stage i columns t → Stage (suc i) 0 t
  next_row i t h = record {
    good = row_end i t.shared h.good;
    places = λ x y. h.places x y ∙ standing_row rows columns begin end i x y;
  }

  row_turns-Stage :
      (i m : ℕ) (t : Pool S P)
      → i < rows
      → m ≤ columns
      → Stage i 0 t
      → Stage i m (run_threads step (row_turns k i m) t)
  unfolding row_turns run_threads
  row_turns-Stage i zero t li lm h = h
  row_turns-Stage i (suc m) t li lm h =
      subst (Stage i (suc m)) (sym (run_threads-append step (row_turns k i m) (turns i m k) t)) (
        turns-Stage i m (run_threads step (row_turns k i m) t) li lm
          (row_turns-Stage i m t li (omega arith) h))

  pub in_turn-Stage :
      (m : ℕ) (t : Pool S P)
      → m ≤ rows
      → Stage 0 0 t
      → Stage m 0 (run_threads step (in_turn k m columns) t)
  unfolding in_turn run_threads
  in_turn-Stage zero t lm h = h
  in_turn-Stage (suc m) t lm h =
      subst (Stage (suc m) 0)
        (sym (run_threads-append step (in_turn k m columns) (row_turns k m columns) t))
        (next_row m
          (run_threads step (row_turns k m columns) (run_threads step (in_turn k m columns) t))
          (row_turns-Stage m columns (run_threads step (in_turn k m columns) t) lm (omega arith)
            (in_turn-Stage m t (omega arith) h)))

  -- Every thread returns, and what is shared then is as G says of all rows.
  pub Stage-Returns :
      (is_end : P → Bool) (t : Pool S P)
      → is_end end ≡ true
      → Stage 0 0 t
      → (r : S) × (join_threads is_end rows columns (run_threads step (in_turn k rows columns) t)
          ≡ some r)
        × G rows 0 r
  Stage-Returns is_end t e h =
      let last = in_turn-Stage rows t (omega arith) h in
      (
        (run_threads step (in_turn k rows columns) t).shared,
        join_threads-all is_end rows columns (run_threads step (in_turn k rows columns) t)
            (λ x y lx ly.
              subst (λ z. has_returned is_end z ≡ true) (sym (last.places x y))
                (all_ended rows columns begin end is_end e x y lx ly)),
        last.good,
      )

  pub spawn-Stage :
      (s : S) → G 0 0 s → Stage 0 0 (record { shared = s; threads = spawn rows columns begin })
  spawn-Stage s g = record { good = g; places = λ x y. spawn-standing rows columns begin end x y }

  pub in_turn-Returns :
      (is_end : P → Bool) (s : S)
      → is_end end ≡ true
      → G 0 0 s
      → (r : S) × (join_threads is_end rows columns (
            run_threads step
              (in_turn k rows columns)
              (record { shared = s; threads = spawn rows columns begin }))
          ≡ some r)
        × G rows 0 r
  in_turn-Returns is_end s e g =
      Stage-Returns is_end (record { shared = s; threads = spawn rows columns begin }) e
        (spawn-Stage s g)
