-- ===== src/Matrix/Race.antt =====
-- What the read of MAX_ROW_SUM in front of the lock can do: hw2/matrix.c, all threads of `maxRowSum`
-- reading before the first of them has the lock.
use opearting_system.Base.{
  ℕ, zero, suc, ◌+◌, ◌<◌, ◌≡◌, refl, ap, ◌∙◌, true, false, some, ◌++◌, arith, if_cases,
}
use opearting_system.Base.Int.{pos, ◌-ℤ◌, ltb_ℤ, sub_ℕ}
use opearting_system.Base.Sums.{total}
use mathlib.Core.Path.{subst}
use opearting_system.Matrix.Pool.{Pool, join_threads, run_threads, spawn}
use opearting_system.Matrix.Program.{
  seeds, Tally, Summing, before_read, before_unlock, summed, subtracting, inside, max_row_sum,
  has_summed, no_rows, sum_all,
}
use opearting_system.Matrix.Tallying.{row, sub-zero, step}
use opearting_system.Matrix.InTurn.{alone, in_turn, standing-again, run_threads-append}
use opearting_system.Matrix.Stages.{Stage, in_turn-Stage, Stage-Returns, spawn-Stage}
use opearting_system.Matrix.Sequence.{
  more, more_lem, unlocked, locked_at, subtract-all, take_lock, release,
}

nothing_added : (m r : ℕ) → ltb_ℤ (pos 0 -ℤ pos r) (pos 0) ≡ false → pos m ≡ pos (m + r)
unfolding ◌-ℤ◌ sub_ℕ
nothing_added m r e = ground arith

all_added : (m r : ℕ) → pos m -ℤ (pos 0 -ℤ pos r) ≡ pos (m + r)
unfolding ◌-ℤ◌ sub_ℕ
all_added m r = ground arith

module _ (usec : ℕ → ℕ → ℕ → ℕ) (n : ℕ) (c : ℕ → ℕ → ℕ) where
  -- A thread that took 0 adds the whole sum of its row.
  update_stale :
      (i j m : ℕ)
      → step usec n c i j (locked_at usec n c i j m) (inside (pos 0 -ℤ pos (row usec n c i)))
        ≡ (locked_at usec n c i j (m + row usec n c i), before_unlock)
  unfolding max_row_sum seeds
  update_stale i j m =
      ap (λ t. (t, before_unlock))
        (if_cases (λ (t : Tally). t ≡ locked_at usec n c i j (m + row usec n c i))
          (ltb_ℤ (pos 0 -ℤ pos (row usec n c i)) (pos 0))
          (λ e. ap (λ z. record { max_row_sum = z; locked = true }) (all_added m (row usec n c i)))
          (λ e.
            ap (λ z. record { max_row_sum = z; locked = true })
              (nothing_added m (row usec n c i) e)))

  stale_alone :
      (i j m : ℕ)
      → alone (step usec n c) i j (more n 3) (unlocked m) (subtracting 0 (pos 0))
        ≡ (unlocked (m + row usec n c i), summed)
  unfolding alone total
  stale_alone i j m =
      ap (λ z. alone (step usec n c) i j (more n 3) (unlocked m) (subtracting 0 z)) (sub-zero 0)
      ∙ subtract-all usec n c i j (unlocked m) 0 3 n 0 (omega arith)
      ∙ ap (λ r. alone (step usec n c) i j 2 r.0 r.1) (take_lock usec n c i j m 0)
      ∙ ap (λ r. alone (step usec n c) i j 1 r.0 r.1) (update_stale i j m)
      ∙ release usec n c i j (m + row usec n c i)

  abbrev Untouched : ℕ → ℕ → Tally → Type 0
  Untouched i j t = t ≡ no_rows

  abbrev Added : ℕ → ℕ → Tally → Type 0
  Added i zero t = t ≡ unlocked (total i (row usec n c))
  Added i (suc j) t = t ≡ unlocked (total (suc i) (row usec n c))

  read_alone :
      (i j : ℕ) (t : Tally)
      → i < n
      → j < 1
      → Untouched i j t
      → ((alone (step usec n c) i j 1 t before_read).1 ≡ subtracting 0 (pos 0))
        × Untouched i (suc j) (alone (step usec n c) i j 1 t before_read).0
  unfolding alone max_row_sum
  read_alone i j t li lj e = (ap (λ z. subtracting 0 z.max_row_sum) e, e)

  added_alone :
      (i j : ℕ) (t : Tally)
      → i < n
      → j < 1
      → Added i j t
      → ((alone (step usec n c) i j (more n 3) t (subtracting 0 (pos 0))).1 ≡ summed)
        × Added i (suc j) (alone (step usec n c) i j (more n 3) t (subtracting 0 (pos 0))).0
  unfolding total
  added_alone i zero t li lj e =
      let ran : alone (step usec n c) i 0 (more n 3) t (subtracting 0 (pos 0))
          ≡ (unlocked (total i (row usec n c) + row usec n c i), summed) =
        ap (λ z. alone (step usec n c) i 0 (more n 3) z (subtracting 0 (pos 0))) e
        ∙ stale_alone i 0 (total i (row usec n c)) in
      (ap (λ r. r.1) ran, ap (λ r. r.0) ran)
  added_alone i (suc j) t li lj e = absurd (omega arith)

  all_read : Pool Tally Summing
  all_read =
      run_threads (step usec n c) (in_turn 1 n 1)
        (record { shared = no_rows; threads = spawn n 1 before_read })

  all_read-Stage :
      Stage
        (step usec n c)
        (more n 3)
        n
        1
        (subtracting 0 (pos 0))
        summed
        Added
        added_alone
        (λ i t e. e)
        0
        0
        all_read
  unfolding all_read total
  all_read-Stage =
      let first =
        in_turn-Stage (step usec n c) 1 n 1 before_read (subtracting 0 (pos 0)) Untouched read_alone
          (λ i t e. e) n (record { shared = no_rows; threads = spawn n 1 before_read })
          (omega arith)
          (spawn-Stage (step usec n c) 1 n 1 before_read (subtracting 0 (pos 0)) Untouched
            read_alone (λ i t e. e) no_rows refl) in
      record {
        good = first.good;
        places = λ x y.
            first.places x y ∙ standing-again n 1 before_read (subtracting 0 (pos 0)) summed x y;
      }

  -- When every thread of `maxRowSum` has read MAX_ROW_SUM before the first of them has the lock, and each
  -- then runs to its end, MAX_ROW_SUM is the sum of all rows of C in place of the largest.
  pub sum_all-raced :
      sum_all usec n c (in_turn 1 n 1 ++ in_turn (n + 3) n 1)
      ≡ some (record { max_row_sum = pos (total n (row usec n c)); locked = false })
  unfolding sum_all all_read
  sum_all-raced =
      let ended =
        Stage-Returns (step usec n c) (more n 3) n 1 (subtracting 0 (pos 0)) summed Added
          added_alone (λ i t e. e) has_summed all_read refl all_read-Stage in
      subst
        (λ k.
          sum_all usec n c (in_turn 1 n 1 ++ in_turn k n 1)
          ≡ some (unlocked (total n (row usec n c))))
        (omega (arith, more_lem n 3))
        (ap (join_threads has_summed n 1) (
            run_threads-append (step usec n c) (in_turn 1 n 1) (in_turn (more n 3) n 1)
              (record { shared = no_rows; threads = spawn n 1 before_read }))
          ∙ ended.1
          ∙ ap some ended.2)
