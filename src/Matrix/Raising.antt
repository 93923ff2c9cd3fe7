-- ===== src/Matrix/Raising.antt =====
-- How far MAX_ROW_SUM of hw2/matrix.c can grow: each thread adds the sum of its row at most, once.
use opearting_system.Base.{
  ℕ, zero, suc, ◌+◌, ◌≤◌, ◌<◌, ◌≡◌, refl, sym, Option, none, some, List, arith, ltb, if_cases,
}
use opearting_system.Base.Int.{ℤ, pos, negsuc, ◌-ℤ◌, ◌≤ℤ◌, ltb_ℤ, sub_ℕ}
use opearting_system.Base.Sums.{total, total-le, total-raise}
use native.Mathlib.Decide.{dec_lt}
use mathlib.Core.Path.{subst}
use opearting_system.Matrix.Pool.{Pool, put, spawn, run_threads}
use opearting_system.Matrix.Program.{
  seeds, Tally, Summing, before_read, before_unlock, summed, subtracting, inside, max_row_sum,
  has_summed, no_rows, sum_all,
}
use opearting_system.Matrix.Keeping.{
  put-same, join_threads-Some, join_threads-Held, run_threads-Keeps, put_cases, Held, step-Held,
  spawn-Held,
}
use opearting_system.Matrix.Tallying.{
  le-trans, row, SummedAt, step, max_row_sum-own, max_row_sum-other, summed_end,
}

raised-le :
    (top : ℤ) (bound old r : ℕ) → top ≤ℤ pos bound → top -ℤ (pos old -ℤ pos r) ≤ℤ pos (bound + r)
unfolding ◌-ℤ◌ sub_ℕ
raised-le (pos m) bound old r h = ground (arith, h)
raised-le (negsuc m) bound old r h = ground (arith, h)

widen : (top : ℤ) (bound r : ℕ) → top ≤ℤ pos bound → top ≤ℤ pos (bound + r)
widen (pos m) bound r h = omega arith
widen (negsuc m) bound r h = omega arith

module _ (usec : ℕ → ℕ → ℕ → ℕ) (n : ℕ) (c : ℕ → ℕ → ℕ) where
  -- What a thread has added, at most.
  abbrev gain : ℕ → Option Summing → ℕ
  gain i none = 0
  gain i (some before_read) = 0
  gain i (some (subtracting k sum)) = 0
  gain i (some (inside sum)) = 0
  gain i (some before_unlock) = row usec n c i
  gain i (some summed) = row usec n c i

  abbrev gains : (ℕ → ℕ → Option Summing) → ℕ
  gains f = total n (λ x. gain x (f x 0))

  record Raised (s : Tally) (f : ℕ → ℕ → Option Summing) : Type 0 where
    each : (x y : ℕ) → Held (SummedAt usec n c) x y s (f x y)
    one_each : (x y : ℕ) → f x (suc y) ≡ none
    n_of_them : (x : ℕ) → n ≤ x → f x 0 ≡ none
    bound : s.max_row_sum ≤ℤ pos (gains f)

  step_bound :
      (i j : ℕ) (t : Tally) (p : Summing) (b : ℕ)
      → SummedAt usec n c i j t p
      → t.max_row_sum ≤ℤ pos b
      → (d : ℕ) × (gain i (some p) + d ≤ gain i (some (step usec n c i j t p).1))
        × ((step usec n c i j t p).0.max_row_sum ≤ℤ pos (b + d))
  unfolding max_row_sum seeds
  step_bound i j t before_read b h le = (0, omega arith, widen t.max_row_sum b 0 le)
  step_bound i j t (subtracting k sum) b h le = (
    0,
    omega arith,
    if_cases (λ (r : Tally × Summing). r.0.max_row_sum ≤ℤ pos (b + 0)) (ltb k n)
        (λ e. widen t.max_row_sum b 0 le)
        (λ e.
          if_cases (λ (r : Tally × Summing). r.0.max_row_sum ≤ℤ pos (b + 0)) t.locked
            (λ l. widen t.max_row_sum b 0 le) (λ l. widen t.max_row_sum b 0 le)),
  )
  step_bound i j t (inside sum) b h le = (
    row usec n c i,
    omega arith,
    if_cases (λ (r : Tally). r.max_row_sum ≤ℤ pos (b + row usec n c i)) (ltb_ℤ sum (pos 0))
        (λ e.
          subst (λ z. t.max_row_sum -ℤ z ≤ℤ pos (b + row usec n c i)) (sym h.2)
            (raised-le t.max_row_sum b h.0 (row usec n c i) le))
        (λ e. widen t.max_row_sum b (row usec n c i) le),
  )
  step_bound i j t before_unlock b h le = (0, omega arith, widen t.max_row_sum b 0 le)
  step_bound i j t summed b h le = (0, omega arith, widen t.max_row_sum b 0 le)

  gains-put :
      (i d : ℕ) (f : ℕ → ℕ → Option Summing) (p q : Summing)
      → i < n
      → f i 0 ≡ some p
      → gain i (some p) + d ≤ gain i (some q)
      → gains f + d ≤ gains (put f i 0 (some q))
  gains-put i d f p q lt e le =
      let own : gain i (f i 0) + d ≤ gain i (some q) =
        subst (λ z. gain i z + d ≤ gain i (some q)) (sym e) le in
      total-raise n (λ x. gain x (f x 0)) (λ x. gain x (put f i 0 (some q) x 0)) i d lt
        (subst (λ z. gain i (f i 0) + d ≤ gain i z) (sym (put-same f i 0 (some q))) own)
        (λ x.
          put_cases (λ x y z. gain x (f x y) ≤ gain x z) f i 0 (some q) (omega (arith, own))
            (λ x y away. omega arith) x 0)

  in_range :
      (i j : ℕ) (p : Summing) (s : Tally) (f : ℕ → ℕ → Option Summing)
      → f i j ≡ some p
      → Raised s f
      → (i < n) × (j ≡ 0)
  in_range i (suc j) p s f e h = (let away : f i (suc j) ≡ none = h.one_each i j in cc)
  in_range i zero p s f e h = elim (dec_lt i n) [
    | yes lt ↦ (lt, refl)
    | no ge ↦ (let away : f i 0 ≡ none = h.n_of_them i (omega arith) in cc)
  ]

  Raised-step :
      (i : ℕ) (p : Summing) (s : Tally) (f : ℕ → ℕ → Option Summing)
      → i < n
      → f i 0 ≡ some p
      → Raised s f
      → Raised (step usec n c i 0 s p).0 (put f i 0 (some (step usec n c i 0 s p).1))
  Raised-step i p s f lt e h =
      let after =
        step_bound i 0 s p (gains f) (subst (Held (SummedAt usec n c) i 0 s) e (h.each i 0))
          h.bound in
      record {
        each =
            step-Held (SummedAt usec n c) (step usec n c) (max_row_sum-own usec n c)
              (max_row_sum-other usec n c) i 0 p s f e h.each;
        one_each = λ x y. ground (arith, h.one_each x y);
        n_of_them = λ x le. ground (arith, h.n_of_them x le);
        bound =
            le-trans (step usec n c i 0 s p).0.max_row_sum (pos (gains f + after.0))
              (pos (gains (put f i 0 (some (step usec n c i 0 s p).1)))) after.2
              (omega (arith, gains-put i after.0 f p (step usec n c i 0 s p).1 lt e after.1));
      }

  Raised-turn :
      (i j : ℕ) (p : Summing) (s : Tally) (f : ℕ → ℕ → Option Summing)
      → f i j ≡ some p
      → Raised s f
      → Raised (step usec n c i j s p).0 (put f i j (some (step usec n c i j s p).1))
  Raised-turn i zero p s f e h = Raised-step i p s f (in_range i 0 p s f e h).0 e h
  Raised-turn i (suc j) p s f e h =
      let away : f i (suc j) ≡ none = h.one_each i j in let out : ⊥ = cc in absurd out

  spawn-Raised : Raised no_rows (spawn n 1 before_read)
  unfolding spawn
  spawn-Raised = record {
    each = λ x y. spawn-Held (SummedAt usec n c) n 1 before_read no_rows x y (omega arith);
    one_each = λ x y. ground arith;
    n_of_them = λ x le. ground arith;
    bound = omega arith;
  }

  gain-le : (i : ℕ) (q : Option Summing) → gain i q ≤ row usec n c i
  gain-le i none = omega arith
  gain-le i (some before_read) = omega arith
  gain-le i (some before_unlock) = omega arith
  gain-le i (some summed) = omega arith
  gain-le i (some (subtracting k sum)) = omega arith
  gain-le i (some (inside sum)) = omega arith

  -- The number that `main` prints, once the threads of `maxRowSum` have been joined and whatever the
  -- order in which they ran: no row of C has a larger sum, and it is at most the sum of all entries.
  pub sum_all-bounds :
      (order : List (ℕ × ℕ)) (t : Tally)
      → sum_all usec n c order ≡ some t
      → ((i : ℕ) → i < n → pos (row usec n c i) ≤ℤ t.max_row_sum)
        × (t.max_row_sum ≤ℤ pos (total n (row usec n c)))
  unfolding sum_all
  sum_all-bounds order t e =
      let begun : Pool Tally Summing = record {
        shared = no_rows;
        threads = spawn n 1 before_read;
      } in
      let joined = join_threads-Some has_summed n 1 (run_threads (step usec n c) order begun) t e in
      let ended = run_threads-Keeps (step usec n c) Raised Raised-turn order begun spawn-Raised in
      (
        λ i lt.
            let last =
              join_threads-Held (SummedAt usec n c) (step usec n c) (max_row_sum-own usec n c)
                (max_row_sum-other usec n c) has_summed n 1 before_read no_rows (λ x y. omega arith)
                order t e i 0 lt (omega arith) in
            summed_end usec n c i 0 t last.0 last.1 last.2,
        subst (λ z. z.max_row_sum ≤ℤ pos (total n (row usec n c))) joined.0
            (le-trans (run_threads (step usec n c) order begun).shared.max_row_sum
              (pos (gains (run_threads (step usec n c) order begun).threads))
              (pos (total n (row usec n c))) ended.bound
              (omega (
                arith,
                total-le n (λ x. gain x ((run_threads (step usec n c) order begun).threads x 0))
                    (row usec n c)
                    (λ x lt. gain-le x ((run_threads (step usec n c) order begun).threads x 0)),
              ))),
      )
