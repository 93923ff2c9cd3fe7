-- ===== src/Matrix/Sequence.antt =====
-- `main` of hw2/matrix.c when its threads run_threads one after another: it comes to its end, and MAX_ROW_SUM is
-- the largest sum of a row.
use opearting_system.Base.{
  ℕ, zero, suc, ◌+◌, ◌<◌, ◌≡◌, refl, ap, ◌∙◌, true, false, some, arith, ltb, if◌then◌else◌,
  Bool-cases, inl, inr,
}
use opearting_system.Base.Int.{pos, ◌-ℤ◌, ltb_ℤ, sub_ℕ}
use opearting_system.Base.Sums.{total}
use mathlib.Core.Path.{subst}
use opearting_system.Matrix.Pool.{put}
use opearting_system.Matrix.Program.{
  seeds, Tally, Summing, before_read, before_unlock, summed, subtracting, inside, max_row_sum,
  has_summed, no_rows, sum_all, Factors, before_a, assigned, assign_number, has_assigned,
  no_factors, assign_all, before_zero, adding, multiplied, multiply, has_multiplied, zeros,
  multiply_all,
}
use opearting_system.Matrix.Tallying.{row, sub-sub, sub-zero, step}
use opearting_system.Matrix.InTurn.{alone, in_turn}
use opearting_system.Matrix.Stages.{in_turn-Returns}

-- d + b, as a count of turns.
unfoldable pub more : ℕ → ℕ → ℕ
more zero b = b
more (suc d) b = suc (more d b)

pub more_lem : (d b : ℕ) → more d b ≡ d + b
unfolding more
more_lem zero b = omega arith
more_lem (suc d) b = omega (arith, more_lem d b)

-- The largest of f(0), …, f(n - 1), and 0 if there is none.
pub maximum : ℕ → (ℕ → ℕ) → ℕ
maximum zero f = 0
maximum (suc n) f = if ltb (maximum n f) (f n) then f n else maximum n f

abbrev pub unlocked : ℕ → Tally
unlocked m = record { max_row_sum = pos m; locked = false }

test_lem : (m r : ℕ) → ltb_ℤ (pos m -ℤ pos r) (pos 0) ≡ ltb m r
unfolding ◌-ℤ◌ sub_ℕ
test_lem m r = ground arith

take_back : (m r : ℕ) → ltb m r ≡ true → pos m -ℤ (pos m -ℤ pos r) ≡ pos r
unfolding ◌-ℤ◌ sub_ℕ
take_back m r h = ground arith

-- The first two phases: a thread that runs alone comes to its end.
assign_alone :
    (rand_r : ℕ → ℕ) (usec : ℕ → ℕ → ℕ → ℕ) (i j : ℕ) (m : Factors)
    → (alone (λ x y. assign_number rand_r (seeds usec x y)) i j 2 m before_a).1 ≡ assigned
unfolding alone assign_number
assign_alone rand_r usec i j m = refl

multiply-next :
    (usec : ℕ → ℕ → ℕ → ℕ) (n : ℕ) (m : Factors) (i j x : ℕ) (c : ℕ → ℕ → ℕ)
    → x < n
    → (multiply n m (seeds usec i j) c (adding x)).1 ≡ adding (suc x)
unfolding multiply
multiply-next usec n m i j x c lt = ground arith

multiply-last :
    (usec : ℕ → ℕ → ℕ → ℕ) (n : ℕ) (m : Factors) (i j x : ℕ) (c : ℕ → ℕ → ℕ)
    → x ≡ n
    → (multiply n m (seeds usec i j) c (adding x)).1 ≡ multiplied
unfolding multiply
multiply-last usec n m i j x c e = ground arith

multiply_alone :
    (usec : ℕ → ℕ → ℕ → ℕ) (n : ℕ) (m : Factors) (i j d x : ℕ) (c : ℕ → ℕ → ℕ)
    → d + x ≡ n
    → (alone (λ y z. multiply n m (seeds usec y z)) i j (more d 1) c (adding x)).1 ≡ multiplied
unfolding alone more
multiply_alone usec n m i j zero x c e = multiply-last usec n m i j x c (omega arith)
multiply_alone usec n m i j (suc d) x c e =
    let after : ℕ → ℕ → ℕ = (multiply n m (seeds usec i j) c (adding x)).0 in
    ap (λ p. (alone (λ y z. multiply n m (seeds usec y z)) i j (more d 1) after p).1)
      (multiply-next usec n m i j x c (omega arith))
    ∙ multiply_alone usec n m i j d (suc x) after (omega arith)

module _ (usec : ℕ → ℕ → ℕ → ℕ) (n : ℕ) (c : ℕ → ℕ → ℕ) (i j : ℕ) where
  abbrev pub left : ℕ → ℕ → Summing
  left m x = subtracting x (pos m -ℤ pos (total x (c i)))

  subtract-next :
      (t : Tally) (m x : ℕ) → x < n → step usec n c i j t (left m x) ≡ (t, left m (suc x))
  unfolding max_row_sum seeds total
  subtract-next t m x lt = ground (arith, sub-sub (pos m) (total x (c i)) (c i x))

  pub subtract-all :
      (t : Tally) (m b d x : ℕ)
      → d + x ≡ n
      → alone (step usec n c) i j (more d b) t (left m x) ≡ alone (step usec n c) i j b t (left m n)
  unfolding alone more
  subtract-all t m b zero x e =
      let at_end : x ≡ n = omega arith in ap (λ z. alone (step usec n c) i j b t (left m z)) at_end
  subtract-all t m b (suc d) x e =
      ap (λ r. alone (step usec n c) i j (more d b) r.0 r.1) (subtract-next t m x (omega arith))
      ∙ subtract-all t m b d (suc x) (omega arith)

  abbrev pub locked_at : ℕ → Tally
  locked_at m = record { max_row_sum = pos m; locked = true }

  abbrev larger : ℕ → ℕ
  larger m = if ltb m (row usec n c i) then row usec n c i else m

  pub take_lock :
      (m k : ℕ)
      → step usec n c i j (unlocked m) (left k n)
        ≡ (locked_at m, inside (pos k -ℤ pos (row usec n c i)))
  unfolding max_row_sum seeds
  take_lock m k = ground arith

  update_lem :
      (m : ℕ)
      → step usec n c i j (locked_at m) (inside (pos m -ℤ pos (row usec n c i)))
        ≡ (locked_at (larger m), before_unlock)
  unfolding max_row_sum seeds
  update_lem m = elim (Bool-cases (ltb m (row usec n c i))) [
    | inl e ↦ ground (arith, test_lem m (row usec n c i), take_back m (row usec n c i) e)
    | inr e ↦ ground (arith, test_lem m (row usec n c i))
  ]

  pub release : (m : ℕ) → step usec n c i j (locked_at m) before_unlock ≡ (unlocked m, summed)
  unfolding max_row_sum
  release m = refl

  last_three :
      (m : ℕ) → alone (step usec n c) i j 3 (unlocked m) (left m n) ≡ (unlocked (larger m), summed)
  unfolding alone
  last_three m =
      ap (λ r. alone (step usec n c) i j 2 r.0 r.1) (take_lock m m)
      ∙ ap (λ r. alone (step usec n c) i j 1 r.0 r.1) (update_lem m)
      ∙ release (larger m)

  alone_lem :
      (m : ℕ)
      → alone (step usec n c) i j (suc (more n 3)) (unlocked m) before_read
        ≡ (unlocked (larger m), summed)
  unfolding alone max_row_sum seeds total
  alone_lem m =
      ap (λ z. alone (step usec n c) i j (more n 3) (unlocked m) (subtracting 0 z)) (sub-zero m)
      ∙ subtract-all (unlocked m) m 3 n 0 (omega arith)
      ∙ last_three m

module _ (rand_r : ℕ → ℕ) (usec : ℕ → ℕ → ℕ → ℕ) (n : ℕ) where
  assign_all-Ends : (m : Factors) × (assign_all rand_r usec n (in_turn 2 n n) ≡ some m)
  unfolding assign_all
  assign_all-Ends =
      let ended =
        in_turn-Returns (λ x y. assign_number rand_r (seeds usec x y)) 2 n n before_a assigned
          (λ i j s. Unit) (λ i j s li lj g. (assign_alone rand_r usec i j s, tt)) (λ i s g. tt)
          has_assigned no_factors refl tt in
      (ended.0, ended.1)

  multiply_all-Ends :
      (m : Factors)
      → (c : ℕ → ℕ → ℕ) × (multiply_all usec n m (in_turn (suc (more n 1)) n n) ≡ some c)
  unfolding multiply_all alone multiply
  multiply_all-Ends m =
      let ended =
        in_turn-Returns (λ x y. multiply n m (seeds usec x y)) (suc (more n 1)) n n before_zero
          multiplied (λ i j s. Unit)
          (λ i j s li lj g. (
            multiply_alone usec n m i j n 0 (put s (seeds usec i j).x_loc (seeds usec i j).y_loc 0)
                (omega arith),
            tt,
          ))
          (λ i s g. tt) has_multiplied zeros refl tt in
      (ended.0, ended.1)

  abbrev Largest : (ℕ → ℕ → ℕ) → ℕ → ℕ → Tally → Type 0
  Largest c i zero t = t ≡ unlocked (maximum i (row usec n c))
  Largest c i (suc j) t = t ≡ unlocked (maximum (suc i) (row usec n c))

  sum_alone :
      (c : ℕ → ℕ → ℕ) (i j : ℕ) (t : Tally)
      → i < n
      → j < 1
      → Largest c i j t
      → ((alone (step usec n c) i j (suc (more n 3)) t before_read).1 ≡ summed)
        × Largest c i (suc j) (alone (step usec n c) i j (suc (more n 3)) t before_read).0
  unfolding maximum
  sum_alone c i zero t li lj g =
      let ran : alone (step usec n c) i 0 (suc (more n 3)) t before_read
          ≡ (unlocked (larger usec n c i 0 (maximum i (row usec n c))), summed) =
        ap (λ z. alone (step usec n c) i 0 (suc (more n 3)) z before_read) g
        ∙ alone_lem usec n c i 0 (maximum i (row usec n c)) in
      (ap (λ r. r.1) ran, ap (λ r. r.0) ran)
  sum_alone c i (suc j) t li lj g = absurd (omega arith)

  sum_all-Ends :
      (c : ℕ → ℕ → ℕ)
      → sum_all usec n c (in_turn (suc (more n 3)) n 1) ≡ some (unlocked (maximum n (row usec n c)))
  unfolding sum_all maximum
  sum_all-Ends c =
      let ended =
        in_turn-Returns (step usec n c) (suc (more n 3)) n 1 before_read summed (Largest c)
          (sum_alone c) (λ i s g. g) has_summed no_rows refl refl in
      ended.1 ∙ ap some ended.2

  -- When each thread runs to its end before the next one starts, the program comes to its end: the joins
  -- of all three phases are passed, and MAX_ROW_SUM is the largest sum of a row of C, or 0 if n is 0. A
  -- thread needs 2 turns in the first phase, n + 2 in the second and n + 4 in the last.
  pub all_phases-in_turn :
      (m : Factors) × (c : ℕ → ℕ → ℕ) × (assign_all rand_r usec n (in_turn 2 n n) ≡ some m)
      × (multiply_all usec n m (in_turn (n + 2) n n) ≡ some c)
      × (sum_all usec n c (in_turn (n + 4) n 1)
          ≡ some (record { max_row_sum = pos (maximum n (row usec n c)); locked = false }))
  all_phases-in_turn =
      let m = assign_all-Ends in
      let c = multiply_all-Ends m.0 in
      (
        m.0,
        c.0,
        m.1,
        subst (λ k. multiply_all usec n m.0 (in_turn k n n) ≡ some c.0)
            (omega (arith, more_lem n 1)) c.1,
        subst
            (λ k. sum_all usec n c.0 (in_turn k n 1) ≡ some (unlocked (maximum n (row usec n c.0))))
            (omega (arith, more_lem n 3)) (sum_all-Ends c.0),
      )
