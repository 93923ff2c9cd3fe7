-- ===== src/Matrix/Tallying.antt =====
-- The last phase of `main` of hw2/matrix.c: what the unprotected read of MAX_ROW_SUM makes of the largest
-- sum of a row.
use opearting_system.Base.{
  ℕ, suc, ◌+◌, ◌≤◌, ◌≡◌, refl, sym, ◌∙◌, true, false, ◌&&◌, arith, ltb, ◌==◌, if_cases,
}
use opearting_system.Base.Int.{ℤ, pos, negsuc, ◌-ℤ◌, ◌≤ℤ◌, ltb_ℤ, sub_ℕ}
use mathlib.Core.Path.{subst}
use opearting_system.Matrix.Program.{
  seeds, Tally, Summing, before_read, before_unlock, summed, subtracting, inside, max_row_sum,
  has_summed,
}
use opearting_system.Base.Sums.{total}

pub sub-sub : (a : ℤ) (b c : ℕ) → (a -ℤ pos b) -ℤ pos c ≡ a -ℤ pos (b + c)
unfolding ◌-ℤ◌ sub_ℕ
sub-sub (pos a) b c = ground arith
sub-sub (negsuc a) b c = ground arith

pub sub-zero : (a : ℕ) → pos a ≡ pos a -ℤ pos 0
unfolding ◌-ℤ◌ sub_ℕ
sub-zero a = ground arith

-- What is taken from the maximum: it only grows, and no less than to r.
raised :
    (top old : ℤ) (r : ℕ)
    → old ≤ℤ top
    → ltb_ℤ (old -ℤ pos r) (pos 0) ≡ true
    → pos r ≤ℤ top -ℤ (old -ℤ pos r)
unfolding ◌-ℤ◌ sub_ℕ
raised (pos m) (pos k) r h e = ground (arith, h)
raised (pos m) (negsuc k) r h e = ground (arith, h)
raised (negsuc m) (pos k) r h e = ground (arith, h)
raised (negsuc m) (negsuc k) r h e = ground (arith, h)

not_raised :
    (top old : ℤ) (r : ℕ) → old ≤ℤ top → ltb_ℤ (old -ℤ pos r) (pos 0) ≡ false → pos r ≤ℤ top
unfolding ◌-ℤ◌ sub_ℕ
not_raised (pos m) (pos k) r h e = ground (arith, h)
not_raised (pos m) (negsuc k) r h e = ground (arith, h)
not_raised (negsuc m) (pos k) r h e = ground (arith, h)
not_raised (negsuc m) (negsuc k) r h e = ground (arith, h)

grown : (top sum : ℤ) → ltb_ℤ sum (pos 0) ≡ true → top ≤ℤ top -ℤ sum
unfolding ◌-ℤ◌ sub_ℕ
grown (pos m) (pos k) e = ground arith
grown (pos m) (negsuc k) e = ground arith
grown (negsuc m) (pos k) e = ground arith
grown (negsuc m) (negsuc k) e = ground arith

natural : (a : ℤ) → pos 0 ≤ℤ a → (k : ℕ) × (a ≡ pos k)
natural (pos k) h = (k, refl)
natural (negsuc k) h = absurd (omega arith)

pub le-trans : (a b c : ℤ) → a ≤ℤ b → b ≤ℤ c → a ≤ℤ c
le-trans (pos a) (pos b) (pos c) h k = omega arith
le-trans (pos a) (pos b) (negsuc c) h k = omega arith
le-trans (pos a) (negsuc b) (pos c) h k = omega arith
le-trans (pos a) (negsuc b) (negsuc c) h k = omega arith
le-trans (negsuc a) (pos b) (pos c) h k = omega arith
le-trans (negsuc a) (pos b) (negsuc c) h k = omega arith
le-trans (negsuc a) (negsuc b) (pos c) h k = omega arith
le-trans (negsuc a) (negsuc b) (negsuc c) h k = omega arith

module _ (usec : ℕ → ℕ → ℕ → ℕ) (n : ℕ) (c : ℕ → ℕ → ℕ) where
  -- The sum of the row i of C.
  abbrev pub row : ℕ → ℕ
  row i = total n (c i)

  -- A thread took `old` from MAX_ROW_SUM, which has only grown since.
  abbrev pub SummedAt : ℕ → ℕ → Tally → Summing → Type 0
  SummedAt i j t before_read = pos 0 ≤ℤ t.max_row_sum
  SummedAt i j t (subtracting k sum) =
      (old : ℕ) × (k ≤ n) × (pos old ≤ℤ t.max_row_sum) × (sum ≡ pos old -ℤ pos (total k (c i)))
  SummedAt i j t (inside sum) =
      (old : ℕ) × (pos old ≤ℤ t.max_row_sum) × (sum ≡ pos old -ℤ pos (row i))
  SummedAt i j t before_unlock = pos (row i) ≤ℤ t.max_row_sum
  SummedAt i j t summed = pos (row i) ≤ℤ t.max_row_sum

  abbrev pub step : ℕ → ℕ → Tally → Summing → Tally × Summing
  step i j = max_row_sum n c (seeds usec i j)

  max_row_sum-le :
      (i j : ℕ) (t : Tally) (p : Summing) → t.max_row_sum ≤ℤ (step i j t p).0.max_row_sum
  unfolding max_row_sum
  max_row_sum-le i j t before_read = omega arith
  max_row_sum-le i j t (subtracting k sum) = ground arith
  max_row_sum-le i j t (inside sum) =
      if_cases (λ (r : Tally). t.max_row_sum ≤ℤ r.max_row_sum) (ltb_ℤ sum (pos 0))
        (λ e. grown t.max_row_sum sum e) (λ e. omega arith)
  max_row_sum-le i j t before_unlock = omega arith
  max_row_sum-le i j t summed = omega arith

  pub max_row_sum-own :
      (i j : ℕ) (t : Tally) (p : Summing)
      → SummedAt i j t p
      → SummedAt i j (step i j t p).0 (step i j t p).1
  unfolding max_row_sum seeds total
  max_row_sum-own i j t before_read h =
      let old = natural t.max_row_sum h in
      (
        old.0,
        omega arith,
        subst (λ z. z ≤ℤ t.max_row_sum) old.1 (omega arith),
        old.1 ∙ sub-zero old.0,
      )
  max_row_sum-own i j t (subtracting k sum) h =
      if_cases (λ (r : Tally × Summing). SummedAt i j r.0 r.1) (ltb k n)
        (λ e. (
          h.0,
          ground arith,
          h.2,
          subst (λ z. z -ℤ pos (c i k) ≡ pos h.0 -ℤ pos (total (suc k) (c i))) (sym h.3)
              (sub-sub (pos h.0) (total k (c i)) (c i k)),
        ))
        (λ e.
          if_cases (λ (r : Tally × Summing). SummedAt i j r.0 r.1) t.locked (λ l. h)
            (λ l. (
              h.0,
              h.2,
              (let at_end : k ≡ n = ground (arith, h.1) in
                  subst (λ z. sum ≡ pos h.0 -ℤ pos (total z (c i))) at_end h.3),
            )))
  max_row_sum-own i j t (inside sum) h =
      subst (λ z. SummedAt i j (step i j t (inside z)).0 (step i j t (inside z)).1) (sym h.2)
        (if_cases (λ (r : Tally). pos (row i) ≤ℤ r.max_row_sum)
          (ltb_ℤ (pos h.0 -ℤ pos (row i)) (pos 0)) (raised t.max_row_sum (pos h.0) (row i) h.1)
          (not_raised t.max_row_sum (pos h.0) (row i) h.1))
  max_row_sum-own i j t before_unlock h = h
  max_row_sum-own i j t summed h = h

  pub max_row_sum-other :
      (i j : ℕ) (t : Tally) (p : Summing) (x y : ℕ) (q : Summing)
      → (i == x && j == y) ≡ false
      → SummedAt x y t q
      → SummedAt x y (step i j t p).0 q
  max_row_sum-other i j t p x y before_read e h =
      le-trans (pos 0) t.max_row_sum (step i j t p).0.max_row_sum h (max_row_sum-le i j t p)
  max_row_sum-other i j t p x y (subtracting k sum) e h = (
    h.0,
    h.1,
    le-trans (pos h.0) t.max_row_sum (step i j t p).0.max_row_sum h.2 (max_row_sum-le i j t p),
    h.3,
  )
  max_row_sum-other i j t p x y (inside sum) e h = (
    h.0,
    le-trans (pos h.0) t.max_row_sum (step i j t p).0.max_row_sum h.1 (max_row_sum-le i j t p),
    h.2,
  )
  max_row_sum-other i j t p x y before_unlock e h =
      le-trans (pos (row x)) t.max_row_sum (step i j t p).0.max_row_sum h (max_row_sum-le i j t p)
  max_row_sum-other i j t p x y summed e h =
      le-trans (pos (row x)) t.max_row_sum (step i j t p).0.max_row_sum h (max_row_sum-le i j t p)

  pub summed_end :
      (i j : ℕ) (t : Tally) (p : Summing)
      → has_summed p ≡ true
      → SummedAt i j t p
      → pos (row i) ≤ℤ t.max_row_sum
  summed_end i j t before_read e h = cc
  summed_end i j t before_unlock e h = cc
  summed_end i j t (subtracting k sum) e h = cc
  summed_end i j t (inside sum) e h = cc
  summed_end i j t summed e h = h
