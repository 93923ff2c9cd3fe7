-- ===== src/Matrix/Product.antt =====
-- The first two phases of `main` of hw2/matrix.c: A and B have random digits and C is their product.
use opearting_system.Base.{
  ℕ, ◌+◌, ◌*◌, ◌%◌, ◌≤◌, ◌<◌, ◌≡◌, refl, ◌∙◌, true, false, ◌&&◌, some, List, arith, ltb, ◌==◌,
  if_cases,
}
use mathlib.Core.Path.{subst}
use opearting_system.Base.Sums.{total}
use opearting_system.Matrix.Program.{
  seeds, Factors, Assigning, before_a, before_b, assigned, assign_number, Multiplying, before_zero,
  adding, multiplied, multiply, has_assigned, has_multiplied, zeros, no_factors, assign_all,
  multiply_all,
}
use opearting_system.Matrix.Keeping.{put-other, put-same, join_threads-Held}

-- The entry of the product at row i and column j, over the first n terms.
abbrev pub entry : ℕ → Factors → ℕ → ℕ → ℕ
entry n m i j = total n (λ x. m.a i x * m.b x j)

module _ (rand_r : ℕ → ℕ) (usec : ℕ → ℕ → ℕ → ℕ) where
  abbrev pub Digits : ℕ → ℕ → Factors → Type 0
  Digits i j m =
      (m.a i j ≡ rand_r (seeds usec i j).seed1 % 10)
      × (m.b i j ≡ rand_r (seeds usec i j).seed2 % 10)

  abbrev AssignedAt : ℕ → ℕ → Factors → Assigning → Type 0
  AssignedAt i j m before_a = Unit
  AssignedAt i j m before_b = m.a i j ≡ rand_r (seeds usec i j).seed1 % 10
  AssignedAt i j m assigned = Digits i j m

  assign_number-own :
      (i j : ℕ) (m : Factors) (p : Assigning)
      → AssignedAt i j m p
      → AssignedAt i j
          (assign_number rand_r (seeds usec i j) m p).0
          (assign_number rand_r (seeds usec i j) m p).1
  unfolding assign_number seeds
  assign_number-own i j m before_a h = put-same m.a i j (rand_r (seeds usec i j).seed1 % 10)
  assign_number-own i j m before_b h = (h, put-same m.b i j (rand_r (seeds usec i j).seed2 % 10))
  assign_number-own i j m assigned h = h

  -- A step at one place leaves the entries of the others.
  assign_number-elsewhere :
      (i j : ℕ) (m : Factors) (p : Assigning) (x y : ℕ)
      → (i == x && j == y) ≡ false
      → ((assign_number rand_r (seeds usec i j) m p).0.a x y ≡ m.a x y)
        × ((assign_number rand_r (seeds usec i j) m p).0.b x y ≡ m.b x y)
  unfolding assign_number seeds
  assign_number-elsewhere i j m before_a x y e =
      (put-other m.a i j (rand_r (seeds usec i j).seed1 % 10) x y e, refl)
  assign_number-elsewhere i j m before_b x y e =
      (refl, put-other m.b i j (rand_r (seeds usec i j).seed2 % 10) x y e)
  assign_number-elsewhere i j m assigned x y e = (refl, refl)

  assign_number-other :
      (i j : ℕ) (m : Factors) (p : Assigning) (x y : ℕ) (q : Assigning)
      → (i == x && j == y) ≡ false
      → AssignedAt x y m q
      → AssignedAt x y (assign_number rand_r (seeds usec i j) m p).0 q
  assign_number-other i j m p x y before_a e h = tt
  assign_number-other i j m p x y before_b e h = (assign_number-elsewhere i j m p x y e).0 ∙ h
  assign_number-other i j m p x y assigned e h = (
    (assign_number-elsewhere i j m p x y e).0 ∙ h.0,
    (assign_number-elsewhere i j m p x y e).1 ∙ h.1,
  )

  assigned_end :
      (i j : ℕ) (m : Factors) (p : Assigning)
      → has_assigned p ≡ true
      → AssignedAt i j m p
      → Digits i j m
  assigned_end i j m before_a e h = cc
  assigned_end i j m before_b e h = cc
  assigned_end i j m assigned e h = h

  -- What `main` prints as the matrices A and B, once the threads of `assignNumber` have been joined and
  -- whatever the order in which they ran: every entry in the first n rows and columns is the random digit of
  -- its own seed.
  pub assign_all-Digits :
      (n : ℕ) (order : List (ℕ × ℕ)) (m : Factors)
      → assign_all rand_r usec n order ≡ some m
      → (i j : ℕ) → i < n
      → j < n
      → Digits i j m
  unfolding assign_all
  assign_all-Digits n order m e i j li lj =
      let last =
        join_threads-Held AssignedAt (λ x y. assign_number rand_r (seeds usec x y))
          assign_number-own assign_number-other has_assigned n n before_a no_factors (λ x y. tt)
          order m e i j li lj in
      assigned_end i j m last.0 last.1 last.2

module _ (usec : ℕ → ℕ → ℕ → ℕ) (n : ℕ) (m : Factors) where
  abbrev MultipliedAt : ℕ → ℕ → (ℕ → ℕ → ℕ) → Multiplying → Type 0
  MultipliedAt i j c before_zero = Unit
  MultipliedAt i j c (adding k) = (k ≤ n) × (c i j ≡ entry k m i j)
  MultipliedAt i j c multiplied = c i j ≡ entry n m i j

  multiply-own :
      (i j : ℕ) (c : ℕ → ℕ → ℕ) (p : Multiplying)
      → MultipliedAt i j c p
      → MultipliedAt i j (multiply n m (seeds usec i j) c p).0 (multiply n m (seeds usec i j) c p).1
  unfolding multiply seeds total
  multiply-own i j c before_zero h = (omega arith, put-same c i j 0)
  multiply-own i j c (adding k) h =
      if_cases (λ (r : (ℕ → ℕ → ℕ) × Multiplying). MultipliedAt i j r.0 r.1) (ltb k n)
        (λ e. (ground arith, ground (arith, h, put-same c i j (c i j + m.a i k * m.b k j))))
        (λ e.
          let at_end : k ≡ n = ground (arith, h.0) in subst (λ z. c i j ≡ entry z m i j) at_end h.1)
  multiply-own i j c multiplied h = h

  multiply-elsewhere :
      (i j : ℕ) (c : ℕ → ℕ → ℕ) (p : Multiplying) (x y : ℕ)
      → (i == x && j == y) ≡ false
      → (multiply n m (seeds usec i j) c p).0 x y ≡ c x y
  unfolding multiply seeds
  multiply-elsewhere i j c before_zero x y e = put-other c i j 0 x y e
  multiply-elsewhere i j c (adding k) x y e =
      if_cases (λ (r : (ℕ → ℕ → ℕ) × Multiplying). r.0 x y ≡ c x y) (ltb k n)
        (λ b. put-other c i j (c i j + m.a i k * m.b k j) x y e) (λ b. refl)
  multiply-elsewhere i j c multiplied x y e = refl

  multiply-other :
      (i j : ℕ) (c : ℕ → ℕ → ℕ) (p : Multiplying) (x y : ℕ) (q : Multiplying)
      → (i == x && j == y) ≡ false
      → MultipliedAt x y c q
      → MultipliedAt x y (multiply n m (seeds usec i j) c p).0 q
  multiply-other i j c p x y before_zero e h = tt
  multiply-other i j c p x y (adding k) e h = (h.0, multiply-elsewhere i j c p x y e ∙ h.1)
  multiply-other i j c p x y multiplied e h = multiply-elsewhere i j c p x y e ∙ h

  multiplied_end :
      (i j : ℕ) (c : ℕ → ℕ → ℕ) (p : Multiplying)
      → has_multiplied p ≡ true
      → MultipliedAt i j c p
      → c i j ≡ entry n m i j
  multiplied_end i j c before_zero e h = cc
  multiplied_end i j c (adding k) e h = cc
  multiplied_end i j c multiplied e h = h

  -- What `main` prints as C, once the threads of `multiply` have been joined and whatever the order in
  -- which they ran: in the first n rows and columns, the product of A and B.
  pub multiply_all-entry :
      (order : List (ℕ × ℕ)) (c : ℕ → ℕ → ℕ)
      → multiply_all usec n m order ≡ some c
      → (i j : ℕ) → i < n
      → j < n
      → c i j ≡ entry n m i j
  unfolding multiply_all
  multiply_all-entry order c e i j li lj =
      let last =
        join_threads-Held MultipliedAt (λ x y. multiply n m (seeds usec x y)) multiply-own
          multiply-other has_multiplied n n before_zero zeros (λ x y. tt) order c e i j li lj in
      multiplied_end i j c last.0 last.1 last.2
