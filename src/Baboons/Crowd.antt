-- ===== src/Baboons/Crowd.antt =====
-- A family of processes, `ℕ → A`: one of them moves, and weights are summed over the first `n`.
use opearting_system.Base.{ℕ, zero, suc, ◌+◌, ◌*◌, ◌≤◌, ◌<◌, ◌≡◌, refl, arith, ◌==◌, if◌then◌else◌}
use native.Mathlib.Decide.{dec_lt}

abbrev pub replace {ℓ} : {A : Type ℓ} → (ℕ → A) → ℕ → A → ℕ → A
replace f i a j = if i == j then a else f j

module _ {ℓ} {A : Type ℓ} (w : A → ℕ) where
  -- w (f 0) + … + w (f (n - 1))
  pub sum_of : ℕ → (ℕ → A) → ℕ
  sum_of zero f = 0
  sum_of (suc n) f = sum_of n f + w (f n)

  sum_of-replace_outside :
      (n : ℕ) (f : ℕ → A) (i : ℕ) (a : A) → n ≤ i → sum_of n (replace f i a) ≡ sum_of n f
  unfolding sum_of
  sum_of-replace_outside zero f i a h = refl
  sum_of-replace_outside (suc n) f i a h = ground (arith, sum_of-replace_outside n f i a)

  pub sum_of-replace :
      (n : ℕ) (f : ℕ → A) (i : ℕ) (a : A)
      → i < n
      → sum_of n (replace f i a) + w (f i) ≡ sum_of n f + w a
  unfolding sum_of
  sum_of-replace zero f i a h = absurd (omega arith)
  sum_of-replace (suc n) f i a h = elim (dec_lt i n) [
    | yes before ↦ ground (arith, sum_of-replace n f i a before)
    | no last ↦ ground (arith, sum_of-replace_outside n f i a)
  ]

  pub le-sum_of : (n : ℕ) (f : ℕ → A) (i : ℕ) → i < n → w (f i) ≤ sum_of n f
  unfolding sum_of
  le-sum_of zero f i h = absurd (omega arith)
  le-sum_of (suc n) f i h = elim (dec_lt i n) [
    | yes before ↦ omega (arith, le-sum_of n f i before)
    | no last ↦ ground arith
  ]

  -- Two processes count twice.
  pub two-le-sum_of : (n : ℕ) (f : ℕ → A) (i j : ℕ) → i < j → j < n → w (f i) + w (f j) ≤ sum_of n f
  unfolding sum_of
  two-le-sum_of zero f i j h k = absurd (omega arith)
  two-le-sum_of (suc n) f i j h k = elim (dec_lt j n) [
    | yes before ↦ omega (arith, two-le-sum_of n f i j h before)
    | no last ↦ ground (arith, le-sum_of n f i)
  ]

  pub sum_of-eq-zero : (n : ℕ) (f : ℕ → A) → ((i : ℕ) → i < n → w (f i) ≡ 0) → sum_of n f ≡ 0
  unfolding sum_of
  sum_of-eq-zero zero f h = refl
  sum_of-eq-zero (suc n) f h =
      omega (arith, sum_of-eq-zero n f (λ i lt. h i (omega arith)), h n (omega arith))

  -- A sum that is not 0 has a process that counts.
  pub some_of : (n : ℕ) (f : ℕ → A) → 0 < sum_of n f → (i : ℕ) × (i < n) × (0 < w (f i))
  unfolding sum_of
  some_of zero f h = absurd (omega arith)
  some_of (suc n) f h = elim (dec_lt 0 (w (f n))) [
    | yes here ↦ (n, omega arith, here)
    | no none ↦ let (i, lt, there) = some_of n f (omega arith) in (i, omega arith, there)
  ]

pub sum_of_mono {ℓ} :
    {A : Type ℓ} (v w : A → ℕ)
    → ((a : A) → v a ≤ w a)
    → (n : ℕ) (f : ℕ → A) → sum_of v n f ≤ sum_of w n f
unfolding sum_of
sum_of_mono v w h zero f = omega arith
sum_of_mono v w h (suc n) f = omega (arith, sum_of_mono v w h n f, h (f n))

pub sum_of-add {ℓ} :
    {A : Type ℓ} (v w : A → ℕ) (n : ℕ) (f : ℕ → A)
    → sum_of (λ a. v a + w a) n f ≡ sum_of v n f + sum_of w n f
unfolding sum_of
sum_of-add v w zero f = refl
sum_of-add v w (suc n) f = omega (arith, sum_of-add v w n f)

pub sum_of-const {ℓ} :
    {A : Type ℓ} (w : A → ℕ) (n c : ℕ) (f : ℕ → A) → ((i : ℕ) → w (f i) ≡ c) → sum_of w n f ≡ c * n
unfolding sum_of
sum_of-const w zero c f h = grind arith
sum_of-const w (suc n) c f h = grind (arith, sum_of-const w n c f h, h n)
