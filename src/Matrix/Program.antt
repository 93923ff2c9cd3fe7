-- ===== src/Matrix/Program.antt =====
-- `main` of hw2/matrix.c and the three functions that its threads run_threads, step by step. The matrices are
-- functions of a row and a column, `n` is N, and every access of a thread to what the threads share is a
-- step of its own.
use opearting_system.Base.{
  ℕ, suc, ◌+◌, ◌*◌, ◌/◌, ◌%◌, Bool, true, false, Option, List, ltb, if◌then◌else◌,
}
use opearting_system.Base.Int.{ℤ, pos, ◌-ℤ◌, ltb_ℤ}
use opearting_system.Matrix.Pool.{put, spawn, join_threads, run_threads}

pub record TimeSeed : Type 0 where
  pub seed1 : ℕ
  pub seed2 : ℕ
  pub x_loc : ℕ
  pub y_loc : ℕ

-- `usec i j k` is the part of a second that the k-th reading of the clock for i, j gives.
unfoldable pub seeds : (ℕ → ℕ → ℕ → ℕ) → ℕ → ℕ → TimeSeed
seeds usec i j = record {
  seed1 = usec i j 0 * 7 / 11;
  seed2 = usec i j 1 * 11 / 7;
  x_loc = i;
  y_loc = j;
}

-- The global matrices A and B.
pub record Factors : Type 0 where
  pub a : ℕ → ℕ → ℕ
  pub b : ℕ → ℕ → ℕ

pub data Assigning : Type 0 where
  before_a before_b assigned : Assigning

-- `rand_r` gives the random number of a seed.
unfoldable pub assign_number : (ℕ → ℕ) → TimeSeed → Factors → Assigning → Factors × Assigning
assign_number rand_r seed m before_a =
    (record m { a = put m.a seed.x_loc seed.y_loc (rand_r seed.seed1 % 10) }, before_b)
assign_number rand_r seed m before_b =
    (record m { b = put m.b seed.x_loc seed.y_loc (rand_r seed.seed2 % 10) }, assigned)
assign_number rand_r seed m assigned = (m, assigned)

pub data Multiplying : Type 0 where
  before_zero multiplied : Multiplying
  adding : ℕ → Multiplying

-- The global C is what the threads of this phase share: they only read A and B.
unfoldable pub multiply :
    ℕ → Factors → TimeSeed → (ℕ → ℕ → ℕ) → Multiplying → (ℕ → ℕ → ℕ) × Multiplying
multiply n m seed c before_zero = (put c seed.x_loc seed.y_loc 0, adding 0)
multiply n m seed c (adding x) =
    if ltb x n
    then (
      put c seed.x_loc seed.y_loc (c seed.x_loc seed.y_loc + m.a seed.x_loc x * m.b x seed.y_loc),
      adding (suc x),
    )
    else (c, multiplied)
multiply n m seed c multiplied = (c, multiplied)

-- MAX_ROW_SUM and whether a thread holds `lock`.
pub record Tally : Type 0 where
  pub max_row_sum : ℤ
  pub locked : Bool

pub data Summing : Type 0 where
  before_read before_unlock summed : Summing
  subtracting : ℕ → ℤ → Summing
  inside : ℤ → Summing

-- The read of MAX_ROW_SUM in front of the loop is not under the lock. A thread that finds the lock taken
-- stays where it is.
unfoldable pub max_row_sum : ℕ → (ℕ → ℕ → ℕ) → TimeSeed → Tally → Summing → Tally × Summing
max_row_sum n c seed t before_read = (t, subtracting 0 t.max_row_sum)
max_row_sum n c seed t (subtracting x sum) =
    if ltb x n
    then (t, subtracting (suc x) (sum -ℤ pos (c seed.x_loc x)))
    else if t.locked
    then (t, subtracting x sum)
    else (record t { locked = true }, inside sum)
max_row_sum n c seed t (inside sum) = (
  if ltb_ℤ sum (pos 0) then record t { max_row_sum = t.max_row_sum -ℤ sum } else t,
  before_unlock,
)
max_row_sum n c seed t before_unlock = (record t { locked = false }, summed)
max_row_sum n c seed t summed = (t, summed)

abbrev pub has_assigned : Assigning → Bool
has_assigned before_a = false
has_assigned before_b = false
has_assigned assigned = true

abbrev pub has_multiplied : Multiplying → Bool
has_multiplied before_zero = false
has_multiplied (adding x) = false
has_multiplied multiplied = true

abbrev pub has_summed : Summing → Bool
has_summed before_read = false
has_summed before_unlock = false
has_summed (subtracting x sum) = false
has_summed (inside sum) = false
has_summed summed = true

-- Global variables start at zero, and the lock is free.
abbrev pub zeros : ℕ → ℕ → ℕ
zeros i j = 0

abbrev pub no_factors : Factors
no_factors = record { a = zeros; b = zeros }

abbrev pub no_rows : Tally
no_rows = record { max_row_sum = pos 0; locked = false }

unfoldable pub assign_all : (ℕ → ℕ) → (ℕ → ℕ → ℕ → ℕ) → ℕ → List (ℕ × ℕ) → Option Factors
assign_all rand_r usec n order = join_threads has_assigned n n (
    run_threads (λ i j. assign_number rand_r (seeds usec i j)) order
      (record { shared = no_factors; threads = spawn n n before_a }))

module _ (usec : ℕ → ℕ → ℕ → ℕ) (n : ℕ) where
  unfoldable pub multiply_all : Factors → List (ℕ × ℕ) → Option (ℕ → ℕ → ℕ)
  multiply_all m order = join_threads has_multiplied n n (
      run_threads (λ i j. multiply n m (seeds usec i j)) order
        (record { shared = zeros; threads = spawn n n before_zero }))

  -- These threads have the names in the first column.
  unfoldable pub sum_all : (ℕ → ℕ → ℕ) → List (ℕ × ℕ) → Option Tally
  sum_all c order = join_threads has_summed n 1 (
      run_threads (λ i j. max_row_sum n c (seeds usec i j)) order
        (record { shared = no_rows; threads = spawn n 1 before_read }))
