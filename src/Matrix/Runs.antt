-- ===== src/Matrix/Runs.antt =====
-- Tests of the model of hw2/matrix.c on matrices of two rows, and one instance of each theorem.
use opearting_system.Base.{
  ℕ, ◌+◌, ◌*◌, ◌<◌, ◌≡◌, refl, false, none, some, List, [], ◌∷◌, ◌++◌, arith,
}
use opearting_system.Base.Int.{pos, ◌≤ℤ◌, ◌-ℤ◌}
use opearting_system.Base.Sums.{total}
use opearting_system.Matrix.Pool.{
  Pool, spawn, join_threads, run_threads, turn, advance, has_returned, all_below,
}
use opearting_system.Matrix.Program.{
  assign_number, Assigning, before_a, no_factors, seeds, Factors, Multiplying, before_zero,
  multiply, zeros, assign_all, multiply_all, max_row_sum, sum_all,
}
use opearting_system.Matrix.Product.{Digits, assign_all-Digits, entry, multiply_all-entry}
use opearting_system.Matrix.Tallying.{row}
use opearting_system.Matrix.Raising.{sum_all-bounds}
use opearting_system.Matrix.InTurn.{in_turn}
use opearting_system.Matrix.Sequence.{maximum, all_phases-in_turn}
use opearting_system.Matrix.Race.{sum_all-raced}

abbrev clock : ℕ → ℕ → ℕ → ℕ
clock i j k = 100 * i + 10 * j + k

abbrev factors : Factors
factors = record { a = λ i j. i + j + 1; b = λ i j. 2 * i + j }

-- Four threads that take turns.
abbrev round : List (ℕ × ℕ)
round = (0, 0) ∷ (1, 1) ∷ (0, 1) ∷ (1, 0) ∷ []

abbrev interleaved : List (ℕ × ℕ)
interleaved = round ++ round ++ round ++ round

abbrev after_products : Pool (ℕ → ℕ → ℕ) Multiplying
after_products =
    run_threads (λ i j. multiply 2 factors (seeds clock i j)) interleaved
      (record { shared = zeros; threads = spawn 2 2 before_zero })

products_end : multiply_all clock 2 factors interleaved ≡ some after_products.shared
unfolding multiply_all run_threads turn advance spawn join_threads all_below has_returned multiply
    seeds
products_end = refl

-- 2 · 0 + 3 · 2
product_value : after_products.shared 1 0 ≡ 6
unfolding run_threads turn advance spawn multiply seeds
product_value = refl

-- Three rounds are not enough: `main` waits in its joins.
products_open : multiply_all clock 2 factors (round ++ round ++ round) ≡ none
unfolding multiply_all run_threads turn advance spawn join_threads all_below has_returned multiply
    seeds
products_open = refl

multiply_all-entry_example : after_products.shared 1 0 ≡ entry 2 factors 1 0
multiply_all-entry_example =
    multiply_all-entry clock 2 factors interleaved after_products.shared products_end 1 0
      (omega arith) (omega arith)

abbrev rows_3_10 : ℕ → ℕ → ℕ
rows_3_10 i j = 7 * i + j + 1

-- The second thread reads after the first has taken the lock and before it has written.
abbrev overlapping : List (ℕ × ℕ)
overlapping =
    (0, 0)
    ∷ (0, 0)
    ∷ (0, 0)
    ∷ (0, 0)
    ∷ (1, 0)
    ∷ (1, 0)
    ∷ (1, 0)
    ∷ (1, 0)
    ∷ (0, 0)
    ∷ (0, 0)
    ∷ (1, 0)
    ∷ (1, 0)
    ∷ (1, 0)
    ∷ []

-- The rows have the sums 3 and 17, and the result is 20.
overlapping_end :
    sum_all clock 2 rows_3_10 overlapping ≡ some (record { max_row_sum = pos 20; locked = false })
unfolding sum_all run_threads turn advance spawn join_threads all_below has_returned max_row_sum
    seeds ◌-ℤ◌
overlapping_end = refl

sum_all-bounds_example :
    ((i : ℕ) → i < 2 → pos (row clock 2 rows_3_10 i) ≤ℤ pos 20)
    × (pos 20 ≤ℤ pos (total 2 (row clock 2 rows_3_10)))
sum_all-bounds_example =
    sum_all-bounds clock 2 rows_3_10 overlapping (record { max_row_sum = pos 20; locked = false })
      overlapping_end

all_phases-in_turn_example :
    (m : Factors) × (c : ℕ → ℕ → ℕ) × (assign_all (λ s. s) clock 2 (in_turn 2 2 2) ≡ some m)
    × (multiply_all clock 2 m (in_turn 4 2 2) ≡ some c)
    × (sum_all clock 2 c (in_turn 6 2 1)
        ≡ some (record { max_row_sum = pos (maximum 2 (row clock 2 c)); locked = false }))
all_phases-in_turn_example = all_phases-in_turn (λ s. s) clock 2

sum_all-raced_example :
    sum_all clock 2 rows_3_10 (in_turn 1 2 1 ++ in_turn 5 2 1)
    ≡ some (record { max_row_sum = pos (total 2 (row clock 2 rows_3_10)); locked = false })
sum_all-raced_example = sum_all-raced clock 2 rows_3_10

abbrev random : ℕ → ℕ
random seed = 3 * seed + 5

abbrev after_digits : Pool Factors Assigning
after_digits =
    run_threads (λ i j. assign_number random (seeds clock i j)) (round ++ round)
      (record { shared = no_factors; threads = spawn 2 2 before_a })

digits_end : assign_all random clock 2 (round ++ round) ≡ some after_digits.shared
unfolding assign_all run_threads turn advance spawn join_threads all_below has_returned
    assign_number seeds
digits_end = refl

assign_all-Digits_example : Digits random clock 1 0 after_digits.shared
assign_all-Digits_example =
    assign_all-Digits random clock 2 (round ++ round) after_digits.shared digits_end 1 0
      (omega arith) (omega arith)
