-- ===== src/Baboons/Invariant.antt =====
-- What holds whenever a baboon may take its next step.
mod Defs
mod Moves
pub use Defs.*
use Moves.{Move-Inv}
use opearting_system.Base.{ℕ, ◌+◌, ◌≡◌, refl, arith}
use opearting_system.Baboons.Crowd.{sum_of, sum_of-eq-zero}
use opearting_system.Baboons.Process.{Dir, east, west, Version, Pc, arriving}
use opearting_system.Baboons.System.{System, Step, pick, init, Reach, start, later}

module _ (w : Pc → ℕ) (zero_at : (d : Dir) → w (arriving d) ≡ 0) (n : ℕ) (dir : ℕ → Dir) where
  none-arriving : sum_of w n (λ i. arriving (dir i)) ≡ 0
  none-arriving = sum_of-eq-zero w n (λ i. arriving (dir i)) (λ i lt. zero_at (dir i))

Inv-init : (v : Version) (n : ℕ) (dir : ℕ → Dir) → Inv v n (init dir).mem (init dir).pc
Inv-init v n dir =
    let zero = λ (w : Pc → ℕ) (z : (d : Dir) → w (arriving d) ≡ 0). none-arriving w z n dir in
    record {
      lock = λ d. omega (
        arith,
        zero (testing_in d) (λ _. refl),
        zero (needing d) (λ _. refl),
        zero (testing_out d) (λ _. refl),
        zero (giving d) (λ _. refl),
        zero (locking d) (λ _. refl),
      );
      count = λ d. omega (arith, zero (counted d) (λ _. refl));
      first = λ d h. absurd (omega (arith, zero (needing d) (λ _. refl)));
      last = λ d h. refl;
      rope = omega (
        arith,
        zero (testing_out east) (λ _. refl),
        zero (testing_out west) (λ _. refl),
        zero (giving east) (λ _. refl),
        zero (giving west) (λ _. refl),
        zero (needing east) (λ _. refl),
        zero (needing west) (λ _. refl),
      );
      fresh = λ i lt. tt;
      turn = λ e. omega (arith, zero in_turn (λ _. refl));
    }

pub Step-Inv :
    {v : Version} {n : ℕ} {s t : System} → Step v n s t → Inv v n s.mem s.pc → Inv v n t.mem t.pc
Step-Inv (pick i lt mv) inv = Move-Inv inv i lt mv

-- The invariant holds in every state that the baboons can reach.
pub Reach-Inv :
    {v : Version} {n : ℕ} {dir : ℕ → Dir} {s : System} → Reach v n dir s → Inv v n s.mem s.pc
Reach-Inv {v} {n} {dir} start = Inv-init v n dir
Reach-Inv (later r st) = Step-Inv st (Reach-Inv r)
