-- ===== src/Baboons/Runs.antt =====
-- Two baboons of hw3/baboon40.c that go east, and a run of theirs.
use opearting_system.Base.{ℕ, zero, suc, ◌+◌, ◌≤◌, ◌<◌, ◌≡◌, refl, arith, true}
use opearting_system.Baboons.Crowd.{sum_of}
use opearting_system.Baboons.Process.{
  Dir, east, baboon40, Shared, Pc, finished, Move, wait_turn, lock_in, load_in, store_in, first_in,
  later_in, take_rope, unlock_in, give_turn, lock_out, load_out, store_out, last_out, others_out,
  drop_rope, unlock_out,
}
use opearting_system.Baboons.System.{System, Step, pick, init, Reach, start, later}
use opearting_system.Baboons.Invariant.{counted}
use opearting_system.Baboons.Safety.{holds, one_way, exclusive, finished-released}
use opearting_system.Baboons.Progress.{has_finished, progress}
use opearting_system.Baboons.Ending.{Steps, all_finish}

abbrev all_east : ℕ → Dir
all_east i = east

abbrev Reached : Type 0
Reached = (s : System) × Reach baboon40 2 all_east s

abbrev by :
    (i : ℕ)
    → i < 2
    → (r : Reached) {m : Shared} {p : Pc} → Move baboon40 r.0.mem (r.0.pc i) m p
    → Reached
by i lt r mv = (_, later r.1 (pick i lt mv))

-- The first baboon has come on the rope.
abbrev first_on : Reached
first_on =
    by 0 (omega arith)
      (by 0 (omega arith)
        (by 0 (omega arith)
          (by 0 (omega arith)
            (by 0 (omega arith)
              (by 0 (omega arith)
                (by 0 (omega arith)
                  (by 0 (omega arith) ((init all_east, start)) (wait_turn {k = 0} refl refl))
                  (lock_in {k = 0} refl))
                (load_in))
              (store_in))
            (first_in refl))
          (take_rope {k = 0} refl))
        (unlock_in))
      (give_turn refl)

-- Both are on the rope.
abbrev both_on : Reached
both_on =
    by 1 (omega arith)
      (by 1 (omega arith)
        (by 1 (omega arith)
          (by 1 (omega arith)
            (by 1 (omega arith)
              (by 1 (omega arith) (by 1 (omega arith) (first_on) (wait_turn {k = 0} refl refl))
                (lock_in {k = 0} refl))
              (load_in))
            (store_in))
          (later_in (λ e. absurd (omega (arith, e)))))
        (unlock_in))
      (give_turn refl)

-- The first one has left.
abbrev first_off : Reached
first_off =
    by 0 (omega arith)
      (by 0 (omega arith)
        (by 0 (omega arith)
          (by 0 (omega arith) (by 0 (omega arith) (both_on) (lock_out {k = 0} refl)) (load_out))
          (store_out {k = 1} refl))
        (others_out (λ e. absurd (omega (arith, e)))))
      (unlock_out)

-- Both have left.
abbrev both_off : Reached
both_off =
    by 1 (omega arith)
      (by 1 (omega arith)
        (by 1 (omega arith)
          (by 1 (omega arith)
            (by 1 (omega arith) (by 1 (omega arith) (first_off) (lock_out {k = 0} refl)) (load_out))
            (store_out {k = 0} refl))
          (last_out refl))
        (drop_rope))
      (unlock_out)

all_off : (i : ℕ) → i < 2 → both_off.0.pc i ≡ finished (all_east i)
all_off zero lt = refl
all_off (suc zero) lt = refl
all_off (suc (suc i)) lt = absurd (omega arith)

one_way_example : east ≡ east
one_way_example = one_way 0 1 east east both_on.1 (omega arith) (omega arith) refl refl

exclusive_example :
    (holds east (both_on.0.pc 0) + holds east (both_on.0.pc 1) ≤ 1)
    × (both_on.0.mem.two_side east ≡ sum_of (counted east) 2 both_on.0.pc)
exclusive_example = exclusive 0 1 east both_on.1 (omega arith) (omega arith)

finished-released_example :
    ((d : Dir) → (both_off.0.mem.two_side d ≡ 0) × (both_off.0.mem.direction_lock d ≡ 1))
    × (both_off.0.mem.rope_lock ≡ 1)
    × (baboon40 ≡ baboon40 → both_off.0.mem.starvation ≡ 1)
finished-released_example = finished-released both_off.1 all_off

progress_example : (t : System) × Step baboon40 2 both_on.0 t
progress_example = progress 0 both_on.1 (omega arith) refl

all_finish_example :
    (j : ℕ) × (t : System) × Steps baboon40 2 both_on.0 j t
    × ((i : ℕ) → i < 2 → has_finished (t.pc i) ≡ true)
all_finish_example = all_finish both_on.1
