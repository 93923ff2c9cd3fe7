-- ===== src/Baboons/System.antt =====
-- `main` of hw3/baboon39.c and hw3/baboon40.c: `n` baboons, interleaved in any order.
use opearting_system.Base.{ℕ, ◌<◌}
use opearting_system.Baboons.Crowd.{replace}
use opearting_system.Baboons.Process.{Dir, Version, Shared, Pc, arriving, Move}

-- An index from `n` on names no process: it never moves.
pub record System : Type 0 where
  pub mem : Shared
  pub pc : ℕ → Pc

pub data Step (v : Version) (n : ℕ) (s : System) : System → Type 0 where
  pick :
      (i : ℕ) {m : Shared} {p : Pc}
      → i < n
      → Move v s.mem (s.pc i) m p
      → Step v n s (record { mem = m; pc = replace s.pc i p })

-- Every semaphore is opened at 1 and both counters start at 0. `dir` holds the random directions.
abbrev pub init : (ℕ → Dir) → System
init dir = record {
  mem = record { direction_lock = λ _. 1; rope_lock = 1; starvation = 1; two_side = λ _. 0 };
  pc = λ i. arriving (dir i);
}

pub data Reach (v : Version) (n : ℕ) (dir : ℕ → Dir) : System → Type 0 where
  start : Reach v n dir (init dir)
  later : {s t : System} → Reach v n dir s → Step v n s t → Reach v n dir t
