-- ===== src/Baboons/Invariant/Defs.antt =====
-- Weights of the places where a baboon can stand, and the invariant over their sums.
use opearting_system.Base.{ℕ, ◌+◌, ◌<◌, ◌≡◌, ◌==◌, if◌then◌else◌}
use opearting_system.Baboons.Crowd.{sum_of}
use opearting_system.Baboons.Process.{
  Dir, east, west, same, Version, baboon40, Shared, Pc, queued, entering, read_in, entered,
  need_rope, boarding, boarded, crossing, leaving, read_out, left, give_rope, unlocking,
}

abbrev pub one_if : Dir → Dir → ℕ
one_if d d' = if same d d' then 1 else 0

-- A first baboon that has not yet tested the counter, and one that waits for the rope.
abbrev pub testing_in : Dir → Pc → ℕ
testing_in d (entered d') = one_if d d'
testing_in d _ = 0

abbrev pub needing : Dir → Pc → ℕ
needing d (need_rope d') = one_if d d'
needing d _ = 0

-- A last baboon that has not yet tested the counter, and one that is about to give the rope back.
abbrev pub testing_out : Dir → Pc → ℕ
testing_out d (left d') = one_if d d'
testing_out d _ = 0

abbrev pub giving : Dir → Pc → ℕ
giving d (give_rope d') = one_if d d'
giving d _ = 0

-- The other places at which a baboon holds the lock of its direction.
abbrev pub locking : Dir → Pc → ℕ
locking d (entering d') = one_if d d'
locking d (read_in d' c) = one_if d d'
locking d (boarding d') = one_if d d'
locking d (leaving d') = one_if d d'
locking d (read_out d' c) = one_if d d'
locking d (unlocking d') = one_if d d'
locking d _ = 0

-- The places between the increment and the decrement of the counter.
abbrev pub counted : Dir → Pc → ℕ
counted d (entered d') = one_if d d'
counted d (need_rope d') = one_if d d'
counted d (boarding d') = one_if d d'
counted d (boarded d') = one_if d d'
counted d (crossing d') = one_if d d'
counted d (leaving d') = one_if d d'
counted d (read_out d' c) = one_if d d'
counted d _ = 0

-- The places between the two accesses to `starvation`.
abbrev pub in_turn : Pc → ℕ
in_turn (queued d) = 1
in_turn (entering d) = 1
in_turn (read_in d c) = 1
in_turn (entered d) = 1
in_turn (need_rope d) = 1
in_turn (boarding d) = 1
in_turn (boarded d) = 1
in_turn _ = 0

-- What the local value of a load says about the counter.
abbrev pub IsFresh : (Dir → ℕ) → Pc → Type 0
IsFresh count (read_in d c) = c ≡ count d
IsFresh count (read_out d c) = c ≡ count d
IsFresh count _ = Unit

module _ (n : ℕ) (m : Shared) (pc : ℕ → Pc) where
  -- 1 if direction `d` has taken the rope, or should have: its counter is positive, or the rope is
  -- still to be given back.
  abbrev pub claims : Dir → ℕ
  claims d = (if m.two_side d == 0 then sum_of (testing_out d) n pc else 1) + sum_of (giving d) n pc

  -- 1 if direction `d` still has to take the rope.
  abbrev pub owes : Dir → ℕ
  owes d = sum_of (needing d) n pc + (if m.two_side d == 1 then sum_of (testing_in d) n pc else 0)

pub record Inv (v : Version) (n : ℕ) (m : Shared) (pc : ℕ → Pc) : Type 0 where
  pub lock :
      (d : Dir)
      → m.direction_lock d
          + sum_of (testing_in d) n pc
          + sum_of (needing d) n pc
          + sum_of (testing_out d) n pc
          + sum_of (giving d) n pc
          + sum_of (locking d) n pc
        ≡ 1
  pub count : (d : Dir) → m.two_side d ≡ sum_of (counted d) n pc
  pub first : (d : Dir) → 0 < sum_of (needing d) n pc → m.two_side d ≡ 1
  pub last : (d : Dir) → 0 < sum_of (giving d) n pc → m.two_side d ≡ 0
  pub rope :
      m.rope_lock + claims n m pc east + claims n m pc west
      ≡ 1 + owes n m pc east + owes n m pc west
  pub fresh : (i : ℕ) → i < n → IsFresh m.two_side (pc i)
  pub turn : v ≡ baboon40 → m.starvation + sum_of in_turn n pc ≡ 1
