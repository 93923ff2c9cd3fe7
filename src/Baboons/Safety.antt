-- ===== src/Baboons/Safety.antt =====
-- What holds in every state that the baboons of hw3 can reach.
use opearting_system.Base.{ℕ, ◌+◌, ◌≤◌, ◌<◌, ◌≡◌, refl, arith}
use opearting_system.Baboons.Crowd.{
  sum_of, sum_of-add, sum_of_mono, le-sum_of, two-le-sum_of, sum_of-eq-zero,
}
use opearting_system.Baboons.Process.{
  Dir, east, west, Version, baboon40, Shared, Pc, entered, boarding, boarded, crossing, leaving,
  read_out, finished,
}
use opearting_system.Baboons.System.{System, Reach}
use opearting_system.Baboons.Invariant.{
  one_if, testing_in, needing, testing_out, giving, locking, counted, in_turn, claims, owes, Inv,
  Reach-Inv,
}

-- A baboon that goes in direction `d` is on the rope: from `onRope` to its decrement.
abbrev pub on_rope : Dir → Pc → ℕ
on_rope d (boarding d') = one_if d d'
on_rope d (boarded d') = one_if d d'
on_rope d (crossing d') = one_if d d'
on_rope d (leaving d') = one_if d d'
on_rope d (read_out d' c) = one_if d d'
on_rope d _ = 0

counted-le : (d : Dir) (p : Pc) → testing_in d p + needing d p + on_rope d p ≤ counted d p
counted-le d (entered d') = omega arith
counted-le d p = omega arith

module _ {v : Version} {n : ℕ} {m : Shared} {pc : ℕ → Pc} (inv : Inv v n m pc) where
  counted_parts :
      (d : Dir)
      → sum_of (testing_in d) n pc + sum_of (needing d) n pc + sum_of (on_rope d) n pc
        ≤ m.two_side d
  counted_parts d = omega (
    arith,
    inv.count d,
    sum_of_mono (λ p. testing_in d p + needing d p + on_rope d p) (counted d) (counted-le d) n pc,
    sum_of-add (λ p. testing_in d p + needing d p) (on_rope d) n pc,
    sum_of-add (testing_in d) (needing d) n pc,
  )

  -- A direction with a baboon on the rope has taken the rope.
  pub rope_taken :
      (d : Dir) → 0 < sum_of (on_rope d) n pc → (owes n m pc d ≡ 0) × (1 ≤ claims n m pc d)
  rope_taken d h = ground (arith, counted_parts d, inv.first d)

  pub one_direction : 0 < sum_of (on_rope east) n pc → 0 < sum_of (on_rope west) n pc → ⊥
  one_direction e w = omega (arith, inv.rope, rope_taken east e, rope_taken west w)

  pub riding : (i : ℕ) (d : Dir) → i < n → on_rope d (pc i) ≡ 1 → 0 < sum_of (on_rope d) n pc
  riding i d lt h = omega (arith, le-sum_of (on_rope d) n pc i lt)

-- In every reachable state the baboons on the rope all go in the same direction.
pub one_way :
    {v : Version} {n : ℕ} {dir : ℕ → Dir} {s : System} (i j : ℕ) (d e : Dir)
    → Reach v n dir s
    → i < n
    → j < n
    → on_rope d (s.pc i) ≡ 1
    → on_rope e (s.pc j) ≡ 1
    → d ≡ e
one_way i j east east r hi hj p q = refl
one_way i j east west r hi hj p q =
    let inv = Reach-Inv r in
    absurd (one_direction inv (riding inv i east hi p) (riding inv j west hj q))
one_way i j west east r hi hj p q =
    let inv = Reach-Inv r in
    absurd (one_direction inv (riding inv j east hj q) (riding inv i west hi p))
one_way i j west west r hi hj p q = refl

-- Between a successful `sem_wait(directionLock[direction])` and its `sem_post`.
abbrev pub holds : Dir → Pc → ℕ
holds d p = testing_in d p + needing d p + testing_out d p + giving d p + locking d p

sum_of-holds :
    (d : Dir) (n : ℕ) (pc : ℕ → Pc)
    → sum_of (holds d) n pc
      ≡ sum_of (testing_in d) n pc
        + sum_of (needing d) n pc
        + sum_of (testing_out d) n pc
        + sum_of (giving d) n pc
        + sum_of (locking d) n pc
sum_of-holds d n pc = omega (
  arith,
  sum_of-add (λ p. testing_in d p + needing d p + testing_out d p + giving d p) (locking d) n pc,
  sum_of-add (λ p. testing_in d p + needing d p + testing_out d p) (giving d) n pc,
  sum_of-add (λ p. testing_in d p + needing d p) (testing_out d) n pc,
  sum_of-add (testing_in d) (needing d) n pc,
)

-- In every reachable state of at least two baboons, at most one baboon of a direction is between its wait for the lock of the
-- direction and the post that follows, and the counter of the direction is the number of baboons between
-- their increment and their decrement: no update is lost.
pub exclusive :
    {v : Version} {n : ℕ} {dir : ℕ → Dir} {s : System} (i j : ℕ) (d : Dir)
    → Reach v n dir s
    → i < j
    → j < n
    → (holds d (s.pc i) + holds d (s.pc j) ≤ 1) × (s.mem.two_side d ≡ sum_of (counted d) n s.pc)
exclusive {n} {s} i j d r before hj =
    let inv = Reach-Inv r in
    (
      omega
          (arith, inv.lock d, sum_of-holds d n s.pc, two-le-sum_of (holds d) n s.pc i j before hj),
      inv.count d,
    )

module _ {n : ℕ} {dir : ℕ → Dir} {pc : ℕ → Pc} (h : (i : ℕ) → i < n → pc i ≡ finished (dir i)) where
  none : (w : Pc → ℕ) → ((d : Dir) → w (finished d) ≡ 0) → sum_of w n pc ≡ 0
  none w z = sum_of-eq-zero w n pc (λ i lt. rw (h i lt) (z (dir i)))

  nobody_locks :
      (d : Dir)
      → (sum_of (testing_in d) n pc ≡ 0)
        × (sum_of (needing d) n pc ≡ 0)
        × (sum_of (testing_out d) n pc ≡ 0)
        × (sum_of (giving d) n pc ≡ 0)
        × (sum_of (locking d) n pc ≡ 0)
  nobody_locks d = (
    none (testing_in d) (λ _. refl),
    none (needing d) (λ _. refl),
    none (testing_out d) (λ _. refl),
    none (giving d) (λ _. refl),
    none (locking d) (λ _. refl),
  )

  module _ {v : Version} {m : Shared} (inv : Inv v n m pc) where
    counter_empty : (d : Dir) → m.two_side d ≡ 0
    counter_empty d = omega (arith, inv.count d, none (counted d) (λ _. refl))

    lock_free : (d : Dir) → m.direction_lock d ≡ 1
    lock_free d = omega (arith, inv.lock d, nobody_locks d)

    no_claims : (d : Dir) → claims n m pc d ≡ 0
    no_claims d = ground (arith, counter_empty d, nobody_locks d)

    no_debts : (d : Dir) → owes n m pc d ≡ 0
    no_debts d = ground (arith, counter_empty d, nobody_locks d)

    rope_free : m.rope_lock ≡ 1
    rope_free =
        omega (arith, inv.rope, no_claims east, no_claims west, no_debts east, no_debts west)

-- When every baboon has finished, the counters are 0 and every lock is free again; in baboon40.c so is
-- the semaphore `starvation`.
pub finished-released :
    {v : Version} {n : ℕ} {dir : ℕ → Dir} {s : System}
    → Reach v n dir s
    → ((i : ℕ) → i < n → s.pc i ≡ finished (dir i))
    → ((d : Dir) → (s.mem.two_side d ≡ 0) × (s.mem.direction_lock d ≡ 1))
      × (s.mem.rope_lock ≡ 1)
      × (v ≡ baboon40 → s.mem.starvation ≡ 1)
finished-released {n} {dir} {s} r h =
    let inv = Reach-Inv r in
    let idle = none {n = n} {dir = dir} {pc = s.pc} h in_turn (λ _. refl) in
    (
      λ d. (counter_empty h inv d, lock_free h inv d),
      rope_free h inv,
      λ e. omega (arith, inv.turn e, idle),
    )
