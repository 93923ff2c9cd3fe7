-- ===== src/Baboons/Progress.antt =====
-- The baboons of hw3 never block one another for good.
mod One
use One.{Movable, moves, Waits, no_turn, no_lock_in, no_rope, no_lock_out, over, attempt}
use native.Mathlib.Decide.{dec_lt}
use opearting_system.Base.{
  ℕ, zero, suc, ◌+◌, ◌≤◌, ◌<◌, ◌≡◌, refl, arith, Bool, true, false, ◌==◌, if◌then◌else◌, ◌⊎◌, inl,
  inr,
}
use opearting_system.Baboons.Crowd.{sum_of, some_of, sum_of-add, le-sum_of}
use opearting_system.Baboons.Process.{
  Dir, east, west, Version, baboon39, baboon40, Shared, put, Pc, arriving, queued, entering,
  read_in, entered, need_rope, boarding, boarded, crossing, leaving, read_out, left, give_rope,
  unlocking, finished, Move, pass, wait_turn, lock_in, load_in, store_in, first_in, later_in,
  take_rope, unlock_in, skip_turn, give_turn, lock_out, load_out, store_out, last_out, others_out,
  drop_rope, unlock_out,
}
use opearting_system.Baboons.System.{System, Step, pick, Reach}
use opearting_system.Baboons.Invariant.{
  one_if, testing_in, needing, testing_out, giving, locking, counted, in_turn, claims, owes, Inv,
  Reach-Inv,
}

abbrev pub has_finished : Pc → Bool
has_finished (finished d) = true
has_finished _ = false

-- Weights of places that wait for little or for nothing.
abbrev busy : Dir → Pc → ℕ
busy d p = testing_in d p + testing_out d p + giving d p + locking d p

module _ {v : Version} {m : Shared} where
  busy-moves : (d : Dir) {p : Pc} → Waits v m p ⊎ Movable v m p → 0 < busy d p → Movable v m p
  busy-moves d (inr mv) h = mv
  busy-moves d (inl (no_turn e z)) h = absurd (omega arith)
  busy-moves d (inl (no_lock_in z)) h = absurd (omega arith)
  busy-moves d (inl (no_rope z)) h = absurd (omega arith)
  busy-moves d (inl (no_lock_out z)) h = absurd (omega arith)
  busy-moves d (inl over) h = absurd (omega arith)

  counted-moves :
      (d : Dir) {p : Pc}
      → Waits v m p ⊎ Movable v m p
      → 0 < counted d p
      → needing d p ≡ 0
      → Movable v m p ⊎ (m.direction_lock d ≡ 0)
  counted-moves d (inr mv) h z = inl mv
  counted-moves d (inl (no_turn e t)) h z = absurd (omega arith)
  counted-moves d (inl (no_lock_in t)) h z = absurd (omega arith)
  counted-moves d (inl (no_rope t)) h z = absurd (omega arith)
  counted-moves east (inl (no_lock_out {d = east} t)) h z = inr t
  counted-moves west (inl (no_lock_out {d = west} t)) h z = inr t
  counted-moves east (inl (no_lock_out {d = west} t)) h z = absurd (omega arith)
  counted-moves west (inl (no_lock_out {d = east} t)) h z = absurd (omega arith)
  counted-moves d (inl over) h z = absurd (omega arith)

  needing-moves :
      (d : Dir) {p : Pc}
      → Waits v m p ⊎ Movable v m p
      → 0 < needing d p
      → Movable v m p ⊎ (m.rope_lock ≡ 0)
  needing-moves d (inr mv) h = inl mv
  needing-moves d (inl (no_turn e t)) h = absurd (omega arith)
  needing-moves d (inl (no_lock_in t)) h = absurd (omega arith)
  needing-moves d (inl (no_rope t)) h = inr t
  needing-moves d (inl (no_lock_out t)) h = absurd (omega arith)
  needing-moves d (inl over) h = absurd (omega arith)

module _ {v : Version} {n : ℕ} {m : Shared} {pc : ℕ → Pc} (inv : Inv v n m pc) where
  abbrev Someone : Type 0
  Someone = (i : ℕ) × (i < n) × Movable v m (pc i)

  next_at : (i : ℕ) → i < n → Waits v m (pc i) ⊎ Movable v m (pc i)
  next_at i lt =
      attempt v m (pc i) (inv.fresh i lt)
        (λ d h. omega (arith, inv.count d, le-sum_of (counted d) n pc i lt))

  busy-Someone : (d : Dir) → 0 < sum_of (busy d) n pc → Someone
  busy-Someone d h =
      let (i, lt, b) = some_of (busy d) n pc h in (i, lt, busy-moves d (next_at i lt) b)

  sum_of-busy :
      (d : Dir)
      → sum_of (busy d) n pc
        ≡ sum_of (testing_in d) n pc
          + sum_of (testing_out d) n pc
          + sum_of (giving d) n pc
          + sum_of (locking d) n pc
  sum_of-busy d = omega (
    arith,
    sum_of-add (λ p. testing_in d p + testing_out d p + giving d p) (locking d) n pc,
    sum_of-add (λ p. testing_in d p + testing_out d p) (giving d) n pc,
    sum_of-add (testing_in d) (testing_out d) n pc,
  )

  -- A taken lock has a holder, which moves unless it waits for the rope.
  unneeding-Someone : (d : Dir) → m.direction_lock d ≡ 0 → sum_of (needing d) n pc ≡ 0 → Someone
  unneeding-Someone d z none = busy-Someone d (omega (arith, sum_of-busy d, inv.lock d))

  -- Direction `d` waits for the rope, which direction `e` has.
  module _ (d e : Dir)
      (rope : m.rope_lock + claims n m pc d + claims n m pc e ≡ 1 + owes n m pc d + owes n m pc e)
      (gone : m.rope_lock ≡ 0) (waiting : 0 < sum_of (needing d) n pc) where
    others_need_none : sum_of (needing e) n pc ≡ 0
    others_need_none =
        ground (arith, rope, gone, inv.first d waiting, inv.last d, inv.last e, inv.lock e)

    others_counted : sum_of (busy e) n pc ≡ 0 → 0 < sum_of (counted e) n pc
    others_counted quiet =
        ground
          (arith, rope, gone, inv.first d waiting, inv.last d, inv.count e, sum_of-busy e, quiet)

    rope-Someone : Someone
    rope-Someone = elim (dec_lt 0 (sum_of (busy e) n pc)) [
      | yes some_busy ↦ busy-Someone e some_busy
      | no quiet ↦
          let (i, lt, c) = some_of (counted e) n pc (others_counted (omega arith)) in
          elim (counted-moves e (next_at i lt) c
            (omega (arith, others_need_none, le-sum_of (needing e) n pc i lt))) [
              | inl mv ↦ (i, lt, mv)
              | inr z ↦ unneeding-Someone e z others_need_none
            ]
    ]

  rope_wait-Someone : (d : Dir) → m.rope_lock ≡ 0 → 0 < sum_of (needing d) n pc → Someone
  rope_wait-Someone east = rope-Someone east west inv.rope
  rope_wait-Someone west = rope-Someone west east (omega (arith, inv.rope))

  needing-Someone : (d : Dir) → 0 < sum_of (needing d) n pc → Someone
  needing-Someone d h =
      let (i, lt, w) = some_of (needing d) n pc h in
      elim (needing-moves d (next_at i lt) w) [
        | inl mv ↦ (i, lt, mv)
        | inr z ↦ rope_wait-Someone d z h
      ]

  locked-Someone : (d : Dir) → m.direction_lock d ≡ 0 → Someone
  locked-Someone d z = elim (dec_lt 0 (sum_of (needing d) n pc)) [
    | yes h ↦ needing-Someone d h
    | no none ↦ unneeding-Someone d z (omega arith)
  ]

  -- A baboon past the wait for its turn.
  in_turn-Someone :
      {p : Pc}
      → Waits v m p
      → 0 < in_turn p
      → ((d : Dir) → needing d p ≤ sum_of (needing d) n pc)
      → Someone
  in_turn-Someone (no_turn e z) h le = absurd (omega arith)
  in_turn-Someone (no_lock_in {d} z) h le = locked-Someone d z
  in_turn-Someone (no_rope {d = east} z) h le = rope_wait-Someone east z (omega (arith, le east))
  in_turn-Someone (no_rope {d = west} z) h le = rope_wait-Someone west z (omega (arith, le west))
  in_turn-Someone (no_lock_out z) h le = absurd (omega arith)
  in_turn-Someone over h le = absurd (omega arith)

  some_in_turn : 0 < sum_of in_turn n pc → Someone
  some_in_turn h =
      let (i, lt, t) = some_of in_turn n pc h in
      elim (next_at i lt) [
        | inl w ↦ in_turn-Someone w t (λ d. le-sum_of (needing d) n pc i lt)
        | inr mv ↦ (i, lt, mv)
      ]

  waiting-Someone :
      {p : Pc}
      → Waits v m p
      → has_finished p ≡ false
      → ((d : Dir) → needing d p ≤ sum_of (needing d) n pc)
      → Someone
  waiting-Someone (no_turn e z) h le = some_in_turn (omega (arith, inv.turn e))
  waiting-Someone (no_lock_in {d} z) h le = locked-Someone d z
  waiting-Someone (no_rope z) h le = in_turn-Someone (no_rope z) (omega arith) le
  waiting-Someone (no_lock_out {d} z) h le = locked-Someone d z
  waiting-Someone over h le = cc

  unfinished-Someone : (i : ℕ) → i < n → has_finished (pc i) ≡ false → Someone
  unfinished-Someone i lt h = elim (next_at i lt) [
    | inl w ↦ waiting-Someone w h (λ d. le-sum_of (needing d) n pc i lt)
    | inr mv ↦ (i, lt, mv)
  ]

go_on :
    {v : Version} {n : ℕ} {s : System} (i : ℕ)
    → i < n
    → Movable v s.mem (s.pc i)
    → (t : System) × Step v n s t
go_on i lt (moves mv) = (_, pick i lt mv)

-- No deadlock: in a reachable state in which some baboon has not finished, a baboon can take a step.
pub progress :
    {v : Version} {n : ℕ} {dir : ℕ → Dir} {s : System} (i : ℕ)
    → Reach v n dir s
    → i < n
    → has_finished (s.pc i) ≡ false
    → (t : System) × Step v n s t
progress i r lt h =
    let (j, before, mv) = unfinished-Someone (Reach-Inv r) i lt h in go_on j before mv
