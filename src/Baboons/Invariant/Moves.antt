-- ===== src/Baboons/Invariant/Moves.antt =====
-- A move of baboon `i` keeps the invariant.
use opearting_system.Base.{ℕ, suc, ◌+◌, ◌≤◌, ◌<◌, ◌≡◌, ◌≢◌, refl, arith, false, ◌==◌, ==-refl}
use native.Mathlib.Decide.{dec_lt, ℕ_discrete}
use opearting_system.Baboons.Crowd.{replace, sum_of, sum_of-replace, le-sum_of, two-le-sum_of}
use opearting_system.Baboons.Process.{
  Dir, east, west, Version, baboon39, baboon40, Shared, Pc, read_in, read_out, Move, pass,
  wait_turn, lock_in, load_in, first_in, later_in, take_rope, skip_turn, give_turn, lock_out,
  load_out, store_out, last_out, others_out,
}
use opearting_system.Baboons.Invariant.Defs.{
  testing_in, needing, testing_out, giving, locking, counted, in_turn, IsFresh, claims, owes, Inv,
}

-- The sums before and behind a move of `i` from `p` to `p'`.
record Sums (w : Pc → ℕ) (n : ℕ) (pc : ℕ → Pc) (i : ℕ) (p p' : Pc) : Type 0 where
  moved : sum_of w n (replace pc i p') + w p ≡ sum_of w n pc + w p'
  at_least : w p ≤ sum_of w n pc

sums :
    (w : Pc → ℕ) (n : ℕ) (pc : ℕ → Pc) (i : ℕ) (p p' : Pc) → i < n → pc i ≡ p → Sums w n pc i p p'
sums w n pc i p p' lt e = record {
  moved = rw (← e) (sum_of-replace w n pc i p' lt);
  at_least = rw (← e) (le-sum_of w n pc i lt);
}

-- The sums that concern direction `d`.
record Mover (n : ℕ) (pc : ℕ → Pc) (i : ℕ) (p p' : Pc) (d : Dir) : Type 0 where
  s_testing_in : Sums (testing_in d) n pc i p p'
  s_needing : Sums (needing d) n pc i p p'
  s_testing_out : Sums (testing_out d) n pc i p p'
  s_giving : Sums (giving d) n pc i p p'
  s_locking : Sums (locking d) n pc i p p'
  s_counted : Sums (counted d) n pc i p p'

mover :
    (n : ℕ) (pc : ℕ → Pc) (i : ℕ) (p p' : Pc) → i < n → pc i ≡ p → (d : Dir) → Mover n pc i p p' d
mover n pc i p p' lt e d = record {
  s_testing_in = sums (testing_in d) n pc i p p' lt e;
  s_needing = sums (needing d) n pc i p p' lt e;
  s_testing_out = sums (testing_out d) n pc i p p' lt e;
  s_giving = sums (giving d) n pc i p p' lt e;
  s_locking = sums (locking d) n pc i p p' lt e;
  s_counted = sums (counted d) n pc i p p' lt e;
}

-- The premise of a move, for the clauses below that do not name it.
abbrev Premise : {v : Version} {m m' : Shared} {p p' : Pc} → Move v m p m' p' → Type 0
Premise {v} (pass _) = v ≡ baboon39
Premise {v} {m} (wait_turn {k} _ _) = (v ≡ baboon40) × (m.starvation ≡ suc k)
Premise {m} (lock_in {d} {k} _) = m.direction_lock d ≡ suc k
Premise {m} (first_in {d} _) = m.two_side d ≡ 1
Premise {m} (later_in {d} _) = m.two_side d ≢ 1
Premise {m} (take_rope {k} _) = m.rope_lock ≡ suc k
Premise {v} (skip_turn _) = v ≡ baboon39
Premise {v} (give_turn _) = v ≡ baboon40
Premise {m} (lock_out {d} {k} _) = m.direction_lock d ≡ suc k
Premise (store_out {c} {k} _) = c ≡ suc k
Premise {m} (last_out {d} _) = m.two_side d ≡ 0
Premise {m} (others_out {d} _) = m.two_side d ≢ 0
Premise _ = Unit

premise : {v : Version} {m m' : Shared} {p p' : Pc} (mv : Move v m p m' p') → Premise mv
premise (pass e) = e
premise (wait_turn e h) = (e, h)
premise (lock_in h) = h
premise (first_in h) = h
premise (later_in h) = h
premise (take_rope h) = h
premise (skip_turn e) = e
premise (give_turn e) = e
premise (lock_out h) = h
premise (store_out h) = h
premise (last_out h) = h
premise (others_out h) = h
premise _ = tt

-- A load of another baboon stays true: a store is made under the lock of its direction.
fresh-other :
    {v : Version} {m m' : Shared} {p p' : Pc} (q : Pc)
    → Move v m p m' p'
    → ((d : Dir) → locking d p + locking d q ≤ 1)
    → IsFresh m.two_side q
    → IsFresh m'.two_side q
fresh-other (read_in d c) (pass _) one f = f
fresh-other (read_in d c) mv one f = ground (arith, premise mv, one d)
fresh-other (read_out d c) (pass _) one f = f
fresh-other (read_out d c) mv one f = ground (arith, premise mv, one d)
fresh-other _ mv one f = tt

-- The mover's own load.
fresh-mover : {v : Version} {m m' : Shared} {p p' : Pc} → Move v m p m' p' → IsFresh m'.two_side p'
fresh-mover (pass _) = tt
fresh-mover load_in = refl
fresh-mover load_out = refl
fresh-mover _ = tt

pair-le :
    (w : Pc → ℕ) (n : ℕ) (pc : ℕ → Pc) (i j : ℕ)
    → i < n
    → j < n
    → i ≢ j
    → w (pc i) + w (pc j) ≤ sum_of w n pc
pair-le w n pc i j hi hj ne = elim (dec_lt i j) [
  | yes lt ↦ two-le-sum_of w n pc i j lt hj
  | no ge ↦ omega (arith, two-le-sum_of w n pc j i (omega arith) hi)
]

module _ {v : Version} {n : ℕ} {m : Shared} {pc : ℕ → Pc} (inv : Inv v n m pc) (i : ℕ) where
  Move-lock :
      {p p' : Pc} {m' : Shared} (d : Dir)
      → Move v m p m' p'
      → IsFresh m.two_side p
      → Mover n pc i p p' d
      → (m'.direction_lock d
            + sum_of (testing_in d) n (replace pc i p')
            + sum_of (needing d) n (replace pc i p')
            + sum_of (testing_out d) n (replace pc i p')
            + sum_of (giving d) n (replace pc i p')
            + sum_of (locking d) n (replace pc i p')
          ≡ 1)
        × (m'.two_side d ≡ sum_of (counted d) n (replace pc i p'))
        × (0 < sum_of (needing d) n (replace pc i p') → m'.two_side d ≡ 1)
        × (0 < sum_of (giving d) n (replace pc i p') → m'.two_side d ≡ 0)
  Move-lock d (pass _) f s = ground (arith, inv.lock d, inv.count d, inv.first d, inv.last d)
  Move-lock d mv f s = ground (arith, premise mv, inv.lock d, inv.count d, inv.first d, inv.last d)

  Move-rope :
      {p p' : Pc} {m' : Shared}
      → Move v m p m' p'
      → IsFresh m.two_side p
      → Mover n pc i p p' east
      → Mover n pc i p p' west
      → m'.rope_lock + claims n m' (replace pc i p') east + claims n m' (replace pc i p') west
        ≡ 1 + owes n m' (replace pc i p') east + owes n m' (replace pc i p') west
  Move-rope (pass _) f s t = ground (arith, inv.rope)
  Move-rope mv f s t = ground (
    arith,
    premise mv,
    inv.rope,
    inv.lock east,
    inv.lock west,
    inv.first east,
    inv.first west,
    inv.last east,
    inv.last west,
  )

  Move-turn :
      {p p' : Pc} {m' : Shared}
      → Move v m p m' p'
      → Sums in_turn n pc i p p'
      → v ≡ baboon40
      → m'.starvation + sum_of in_turn n (replace pc i p') ≡ 1
  Move-turn (pass h) s e = ground (arith, inv.turn e)
  Move-turn mv s e = ground (arith, premise mv, inv.turn e)

  Move-fresh :
      {p p' : Pc} {m' : Shared}
      → i < n
      → pc i ≡ p
      → Move v m p m' p'
      → (j : ℕ) → j < n
      → IsFresh m'.two_side (replace pc i p' j)
  Move-fresh {p} {p'} lt e mv j hj = elim (ℕ_discrete i j) [
    | yes here ↦ rw (← here, ==-refl i) (fresh-mover mv)
    | no other ↦
        let ne : (i == j) ≡ false = ground arith in
        let one : (d : Dir) → locking d p + locking d (pc j) ≤ 1 =
          λ d. rw (← e) (omega (arith, pair-le (locking d) n pc i j lt hj other, inv.lock d)) in
        rw ne (fresh-other (pc j) mv one (inv.fresh j hj))
  ]

  -- A move of baboon `i`.
  pub Move-Inv :
      {p' : Pc} {m' : Shared} → i < n → Move v m (pc i) m' p' → Inv v n m' (replace pc i p')
  Move-Inv {p'} lt mv =
      let own = inv.fresh i lt in
      let s = mover n pc i (pc i) p' lt refl in
      record {
        lock = λ d. (Move-lock d mv own (s d)).0;
        count = λ d. (Move-lock d mv own (s d)).1;
        first = λ d. (Move-lock d mv own (s d)).2;
        last = λ d. (Move-lock d mv own (s d)).3;
        rope = Move-rope mv own (s east) (s west);
        fresh = Move-fresh lt refl mv;
        turn = Move-turn mv (sums in_turn n pc i (pc i) p' lt refl);
      }
