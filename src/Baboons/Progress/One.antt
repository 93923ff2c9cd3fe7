-- ===== src/Baboons/Progress/One.antt =====
-- When one baboon of hw3 can take a step, and what it waits for when it cannot.
use opearting_system.Base.{ℕ, zero, suc, ◌<◌, ◌≡◌, refl, arith, ◌⊎◌, inl, inr}
use native.Mathlib.Decide.{ℕ_discrete}
use opearting_system.Baboons.Process.{
  Dir, east, west, Version, baboon39, baboon40, Shared, Pc, arriving, queued, entering, read_in,
  entered, need_rope, boarding, boarded, crossing, leaving, read_out, left, give_rope, unlocking,
  finished, Move, pass, wait_turn, lock_in, load_in, store_in, first_in, later_in, take_rope,
  unlock_in, skip_turn, give_turn, lock_out, load_out, store_out, last_out, others_out, drop_rope,
  unlock_out,
}
use opearting_system.Baboons.Invariant.{one_if, counted, IsFresh}

zero_or_suc : (k : ℕ) → (k ≡ 0) ⊎ ((j : ℕ) × (k ≡ suc j))
zero_or_suc zero = inl refl
zero_or_suc (suc j) = inr (j, refl)

one_if_refl : (d : Dir) → 0 < one_if d d
one_if_refl east = omega arith
one_if_refl west = omega arith

pub data Movable (v : Version) (m : Shared) (p : Pc) : Type 0 where
  moves : {m' : Shared} {p' : Pc} → Move v m p m' p' → Movable v m p

-- Why a baboon does not move.
pub data Waits (v : Version) (m : Shared) : Pc → Type 0 where
  no_turn : {d : Dir} → v ≡ baboon40 → m.starvation ≡ 0 → Waits v m (arriving d)
  no_lock_in : {d : Dir} → m.direction_lock d ≡ 0 → Waits v m (queued d)
  no_rope : {d : Dir} → m.rope_lock ≡ 0 → Waits v m (need_rope d)
  no_lock_out : {d : Dir} → m.direction_lock d ≡ 0 → Waits v m (crossing d)
  over : {d : Dir} → Waits v m (finished d)

pub attempt :
    (v : Version) (m : Shared) (p : Pc)
    → IsFresh m.two_side p
    → ((d : Dir) → 0 < counted d p → 0 < m.two_side d)
    → Waits v m p ⊎ Movable v m p
attempt baboon39 m (arriving d) f h = inr (moves (pass refl))
attempt baboon40 m (arriving d) f h = elim (zero_or_suc m.starvation) [
  | inl e ↦ inl (no_turn refl e)
  | inr (k, e) ↦ inr (moves (wait_turn refl e))
]
attempt v m (queued d) f h = elim (zero_or_suc (m.direction_lock d)) [
  | inl e ↦ inl (no_lock_in e)
  | inr (k, e) ↦ inr (moves (lock_in e))
]
attempt v m (entering d) f h = inr (moves load_in)
attempt v m (read_in d c) f h = inr (moves store_in)
attempt v m (entered d) f h = elim (ℕ_discrete (m.two_side d) 1) [
  | yes e ↦ inr (moves (first_in e))
  | no ne ↦ inr (moves (later_in ne))
]
attempt v m (need_rope d) f h = elim (zero_or_suc m.rope_lock) [
  | inl e ↦ inl (no_rope e)
  | inr (k, e) ↦ inr (moves (take_rope e))
]
attempt v m (boarding d) f h = inr (moves unlock_in)
attempt baboon39 m (boarded d) f h = inr (moves (skip_turn refl))
attempt baboon40 m (boarded d) f h = inr (moves (give_turn refl))
attempt v m (crossing d) f h = elim (zero_or_suc (m.direction_lock d)) [
  | inl e ↦ inl (no_lock_out e)
  | inr (k, e) ↦ inr (moves (lock_out e))
]
attempt v m (leaving d) f h = inr (moves load_out)
attempt v m (read_out d c) f h = elim (zero_or_suc c) [
  | inl e ↦ absurd (omega (arith, f, e, h d (one_if_refl d)))
  | inr (k, e) ↦ inr (moves (store_out e))
]
attempt v m (left d) f h = elim (ℕ_discrete (m.two_side d) 0) [
  | yes e ↦ inr (moves (last_out e))
  | no ne ↦ inr (moves (others_out ne))
]
attempt v m (give_rope d) f h = inr (moves drop_rope)
attempt v m (unlocking d) f h = inr (moves unlock_out)
attempt v m (finished d) f h = inl over
