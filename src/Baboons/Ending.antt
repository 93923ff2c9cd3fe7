-- ===== src/Baboons/Ending.antt =====
-- The runs of the baboons of hw3 end.
use native.Mathlib.Decide.{ℕ_discrete}
use opearting_system.Base.{
  ℕ, zero, suc, ◌≤◌, ◌<◌, ◌≡◌, arith, true, false, ◌⊎◌, inl, inr, Bool-cases,
}
use opearting_system.Baboons.Crowd.{sum_of, sum_of-replace}
use opearting_system.Baboons.Process.{
  Dir, Version, Shared, Pc, arriving, queued, entering, read_in, entered, need_rope, boarding,
  boarded, crossing, leaving, read_out, left, give_rope, unlocking, finished, Move, pass, wait_turn,
  lock_in, load_in, store_in, first_in, later_in, take_rope, unlock_in, skip_turn, give_turn,
  lock_out, load_out, store_out, last_out, others_out, drop_rope, unlock_out,
}
use opearting_system.Baboons.System.{System, Step, pick, Reach, later}
use opearting_system.Baboons.Progress.{has_finished, progress}

-- The steps that a baboon has left, when it takes the rope on its way in and gives it back.
abbrev togo : Pc → ℕ
togo (arriving d) = 14
togo (queued d) = 13
togo (entering d) = 12
togo (read_in d c) = 11
togo (entered d) = 10
togo (need_rope d) = 9
togo (boarding d) = 8
togo (boarded d) = 7
togo (crossing d) = 6
togo (leaving d) = 5
togo (read_out d c) = 4
togo (left d) = 3
togo (give_rope d) = 2
togo (unlocking d) = 1
togo (finished d) = 0

Move-togo : {v : Version} {m m' : Shared} {p p' : Pc} → Move v m p m' p' → togo p' < togo p
Move-togo (pass e) = omega arith
Move-togo (wait_turn e f) = omega arith
Move-togo (lock_in e) = omega arith
Move-togo load_in = omega arith
Move-togo store_in = omega arith
Move-togo (first_in e) = omega arith
Move-togo (later_in e) = omega arith
Move-togo (take_rope e) = omega arith
Move-togo unlock_in = omega arith
Move-togo (skip_turn e) = omega arith
Move-togo (give_turn e) = omega arith
Move-togo (lock_out e) = omega arith
Move-togo load_out = omega arith
Move-togo (store_out e) = omega arith
Move-togo (last_out e) = omega arith
Move-togo (others_out e) = omega arith
Move-togo drop_rope = omega arith
Move-togo unlock_out = omega arith

-- A run of so many steps.
pub data Steps (v : Version) (n : ℕ) (s : System) : ℕ → System → Type 0 where
  here : Steps v n s 0 s
  further : {k : ℕ} {t u : System} → Steps v n s k t → Step v n t u → Steps v n s (suc k) u

Step-togo :
    {v : Version} {n : ℕ} {s t : System} → Step v n s t → sum_of togo n t.pc < sum_of togo n s.pc
Step-togo {n} {s} (pick i {p} lt mv) =
    omega (arith, sum_of-replace togo n s.pc i p lt, Move-togo mv)

some_unfinished :
    (n : ℕ) (pc : ℕ → Pc)
    → ((i : ℕ) → i < n → has_finished (pc i) ≡ true)
      ⊎ ((i : ℕ) × (i < n) × (has_finished (pc i) ≡ false))
some_unfinished zero pc = inl (λ i lt. absurd (omega arith))
some_unfinished (suc n) pc = elim (Bool-cases (has_finished (pc n))) [
  | inl this ↦ elim (some_unfinished n pc) [
    | inl all ↦
        inl (λ i lt. elim (ℕ_discrete i n) [ yes e ↦ rw e this | no ne ↦ all i (omega arith) ])
    | inr (i, lt, u) ↦ inr (i, omega arith, u)
  ]
  | inr this ↦ inr (n, omega arith, this)
]

run_on :
    {v : Version} {n : ℕ} {dir : ℕ → Dir} {s : System} (left_over k : ℕ) {t : System}
    → Steps v n s k t
    → Reach v n dir t
    → sum_of togo n t.pc ≤ left_over
    → (j : ℕ) × (u : System) × Steps v n s j u × ((i : ℕ) → i < n → has_finished (u.pc i) ≡ true)
run_on {n} zero k {t} sts r le = elim (some_unfinished n t.pc) [
  | inl all ↦ (k, t, sts, all)
  | inr (i, lt, now) ↦ let (u, st) = progress i r lt now in absurd (omega (arith, Step-togo st))
]
run_on {n} (suc left_over) k {t} sts r le = elim (some_unfinished n t.pc) [
  | inl all ↦ (k, t, sts, all)
  | inr (i, lt, now) ↦
      let (u, st) = progress i r lt now in
      run_on left_over (suc k) (further sts st) (later r st) (omega (arith, Step-togo st))
]

-- Every reachable state has a run that ends with every baboon finished.
pub all_finish :
    {v : Version} {n : ℕ} {dir : ℕ → Dir} {s : System}
    → Reach v n dir s
    → (j : ℕ) × (t : System) × Steps v n s j t × ((i : ℕ) → i < n → has_finished (t.pc i) ≡ true)
all_finish {n} {s} r = run_on (sum_of togo n s.pc) 0 here r (omega arith)
