-- ===== src/Matrix/Keeping.antt =====
-- What every step of every thread keeps holds after any run, and the joins tell that all have returned.
use opearting_system.Base.{
  ℕ, zero, suc, ◌<◌, ◌≡◌, refl, Bool, true, false, ◌&&◌, Option, none, some, List, [], ◌∷◌, arith,
  ltb, ◌==◌, if◌then◌else◌, if_cases,
}
use native.Mathlib.Decide.{dec_lt}
use mathlib.Core.Path.{subst}
use opearting_system.Matrix.Pool.{
  Pool, put, all_below, spawn, has_returned, join_threads, advance, turn, run_threads,
}

pub same_place : (i j x y : ℕ) → (i == x && j == y) ≡ true → (i ≡ x) × (j ≡ y)
same_place i j x y h = (ground (arith, h), ground (arith, h))

-- Either the place that was written, or one that was not.
pub put_cases {ℓ κ} :
    {A : Type ℓ} (Q : ℕ → ℕ → A → Type κ) (m : ℕ → ℕ → A) (i j : ℕ) (v : A)
    → Q i j v
    → ((x y : ℕ) → (i == x && j == y) ≡ false → Q x y (m x y))
    → (x y : ℕ) → Q x y (put m i j v x y)
put_cases Q m i j v own other x y =
    if_cases (Q x y) (i == x && j == y)
      (λ e.
        subst (λ k. Q x k v) (same_place i j x y e).1
          (subst (λ k. Q k j v) (same_place i j x y e).0 own))
      (λ e. other x y e)

pub put-other {ℓ} :
    {A : Type ℓ} (m : ℕ → ℕ → A) (i j : ℕ) (v : A) (x y : ℕ)
    → (i == x && j == y) ≡ false
    → put m i j v x y ≡ m x y
put-other m i j v x y h = ground (arith, h)

pub put-same {ℓ} : {A : Type ℓ} (m : ℕ → ℕ → A) (i j : ℕ) (v : A) → put m i j v i j ≡ v
put-same m i j v = ground arith

all_below-true : (n : ℕ) (p : ℕ → Bool) (i : ℕ) → all_below n p ≡ true → i < n → p i ≡ true
unfolding all_below
all_below-true zero p i h lt = absurd (omega arith)
all_below-true (suc n) p i h lt = elim (dec_lt i n) [
  | yes before ↦ all_below-true n p i (ground (arith, h)) before
  | no last ↦
      (let at_end : n ≡ i = omega arith in subst (λ k. p k ≡ true) at_end (ground (arith, h)))
]

some_if {ℓ} :
    {A : Type ℓ} (b : Bool) {x y : A} → (if b then some x else none) ≡ some y → (b ≡ true) × (x ≡ y)
some_if true h = (refl, cc)
some_if false h = cc

module _ {S P : Type 0} where
  -- After the joins every thread of the first rows and columns has returned.
  pub join_threads-Some :
      (is_end : P → Bool) (rows columns : ℕ) (t : Pool S P) (s : S)
      → join_threads is_end rows columns t ≡ some s
      → (t.shared ≡ s)
        × ((i j : ℕ) → i < rows → j < columns → has_returned is_end (t.threads i j) ≡ true)
  unfolding join_threads
  join_threads-Some is_end rows columns t s h = (
    (some_if (all_below rows (λ x. all_below columns (λ y. has_returned is_end (t.threads x y))))
        h).1,
    λ i j li lj.
        all_below-true columns (λ y. has_returned is_end (t.threads i y)) j
          (all_below-true rows (λ x. all_below columns (λ y. has_returned is_end (t.threads x y))) i
            (some_if
              (all_below rows (λ x. all_below columns (λ y. has_returned is_end (t.threads x y))))
              h).0
            li)
          lj,
  )

  module _ (step : ℕ → ℕ → S → P → S × P) where
    turn-Keeps :
        (I : S → (ℕ → ℕ → Option P) → Type 0)
        → ((i j : ℕ) (p : P) (s : S) (f : ℕ → ℕ → Option P)
            → f i j ≡ some p
            → I s f
            → I (step i j s p).0 (put f i j (some (step i j s p).1)))
        → (i j : ℕ) (t : Pool S P) → I t.shared t.threads
        → I (turn step i j t).shared (turn step i j t).threads
    unfolding turn advance
    turn-Keeps I kept i j t h =
        elim (t.threads i j)
            as (λ q.
              t.threads i j ≡ q → I (advance step i j t q).shared (advance step i j t q).threads) [
                | none ↦ λ e. h
                | some p ↦ λ e. kept i j p t.shared t.threads e h
              ]
          refl

    -- `I` speaks of what is shared and of the threads.
    pub run_threads-Keeps :
        (I : S → (ℕ → ℕ → Option P) → Type 0)
        → ((i j : ℕ) (p : P) (s : S) (f : ℕ → ℕ → Option P)
            → f i j ≡ some p
            → I s f
            → I (step i j s p).0 (put f i j (some (step i j s p).1)))
        → (order : List (ℕ × ℕ)) (t : Pool S P) → I t.shared t.threads
        → I (run_threads step order t).shared (run_threads step order t).threads
    unfolding run_threads
    run_threads-Keeps I kept [] t h = h
    run_threads-Keeps I kept ((i, j) ∷ order) t h =
        run_threads-Keeps I kept order (turn step i j t) (turn-Keeps I kept i j t h)

module _ {S P : Type 0} (At : ℕ → ℕ → S → P → Type 0) where
  -- What holds of a place, if a thread has its name.
  abbrev pub Held : ℕ → ℕ → S → Option P → Type 0
  Held i j s none = Unit
  Held i j s (some p) = At i j s p

  pub spawn-Held :
      (rows columns : ℕ) (start : P) (s : S) (i j : ℕ)
      → At i j s start
      → Held i j s (spawn rows columns start i j)
  unfolding spawn
  spawn-Held rows columns start s i j h =
      if_cases (Held i j s) (ltb i rows && ltb j columns) (λ e. h) (λ e. tt)

  returned-Held :
      (is_end : P → Bool) (i j : ℕ) (s : S) (q : Option P)
      → has_returned is_end q ≡ true
      → Held i j s q
      → (p : P) × (is_end p ≡ true) × At i j s p
  unfolding has_returned
  returned-Held is_end i j s none e h = cc
  returned-Held is_end i j s (some p) e h = (p, e, h)

  module _ (step : ℕ → ℕ → S → P → S × P)
      (own : (i j : ℕ) (s : S) (p : P) → At i j s p → At i j (step i j s p).0 (step i j s p).1)
      (other : (i j : ℕ) (s : S) (p : P) (x y : ℕ) (q : P)
        → (i == x && j == y) ≡ false
        → At x y s q
        → At x y (step i j s p).0 q) where
    other-Held :
        (i j : ℕ) (s : S) (p : P) (x y : ℕ) (q : Option P)
        → (i == x && j == y) ≡ false
        → Held x y s q
        → Held x y (step i j s p).0 q
    other-Held i j s p x y none e h = tt
    other-Held i j s p x y (some q) e h = other i j s p x y q e h

    -- One thread moves: its own place is kept by its step, the others by what the step leaves alone.
    pub step-Held :
        (i j : ℕ) (p : P) (s : S) (f : ℕ → ℕ → Option P)
        → f i j ≡ some p
        → ((x y : ℕ) → Held x y s (f x y))
        → (x y : ℕ) → Held x y (step i j s p).0 (put f i j (some (step i j s p).1) x y)
    step-Held i j p s f e h =
        put_cases (λ x y q. Held x y (step i j s p).0 q) f i j (some (step i j s p).1)
          (own i j s p (subst (Held i j s) e (h i j)))
          (λ x y away. other-Held i j s p x y (f x y) away (h x y))

    run_threads-Held :
        (order : List (ℕ × ℕ)) (t : Pool S P)
        → ((x y : ℕ) → Held x y t.shared (t.threads x y))
        → (x y : ℕ)
        → Held x y (run_threads step order t).shared ((run_threads step order t).threads x y)
    run_threads-Held order t h =
        run_threads-Keeps step (λ s f. (x y : ℕ) → Held x y s (f x y)) step-Held order t h

    -- A thread that `main` has joined is at an end of its function.
    pub join_threads-Held :
        (is_end : P → Bool) (rows columns : ℕ) (start : P) (s : S)
        → ((x y : ℕ) → At x y s start)
        → (order : List (ℕ × ℕ)) (r : S)
        → join_threads is_end rows columns
            (run_threads step order (record { shared = s; threads = spawn rows columns start }))
          ≡ some r
        → (i j : ℕ) → i < rows
        → j < columns
        → (p : P) × (is_end p ≡ true) × At i j r p
    join_threads-Held is_end rows columns start s h order r e i j li lj =
        let begun : Pool S P = record { shared = s; threads = spawn rows columns start } in
        let joined = join_threads-Some is_end rows columns (run_threads step order begun) r e in
        returned-Held is_end i j r ((run_threads step order begun).threads i j) (joined.1 i j li lj)
          (subst (λ k. Held i j k ((run_threads step order begun).threads i j)) joined.0
            (run_threads-Held order begun (λ x y. spawn-Held rows columns start s x y (h x y)) i j))
