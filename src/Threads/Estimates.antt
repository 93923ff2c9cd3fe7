-- ===== src/Threads/Estimates.antt =====
-- The estimate of hw4/userthread.cpp, lines 517 to 535, over several runs of a thread.
use opearting_system.Base.{ℕ, ◌+◌, ◌/◌, ◌%◌, ◌≤◌, ◌≡◌, ap, ◌∙◌, arith, suc, inl, inr, ◌⊎◌}
use opearting_system.Base.Int.{ℤ, pos, ◌+ℤ◌, ◌/ℤ◌, pos-sub-pos, pos-add-pos, pos-div}
use opearting_system.Threads.State.{Thread, Platform, Inputs, mean}
use opearting_system.Threads.Times.{
  set_start_time, set_end_time, store_time, mean_time, estimate_mean, set_estimated_time,
}
use opearting_system.Threads.Scheduler.{end_run}

remainder : (n : ℕ) → (n % 3 ≡ 0) ⊎ (n % 3 ≡ 1) ⊎ (n % 3 ≡ 2)
remainder n = ground arith

module _ {R : Type 0} (p : Platform R) where
  -- A run from `start` that takes `time`, at whose end the thread gives the processor away.
  abbrev pub one_run : Inputs → ℕ → ℕ → Thread R → Thread R
  one_run i start time t =
      end_run p (record i { end_clock = pos (start + time) }) (set_start_time (pos start) t)

  one_run_lem :
      (i : Inputs) (start d : ℕ) (t : Thread R)
      → p.version ≡ mean
      → (one_run i start d t).yield_count ≡ suc t.yield_count
  unfolding end_run set_estimated_time estimate_mean store_time set_end_time set_start_time
  one_run_lem i start d t m = ground (arith, m)

  -- A run goes to one of the three places and leaves the two others alone.
  one_run-places :
      (i : Inputs) (start d : ℕ) (t : Thread R)
      → p.version ≡ mean
      → let u = one_run i start d t in
        (t.yield_count % 3 ≡ 0
          → (u.time_first ≡ pos d)
            × (u.time_second ≡ t.time_second)
            × (u.time_third ≡ t.time_third))
        × (t.yield_count % 3 ≡ 1
            → (u.time_second ≡ pos d)
              × (u.time_first ≡ t.time_first)
              × (u.time_third ≡ t.time_third))
        × (t.yield_count % 3 ≡ 2
            → (u.time_third ≡ pos d)
              × (u.time_first ≡ t.time_first)
              × (u.time_second ≡ t.time_second))
        × (3 ≤ t.yield_count
            → u.estimated_runtime
              ≡ p.of_long ((u.time_first +ℤ u.time_second +ℤ u.time_third) /ℤ 3))
  unfolding end_run set_estimated_time estimate_mean store_time set_end_time set_start_time
      mean_time
  one_run-places i start d t m = ground (arith, m, pos-sub-pos (start + d) start)

  sum_pos :
      (x y z : ℤ) (a b c : ℕ)
      → x ≡ pos a
      → y ≡ pos b
      → z ≡ pos c
      → (x +ℤ y +ℤ z) /ℤ 3 ≡ pos ((a + b + c) / 3)
  sum_pos x y z a b c h k l =
      rw (h, k, l)
        (ap (λ n. n /ℤ 3) (ap (λ n. n +ℤ pos c) (pos-add-pos a b) ∙ pos-add-pos (a + b) c)
          ∙ pos-div (a + b + c) 3)

  -- Each place holds one of the three last runs, whichever place came first.
  three_runs :
      (i j k : Inputs) (r s v a b c : ℕ) (t : Thread R)
      → p.version ≡ mean
      → let u = one_run k v c (one_run j s b (one_run i r a t)) in
        (u.time_first +ℤ u.time_second +ℤ u.time_third) /ℤ 3 ≡ pos ((a + b + c) / 3)
  three_runs i j k r s v a b c t m =
      let t1 = one_run i r a t in
      let t2 = one_run j s b t1 in
      let p1 = one_run-places i r a t m in
      let p2 = one_run-places j s b t1 m in
      let p3 = one_run-places k v c t2 m in
      let n1 = one_run_lem i r a t m in
      let n2 = one_run_lem j s b t1 m in
      elim (remainder t.yield_count) [
        | inl e ↦
            let q1 = p1.0 e in
            let q2 = p2.1 (omega (arith, e, n1)) in
            let q3 = p3.2 (omega (arith, e, n1, n2)) in
            sum_pos _ _ _ a b c (q3.1 ∙ q2.1 ∙ q1.0) (q3.2 ∙ q2.0) q3.0
        | inr (inl e) ↦
            let q1 = p1.1 e in
            let q2 = p2.2 (omega (arith, e, n1)) in
            let q3 = p3.0 (omega (arith, e, n1, n2)) in
            sum_pos _ _ _ c a b q3.0 (q3.1 ∙ q2.2 ∙ q1.0) (q3.2 ∙ q2.0)
            ∙ ap (λ n. pos (n / 3)) (omega arith)
        | inr (inr e) ↦
            let q1 = p1.2 e in
            let q2 = p2.0 (omega (arith, e, n1)) in
            let q3 = p3.1 (omega (arith, e, n1, n2)) in
            sum_pos _ _ _ b c a (q3.1 ∙ q2.0) q3.0 (q3.2 ∙ q2.2 ∙ q1.0)
            ∙ ap (λ n. pos (n / 3)) (omega arith)
      ]

  -- Under the mean of hw4/userthread.cpp, a thread that has left the processor before, and now runs
  -- three times for `a`, `b` and `c` milliseconds, is estimated at their mean rounded down. It lies
  -- between any bounds of the three.
  pub end_run-mean :
      (i j k : Inputs) (r s v a b c lo hi : ℕ) (t : Thread R)
      → p.version ≡ mean
      → 1 ≤ t.yield_count
      → (lo ≤ a) × (lo ≤ b) × (lo ≤ c)
      → (a ≤ hi) × (b ≤ hi) × (c ≤ hi)
      → ((one_run k v c (one_run j s b (one_run i r a t))).estimated_runtime
          ≡ p.of_long (pos ((a + b + c) / 3)))
        × (lo ≤ (a + b + c) / 3)
        × ((a + b + c) / 3 ≤ hi)
  end_run-mean i j k r s v a b c lo hi t m y low high =
      let t1 = one_run i r a t in
      let t2 = one_run j s b t1 in
      let n1 = one_run_lem i r a t m in
      let n2 = one_run_lem j s b t1 m in
      (
        (one_run-places k v c t2 m).3 (omega (arith, n1, n2))
            ∙ ap p.of_long (three_runs i j k r s v a b c t m),
        omega arith,
        omega arith,
      )
