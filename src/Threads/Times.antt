-- ===== src/Threads/Times.antt =====
-- hw4/userthread.cpp, lines 502 to 535 and 820 to 830, and hw4/userthread_aging.cpp, lines 517 to 523:
-- the times of a thread and the estimates drawn from them.
use opearting_system.Base.{ℕ, ◌%◌, List, [], ◌∷◌, ltb, ◌==◌, if◌then◌else◌}
use opearting_system.Base.Int.{ℤ, pos, ◌+ℤ◌, ◌-ℤ◌, ◌/ℤ◌}
use opearting_system.Threads.State.{Thread, Platform, mean, aging, default_runtime}

module _ {R : Type 0} where
  unfoldable pub set_start_time : ℤ → Thread R → Thread R
  set_start_time now t = record t { start_time = now }

  unfoldable pub set_end_time : ℤ → Thread R → Thread R
  set_end_time now t = record t { end_time = now }

  -- The last run goes to one of three places in turn.
  unfoldable pub store_time : Thread R → Thread R
  store_time t =
      let count = t.yield_count % 3 in
      let time = t.end_time -ℤ t.start_time in
      if count == 0
      then record t { time_first = time }
      else if count == 1
      then record t { time_second = time }
      else record t { time_third = time }

  unfoldable pub mean_time : Thread R → ℤ
  mean_time t = (t.time_first +ℤ t.time_second +ℤ t.time_third) /ℤ 3

  module _ (p : Platform R) where
    unfoldable pub estimate_mean : Thread R → Thread R
    estimate_mean t =
        let u = store_time t in
        if ltb 2 u.yield_count then record u { estimated_runtime = p.of_long (mean_time u) } else u

    unfoldable pub estimate_aging : Thread R → Thread R
    estimate_aging t =
        let time = t.end_time -ℤ t.start_time in
        record t {
          estimated_runtime = p.add (p.halve (p.of_long time)) (p.halve t.estimated_runtime);
        }

    unfoldable pub set_estimated_time : Thread R → Thread R
    set_estimated_time t = elim p.version [ mean ↦ estimate_mean t | aging ↦ estimate_aging t ]

    pub sum_estimates : R → List (Thread R) → R
    sum_estimates acc [] = acc
    sum_estimates acc (t ∷ ts) = sum_estimates (p.add acc t.estimated_runtime) ts

    -- `result` is divided by `thread_count`, not by the length of the list.
    unfoldable pub average_time_so_far : ℕ → List (Thread R) → R
    average_time_so_far thread_count [] = p.of_long (pos default_runtime)
    average_time_so_far thread_count (t ∷ ts) =
        p.quotient (sum_estimates (p.of_long (pos 0)) (t ∷ ts)) thread_count
