-- ===== src/Baboons/Process.antt =====
-- One baboon: `fly_Baboons_Fly` of hw3/baboon39.c and hw3/baboon40.c, an access to shared memory or
-- to a semaphore at a time.
use opearting_system.Base.{ℕ, suc, ◌+◌, ◌≡◌, ◌≢◌, Bool, true, false, if◌then◌else◌}

-- The macros EAST and WEST.
pub data Dir : Type 0 where
  east west : Dir

abbrev pub same : Dir → Dir → Bool
same east east = true
same west west = true
same _ _ = false

-- The two programs: baboon40.c has the semaphore `starvation` besides.
pub data Version : Type 0 where
  baboon39 baboon40 : Version

-- The values of the semaphores, and `twoSideBaboons`.
pub record Shared : Type 0 where
  pub direction_lock : Dir → ℕ
  pub rope_lock : ℕ
  pub starvation : ℕ
  pub two_side : Dir → ℕ

abbrev pub put : (Dir → ℕ) → Dir → ℕ → Dir → ℕ
put f d v d' = if same d d' then v else f d'

-- Where a baboon stands, with its direction and the local value that is live there.
pub data Pc : Type 0 where
  arriving : Dir → Pc  -- before `sem_wait(starvation)`
  queued : Dir → Pc  -- before `sem_wait(directionLock[direction])`
  entering : Dir → Pc  -- before `twoSideBaboons[direction]++`
  read_in : Dir → ℕ → Pc  -- between its load and its store
  entered : Dir → Pc  -- before the test for 1
  need_rope : Dir → Pc  -- before `sem_wait(ropeLock)`
  boarding : Dir → Pc  -- `onRope`, before `sem_post(directionLock[direction])`
  boarded : Dir → Pc  -- before `sem_post(starvation)`
  crossing : Dir → Pc  -- `cross`, before the second `sem_wait(directionLock[direction])`
  leaving : Dir → Pc  -- before `twoSideBaboons[direction]--`
  read_out : Dir → ℕ → Pc  -- between its load and its store
  left : Dir → Pc  -- before the test for 0
  give_rope : Dir → Pc  -- before `sem_post(ropeLock)`
  unlocking : Dir → Pc  -- before the last `sem_post(directionLock[direction])`
  finished : Dir → Pc

-- One step. `sem_wait` takes a step only at a positive value. A decrement of 0 has no step: it never
-- comes to that.
pub data Move (v : Version) (m : Shared) : Pc → Shared → Pc → Type 0 where
  pass : {d : Dir} → v ≡ baboon39 → Move v m (arriving d) m (queued d)
  wait_turn :
      {d : Dir} {k : ℕ}
      → v ≡ baboon40
      → m.starvation ≡ suc k
      → Move v m (arriving d) (record m { starvation = k }) (queued d)
  lock_in :
      {d : Dir} {k : ℕ}
      → m.direction_lock d ≡ suc k
      → Move v m (queued d) (record m { direction_lock = put m.direction_lock d k }) (entering d)
  load_in : {d : Dir} → Move v m (entering d) m (read_in d (m.two_side d))
  store_in :
      {d : Dir} {c : ℕ}
      → Move v m (read_in d c) (record m { two_side = put m.two_side d (c + 1) }) (entered d)
  first_in : {d : Dir} → m.two_side d ≡ 1 → Move v m (entered d) m (need_rope d)
  later_in : {d : Dir} → m.two_side d ≢ 1 → Move v m (entered d) m (boarding d)
  take_rope :
      {d : Dir} {k : ℕ}
      → m.rope_lock ≡ suc k
      → Move v m (need_rope d) (record m { rope_lock = k }) (boarding d)
  unlock_in :
      {d : Dir}
      → Move v m
          (boarding d)
          (record m { direction_lock = put m.direction_lock d (m.direction_lock d + 1) })
          (boarded d)
  skip_turn : {d : Dir} → v ≡ baboon39 → Move v m (boarded d) m (crossing d)
  give_turn :
      {d : Dir}
      → v ≡ baboon40
      → Move v m (boarded d) (record m { starvation = m.starvation + 1 }) (crossing d)
  lock_out :
      {d : Dir} {k : ℕ}
      → m.direction_lock d ≡ suc k
      → Move v m (crossing d) (record m { direction_lock = put m.direction_lock d k }) (leaving d)
  load_out : {d : Dir} → Move v m (leaving d) m (read_out d (m.two_side d))
  store_out :
      {d : Dir} {c k : ℕ}
      → c ≡ suc k
      → Move v m (read_out d c) (record m { two_side = put m.two_side d k }) (left d)
  last_out : {d : Dir} → m.two_side d ≡ 0 → Move v m (left d) m (give_rope d)
  others_out : {d : Dir} → m.two_side d ≢ 0 → Move v m (left d) m (unlocking d)
  drop_rope :
      {d : Dir} → Move v m (give_rope d) (record m { rope_lock = m.rope_lock + 1 }) (unlocking d)
  unlock_out :
      {d : Dir}
      → Move v m
          (unlocking d)
          (record m { direction_lock = put m.direction_lock d (m.direction_lock d + 1) })
          (finished d)
