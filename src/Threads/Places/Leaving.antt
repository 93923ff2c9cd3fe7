-- ===== src/Threads/Places/Leaving.antt =====
-- What `my_scheduler` does to the sums on behalf of the current thread, whichever way it leaves.
use opearting_system.Base.Sums.{occurs, one, weigh-snoc}
use opearting_system.Base.{
  ℕ, ◌+◌, ◌≤◌, ◌≡◌, refl, Option, none, some, List, [], arith, ap, sym, ◌∙◌,
}
use opearting_system.Base.Int.{ℤ}
use opearting_system.Threads.State.{
  Thread, fifo, sjf, priority, Status, created, scheduled, stopped, finished, yielded, Library,
  Platform, Inputs, find_by_tid, write,
}
use opearting_system.Threads.Scheduler.{
  picked, nobody, undefined, settle, push_sjf, push_suspended, choose_next_thread, after_finished,
  end_run, yield_fifo, yield_sjf, yield_pri, after_yield, suspend, after_stopped, after_current,
}
use opearting_system.Threads.Places.{ready, named, waiting, stored}
use opearting_system.Threads.Places.Lists.{find-named, weigh-modify, weigh-modify_same, All-modify}
use opearting_system.Threads.Places.Choose.{
  Frame, NoneReady, Taken, IsPriorityQueue, choose_next_thread-Taken,
}
use opearting_system.Threads.Places.Wake.{Woken, Known, wake-Woken, push_sjf-Joined}
use opearting_system.Threads.Places.Branches.{
  HasLevel, Keeps, Accounted, IsQuiet, write-quiet, settle-Accounted, yield_fifo-Accounted,
  yield_pri-Accounted, end_run-IsQuiet,
}
use mathlib.Core.Path.{subst}

-- What joins a queue: the thread that leaves, unless it has finished.
abbrev pub kept_as : Status → ℕ → ℕ → ℕ
kept_as finished id x = 0
kept_as _ id x = one x id

module _ {R : Type 0} where
  -- After a quiet write, and then one id taken.
  chosen_quietly :
      (id next : ℕ) (f : Thread R → Thread R) (s v : Library R)
      → IsQuiet f
      → Frame (write id f s) v × ((x : ℕ) → one x next + ready x v ≡ ready x (write id f s))
      → Keeps s v
        × (v.current_active ≡ s.current_active)
        × ((x : ℕ) → one x next + stored x v ≡ stored x s)
  chosen_quietly id next f s v q ((f1, f2, f3, f4, f5), taken) =
      let (k, w) = write-quiet id f s q in
      (
        (f1, f2, f3, (λ x. rw f5 (k.3 x)), (λ a. rw f5 (k.4 a))),
        f4,
        λ x. omega (arith, taken x, w x, ap (waiting x) f5),
      )

  nobody_quietly :
      (kept : ℕ → ℕ) (id : ℕ) (f : Thread R → Thread R) (s : Library R)
      → IsQuiet f
      → NoneReady (write id f s)
      → Accounted kept s (nobody (write id f s))
  nobody_quietly kept id f s q n =
      let (k, w) = write-quiet id f s q in (k, n, λ x. omega (arith, w x))

  abbrev pub Allowed : Status → Option ℕ → List (Thread R) → Type 0
  Allowed stopped wait ts = (w : ℕ) × (wait ≡ some w) × (1 ≤ named w ts)
  Allowed finished wait ts = Unit
  Allowed yielded wait ts = Unit
  Allowed created wait ts = ⊥
  Allowed scheduled wait ts = ⊥

  -- A thread comes to the scheduler as one that yields, has finished, or waits for a thread.
  abbrev pub MayLeave : Thread R → List (Thread R) → Type 0
  MayLeave t ts = Allowed t.status t.wait_tid ts

  module _ (p : Platform R) (queue : IsPriorityQueue p.extract) (i : Inputs) where
    sjf-Accounted :
        (t : Thread R) (s : Library R) (c : ℤ) (r : Option (ℕ × Library R))
        → Taken (NoneReady (write t.tid (end_run p i) s)) (write t.tid (end_run p i) s) r
        → Accounted
            (λ x. one x t.tid)
            s
            (elim r [
              | none ↦ nobody (write t.tid (end_run p i) s)
              | some (id, v) ↦ picked id (push_sjf t.tid c v)
            ])
    sjf-Accounted t s c none h =
        nobody_quietly (λ x. one x t.tid) t.tid (end_run p i) s (end_run-IsQuiet p i) h
    sjf-Accounted t s c (some (id, v)) h =
        let (k, cur, e) = chosen_quietly t.tid id (end_run p i) s v (end_run-IsQuiet p i) h in
        (k, cur, λ x. omega (arith, e x, (push_sjf-Joined t.tid c v).1 x))

    yield_sjf-Accounted :
        (t : Thread R) (s : Library R) → Accounted (λ x. one x t.tid) s (yield_sjf p i t s)
    unfolding yield_sjf
    yield_sjf-Accounted t s =
        sjf-Accounted t s (p.to_int (end_run p i t).estimated_runtime) _
          (choose_next_thread-Taken p queue i (write t.tid (end_run p i) s))

    after_yield-Accounted :
        (t : Thread R) (s : Library R)
        → HasLevel t
        → Accounted (λ x. one x t.tid) s (after_yield p i t s)
    unfolding after_yield
    after_yield-Accounted t s l =
        elim s.policy
            as (λ q.
              s.policy ≡ q
              → Accounted (λ x. one x t.tid) s
                  (elim q [
                    | fifo ↦ yield_fifo p i t s
                    | sjf ↦ yield_sjf p i t s
                    | priority ↦ yield_pri p i t s
                  ])) [
                    | fifo ↦ λ e. yield_fifo-Accounted p queue i t s e
                    | sjf ↦ λ e. yield_sjf-Accounted t s
                    | priority ↦ λ e. yield_pri-Accounted p queue i t s e l
                  ]
          refl

    -- Joining the suspended queue of `w`.
    suspended :
        (id next w : ℕ) (s v : Library R) (u : Thread R)
        → find_by_tid w v.thread_list ≡ some u
        → Keeps s v
        → v.current_active ≡ s.current_active
        → ((x : ℕ) → one x next + stored x v ≡ stored x s)
        → Accounted (λ x. one x id) s (picked next (write w (push_suspended id) v))
    suspended id next w s v u found k c taken = (
      (
        k.0,
        k.1,
        k.2,
        (λ x.
            weigh-modify_same (λ t. one x t.tid) w (push_suspended id) (λ t. refl) v.thread_list
            ∙ k.3 x),
        λ a. All-modify HasLevel w (push_suspended id) (λ t h. h) v.thread_list (k.4 a),
      ),
      c,
      λ x. omega (
        arith,
        taken x,
        weigh-modify (λ t. occurs x t.suspended_queue) w (push_suspended id) v.thread_list u found,
        weigh-snoc (one x) u.suspended_queue id,
      ),
    )

    suspend-Accounted :
        (t : Thread R) (w id : ℕ) (s v : Library R)
        → t.wait_tid ≡ some w
        → 1 ≤ named w s.thread_list
        → Keeps s v
        → v.current_active ≡ s.current_active
        → ((x : ℕ) → one x id + stored x v ≡ stored x s)
        → Accounted (λ x. one x t.tid) s (suspend p i t id v)
    unfolding suspend
    suspend-Accounted t w id s v e n k c taken =
        let (u, found) = find-named w v.thread_list (rw (k.3 w) n) in
        let computes : suspend p i t id v ≡ picked id (write w (push_suspended t.tid) v) =
          ground arith in
        subst (λ r. Accounted (λ x. one x t.tid) s r) (sym computes)
          (suspended t.tid id w s v u found k c taken)

    stopped-Accounted :
        (t : Thread R) (w : ℕ) (s u : Library R) (r : Option (ℕ × Library R))
        → t.wait_tid ≡ some w
        → 1 ≤ named w s.thread_list
        → Keeps s u
        → u.current_active ≡ s.current_active
        → ((x : ℕ) → stored x u ≡ stored x s)
        → Taken (NoneReady u) u r
        → Accounted
            (λ x. one x t.tid)
            s
            (elim r [ none ↦ nobody u | some (id, v) ↦ suspend p i t id v ])
    stopped-Accounted t w s u none e n k c same h = (k, h, same)
    stopped-Accounted t w s u (some (id, v)) e n k c same ((f1, f2, f3, f4, f5), taken) =
        suspend-Accounted t w id s v e n (cc, cc, cc, (λ x. rw f5 (k.3 x)), (λ a. rw f5 (k.4 a)))
          (f4 ∙ c) (λ x. omega (arith, taken x, same x, ap (waiting x) f5))

    after_stopped-Accounted :
        (t : Thread R) (w : ℕ) (s : Library R)
        → t.wait_tid ≡ some w
        → 1 ≤ named w s.thread_list
        → Accounted (λ x. one x t.tid) s (after_stopped p i t s)
    unfolding after_stopped
    after_stopped-Accounted t w s e n =
        let ended = write-quiet t.tid (end_run p i) s (end_run-IsQuiet p i) in
        let unchanged =
          stopped-Accounted t w s s (choose_next_thread p i s) e n
            (refl, refl, refl, (λ x. refl), λ a. a) refl (λ x. refl)
            (choose_next_thread-Taken p queue i s) in
        elim s.policy
          as (λ q.
            let u : Library R = elim q [ sjf ↦ write t.tid (end_run p i) s | _ ↦ s ] in
            Accounted (λ x. one x t.tid) s
              (elim (choose_next_thread p i u) [
                | none ↦ nobody u
                | some (id, v) ↦ suspend p i t id v
              ])) [
                | fifo ↦ unchanged
                | sjf ↦
                    stopped-Accounted t w s (write t.tid (end_run p i) s) _ e n ended.0 refl
                      (λ x. omega (arith, ended.1 x))
                      (choose_next_thread-Taken p queue i (write t.tid (end_run p i) s))
                | priority ↦ unchanged
              ]

    finished-Accounted :
        (t u : Thread R) (s : Library R) (r : Option (Library R))
        → find_by_tid t.tid s.thread_list ≡ some u
        → u.suspended_queue ≡ t.suspended_queue
        → Woken t.suspended_queue (write t.tid (λ a. record a { suspended_queue = [] }) s) r
        → Accounted
            (λ x. 0)
            s
            (elim r [ none ↦ undefined | some woken ↦ settle woken (choose_next_thread p i woken) ])
    finished-Accounted t u s none found same h = h
    finished-Accounted t u s (some v) found same ((f1, f2, f3, f4, f5), j) =
        let clear = λ (a : Thread R). record a { suspended_queue = [] } in
        settle-Accounted (λ x. 0) s v (choose_next_thread p i v)
          (
            f1,
            f2,
            f3,
            (λ x.
                rw f5 (weigh-modify_same (λ t. one x t.tid) t.tid clear (λ t. refl) s.thread_list)),
            λ a. rw f5 (All-modify HasLevel t.tid clear (λ t h. h) s.thread_list a),
          )
          f4
          (λ x. omega (
            arith,
            j x,
            ap (waiting x) f5,
            weigh-modify (λ t. occurs x t.suspended_queue) t.tid clear s.thread_list u found,
            ap (occurs x) same,
          ))
          (λ n x. refl) (choose_next_thread-Taken p queue i v)

    after_finished-Accounted :
        (t u : Thread R) (s : Library R)
        → find_by_tid t.tid s.thread_list ≡ some u
        → u.suspended_queue ≡ t.suspended_queue
        → Known t.suspended_queue s
        → Accounted (λ x. 0) s (after_finished p i t s)
    unfolding after_finished
    after_finished-Accounted t u s found same known =
        let clear = λ (a : Thread R). record a { suspended_queue = [] } in
        finished-Accounted t u s _ found same (
          wake-Woken p i t.suspended_queue (write t.tid clear s) (λ x m.
            rw (weigh-modify_same (λ t. one x t.tid) t.tid clear (λ t. refl) s.thread_list)
              (known x m)))

    -- Every branch that a thread may take.
    pub after_current-Accounted :
        (t u : Thread R) (s : Library R)
        → find_by_tid t.tid s.thread_list ≡ some u
        → u.suspended_queue ≡ t.suspended_queue
        → Known t.suspended_queue s
        → HasLevel t
        → MayLeave t s.thread_list
        → Accounted (kept_as t.status t.tid) s (after_current p i t s)
    unfolding after_current
    after_current-Accounted t u s found same known l may =
        elim t.status
            as (λ q.
              Allowed q t.wait_tid s.thread_list
              → Accounted (kept_as q t.tid) s (elim q [
                | finished ↦ after_finished p i t s
                | yielded ↦ after_yield p i t s
                | stopped ↦ after_stopped p i t s
                | created ↦ undefined
                | scheduled ↦ undefined
              ])) [
                | created ↦ λ h. absurd h
                | scheduled ↦ λ h. absurd h
                | stopped ↦ λ (w, e, n). after_stopped-Accounted t w s e n
                | finished ↦ λ h. after_finished-Accounted t u s found same known
                | yielded ↦ λ h. after_yield-Accounted t s l
              ]
          may
