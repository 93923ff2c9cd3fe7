-- ===== src/Threads/RoundRobin/Refine.antt =====
-- `my_scheduler` under FIFO takes the steps of the queue of ids.
use mathlib.Core.Path.{subst}
use mathlib.Core.List.{append-nil, append_assoc}
use opearting_system.Base.Sums.{occurs, one, one_self, weigh-append}
use opearting_system.Base.{
  ℕ, ◌≡◌, ◌≤◌, refl, sym, ap, ◌∙◌, Bool, true, false, none, some, List, [], ◌∷◌, ◌++◌, arith, inl,
  inr,
}
use opearting_system.Threads.State.{
  Thread, Library, Platform, Inputs, fifo, stopped, yielded, finished, find_by_tid, write, mask,
}
use opearting_system.Threads.Queues.{choose_next_thread_fifo}
use opearting_system.Threads.Scheduler.{
  settle, push_fifo, push_suspended, wake_fifo, wake, choose_next_thread, after_finished,
  after_yield, yield_fifo, suspend, after_stopped, after_current, resume, go_main, dispatch_thread,
  my_scheduler,
}
use opearting_system.Threads.Places.{named, placed, here}
use opearting_system.Threads.Places.Lists.{
  weigh-find, weigh-modify_same, find-named, find-modify_self,
}
use opearting_system.Threads.Places.Branches.{write-quiet}
use opearting_system.Threads.Places.Turn.{mask_lem}
use opearting_system.Threads.RoundRobin.{
  Robin, next, rotate, leave, wait_for, set_waiters, suspended_of, view,
}
use opearting_system.Threads.RoundRobin.Turns.{
  List-cases, view-quiet, view-suspended, Shows, QueueKnown, turn-next, turn-dispatch, turn-main,
}

module _ {R : Type 0} where
  -- The ids of a queue are known if each stands in the state in which all ids are.
  known_queue :
      (s u : Library R)
      → ((x : ℕ) → placed x s ≤ named x s.thread_list)
      → ((x : ℕ) → named x u.thread_list ≡ named x s.thread_list)
      → ((x : ℕ) → occurs x u.ready_fifo ≤ placed x s)
      → QueueKnown u
  known_queue s u all names le id rest e =
      find-named id u.thread_list
        (omega (arith, all id, names id, le id, ap (occurs id) e, one_self id))

  wake_fifo_lem :
      (ids : List ℕ) (s : Library R)
      → wake_fifo ids s ≡ record s { ready_fifo = s.ready_fifo ++ ids }
  unfolding wake_fifo
  wake_fifo_lem [] s = ap (λ q. record s { ready_fifo = q }) (sym (append-nil s.ready_fifo))
  wake_fifo_lem (id ∷ ids) s =
      wake_fifo_lem ids (push_fifo id s)
      ∙ ap (λ q. record s { ready_fifo = q }) (append_assoc s.ready_fifo (id ∷ []) ids)

  module _ (p : Platform R) (i : Inputs) where
    -- The state in which a branch starts.
    abbrev left : Thread R → Bool → Library R → Library R
    left t c s = write t.tid (λ u. record u { active = false }) (record s { blocked = c })

    view-left : (t : Thread R) (c : Bool) (s : Library R) → view (left t c s) ≡ view s
    unfolding view
    view-left t c s =
        view-quiet t.tid (λ u. record u { active = false }) (record s { blocked = c }) (λ u. refl)
          (λ u. refl)

    -- A suspended queue is set in the state in which a branch starts.
    view-set :
        (t u : Thread R) (s : Library R) (id : ℕ) (f : Thread R → Thread R) (c : Bool)
        → ((u : Thread R) → (f u).tid ≡ u.tid)
        → find_by_tid id (left t c s).thread_list ≡ some u
        → view (write id f (left t c s))
          ≡ record (view s) { waiters = set_waiters id (f u).suspended_queue (view s).waiters }
    view-set t u s id f c same h =
        view-suspended id f (left t c s) u same h
        ∙ ap (λ (m : Robin). record m { waiters = set_waiters id (f u).suspended_queue m.waiters })
            (view-left t c s)

    module _ (t : Thread R) (s : Library R) (policy : s.policy ≡ fifo)
        (active : s.current_active ≡ some t.tid) (found : find_by_tid t.tid s.thread_list ≡ some t)
        (all : (x : ℕ) → placed x s ≤ named x s.thread_list) where
      pub turn-yielded : t.status ≡ yielded → Shows (rotate t.tid (view s)) (my_scheduler p i s)
      unfolding my_scheduler after_current after_yield yield_fifo rotate view
      turn-yielded e =
          let (c, masked) = mask_lem true s in
          let u = push_fifo t.tid (left t c s) in
          let names =
            (write-quiet t.tid (λ (u : Thread R). record u { active = false }) s
              (λ u. (refl, refl, refl))).0.3 in
          let computes : my_scheduler p i s ≡ resume p i (settle u (choose_next_thread p i u)) =
            ground (arith, policy, active, found, masked, e) in
          let spec : rotate t.tid (view s) ≡ next (view u) =
            ap (λ (m : Robin). next (record m { queue = m.queue ++ t.tid ∷ [] }))
              (sym (view-left t c s)) in
          subst (Shows (rotate t.tid (view s))) (sym computes) (
            subst (λ m. Shows m (resume p i (settle u (choose_next_thread p i u)))) (sym spec)
              (turn-next p i u policy (
                known_queue s u all names (λ x.
                  omega
                    (arith, weigh-append (one x) s.ready_fifo (t.tid ∷ []), ap (here x) active)))))

      pub turn-finished : t.status ≡ finished → Shows (leave t.tid (view s)) (my_scheduler p i s)
      unfolding my_scheduler after_current after_finished wake leave view
      turn-finished e =
          let (c, masked) = mask_lem true s in
          let clear = λ (u : Thread R). record u { suspended_queue = [] } in
          let idle = λ (u : Thread R). record u { active = false } in
          let start = left t c s in
          let emptied : Library R = write t.tid clear start in
          let u : Library R = record emptied { ready_fifo = s.ready_fifo ++ t.suspended_queue } in
          let names : (x : ℕ) → named x u.thread_list ≡ named x s.thread_list = λ x.
            weigh-modify_same (λ u. one x u.tid) t.tid clear (λ u. refl) start.thread_list
            ∙ weigh-modify_same (λ u. one x u.tid) t.tid idle (λ u. refl) s.thread_list in
          let computes : my_scheduler p i s ≡ resume p i (settle u (choose_next_thread p i u)) =
            ground
              (arith, policy, active, found, masked, e, wake_fifo_lem t.suspended_queue emptied) in
          let there = find-modify_self t.tid idle s.thread_list t (λ u. refl) found in
          let spec : leave t.tid (view s) ≡ next (view u) =
            ap
              (λ o. next (record (view s) {
                queue = s.ready_fifo ++ suspended_of o;
                waiters = set_waiters t.tid [] (view s).waiters;
              }))
              found
            ∙ ap (λ (m : Robin). next (record m { queue = s.ready_fifo ++ t.suspended_queue }))
                (sym (view-set t (idle t) s t.tid clear c (λ u. refl) there)) in
          subst (Shows (leave t.tid (view s))) (sym computes) (
            subst (λ m. Shows m (resume p i (settle u (choose_next_thread p i u)))) (sym spec)
              (turn-next p i u policy (
                known_queue s u all names (λ x. omega (
                  arith,
                  weigh-append (one x) s.ready_fifo t.suspended_queue,
                  weigh-find (λ u. occurs x u.suspended_queue) t.tid s.thread_list t found,
                )))))

      -- The next thread runs, and this one stands at the end of the suspended queue of `w`.
      pub turn-stopped :
          (w : ℕ)
          → t.status ≡ stopped
          → t.wait_tid ≡ some w
          → 1 ≤ named w s.thread_list
          → Shows (wait_for t.tid w (view s)) (my_scheduler p i s)
      unfolding my_scheduler after_current after_stopped suspend choose_next_thread
          choose_next_thread_fifo resume wait_for view
      turn-stopped w e wait target =
          let (c, masked) = mask_lem true s in
          let idle = λ (u : Thread R). record u { active = false } in
          let start = left t c s in
          let names : (x : ℕ) → named x start.thread_list ≡ named x s.thread_list =
            λ x. weigh-modify_same (λ u. one x u.tid) t.tid idle (λ u. refl) s.thread_list in
          elim (List-cases s.ready_fifo) [
            | inl empty ↦
                let computes : my_scheduler p i s ≡ go_main p i (mask false start) =
                  ground (arith, policy, active, found, masked, e, empty) in
                let spec : wait_for t.tid w (view s) ≡ record (view start) { running = none } =
                  ground (arith, empty, view-left t c s) in
                subst (Shows (wait_for t.tid w (view s))) (sym computes) (
                  subst (λ m. Shows m (go_main p i (mask false start))) (sym spec)
                    (turn-main p i start policy))
            | inr (x, rest, front) ↦
                let (u, there) = find-named w start.thread_list (rw (names w) target) in
                let push = push_suspended {R = R} t.tid in
                let taken : Library R = write w push (record start { ready_fifo = rest }) in
                let computes : my_scheduler p i s ≡ dispatch_thread p i x taken =
                  ground (arith, policy, active, found, masked, e, front, wait, there) in
                let waits : wait_for t.tid w (view s) ≡ record (view s) {
                  running = some x;
                  queue = rest;
                  waiters = set_waiters w ((view s).waiters w ++ t.tid ∷ []) (view s).waiters;
                } =
                  ground (arith, front) in
                let queued : u.suspended_queue ≡ (view s).waiters w =
                  ap suspended_of (sym there) ∙ ap (λ (m : Robin). m.waiters w) (view-left t c s) in
                let spec : wait_for t.tid w (view s) ≡ record (view taken) { running = some x } =
                  waits
                  ∙ ap
                      (λ q. record (view s) {
                        running = some x;
                        queue = rest;
                        waiters = set_waiters w (q ++ t.tid ∷ []) (view s).waiters;
                      })
                      (sym queued)
                  ∙ ap (λ (m : Robin). record m { running = some x; queue = rest })
                      (sym (view-set t u s w push c (λ u. refl) there)) in
                let (n, known) = find-named x taken.thread_list (
                  omega (
                    arith,
                    weigh-modify_same (λ u. one x u.tid) w push (λ u. refl) start.thread_list,
                    names x,
                    all x,
                    ap (occurs x) front,
                    one_self x,
                  )) in
                subst (Shows (wait_for t.tid w (view s))) (sym computes) (
                  subst (λ m. Shows m (dispatch_thread p i x taken)) (sym spec)
                    (turn-dispatch p i x n taken policy known))
          ]
