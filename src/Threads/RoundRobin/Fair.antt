-- ===== src/Threads/RoundRobin/Fair.antt =====
-- Under FIFO every thread that is ready has its turn.
use mathlib.Core.List.{append_assoc}
use opearting_system.Base.Sums.{one}
use opearting_system.Base.{
  ℕ, ◌≡◌, refl, ap, ◌∙◌, true, Option, some, List, [], ◌∷◌, ◌++◌, arith, suc, length,
}
use opearting_system.Threads.State.{
  Library, Platform, Inputs, fifo, Outcome, runs, fault, to_thread, to_main, returns, exits,
}
use opearting_system.Threads.Calls.{thread_yield}
use opearting_system.Threads.Session.{Request, yield, call, after_call, run}
use opearting_system.Threads.Places.{here}
use opearting_system.Threads.Places.Choose.{IsPriorityQueue}
use opearting_system.Threads.Places.Turn.{Ends, Turned}
use opearting_system.Threads.Sound.{IsSound, Turned-Sound}
use opearting_system.Threads.Sound.Halting.{thread_yield-Turned}
use opearting_system.Threads.RoundRobin.{Robin, next, rotate, view}
use opearting_system.Threads.RoundRobin.Turns.{Shows}
use opearting_system.Threads.RoundRobin.Promise.{yields, hand_over-promise}

abbrev pub yielding : List Inputs → List (Request × Inputs)
yielding [] = []
yielding (i ∷ is) = (yield, i) ∷ yielding is

module _ {R : Type 0} where
  -- The thread `id` has the processor under FIFO.
  abbrev pub Runs : ℕ → Library R → Type 0
  Runs id s = (s.policy ≡ fifo) × (s.initialized ≡ true) × (s.current_active ≡ some id) × IsSound s

  module _ (p : Platform R) where
    rotated :
        (id next_id : ℕ) (rest : List ℕ) (s t : Library R)
        → s.ready_fifo ≡ next_id ∷ rest
        → view t ≡ rotate id (view s)
        → (t.current_active ≡ some next_id) × (t.ready_fifo ≡ rest ++ id ∷ [])
    unfolding rotate next view
    rotated id next_id rest s t front shows =
        let turned : rotate id (view s)
            ≡ record (view s) { running = some next_id; queue = rest ++ id ∷ [] } =
          ground (arith, front) in
        (
          ap (λ (m : Robin). m.running) (shows ∙ turned),
          ap (λ (m : Robin). m.queue) (shows ∙ turned),
        )

    -- Both facts about one call.
    yielded_to :
        (id next_id : ℕ) (rest : List ℕ) (i : Inputs) (s : Library R) (o : Outcome R)
        → Runs id s
        → s.ready_fifo ≡ next_id ∷ rest
        → Shows (rotate id (view s)) o
        → Ends (Turned (λ x. one x id) i.timer_set s) o
        → (t : Library R) × ((k : Library R → Option (Library R)) → after_call p k o ≡ k t)
          × Runs next_id t
          × (t.ready_fifo ≡ rest ++ id ∷ [])
    unfolding after_call
    yielded_to id next_id rest i s fault ok front shows turned = absurd turned
    yielded_to id next_id rest i s (runs t (returns n)) ok front shows turned = absurd turned
    yielded_to id next_id rest i s (runs t exits) ok front shows turned = absurd turned
    yielded_to id next_id rest i s (runs t to_main) ok front shows turned =
        let (current, _) = rotated id next_id rest s t front shows.0 in cc
    yielded_to id next_id rest i s (runs t (to_thread x)) (_, init, active, sound) front shows
          turned =
        let (current, queue) = rotated id next_id rest s t front shows.0 in
        let (still, _) =
          Turned-Sound (λ x. one x id) i.timer_set s t (to_thread x)
            (λ x. omega (arith, ap (here x) active)) sound turned in
        (t, (λ k. refl), (shows.1, turned.0.0 ∙ init, current, still), queue)

  module _ (p : Platform R) (queue : IsPriorityQueue p.extract) where
    yield_once :
        (id next_id : ℕ) (rest : List ℕ) (i : Inputs) (s : Library R)
        → Runs id s
        → s.ready_fifo ≡ next_id ∷ rest
        → (t : Library R) × ((k : Library R → Option (Library R))
            → after_call p k (call p yield i s) ≡ k t)
          × Runs next_id t
          × (t.ready_fifo ≡ rest ++ id ∷ [])
    unfolding call
    yield_once id next_id rest i s (policy, init, active, sound) front =
        yielded_to p id next_id rest i s (thread_yield p i s) (policy, init, active, sound) front
          (hand_over-promise p queue i yields id s policy init active tt sound)
          (thread_yield-Turned p queue i id s init active sound)

    -- Under FIFO, in a sound state, if whoever has the processor yields, then the id `x` has it after
    -- one yield more than there are ids ahead of it in the ready queue. What stood ahead of it
    -- stands at the end of the queue then, in the same order, behind the id that ran first.
    pub run-fair :
        (ahead : List ℕ) (x : ℕ) (behind : List ℕ) (id : ℕ) (is : List Inputs) (s : Library R)
        → Runs id s
        → s.ready_fifo ≡ ahead ++ x ∷ behind
        → length is ≡ suc (length ahead)
        → (t : Library R) × (run p (yielding is) s ≡ some t)
          × Runs x t
          × (t.ready_fifo ≡ behind ++ id ∷ ahead)
    unfolding run
    run-fair ahead x behind id [] s ok front n = absurd (omega arith)
    run-fair [] x behind id (i ∷ []) s ok front n =
        let (t, e, good, q) = yield_once id x behind i s ok front in (t, e (run p []), good, q)
    run-fair [] x behind id (i ∷ j ∷ is) s ok front n = absurd (omega arith)
    run-fair (y ∷ ahead) x behind id (i ∷ is) s ok front n =
        let (t, e, good, q) = yield_once id y (ahead ++ x ∷ behind) i s ok front in
        let (u, f, fine, r) =
          run-fair ahead x (behind ++ id ∷ []) y is t good
            (q ∙ append_assoc ahead (x ∷ behind) (id ∷ [])) (omega arith) in
        (u, e (run p (yielding is)) ∙ f, fine, r ∙ append_assoc behind (id ∷ []) (y ∷ ahead))
