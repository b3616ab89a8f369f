-- ===== src/Route/Rounds/Permits.antt =====
-- intermediate-proxy/src/route/prober.rs: the semaphore bounds the tasks, and no round gets stuck.
use proxy_systems.Common.{
  ℕ, zero, suc, ◌≤◌, ◌≡◌, refl, sym, subst, List, [], ◌∷◌, ◌++◌, Option, none, some, length, take,
  drop, arith, length-append,
}
use proxy_systems.Proxy.Store.{Store}
use proxy_systems.Route.Rounds.{
  Rounds, Event, advance, ended, acquire, visit_next, advance_from, end_task, step, run_events,
}

length-remove :
    {A : Type 0} (i : ℕ) (xs : List A) → length (take i xs ++ drop (suc i) xs) ≤ length xs
length-remove zero [] = omega arith
length-remove (suc i) [] = omega arith
length-remove zero (x ∷ xs) = omega arith
length-remove (suc i) (x ∷ xs) = omega (arith, length-remove i xs)

module _ {T J R : Type 0} (permits : ℕ) (visit : T → Store → Option J × Store)
    (finish : J → R → Store → Store) where
  visit_next-running :
      (ts : List T) (r : Rounds T J)
      → length r.running ≤ permits
      → length (visit_next permits visit finish ts r).running ≤ permits
  unfolding visit_next
  visit_next-running [] r l = l
  visit_next-running (t ∷ ts) r l = l

  advance_from-running :
      (w : Option J) (r : Rounds T J)
      → length r.running ≤ permits
      → length (advance_from permits visit finish w r).running ≤ permits
  unfolding advance_from acquire
  advance_from-running (some job) r l = ground (arith, length-append r.running (job ∷ []))
  advance_from-running none r l = visit_next-running r.todo r l

  end_task-running :
      (i : ℕ) (job : Option J) (answer : R) (r : Rounds T J)
      → length r.running ≤ permits
      → length (end_task permits visit finish i job answer r).running ≤ permits
  unfolding end_task
  end_task-running i none answer r l = l
  end_task-running i (some job) answer r l = omega (arith, length-remove i r.running)

  step-running :
      (e : Event R) (r : Rounds T J)
      → length r.running ≤ permits
      → length (step permits visit finish e r).running ≤ permits
  unfolding step
  step-running advance r l = advance_from-running r.waiting r l
  step-running (ended i answer) r l = end_task-running i _ answer r l

  pub run_events-running :
      (es : List (Event R)) (r : Rounds T J)
      → length r.running ≤ permits
      → length (run_events permits visit finish es r).running ≤ permits
  unfolding run_events
  run_events-running [] r l = l
  run_events-running (e ∷ es) r l =
      run_events-running es (step permits visit finish e r) (step-running e r l)

  -- The state between two tasks, with nothing in flight.
  abbrev pub idle : List T → Option J → Store → Rounds T J
  idle ts w s = record { todo = ts; waiting = w; running = []; store = s }

  -- Some schedule leads from the state to the end of the round.
  abbrev pub CanEnd : Rounds T J → Type 0
  CanEnd r =
      (es : List (Event R)) × (s : Store) × (run_events permits visit finish es r ≡ idle [] none s)

  CanEnd-step : (e : Event R) (r : Rounds T J) → CanEnd (step permits visit finish e r) → CanEnd r
  unfolding run_events
  CanEnd-step e r (es, s, p) = (e ∷ es, s, p)

  module _ (answer : R) (enough : 1 ≤ permits) where
    CanEnd-waiting :
        (job : J) (ts : List T) (s : Store)
        → ((s' : Store) → CanEnd (idle ts none s'))
        → CanEnd (idle ts (some job) s)
    unfolding step advance_from acquire end_task
    CanEnd-waiting job ts s later = CanEnd-step advance (idle ts (some job) s) (
        subst CanEnd (sym taken)
          (CanEnd-step (ended 0 answer) flying (later (finish job answer s))))
      where
        flying : Rounds T J
        flying = record { todo = ts; waiting = none; running = job ∷ []; store = s }

        taken : step permits visit finish advance (idle ts (some job) s) ≡ flying
        taken = ground arith

    CanEnd-visited :
        (w : Option J) (ts : List T) (s : Store)
        → ((s' : Store) → CanEnd (idle ts none s'))
        → CanEnd (idle ts w s)
    CanEnd-visited none ts s later = later s
    CanEnd-visited (some job) ts s later = CanEnd-waiting job ts s later

    pub CanEnd-idle : (ts : List T) (s : Store) → CanEnd (idle ts none s)
    unfolding step advance_from visit_next run_events
    CanEnd-idle [] s = ([], s, refl)
    CanEnd-idle (t ∷ ts) s =
        CanEnd-step advance _ (CanEnd-visited (visit t s).0 ts (visit t s).1 (CanEnd-idle ts))
