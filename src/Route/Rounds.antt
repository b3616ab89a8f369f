-- ===== src/Route/Rounds.antt =====
-- The loop that both probers of intermediate-proxy/src/route/prober.rs are: it walks over what may need
-- a probe, and a semaphore bounds the tasks that run at once. The order in which the loop and its tasks
-- take their steps is a list of events.
pub mod Permits
use proxy_systems.Common.{
  ℕ, zero, suc, ◌+◌, max, Bool, List, [], ◌∷◌, ◌++◌, Option, none, some, if◌then◌else◌, ltb, length,
  get_elem?, take, drop,
}
use proxy_systems.Proxy.Store.{Store}

-- What is left to visit, the task that waits for a permit, and the tasks that hold one.
pub record Rounds (T J : Type 0) : Type 0 where
  pub todo : List T
  pub waiting : Option J
  pub running : List J
  pub store : Store

-- The loop takes a step, or the request of the task at a place in `running` ends.
pub data Event (R : Type 0) : Type 0 where
  advance : Event R
  ended : ℕ → R → Event R

module _ {T J R : Type 0} (permits : ℕ) (visit : T → Store → Option J × Store)
    (finish : J → R → Store → Store) where
  -- `acquire_owned` and `tokio::spawn`: with no permit left, the loop stays where it is.
  unfoldable pub acquire : J → Rounds T J → Rounds T J
  acquire job r =
      if ltb (length r.running) permits
      then record r { waiting = none; running = r.running ++ job ∷ [] }
      else r

  unfoldable pub visit_next : List T → Rounds T J → Rounds T J
  visit_next [] r = r
  visit_next (t ∷ ts) r = record r {
    todo = ts;
    waiting = (visit t r.store).0;
    store = (visit t r.store).1;
  }

  unfoldable pub advance_from : Option J → Rounds T J → Rounds T J
  advance_from (some job) r = acquire job r
  advance_from none r = visit_next r.todo r

  -- The task sees the answer, and its permit is free again.
  unfoldable pub end_task : ℕ → Option J → R → Rounds T J → Rounds T J
  end_task i none answer r = r
  end_task i (some job) answer r = record r {
    running = take i r.running ++ drop (suc i) r.running;
    store = finish job answer r.store;
  }

  unfoldable pub step : Event R → Rounds T J → Rounds T J
  step advance r = advance_from r.waiting r
  step (ended i answer) r = end_task i (get_elem? r.running i) answer r

  unfoldable pub run_events : List (Event R) → Rounds T J → Rounds T J
  run_events [] r = r
  run_events (e ∷ es) r = run_events es (step e r)
