-- ===== src/Route/Prober/Progress.antt =====
-- intermediate-proxy/src/route/prober.rs: a round of the route prober keeps to its permits and can end.
use proxy_systems.Common.{ℕ, max, ◌≤◌, ◌≡◌, List, [], none, length, arith}
use proxy_systems.Common.Results.{Result, err}
use proxy_systems.Proxy.Entry.{RouteId}
use proxy_systems.Proxy.Store.{Addr, Store}
use proxy_systems.Route.Def.{RouteDef}
use proxy_systems.Route.Rounds.{Event}
use proxy_systems.Route.Rounds.Permits.{run_events-running, idle, CanEnd-idle}
use proxy_systems.Route.Prober.{ProbeReply, visit, finish_probe, all_pairs, probe_round}
use proxy_systems.Lua.{ProbeOutcome}

-- A round of the route prober that starts with no task in flight never has more than `max_concurrent`
-- tasks in flight, or one where that is 0, in whatever order the loop and its tasks take their steps;
-- and some such order leads to its end, where every proxy is visited and no task is left.
pub probe_round-ends :
    (probe_classify : RouteId → ProbeReply → List ℕ → ProbeOutcome)
    → (max_concurrent now : ℕ) (routes : List RouteDef) (entries : List Addr) (s : Store)
    → ((events : List (Event (Result ProbeReply)))
        → length (probe_round probe_classify max_concurrent now routes entries events [] s).running
          ≤ max max_concurrent 1)
      × ((events : List (Event (Result ProbeReply))) × (s' : Store) × (probe_round probe_classify
              max_concurrent now routes entries events [] s
            ≡ record { todo = []; waiting = none; running = []; store = s' }))
unfolding probe_round
probe_round-ends probe_classify max_concurrent now routes entries s = (
  λ events.
      run_events-running (max max_concurrent 1) (visit now) (finish_probe probe_classify) events
        (idle (max max_concurrent 1) (visit now) (finish_probe probe_classify)
          (all_pairs routes entries) none s)
        (omega arith),
  CanEnd-idle (max max_concurrent 1) (visit now) (finish_probe probe_classify) (err [])
      (omega arith) (all_pairs routes entries) s,
)
