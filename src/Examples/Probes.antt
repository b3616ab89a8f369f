-- ===== src/Examples/Probes.antt =====
-- The theorems on the prober, at a dead proxy on a route with a probe.
use proxy_systems.Common.{ℕ, max, ◌≤◌, ◌≡◌, true, false, List, [], ◌∷◌, none, some, length}
use proxy_systems.Common.Text.{codes}
use proxy_systems.Common.Results.{Result}
use proxy_systems.Proxy.Entry.{RouteId, new_entry}
use proxy_systems.Proxy.Store.{Store}
use proxy_systems.Route.Def.{RouteDef, ProbeCfg, Selector}
use proxy_systems.Route.Rounds.{Event}
use proxy_systems.Route.Prober.{ProbeReply, probe_round}
use proxy_systems.Route.Prober.Progress.{probe_round-ends}
use proxy_systems.Lua.{ProbeOutcome, still_banned}
use proxy_systems.Examples.Fixtures.{first_url, route_with}

abbrev a_probe : ProbeCfg
a_probe = record {
  url = codes "http://x/ping";
  interval_ms = 600000;
  ok_statuses = 200 ∷ [];
  has_classify = false;
  headers = [];
}

abbrev probed : RouteDef
probed = record (route_with Selector.best_latency) { probe = some a_probe }

-- A store whose proxies are all dead.
abbrev dead_store : Store
dead_store = record {
  entry = λ a. record (new_entry first_url []) { transport_fatal = true };
  next = 1;
}

abbrev no_classifier : RouteId → ProbeReply → List ℕ → ProbeOutcome
no_classifier id reply oks = still_banned

probe_round-ends_example :
    ((events : List (Event (Result ProbeReply)))
      → length
          (probe_round no_classifier 4 700000 (probed ∷ []) (0 ∷ []) events [] dead_store).running
        ≤ max 4 1)
    × ((events : List (Event (Result ProbeReply))) × (s' : Store) × (probe_round no_classifier 4
            700000
            (probed ∷ [])
            (0 ∷ [])
            events
            []
            dead_store
          ≡ record { todo = []; waiting = none; running = []; store = s' }))
probe_round-ends_example = probe_round-ends no_classifier 4 700000 (probed ∷ []) (0 ∷ []) dead_store
