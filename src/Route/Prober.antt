-- ===== src/Route/Prober.antt =====
-- intermediate-proxy/src/route/prober.rs: the prober of banned proxies and the prober of dead ones.
-- The answer to a probe and the classifier of the Lua machine are parameters.
pub mod Restored
pub mod Progress
use proxy_systems.Common.{
  ℕ, ◌-◌, max, Bool, true, false, not, ◌&&◌, ◌||◌, List, [], ◌∷◌, ◌++◌, map, Option, none, some,
  if◌then◌else◌, ltb, ◌==◌, any, is_empty, length,
}
use proxy_systems.Common.Words.{u64_max}
use proxy_systems.Common.Text.{Text}
use proxy_systems.Common.Results.{Result, ok, err}
use proxy_systems.Proxy.Health.{RouteState, clear_ban, ban_permanent}
use proxy_systems.Proxy.Entry.{Entry, RouteId, on_route, is_transport_fatal, clear_transport_fatal}
use proxy_systems.Proxy.Store.{Addr, Store, modify}
use proxy_systems.Route.Def.{RouteDef, ProbeCfg}
use proxy_systems.Route.State.{entry_tier, is_sidelined, touch}
use proxy_systems.Route.Rounds.{Rounds, Event, run_events}
use proxy_systems.Lua.{ProbeOutcome, probe_ok, still_banned, give_up_route}
use proxy_systems.Lua.Verdict.{by_status}

-- forward.rs, `ProbeReply`.
pub record ProbeReply : Type 0 where
  pub status : ℕ
  pub headers : List (Text × Text)
  pub body_preview : Option Text

-- What a spawned task of the route prober holds.
pub record Job : Type 0 where
  pub entry : Addr
  pub route : RouteDef
  pub probe : ProbeCfg
  pub cap : ℕ

unfoldable pub job_for : RouteDef → ProbeCfg → Addr → Job
job_for route probe a = record {
  entry = a;
  route = route;
  probe = probe;
  cap = max route.capture_body_bytes (if probe.has_classify then 4096 else 0);
}

-- The tests of the loop: the proxy is banned or dead, its ban may be lifted, and the interval is over.
unfoldable pub is_due : RouteDef → ProbeCfg → Entry → RouteState → ℕ → Bool
is_due route probe e st now =
    is_sidelined (entry_tier e st route now)
    && not (st.banned_until_ms == u64_max && not probe.has_classify)
    && not (ltb (now - st.last_probe_ms) probe.interval_ms)

unfoldable pub stamp_probe : ℕ → RouteState → RouteState
stamp_probe now st = record st { last_probe_ms = now }

unfoldable pub visit_probed : RouteDef → ProbeCfg → ℕ → Addr → Store → Option Job × Store
visit_probed route probe now a s =
    let (st, s') = touch route a s in
    if is_due route probe (s.entry a) st now
    then (some (job_for route probe a), modify a (on_route route.id (stamp_probe now)) s')
    else (none, s')

unfoldable pub visit_from : Option ProbeCfg → RouteDef → ℕ → Addr → Store → Option Job × Store
visit_from none route now a s = (none, s)
visit_from (some probe) route now a s = visit_probed route probe now a s

-- One round of the inner loop; a route without a probe is passed over.
unfoldable pub visit : ℕ → RouteDef × Addr → Store → Option Job × Store
visit now (route, a) s = visit_from route.probe route now a s

-- The rounds of both loops, in their order.
unfoldable pub all_pairs : List RouteDef → List Addr → List (RouteDef × Addr)
all_pairs [] entries = []
all_pairs (route ∷ more) entries = map (λ a. (route, a)) entries ++ all_pairs more entries

unfoldable pub apply_outcome : ProbeOutcome → RouteDef → Entry → Entry
apply_outcome probe_ok route e = (clear_transport_fatal (on_route route.id clear_ban e)).1
apply_outcome still_banned route e = e
apply_outcome give_up_route route e = on_route route.id ban_permanent e

module _ (probe_classify : RouteId → ProbeReply → List ℕ → ProbeOutcome) where
  unfoldable pub judge_reply : Job → ProbeReply → ProbeOutcome
  judge_reply job reply =
      if job.probe.has_classify
      then probe_classify job.route.id reply job.probe.ok_statuses
      else by_status job.probe.ok_statuses reply.status

  -- The end of a task of the route prober.
  unfoldable pub finish_probe : Job → Result ProbeReply → Store → Store
  finish_probe job (ok reply) s =
      modify job.entry (apply_outcome (judge_reply job reply) job.route) s
  finish_probe job (err reason) s = s

  -- One tick of the route prober, from its snapshot on.
  unfoldable pub probe_round :
      ℕ
      → ℕ
      → List RouteDef
      → List Addr
      → List (Event (Result ProbeReply))
      → List Job
      → Store
      → Rounds (RouteDef × Addr) Job
  probe_round max_concurrent now routes entries events running s =
      run_events (max max_concurrent 1) (visit now) finish_probe events
        (record { todo = all_pairs routes entries; waiting = none; running = running; store = s })

-- The prober of dead proxies: any answer shows that the proxy is reachable.
unfoldable pub visit_dead : Addr → Store → Option Addr × Store
visit_dead a s = (if is_transport_fatal (s.entry a) then some a else none, s)

unfoldable pub finish_dead : Addr → Result ProbeReply → Store → Store
finish_dead a (ok reply) s = modify a (λ e. (clear_transport_fatal e).1) s
finish_dead a (err reason) s = s

unfoldable pub transport_round :
    ℕ → List Addr → List (Event (Result ProbeReply)) → List Addr → Store → Rounds Addr Addr
transport_round max_concurrent entries events running s =
    run_events (max max_concurrent 1) visit_dead finish_dead events
      (record { todo = entries; waiting = none; running = running; store = s })

-- `probe_url.is_empty() || interval.is_zero()`.
unfoldable pub transport_disabled : Text → ℕ → Bool
transport_disabled probe_url interval_ms = is_empty probe_url || interval_ms == 0
