-- ===== src/Status.antt =====
-- intermediate-proxy/src/health.rs: what the status pages say, before it is written as JSON.
pub mod Counts
use proxy_systems.Common.{
  ℕ, Bool, ◌&&◌, List, [], ◌∷◌, Option, none, some, if◌then◌else◌, ◌==◌, find,
}
use proxy_systems.Common.Words.{add64}
use proxy_systems.Common.Text.{Text, text_eq}
use proxy_systems.Util.{sanitize_url}
use proxy_systems.Proxy.Health.{RouteState}
use proxy_systems.Proxy.Entry.{Entry, is_transport_fatal}
use proxy_systems.Proxy.Store.{Addr, Store}
use proxy_systems.Proxy.Pool.{ProxyPool, find_url}
use proxy_systems.Route.Def.{RouteDef, Selector, ProbeCfg}
use proxy_systems.Route.State.{Tier, healthy, slow, failed, banned, fatal, entry_tier, touch}

-- `[0u64; 5]`, by the tier that indexes it.
pub record TierCounts : Type 0 where
  pub healthy_count : ℕ
  pub slow_count : ℕ
  pub failed_count : ℕ
  pub banned_count : ℕ
  pub fatal_count : ℕ

unfoldable pub no_counts : TierCounts
no_counts = record {
  healthy_count = 0;
  slow_count = 0;
  failed_count = 0;
  banned_count = 0;
  fatal_count = 0;
}

unfoldable pub count_tier : Tier → TierCounts → TierCounts
count_tier healthy c = record c { healthy_count = add64 c.healthy_count 1 }
count_tier slow c = record c { slow_count = add64 c.slow_count 1 }
count_tier failed c = record c { failed_count = add64 c.failed_count 1 }
count_tier banned c = record c { banned_count = add64 c.banned_count 1 }
count_tier fatal c = record c { fatal_count = add64 c.fatal_count 1 }

-- The loop over the proxies, for one route.
unfoldable pub count_entries : RouteDef → ℕ → List Addr → TierCounts → Store → TierCounts × Store
count_entries route now [] c s = (c, s)
count_entries route now (a ∷ more) c s =
    let (st, s') = touch route a s in
    count_entries route now more (count_tier (entry_tier (s.entry a) st route now) c) s'

pub record RouteRow : Type 0 where
  pub name : Text
  pub selector : Selector
  pub counts : TierCounts
  pub probe : Option ProbeCfg

unfoldable pub tier_counts : List RouteDef → ℕ → List Addr → Store → List RouteRow × Store
tier_counts [] now entries s = ([], s)
tier_counts (r ∷ more) now entries s =
    let (c, s') = count_entries r now entries no_counts s in
    let (rows, s'') = tier_counts more now entries s' in
    (record { name = r.name; selector = r.selector; counts = c; probe = r.probe } ∷ rows, s'')

pub record ProxyRow : Type 0 where
  pub url : Text
  pub tags : List Text
  pub tier : Tier
  pub state : RouteState
  pub transport_fatal : Bool

unfoldable pub proxy_rows : RouteDef → ℕ → List Addr → Store → List ProxyRow × Store
proxy_rows route now [] s = ([], s)
proxy_rows route now (a ∷ more) s =
    let (st, s') = touch route a s in
    let e = s.entry a in
    let (rows, s'') = proxy_rows route now more s' in
    (
      record {
        url = sanitize_url e.url;
        tags = e.tags;
        tier = entry_tier e st route now;
        state = st;
        transport_fatal = is_transport_fatal e;
      }
          ∷ rows,
      s'',
    )

-- No route of the name: status 404.
unfoldable pub route_detail :
    List RouteDef → Text → ℕ → List Addr → Store → Option (List ProxyRow) × Store
route_detail routes name now entries s =
    elim (find (λ (r : RouteDef). text_eq r.name name) routes) [
      | none ↦ (none, s)
      | some route ↦ let (rows, s') = proxy_rows route now entries s in (some rows, s')
    ]

pub record UsedRoute : Type 0 where
  pub route : Text
  pub tier : Tier
  pub state : RouteState

-- A route on which the proxy was never used is left out.
unfoldable pub used_routes : List RouteDef → ℕ → Addr → Store → List UsedRoute × Store
used_routes [] now a s = ([], s)
used_routes (r ∷ more) now a s =
    let (st, s') = touch r a s in
    let (rows, s'') = used_routes more now a s' in
    let row : UsedRoute = record {
      route = r.name;
      tier = entry_tier (s.entry a) st r now;
      state = st;
    } in
    (if st.success_count == 0 && st.error_count == 0 then rows else row ∷ rows, s'')

-- The answer for a proxy by its URL; none without the parameter, or for a URL that is not listed.
unfoldable pub proxy_detail :
    List RouteDef → ProxyPool → Option Text → ℕ → Store → Option (Entry × List UsedRoute) × Store
proxy_detail routes pool none now s = (none, s)
proxy_detail routes pool (some url) now s = elim (find_url pool url) [
  | none ↦ (none, s)
  | some a ↦ let (rows, s') = used_routes routes now a s in (some (s.entry a, rows), s')
]
