-- ===== src/Status/Counts.antt =====
-- intermediate-proxy/src/health.rs: the counts of a route cover every proxy.
use proxy_systems.Common.{ℕ, ◌+◌, ◌<◌, ◌≡◌, List, [], ◌∷◌, length, arith}
use proxy_systems.Common.Words.{u64_mod}
use proxy_systems.Proxy.Store.{Addr, Store}
use proxy_systems.Route.Def.{RouteDef}
use proxy_systems.Route.State.{Tier, healthy, slow, failed, banned, fatal, entry_tier, touch}
use proxy_systems.Status.{TierCounts, count_tier, count_entries}

abbrev total : TierCounts → ℕ
total c = c.healthy_count + c.slow_count + c.failed_count + c.banned_count + c.fatal_count

total-count_tier :
    (t : Tier) (c : TierCounts) → total c + 1 < u64_mod → total (count_tier t c) ≡ total c + 1
unfolding count_tier
total-count_tier healthy c l = omega (arith, l)
total-count_tier slow c l = omega (arith, l)
total-count_tier failed c l = omega (arith, l)
total-count_tier banned c l = omega (arith, l)
total-count_tier fatal c l = omega (arith, l)

-- The five counts grow by one for each proxy together, below 2^64.
total-count_entries :
    (route : RouteDef) (now : ℕ) (entries : List Addr) (c : TierCounts) (s : Store)
    → total c + length entries < u64_mod
    → total (count_entries route now entries c s).0 ≡ total c + length entries
unfolding count_entries
total-count_entries route now [] c s l = omega arith
total-count_entries route now (a ∷ more) c s l =
    let tier = entry_tier (s.entry a) (touch route a s).0 route now in
    let step : total (count_tier tier c) ≡ total c + 1 =
      total-count_tier tier c (omega (arith, l)) in
    let rest =
      total-count_entries route now more (count_tier tier c) (touch route a s).1
        (omega (arith, l, step)) in
    omega (arith, step, rest)
