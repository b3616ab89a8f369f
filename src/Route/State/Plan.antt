-- ===== src/Route/State/Plan.antt =====
-- What `build_plan` of intermediate-proxy/src/route/state.rs promises its callers.
use mathlib.Core.List.Perm
use proxy_systems.Common.{
  ℕ, ◌≡◌, ap, sym, ◌∙◌, List, ◌++◌, Perm, Option, length, drop, take-append-drop, length-take, min,
  All, All-take,
}
use proxy_systems.Common.Order.{Pairwise, Pairwise-take}
use proxy_systems.Common.Permutations.{All-perm, length-perm}
use proxy_systems.Common.Text.{Text}
use proxy_systems.Proxy.Store.{Addr, Store}
use proxy_systems.Route.Def.{RouteDef}
use proxy_systems.Route.State.{Tier, Candidate, collect_live, order, arrange, build_plan}
use proxy_systems.Route.State.Live.{
  IsLive, live_candidates, live_candidates-IsLive, collect_live-live_candidates,
}
use proxy_systems.Route.State.Ranking.{
  ByRank, Ranked, Ahead, order-perm, order-Ranked, arrange-perm, arrange-Ahead,
}

Tier-discrete : Discrete Tier
Tier-discrete = hlevel

IsLive-prop :
    (route : RouteDef) (pool_all pool_any : List Text) (now : ℕ) (s : Store) (snapshot : List Addr)
    (c : Candidate)
    → IsProp (IsLive route pool_all pool_any now s snapshot c)
IsLive-prop route pool_all pool_any now s snapshot c = hlevel

module _ (draw : ℕ → ℕ) (hash : Text → ℕ) (now : ℕ) (route : RouteDef) (snapshot : List Addr)
    (pool_all pool_any : List Text) (sticky : Option Text) (cursor : ℕ) (s : Store) where
  abbrev plan : List Candidate
  plan = (build_plan draw hash now route snapshot pool_all pool_any sticky cursor s).0

  abbrev live : List Candidate
  live = live_candidates route pool_all pool_any now s snapshot

  -- The plan before it is cut to `max_attempts`.
  abbrev whole : List Candidate
  whole =
      let (found, s') = collect_live route pool_all pool_any now snapshot s in
      arrange route s' (order draw hash route.selector sticky cursor found).0

  whole-perm : Perm whole live
  whole-perm =
      rw (sym (collect_live-live_candidates route pool_all pool_any now snapshot s))
        (Perm.trans (arrange-perm route _ _) (order-perm draw hash sticky cursor route.selector _))

  -- Every candidate of a plan is a proxy of the snapshot that the tags select and that is neither
  -- banned nor dead; a preferred or forced order never brings in another one.
  pub build_plan-IsLive : All (IsLive route pool_all pool_any now s snapshot) plan
  unfolding build_plan
  build_plan-IsLive = All-take _ route.max_attempts whole (
      All-perm _ (IsLive-prop route pool_all pool_any now s snapshot) (Perm.symm whole-perm)
        (live_candidates-IsLive route pool_all pool_any now s snapshot))

  -- The length of a plan is the smaller of `max_attempts` and the number of live proxies, and a
  -- plan with what the cut leaves out is a permutation of the live proxies.
  pub build_plan-perm :
      (length plan ≡ min route.max_attempts (length live))
      × ((left_out : List Candidate) × Perm (plan ++ left_out) live)
  unfolding build_plan
  build_plan-perm = (
    length-take route.max_attempts whole ∙ ap (min route.max_attempts) (length-perm whole-perm),
    (drop route.max_attempts whole, rw (take-append-drop route.max_attempts whole) whole-perm),
  )

  -- Under the selectors `best_latency` and `hedge` a plan is ordered: preferred tags first, then
  -- regular proxies before reserve ones if the route asks for it, then by tier, then by latency.
  pub build_plan-Ahead :
      ByRank route.selector
      → Pairwise
          (Ahead route
            (build_plan draw hash now route snapshot pool_all pool_any sticky cursor s).1
            Ranked)
          plan
  unfolding build_plan
  build_plan-Ahead r =
      Pairwise-take _ route.max_attempts whole
        (arrange-Ahead route _ Ranked _ (order-Ranked draw hash sticky cursor route.selector _ r))
