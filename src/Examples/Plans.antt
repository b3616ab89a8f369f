-- ===== src/Examples/Plans.antt =====
-- The theorems on plans and on the choice of a route, at a route over the two proxies.
use proxy_systems.Common.{
  ℕ, ◌≡◌, true, List, [], ◌∷◌, ◌++◌, none, Perm, length, min, All, any, ◌==◌,
}
use proxy_systems.Common.Order.{Pairwise}
use proxy_systems.Common.Text.{Text, codes, text_eq}
use proxy_systems.Route.Def.{RouteDef, Selector}
use proxy_systems.Proxy.Health.{ban_for}
use proxy_systems.Proxy.Entry.{on_route}
use proxy_systems.Proxy.Store.{Store, modify}
use proxy_systems.Route.State.{Candidate, build_plan, fallback_pool}
use proxy_systems.Route.State.Live.{SameView, live_candidates}
use proxy_systems.Route.State.Fallback.{resting, fallback_pool-perm}
use proxy_systems.Route.State.Ranking.{by_hedge}
use proxy_systems.Route.State.Precedence.{Precedes, build_plan-Precedes}
use proxy_systems.Route.State.Serving.{MayServe, build_plan-MayServe}
use proxy_systems.Route.State.Plan.{build_plan-perm}
use proxy_systems.Route.Select.{select_route}
use proxy_systems.Route.Select.First.{IsFirst, select_route-IsFirst}
use proxy_systems.Examples.Fixtures.{two_pool, two_store, route_with}

abbrev no_draw : ℕ → ℕ
no_draw n = 0

abbrev no_hash : Text → ℕ
no_hash t = 0

abbrev hedged_route : RouteDef
hedged_route = route_with Selector.hedge

abbrev found : List Candidate
found = (build_plan no_draw no_hash 1000 hedged_route two_pool.entries [] [] none 0 two_store).0

build_plan-Precedes_example :
    Pairwise
      (Precedes hedged_route
        (build_plan no_draw no_hash 1000 hedged_route two_pool.entries [] [] none 0 two_store).1)
      found
build_plan-Precedes_example =
    build_plan-Precedes no_draw no_hash 1000 hedged_route two_pool.entries [] [] none 0 two_store
      by_hedge

build_plan-MayServe_example :
    All
      (λ c.
        (any (λ a. a == c.entry) two_pool.entries ≡ true)
        × MayServe hedged_route [] [] 1000 (two_store.entry c.entry))
      found
build_plan-MayServe_example =
    build_plan-MayServe no_draw no_hash 1000 hedged_route two_pool.entries [] [] none 0 two_store

build_plan-perm_example :
    (length found
      ≡ min 3 (length (live_candidates hedged_route [] [] 1000 two_store two_pool.entries)))
    × ((left_out : List Candidate) × Perm
          (found ++ left_out)
          (live_candidates hedged_route [] [] 1000 two_store two_pool.entries))
build_plan-perm_example =
    build_plan-perm no_draw no_hash 1000 hedged_route two_pool.entries [] [] none 0 two_store

-- The second proxy is banned until the time 1500.
abbrev banned_store : Store
banned_store = modify 1 (on_route 0 (ban_for 1000 500)) two_store

fallback_pool-perm_example :
    Perm
      (fallback_pool 1200 hedged_route two_pool.entries [] [] [] banned_store).0
      (resting hedged_route [] [] [] 1200 banned_store two_pool.entries)
    × SameView banned_store
        (fallback_pool 1200 hedged_route two_pool.entries [] [] [] banned_store).1
fallback_pool-perm_example =
    fallback_pool-perm hedged_route [] [] [] 1200 two_pool.entries banned_store

abbrev two_routes : List RouteDef
two_routes = route_with Selector.round_robin ∷ hedged_route ∷ []

select_route-IsFirst_example :
    IsFirst text_eq
      (λ id. true)
      (codes "x")
      (codes "/")
      (codes "GET")
      two_routes
      (select_route text_eq (λ id. true) two_routes (codes "x") (codes "/") (codes "GET"))
select_route-IsFirst_example =
    select_route-IsFirst text_eq (λ id. true) (codes "x") (codes "/") (codes "GET") two_routes
