-- ===== src/Examples/Dispatches.antt =====
-- The theorems on the dispatch of a plan, at one candidate and a network that never answers in time.
use proxy_systems.Common.{◌+◌, ◌≤◌, ◌≡◌, refl, max, true, List, [], ◌∷◌, none, length, All, arith}
use proxy_systems.Common.Text.{has_text, text_eq_refl}
use proxy_systems.Route.Def.{RouteDef, Selector}
use proxy_systems.Route.State.{Candidate, Tier}
use proxy_systems.Http.{timed_out}
use proxy_systems.Dispatch.Attempt.{World, run_attempt, judge_exchange}
use proxy_systems.Dispatch.Sequential.{Progress, try_candidate, attempt_at, dispatch_sequential}
use proxy_systems.Dispatch.Sequential.Coverage.{AllTried, dispatch_sequential-AllTried}
use proxy_systems.Dispatch.Hedged.{timer, exhausted, launch, before_launch, dispatch_hedged}
use proxy_systems.Dispatch.Hedged.Flights.{takeoff, flights-length}
use proxy_systems.Dispatch.Hedged.Skipped.{dispatch_hedged-tried}
use proxy_systems.Examples.Fixtures.{
  Pairs, two_store, route_with, pair_headers, world_of, some_hooks, a_request,
}

abbrev first_candidate : Candidate
first_candidate = record { entry = 0; tier = Tier.healthy; latency = 0 }

abbrev one_plan : List Candidate
one_plan = first_candidate ∷ []

abbrev at_start : Progress
at_start = record { store = two_store; tick = 0; tried = []; failures = [] }

abbrev hedged_route : RouteDef
hedged_route = route_with Selector.hedge

abbrev silence : World Pairs
silence = world_of timed_out

one_plan-fails :
    (dispatch_sequential pair_headers silence some_hooks hedged_route a_request [] [] 0 one_plan
      at_start).0
    ≡ none
unfolding dispatch_sequential try_candidate attempt_at run_attempt judge_exchange
one_plan-fails = refl

dispatch_sequential-AllTried_example :
    ((dispatch_sequential pair_headers silence some_hooks hedged_route a_request [] [] 0 one_plan
        at_start).1.tick
      ≡ 0 + 1)
    × AllTried pair_headers silence some_hooks hedged_route a_request [] [] one_plan two_store
        (dispatch_sequential pair_headers silence some_hooks hedged_route a_request [] [] 0 one_plan
          at_start).1
dispatch_sequential-AllTried_example =
    dispatch_sequential-AllTried pair_headers silence some_hooks hedged_route a_request [] [] 0
      one_plan at_start one_plan-fails

flights-length_example :
    length
      (launch (
        before_launch pair_headers silence some_hooks hedged_route a_request [] [] one_plan
          at_start)).flights
    ≤ max 2 1
flights-length_example =
    flights-length pair_headers silence some_hooks hedged_route a_request [] [] one_plan at_start
      (launch (
        before_launch pair_headers silence some_hooks hedged_route a_request [] [] one_plan
          at_start))
      takeoff

-- The same plan once its URL was tried.
abbrev tried_before : Progress
tried_before = record at_start { tried = (two_store.entry 0).url ∷ [] }

tried_before-all :
    All (λ c. has_text tried_before.tried (tried_before.store.entry c.entry).url ≡ true) one_plan
unfolding has_text
tried_before-all = (ground (arith, text_eq_refl (two_store.entry 0).url), tt)

dispatch_hedged-tried_example :
    dispatch_hedged pair_headers silence some_hooks hedged_route a_request [] []
      (timer ∷ [])
      one_plan
      tried_before
    ≡ (exhausted, tried_before)
dispatch_hedged-tried_example =
    dispatch_hedged-tried pair_headers silence some_hooks hedged_route a_request [] [] (timer ∷ [])
      one_plan tried_before tried_before-all
