-- ===== src/Route/Select/First.antt =====
-- intermediate-proxy/src/route/mod.rs: the route that a request gets.
use proxy_systems.Common.{
  ◌≡◌, Bool, true, false, not, ◌&&◌, ◌||◌, List, [], ◌∷◌, Option, none, some, arith, Bool-cases,
  inl, inr,
}
use proxy_systems.Common.Text.{Text}
use proxy_systems.Route.Def.{RouteDef}
use proxy_systems.Route.Matcher.{matches_static, host_matches, path_matches, method_allowed}
use proxy_systems.Proxy.Entry.{RouteId}
use proxy_systems.Route.Select.{candidates, first_accepted, select_route}

module _ (is_match : Text → Text → Bool) (eval_predicate : RouteId → Bool)
    (host path method : Text) where
  -- A route takes the request: host, path and method match, and its predicate, if any, agrees.
  unfoldable pub takes : RouteDef → Bool
  takes r =
      (host_matches is_match r.matcher.host host
        && path_matches is_match r.matcher.path path
        && method_allowed is_match r.matcher.methods method)
      && (not r.matcher.has_predicate || eval_predicate r.id)

  -- The result is the first route of the list that takes the request.
  pub data IsFirst : List RouteDef → Option RouteDef → Type 0 where
    nothing : IsFirst [] none
    here : (r : RouteDef) (rs : List RouteDef) → takes r ≡ true → IsFirst (r ∷ rs) (some r)
    later :
        (r : RouteDef) (rs : List RouteDef) (result : Option RouteDef)
        → takes r ≡ false
        → IsFirst rs result
        → IsFirst (r ∷ rs) result

  accepts-step :
      (r : RouteDef) (rs : List RouteDef)
      → takes r ≡ true
      → select_route is_match eval_predicate (r ∷ rs) host path method ≡ some r
  unfolding takes select_route candidates matches_static first_accepted
  accepts-step r rs h = ground arith

  skips-step :
      (r : RouteDef) (rs : List RouteDef)
      → takes r ≡ false
      → select_route is_match eval_predicate (r ∷ rs) host path method
        ≡ select_route is_match eval_predicate rs host path method
  unfolding takes select_route candidates matches_static first_accepted
  skips-step r rs h = ground arith

  -- `select_route` gives the first route, in the order of the file, whose host, path and method
  -- patterns match and whose predicate, if it has one, agrees; and none when no route takes it.
  pub select_route-IsFirst :
      (routes : List RouteDef)
      → IsFirst routes (select_route is_match eval_predicate routes host path method)
  unfolding select_route first_accepted candidates
  select_route-IsFirst [] = IsFirst.nothing
  select_route-IsFirst (r ∷ rs) = elim (Bool-cases (takes r)) [
    | inl e ↦ rw (accepts-step r rs e) (IsFirst.here r rs e)
    | inr e ↦ rw (skips-step r rs e) (IsFirst.later r rs _ e (select_route-IsFirst rs))
  ]
