-- ===== src/Route/Select.antt =====
-- intermediate-proxy/src/route/mod.rs, `select_route`, and `RouterConfig::candidates` of
-- route/config.rs. The answers of the Lua predicates are the parameter `eval_predicate`.
pub mod First
use proxy_systems.Common.{
  ℕ, Bool, not, ◌&&◌, List, [], ◌∷◌, Option, none, some, select, if◌then◌else◌,
}
use proxy_systems.Common.Text.{Text}
use proxy_systems.Route.Def.{RouteDef}
use proxy_systems.Route.Matcher.{matches_static}
use proxy_systems.Proxy.Entry.{RouteId}

unfoldable pub candidates :
    (Text → Text → Bool) → List RouteDef → Text → Text → Text → List RouteDef
candidates is_match routes host path method =
    select (λ (r : RouteDef). matches_static is_match r.matcher host path method) routes

-- The loop over the candidates.
unfoldable pub first_accepted : (RouteId → Bool) → List RouteDef → Option RouteDef
first_accepted eval_predicate [] = none
first_accepted eval_predicate (r ∷ rs) =
    let later = first_accepted eval_predicate rs in
    if r.matcher.has_predicate && not (eval_predicate r.id) then later else some r

unfoldable pub select_route :
    (Text → Text → Bool) → (RouteId → Bool) → List RouteDef → Text → Text → Text → Option RouteDef
select_route is_match eval_predicate routes host path method =
    first_accepted eval_predicate (candidates is_match routes host path method)
