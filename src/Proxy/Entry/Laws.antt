-- ===== src/Proxy/Entry/Laws.antt =====
-- Properties of a proxy's record: intermediate-proxy/src/proxy/entry.rs, `Entry`.
use proxy_systems.Common.{
  ◌≡◌, refl, ap, List, [], ◌∷◌, some, arith, ◌==◌, if◌then◌else◌, get_or_else,
}
use proxy_systems.Proxy.Health.{RouteState, fresh_state}
use proxy_systems.Proxy.Entry.{Entry, RouteId, get_state, put_state, route_state, on_route}

get_state-put_state :
    (rid k : RouteId) (st : RouteState) (m : List (RouteId × RouteState))
    → get_state k (put_state rid st m) ≡ (if rid == k then some st else get_state k m)
unfolding get_state put_state
get_state-put_state rid k st [] = refl
get_state-put_state rid k st ((j, old) ∷ m) = ground (arith, get_state-put_state rid k st m)

-- The health that a route sees of a proxy, whether or not it was made yet.
unfoldable pub health : RouteId → Entry → RouteState
health rid e = (route_state rid e).0

pub health-get :
    (rid : RouteId) (e : Entry) → health rid e ≡ get_or_else (get_state rid e.by_route) fresh_state
unfolding health route_state
health-get rid e = ground arith

-- A first touch changes no route's health.
pub health-route_state : (rid k : RouteId) (e : Entry) → health k (route_state rid e).1 ≡ health k e
unfolding health route_state
health-route_state rid k e = ground (arith, get_state-put_state rid k fresh_state e.by_route)

-- A call on one route's state changes the health of the proxy on that route as it says, and on no
-- other route.
pub health-on_route :
    (rid k : RouteId) (f : RouteState → RouteState) (e : Entry)
    → health k (on_route rid f e) ≡ (if rid == k then f (health k e) else health k e)
unfolding health on_route route_state
health-on_route rid k f e =
    ground (arith, get_state-put_state rid k (f (route_state rid e).0) e.by_route, same_key)
  where
    same_key : rid ≡ k → (route_state rid e).0 ≡ (route_state k e).0
    same_key p = ap (λ r. (route_state r e).0) p
