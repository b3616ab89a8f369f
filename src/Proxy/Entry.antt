-- ===== src/Proxy/Entry.antt =====
-- intermediate-proxy/src/proxy/entry.rs, `Entry`: one upstream proxy, its tags, its transport flag
-- and its health on each route. The HTTP client that `parse_upstream` builds belongs to a library.
pub mod Laws
use mathlib.Core.Option
use proxy_systems.Common.{
  ℕ, Bool, true, false, not, ◌||◌, List, [], ◌∷◌, Option, none, some, ◌==◌, if◌then◌else◌,
}
use proxy_systems.Common.Words.{add64}
use proxy_systems.Common.Text.{Text, codes, has_text, starts_with, split_once}
use proxy_systems.Proxy.Health.{GlobalStats, RouteState, no_stats, fresh_state}

abbrev pub RouteId : Type 0
RouteId = ℕ

pub record Entry : Type 0 where
  pub url : Text
  pub tags : List Text
  pub global : GlobalStats
  pub transport_fatal : Bool
  pub transport_fatal_since_ms : ℕ
  pub transport_fatal_count : ℕ
  pub round_robin : ℕ
  pub by_route : List (RouteId × RouteState)

-- `Entry::new`.
unfoldable pub new_entry : Text → List Text → Entry
new_entry url tags = record {
  url = url;
  tags = tags;
  global = no_stats;
  transport_fatal = false;
  transport_fatal_since_ms = 0;
  transport_fatal_count = 0;
  round_robin = 0;
  by_route = [];
}

unfoldable pub set_tags : List Text → Entry → Entry
set_tags tags e = record e { tags = tags }

unfoldable pub has_tag : Entry → Text → Bool
has_tag e tag = has_text e.tags tag

abbrev pub reserve_tag : Text
reserve_tag = codes "reserve"

unfoldable pub is_reserve : Entry → Bool
is_reserve e = has_tag e reserve_tag

-- The map of route states: the lookup, and the write of one slot.
unfoldable pub get_state : RouteId → List (RouteId × RouteState) → Option RouteState
get_state rid [] = none
get_state rid ((k, st) ∷ m) = let rest = get_state rid m in if k == rid then some st else rest

unfoldable pub put_state :
    RouteId → RouteState → List (RouteId × RouteState) → List (RouteId × RouteState)
put_state rid st [] = (rid, st) ∷ []
put_state rid st ((k, old) ∷ m) =
    let rest = put_state rid st m in if k == rid then (k, st) ∷ m else (k, old) ∷ rest

-- `route_state`: the state of a route, which is made on the first touch.
unfoldable pub route_state : RouteId → Entry → RouteState × Entry
route_state rid e = elim (get_state rid e.by_route) [
  | some st ↦ (st, e)
  | none ↦ (fresh_state, record e { by_route = put_state rid fresh_state e.by_route })
]

-- A method call on the shared state that `route_state` hands out.
unfoldable pub on_route : RouteId → (RouteState → RouteState) → Entry → Entry
on_route rid f e = record e { by_route = put_state rid (f (route_state rid e).0) e.by_route }

unfoldable pub mark_transport_fatal : ℕ → Entry → Bool × Entry
mark_transport_fatal now e =
    if e.transport_fatal then (false, record e { transport_fatal = true }) else (
      true,
      record e {
        transport_fatal = true;
        transport_fatal_since_ms = now;
        transport_fatal_count = add64 e.transport_fatal_count 1;
      },
    )

unfoldable pub clear_transport_fatal : Entry → Bool × Entry
clear_transport_fatal e =
    if e.transport_fatal
    then (true, record e { transport_fatal = false; transport_fatal_since_ms = 0 })
    else (false, record e { transport_fatal = false })

unfoldable pub is_transport_fatal : Entry → Bool
is_transport_fatal e = e.transport_fatal

-- `str::contains`.
unfoldable pub contains : Text → Text → Bool
contains s p = elim (split_once p s) [ none ↦ false | some _ ↦ true ]

unfoldable pub is_transport_fatal_reason : Text → Bool
is_transport_fatal_reason reason =
    contains reason (codes "client error (Connect)")
    || contains reason (codes "dns error")
    || contains reason (codes "Connection refused")
