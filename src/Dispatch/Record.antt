-- ===== src/Dispatch/Record.antt =====
-- intermediate-proxy/src/dispatch/mod.rs, `record_success` and `record_failure`: what one attempt
-- leaves in the record of its proxy.
pub mod Laws
pub mod Fields
use proxy_systems.Common.{
  ℕ, ◌≡◌, refl, ◌≢◌, ◌⊎◌, inl, inr, Bool, true, false, Option, none, some, arith, ◌==◌,
  if◌then◌else◌, ◌<◌, ◌+◌, ap, ltb,
}
use proxy_systems.Common.Words.{add64, u64_mod}
use proxy_systems.Common.Text.{Text}
use proxy_systems.Proxy.Health.{
  RouteState, observe_success, observe_failure, clear_ban, ban_for, is_banned,
}
use proxy_systems.Proxy.Entry.{Entry, RouteId, on_route, mark_transport_fatal}
use proxy_systems.Proxy.Entry.Laws.{health, health-on_route}
use proxy_systems.Route.Def.{RouteDef}

unfoldable pub count_success : ℕ → Entry → Entry
count_success now e = record e {
  global = record (e.global) {
    usage_count = add64 e.global.usage_count 1;
    success_count = add64 e.global.success_count 1;
    last_success_ms = now;
  };
}

unfoldable pub record_success : ℕ → RouteId → ℕ → Entry → Entry
record_success now route_id latency e =
    count_success now (on_route route_id (λ st. clear_ban (observe_success now latency st)) e)

unfoldable pub count_failure : ℕ → Entry → Entry
count_failure now e = record e {
  global = record (e.global) {
    usage_count = add64 e.global.usage_count 1;
    error_count = add64 e.global.error_count 1;
    last_error_ms = now;
  };
}

-- `if let Some(b) = ban_ms { st.ban_for(b) }`.
unfoldable pub maybe_ban : ℕ → Option ℕ → RouteState → RouteState
maybe_ban now none st = st
maybe_ban now (some ms) st = ban_for now ms st

-- `if global_fatal && entry.mark_transport_fatal() { .. }`.
unfoldable pub maybe_mark : ℕ → Bool → Entry → Entry
maybe_mark now true e = (mark_transport_fatal now e).1
maybe_mark now false e = e

unfoldable pub record_failure : ℕ → RouteDef → Option ℕ → Text → Option ℕ → Bool → Entry → Entry
record_failure now route latency reason ban_ms global_fatal e = maybe_mark now global_fatal (
    count_failure now (
      on_route route.id
        (λ st. maybe_ban now ban_ms (observe_failure now latency reason route.slow_ms st)) e))
