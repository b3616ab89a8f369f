-- ===== src/Dispatch/Record/Laws.antt =====
-- What one recorded attempt changes in the record of its proxy, and what it leaves alone.
use proxy_systems.Common.{
  ℕ, ◌≡◌, refl, ap, ◌∙◌, Bool, true, false, ◌||◌, Option, arith, ◌==◌, if◌then◌else◌,
}
use proxy_systems.Common.Text.{Text}
use proxy_systems.Proxy.Health.{RouteState, observe_success, observe_failure, clear_ban}
use proxy_systems.Proxy.Entry.{Entry, RouteId, on_route, mark_transport_fatal, route_state}
use proxy_systems.Proxy.Entry.Laws.{health, health-on_route}
use proxy_systems.Route.Def.{RouteDef}
use proxy_systems.Dispatch.Record.{
  count_success, count_failure, maybe_ban, maybe_mark, record_success, record_failure,
}

-- The parts of a record that no attempt touches.
pub record SameProxy (e e' : Entry) : Type 0 where
  pub url : e'.url ≡ e.url
  pub tags : e'.tags ≡ e.tags

health-count_success :
    (now : ℕ) (k : RouteId) (e : Entry) → health k (count_success now e) ≡ health k e
unfolding health route_state count_success
health-count_success now k e = ground arith

health-count_failure :
    (now : ℕ) (k : RouteId) (e : Entry) → health k (count_failure now e) ≡ health k e
unfolding health route_state count_failure
health-count_failure now k e = ground arith

health-maybe_mark :
    (now : ℕ) (g : Bool) (k : RouteId) (e : Entry) → health k (maybe_mark now g e) ≡ health k e
unfolding health route_state maybe_mark mark_transport_fatal
health-maybe_mark now true k e = ground arith
health-maybe_mark now false k e = refl

maybe_mark-flag :
    (now : ℕ) (g : Bool) (e : Entry)
    → (maybe_mark now g e).transport_fatal ≡ (g || e.transport_fatal)
unfolding maybe_mark mark_transport_fatal
maybe_mark-flag now true e = ground arith
maybe_mark-flag now false e = refl

maybe_mark-SameProxy : (now : ℕ) (g : Bool) (e : Entry) → SameProxy e (maybe_mark now g e)
unfolding maybe_mark mark_transport_fatal
maybe_mark-SameProxy now true e = record { url = ground arith; tags = ground arith }
maybe_mark-SameProxy now false e = record { url = refl; tags = refl }

pub record_success_lem :
    (now : ℕ) (id k : RouteId) (latency : ℕ) (e : Entry)
    → SameProxy e (record_success now id latency e)
      × ((record_success now id latency e).transport_fatal ≡ e.transport_fatal)
      × (health k (record_success now id latency e)
          ≡ (if id == k then clear_ban (observe_success now latency (health k e)) else health k e))
unfolding record_success
record_success_lem now id k latency e = (
  unfold count_success on_route in record { url = refl; tags = refl },
  unfold count_success on_route in refl,
  health-count_success now k _
      ∙ health-on_route id k (λ st. clear_ban (observe_success now latency st)) e,
)

counted-SameProxy :
    (now : ℕ) (id : RouteId) (f : RouteState → RouteState) (e : Entry)
    → SameProxy e (count_failure now (on_route id f e))
      × ((count_failure now (on_route id f e)).transport_fatal ≡ e.transport_fatal)
unfolding count_failure on_route
counted-SameProxy now id f e = (record { url = refl; tags = refl }, refl)

pub record_failure_lem :
    (now : ℕ) (route : RouteDef) (k : RouteId) (latency : Option ℕ) (reason : Text)
    (ban_ms : Option ℕ) (global_fatal : Bool) (e : Entry)
    → let e' = record_failure now route latency reason ban_ms global_fatal e in
      SameProxy e e'
      × (e'.transport_fatal ≡ (global_fatal || e.transport_fatal))
      × (health k e' ≡ (
          if route.id == k
          then maybe_ban now ban_ms (observe_failure now latency reason route.slow_ms (health k e))
          else health k e))
unfolding record_failure
record_failure_lem now route k latency reason ban_ms global_fatal e =
    let failed = λ (st : RouteState).
      maybe_ban now ban_ms (observe_failure now latency reason route.slow_ms st) in
    let counted = count_failure now (on_route route.id failed e) in
    (
      record {
        url =
            (maybe_mark-SameProxy now global_fatal counted).url
            ∙ (counted-SameProxy now route.id failed e).0.url;
        tags =
            (maybe_mark-SameProxy now global_fatal counted).tags
            ∙ (counted-SameProxy now route.id failed e).0.tags;
      },
      maybe_mark-flag now global_fatal counted
          ∙ ap (◌||◌ global_fatal) (counted-SameProxy now route.id failed e).1,
      health-maybe_mark now global_fatal k counted
          ∙ health-count_failure now k (on_route route.id failed e)
          ∙ health-on_route route.id k failed e,
    )
