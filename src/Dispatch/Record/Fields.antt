-- ===== src/Dispatch/Record/Fields.antt =====
-- intermediate-proxy/src/dispatch/mod.rs, `record_success` and `record_failure`, with the methods of
-- intermediate-proxy/src/proxy/entry.rs that they call: every field that they write.
use proxy_systems.Common.{
  ℕ, ◌+◌, ◌-◌, ◌*◌, ◌/◌, ◌%◌, ◌^◌, ◌≡◌, refl, ◌∙◌, subst, Bool, true, false, Option, none, some,
  max, if◌then◌else◌, ◌==◌, ltb, arith,
}
use proxy_systems.Common.Text.{Text}
use proxy_systems.Util.{scrub_credentials}
use proxy_systems.Proxy.Health.{
  RouteState, GlobalStats, trim_reason, blend, blend_latency, observe_success, observe_failure,
  observe_latency, set_reason, clear_ban, ban_for,
}
use proxy_systems.Proxy.Entry.{Entry, RouteId, on_route, mark_transport_fatal}
use proxy_systems.Proxy.Entry.Laws.{health}
use proxy_systems.Route.Def.{RouteDef}
use proxy_systems.Dispatch.Record.{
  count_success, count_failure, maybe_ban, maybe_mark, record_success, record_failure,
}
use proxy_systems.Dispatch.Record.Laws.{SameProxy, record_success_lem, record_failure_lem}

-- The moving average after a sample: the first sample as it is, then 3/10 of the sample and 7/10 of the
-- average in 64-bit arithmetic.
abbrev pub averaged : ℕ → ℕ → ℕ
averaged average sample =
    if average == 0 then sample else ((3 * sample) % 2 ^ 64 + (7 * average) % 2 ^ 64) % 2 ^ 64 / 10

-- The health of a route after a success.
abbrev pub after_success : ℕ → ℕ → RouteState → RouteState
after_success now latency st = record {
  banned_until_ms = 0;
  consecutive_failures = 0;
  consecutive_successes = (st.consecutive_successes + 1) % 2 ^ 32;
  avg_latency_ms = averaged st.avg_latency_ms latency;
  last_latency_ms = latency;
  success_count = (st.success_count + 1) % 2 ^ 64;
  error_count = st.error_count;
  last_success_ms = now;
  last_error_ms = st.last_error_ms;
  last_probe_ms = st.last_probe_ms;
  ban_count = st.ban_count;
  last_error_reason = st.last_error_reason;
}

-- The end of a ban, which does not pass the largest 64-bit number.
abbrev pub ban_end : ℕ → Option ℕ → ℕ → ℕ
ban_end now none old = old
ban_end now (some ms) old = if ltb (now + ms) (2 ^ 64) then now + ms else 2 ^ 64 - 1

abbrev pub ban_total : Option ℕ → ℕ → ℕ
ban_total none n = n
ban_total (some ms) n = (n + 1) % 2 ^ 64

-- A measured failure counts as slower than the limit of the route.
abbrev pub failed_average : ℕ → Option ℕ → ℕ → ℕ
failed_average slow_ms none average = average
failed_average slow_ms (some l) average = averaged average (max l ((slow_ms + 1) % 2 ^ 64))

abbrev pub failed_latency : Option ℕ → ℕ → ℕ
failed_latency none old = old
failed_latency (some l) old = l

-- The health of a route after a failure.
abbrev pub after_failure : ℕ → ℕ → Option ℕ → Text → Option ℕ → RouteState → RouteState
after_failure now slow_ms latency reason ban_ms st = record {
  banned_until_ms = ban_end now ban_ms st.banned_until_ms;
  consecutive_failures = (st.consecutive_failures + 1) % 2 ^ 32;
  consecutive_successes = 0;
  avg_latency_ms = failed_average slow_ms latency st.avg_latency_ms;
  last_latency_ms = failed_latency latency st.last_latency_ms;
  success_count = st.success_count;
  error_count = (st.error_count + 1) % 2 ^ 64;
  last_success_ms = st.last_success_ms;
  last_error_ms = now;
  last_probe_ms = st.last_probe_ms;
  ban_count = ban_total ban_ms st.ban_count;
  last_error_reason = some (trim_reason (scrub_credentials reason));
}

-- The totals of a proxy after a success, and after a failure.
abbrev pub total_success : ℕ → GlobalStats → GlobalStats
total_success now g = record {
  success_count = (g.success_count + 1) % 2 ^ 64;
  error_count = g.error_count;
  usage_count = (g.usage_count + 1) % 2 ^ 64;
  last_success_ms = now;
  last_error_ms = g.last_error_ms;
}

abbrev pub total_failure : ℕ → GlobalStats → GlobalStats
total_failure now g = record {
  success_count = g.success_count;
  error_count = (g.error_count + 1) % 2 ^ 64;
  usage_count = (g.usage_count + 1) % 2 ^ 64;
  last_success_ms = g.last_success_ms;
  last_error_ms = now;
}

observe_success-after :
    (now latency : ℕ) (st : RouteState)
    → clear_ban (observe_success now latency st) ≡ after_success now latency st
unfolding clear_ban observe_success blend_latency blend
observe_success-after now latency st = refl

observe_failure-after :
    (now slow_ms : ℕ) (latency : Option ℕ) (reason : Text) (ban_ms : Option ℕ) (st : RouteState)
    → maybe_ban now ban_ms (observe_failure now latency reason slow_ms st)
      ≡ after_failure now slow_ms latency reason ban_ms st
unfolding maybe_ban ban_for observe_failure observe_latency set_reason blend_latency blend
observe_failure-after now slow_ms none reason none st = refl
observe_failure-after now slow_ms none reason (some ms) st = refl
observe_failure-after now slow_ms (some l) reason none st = refl
observe_failure-after now slow_ms (some l) reason (some ms) st = refl

-- A success sets every field of the health of its own route: the ban is lifted, the failure streak ends,
-- the successes count on, and the latency enters the average. The health on every other route, the URL,
-- the tags and the transport flag stay, and the totals of the proxy count one more use and success.
pub record_success-fields :
    (now : ℕ) (id k : RouteId) (latency : ℕ) (e : Entry)
    → let e' = record_success now id latency e in
      SameProxy e e'
      × (e'.transport_fatal ≡ e.transport_fatal)
      × (e'.global ≡ total_success now e.global)
      × (health k e' ≡ (if id == k then after_success now latency (health k e) else health k e))
record_success-fields now id k latency e =
    let old = record_success_lem now id k latency e in
    (
      old.0,
      old.1,
      unfold record_success count_success on_route in refl,
      subst
          (λ st. health k (record_success now id latency e) ≡ (if id == k then st else health k e))
          (observe_success-after now latency (health k e)) old.2,
    )

maybe_mark-global : (now : ℕ) (g : Bool) (e : Entry) → (maybe_mark now g e).global ≡ e.global
unfolding maybe_mark mark_transport_fatal
maybe_mark-global now true e = ground arith
maybe_mark-global now false e = refl

-- A failure sets every field of the health of its own route: the failure streak and the errors count on,
-- the success streak ends, a measured latency enters the average as at least one more than the slow
-- limit, the reason is stored without passwords and cut, and the ban changes exactly if one is given,
-- to its end. The health on every other route, the URL and the tags stay, the proxy is marked dead only
-- if the failure is global, and the totals of the proxy count one more use and error.
pub record_failure-fields :
    (now : ℕ) (route : RouteDef) (k : RouteId) (latency : Option ℕ) (reason : Text)
    (ban_ms : Option ℕ) (global_fatal : Bool) (e : Entry)
    → let e' = record_failure now route latency reason ban_ms global_fatal e in
      SameProxy e e'
      × (e'.transport_fatal ≡ (if global_fatal then true else e.transport_fatal))
      × (e'.global ≡ total_failure now e.global)
      × (health k e' ≡ (
          if route.id == k
          then after_failure now route.slow_ms latency reason ban_ms (health k e)
          else health k e))
record_failure-fields now route k latency reason ban_ms global_fatal e =
    let old = record_failure_lem now route k latency reason ban_ms global_fatal e in
    (
      old.0,
      old.1 ∙ ground arith,
      unfold record_failure count_failure on_route in maybe_mark-global now global_fatal _,
      subst
          (λ st.
            health k (record_failure now route latency reason ban_ms global_fatal e)
            ≡ (if route.id == k then st else health k e))
          (observe_failure-after now route.slow_ms latency reason ban_ms (health k e)) old.2,
    )
