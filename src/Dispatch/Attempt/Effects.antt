-- ===== src/Dispatch/Attempt/Effects.antt =====
-- What an attempt of intermediate-proxy/src/dispatch/mod.rs may do to the record of its proxy.
use proxy_systems.Common.{
  ℕ, ◌≡◌, refl, inl, inr, Bool, false, List, Option, arith, ◌==◌, ltb, Bool-cases,
}
use proxy_systems.Common.Text.{Text}
use proxy_systems.Proxy.Entry.{Entry, RouteId}
use proxy_systems.Proxy.Entry.Laws.{health}
use proxy_systems.Route.Def.{RouteDef}
use proxy_systems.Http.{
  Bytes, HeaderApi, Reply, Collected, whole, cut, Exchange, replied, refused, timed_out,
}
use proxy_systems.Lua.{
  ResponseVerdict, success, return_as_is, retry_other_proxy, retry_same_proxy, hard_fail, give_up,
  Hooks,
}
use proxy_systems.Dispatch.Outcome.{Request, default_verdict}
use proxy_systems.Dispatch.Record.{record_success, record_failure}
use proxy_systems.Dispatch.Record.Laws.{SameProxy, record_success_lem, record_failure_lem}
use proxy_systems.Dispatch.Attempt.{
  World, apply_captured, judge_captured, judge_body, capture_reply, apply_streamed, stream_reply,
  judge_exchange, run_attempt, verdict_of,
}

-- An attempt on a route leaves the URL, the tags and the health on all other routes alone.
abbrev pub Keeps : RouteId → Entry → Entry → Type 0
Keeps id e e' = SameProxy e e' × ((k : RouteId) → (id == k) ≡ false → health k e' ≡ health k e)

Keeps-refl : (id : RouteId) (e : Entry) → Keeps id e e
Keeps-refl id e = (record { url = refl; tags = refl }, λ k n. refl)

record_success-Keeps :
    (now : ℕ) (id : RouteId) (latency : ℕ) (e : Entry)
    → Keeps id e (record_success now id latency e)
record_success-Keeps now id latency e = (
  (record_success_lem now id id latency e).0,
  λ k n. ground (arith, (record_success_lem now id k latency e).2),
)

record_failure-Keeps :
    (now : ℕ) (route : RouteDef) (latency : Option ℕ) (reason : Text) (ban : Option ℕ) (g : Bool)
    (e : Entry)
    → Keeps route.id e (record_failure now route latency reason ban g e)
record_failure-Keeps now route latency reason ban g e = (
  (record_failure_lem now route route.id latency reason ban g e).0,
  λ k n. ground (arith, (record_failure_lem now route k latency reason ban g e).2),
)

module _ (api : HeaderApi) where
  open api use {Headers}

  module _ (world : World Headers) (hooks : Hooks) (route : RouteDef) (req : Request Headers)
      (hdr_pairs : List (Text × Text)) (base_headers : Headers) where
    apply_captured-Keeps :
        (k : ℕ) (e : Entry) (status : ℕ) (h : Headers) (body : Bytes) (v : ResponseVerdict)
        → Keeps route.id e
            (apply_captured api world hooks route req hdr_pairs base_headers k e status h body v).1
    unfolding apply_captured
    apply_captured-Keeps k e status h body success = record_success-Keeps _ route.id _ e
    apply_captured-Keeps k e status h body return_as_is = record_success-Keeps _ route.id _ e
    apply_captured-Keeps k e status h body (retry_other_proxy b) =
        record_failure-Keeps _ route _ _ _ _ e
    apply_captured-Keeps k e status h body (retry_same_proxy d) =
        record_failure-Keeps _ route _ _ _ _ e
    apply_captured-Keeps k e status h body (hard_fail r) = record_failure-Keeps _ route _ _ _ _ e
    apply_captured-Keeps k e status h body (give_up c t) = Keeps-refl route.id e

    apply_streamed-Keeps :
        (k : ℕ) (e : Entry) (reply : Reply Headers) (v : ResponseVerdict)
        → Keeps route.id e
            (apply_streamed api world hooks route req hdr_pairs base_headers k e reply v).1
    unfolding apply_streamed
    apply_streamed-Keeps k e reply success = record_success-Keeps _ route.id _ e
    apply_streamed-Keeps k e reply return_as_is = record_success-Keeps _ route.id _ e
    apply_streamed-Keeps k e reply (retry_other_proxy b) = record_failure-Keeps _ route _ _ _ _ e
    apply_streamed-Keeps k e reply (retry_same_proxy d) = record_failure-Keeps _ route _ _ _ _ e
    apply_streamed-Keeps k e reply (hard_fail r) = record_failure-Keeps _ route _ _ _ _ e
    apply_streamed-Keeps k e reply (give_up c t) = Keeps-refl route.id e

    judge_body-Keeps :
        (attempt k : ℕ) (e : Entry) (status : ℕ) (h : Headers) (c : Collected)
        → Keeps route.id e
            (judge_body api world hooks route req hdr_pairs base_headers attempt k e status h c).1
    unfolding judge_body judge_captured
    judge_body-Keeps attempt k e status h (whole body) = apply_captured-Keeps k e status h _ _
    judge_body-Keeps attempt k e status h (cut reason) = record_failure-Keeps _ route _ _ _ _ e

    judge_exchange-Keeps :
        (attempt k : ℕ) (e : Entry) (x : Exchange Headers)
        → Keeps route.id e
            (judge_exchange api world hooks route req hdr_pairs base_headers attempt k e x).1
    unfolding judge_exchange stream_reply capture_reply
    judge_exchange-Keeps attempt k e (refused reason c) = record_failure-Keeps _ route _ _ _ _ e
    judge_exchange-Keeps attempt k e timed_out = record_failure-Keeps _ route _ _ _ _ e
    judge_exchange-Keeps attempt k e (replied reply) =
        elim (Bool-cases (ltb 0 route.capture_body_bytes)) [
          | inl b ↦ rw b (judge_body-Keeps attempt k e reply.status reply.headers _)
          | inr b ↦ rw b (apply_streamed-Keeps k e reply _)
        ]

    pub attempt-Keeps :
        (attempt k : ℕ) (e : Entry)
        → Keeps route.id e
            (run_attempt api world hooks route req hdr_pairs base_headers attempt k e).1
    unfolding run_attempt
    attempt-Keeps attempt k e = judge_exchange-Keeps attempt k e _

    -- Whatever the network answers and the hook decides, an attempt leaves the URL and the tags of its
    -- proxy and its health on every other route as they were.
    pub run_attempt-SameProxy :
        (attempt k : ℕ) (e : Entry) (other : RouteId)
        → (route.id == other) ≡ false
        → let e' = (run_attempt api world hooks route req hdr_pairs base_headers attempt k e).1 in
          SameProxy e e' × (health other e' ≡ health other e)
    run_attempt-SameProxy attempt k e other n =
        ((attempt-Keeps attempt k e).0, (attempt-Keeps attempt k e).1 other n)

    -- Neither answering as it is nor trying the next proxy says that the proxy is dead.
    abbrev Mild : ResponseVerdict → Type 0
    Mild (hard_fail reason) = ⊥
    Mild _ = Unit

    apply_streamed-alive :
        (k : ℕ) (e : Entry) (reply : Reply Headers) (v : ResponseVerdict)
        → Mild v
        → (apply_streamed api world hooks route req hdr_pairs base_headers k e reply
            v).1.transport_fatal
          ≡ e.transport_fatal
    unfolding apply_streamed
    apply_streamed-alive k e reply success m = (record_success_lem _ route.id 0 _ e).1
    apply_streamed-alive k e reply return_as_is m = (record_success_lem _ route.id 0 _ e).1
    apply_streamed-alive k e reply (retry_other_proxy b) m =
        (record_failure_lem _ route 0 _ _ _ false e).1
    apply_streamed-alive k e reply (retry_same_proxy d) m =
        (record_failure_lem _ route 0 _ _ _ false e).1
    apply_streamed-alive k e reply (hard_fail r) m = absurd m
    apply_streamed-alive k e reply (give_up c t) m = refl

    apply_captured-alive :
        (k : ℕ) (e : Entry) (status : ℕ) (h : Headers) (body : Bytes) (v : ResponseVerdict)
        → Mild v
        → (apply_captured api world hooks route req hdr_pairs base_headers k e status h body
            v).1.transport_fatal
          ≡ e.transport_fatal
    unfolding apply_captured
    apply_captured-alive k e status h body success m = (record_success_lem _ route.id 0 _ e).1
    apply_captured-alive k e status h body return_as_is m = (record_success_lem _ route.id 0 _ e).1
    apply_captured-alive k e status h body (retry_other_proxy b) m =
        (record_failure_lem _ route 0 _ _ _ false e).1
    apply_captured-alive k e status h body (retry_same_proxy d) m =
        (record_failure_lem _ route 0 _ _ _ false e).1
    apply_captured-alive k e status h body (hard_fail r) m = absurd m
    apply_captured-alive k e status h body (give_up c t) m = refl

    default_verdict-Mild : (status ban : ℕ) → Mild (default_verdict status ban)
    unfolding default_verdict
    default_verdict-Mild status ban = ground arith

    judge_body-alive :
        (attempt k : ℕ) (e : Entry) (status : ℕ) (h : Headers) (c : Collected)
        → route.hooks.on_response ≡ false
        → (judge_body api world hooks route req hdr_pairs base_headers attempt k e status h
            c).1.transport_fatal
          ≡ e.transport_fatal
    unfolding judge_body judge_captured verdict_of
    judge_body-alive attempt k e status h (whole body) off = simp off (
        apply_captured-alive k e status h _ (default_verdict status route.default_ban_ms)
          (default_verdict-Mild status route.default_ban_ms))
    judge_body-alive attempt k e status h (cut reason) off =
        (record_failure_lem _ route 0 _ _ _ false e).1

    -- On a route without a response hook no HTTP reply, whatever its status or body, changes
    -- whether its proxy is marked dead.
    pub run_attempt-alive :
        (attempt k : ℕ) (e : Entry) (reply : Reply Headers)
        → route.hooks.on_response ≡ false
        → world.exchange k e base_headers ≡ replied reply
        → (run_attempt api world hooks route req hdr_pairs base_headers attempt k
            e).1.transport_fatal
          ≡ e.transport_fatal
    unfolding run_attempt judge_exchange stream_reply verdict_of capture_reply
    run_attempt-alive attempt k e reply off x = elim (Bool-cases (ltb 0 route.capture_body_bytes)) [
      | inl b ↦ simp (x, b) (judge_body-alive attempt k e reply.status reply.headers _ off)
      | inr b ↦
          simp (x, b, off)
            (apply_streamed-alive k e reply (default_verdict reply.status route.default_ban_ms)
              (default_verdict-Mild reply.status route.default_ban_ms))
    ]
