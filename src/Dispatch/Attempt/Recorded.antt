-- ===== src/Dispatch/Attempt/Recorded.antt =====
-- intermediate-proxy/src/dispatch/mod.rs, `run_attempt`: what an attempt gives to the loops and what it
-- writes into the record of its proxy agree.
use proxy_systems.Common.{
  ℕ, ◌+◌, ◌%◌, ◌^◌, ◌≡◌, refl, ap, ◌∙◌, inl, inr, Bool, List, Option, arith, ◌==◌, ltb, Bool-cases,
  if◌then◌else◌,
}
use proxy_systems.Common.Text.{Text}
use proxy_systems.Proxy.Entry.{Entry}
use proxy_systems.Proxy.Entry.Laws.{health}
use proxy_systems.Route.Def.{RouteDef}
use proxy_systems.Http.{
  Bytes, HeaderApi, Reply, Collected, whole, cut, Exchange, replied, refused, timed_out,
}
use proxy_systems.Lua.{
  ResponseVerdict, success, return_as_is, retry_other_proxy, retry_same_proxy, hard_fail, give_up,
  Hooks,
}
use proxy_systems.Dispatch.Outcome.{Request}
use proxy_systems.Dispatch.Record.{record_success, record_failure}
use proxy_systems.Dispatch.Record.Fields.{
  after_success, total_success, total_failure, record_success-fields, record_failure-fields,
}
use proxy_systems.Dispatch.Attempt.{
  AttemptResult, done, next, stream, buffered, given_up, World, apply_captured, judge_captured,
  judge_body, capture_reply, apply_streamed, stream_reply, judge_exchange, run_attempt,
}

-- The proxy served: one success in its totals, and on its route one success with this latency, no ban
-- and no failure streak.
pub record RecordsSuccess (route : RouteDef) (now latency : ℕ) (e e' : Entry) : Type 0 where
  pub totals : e'.global ≡ total_success now e.global
  pub own : health route.id e' ≡ after_success now latency (health route.id e)
  pub alive : e'.transport_fatal ≡ e.transport_fatal

-- The proxy failed: one error in its totals, and on its route one more failure in a row, one more
-- error, and no successes in a row.
pub record RecordsFailure (route : RouteDef) (now : ℕ) (e e' : Entry) : Type 0 where
  pub totals : e'.global ≡ total_failure now e.global
  pub streak :
      (health route.id e').consecutive_failures
      ≡ ((health route.id e).consecutive_failures + 1) % 2 ^ 32
  pub errors : (health route.id e').error_count ≡ ((health route.id e).error_count + 1) % 2 ^ 64
  pub no_successes : (health route.id e').consecutive_successes ≡ 0
  pub at : (health route.id e').last_error_ms ≡ now

if_same : {A : Type 0} → (n : ℕ) (x y : A) → (if n == n then x else y) ≡ x
if_same n x y = ground arith

record_success-RecordsSuccess :
    (now : ℕ) (route : RouteDef) (latency : ℕ) (e : Entry)
    → RecordsSuccess route now latency e (record_success now route.id latency e)
record_success-RecordsSuccess now route latency e =
    let f = record_success-fields now route.id route.id latency e in
    record { totals = f.2; own = f.3 ∙ if_same route.id _ _; alive = f.1 }

record_failure-RecordsFailure :
    (now : ℕ) (route : RouteDef) (latency : Option ℕ) (reason : Text) (ban : Option ℕ) (g : Bool)
    (e : Entry)
    → RecordsFailure route now e (record_failure now route latency reason ban g e)
record_failure-RecordsFailure now route latency reason ban g e =
    let f = record_failure-fields now route route.id latency reason ban g e in
    let own = f.3 ∙ if_same route.id _ _ in
    record {
      totals = f.2;
      streak = ap (λ st. st.consecutive_failures) own;
      errors = ap (λ st. st.error_count) own;
      no_successes = ap (λ st. st.consecutive_successes) own;
      at = ap (λ st. st.last_error_ms) own;
    }

module _ (api : HeaderApi) where
  open api use {Headers}

  module _ (world : World Headers) (hooks : Hooks) (route : RouteDef) (req : Request Headers)
      (hdr_pairs : List (Text × Text)) (base_headers : Headers) where
    -- What the record of the proxy holds after the `k`-th exchange, by what the attempt gives: an answer
    -- from the proxy, an answer in place of the proxy's, or the next proxy.
    abbrev pub Recorded : ℕ → Entry → AttemptResult Headers → Entry → Type 0
    Recorded k e (done (stream reply url recover)) e' =
        RecordsSuccess route (world.now k) (world.elapsed k) e e'
    Recorded k e (done (buffered status h body)) e' =
        RecordsSuccess route (world.now k) (world.elapsed k) e e'
    Recorded k e (done (given_up status text)) e' = e' ≡ e
    Recorded k e (next failed) e' = RecordsFailure route (world.now k) e e'

    abbrev Kept : ℕ → Entry → AttemptResult Headers × Entry → Type 0
    Kept k e out = Recorded k e out.0 out.1

    apply_captured-Recorded :
        (k : ℕ) (e : Entry) (status : ℕ) (h : Headers) (body : Bytes) (v : ResponseVerdict)
        → Kept k e
            (apply_captured api world hooks route req hdr_pairs base_headers k e status h body v)
    unfolding apply_captured
    apply_captured-Recorded k e status h body success = record_success-RecordsSuccess _ route _ e
    apply_captured-Recorded k e status h body return_as_is =
        record_success-RecordsSuccess _ route _ e
    apply_captured-Recorded k e status h body (retry_other_proxy b) =
        record_failure-RecordsFailure _ route _ _ _ _ e
    apply_captured-Recorded k e status h body (retry_same_proxy d) =
        record_failure-RecordsFailure _ route _ _ _ _ e
    apply_captured-Recorded k e status h body (hard_fail r) =
        record_failure-RecordsFailure _ route _ _ _ _ e
    apply_captured-Recorded k e status h body (give_up c t) = refl

    apply_streamed-Recorded :
        (k : ℕ) (e : Entry) (reply : Reply Headers) (v : ResponseVerdict)
        → Kept k e (apply_streamed api world hooks route req hdr_pairs base_headers k e reply v)
    unfolding apply_streamed
    apply_streamed-Recorded k e reply success = record_success-RecordsSuccess _ route _ e
    apply_streamed-Recorded k e reply return_as_is = record_success-RecordsSuccess _ route _ e
    apply_streamed-Recorded k e reply (retry_other_proxy b) =
        record_failure-RecordsFailure _ route _ _ _ _ e
    apply_streamed-Recorded k e reply (retry_same_proxy d) =
        record_failure-RecordsFailure _ route _ _ _ _ e
    apply_streamed-Recorded k e reply (hard_fail r) =
        record_failure-RecordsFailure _ route _ _ _ _ e
    apply_streamed-Recorded k e reply (give_up c t) = refl

    judge_body-Recorded :
        (attempt k : ℕ) (e : Entry) (status : ℕ) (h : Headers) (c : Collected)
        → Kept k e
            (judge_body api world hooks route req hdr_pairs base_headers attempt k e status h c)
    unfolding judge_body judge_captured
    judge_body-Recorded attempt k e status h (whole body) = apply_captured-Recorded k e status h _ _
    judge_body-Recorded attempt k e status h (cut reason) =
        record_failure-RecordsFailure _ route _ _ _ _ e

    judge_exchange-Recorded :
        (attempt k : ℕ) (e : Entry) (x : Exchange Headers)
        → Kept k e (judge_exchange api world hooks route req hdr_pairs base_headers attempt k e x)
    unfolding judge_exchange stream_reply capture_reply
    judge_exchange-Recorded attempt k e (refused reason c) =
        record_failure-RecordsFailure _ route _ _ _ _ e
    judge_exchange-Recorded attempt k e timed_out = record_failure-RecordsFailure _ route _ _ _ _ e
    judge_exchange-Recorded attempt k e (replied reply) =
        elim (Bool-cases (ltb 0 route.capture_body_bytes)) [
          | inl b ↦ rw b (judge_body-Recorded attempt k e reply.status reply.headers _)
          | inr b ↦ rw b (apply_streamed-Recorded k e reply _)
        ]

    -- Whatever the network answers and the hook decides, what an attempt gives and what it records
    -- agree. Where it gives the proxy's answer, one success with its latency is recorded, the ban on the
    -- route and the failure streak are over, and the transport flag stays. Where it goes on to the next
    -- proxy, be it for a refused connection, a time-out, a body that breaks or a verdict, exactly one
    -- error is recorded, in the totals and on the route. Where it answers in the proxy's place, the
    -- record stays as it is.
    pub run_attempt-Recorded :
        (attempt k : ℕ) (e : Entry)
        → let out = run_attempt api world hooks route req hdr_pairs base_headers attempt k e in
          Recorded k e out.0 out.1
    unfolding run_attempt
    run_attempt-Recorded attempt k e = judge_exchange-Recorded attempt k e _
