-- ===== src/Dispatch/Run.antt =====
-- intermediate-proxy/src/dispatch/mod.rs, `run` and `try_fatal`: the rounds of a request, what its
-- route says on exhaustion, and the answer.
pub mod Termination
pub mod Limit
use mathlib.Core.Option
use proxy_systems.Common.{
  ℕ, zero, suc, ◌+◌, Bool, true, false, not, ◌&&◌, ◌||◌, List, [], ◌∷◌, ◌++◌, Option, none, some,
  ltb, leb, ◌==◌, if◌then◌else◌, length,
}
use proxy_systems.Common.Text.{Text, codes}
use proxy_systems.Proxy.Entry.{Entry}
use proxy_systems.Proxy.Entry.Laws.{health}
use proxy_systems.Proxy.Store.{Addr, Store, modify}
use proxy_systems.Proxy.Pool.{ProxyPool, find_url}
use proxy_systems.Route.Def.{RouteDef, Selector, sticky_by_header}
use proxy_systems.Route.State.{Candidate, healthy, touch, build_plan, fallback_pool}
use proxy_systems.Http.{
  Bytes, HeaderApi, Reply, valid_status, bad_gateway, is_html, Exchange, replied, refused,
  timed_out,
}
use proxy_systems.Lua.{
  HookCtx, RequestMods, ExhaustedVerdict, try_fatal, retry_all, wait_probe, return_error, Hooks,
}
use proxy_systems.Dispatch.Outcome.{FailedResponse, Request, buffer_chunks, most_common}
use proxy_systems.Dispatch.Attempt.{AttemptOk, stream, buffered, given_up, World, base_ctx}
use proxy_systems.Dispatch.Prepare.{Prepared, sticky_key}
use proxy_systems.Dispatch.Sequential.{Progress, push_failure, dispatch_sequential}
use proxy_systems.Dispatch.Hedged.{
  HedgeEvent, HedgeResult, won, exhausted, pending, dispatch_hedged,
}

-- The answer to the client, by the function that builds it.
pub data Response (H : Type 0) : Type 0 where
  text_response : ℕ → Text → Response H
  buffered_response : ℕ → H → Bytes → Response H
  streaming_response : Reply H → Text → Bool → List Text → Response H
  failure_response : FailedResponse → Response H

unfoldable pub finalize_ok : {H : Type 0} → AttemptOk H → List Text → Response H
finalize_ok (stream reply url recover) tried = streaming_response reply url recover tried
finalize_ok (buffered status headers body) tried = buffered_response status headers body
finalize_ok (given_up status text) tried = text_response (valid_status status bad_gateway) text

-- What a round reads from outside, by its number: the pool, which a reload may replace between
-- rounds, the clock, the random draws, the schedule of a hedged dispatch; and the hash functions.
pub record Rounds : Type 0 where
  pub pool_at : ℕ → ProxyPool
  pub plan_now : ℕ → ℕ
  pub draw : ℕ → ℕ → ℕ
  pub events : ℕ → List HedgeEvent
  pub hash : Text → ℕ
  pub choose : List (ℕ × ℕ) → List (ℕ × ℕ)

-- The variables of the loop of `run`.
pub record Round : Type 0 where
  pub progress : Progress
  pub cursor : ℕ
  pub hard_rounds : ℕ
  pub forced : Option Text

-- A round answers, stops with everything exhausted, goes on, or is still waiting.
pub data RoundResult (H : Type 0) : Type 0 where
  answered : Response H → Progress → RoundResult H
  stopped : Progress → RoundResult H
  goes_on : Round → RoundResult H
  waits : RoundResult H

pub data RunResult (H : Type 0) : Type 0 where
  finished : Response H → RunResult H
  unfinished : RunResult H

-- 500..=599, 429 and 421, and then 403: what `try_fatal` passes over.
unfoldable pub is_fatal_failure : ℕ → Bool
is_fatal_failure status =
    leb 500 status && leb status 599 || status == 429 || status == 421 || status == 403

module _ (api : HeaderApi) where
  open api use {Headers, get, get_value}

  module _ (world : World Headers) (hooks : Hooks) (rounds : Rounds) (route : RouteDef)
      (req : Request Headers) (prep : Prepared api) (max_hard_attempts : ℕ) where
    open rounds use {pool_at, plan_now, draw, events, hash, choose}

    -- The forced proxy goes to the front of the first plan.
    unfoldable pub add_forced :
        ProxyPool → Option Text → List Candidate → Store → List Candidate × Store
    add_forced pool none plan s = (plan, s)
    add_forced pool (some url) plan s = elim (find_url pool url) [
      | none ↦ (plan, s)
      | some a ↦
          let (st, s') = touch route a s in
          (record { entry = a; tier = healthy; latency = st.avg_latency_ms } ∷ plan, s')
    ]

    -- The loop of `try_fatal` over the fallback pool.
    unfoldable pub try_fallbacks : List Addr → Progress → Option (Response Headers) × Progress
    try_fallbacks [] p = (none, p)
    try_fallbacks (a ∷ more) p =
        let e = p.store.entry a in
        let p' = record p { tick = p.tick + 1 } in
        elim (world.exchange p.tick e prep.base_headers) [
          | refused reason is_connect ↦ try_fallbacks more p'
          | timed_out ↦ try_fallbacks more p'
          | replied reply ↦
              let failed = record p' {
                failures =
                    push_failure
                      (if is_html (get (codes "content-type") reply.headers)
                        then none
                        else some (record {
                          status = valid_status reply.status bad_gateway;
                          content_type = get_value (codes "content-type") reply.headers;
                          body = buffer_chunks [] reply.chunks;
                        }))
                      p'.failures;
              } in
              let passed = try_fallbacks more failed in
              if is_fatal_failure reply.status
              then passed
              else (some (streaming_response reply e.url false p.tried), p')
        ]

    unfoldable pub try_fatal_pool : ℕ → Progress → Option (Response Headers) × Progress
    try_fatal_pool round p =
        let (fb, s') =
          fallback_pool (plan_now round) route (pool_at round).entries prep.pool_all prep.pool_any
            p.tried p.store in
        try_fallbacks fb (record p { store = s' })

    -- `hard_rounds += 1; if hard_rounds >= max_hard_attempts { break }`.
    unfoldable pub next_round : Round → List Text → RoundResult Headers
    next_round r tried =
        if leb max_hard_attempts (r.hard_rounds + 1)
        then stopped r.progress
        else goes_on (record r {
          hard_rounds = r.hard_rounds + 1;
          progress = record (r.progress) { tried = tried };
        })

    unfoldable pub on_verdict : ℕ → Round → ExhaustedVerdict → RoundResult Headers
    on_verdict round r try_fatal =
        let (answer, p') = try_fatal_pool round r.progress in
        elim answer [ some response ↦ answered response p' | none ↦ stopped p' ]
    on_verdict round r (wait_probe timeout_ms) = next_round r r.progress.tried
    on_verdict round r retry_all = next_round r []
    on_verdict round r (return_error status body) =
        answered (text_response (valid_status status bad_gateway) body) r.progress

    unfoldable pub exhausted_verdict : ℕ → Round → ExhaustedVerdict
    exhausted_verdict round r =
        if route.hooks.on_exhausted
        then hooks.on_exhausted round route.id
            (record (base_ctx api route req (api.pairs req.headers)) {
              attempt = length r.progress.tried + 1;
            })
        else try_fatal

    -- The plan of a round, with the forced proxy in it; the forced proxy is then forgotten.
    unfoldable pub plan_round : ℕ → Round → List Candidate × Round
    plan_round round r =
        let pool = pool_at round in
        let (plan, s', cursor') =
          build_plan (draw round) hash (plan_now round) route pool.entries prep.pool_all
            prep.pool_any (sticky_key api route.selector prep.base_headers) r.cursor
            r.progress.store in
        let (plan', s'') = add_forced pool r.forced plan s' in
        (
          plan',
          record r {
            progress = record (r.progress) { store = s'' };
            cursor = cursor';
            forced = none;
          },
        )

    unfoldable pub dispatch_plan :
        ℕ → Selector → List Candidate → Progress → HedgeResult Headers × Progress
    dispatch_plan round Selector.hedge plan p =
        dispatch_hedged api world hooks route req (api.pairs req.headers) prep.base_headers
          (events round) plan p
    dispatch_plan round _ plan p =
        let (answer, p') =
          dispatch_sequential api world hooks route req (api.pairs req.headers) prep.base_headers 0
            plan p in
        (elim answer [ some ok ↦ won ok | none ↦ exhausted ], p')

    -- `if !plan.is_empty() { .. }`.
    unfoldable pub dispatch_any : ℕ → List Candidate → Progress → HedgeResult Headers × Progress
    dispatch_any round [] p = (exhausted, p)
    dispatch_any round (c ∷ plan) p = dispatch_plan round route.selector (c ∷ plan) p

    -- What follows the dispatch of a round.
    unfoldable pub round_result : ℕ → Round → HedgeResult Headers → Progress → RoundResult Headers
    round_result round r (won ok) p = answered (finalize_ok ok p.tried) p
    round_result round r pending p = waits
    round_result round r exhausted p =
        let r' = record r { progress = p } in on_verdict round r' (exhausted_verdict round r')

    -- One round of the loop.
    unfoldable pub one_round : ℕ → Round → RoundResult Headers
    one_round round r =
        let (plan, r') = plan_round round r in
        let (result, p) = dispatch_any round plan r'.progress in round_result round r' result p

    unfoldable pub exhausted_text : Text
    exhausted_text = codes "Proxy Error: route '" ++ (route.name ++ codes "' exhausted")

    -- After the loop: the most common failure, or a text.
    unfoldable pub give_answer : List FailedResponse → Response Headers
    give_answer failures = elim (most_common choose failures) [
      | some f ↦ failure_response f
      | none ↦ text_response bad_gateway exhausted_text
    ]

    -- Where the loop goes after a round.
    unfoldable pub conclude : (Round → RunResult Headers) → RoundResult Headers → RunResult Headers
    conclude loop (answered response p) = finished response
    conclude loop (stopped p) = finished (give_answer p.failures)
    conclude loop (goes_on r) = loop r
    conclude loop waits = unfinished

    -- The loop, with fuel for the rounds.
    unfoldable pub run_rounds : ℕ → ℕ → Round → RunResult Headers
    run_rounds zero round r = unfinished
    run_rounds (suc fuel) round r = conclude (run_rounds fuel (round + 1)) (one_round round r)

    abbrev pub first_round : Store → ℕ → Round
    first_round s cursor = record {
      progress = record { store = s; tick = 0; tried = []; failures = [] };
      cursor = cursor;
      hard_rounds = 0;
      forced = prep.forced;
    }

    -- A route that goes on always does so with one more hard round, so that this fuel is enough.
    unfoldable pub run : Store → ℕ → RunResult Headers
    run s cursor = run_rounds (suc max_hard_attempts) 0 (first_round s cursor)
