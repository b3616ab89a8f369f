-- ===== src/Dispatch/Attempt.antt =====
-- intermediate-proxy/src/dispatch/mod.rs, `run_attempt`: one attempt through one proxy. The network,
-- the clock and the hooks answer by the number of the attempt within the request.
pub mod Effects
pub mod Recorded
use proxy_systems.Common.{
  ℕ, ◌+◌, Bool, true, false, not, ◌&&◌, ◌||◌, List, [], ◌∷◌, ◌++◌, Option, none, some, ltb, leb,
  ◌==◌, if◌then◌else◌, length, take, get_or_else, min,
}
use proxy_systems.Common.Text.{Text, codes, text_eq, starts_with}
use proxy_systems.Util.{sanitize_url}
use proxy_systems.Proxy.Entry.{Entry, is_transport_fatal_reason}
use proxy_systems.Route.Def.{RouteDef}
use proxy_systems.Http.{
  Bytes, HeaderApi, Reply, Collected, whole, cut, collect_body, valid_status, bad_gateway, is_html,
  Exchange, replied, refused, timed_out,
}
use proxy_systems.Lua.{
  HookCtx, HookRes, ResponseVerdict, success, return_as_is, retry_other_proxy, retry_same_proxy,
  hard_fail, give_up, Hooks,
}
use proxy_systems.Dispatch.Outcome.{
  FailedResponse, Request, max_capture_buffer, default_verdict, buffer_chunks, show,
}
use proxy_systems.Dispatch.Record.{record_success, record_failure}

pub data AttemptOk (H : Type 0) : Type 0 where
  stream : Reply H → Text → Bool → AttemptOk H
  buffered : ℕ → H → Bytes → AttemptOk H
  given_up : ℕ → Text → AttemptOk H

pub data AttemptResult (H : Type 0) : Type 0 where
  done : AttemptOk H → AttemptResult H
  next : Option FailedResponse → AttemptResult H

-- What lies outside the program: the exchange, the clock and the stopwatches of an attempt, and the
-- lossy decoding of a body.
pub record World (H : Type 0) : Type 0 where
  pub exchange : ℕ → Entry → H → Exchange H
  pub now : ℕ → ℕ
  pub elapsed : ℕ → ℕ
  pub since_start : ℕ → ℕ
  pub from_utf8_lossy : Bytes → Text

abbrev pub get_method : Text
get_method = codes "GET"

module _ (api : HeaderApi) where
  open api use {Headers, pairs, get, get_value, contains_key}

  -- stream.rs, `can_recover_stream`.
  unfoldable pub can_recover_stream : Headers → Reply Headers → Bool
  can_recover_stream req_headers reply =
      let content_type = get_or_else (get (codes "content-type") reply.headers) [] in
      (contains_key (codes "cache-control") req_headers
        || contains_key (codes "pragma") req_headers
        || contains_key (codes "if-none-match") req_headers
        || contains_key (codes "if-modified-since") req_headers)
      || (starts_with content_type (codes "audio/") || starts_with content_type (codes "video/"))

  unfoldable pub base_ctx : RouteDef → Request Headers → List (Text × Text) → HookCtx
  base_ctx route req hdr_pairs = record {
    route_name = route.name;
    target_url = req.target_url;
    host = req.host;
    path = req.path;
    method = req.method;
    headers = hdr_pairs;
    attempt = 1;
    proxy_url = none;
    proxy_tags = [];
    elapsed_ms = 0;
  }

  module _ (world : World Headers) (hooks : Hooks) (route : RouteDef) (req : Request Headers)
      (hdr_pairs : List (Text × Text)) (base_headers : Headers) where
    open world use {exchange, now, elapsed, since_start, from_utf8_lossy}

    unfoldable pub attempt_ctx : ℕ → ℕ → Entry → HookCtx
    attempt_ctx attempt k e = record (base_ctx route req hdr_pairs) {
      attempt = attempt;
      proxy_url = some (sanitize_url e.url);
      proxy_tags = e.tags;
      elapsed_ms = since_start k;
    }

    unfoldable pub verdict_of : ℕ → ℕ → Entry → HookRes → ResponseVerdict
    verdict_of attempt k e res =
        if route.hooks.on_response
        then hooks.on_response k route.id (attempt_ctx attempt k e) res route.default_ban_ms
        else default_verdict res.status route.default_ban_ms

    unfoldable pub status_reason : ℕ → Text
    status_reason status = codes "status " ++ show status

    unfoldable pub retry_same_reason : ℕ → Text
    retry_same_reason status = codes "retry_same status " ++ show status

    -- The verdict on a captured body.
    unfoldable pub apply_captured :
        ℕ → Entry → ℕ → Headers → Bytes → ResponseVerdict → AttemptResult Headers × Entry
    apply_captured k e status headers body success = (
      done (buffered (valid_status status 200) headers body),
      record_success (now k) route.id (elapsed k) e,
    )
    apply_captured k e status headers body return_as_is = (
      done (buffered (valid_status status 200) headers body),
      record_success (now k) route.id (elapsed k) e,
    )
    apply_captured k e status headers body (retry_other_proxy ban_for_ms) = (
      next (
          if is_html (get (codes "content-type") headers)
          then none
          else some (record {
            status = valid_status status bad_gateway;
            content_type = get_value (codes "content-type") headers;
            body = body;
          })),
      record_failure (now k) route (some (elapsed k)) (status_reason status) (some ban_for_ms) false
          e,
    )
    apply_captured k e status headers body (hard_fail reason) = (
      next none,
      record_failure (now k) route (some (elapsed k)) reason none (is_transport_fatal_reason reason)
          e,
    )
    apply_captured k e status headers body (retry_same_proxy delay_ms) = (
      next none,
      record_failure (now k) route (some (elapsed k)) (retry_same_reason status) none false e,
    )
    apply_captured k e status headers body (give_up code text) = (done (given_up code text), e)

    -- `Ok(b) if b.len() > MAX_CAPTURE_BUFFER => b.slice(0..MAX_CAPTURE_BUFFER)`.
    unfoldable pub cap_body : Bytes → Bytes
    cap_body b = if ltb max_capture_buffer (length b) then take max_capture_buffer b else b

    -- The capture path, once the body is there.
    unfoldable pub judge_captured :
        ℕ → ℕ → Entry → ℕ → Headers → Bytes → AttemptResult Headers × Entry
    judge_captured attempt k e status headers full = apply_captured k e status headers full (
        verdict_of attempt k e (record {
          status = status;
          headers = pairs headers;
          body_preview =
              some (from_utf8_lossy (take (min (length full) route.capture_body_bytes) full));
          elapsed_ms = elapsed k;
          bytes_received = length full;
        }))

    unfoldable pub judge_body :
        ℕ → ℕ → Entry → ℕ → Headers → Collected → AttemptResult Headers × Entry
    judge_body attempt k e status headers (whole body) =
        judge_captured attempt k e status headers (cap_body body)
    judge_body attempt k e status headers (cut reason) =
        (next none, record_failure (now k) route (some (elapsed k)) reason none false e)

    unfoldable pub capture_reply : ℕ → ℕ → Entry → Reply Headers → AttemptResult Headers × Entry
    capture_reply attempt k e reply =
        judge_body attempt k e reply.status reply.headers (collect_body [] reply.chunks)

    -- The verdict on a reply whose body was not read.
    unfoldable pub apply_streamed :
        ℕ → Entry → Reply Headers → ResponseVerdict → AttemptResult Headers × Entry
    apply_streamed k e reply success = (
      done (
          stream reply e.url
            (text_eq req.method get_method && can_recover_stream base_headers reply)),
      record_success (now k) route.id (elapsed k) e,
    )
    apply_streamed k e reply return_as_is =
        (done (stream reply e.url false), record_success (now k) route.id (elapsed k) e)
    apply_streamed k e reply (retry_other_proxy ban_for_ms) = (
      next (
          if is_html (get (codes "content-type") reply.headers)
          then none
          else some (record {
            status = valid_status reply.status bad_gateway;
            content_type = get_value (codes "content-type") reply.headers;
            body = buffer_chunks [] reply.chunks;
          })),
      record_failure (now k) route (some (elapsed k)) (status_reason reply.status) (some ban_for_ms)
          false e,
    )
    apply_streamed k e reply (hard_fail reason) =
        (next none, record_failure (now k) route (some (elapsed k)) reason none true e)
    apply_streamed k e reply (retry_same_proxy delay_ms) = (
      next none,
      record_failure (now k) route (some (elapsed k)) (retry_same_reason reply.status) none false e,
    )
    apply_streamed k e reply (give_up code text) = (done (given_up code text), e)

    unfoldable pub stream_reply : ℕ → ℕ → Entry → Reply Headers → AttemptResult Headers × Entry
    stream_reply attempt k e reply = apply_streamed k e reply (
        verdict_of attempt k e (record {
          status = reply.status;
          headers = pairs reply.headers;
          body_preview = none;
          elapsed_ms = elapsed k;
          bytes_received = 0;
        }))

    unfoldable pub timeout_reason : Text
    timeout_reason = codes "timeout " ++ (show route.timeout_ms ++ codes "ms")

    unfoldable pub judge_exchange : ℕ → ℕ → Entry → Exchange Headers → AttemptResult Headers × Entry
    judge_exchange attempt k e (refused reason is_connect) = (
      next none,
      record_failure (now k) route none reason none (is_connect || is_transport_fatal_reason reason)
          e,
    )
    judge_exchange attempt k e timed_out =
        (next none, record_failure (now k) route none timeout_reason none false e)
    judge_exchange attempt k e (replied reply) =
        if ltb 0 route.capture_body_bytes
        then capture_reply attempt k e reply
        else stream_reply attempt k e reply

    -- The `attempt`-th attempt of a plan, and the `k`-th exchange of the request.
    unfoldable pub run_attempt : ℕ → ℕ → Entry → AttemptResult Headers × Entry
    run_attempt attempt k e = judge_exchange attempt k e (exchange k e base_headers)
