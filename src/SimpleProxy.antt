-- ===== src/SimpleProxy.antt =====
-- simple-proxy/src: handler.rs and redirect.rs. The client library that sends a request (outbound.rs),
-- the URL parser and the codecs are parameters.
pub mod Bits
pub mod Guarded
use proxy_systems.Common.{
  ℕ, zero, suc, ◌+◌, ◌*◌, ◌/◌, ◌%◌, Bool, true, false, not, ◌&&◌, ◌||◌, List, [], ◌∷◌, ◌++◌, Option,
  none, some, if◌then◌else◌, leb, ltb, ◌==◌, length, get_or_else,
}
use proxy_systems.Common.Text.{Text, codes, text_eq, starts_with}
use proxy_systems.Common.Results.{Result, ok, err}
use proxy_systems.Http.{Bytes, HeaderApi, Chunk}
use proxy_systems.Shared.{
  Codec, decode_target, is_http_url, filter_request_headers, filter_response_headers, cors_headers,
  insert_static, append_unless,
}
use proxy_systems.Upstream.{body_for}
use proxy_systems.Handler.{Incoming, is_redirection}
use mathlib.Core.Option

-- `x ^ y` and `x | y` on the low bits.
unfoldable pub xor_bits : ℕ → ℕ → ℕ → ℕ
xor_bits zero x y = 0
xor_bits (suc w) x y = (if x % 2 == y % 2 then 0 else 1) + 2 * xor_bits w (x / 2) (y / 2)

unfoldable pub or_bits : ℕ → ℕ → ℕ → ℕ
or_bits zero x y = 0
or_bits (suc w) x y = (if x % 2 == 0 && y % 2 == 0 then 0 else 1) + 2 * or_bits w (x / 2) (y / 2)

-- The loop over the pairs of bytes.
unfoldable pub diff_from : ℕ → Bytes → Bytes → ℕ
diff_from diff (x ∷ xs) (y ∷ ys) = diff_from (or_bits 8 diff (xor_bits 8 x y)) xs ys
diff_from diff [] ys = diff
diff_from diff (x ∷ xs) [] = diff

unfoldable pub constant_time_eq : Bytes → Bytes → Bool
constant_time_eq a b = if not (length a == length b) then false else diff_from 0 a b == 0

-- The URL crate: host, scheme, and a reference joined to a base.
pub record Urls : Type 0 where
  pub parses : Text → Bool
  pub host_of : Text → Option Text
  pub scheme : Text → Text
  pub join : Text → Text → Option Text

-- redirect.rs.
unfoldable pub resolve_redirect : Urls → Text → Text → Option Text
resolve_redirect urls location base_url =
    if is_http_url location
    then some location
    else if not (urls.parses base_url)
    then none
    else if starts_with location (codes "//")
    then some (urls.scheme base_url ++ (codes ":" ++ location))
    else urls.join base_url location

-- What is handed to the client library, and what it gives back.
pub record Sent (H : Type 0) : Type 0 where
  pub method : Text
  pub url : Text
  pub headers : H
  pub body : Option Bytes

pub record UpstreamResponse (H : Type 0) : Type 0 where
  pub status : ℕ
  pub headers : H
  pub stream : List Chunk

-- The answers, by the function that builds them.
pub data Answer (H : Type 0) : Type 0 where
  rejected : ℕ → Text → Answer H
  upstream_failed : Text → Answer H
  redirected : ℕ → H → Answer H
  streamed : ℕ → H → List Chunk → Answer H

module _ (api : HeaderApi) (codec : Codec) (urls : Urls) where
  open api use {Headers, HeaderValue, empty, entries, append, insert_valid, get}

  unfoldable pub build_redirect_response : ℕ → Headers → Text → Answer Headers
  build_redirect_response status resp_headers new_location = redirected status (
      insert_valid (codes "location") new_location (
        append_unless api (codes "location" ∷ [])
          (entries (filter_response_headers api resp_headers))
          (insert_static api cors_headers empty)))

  unfoldable pub build_stream_response : ℕ → Headers → List Chunk → Answer Headers
  build_stream_response status resp_headers stream =
      streamed status
        (append_unless api [] (entries (filter_response_headers api resp_headers))
          (insert_static api cors_headers empty))
        stream

  unfoldable pub redirect_or : Option Text → UpstreamResponse Headers → Answer Headers
  redirect_or (some resolved) response =
      build_redirect_response response.status response.headers resolved
  redirect_or none response = build_stream_response response.status response.headers response.stream

  unfoldable pub redirect_target : UpstreamResponse Headers → Text → Option Text
  redirect_target response target_url =
      if is_redirection response.status
      then Option.bind (get (codes "location") response.headers)
          (λ location. resolve_redirect urls location target_url)
      else none

  unfoldable pub answer_for : Result (UpstreamResponse Headers) → Text → Answer Headers
  answer_for (err e) target_url = upstream_failed (codes "Proxy Error: " ++ e)
  answer_for (ok response) target_url = redirect_or (redirect_target response target_url) response

  module _ (auth_token : Option Text)
      (send : Sent Headers → Result (UpstreamResponse Headers)) where
    -- What is sent, if anything, and the answer.
    abbrev pub Served : Type 0
    Served = Option (Sent Headers) × Answer Headers

    unfoldable pub send_out : Sent Headers → Served
    send_out out = (some out, answer_for (send out) out.url)

    unfoldable pub with_body : Text → Incoming Headers → Option Bytes → Served
    with_body target_url req none = (none, rejected 400 (codes "Failed to read request body"))
    with_body target_url req (some body_bytes) = send_out (record {
      method = req.method;
      url = target_url;
      headers = filter_request_headers api req.headers (get_or_else (urls.host_of target_url) []);
      body = body_for req.method body_bytes;
    })

    unfoldable pub with_target : Option Text → Incoming Headers → Served
    with_target none req = (none, rejected 400 (codes "Invalid base64 encoded URL"))
    with_target (some target_url) req =
        let served = with_body target_url req req.body in
        if urls.parses target_url then served else (none, rejected 400 (codes "Invalid target URL"))

    unfoldable pub with_header : Option Text → Incoming Headers → Served
    with_header none req = (none, rejected 400 (codes "Missing X-Target header"))
    with_header (some v) req = with_target (decode_target codec v) req

    unfoldable pub provided : Headers → Bytes
    provided headers = codec.bytes_of (get_or_else (get (codes "x-proxy-auth") headers) [])

    unfoldable pub is_authorized : Option Text → Headers → Bool
    is_authorized none headers = true
    is_authorized (some expected) headers =
        constant_time_eq (provided headers) (codec.bytes_of expected)

    unfoldable pub proxy_handler : Incoming Headers → Served
    proxy_handler req =
        let served = with_header (get (codes "x-target") req.headers) req in
        if is_authorized auth_token req.headers
        then served
        else (none, rejected 401 (codes "Unauthorized"))
