-- ===== src/Upstream.antt =====
-- intermediate-proxy/src/upstream and forward.rs: the request that goes out for a client's request, by
-- the kind of the upstream. Sending it, and the clients, belong to the library reqwest.
use proxy_systems.Common.{
  ℕ, Bool, not, ◌&&◌, List, [], ◌∷◌, ◌++◌, Option, none, some, if◌then◌else◌, ltb, is_empty,
  get_or_else, take, length, min, map,
}
use proxy_systems.Common.Text.{Text, codes, text_eq, starts_with, strip_prefix, to_ascii_lowercase}
use proxy_systems.Common.Results.{Result, ok, err}
use proxy_systems.Proxy.Loader.{trim}
use proxy_systems.Dispatch.Outcome.{show}
use proxy_systems.Route.Prober.{ProbeReply}
use proxy_systems.Http.{
  Bytes, HeaderApi, Exchange, replied, refused, timed_out, Collected, whole, collect_body,
}
use proxy_systems.Shared.{Codec, decode_target, filter_request_headers, append_unless}

pub data UpstreamKind : Type 0 where
  endpoint : Text → UpstreamKind
  http_proxy : Text → UpstreamKind
  socks5 : Text → UpstreamKind

-- The kind of a proxy URL, with the URL that the client is built on.
unfoldable pub parse_upstream : Text → UpstreamKind
parse_upstream url =
    let url_trimmed = trim url in
    let forwarded : UpstreamKind = elim (strip_prefix (codes "forward://") url_trimmed) [
      | none ↦ endpoint url_trimmed
      | some rest ↦ http_proxy (codes "http://" ++ rest)
    ] in
    if starts_with url_trimmed (codes "socks5://") then socks5 url_trimmed else forwarded

-- What is handed to the client of an upstream.
pub record Outgoing (H : Type 0) : Type 0 where
  pub kind : UpstreamKind
  pub url : Text
  pub method : Text
  pub headers : H
  pub body : Option Bytes

-- The headers that are scoped to the connection or to the host.
unfoldable pub skip_headers : List Text
skip_headers =
    codes "host"
    ∷ codes "accept-encoding"
    ∷ codes "content-length"
    ∷ codes "transfer-encoding"
    ∷ codes "connection"
    ∷ codes "keep-alive"
    ∷ codes "proxy-connection"
    ∷ codes "te"
    ∷ codes "trailer"
    ∷ codes "upgrade"
    ∷ codes "cf-connecting-ip"
    ∷ codes "cf-ipcountry"
    ∷ codes "cf-ray"
    ∷ codes "cf-visitor"
    ∷ codes "x-forwarded-for"
    ∷ codes "x-forwarded-proto"
    ∷ codes "x-forwarded-host"
    ∷ codes "x-real-ip"
    ∷ []

-- `*method != GET && *method != HEAD && !body.is_empty()`.
unfoldable pub body_for : Text → Bytes → Option Bytes
body_for method body =
    if not (text_eq method (codes "GET"))
      && not (text_eq method (codes "HEAD"))
      && not (is_empty body)
    then some body
    else none

module _ (api : HeaderApi) where
  open api use {
    Headers, HeaderValue, empty, entries, append, insert, insert_valid, from_static, get, pairs,
  }

  unfoldable pub insert_all : List (Text × HeaderValue) → Headers → Headers
  insert_all [] h = h
  insert_all ((name, value) ∷ more) h = insert_all more (insert name value h)

  -- `extra_headers`, each over what is there.
  unfoldable pub with_extra : Option Headers → Headers → Headers
  with_extra none h = h
  with_extra (some extra) h = insert_all (entries extra) h

  -- endpoint.rs, `forward`: a header that is one already is valid for the client too.
  unfoldable pub endpoint_forward :
      Text → Text → Headers → Bytes → Option Headers → Outgoing Headers
  endpoint_forward endpoint_url method headers body extra_headers = record {
    kind = endpoint endpoint_url;
    url = endpoint_url;
    method = method;
    headers =
        insert (codes "accept-encoding") (from_static (codes "identity"))
          (with_extra extra_headers (append_unless api skip_headers (entries headers) empty));
    body = body_for method body;
  }

  module _ (codec : Codec) (host_of : Text → Option Text) where
    -- http_proxy.rs and socks.rs, `forward`.
    unfoldable pub proxy_forward :
        UpstreamKind → Text → Text → Headers → Bytes → Option Headers → Outgoing Headers
    proxy_forward kind target_url method headers body extra_headers = record {
      kind = kind;
      url = target_url;
      method = method;
      headers =
          append_unless api []
            (entries (
              with_extra extra_headers
                (filter_request_headers api headers (get_or_else (host_of target_url) []))))
            empty;
      body = body_for method body;
    }

    unfoldable pub target_in : Headers → Text
    target_in headers =
        get_or_else (decode_target codec (get_or_else (get (codes "x-target") headers) [])) []

    unfoldable pub send_to_upstream :
        UpstreamKind → Text → Headers → Bytes → Option Headers → Outgoing Headers
    send_to_upstream (endpoint url) method headers body extra_headers =
        endpoint_forward url method headers body extra_headers
    send_to_upstream (http_proxy proxy) method headers body extra_headers =
        proxy_forward (http_proxy proxy) (target_in headers) method headers body extra_headers
    send_to_upstream (socks5 proxy) method headers body extra_headers =
        proxy_forward (socks5 proxy) (target_in headers) method headers body extra_headers

    unfoldable pub insert_valid_all : List (Text × Text) → Headers → Headers
    insert_valid_all [] h = h
    insert_valid_all ((name, value) ∷ more) h = insert_valid_all more (insert_valid name value h)

    -- The request of a probe.
    unfoldable pub probe_headers : Text → List (Text × Text) → Headers
    probe_headers probe_url extra = insert_valid_all extra (
        insert (codes "accept") (from_static (codes "*/*"))
          (insert_valid (codes "x-target") (codec.encode (codec.bytes_of probe_url)) empty))

    -- The body of a probe, where it comes in time and whole.
    unfoldable pub preview : (Bytes → Text) → ℕ → Option Collected → Option Text
    preview from_utf8_lossy capture_bytes (some (whole b)) =
        some (from_utf8_lossy (take (min (length b) capture_bytes) b))
    preview from_utf8_lossy capture_bytes _ = none

    unfoldable pub probe_result :
        (Bytes → Text) → ℕ → ℕ → Bool → Exchange Headers → Result ProbeReply
    probe_result from_utf8_lossy timeout_ms capture_bytes body_in_time (replied reply) =
        ok (record {
          status = reply.status;
          headers = map (λ kv. (to_ascii_lowercase kv.0, kv.1)) (pairs reply.headers);
          body_preview =
              if ltb 0 capture_bytes
              then preview from_utf8_lossy capture_bytes
                  (if body_in_time then some (collect_body [] reply.chunks) else none)
              else none;
        })
    probe_result from_utf8_lossy timeout_ms capture_bytes body_in_time (refused reason connect) =
        err reason
    probe_result from_utf8_lossy timeout_ms capture_bytes body_in_time timed_out =
        err (codes "timeout " ++ (show timeout_ms ++ codes "ms"))

    -- `probe_request`, over a client that carries the outgoing request out.
    unfoldable pub probe_request :
        (Outgoing Headers → Exchange Headers)
        → (Bytes → Text)
        → Bool
        → UpstreamKind
        → Text
        → ℕ
        → ℕ
        → List (Text × Text)
        → Result ProbeReply
    probe_request send from_utf8_lossy body_in_time kind probe_url timeout_ms capture_bytes extra =
        probe_result from_utf8_lossy timeout_ms capture_bytes body_in_time
          (send (send_to_upstream kind (codes "GET") (probe_headers probe_url extra) [] none))
