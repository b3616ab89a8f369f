-- ===== src/Ipv6/Handler.antt =====
-- simple-ipv6-proxy/src/handler.rs: a request from its checks to the attempts from random source
-- addresses. The URL parser, the resolver, the random draws and the client are parameters; priming the
-- neighbour cache for a source sends a packet and decides nothing. Redirects and the headers of the
-- answer are those of the simple proxy, whose code the service repeats.
pub mod Attempts
use proxy_systems.Common.{
  ℕ, zero, suc, ◌+◌, ◌%◌, max, Bool, true, false, not, ◌&&◌, ◌||◌, List, [], ◌∷◌, ◌++◌, Option,
  none, some, if◌then◌else◌, ◌==◌, length, any, select, get_elem?, get_or_else, is_some,
}
use proxy_systems.Common.Text.{Text, codes, text_eq, has_text, to_ascii_lowercase}
use proxy_systems.Common.Results.{Result, ok, err}
use proxy_systems.Dispatch.Outcome.{show}
use proxy_systems.Http.{Bytes, HeaderApi}
use proxy_systems.Shared.{Codec, decode_target, filter_request_headers}
use proxy_systems.Upstream.{body_for}
use proxy_systems.Handler.{Incoming}
use proxy_systems.SimpleProxy.{
  Urls, UpstreamResponse, Answer, rejected, redirect_target, redirect_or,
}
use proxy_systems.Ipv6.Filter.{IpAddr, v4, v6, V6, is_blocked_ip}
use proxy_systems.Ipv6.Subnet.{Subnet, random_addr}
use mathlib.Core.Option

pub record ParsedUrl : Type 0 where
  pub scheme : Text
  pub host_str : Option Text
  pub port : Option ℕ
  pub path : Text
  pub query : Option Text

pub record SocketAddrV6 : Type 0 where
  pub ip : V6
  pub port : ℕ

-- What one attempt hands to the client.
pub record Hop (H : Type 0) : Type 0 where
  pub target : SocketAddrV6
  pub source : Option (List ℕ)
  pub url : Text
  pub host : Text
  pub method : Text
  pub headers : H
  pub body : Bytes

pub record HandlerState : Type 0 where
  pub subnet : Option Subnet
  pub max_attempts : ℕ
  pub retry_codes : List ℕ

unfoldable pub is_blocked_hostname : Text → Bool
is_blocked_hostname host =
    has_text
      (codes "localhost"
        ∷ codes "ip6-localhost"
        ∷ codes "ip6-loopback"
        ∷ codes "localhost.localdomain"
        ∷ [])
      (to_ascii_lowercase host)

unfoldable pub path_and_query : ParsedUrl → Text
path_and_query u = elim u.query [ none ↦ u.path | some q ↦ u.path ++ (codes "?" ++ q) ]

unfoldable pub is_https : ParsedUrl → Bool
is_https u = text_eq u.scheme (codes "https")

unfoldable pub port_of : ParsedUrl → ℕ
port_of u = get_or_else u.port (if is_https u then 443 else 80)

-- The answer that a literal address as host is refused with, if it is.
unfoldable pub literal_problem : Option IpAddr → Option (ℕ × Text)
literal_problem none = none
literal_problem (some (v4 a)) =
    if is_blocked_ip (v4 a)
    then some (400, codes "target address is internal/reserved and not allowed")
    else some (502, codes "IPv4 literal targets are not supported by this proxy")
literal_problem (some (v6 a)) =
    if is_blocked_ip (v6 a)
    then some (400, codes "target address is internal/reserved and not allowed")
    else none

-- Both tests of the host, the literal first.
unfoldable pub host_problem : Option IpAddr → Text → Option (ℕ × Text)
host_problem literal host = elim (literal_problem literal) [
  | some problem ↦ some problem
  | none ↦
      if is_blocked_hostname host
      then some (400, codes "target hostname is internal and not allowed")
      else none
]

unfoldable pub is_public : SocketAddrV6 → Bool
is_public sa = not (is_blocked_ip (v6 sa.ip))

module _ (api : HeaderApi) (codec : Codec) (parse : Text → Option ParsedUrl)
    (join : Text → Text → Option Text) (parse_ip : Text → Option IpAddr)
    (resolve_ipv6 : Text → ℕ → Result (List SocketAddrV6)) (draw : ℕ → List ℕ)
    (send : ℕ → Hop api.Headers → Result (UpstreamResponse api.Headers)) (show_ip : V6 → Text)
    (state : HandlerState) where
  open api use {Headers, get}

  unfoldable pub urls : Urls
  urls = record {
    parses = λ t. is_some (parse t);
    host_of = λ t. Option.bind (parse t) (λ u. u.host_str);
    scheme = λ t. get_or_else (Option.map (λ (u : ParsedUrl). u.scheme) (parse t)) [];
    join = join;
  }

  -- The hops that are attempted, in order, and the answer.
  abbrev pub Served : Type 0
  Served = List (Hop Headers) × Answer Headers

  unfoldable pub hop_for :
      ParsedUrl → Text → Text → Headers → Bytes → SocketAddrV6 → ℕ → Hop Headers
  hop_for u host method headers body target attempt = record {
    target = target;
    source = Option.map (λ s. random_addr (draw attempt) s) state.subnet;
    url =
        (if is_https u then codes "https" else codes "http")
        ++ (codes "://" ++ (host ++ path_and_query u));
    host = host;
    method = method;
    headers = headers;
    body = body;
  }

  unfoldable pub gave_up : ℕ → Option Text → Answer Headers
  gave_up max_attempts last_err = rejected 502 (
      codes "IPv6 connection failed after "
      ++ (show max_attempts
          ++ (codes " attempts: " ++ get_or_else last_err (codes "unknown error"))))

  -- What a round of the loop comes to: an answer, or the text of the error and the next round.
  pub data Round : Type 0 where
    answered : Answer Headers → Round
    again : Text → Round

  unfoldable pub judge : Text → SocketAddrV6 → Bool → Result (UpstreamResponse Headers) → Round
  judge target_url target is_last (err e) = again e
  judge target_url target is_last (ok response) =
      if not is_last && any (λ c. c == response.status) state.retry_codes
      then again
          (codes "status " ++ (show response.status ++ (codes " from " ++ show_ip target.ip)))
      else answered
          (redirect_or api codec urls (redirect_target api codec urls response target_url) response)

  unfoldable pub then_round : Hop Headers → Round → (Text → Served) → Served
  then_round hop (answered answer) later = (hop ∷ [], answer)
  then_round hop (again e) later = (hop ∷ (later e).0, (later e).1)

  -- `v6_addrs[attempt % v6_addrs.len()]`, of a list that is not empty.
  unfoldable pub address_for : SocketAddrV6 → List SocketAddrV6 → ℕ → SocketAddrV6
  address_for first more attempt =
      get_or_else (get_elem? (first ∷ more) (attempt % length (first ∷ more))) first

  -- The loop, with the number of attempts that are left.
  unfoldable pub try_attempts :
      (SocketAddrV6 → ℕ → Hop Headers)
      → Text
      → SocketAddrV6
      → List SocketAddrV6
      → ℕ
      → ℕ
      → Option Text
      → Served
  try_attempts hop_at target_url first more zero attempt last_err = ([], gave_up attempt last_err)
  try_attempts hop_at target_url first more (suc left) attempt last_err =
      let target = address_for first more attempt in
      then_round (hop_at target attempt)
        (judge target_url target (left == 0) (send attempt (hop_at target attempt)))
        (λ e. try_attempts hop_at target_url first more left (attempt + 1) (some e))

  unfoldable pub serve_addresses :
      Text → ParsedUrl → Text → Incoming Headers → List SocketAddrV6 → Option Bytes → Served
  serve_addresses target_url u host req [] body =
      ([], rejected 502 (codes "No public IPv6 address available for " ++ host))
  serve_addresses target_url u host req (first ∷ more) none =
      ([], rejected 400 (codes "Failed to read request body"))
  serve_addresses target_url u host req (first ∷ more) (some body_bytes) =
      try_attempts
        (hop_for u host req.method (filter_request_headers api req.headers host)
          (get_or_else (body_for req.method body_bytes) []))
        target_url first more (max state.max_attempts 1) 0 none

  unfoldable pub serve_resolved :
      Text → ParsedUrl → Text → Incoming Headers → Result (List SocketAddrV6) → Served
  serve_resolved target_url u host req (err e) =
      ([], rejected 502 (codes "IPv6 DNS lookup failed: " ++ e))
  serve_resolved target_url u host req (ok resolved) =
      serve_addresses target_url u host req (select is_public resolved) req.body

  unfoldable pub serve_host :
      Text → ParsedUrl → Text → Incoming Headers → Option (ℕ × Text) → Served
  serve_host target_url u host req (some (status, problem)) = ([], rejected status problem)
  serve_host target_url u host req none =
      serve_resolved target_url u host req (resolve_ipv6 host (port_of u))

  unfoldable pub serve_named : Text → ParsedUrl → Option Text → Incoming Headers → Served
  serve_named target_url u none req = ([], rejected 400 (codes "Target URL has no host"))
  serve_named target_url u (some host) req =
      serve_host target_url u host req (host_problem (parse_ip host) host)

  unfoldable pub serve_parsed : Text → Option ParsedUrl → Incoming Headers → Served
  serve_parsed target_url none req = ([], rejected 400 (codes "Invalid target URL"))
  serve_parsed target_url (some u) req = serve_named target_url u u.host_str req

  unfoldable pub serve_target : Option Text → Incoming Headers → Served
  serve_target none req = ([], rejected 400 (codes "Invalid base64 encoded URL"))
  serve_target (some target_url) req = serve_parsed target_url (parse target_url) req

  unfoldable pub serve_header : Option Text → Incoming Headers → Served
  serve_header none req = ([], rejected 400 (codes "Missing X-Target header"))
  serve_header (some v) req = serve_target (decode_target codec v) req

  unfoldable pub proxy_handler : Incoming Headers → Served
  proxy_handler req = serve_header (get (codes "x-target") req.headers) req
