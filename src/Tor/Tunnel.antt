-- ===== src/Tor/Tunnel.antt =====
-- tor-proxy/src/handler.rs before the loop over the nodes, tunnel.rs, and control.rs: the request that
-- goes through a node, and the dialogue with its control port.
use proxy_systems.Common.{
  ℕ, Bool, true, List, [], ◌∷◌, ◌++◌, Option, none, some, if◌then◌else◌, get_or_else,
}
use proxy_systems.Common.Text.{Text, codes, starts_with}
use proxy_systems.Common.Results.{Result, ok, err}
use proxy_systems.Http.{Bytes, HeaderApi}
use proxy_systems.Shared.{Codec, decode_target, filter_request_headers}
use proxy_systems.Upstream.{body_for}
use proxy_systems.Handler.{Incoming}
use proxy_systems.Ipv6.Handler.{ParsedUrl, path_and_query, port_of, is_https}
use proxy_systems.Proxy.Loader.{trim}
use mathlib.Core.Option

-- What the loop over the nodes sends through each of them.
pub record TorRequest : Type 0 where
  pub target_url : Text
  pub method : Text
  pub header_pairs : List (Text × Text)
  pub body : Option Bytes

-- What `http_over_socks5` puts on the wire of the tunnel: the destination, whether TLS wraps it, and the
-- request with its header lines in order.
pub record Wire : Type 0 where
  pub host : Text
  pub port : ℕ
  pub tls : Bool
  pub method : Text
  pub path : Text
  pub headers : List (Text × Text)
  pub body : Bytes

-- `Request::builder().header("host", host)`, and then each header of the list is appended.
unfoldable pub wire_for : ParsedUrl → Text → TorRequest → Wire
wire_for u host req = record {
  host = host;
  port = port_of u;
  tls = is_https u;
  method = req.method;
  path = path_and_query u;
  headers = (codes "host", host) ∷ req.header_pairs;
  body = get_or_else req.body [];
}

unfoldable pub wire_named : ParsedUrl → Option Text → TorRequest → Result Wire
wire_named u none req = err (codes "no host in URL")
wire_named u (some host) req = ok (wire_for u host req)

unfoldable pub http_over_socks5 : (Text → Result ParsedUrl) → TorRequest → Result Wire
http_over_socks5 parse req = elim (parse req.target_url) [
  | err e ↦ err e
  | ok u ↦ wire_named u u.host_str req
]

module _ (api : HeaderApi) (codec : Codec) (parse : Text → Result ParsedUrl) where
  open api use {Headers, HeaderValue, entries, get, to_str}

  -- The value of a header, or an empty text where it is no text.
  unfoldable pub header_pairs_of : List (Text × HeaderValue) → List (Text × Text)
  header_pairs_of [] = []
  header_pairs_of ((k, v) ∷ more) = (k, get_or_else (to_str v) []) ∷ header_pairs_of more

  unfoldable pub request_parsed :
      Text → Incoming Headers → Bytes → Result ParsedUrl → Result TorRequest
  request_parsed target_url req body_bytes (err e) = err (codes "Invalid target URL")
  request_parsed target_url req body_bytes (ok u) = ok (record {
    target_url = target_url;
    method = req.method;
    header_pairs =
        header_pairs_of
          (entries (filter_request_headers api req.headers (get_or_else u.host_str [])));
    body = body_for req.method body_bytes;
  })

  unfoldable pub request_with_body : Text → Incoming Headers → Option Bytes → Result TorRequest
  request_with_body target_url req none = err (codes "Failed to read request body")
  request_with_body target_url req (some body_bytes) =
      request_parsed target_url req body_bytes (parse target_url)

  unfoldable pub request_for : Option Text → Incoming Headers → Result TorRequest
  request_for none req = err (codes "Missing or invalid X-Target header")
  request_for (some target_url) req = request_with_body target_url req req.body

  -- The checks of `proxy_handler`: the request, or the text of the answer with status 400.
  unfoldable pub checked_request : Incoming Headers → Result TorRequest
  checked_request req =
      request_for (Option.bind (get (codes "x-target") req.headers) (decode_target codec)) req

-- `send_newnym`, over the lines that the control port answers with: what is written, and the result.
unfoldable pub authenticate_line : Text → Text
authenticate_line password = codes "AUTHENTICATE \"" ++ (password ++ codes "\"\r\n")

unfoldable pub newnym_line : Text
newnym_line = codes "SIGNAL NEWNYM\r\n"

unfoldable pub newnym_answer : Text → Result Bool
newnym_answer line =
    if starts_with line (codes "250") then ok true else err (codes "NEWNYM failed: " ++ trim line)

unfoldable pub send_newnym : Text → Text → Text → List Text × Result Bool
send_newnym password auth_answer signal_answer =
    if starts_with auth_answer (codes "250")
    then (authenticate_line password ∷ newnym_line ∷ [], newnym_answer signal_answer)
    else (authenticate_line password ∷ [], err (codes "auth failed: " ++ trim auth_answer))
