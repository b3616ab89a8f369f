-- ===== src/Handler.antt =====
-- intermediate-proxy/src/handler.rs: from a client's request to the dispatch and back. The URL parser,
-- the resolver, the routing predicates and the dispatch are parameters.
pub mod Laws
pub mod Target
pub mod Redirect
use proxy_systems.Common.{
  ℕ, ◌*◌, Bool, true, false, ◌&&◌, ◌||◌, List, [], ◌∷◌, ◌++◌, map, reverse, Option, none, some,
  if◌then◌else◌, leb, ltb, ◌==◌, get_or_else,
}
use proxy_systems.Common.Text.{Text, codes, text_eq, to_ascii_lowercase}
use proxy_systems.Http.{Bytes, HeaderApi}
use proxy_systems.Shared.{Codec, decode_target, is_http_url}
use proxy_systems.Route.Def.{RouteDef}
use proxy_systems.Route.Select.{select_route}
use proxy_systems.Proxy.Entry.{RouteId}
use proxy_systems.Lua.{HookCtx}
use proxy_systems.Dispatch.Outcome.{Request}
use mathlib.Core.Option

abbrev pub max_body_bytes : ℕ
max_body_bytes = 10 * 1024 * 1024

-- What the client sent: `body` is what `to_bytes` reads within `max_body_bytes`, if it can.
pub record Incoming (H : Type 0) : Type 0 where
  pub method : Text
  pub headers : H
  pub body : Option Bytes

-- The head of the answer of a dispatch; its body passes through as it is.
pub record Head (H : Type 0) : Type 0 where
  pub status : ℕ
  pub headers : H

-- The answers of the handler itself, and those of the dispatch.
pub data Served (H : Type 0) : Type 0 where
  rejected : ℕ → Text → Served H
  unresolved : ℕ → Text → Served H
  dispatched : Head H → Served H

-- The URL crate: the host and the path of a URL, and the URL that a reference leads to from a base.
pub record UrlApi : Type 0 where
  pub parse : Text → Option (Option Text × Text)
  pub join : Text → Text → Option (Option Text)

-- `trim_end_matches('/')`.
unfoldable pub drop_slashes : Text → Text
drop_slashes [] = []
drop_slashes (c ∷ s) = let rest = drop_slashes s in if c == b'/' then rest else c ∷ s

unfoldable pub trim_slashes : Text → Text
trim_slashes s = reverse (drop_slashes (reverse s))

-- `status.is_redirection()`.
unfoldable pub is_redirection : ℕ → Bool
is_redirection status = leb 300 status && ltb status 400

module _ (api : HeaderApi) (codec : Codec) where
  open api use {Headers, pairs, get, insert_valid}

  -- The target is put into the header from which the upstreams take it.
  unfoldable pub set_target : Text → Headers → Headers
  set_target target h = insert_valid (codes "x-target") (codec.encode (codec.bytes_of target)) h

  module _ (urls : UrlApi) where
    -- `loc` as a whole URL; a reference needs the target as its base.
    unfoldable pub absolute_location : Text → Text → Option Text
    absolute_location loc target_url =
        let joined =
          Option.bind (urls.parse target_url)
            (λ base. Option.bind (urls.join target_url loc) (λ u. u)) in
        if is_http_url loc then some loc else joined

    unfoldable pub is_host : Option (Option Text × Text) → Text → Bool
    is_host (some (some host, path)) self_host = text_eq host self_host
    is_host _ self_host = false

    unfoldable pub self_location : Text → Text → Text
    self_location self_host absolute =
        codes "https://"
        ++ (self_host ++ (codes "/x-target/" ++ codec.encode (codec.bytes_of absolute)))

    unfoldable pub rewrite_absolute : Option Text → Text → Head Headers → Head Headers
    rewrite_absolute none self_host resp = resp
    rewrite_absolute (some absolute) self_host resp =
        if is_host (urls.parse absolute) self_host then resp else record resp {
          headers = insert_valid (codes "location") (self_location self_host absolute) resp.headers;
        }

    unfoldable pub rewrite_location : Option Text → Text → Text → Head Headers → Head Headers
    rewrite_location none target_url self_host resp = resp
    rewrite_location (some loc) target_url self_host resp =
        rewrite_absolute (absolute_location loc target_url) self_host resp

    unfoldable pub rewrite_location_to_self : Head Headers → Text → Text → Head Headers
    rewrite_location_to_self resp target_url self_host =
        if is_redirection resp.status
        then rewrite_location (get (codes "location") resp.headers) target_url self_host resp
        else resp

    module _ (missing : Option (Text → Bool)) (is_match : Text → Text → Bool)
        (eval_predicate : RouteId → HookCtx → Bool) (routes : List RouteDef)
        (run : RouteDef → Request Headers → Head Headers) where
      unfoldable pub probe_ctx : Request Headers → HookCtx
      probe_ctx req = record {
        route_name = [];
        target_url = req.target_url;
        host = req.host;
        path = req.path;
        method = req.method;
        headers = map (λ kv. (to_ascii_lowercase kv.0, kv.1)) (pairs req.headers);
        attempt = 1;
        proxy_url = none;
        proxy_tags = [];
        elapsed_ms = 0;
      }

      unfoldable pub rewritten : Option Text → Text → Head Headers → Head Headers
      rewritten none target resp = resp
      rewritten (some self_host) target resp = rewrite_location_to_self resp target self_host

      unfoldable pub serve_route : Option RouteDef → Request Headers → Option Text → Served Headers
      serve_route none req rewrite_to_self =
          rejected 502 (codes "Proxy Error: no route matched " ++ (req.host ++ req.path))
      serve_route (some route) req rewrite_to_self =
          dispatched (rewritten rewrite_to_self req.target_url (run route req))

      unfoldable pub serve_request : Request Headers → Option Text → Served Headers
      serve_request req rewrite_to_self =
          serve_route
            (select_route is_match (λ id. eval_predicate id (probe_ctx req)) routes req.host
              req.path req.method)
            req rewrite_to_self

      unfoldable pub serve_body :
          Text → Text → Text → Incoming Headers → Option Bytes → Option Text → Served Headers
      serve_body target host path req none rewrite_to_self =
          rejected 400 (codes "Failed to read request body")
      serve_body target host path req (some body) rewrite_to_self =
          serve_request
            (record {
              method = req.method;
              headers = set_target target req.headers;
              body = body;
              target_url = target;
              host = host;
              path = path;
            })
            rewrite_to_self

      unfoldable pub is_missing : Option (Text → Bool) → Text → Bool
      is_missing none host = false
      is_missing (some dns) host = dns host

      unfoldable pub serve_url :
          Text → Option (Option Text × Text) → Incoming Headers → Option Text → Served Headers
      serve_url target none req rewrite_to_self = rejected 400 (codes "Invalid target URL")
      serve_url target (some (host_str, path)) req rewrite_to_self =
          let host = get_or_else host_str [] in
          if is_missing missing host
          then unresolved 502 (codes "Proxy Error: dns: " ++ (host ++ codes " does not resolve"))
          else serve_body target host path req req.body rewrite_to_self

      unfoldable pub serve : Text → Incoming Headers → Option Text → Served Headers
      serve target req rewrite_to_self = serve_url target (urls.parse target) req rewrite_to_self

      unfoldable pub serve_decoded :
          Option Text → Text → Incoming Headers → Option Text → Served Headers
      serve_decoded none problem req rewrite_to_self = rejected 400 problem
      serve_decoded (some target) problem req rewrite_to_self = serve target req rewrite_to_self

      unfoldable pub proxy_handler : Incoming Headers → Served Headers
      proxy_handler req =
          serve_decoded (Option.bind (get (codes "x-target") req.headers) (decode_target codec))
            (codes "Missing or invalid X-Target") req none

      unfoldable pub x_target_handler : Text → Incoming Headers → Served Headers
      x_target_handler encoded req =
          serve_decoded (decode_target codec (trim_slashes encoded))
            (codes "Invalid /x-target/<base64> path segment") req (get (codes "host") req.headers)
