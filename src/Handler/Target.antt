-- ===== src/Handler/Target.antt =====
-- intermediate-proxy/src/handler.rs, forward.rs and upstream: the target of the client is the target of
-- the request that goes out.
use proxy_systems.Common.{◌≡◌, refl, ap, ◌∙◌, true, Option, some}
use proxy_systems.Common.Text.{Text, codes, text_eq, has_text}
use proxy_systems.Http.{Bytes, HeaderApi}
use proxy_systems.Shared.{Codec, decode_target, is_http_url}
use proxy_systems.Upstream.{
  UpstreamKind, endpoint, http_proxy, socks5, Outgoing, skip_headers, endpoint_forward,
  proxy_forward, target_in, send_to_upstream,
}
use proxy_systems.Handler.{set_target}
use proxy_systems.Handler.Laws.{
  CodecLaws, HeaderLaws, decode_target-encode, first, or_else, Lacks, append_unless-first,
  with_extra-first, get-same,
}
use mathlib.Core.Option

module _ (api : HeaderApi) (codec : Codec) (laws : CodecLaws codec)
    (header_laws : HeaderLaws api codec) where
  open api use {Headers, HeaderValue, entries, empty, insert, from_static, get}

  -- The header that an endpoint reads is the one that was set.
  endpoint_forward-get :
      (url method : Text) (h : Headers) (body : Bytes) (extra : Option Headers)
      → Lacks api codec laws header_laws (codes "x-target") extra
      → get (codes "x-target") (endpoint_forward api url method h body extra).headers
        ≡ get (codes "x-target") h
  unfolding endpoint_forward text_eq has_text skip_headers
  endpoint_forward-get url method h body extra l =
      get-same api codec laws header_laws (codes "x-target") _ h (
        header_laws.first-insert (codes "x-target") (codes "accept-encoding") _ _
        ∙ with_extra-first api codec laws header_laws (codes "x-target") extra _ l
        ∙ append_unless-first api codec laws header_laws skip_headers (codes "x-target") (entries h)
            empty refl
        ∙ ap (λ a. or_else a (first (codes "x-target") (entries h)))
            (header_laws.first-empty (codes "x-target")))

  -- What the upstream fetches: a remote service reads its header, a proxy takes the URL.
  abbrev pub Addresses : Outgoing Headers → Text → UpstreamKind → Type 0
  Addresses out target (endpoint url) =
      Option.bind (get (codes "x-target") out.headers) (decode_target codec) ≡ some target
  Addresses out target (http_proxy proxy) = out.url ≡ target
  Addresses out target (socks5 proxy) = out.url ≡ target

  get-set_target :
      (target : Text) (h : Headers)
      → get (codes "x-target") (set_target api codec target h)
        ≡ some (codec.encode (codec.bytes_of target))
  unfolding set_target
  get-set_target target h =
      header_laws.get-insert_valid (codes "x-target") (codec.bytes_of target) h

  target_in-set_target :
      (host_of : Text → Option Text) (target : Text) (h : Headers)
      → is_http_url target ≡ true
      → target_in api codec host_of (set_target api codec target h) ≡ target
  unfolding target_in
  target_in-set_target host_of target h e =
      rw (get-set_target target h, decode_target-encode codec laws target e) refl

  -- Where encoding can be decoded, and header maps behave as documented, a request whose headers carry
  -- the http or https URL `target` as the handler sets it goes out to `target` through an upstream of
  -- any kind, whatever its method, its body and the other headers, as long as the extra headers do not
  -- set `x-target`: a proxy is asked for it, and an endpoint decodes it from the header it receives.
  pub send_to_upstream-Addresses :
      (host_of : Text → Option Text) (kind : UpstreamKind) (method target : Text) (h : Headers)
      (body : Bytes) (extra : Option Headers)
      → is_http_url target ≡ true
      → Lacks api codec laws header_laws (codes "x-target") extra
      → Addresses
          (send_to_upstream api codec host_of kind method
            (set_target api codec target h)
            body
            extra)
          target
          kind
  unfolding send_to_upstream proxy_forward Option.bind
  send_to_upstream-Addresses host_of (endpoint url) method target h body extra e l =
      ap (λ v. Option.bind v (decode_target codec))
        (endpoint_forward-get url method (set_target api codec target h) body extra l
          ∙ get-set_target target h)
      ∙ decode_target-encode codec laws target e
  send_to_upstream-Addresses host_of (http_proxy proxy) method target h body extra e l =
      target_in-set_target host_of target h e
  send_to_upstream-Addresses host_of (socks5 proxy) method target h body extra e l =
      target_in-set_target host_of target h e
