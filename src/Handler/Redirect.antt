-- ===== src/Handler/Redirect.antt =====
-- intermediate-proxy/src/handler.rs: a redirect that is rewritten to the proxy itself leads back to where
-- it pointed.
use proxy_systems.Common.{
  ℕ, ◌==◌, ◌≡◌, refl, sym, ap, [], ◌∷◌, ◌∙◌, Bool, true, false, List, reverse, Option, some, ◌++◌,
}
use mathlib.Core.List.{reverse-append, reverse-reverse}
use proxy_systems.Common.Text.{Text, codes}
use proxy_systems.Http.{HeaderApi}
use proxy_systems.Shared.{Codec, is_http_url}
use proxy_systems.Proxy.Entry.{RouteId}
use proxy_systems.Route.Def.{RouteDef}
use proxy_systems.Lua.{HookCtx}
use proxy_systems.Dispatch.Outcome.{Request}
use proxy_systems.Handler.{
  Incoming, Head, UrlApi, drop_slashes, trim_slashes, is_redirection, absolute_location, is_host,
  self_location, rewrite_absolute, rewrite_location, rewrite_location_to_self, serve, serve_decoded,
  x_target_handler,
}
use proxy_systems.Handler.Laws.{CodecLaws, decode_target-encode}

reverse-snoc : (s : Text) (c : ℕ) → reverse (s ++ c ∷ []) ≡ c ∷ reverse s
reverse-snoc s c = reverse-append s (c ∷ [])

trim_slashes-snoc :
    (s : Text) (c : ℕ) → (c == b'/') ≡ false → trim_slashes (s ++ c ∷ []) ≡ s ++ c ∷ []
unfolding trim_slashes drop_slashes
trim_slashes-snoc s c e =
    rw (reverse-snoc s c, e) (ap reverse (sym (reverse-snoc s c)) ∙ reverse-reverse (s ++ c ∷ []))

module _ (api : HeaderApi) (codec : Codec) (urls : UrlApi) where
  open api use {Headers, get, insert_valid}

  rewrite_location_to_self-header :
      (resp : Head Headers) (target_url self_host loc absolute : Text)
      → is_redirection resp.status ≡ true
      → get (codes "location") resp.headers ≡ some loc
      → absolute_location api codec urls loc target_url ≡ some absolute
      → is_host api codec urls (urls.parse absolute) self_host ≡ false
      → (rewrite_location_to_self api codec urls resp target_url self_host).headers
        ≡ insert_valid
            (codes "location")
            (self_location api codec urls self_host absolute)
            resp.headers
  unfolding rewrite_location_to_self rewrite_absolute rewrite_location
  rewrite_location_to_self-header resp target_url self_host loc absolute r l a h = rw r (
      ap (λ o. (rewrite_location api codec urls o target_url self_host resp).headers) l
      ∙ located
      ∙ rw h refl)
    where
      located :
          (rewrite_location api codec urls (some loc) target_url self_host resp).headers
          ≡ (rewrite_absolute api codec urls (some absolute) self_host resp).headers
      located = ap (λ o. (rewrite_absolute api codec urls o self_host resp).headers) a

  module _ (laws : CodecLaws codec) (missing : Option (Text → Bool)) (is_match : Text → Text → Bool)
      (eval_predicate : RouteId → HookCtx → Bool) (routes : List RouteDef)
      (run : RouteDef → Request Headers → Head Headers) where
    -- For a redirection whose location resolves to an http or https URL `absolute` that is not on the
    -- host of the proxy, the location is rewritten to a path `/x-target/...` on the proxy's own host, and
    -- a request to that path is served with `absolute` as its target and its own host for the locations
    -- that its answer is rewritten with. The encoding of `absolute` must not end in a slash, and decoding
    -- undo encoding.
    pub rewrite_location_to_self-x_target_handler :
        (resp : Head Headers) (target_url self_host loc absolute encoded : Text) (last : ℕ)
        (req : Incoming Headers)
        → is_redirection resp.status ≡ true
        → get (codes "location") resp.headers ≡ some loc
        → absolute_location api codec urls loc target_url ≡ some absolute
        → is_host api codec urls (urls.parse absolute) self_host ≡ false
        → is_http_url absolute ≡ true
        → codec.encode (codec.bytes_of absolute) ≡ encoded ++ last ∷ []
        → (last == b'/') ≡ false
        → ((rewrite_location_to_self api codec urls resp target_url self_host).headers
            ≡ insert_valid
                (codes "location")
                (codes "https://"
                  ++ (self_host ++ (codes "/x-target/" ++ codec.encode (codec.bytes_of absolute))))
                resp.headers)
          × (x_target_handler api codec urls missing is_match eval_predicate routes run
                (codec.encode (codec.bytes_of absolute))
                req
              ≡ serve api codec urls missing is_match eval_predicate routes run absolute req
                  (get (codes "host") req.headers))
    unfolding self_location x_target_handler serve_decoded
    rewrite_location_to_self-x_target_handler resp target_url self_host loc absolute encoded last
          req r l a h e w n =
        (
          rewrite_location_to_self-header resp target_url self_host loc absolute r l a h,
          rw
              (
                ap trim_slashes w ∙ trim_slashes-snoc encoded last n ∙ sym w,
                decode_target-encode codec laws absolute e,
              )
              refl,
        )
