-- ===== src/SimpleProxy/Guarded.antt =====
-- simple-proxy/src/handler.rs: what is sent, and for whom.
use proxy_systems.Common.{◌≡◌, ◌≢◌, refl, ◌∙◌, Option, none, some, All, inl, inr, Bool-cases}
use proxy_systems.Common.Text.{Text, codes, text_eq, has_text}
use proxy_systems.Common.Results.{Result}
use proxy_systems.Http.{Bytes, HeaderApi}
use proxy_systems.Shared.{Codec, decode_target, filter_request_headers, skip_request_headers}
use proxy_systems.Handler.{Incoming}
use proxy_systems.Handler.Laws.{CodecLaws, HeaderLaws, first, append_unless-lacks}
use proxy_systems.SimpleProxy.{
  Urls, Sent, UpstreamResponse, rejected, constant_time_eq, send_out, with_body, with_target,
  with_header, provided, is_authorized, proxy_handler,
}
use proxy_systems.SimpleProxy.Bits.{IsByte, constant_time_eq_iff}
use mathlib.Core.Option

module _ (api : HeaderApi) (codec : Codec) (urls : Urls) (laws : CodecLaws codec)
    (header_laws : HeaderLaws api codec) where
  open api use {Headers, entries, empty, insert_valid, get}

  -- The request that goes out, if any, is for the URL, and does not carry the token.
  abbrev pub IsClean : Option Text → Option (Sent Headers) → Type 0
  IsClean target none = Unit
  IsClean target (some out) =
      (target ≡ some out.url) × (first (codes "x-proxy-auth") (entries out.headers) ≡ none)

  filtered-lacks :
      (h : Headers) (host : Text)
      → first (codes "x-proxy-auth") (entries (filter_request_headers api h host)) ≡ none
  unfolding filter_request_headers text_eq has_text skip_request_headers
  filtered-lacks h host =
      header_laws.first-insert (codes "x-proxy-auth") (codes "accept-encoding") _ _
      ∙ header_laws.first-insert_valid (codes "x-proxy-auth") (codes "host") host _ refl
      ∙ append_unless-lacks api codec laws header_laws skip_request_headers (codes "x-proxy-auth")
          (entries h) empty refl (header_laws.first-empty (codes "x-proxy-auth"))

  module _ (auth_token : Option Text)
      (send : Sent Headers → Result (UpstreamResponse Headers)) where
    with_body-IsClean :
        (target : Option Text) (url : Text) (req : Incoming Headers) (body : Option Bytes)
        → target ≡ some url
        → IsClean target (with_body api codec urls auth_token send url req body).0
    unfolding with_body send_out
    with_body-IsClean target url req none e = tt
    with_body-IsClean target url req (some body) e = (e, filtered-lacks req.headers _)

    with_target-IsClean :
        (target decoded : Option Text) (req : Incoming Headers)
        → target ≡ decoded
        → IsClean target (with_target api codec urls auth_token send decoded req).0
    unfolding with_target
    with_target-IsClean target none req e = tt
    with_target-IsClean target (some url) req e = elim (Bool-cases (urls.parses url)) [
      | inl p ↦ rw p (with_body-IsClean target url req req.body e)
      | inr p ↦ rw p tt
    ]

    with_header-IsClean :
        (header : Option Text) (req : Incoming Headers)
        → IsClean
            (Option.bind header (decode_target codec))
            (with_header api codec urls auth_token send header req).0
    unfolding with_header Option.bind
    with_header-IsClean none req = tt
    with_header-IsClean (some v) req = with_target-IsClean _ _ req refl

-- Where a token is expected, and it and the provided text are bytes, a request whose `x-proxy-auth` is not that token is
-- answered with status 401 and nothing is sent for it; and what is sent for a request goes to the URL
-- that its `x-target` decodes to and carries no `x-proxy-auth`, where header maps behave as documented.
pub proxy_handler-guarded :
    (api : HeaderApi) (codec : Codec) (urls : Urls)
    → (laws : CodecLaws codec) (header_laws : HeaderLaws api codec)
    → (expected : Text) (send : Sent api.Headers → Result (UpstreamResponse api.Headers))
      (req : Incoming api.Headers)
    → All IsByte (provided api codec urls (some expected) send req.headers)
    → All IsByte (codec.bytes_of expected)
    → ((provided api codec urls (some expected) send req.headers ≢ codec.bytes_of expected)
        → proxy_handler api codec urls (some expected) send req
          ≡ (none, rejected 401 (codes "Unauthorized")))
      × IsClean api codec urls laws header_laws
          (Option.bind (api.get (codes "x-target") req.headers) (decode_target codec))
          (proxy_handler api codec urls (some expected) send req).0
unfolding proxy_handler is_authorized
proxy_handler-guarded api codec urls laws header_laws expected send req p q =
    elim (Bool-cases (
      constant_time_eq (provided api codec urls (some expected) send req.headers)
        (codec.bytes_of expected))) [
          | inr e ↦ rw e (λ differ. refl, tt)
          | inl e ↦ rw e (
            λ differ. absurd (differ ((constant_time_eq_iff _ _ p q).0 e)),
            with_header-IsClean api codec urls laws header_laws (some expected) send
                (api.get (codes "x-target") req.headers) req,
          )
        ]
