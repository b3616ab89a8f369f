-- ===== src/Shared.antt =====
-- proxy-common/src: the helpers on headers, targets and answers that the services share. The codecs are
-- those of the base64 crate and of the standard library.
use proxy_systems.Common.{Bool, ◌||◌, List, [], ◌∷◌, Option, none, some, if◌then◌else◌}
use proxy_systems.Common.Text.{Text, codes, has_text, starts_with}
use proxy_systems.Http.{Bytes, HeaderApi}
use mathlib.Core.Option

-- `str::as_bytes`, `String::from_utf8`, and the standard base64 engine.
pub record Codec : Type 0 where
  pub bytes_of : Text → Bytes
  pub from_utf8 : Bytes → Option Text
  pub encode : Bytes → Text
  pub decode : Text → Option Bytes

-- `url.starts_with("http://") || url.starts_with("https://")`.
unfoldable pub is_http_url : Text → Bool
is_http_url url = starts_with url (codes "http://") || starts_with url (codes "https://")

unfoldable pub http_only : Text → Option Text
http_only url = if is_http_url url then some url else none

unfoldable pub decode_target : Codec → Text → Option Text
decode_target codec header_value =
    Option.bind (codec.decode header_value)
      (λ decoded. Option.bind (codec.from_utf8 decoded) http_only)

unfoldable pub skip_request_headers : List Text
skip_request_headers =
    codes "x-target"
    ∷ codes "x-proxy-auth"
    ∷ codes "host"
    ∷ codes "accept-encoding"
    ∷ codes "cf-connecting-ip"
    ∷ codes "cf-ipcountry"
    ∷ codes "cf-ray"
    ∷ codes "cf-visitor"
    ∷ codes "x-forwarded-for"
    ∷ codes "x-forwarded-proto"
    ∷ codes "x-real-ip"
    ∷ []

unfoldable pub skip_response_headers : List Text
skip_response_headers =
    codes "content-security-policy"
    ∷ codes "x-frame-options"
    ∷ codes "content-encoding"
    ∷ codes "content-length"
    ∷ codes "transfer-encoding"
    ∷ []

unfoldable pub cors_headers : List (Text × Text)
cors_headers =
    (codes "access-control-allow-origin", codes "*")
    ∷ (codes "access-control-allow-methods", codes "GET, POST, PUT, DELETE, OPTIONS")
    ∷ (codes "access-control-allow-headers", codes "*")
    ∷ []

module _ (api : HeaderApi) where
  open api use {Headers, HeaderValue, entries, append, insert, insert_valid, from_static, empty}

  -- The loop that appends to `filtered` what the list does not skip.
  unfoldable pub append_unless : List Text → List (Text × HeaderValue) → Headers → Headers
  append_unless skip [] filtered = filtered
  append_unless skip ((name, value) ∷ more) filtered =
      append_unless skip more (if has_text skip name then filtered else append name value filtered)

  unfoldable pub filter_request_headers : Headers → Text → Headers
  filter_request_headers headers target_host =
      insert (codes "accept-encoding") (from_static (codes "identity")) (
        insert_valid (codes "host") target_host
          (append_unless skip_request_headers (entries headers) empty))

  unfoldable pub filter_response_headers : Headers → Headers
  filter_response_headers headers = append_unless skip_response_headers (entries headers) empty

  unfoldable pub insert_static : List (Text × Text) → Headers → Headers
  insert_static [] h = h
  insert_static ((name, value) ∷ more) h = insert_static more (insert name (from_static value) h)

  -- The headers that `text_response` and `json_response` set over those of the framework.
  unfoldable pub text_headers : Headers → Headers
  text_headers framework =
      insert (codes "content-type") (from_static (codes "text/plain"))
        (insert_static cors_headers framework)

  unfoldable pub json_headers : Headers → Headers
  json_headers framework =
      insert (codes "content-type") (from_static (codes "application/json"))
        (insert_static cors_headers framework)
