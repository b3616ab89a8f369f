-- ===== src/Stream/Reply.antt =====
-- intermediate-proxy/src/stream.rs: the headers of the answer to the client.
use proxy_systems.Common.{List, [], ◌∷◌}
use proxy_systems.Common.Text.{Text, codes}
use proxy_systems.Http.{HeaderApi}
use proxy_systems.Shared.{cors_headers, insert_static, append_unless}

-- `SKIP_RESPONSE_HEADERS` of stream.rs, which has more names than that of the shared helpers.
unfoldable pub skip_stream_headers : List Text
skip_stream_headers =
    codes "content-encoding"
    ∷ codes "content-length"
    ∷ codes "transfer-encoding"
    ∷ codes "access-control-allow-origin"
    ∷ codes "access-control-allow-methods"
    ∷ codes "access-control-allow-headers"
    ∷ codes "access-control-allow-credentials"
    ∷ codes "access-control-expose-headers"
    ∷ codes "access-control-max-age"
    ∷ codes "cf-ray"
    ∷ codes "cf-cache-status"
    ∷ codes "cf-request-id"
    ∷ codes "cf-apo-via"
    ∷ codes "cf-bgj"
    ∷ codes "cf-polished"
    ∷ codes "cf-edge-cache"
    ∷ codes "report-to"
    ∷ codes "reporting-endpoints"
    ∷ codes "nel"
    ∷ codes "expect-ct"
    ∷ codes "server-timing"
    ∷ codes "alt-svc"
    ∷ codes "alternate-protocol"
    ∷ codes "content-security-policy"
    ∷ codes "content-security-policy-report-only"
    ∷ codes "x-frame-options"
    ∷ []

module _ (api : HeaderApi) where
  open api use {Headers, entries, empty}

  unfoldable pub copy_headers : Headers → Headers
  copy_headers resp_headers =
      append_unless api skip_stream_headers (entries resp_headers)
        (insert_static api cors_headers empty)
