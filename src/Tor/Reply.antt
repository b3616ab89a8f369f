-- ===== src/Tor/Reply.antt =====
-- tor-proxy/src/handler.rs: the answer that is built from the response of a node.
use proxy_systems.Common.{ℕ, ◌&&◌, List, [], ◌∷◌, ◌++◌, if◌then◌else◌, get_or_else}
use proxy_systems.Common.Text.{Text, codes, text_eq, has_text, starts_with, to_ascii_lowercase}
use proxy_systems.Http.{HeaderApi, valid_status}
use proxy_systems.Handler.{is_redirection}
use proxy_systems.Shared.{is_http_url, cors_headers, insert_static}
use proxy_systems.SimpleProxy.{Urls}

unfoldable pub skip_reply_headers : List Text
skip_reply_headers =
    codes "content-security-policy" ∷ codes "x-frame-options" ∷ codes "transfer-encoding" ∷ []

-- A location that cannot be resolved stays as it is.
unfoldable pub resolve_location : Urls → Text → Text → Text
resolve_location urls location base_url =
    let joined = get_or_else (urls.join base_url location) location in
    if is_http_url location
    then location
    else if urls.parses base_url
    then if starts_with location (codes "//")
      then urls.scheme base_url ++ (codes ":" ++ location)
      else joined
    else location

module _ (api : HeaderApi) (urls : Urls)
    (append_valid : Text → Text → api.Headers → api.Headers) where
  open api use {Headers, empty, insert_valid}

  -- One header of the response; `append_valid` appends where name and value are valid.
  unfoldable pub copy_header : ℕ → Text → Text → Text → Headers → Headers
  copy_header status target_url name value h =
      let lower = to_ascii_lowercase name in
      if has_text skip_reply_headers lower
      then h
      else if text_eq lower (codes "location") && is_redirection status
      then insert_valid (codes "location") (resolve_location urls value target_url) h
      else append_valid name value h

  unfoldable pub copy_reply_headers : ℕ → Text → List (Text × Text) → Headers → Headers
  copy_reply_headers status target_url [] h = h
  copy_reply_headers status target_url ((name, value) ∷ more) h =
      copy_reply_headers status target_url more (copy_header status target_url name value h)

  -- The status and the headers of the answer; the body is passed on.
  unfoldable pub build_response : ℕ → List (Text × Text) → Text → ℕ × Headers
  build_response status_code resp_headers target_url =
      let status = valid_status status_code 500 in
      (
        status,
        copy_reply_headers status target_url resp_headers (insert_static api cors_headers empty),
      )
