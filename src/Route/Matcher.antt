-- ===== src/Route/Matcher.antt =====
-- intermediate-proxy/src/route/matcher.rs: which requests a route takes. A regex is known by its
-- pattern; `is_match`, a parameter, is what the regex library says of a pattern and a text.
use proxy_systems.Common.{
  ℕ, Bool, true, false, not, ◌||◌, List, [], ◌∷◌, ◌++◌, Option, none, some, if◌then◌else◌, ◌==◌,
  get_or_else, reverse, any,
}
use proxy_systems.Common.Text.{
  Text, codes, strip_prefix, starts_with, to_ascii_lowercase, eq_ignore_ascii_case,
}
use proxy_systems.Route.Def.{HostMatch, PathMatch, Matcher}

-- `str::ends_with`.
unfoldable pub ends_with : Text → Text → Bool
ends_with s suffix = starts_with (reverse s) (reverse suffix)

module _ (is_match : Text → Text → Bool) where
  unfoldable pub host_matches : HostMatch → Text → Bool
  host_matches HostMatch.any_host host = true
  host_matches (HostMatch.exact h) host = eq_ignore_ascii_case host h
  host_matches (HostMatch.suffix suffix) host =
      eq_ignore_ascii_case host (get_or_else (strip_prefix (codes ".") suffix) suffix)
      || ends_with (to_ascii_lowercase host) (to_ascii_lowercase suffix)
  host_matches (HostMatch.host_regex re) host = is_match re host

  unfoldable pub path_matches : PathMatch → Text → Bool
  path_matches PathMatch.any_path path = true
  path_matches (PathMatch.prefix p) path = starts_with path p
  path_matches (PathMatch.glob re) path = is_match re path
  path_matches (PathMatch.path_regex re) path = is_match re path

  unfoldable pub method_allowed : Option (List Text) → Text → Bool
  method_allowed none method = true
  method_allowed (some ms) method = any (λ m. eq_ignore_ascii_case m method) ms

  unfoldable pub matches_static : Matcher → Text → Text → Text → Bool
  matches_static m host path method =
      if not (host_matches m.host host)
      then false
      else if not (path_matches m.path path)
      then false
      else if not (method_allowed m.methods method)
      then false
      else true

-- `".+()|[]{}^$\\".contains(ch)`.
unfoldable pub is_special : ℕ → Bool
is_special c = any (λ d. d == c) (codes ".+()|[]{}^$\\")

-- One character of the glob that is not a `*`: `?` or a literal byte, which becomes the character of
-- that number.
unfoldable pub glob_char : ℕ → Text → Text
glob_char c rest =
    if c == b'?' then codes "[^/]" ++ rest else if is_special c then b'\\' ∷ c ∷ rest else c ∷ rest

-- The loop of `glob_to_regex` over the bytes of the glob.
unfoldable pub glob_body : List ℕ → Text
glob_body [] = []
glob_body (c ∷ []) = if c == b'*' then codes "[^/]*" else glob_char c []
glob_body (c ∷ d ∷ s) =
    let single = glob_body (d ∷ s) in
    let double = glob_body s in
    if c == b'*'
    then (if d == b'*' then codes ".*" ++ double else codes "[^/]*" ++ single)
    else glob_char c single

-- The pattern that `glob_to_regex` hands to the regex library.
unfoldable pub glob_to_regex : List ℕ → Text
glob_to_regex glob = b'^' ∷ (glob_body glob ++ b'$' ∷ [])
