-- ===== src/Route/MatcherParser.antt =====
-- intermediate-proxy/src/route/config.rs, `parse_matcher`: the matcher of a route from its table. The
-- regex library is the parameter `regex_error`: what it says against a pattern, if anything.
use proxy_systems.Common.{
  ℕ, ◌-◌, Bool, not, ◌&&◌, ◌||◌, List, ◌∷◌, ◌++◌, Option, none, some, if◌then◌else◌, length, take,
  any, is_some, is_empty, ◌==◌,
}
use proxy_systems.Common.Text.{Text, codes, text_eq, strip_prefix, as_bytes}
use proxy_systems.Common.Results.{Result, ok, err, and_then, map_ok}
use proxy_systems.Lua.Value.{LuaApi, get_string, get_table, get_function, strings_in}
use proxy_systems.Route.Def.{
  HostMatch, PathMatch, Matcher, any_host, exact, suffix, host_regex, any_path, prefix, glob,
  path_regex,
}
use proxy_systems.Route.Matcher.{ends_with, glob_to_regex}

-- A host that is no regex: `*`, `*.suffix` or an exact name.
unfoldable pub literal_host : Text → HostMatch
literal_host h =
    let suffix_or_exact : HostMatch = elim (strip_prefix (codes "*.") h) [
      | none ↦ exact h
      | some rest ↦ suffix (b'.' ∷ rest)
    ] in
    if text_eq h (codes "*") then any_host else suffix_or_exact

unfoldable pub is_wild : ℕ → Bool
is_wild c = c == b'*' || c == b'?'

-- `if v.is_empty() { None } else { Some(v) }`.
unfoldable pub nonempty : List Text → Option (List Text)
nonempty v = if is_empty v then none else some v

module _ (regex_error : Text → Option Text) where
  -- `Regex::new(..).map_err(..)?`: the pattern of a regex that compiles.
  unfoldable pub compiled : Text → Text → Result Text
  compiled label re = elim (regex_error re) [ none ↦ ok re | some e ↦ err (label ++ e) ]

  unfoldable pub host_match : Option Text → Option Text → Result HostMatch
  host_match (some re) host = map_ok host_regex (compiled (codes "host_regex: ") re)
  host_match none (some h) = ok (literal_host h)
  host_match none none = ok any_host

  -- A path that is no regex: everything, a prefix, or a glob.
  unfoldable pub literal_path : Text → Result PathMatch
  literal_path g =
      let before = take (length g - 3) g in
      let as_glob = map_ok glob (compiled (codes "path glob: ") (glob_to_regex (as_bytes g))) in
      if text_eq g (codes "*") || text_eq g (codes "/**")
      then ok any_path
      else if ends_with g (codes "/**") && not (any is_wild before)
      then ok (prefix before)
      else as_glob

  unfoldable pub path_match : Option Text → Option Text → Result PathMatch
  path_match (some re) path = map_ok path_regex (compiled (codes "path_regex: ") re)
  path_match none (some g) = literal_path g
  path_match none none = ok any_path

  module _ (lua : LuaApi) where
    open lua use {Table}

    unfoldable pub methods_from : Option Table → Option (List Text)
    methods_from (some list) = nonempty (strings_in lua (some list))
    methods_from none = none

    -- The matcher of the table `match`, if the route has one.
    unfoldable pub matcher_from : Option Table → Result Matcher
    matcher_from none = err (codes "route.match missing or not a table")
    matcher_from (some m) =
        and_then
          (host_match (get_string lua m (codes "host_regex")) (get_string lua m (codes "host")))
          (λ host.
            and_then
              (path_match (get_string lua m (codes "path_regex")) (get_string lua m (codes "path")))
              (λ path. ok (record {
                host = host;
                path = path;
                methods = methods_from (get_table lua m (codes "methods"));
                has_predicate = is_some (get_function lua m (codes "predicate"));
              })))

    unfoldable pub parse_matcher : Table → Result Matcher
    parse_matcher route = matcher_from (get_table lua route (codes "match"))
