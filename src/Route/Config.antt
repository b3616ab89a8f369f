-- ===== src/Route/Config.antt =====
-- intermediate-proxy/src/route/config.rs: the parser of the table that `routes.lua` returns. The regex
-- library is the parameter `regex_error`: what it says against a pattern, if anything.
pub mod Checked
use proxy_systems.Common.{
  ℕ, ◌+◌, ◌-◌, ◌*◌, ◌%◌, max, Bool, true, false, not, ◌&&◌, ◌||◌, List, [], ◌∷◌, ◌++◌, map, Option,
  none, some, if◌then◌else◌, length, take, any, is_some, is_empty, get_or_else, ◌==◌,
}
use proxy_systems.Common.Words.{u32_mod}
use proxy_systems.Common.Text.{Text, codes, text_eq, strip_prefix, to_ascii_lowercase, as_bytes}
use proxy_systems.Common.Results.{Result, ok, err, and_then, map_ok, map_err}
use proxy_systems.Dispatch.Outcome.{show}
use proxy_systems.Lua.Value.{
  LuaApi, get_u64, get_usize, get_bool, get_string, get_table, get_function, get_string_list,
  strings_in, flatten,
}
use proxy_systems.Route.MatcherParser.{parse_matcher}
use proxy_systems.Route.Def.{
  HostMatch, PathMatch, Matcher, Selector, HedgeCfg, ProbeCfg, HookFlags, RouteDef, any_host, exact,
  suffix, host_regex, any_path, prefix, glob, path_regex,
}
use proxy_systems.Route.Matcher.{ends_with, glob_to_regex}
use mathlib.Core.Option

pub record Defaults : Type 0 where
  pub max_attempts : ℕ
  pub timeout_ms : ℕ
  pub slow_ms : ℕ
  pub fail_streak : ℕ
  pub attempt_backoff_ms : ℕ
  pub capture_body_bytes : ℕ
  pub prefer_non_reserve : Bool
  pub prefer_tags : List Text
  pub exclude_tags : List Text
  pub default_ban_ms : ℕ
  pub selector : Selector
  pub hedge : HedgeCfg

-- The name of a selector, with the header of `sticky_by_header`.
unfoldable pub selector_named : Option Text → Text → Selector → Selector
selector_named none header default = default
selector_named (some s) header default =
    if text_eq s (codes "best_latency")
    then Selector.best_latency
    else if text_eq s (codes "round_robin")
    then Selector.round_robin
    else if text_eq s (codes "random")
    then Selector.random
    else if text_eq s (codes "hedge")
    then Selector.hedge
    else if text_eq s (codes "sticky_by_header")
    then Selector.sticky_by_header (to_ascii_lowercase header)
    else default

unfoldable pub base_hedge : HedgeCfg
base_hedge = record { max_parallel = 4; delay_ms = 700 }

-- The defaults where the configuration has none.
unfoldable pub literal_defaults : Defaults
literal_defaults = record {
  max_attempts = 5;
  timeout_ms = 10000;
  slow_ms = 3000;
  fail_streak = 2;
  attempt_backoff_ms = 0;
  capture_body_bytes = 0;
  prefer_non_reserve = true;
  prefer_tags = [];
  exclude_tags = [];
  default_ban_ms = 5 * 60000;
  selector = Selector.best_latency;
  hedge = base_hedge;
}

-- `if routes.is_empty()`.
unfoldable pub not_empty : List RouteDef → Result (List RouteDef)
not_empty [] = err (codes "config.routes is empty")
not_empty (r ∷ rs) = ok (r ∷ rs)

module _ (regex_error : Text → Option Text) where
  module _ (lua : LuaApi) where
    open lua use {
      Table, sequence_of_strings, sequence_of_integers, sequence_of_tables, pairs_of_strings,
      integer_to_u16,
    }

    unfoldable pub parse_selector : Table → Selector → Selector
    parse_selector t default =
        selector_named (get_string lua t (codes "selector"))
          (get_or_else (get_string lua t (codes "sticky_header")) (codes "authorization")) default

    unfoldable pub hedge_from : Option Table → HedgeCfg → HedgeCfg
    hedge_from (some h) default = record {
      max_parallel = max (get_usize lua h (codes "max_parallel") default.max_parallel) 1;
      delay_ms = get_u64 lua h (codes "delay_ms") default.delay_ms;
    }
    hedge_from none default = default

    unfoldable pub parse_hedge : Table → HedgeCfg → HedgeCfg
    parse_hedge t default = hedge_from (get_table lua t (codes "hedge")) default

    unfoldable pub defaults_from : Option Table → Defaults
    defaults_from none = literal_defaults
    defaults_from (some d) = record {
      max_attempts = max (get_usize lua d (codes "max_attempts") 5) 1;
      timeout_ms = get_u64 lua d (codes "timeout_ms") 10000;
      slow_ms = get_u64 lua d (codes "slow_ms") 3000;
      fail_streak = get_u64 lua d (codes "fail_streak") 2 % u32_mod;
      attempt_backoff_ms = get_u64 lua d (codes "attempt_backoff_ms") 0;
      capture_body_bytes = get_usize lua d (codes "capture_body_bytes") 0;
      prefer_non_reserve = get_bool lua d (codes "prefer_non_reserve") true;
      prefer_tags = get_string_list lua d (codes "prefer_tags");
      exclude_tags = get_string_list lua d (codes "exclude_tags");
      default_ban_ms = get_u64 lua d (codes "default_ban_ms") (5 * 60000);
      selector = parse_selector d Selector.best_latency;
      hedge = parse_hedge d base_hedge;
    }

    unfoldable pub parse_defaults : Table → Defaults
    parse_defaults cfg = defaults_from (get_table lua cfg (codes "defaults"))

    unfoldable pub statuses_from : Option Table → List ℕ
    statuses_from (some list) = map integer_to_u16 (flatten (sequence_of_integers list))
    statuses_from none = 200 ∷ []

    unfoldable pub headers_from : Option Table → List (Text × Text)
    headers_from (some t) =
        map (λ kv. (to_ascii_lowercase kv.0, kv.1)) (flatten (pairs_of_strings t))
    headers_from none = []

    unfoldable pub probe_from : Option Table → Option ProbeCfg
    probe_from none = none
    probe_from (some p) =
        Option.map
          (λ url. record {
            url = url;
            interval_ms = get_u64 lua p (codes "interval_ms") (10 * 60000);
            ok_statuses = statuses_from (get_table lua p (codes "ok_statuses"));
            has_classify = is_some (get_function lua p (codes "classify"));
            headers = headers_from (get_table lua p (codes "headers"));
          })
          (get_string lua p (codes "url"))

    unfoldable pub parse_probe : Table → Option ProbeCfg
    parse_probe route = probe_from (get_table lua route (codes "probe"))

    -- The tags of the table `pool`, if the route has one.
    unfoldable pub pool_tags : Option Table → Text → List Text
    pool_tags (some p) key = get_string_list lua p key
    pool_tags none key = []

    -- A list of tags of the route itself, or the default.
    unfoldable pub tags_or : Option Table → List Text → List Text
    tags_or (some list) default = strings_in lua (some list)
    tags_or none default = default

    -- The record of one route, past everything that can fail.
    unfoldable pub route_of : Defaults → ℕ → Text → Matcher → Table → RouteDef
    route_of defaults idx name matcher route = record {
      id = idx;
      name = name;
      matcher = matcher;
      pool_all_tags = pool_tags (get_table lua route (codes "pool")) (codes "tags");
      pool_any_tags = pool_tags (get_table lua route (codes "pool")) (codes "any_tags");
      prefer_tags = tags_or (get_table lua route (codes "prefer_tags")) defaults.prefer_tags;
      exclude_tags = tags_or (get_table lua route (codes "exclude_tags")) defaults.exclude_tags;
      selector = parse_selector route defaults.selector;
      hedge = parse_hedge route defaults.hedge;
      max_attempts = max (get_usize lua route (codes "max_attempts") defaults.max_attempts) 1;
      timeout_ms = get_u64 lua route (codes "timeout_ms") defaults.timeout_ms;
      slow_ms = get_u64 lua route (codes "slow_ms") defaults.slow_ms;
      fail_streak = get_u64 lua route (codes "fail_streak") defaults.fail_streak % u32_mod;
      attempt_backoff_ms =
          get_u64 lua route (codes "attempt_backoff_ms") defaults.attempt_backoff_ms;
      capture_body_bytes =
          get_usize lua route (codes "capture_body_bytes") defaults.capture_body_bytes;
      prefer_non_reserve =
          get_bool lua route (codes "prefer_non_reserve") defaults.prefer_non_reserve;
      default_ban_ms = get_u64 lua route (codes "default_ban_ms") defaults.default_ban_ms;
      hooks = record {
        on_request = is_some (get_function lua route (codes "on_request"));
        on_response = is_some (get_function lua route (codes "on_response"));
        on_exhausted = is_some (get_function lua route (codes "on_exhausted"));
      };
      probe = parse_probe route;
    }

    unfoldable pub route_name : ℕ → Table → Text
    route_name idx route =
        get_or_else (get_string lua route (codes "name")) (codes "route-" ++ show idx)

    -- One round of the loop over the rows.
    unfoldable pub parse_route : Defaults → ℕ → Result Table → Result RouteDef
    parse_route defaults idx rv =
        and_then (map_err (λ e. codes "route #" ++ (show idx ++ (codes ": " ++ e))) rv) (λ route.
          and_then
            (map_err (λ e. codes "route '" ++ (route_name idx route ++ (codes "': " ++ e)))
              (parse_matcher regex_error lua route))
            (λ matcher. ok (route_of defaults idx (route_name idx route) matcher route)))

    unfoldable pub parse_routes : Defaults → ℕ → List (Result Table) → Result (List RouteDef)
    parse_routes defaults i [] = ok []
    parse_routes defaults i (rv ∷ more) =
        and_then (parse_route defaults ((i + 1) % u32_mod) rv)
          (λ r. map_ok (λ rs. r ∷ rs) (parse_routes defaults (i + 1) more))

    unfoldable pub routes_from : Defaults → Option Table → Result (List RouteDef)
    routes_from defaults none = err (codes "config.routes missing or not a table")
    routes_from defaults (some t) =
        and_then (parse_routes defaults 0 (sequence_of_tables t)) not_empty

    unfoldable pub parse_router_config : Table → Result (List RouteDef)
    parse_router_config cfg = routes_from (parse_defaults cfg) (get_table lua cfg (codes "routes"))
