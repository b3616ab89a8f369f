-- ===== src/Route/Def.antt =====
-- intermediate-proxy/src/route/config.rs and matcher.rs, the data: what a route of `routes.lua` is.
-- A compiled regex is known by its pattern; the atomic cursor is passed beside the route.
use proxy_systems.Common.{ℕ, Bool, List, Option}
use proxy_systems.Common.Text.{Text}
use proxy_systems.Proxy.Entry.{RouteId}

pub data HostMatch : Type 0 where
  any_host : HostMatch
  exact : Text → HostMatch
  suffix : Text → HostMatch
  host_regex : Text → HostMatch

pub data PathMatch : Type 0 where
  any_path : PathMatch
  prefix : Text → PathMatch
  glob : Text → PathMatch
  path_regex : Text → PathMatch

pub record Matcher : Type 0 where
  pub host : HostMatch
  pub path : PathMatch
  pub methods : Option (List Text)
  pub has_predicate : Bool

pub data Selector : Type 0 where
  best_latency round_robin random hedge : Selector
  sticky_by_header : Text → Selector

pub data SelectorKind : Type 0 where
  best_latency round_robin random hedge : SelectorKind

unfoldable pub kind : Selector → SelectorKind
kind Selector.best_latency = SelectorKind.best_latency
kind Selector.round_robin = SelectorKind.round_robin
kind Selector.random = SelectorKind.random
kind (Selector.sticky_by_header _) = SelectorKind.best_latency
kind Selector.hedge = SelectorKind.hedge

pub record HedgeCfg : Type 0 where
  pub max_parallel : ℕ
  pub delay_ms : ℕ

pub record ProbeCfg : Type 0 where
  pub url : Text
  pub interval_ms : ℕ
  pub ok_statuses : List ℕ
  pub has_classify : Bool
  pub headers : List (Text × Text)

pub record HookFlags : Type 0 where
  pub on_request : Bool
  pub on_response : Bool
  pub on_exhausted : Bool

pub record RouteDef : Type 0 where
  pub id : RouteId
  pub name : Text
  pub matcher : Matcher
  pub pool_all_tags : List Text
  pub pool_any_tags : List Text
  pub prefer_tags : List Text
  pub exclude_tags : List Text
  pub selector : Selector
  pub hedge : HedgeCfg
  pub max_attempts : ℕ
  pub timeout_ms : ℕ
  pub slow_ms : ℕ
  pub fail_streak : ℕ
  pub attempt_backoff_ms : ℕ
  pub capture_body_bytes : ℕ
  pub prefer_non_reserve : Bool
  pub default_ban_ms : ℕ
  pub hooks : HookFlags
  pub probe : Option ProbeCfg
