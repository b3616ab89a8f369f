-- ===== src/Route/Config/Checked.antt =====
-- intermediate-proxy/src/route/config.rs: what holds of every configuration that the parser accepts,
-- and which configurations it refuses.
use proxy_systems.Common.{
  ℕ, ◌+◌, ◌%◌, ◌≤◌, ◌<◌, ◌≡◌, ◌≢◌, refl, Bool, false, ◌&&◌, List, [], ◌∷◌, Option, none, some, all,
  arith,
}
use proxy_systems.Common.Words.{u32_mod}
use proxy_systems.Common.Text.{Text, codes}
use proxy_systems.Common.Results.{Result, ok, err, and_then, map_ok, map_err, is_ok, Accepts}
use proxy_systems.Lua.Value.{LuaApi, get_table}
use proxy_systems.Route.Def.{Matcher, HedgeCfg, RouteDef}
use proxy_systems.Route.MatcherParser.{parse_matcher}
use proxy_systems.Route.Config.{
  Defaults, base_hedge, literal_defaults, hedge_from, parse_hedge, defaults_from, parse_defaults,
  route_of, parse_route, parse_routes, not_empty, routes_from, parse_router_config,
}

-- What the dispatch relies on: an attempt is allowed, a hedged dispatch may fly, the numbers fit.
pub record IsUsable (r : RouteDef) : Type 0 where
  pub attempts : 1 ≤ r.max_attempts
  pub parallel : 1 ≤ r.hedge.max_parallel
  pub streak : r.fail_streak < u32_mod

-- The routes after the first `i` have their place in the file as their number.
abbrev pub Numbered : ℕ → List RouteDef → Type 0
Numbered i [] = Unit {0}
Numbered i (r ∷ rs) = (r.id ≡ (i + 1) % u32_mod) × IsUsable r × Numbered (i + 1) rs

module _ (regex_error : Text → Option Text) (lua : LuaApi) where
  open lua use {Table, sequence_of_tables}

  hedge_from-parallel :
      (t : Option Table) (default : HedgeCfg)
      → 1 ≤ default.max_parallel
      → 1 ≤ (hedge_from regex_error lua t default).max_parallel
  unfolding hedge_from
  hedge_from-parallel none default l = l
  hedge_from-parallel (some h) default l = omega arith

  defaults_from-parallel :
      (t : Option Table) → 1 ≤ (defaults_from regex_error lua t).hedge.max_parallel
  unfolding defaults_from literal_defaults base_hedge parse_hedge
  defaults_from-parallel none = omega arith
  defaults_from-parallel (some d) = hedge_from-parallel _ base_hedge (omega arith)

  route_of-IsUsable :
      (defaults : Defaults) (idx : ℕ) (name : Text) (matcher : Matcher) (route : Table)
      → 1 ≤ defaults.hedge.max_parallel
      → IsUsable (route_of regex_error lua defaults idx name matcher route)
  unfolding route_of parse_hedge
  route_of-IsUsable defaults idx name matcher route l = record {
    attempts = omega arith;
    parallel = hedge_from-parallel _ defaults.hedge l;
    streak = omega arith;
  }

  -- A row is accepted where it is a table whose matcher is.
  unfoldable pub row_ok : Result Table → Bool
  row_ok (ok route) = is_ok (parse_matcher regex_error lua route)
  row_ok (err e) = false

  with_matcher-IsUsable :
      (defaults : Defaults) (idx : ℕ) (name : Text) (label : Text → Text) (m : Result Matcher)
      (route : Table)
      → 1 ≤ defaults.hedge.max_parallel
      → Accepts
          (λ (r : RouteDef). (r.id ≡ idx) × IsUsable r)
          (and_then
            (map_err label m)
            (λ matcher. ok (route_of regex_error lua defaults idx name matcher route)))
  unfolding route_of
  with_matcher-IsUsable defaults idx name label (ok matcher) route l =
      (refl, route_of-IsUsable defaults idx name matcher route l)
  with_matcher-IsUsable defaults idx name label (err e) route l = tt

  parse_route-IsUsable :
      (defaults : Defaults) (idx : ℕ) (rv : Result Table)
      → 1 ≤ defaults.hedge.max_parallel
      → Accepts
          (λ (r : RouteDef). (r.id ≡ idx) × IsUsable r)
          (parse_route regex_error lua defaults idx rv)
  unfolding parse_route
  parse_route-IsUsable defaults idx (ok route) l =
      with_matcher-IsUsable defaults idx _ _ (parse_matcher regex_error lua route) route l
  parse_route-IsUsable defaults idx (err e) l = tt

  Numbered-cons :
      (i : ℕ) (x : Result RouteDef) (rest : Result (List RouteDef))
      → Accepts (λ (r : RouteDef). (r.id ≡ (i + 1) % u32_mod) × IsUsable r) x
      → Accepts (Numbered (i + 1)) rest
      → Accepts (Numbered i) (and_then x (λ r. map_ok (λ rs. r ∷ rs) rest))
  Numbered-cons i (ok r) (ok rs) (e, u) p = (e, u, p)
  Numbered-cons i (ok r) (err e) _ p = tt
  Numbered-cons i (err e) rest q p = tt

  parse_routes-Numbered :
      (defaults : Defaults) (i : ℕ) (rows : List (Result Table))
      → 1 ≤ defaults.hedge.max_parallel
      → Accepts (Numbered i) (parse_routes regex_error lua defaults i rows)
  unfolding parse_routes
  parse_routes-Numbered defaults i [] l = tt
  parse_routes-Numbered defaults i (rv ∷ more) l =
      Numbered-cons i _ _ (parse_route-IsUsable defaults ((i + 1) % u32_mod) rv l)
        (parse_routes-Numbered defaults (i + 1) more l)

  accepted_routes :
      (x : Result (List RouteDef))
      → Accepts (Numbered 0) x
      → Accepts (λ rs. (rs ≢ []) × Numbered 0 rs) (and_then x not_empty)
  unfolding not_empty
  accepted_routes (ok []) p = tt
  accepted_routes (ok (r ∷ rs)) p = (λ e. cc, p)
  accepted_routes (err e) p = tt

  routes_from-Numbered :
      (defaults : Defaults) (t : Option Table)
      → 1 ≤ defaults.hedge.max_parallel
      → Accepts (λ rs. (rs ≢ []) × Numbered 0 rs) (routes_from regex_error lua defaults t)
  unfolding routes_from
  routes_from-Numbered defaults none l = tt
  routes_from-Numbered defaults (some t) l =
      accepted_routes _ (parse_routes-Numbered defaults 0 (sequence_of_tables t) l)

  -- The routes of an accepted configuration, of which there is at least one, are numbered from 1 on in
  -- the order of the file (modulo 2^32), and each allows an attempt, a flight in a hedged dispatch, and
  -- has a failure streak below 2^32.
  pub parse_router_config-Numbered :
      (cfg : Table)
      → Accepts (λ rs. (rs ≢ []) × Numbered 0 rs) (parse_router_config regex_error lua cfg)
  unfolding parse_router_config parse_defaults
  parse_router_config-Numbered cfg = routes_from-Numbered _ _ (defaults_from-parallel _)

  with_matcher-is_ok :
      (defaults : Defaults) (idx : ℕ) (name : Text) (label : Text → Text) (m : Result Matcher)
      (route : Table)
      → is_ok (
          and_then
            (map_err label m)
            (λ matcher. ok (route_of regex_error lua defaults idx name matcher route)))
        ≡ is_ok m
  with_matcher-is_ok defaults idx name label (ok matcher) route = refl
  with_matcher-is_ok defaults idx name label (err e) route = refl

  parse_route-is_ok :
      (defaults : Defaults) (idx : ℕ) (rv : Result Table)
      → is_ok (parse_route regex_error lua defaults idx rv) ≡ row_ok rv
  unfolding parse_route row_ok
  parse_route-is_ok defaults idx (ok route) = with_matcher-is_ok defaults idx _ _ _ route
  parse_route-is_ok defaults idx (err e) = refl

  is_ok-cons :
      (x : Result RouteDef) (rest : Result (List RouteDef))
      → is_ok (and_then x (λ r. map_ok (λ rs. r ∷ rs) rest)) ≡ (is_ok x && is_ok rest)
  is_ok-cons (ok r) (ok rs) = refl
  is_ok-cons (ok r) (err e) = refl
  is_ok-cons (err e) rest = refl

  parse_routes-is_ok :
      (defaults : Defaults) (i : ℕ) (rows : List (Result Table))
      → is_ok (parse_routes regex_error lua defaults i rows) ≡ all row_ok rows
  unfolding parse_routes
  parse_routes-is_ok defaults i [] = refl
  parse_routes-is_ok defaults i (rv ∷ more) =
      rw
        (
          is_ok-cons (parse_route regex_error lua defaults ((i + 1) % u32_mod) rv)
              (parse_routes regex_error lua defaults (i + 1) more),
          parse_route-is_ok defaults ((i + 1) % u32_mod) rv,
          parse_routes-is_ok defaults (i + 1) more,
        )
        refl

  nonempty-is_ok :
      (x : Result RouteDef) (rest : Result (List RouteDef))
      → is_ok (and_then (and_then x (λ r. map_ok (λ rs. r ∷ rs) rest)) not_empty)
        ≡ (is_ok x && is_ok rest)
  unfolding not_empty
  nonempty-is_ok (ok r) (ok rs) = refl
  nonempty-is_ok (ok r) (err e) = refl
  nonempty-is_ok (err e) rest = refl

  -- There are rows, and each is accepted.
  unfoldable pub rows_ok : List (Result Table) → Bool
  rows_ok [] = false
  rows_ok (rv ∷ more) = row_ok rv && all row_ok more

  -- `routes` is a table of such rows.
  unfoldable pub table_ok : Option Table → Bool
  table_ok none = false
  table_ok (some t) = rows_ok (sequence_of_tables t)

  rows-is_ok :
      (defaults : Defaults) (rows : List (Result Table))
      → is_ok (and_then (parse_routes regex_error lua defaults 0 rows) not_empty) ≡ rows_ok rows
  unfolding parse_routes rows_ok not_empty
  rows-is_ok defaults [] = refl
  rows-is_ok defaults (rv ∷ more) =
      rw
        (
          nonempty-is_ok (parse_route regex_error lua defaults (1 % u32_mod) rv)
              (parse_routes regex_error lua defaults 1 more),
          parse_route-is_ok defaults (1 % u32_mod) rv,
          parse_routes-is_ok defaults 1 more,
        )
        refl

  routes_from-is_ok :
      (defaults : Defaults) (t : Option Table)
      → is_ok (routes_from regex_error lua defaults t) ≡ table_ok t
  unfolding routes_from table_ok
  routes_from-is_ok defaults none = refl
  routes_from-is_ok defaults (some t) = rows-is_ok defaults (sequence_of_tables t)

  -- A configuration is accepted exactly when `routes` is a table that has a row, and each of its rows is
  -- a table whose `match` the parser of matchers accepts: nothing else in it is refused.
  pub parse_router_config-is_ok :
      (cfg : Table)
      → is_ok (parse_router_config regex_error lua cfg)
        ≡ table_ok (get_table lua cfg (codes "routes"))
  unfolding parse_router_config
  parse_router_config-is_ok cfg = routes_from-is_ok _ _
