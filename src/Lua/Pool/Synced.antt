-- ===== src/Lua/Pool/Synced.antt =====
-- intermediate-proxy/src/lua/mod.rs and route/config.rs: the flags of the routes and the hooks of the
-- machines say the same.
use proxy_systems.Common.{
  ℕ, ◌+◌, ◌≡◌, refl, subst, Bool, List, [], ◌∷◌, Option, none, some, is_some, All,
}
use proxy_systems.Common.Text.{Text, codes}
use proxy_systems.Common.Results.{Result, ok, err, and_then, map_ok, map_err, Accepts}
use proxy_systems.Route.Def.{HostMatch, PathMatch, Matcher, ProbeCfg, RouteDef}
use proxy_systems.Route.MatcherParser.{matcher_from, parse_matcher}
use proxy_systems.Route.Config.{
  Defaults, probe_from, parse_probe, route_of, parse_route, parse_routes, not_empty, routes_from,
  parse_router_config,
}
use proxy_systems.Lua.Value.{LuaApi}
use proxy_systems.Lua.Pool.{
  HookEntry, LuaPool, LuaMachine, function_in, hooks_of, flatten_hooks, hooks_in, build_hooks,
}
use mathlib.Core.Option

-- A probe calls the classifier exactly where there is one; without a probe there is no call.
abbrev pub ClassifyMatches : {G : Type 0} → Option ProbeCfg → Option G → Type 0
ClassifyMatches none f = Unit
ClassifyMatches (some p) f = p.has_classify ≡ is_some f

-- The flags of a route are those of its hooks.
pub record Matches {G : Type 0} (r : RouteDef) (e : HookEntry G) : Type 0 where
  pub request : r.hooks.on_request ≡ is_some e.on_request
  pub response : r.hooks.on_response ≡ is_some e.on_response
  pub exhausted : r.hooks.on_exhausted ≡ is_some e.on_exhausted
  pub predicate : r.matcher.has_predicate ≡ is_some e.predicate
  pub classify : ClassifyMatches r.probe e.probe_classify

-- Route by route, in order.
abbrev pub Agree : {G : Type 0} → List RouteDef → List (HookEntry G) → Type 0
Agree [] [] = Unit
Agree (r ∷ rs) (e ∷ es) = Matches r e × Agree rs es
Agree [] (e ∷ es) = ⊥
Agree (r ∷ rs) [] = ⊥

abbrev Flattened : {G : Type 0} → List RouteDef → Result (List (HookEntry G)) → Type 0
Flattened rs (ok es) = Agree rs es
Flattened rs (err e) = ⊥

-- Every machine of the pool has the hooks of the routes of the configuration.
abbrev pub IsSynced : {M G : Type 0} → LuaPool M G → Type 0
IsSynced pool = All (λ vm. Agree pool.config vm.hooks) pool.vms

module _ (regex_error : Text → Option Text) (lua : LuaApi) (machines : LuaMachine lua) where
  open lua use {Table, Function, sequence_of_tables}
  open machines use {Machine, load}

  both_parts :
      (h : Result HostMatch) (p : Result PathMatch) (methods : Option (List Text)) (b : Bool)
      → Accepts
          (λ (m : Matcher). m.has_predicate ≡ b)
          (and_then h (λ host. and_then p (λ path.
            ok (record { host = host; path = path; methods = methods; has_predicate = b }))))
  both_parts (ok host) (ok path) methods b = refl
  both_parts (ok host) (err e) methods b = tt
  both_parts (err e) p methods b = tt

  matcher_from-predicate :
      (t : Option Table)
      → Accepts
          (λ (m : Matcher).
            m.has_predicate ≡ is_some (function_in regex_error lua machines t (codes "predicate")))
          (matcher_from regex_error lua t)
  unfolding matcher_from function_in
  matcher_from-predicate none = tt
  matcher_from-predicate (some m) = both_parts _ _ _ _

  map-classify :
      (make : Text → ProbeCfg) (url : Option Text) (f : Option Function)
      → ((u : Text) → (make u).has_classify ≡ is_some f)
      → ClassifyMatches (Option.map make url) f
  map-classify make none f e = tt
  map-classify make (some u) f e = e u

  probe_from-classify :
      (t : Option Table)
      → ClassifyMatches
          (probe_from regex_error lua t)
          (function_in regex_error lua machines t (codes "classify"))
  unfolding probe_from function_in
  probe_from-classify none = tt
  probe_from-classify (some p) = map-classify _ _ _ (λ u. refl)

  with_matcher-Matches :
      (defaults : Defaults) (idx : ℕ) (name : Text) (label : Text → Text) (route : Table)
      (m : Result Matcher)
      → Accepts
          (λ (m : Matcher).
            m.has_predicate ≡ is_some (hooks_of regex_error lua machines route).predicate)
          m
      → Accepts
          (λ r. Matches r (hooks_of regex_error lua machines route))
          (and_then
            (map_err label m)
            (λ matcher. ok (route_of regex_error lua defaults idx name matcher route)))
  unfolding route_of hooks_of parse_probe
  with_matcher-Matches defaults idx name label route (ok m) e = record {
    request = refl;
    response = refl;
    exhausted = refl;
    predicate = e;
    classify = probe_from-classify _;
  }
  with_matcher-Matches defaults idx name label route (err e) _ = tt

  parse_route-Matches :
      (defaults : Defaults) (idx : ℕ) (route : Table)
      → Accepts
          (λ r. Matches r (hooks_of regex_error lua machines route))
          (parse_route regex_error lua defaults idx (ok route))
  unfolding parse_route parse_matcher hooks_of
  parse_route-Matches defaults idx route =
      with_matcher-Matches defaults idx _ _ route _ (matcher_from-predicate _)

  cons-Flattened :
      (e : HookEntry Function) (x : Result RouteDef) (rest : Result (List RouteDef))
      (hs : Result (List (HookEntry Function)))
      → Accepts (λ r. Matches r e) x
      → Accepts (λ rs. Flattened rs hs) rest
      → Accepts
          (λ rs. Flattened rs (map_ok (λ es. e ∷ es) hs))
          (and_then x (λ r. map_ok (λ rs. r ∷ rs) rest))
  cons-Flattened e (ok r) (ok rs) (ok es) m a = (m, a)
  cons-Flattened e (ok r) (ok rs) (err _) m a = a
  cons-Flattened e (ok r) (err _) hs m a = tt
  cons-Flattened e (err _) rest hs m a = tt

  rows-Flattened :
      (defaults : Defaults) (i : ℕ) (rows : List (Result Table))
      → Accepts
          (λ rs. Flattened rs (flatten_hooks regex_error lua machines rows))
          (parse_routes regex_error lua defaults i rows)
  unfolding parse_routes flatten_hooks parse_route
  rows-Flattened defaults i [] = tt
  rows-Flattened defaults i (ok route ∷ more) =
      cons-Flattened _ _ _ _ (parse_route-Matches defaults _ route)
        (rows-Flattened defaults (i + 1) more)
  rows-Flattened defaults i (err e ∷ more) = tt

  nonempty-Flattened :
      (x : Result (List RouteDef)) (hs : Result (List (HookEntry Function)))
      → Accepts (λ rs. Flattened rs hs) x
      → Accepts (λ rs. Flattened rs hs) (and_then x not_empty)
  unfolding not_empty
  nonempty-Flattened (ok []) hs a = tt
  nonempty-Flattened (ok (r ∷ rs)) hs a = a
  nonempty-Flattened (err e) hs a = tt

  routes_from-Flattened :
      (defaults : Defaults) (t : Option Table)
      → Accepts
          (λ rs. Flattened rs (hooks_in regex_error lua machines t))
          (routes_from regex_error lua defaults t)
  unfolding routes_from hooks_in
  routes_from-Flattened defaults none = tt
  routes_from-Flattened defaults (some t) = nonempty-Flattened _ _ (rows-Flattened defaults 0 _)

  -- What the parser and the flattening make of one table agrees.
  pub config-Agree :
      (t : Table) (rs : List RouteDef) (es : List (HookEntry Function))
      → parse_router_config regex_error lua t ≡ ok rs
      → build_hooks regex_error lua machines t ≡ ok es
      → Agree rs es
  unfolding parse_router_config build_hooks
  config-Agree t rs es p q = subst (Flattened rs) q (
      subst (Accepts (λ rs. Flattened rs (build_hooks regex_error lua machines t))) p
        (routes_from-Flattened _ _))
