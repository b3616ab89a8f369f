-- ===== src/Lua/Pool/Reload.antt =====
-- intermediate-proxy/src/lua/mod.rs: a reload leaves a pool whose machines have the hooks of its routes.
use proxy_systems.Common.{
  ℕ, zero, suc, ◌+◌, ◌≡◌, sym, ap, List, ◌∷◌, Option, none, some, All, All-weaken,
}
use proxy_systems.Common.Text.{Text}
use proxy_systems.Common.Results.{Result, ok, err, and_then, map_ok, map_err, Accepts}
use proxy_systems.Route.Def.{RouteDef}
use proxy_systems.Route.Config.{parse_router_config}
use proxy_systems.Lua.Value.{LuaApi}
use proxy_systems.Lua.Pool.{
  HookEntry, Vm, LuaPool, LuaMachine, build_hooks, new_vm, config_from, first_config, build_vms,
  with_config, replaced, reload,
}
use proxy_systems.Lua.Pool.Synced.{Agree, IsSynced, config-Agree}

module _ (regex_error : Text → Option Text) (lua : LuaApi) (machines : LuaMachine lua) where
  open lua use {Table, Function}
  open machines use {Machine, load}

  -- The source gives this table in every machine, where it can be run.
  abbrev pub Gives : Table → Text → Text → ℕ → Type 0
  Gives t source routes_dir instr_limit =
      (k : ℕ) → Accepts (λ loaded. loaded.1 ≡ t) (load k source routes_dir instr_limit)

  -- The machine has the hooks of the table.
  abbrev HasHooks : Table → Vm Machine Function → Type 0
  HasHooks t vm = build_hooks regex_error lua machines t ≡ ok vm.hooks

  abbrev Loaded : Table → Vm Machine Function × Table → Type 0
  Loaded t made = HasHooks t made.0 × (made.1 ≡ t)

  abbrev Chosen : Table → Option (List RouteDef) → Type 0
  Chosen t none = Unit
  Chosen t (some rs) = parse_router_config regex_error lua t ≡ ok rs

  module _ (t : Table) where
    made_vm :
        (loaded : Machine × Table) (label : Text → Text) (hs : Result (List (HookEntry Function)))
        → build_hooks regex_error lua machines t ≡ hs
        → loaded.1 ≡ t
        → Accepts (Loaded t) (
            map_ok
              (λ hooks. (record { machine = loaded.0; hooks = hooks }, loaded.1))
              (map_err label hs))
    made_vm loaded label (ok hooks) e p = (e, p)
    made_vm loaded label (err _) e p = tt

    new_vm-HasHooks :
        (x : Result (Machine × Table)) (label : Text → Text)
        → Accepts (λ loaded. loaded.1 ≡ t) x
        → Accepts (Loaded t) (
            and_then x (λ loaded.
              map_ok
                (λ hooks. (record { machine = loaded.0; hooks = hooks }, loaded.1))
                (map_err label (build_hooks regex_error lua machines loaded.1))))
    new_vm-HasHooks (ok loaded) label p =
        made_vm loaded label _ (sym (ap (λ c. build_hooks regex_error lua machines c) p)) p
    new_vm-HasHooks (err e) label p = tt

    Chosen-ok :
        (x : Result (List RouteDef))
        → parse_router_config regex_error lua t ≡ x
        → Accepts (Chosen t) (map_ok some x)
    Chosen-ok (ok rs) e = e
    Chosen-ok (err _) e = tt

    config_from-Chosen :
        (k : ℕ) (cfg : Table)
        → cfg ≡ t
        → Accepts (Chosen t) (config_from regex_error lua machines k cfg)
    unfolding config_from
    config_from-Chosen zero cfg p =
        Chosen-ok _ (sym (ap (λ c. parse_router_config regex_error lua c) p))
    config_from-Chosen (suc k) cfg p = tt

    first_config-Chosen :
        (a b : Option (List RouteDef))
        → Chosen t a
        → Chosen t b
        → Chosen t (first_config regex_error lua machines a b)
    unfolding first_config
    first_config-Chosen none b p q = q
    first_config-Chosen (some rs) b p q = p

    abbrev Made : List (Vm Machine Function) × Option (List RouteDef) → Type 0
    Made made = All (HasHooks t) made.0 × Chosen t made.1

    Made-cons :
        (k : ℕ) (x : Result (Vm Machine Function × Table))
        (rest : Result (List (Vm Machine Function) × Option (List RouteDef)))
        → Accepts (Loaded t) x
        → Accepts Made rest
        → Accepts Made (
            and_then x (λ made. and_then (config_from regex_error lua machines k made.1) (λ config.
              map_ok
                (λ later. (made.0 ∷ later.0, first_config regex_error lua machines config later.1))
                rest)))
    Made-cons k (err _) rest p q = tt
    Made-cons k (ok made) rest (h, e) q = with_choice _ (config_from-Chosen k made.1 e) rest q
      where
        with_choice :
            (c : Result (Option (List RouteDef)))
            → Accepts (Chosen t) c
            → (rest : Result (List (Vm Machine Function) × Option (List RouteDef)))
            → Accepts Made rest
            → Accepts Made (
                and_then c (λ config.
                  map_ok
                    (λ later.
                      (made.0 ∷ later.0, first_config regex_error lua machines config later.1))
                    rest))
        with_choice (err _) p rest q = tt
        with_choice (ok config) p (err _) q = tt
        with_choice (ok config) p (ok later) (a, b) =
            ((h, a), first_config-Chosen config later.1 p b)

    build_vms-Made :
        (source routes_dir : Text) (instr_limit k n : ℕ)
        → Gives t source routes_dir instr_limit
        → Accepts Made (build_vms regex_error lua machines source routes_dir instr_limit k n)
    unfolding build_vms new_vm
    build_vms-Made source routes_dir instr_limit k zero g = (tt, tt)
    build_vms-Made source routes_dir instr_limit k (suc n) g =
        Made-cons k _ _ (new_vm-HasHooks _ _ (g k))
          (build_vms-Made source routes_dir instr_limit (k + 1) n g)

    -- All machines have the hooks of the routes.
    abbrev AllAgree : List (Vm Machine Function) × List RouteDef → Type 0
    AllAgree made = All (λ vm. Agree made.1 vm.hooks) made.0

    with_config-AllAgree :
        (x : Result (List (Vm Machine Function) × Option (List RouteDef)))
        → Accepts Made x
        → Accepts AllAgree (and_then x (with_config regex_error lua machines))
    unfolding with_config
    with_config-AllAgree (err _) p = tt
    with_config-AllAgree (ok (vms, none)) p = tt
    with_config-AllAgree (ok (vms, some rs)) (a, p) =
        All-weaken vms (λ vm h. config-Agree regex_error lua machines t rs vm.hooks p h) a

  replaced-IsSynced :
      (pool : LuaPool Machine Function) (x : Result (List (Vm Machine Function) × List RouteDef))
      → IsSynced pool
      → Accepts (λ made. All (λ vm. Agree made.1 vm.hooks) made.0) x
      → IsSynced (replaced regex_error lua machines pool x).1
  unfolding replaced
  replaced-IsSynced pool (ok (vms, config)) s p = p
  replaced-IsSynced pool (err e) s p = s

  -- After a reload of a source that gives the same table in every machine, each machine of the pool has
  -- the hooks that the flags of the routes announce, route by route, where this held before; a reload
  -- that fails included.
  pub reload-IsSynced :
      (t : Table) (source : Text) (pool : LuaPool Machine Function)
      → Gives t source pool.routes_dir pool.instr_limit
      → IsSynced pool
      → IsSynced (reload regex_error lua machines source pool).1
  unfolding reload
  reload-IsSynced t source pool g s =
      replaced-IsSynced pool _ s (with_config-AllAgree t _ (build_vms-Made t source _ _ 0 _ g))
