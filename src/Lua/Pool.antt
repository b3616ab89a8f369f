-- ===== src/Lua/Pool.antt =====
-- intermediate-proxy/src/lua/mod.rs: the pool of Lua machines, its reload, and the calls of the hooks.
-- Loading a source into a machine, with the sandbox, and running a function belong to the Lua library.
pub mod Synced
pub mod Reload
use proxy_systems.Common.{
  ℕ, zero, suc, ◌+◌, ◌-◌, ◌%◌, max, Bool, true, false, not, List, [], ◌∷◌, ◌++◌, Option, none, some,
  if◌then◌else◌, length, get_elem?, set, get_or_else, is_empty,
}
use proxy_systems.Common.Words.{add64}
use proxy_systems.Common.Text.{Text, codes}
use proxy_systems.Common.Results.{Result, ok, err, and_then, map_ok, map_err}
use proxy_systems.Proxy.Entry.{RouteId}
use proxy_systems.Proxy.Pool.{same_mtime}
use proxy_systems.Route.Def.{RouteDef}
use proxy_systems.Route.Config.{parse_router_config}
use proxy_systems.Lua.{
  HookCtx, HookRes, ResponseVerdict, success, ExhaustedVerdict, try_fatal, ProbeOutcome,
  still_banned, RequestMods,
}
use proxy_systems.Lua.Value.{LuaApi, LuaValue, Value, nil, boolean, get_table, get_function}
use proxy_systems.Lua.Verdict.{
  by_status, no_mods, parse_response_verdict, parse_exhausted_verdict, parse_request_mods,
  parse_probe_outcome,
}
use proxy_systems.Lua.Context.{
  Field, text, count, text_pairs, Arg, fields, plain, build_ctx_table, build_res_table,
}
use mathlib.Core.Option

-- One entry of the table `__HOOKS`.
pub record HookEntry (G : Type 0) : Type 0 where
  pub on_request : Option G
  pub on_response : Option G
  pub on_exhausted : Option G
  pub predicate : Option G
  pub probe_classify : Option G

-- What the library does: `load` makes a machine, sandboxes it, runs the source in it and sets its budget
-- of instructions; `call` runs a function. The number tells the machines of one build apart.
pub record LuaMachine (lua : LuaApi) : Type 1 where
  pub Machine : Type 0
  pub load : ℕ → Text → Text → ℕ → Result (Machine × lua.Table)
  pub call : lua.Function → List Arg → Machine → Result (LuaValue lua) × Machine

pub record Vm (M G : Type 0) : Type 0 where
  pub machine : M
  pub hooks : List (HookEntry G)

pub record LuaPool (M G : Type 0) : Type 0 where
  pub vms : List (Vm M G)
  pub rr : ℕ
  pub config : List RouteDef
  pub instr_limit : ℕ
  pub routes_dir : Text

module _ (regex_error : Text → Option Text) (lua : LuaApi) (machines : LuaMachine lua) where
  open lua use {Table, Function, sequence_of_tables}
  open machines use {Machine, load, call}

  unfoldable pub function_in : Option Table → Text → Option Function
  function_in none key = none
  function_in (some t) key = get_function lua t key

  unfoldable pub hooks_of : Table → HookEntry Function
  hooks_of r = record {
    on_request = get_function lua r (codes "on_request");
    on_response = get_function lua r (codes "on_response");
    on_exhausted = get_function lua r (codes "on_exhausted");
    predicate = function_in (get_table lua r (codes "match")) (codes "predicate");
    probe_classify = function_in (get_table lua r (codes "probe")) (codes "classify");
  }

  unfoldable pub flatten_hooks : List (Result Table) → Result (List (HookEntry Function))
  flatten_hooks [] = ok []
  flatten_hooks (rv ∷ more) = and_then rv (λ r. map_ok (λ hs. hooks_of r ∷ hs) (flatten_hooks more))

  unfoldable pub hooks_in : Option Table → Result (List (HookEntry Function))
  hooks_in none = ok []
  hooks_in (some routes) = flatten_hooks (sequence_of_tables routes)

  unfoldable pub build_hooks : Table → Result (List (HookEntry Function))
  build_hooks cfg = hooks_in (get_table lua cfg (codes "routes"))

  unfoldable pub new_vm : ℕ → Text → Text → ℕ → Result (Vm Machine Function × Table)
  new_vm k source routes_dir instr_limit =
      and_then (load k source routes_dir instr_limit) (λ loaded.
        map_ok (λ hooks. (record { machine = loaded.0; hooks = hooks }, loaded.1))
          (map_err (λ e. codes "flatten hooks: " ++ e) (build_hooks loaded.1)))

  -- `if k == 0`: the configuration is that of the first machine.
  unfoldable pub config_from : ℕ → Table → Result (Option (List RouteDef))
  config_from zero cfg = map_ok some (parse_router_config regex_error lua cfg)
  config_from (suc k) cfg = ok none

  unfoldable pub first_config :
      Option (List RouteDef) → Option (List RouteDef) → Option (List RouteDef)
  first_config (some c) later = some c
  first_config none later = later

  -- The loop over the machines, from number `k` on.
  unfoldable pub build_vms :
      Text → Text → ℕ → ℕ → ℕ → Result (List (Vm Machine Function) × Option (List RouteDef))
  build_vms source routes_dir instr_limit k zero = ok ([], none)
  build_vms source routes_dir instr_limit k (suc more) =
      let rest = build_vms source routes_dir instr_limit (k + 1) more in
      and_then (new_vm k source routes_dir instr_limit) (λ made.
        and_then (config_from k made.1)
          (λ config. map_ok (λ later. (made.0 ∷ later.0, first_config config later.1)) rest))

  -- `config.ok_or("no vm built")`.
  unfoldable pub with_config :
      List (Vm Machine Function) × Option (List RouteDef)
      → Result (List (Vm Machine Function) × List RouteDef)
  with_config (vms, none) = err (codes "no vm built")
  with_config (vms, some config) = ok (vms, config)

  unfoldable pub build : Text → Text → ℕ → ℕ → Result (LuaPool Machine Function)
  build source routes_dir vm_count instr_limit =
      map_ok
        (λ made. record {
          vms = made.0;
          rr = 0;
          config = made.1;
          instr_limit = instr_limit;
          routes_dir = routes_dir;
        })
        (and_then (build_vms source routes_dir instr_limit 0 (max vm_count 1)) with_config)

  unfoldable pub replaced :
      LuaPool Machine Function
      → Result (List (Vm Machine Function) × List RouteDef)
      → Option Text × LuaPool Machine Function
  replaced pool (ok (vms, config)) = (none, record pool { vms = vms; config = config })
  replaced pool (err e) = (some e, pool)

  -- The error of the reload, if any, and the pool after it.
  unfoldable pub reload : Text → LuaPool Machine Function → Option Text × LuaPool Machine Function
  reload source pool = replaced pool (
      and_then (build_vms source pool.routes_dir pool.instr_limit 0 (max (length pool.vms) 1))
        with_config)

  -- One tick of the watcher: `mtime` is what the file system says, if it can be asked at all, and `read`
  -- the text of the file, if it can be read.
  unfoldable pub reread : Option Text → LuaPool Machine Function → LuaPool Machine Function
  reread none pool = pool
  reread (some source) pool = (reload source pool).1

  unfoldable pub watch_once :
      Option (Option ℕ)
      → Option Text
      → Option ℕ × LuaPool Machine Function
      → Option ℕ × LuaPool Machine Function
  watch_once none read (last, pool) = (last, pool)
  watch_once (some mtime) read (last, pool) =
      if same_mtime mtime last then (last, pool) else (mtime, reread read pool)
