-- ===== src/Lua/Calls.antt =====
-- intermediate-proxy/src/lua/mod.rs: the calls of the hooks in a machine of the pool, and what they answer
-- where there is no hook or it fails.
use proxy_systems.Common.{
  ℕ, zero, suc, ◌+◌, ◌%◌, Bool, true, false, List, [], ◌∷◌, Option, none, some, if◌then◌else◌,
  length, get_elem?, set, get_or_else,
}
use proxy_systems.Common.Words.{add64}
use proxy_systems.Common.Text.{Text}
use proxy_systems.Common.Results.{Result, ok, err}
use proxy_systems.Proxy.Entry.{RouteId}
use proxy_systems.Lua.{
  HookCtx, HookRes, ResponseVerdict, success, ExhaustedVerdict, try_fatal, ProbeOutcome,
  still_banned, RequestMods,
}
use proxy_systems.Lua.Value.{LuaApi, LuaValue, nil, boolean}
use proxy_systems.Lua.Verdict.{
  by_status, no_mods, parse_response_verdict, parse_exhausted_verdict, parse_request_mods,
  parse_probe_outcome,
}
use proxy_systems.Lua.Context.{
  text, count, text_pairs, Arg, fields, plain, build_ctx_table, build_res_table,
}
use proxy_systems.Lua.Pool.{HookEntry, LuaMachine, Vm, LuaPool}

-- The entry of a route, by its number from 1 on.
unfoldable pub hook_entry : {G : Type 0} → List (HookEntry G) → RouteId → Option (HookEntry G)
hook_entry hooks zero = none
hook_entry hooks (suc i) = get_elem? hooks i

unfoldable pub hook_fn :
    {G : Type 0} → List (HookEntry G) → RouteId → (HookEntry G → Option G) → Option G
hook_fn hooks route_id name = elim (hook_entry hooks route_id) [ none ↦ none | some e ↦ name e ]

-- `pick`: the first machine from `start` on whose lock is free, or `start` itself.
unfoldable pub first_free : (ℕ → Bool) → ℕ → ℕ → ℕ → ℕ → ℕ
first_free busy start n off zero = start
first_free busy start n off (suc more) =
    let later = first_free busy start n (off + 1) more in
    if busy ((start + off) % n) then later else (start + off) % n

unfoldable pub pick : {M G : Type 0} → (ℕ → Bool) → LuaPool M G → ℕ × LuaPool M G
pick busy pool =
    let n = length pool.vms in
    (first_free busy (pool.rr % n) n 0 n, record pool { rr = add64 pool.rr 1 })

module _ (lua : LuaApi) (machines : LuaMachine lua) where
  open lua use {Function}
  open machines use {Machine, call}

  -- The call of a function in the machine of a slot, which may change the machine.
  unfoldable pub call_in :
      ℕ
      → Vm Machine Function
      → Option Function
      → List Arg
      → LuaPool Machine Function
      → Option (Result (LuaValue lua)) × LuaPool Machine Function
  call_in idx vm none args pool = (none, pool)
  call_in idx vm (some f) args pool =
      let (result, machine) = call f args vm.machine in
      (some result, record pool { vms = set pool.vms idx (record vm { machine = machine }) })

  unfoldable pub call_at :
      ℕ
      → Option (Vm Machine Function)
      → RouteId
      → (HookEntry Function → Option Function)
      → List Arg
      → LuaPool Machine Function
      → Option (Result (LuaValue lua)) × LuaPool Machine Function
  call_at idx none route_id name args pool = (none, pool)
  call_at idx (some vm) route_id name args pool =
      call_in idx vm (hook_fn vm.hooks route_id name) args pool

  -- The part that the hooks share: a machine is picked, and the hook of the route is called in it.
  unfoldable pub call_hook :
      (ℕ → Bool)
      → RouteId
      → (HookEntry Function → Option Function)
      → List Arg
      → LuaPool Machine Function
      → Option (Result (LuaValue lua)) × LuaPool Machine Function
  call_hook busy route_id name args pool =
      let (idx, pool') = pick busy pool in
      call_at idx (get_elem? pool'.vms idx) route_id name args pool'

  unfoldable pub predicate_answer : Option (Result (LuaValue lua)) → Bool
  predicate_answer none = true
  predicate_answer (some (ok (boolean b))) = b
  predicate_answer (some (ok nil)) = false
  predicate_answer (some (ok _)) = true
  predicate_answer (some (err e)) = false

  unfoldable pub eval_predicate :
      (ℕ → Bool) → RouteId → HookCtx → LuaPool Machine Function → Bool × LuaPool Machine Function
  eval_predicate busy route_id ctx pool =
      let (answer, pool') =
        call_hook busy route_id (λ e. e.predicate) (fields (build_ctx_table ctx) ∷ []) pool in
      (predicate_answer answer, pool')

  unfoldable pub request_answer : Option (Result (LuaValue lua)) → RequestMods
  request_answer (some (ok v)) = parse_request_mods lua v
  request_answer _ = no_mods

  unfoldable pub on_request :
      (ℕ → Bool)
      → RouteId
      → HookCtx
      → LuaPool Machine Function
      → RequestMods × LuaPool Machine Function
  on_request busy route_id ctx pool =
      let (answer, pool') =
        call_hook busy route_id (λ e. e.on_request) (fields (build_ctx_table ctx) ∷ []) pool in
      (request_answer answer, pool')

  unfoldable pub response_answer : Option (Result (LuaValue lua)) → ℕ → ResponseVerdict
  response_answer (some (ok v)) default_ban_ms = parse_response_verdict lua v default_ban_ms
  response_answer _ default_ban_ms = success

  unfoldable pub on_response :
      (ℕ → Bool)
      → RouteId
      → HookCtx
      → HookRes
      → ℕ
      → LuaPool Machine Function
      → ResponseVerdict × LuaPool Machine Function
  on_response busy route_id ctx res default_ban_ms pool =
      let (answer, pool') =
        call_hook busy route_id (λ e. e.on_response)
          (fields (build_ctx_table ctx) ∷ fields (build_res_table res) ∷ []) pool in
      (response_answer answer default_ban_ms, pool')

  unfoldable pub exhausted_answer : Option (Result (LuaValue lua)) → ExhaustedVerdict
  exhausted_answer (some (ok v)) = parse_exhausted_verdict lua v
  exhausted_answer _ = try_fatal

  unfoldable pub on_exhausted :
      (ℕ → Bool)
      → RouteId
      → HookCtx
      → LuaPool Machine Function
      → ExhaustedVerdict × LuaPool Machine Function
  on_exhausted busy route_id ctx pool =
      let (answer, pool') =
        call_hook busy route_id (λ e. e.on_exhausted) (fields (build_ctx_table ctx) ∷ []) pool in
      (exhausted_answer answer, pool')

  unfoldable pub classify_answer : Option (Result (LuaValue lua)) → List ℕ → ℕ → ProbeOutcome
  classify_answer none ok_statuses status = by_status ok_statuses status
  classify_answer (some (ok v)) ok_statuses status = parse_probe_outcome lua v ok_statuses status
  classify_answer (some (err e)) ok_statuses status = still_banned

  unfoldable pub probe_classify :
      (ℕ → Bool)
      → RouteId
      → ℕ
      → List (Text × Text)
      → Option Text
      → List ℕ
      → LuaPool Machine Function
      → ProbeOutcome × LuaPool Machine Function
  probe_classify busy route_id status headers body_preview ok_statuses pool =
      let (answer, pool') =
        call_hook busy route_id (λ e. e.probe_classify)
          (plain (count status)
            ∷ plain (text_pairs headers)
            ∷ plain (text (get_or_else body_preview []))
            ∷ [])
          pool in
      (classify_answer answer ok_statuses status, pool')
