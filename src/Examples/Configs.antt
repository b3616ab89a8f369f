-- ===== src/Examples/Configs.antt =====
-- The theorems on configurations and Lua machines, at one route with a hook.
use proxy_systems.Common.{ℕ, ◌≡◌, ◌≢◌, refl, [], ◌∷◌, Option, none, some, ◌==◌, ◌&&◌, if◌then◌else◌}
use proxy_systems.Common.Text.{Text, codes, text_eq}
use proxy_systems.Common.Results.{ok, Accepts, is_ok}
use proxy_systems.Lua.Value.{LuaApi, nil, table, function, string, get_table}
use proxy_systems.Lua.Pool.{LuaMachine, LuaPool, reload}
use proxy_systems.Lua.Pool.Synced.{IsSynced}
use proxy_systems.Lua.Pool.Reload.{reload-IsSynced}
use proxy_systems.Route.Config.{parse_router_config}
use proxy_systems.Route.Config.Checked.{
  Numbered, table_ok, parse_router_config-Numbered, parse_router_config-is_ok,
}

-- Tables by number: 0 is the configuration, 1 its list of routes, 2 the one route, 3 its matcher.
abbrev one_route : LuaApi
one_route = record {
  Table = ℕ;
  Integer = ℕ;
  Number = ℕ;
  Function = ℕ;
  get = λ t key.
      if t == 0 && text_eq key (codes "routes")
      then some (table 1)
      else if t == 2 && text_eq key (codes "match")
      then some (table 3)
      else if t == 2 && text_eq key (codes "on_response")
      then some (function 7)
      else if t == 3 && text_eq key (codes "host")
      then some (string (some (codes "*.x")))
      else none;
  sequence_of_strings = λ t. [];
  sequence_of_integers = λ t. [];
  sequence_of_tables = λ t. if t == 1 then ok 2 ∷ [] else [];
  pairs_of_strings = λ t. [];
  integer_to_number = λ i. i;
  number_to_u64 = λ n. n;
  number_to_u16 = λ n. n;
  integer_to_u16 = λ n. n;
}

abbrev any_regex : Text → Option Text
any_regex re = none

parse_router_config-Numbered_example :
    Accepts (λ rs. (rs ≢ []) × Numbered 0 rs) (parse_router_config any_regex one_route 0)
parse_router_config-Numbered_example = parse_router_config-Numbered any_regex one_route 0

parse_router_config-is_ok_example :
    is_ok (parse_router_config any_regex one_route 0)
    ≡ table_ok any_regex one_route (get_table one_route 0 (codes "routes"))
parse_router_config-is_ok_example = parse_router_config-is_ok any_regex one_route 0

abbrev plain_machine : LuaMachine one_route
plain_machine = record {
  Machine = ℕ;
  load = λ k source dir limit. ok (k, 0);
  call = λ f args m. (ok nil, m);
}

-- A pool of two machines that serves no route.
abbrev idle_pool : LuaPool ℕ ℕ
idle_pool = record {
  vms = record { machine = 0; hooks = [] } ∷ record { machine = 1; hooks = [] } ∷ [];
  rr = 0;
  config = [];
  instr_limit = 1000;
  routes_dir = codes ".";
}

reload-IsSynced_example :
    IsSynced (reload any_regex one_route plain_machine (codes "return") idle_pool).1
reload-IsSynced_example =
    reload-IsSynced any_regex one_route plain_machine 0 (codes "return") idle_pool (λ k. refl)
      (tt, (tt, tt))
