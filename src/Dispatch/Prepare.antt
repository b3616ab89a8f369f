-- ===== src/Dispatch/Prepare.antt =====
-- intermediate-proxy/src/dispatch/mod.rs, the beginning of `run`: the headers of the request and what the
-- hook on the request changes.

use proxy_systems.Common.{List, [], ◌∷◌, Option, none, some, if◌then◌else◌}
use proxy_systems.Common.Text.{Text}
use proxy_systems.Route.Def.{RouteDef, Selector, sticky_by_header}
use proxy_systems.Http.{HeaderApi}
use proxy_systems.Lua.{RequestMods, Hooks}
use proxy_systems.Dispatch.Outcome.{Request}
use proxy_systems.Dispatch.Attempt.{base_ctx}

module _ (api : HeaderApi) where
  open api use {Headers, get, remove, insert_valid}

  unfoldable pub drop_all : List Text → Headers → Headers
  drop_all [] h = h
  drop_all (d ∷ ds) h = drop_all ds (remove d h)

  unfoldable pub add_all : List (Text × Text) → Headers → Headers
  add_all [] h = h
  add_all ((k, v) ∷ more) h = add_all more (insert_valid k v h)

  unfoldable pub apply_request_mods : Headers → RequestMods → Headers
  apply_request_mods h mods = add_all mods.add_headers (drop_all mods.drop_headers h)

  -- `header_pairs`, `on_request` and the overrides that it may make.
  pub record Prepared : Type 0 where
    pub base_headers : Headers
    pub pool_all : List Text
    pub pool_any : List Text
    pub forced : Option Text

  unfoldable pub override_tags : Option (List Text) → Prepared → Prepared
  override_tags none p = p
  override_tags (some tags) p = record p { pool_all = tags; pool_any = [] }

  unfoldable pub prepare : Hooks → RouteDef → Request Headers → Prepared
  prepare hooks route req =
      let plain : Prepared = record {
        base_headers = req.headers;
        pool_all = route.pool_all_tags;
        pool_any = route.pool_any_tags;
        forced = none;
      } in
      let mods = hooks.on_request 0 route.id (base_ctx api route req (api.pairs req.headers)) in
      if route.hooks.on_request
      then override_tags mods.override_all_tags (record plain {
        base_headers = apply_request_mods req.headers mods;
        forced = mods.force_proxy;
      })
      else plain

  unfoldable pub sticky_key : Selector → Headers → Option Text
  sticky_key (sticky_by_header name) h = get name h
  sticky_key _ h = none
