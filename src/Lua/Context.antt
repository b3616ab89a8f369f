-- ===== src/Lua/Context.antt =====
-- intermediate-proxy/src/lua/api.rs: the tables that the hooks are given, as their fields in order.
use proxy_systems.Common.{ℕ, List, [], ◌∷◌, Option, none, some}
use proxy_systems.Common.Text.{Text, codes}
use proxy_systems.Lua.{HookCtx, HookRes}

-- A value that Rust puts into a table; `absent` is `Value::Nil`.
pub data Field : Type 0 where
  absent : Field
  text : Text → Field
  count : ℕ → Field
  texts : List Text → Field
  text_pairs : List (Text × Text) → Field

-- An argument of a hook: a table with these fields, or a plain value.
pub data Arg : Type 0 where
  fields : List (Text × Field) → Arg
  plain : Field → Arg

unfoldable pub text_or_nil : Option Text → Field
text_or_nil none = absent
text_or_nil (some t) = text t

unfoldable pub build_ctx_table : HookCtx → List (Text × Field)
build_ctx_table ctx =
    (codes "route_name", text ctx.route_name)
    ∷ (codes "target_url", text ctx.target_url)
    ∷ (codes "host", text ctx.host)
    ∷ (codes "path", text ctx.path)
    ∷ (codes "method", text ctx.method)
    ∷ (codes "headers", text_pairs ctx.headers)
    ∷ (codes "attempt", count ctx.attempt)
    ∷ (codes "proxy_url", text_or_nil ctx.proxy_url)
    ∷ (codes "proxy_tags", texts ctx.proxy_tags)
    ∷ (codes "elapsed_ms", count ctx.elapsed_ms)
    ∷ []

unfoldable pub build_res_table : HookRes → List (Text × Field)
build_res_table res =
    (codes "status", count res.status)
    ∷ (codes "headers", text_pairs res.headers)
    ∷ (codes "body_preview", text_or_nil res.body_preview)
    ∷ (codes "elapsed_ms", count res.elapsed_ms)
    ∷ (codes "bytes_received", count res.bytes_received)
    ∷ []
