-- ===== src/Lua.antt =====
-- intermediate-proxy/src/lua/api.rs, the data: what the route hooks are given and what they decide.
-- The Lua machine is a library; a hook is a function of its call's number and its arguments.
pub mod Value
pub mod Verdict
pub mod Context
pub mod Pool
pub mod Calls
use proxy_systems.Common.{ℕ, List, Option}
use proxy_systems.Common.Text.{Text}
use proxy_systems.Proxy.Entry.{RouteId}

pub record HookCtx : Type 0 where
  pub route_name : Text
  pub target_url : Text
  pub host : Text
  pub path : Text
  pub method : Text
  pub headers : List (Text × Text)
  pub attempt : ℕ
  pub proxy_url : Option Text
  pub proxy_tags : List Text
  pub elapsed_ms : ℕ

pub record HookRes : Type 0 where
  pub status : ℕ
  pub headers : List (Text × Text)
  pub body_preview : Option Text
  pub elapsed_ms : ℕ
  pub bytes_received : ℕ

pub data ResponseVerdict : Type 0 where
  success return_as_is : ResponseVerdict
  retry_other_proxy : ℕ → ResponseVerdict
  retry_same_proxy : ℕ → ResponseVerdict
  hard_fail : Text → ResponseVerdict
  give_up : ℕ → Text → ResponseVerdict

pub data ExhaustedVerdict : Type 0 where
  try_fatal retry_all : ExhaustedVerdict
  wait_probe : ℕ → ExhaustedVerdict
  return_error : ℕ → Text → ExhaustedVerdict

pub data ProbeOutcome : Type 0 where
  probe_ok still_banned give_up_route : ProbeOutcome

pub record RequestMods : Type 0 where
  pub add_headers : List (Text × Text)
  pub drop_headers : List Text
  pub override_all_tags : Option (List Text)
  pub force_proxy : Option Text

-- The hooks of `LuaPool`, after the verdict tables are parsed.
pub record Hooks : Type 0 where
  pub on_request : ℕ → RouteId → HookCtx → RequestMods
  pub on_response : ℕ → RouteId → HookCtx → HookRes → ℕ → ResponseVerdict
  pub on_exhausted : ℕ → RouteId → HookCtx → ExhaustedVerdict
