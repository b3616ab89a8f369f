-- ===== src/Lua/Verdict.antt =====
-- intermediate-proxy/src/lua/api.rs: the verdict that a hook's table stands for, and the tables that
-- hooks are given.
use proxy_systems.Common.{
  ℕ, true, false, List, [], map, Option, none, some, if◌then◌else◌, any, ◌==◌, get_or_else,
}
use proxy_systems.Common.Text.{Text, codes, text_eq, to_ascii_lowercase}
use proxy_systems.Lua.{
  ResponseVerdict, success, return_as_is, retry_other_proxy, retry_same_proxy, hard_fail, give_up,
  ExhaustedVerdict, try_fatal, retry_all, wait_probe, return_error, ProbeOutcome, probe_ok,
  still_banned, give_up_route, RequestMods,
}
use proxy_systems.Lua.Value.{
  LuaApi, LuaValue, nil, boolean, string, table, get_num, get_u64, get_string, get_table, flatten,
}
use mathlib.Core.Option

-- `ok_statuses.contains(&status)` decides.
unfoldable pub by_status : List ℕ → ℕ → ProbeOutcome
by_status ok_statuses status = if any (λ s. s == status) ok_statuses then probe_ok else still_banned

-- The default of `RequestMods`.
unfoldable pub no_mods : RequestMods
no_mods = record {
  add_headers = [];
  drop_headers = [];
  override_all_tags = none;
  force_proxy = none;
}

module _ (lua : LuaApi) where
  open lua use {Table, sequence_of_strings, pairs_of_strings, number_to_u16}

  unfoldable pub u16_or : Table → Text → ℕ → ℕ
  u16_or t key default = get_or_else (Option.map number_to_u16 (get_num lua t key)) default

  unfoldable pub text_or : Table → Text → Text → Text
  text_or t key default = get_or_else (get_string lua t key) default

  -- The verdict that a name and the other fields of its table stand for.
  unfoldable pub response_named : Option Text → Table → ℕ → ResponseVerdict
  response_named none t default_ban_ms = success
  response_named (some s) t default_ban_ms =
      if text_eq s (codes "success")
      then success
      else if text_eq s (codes "retry_other_proxy")
      then retry_other_proxy (get_u64 lua t (codes "ban_for_ms") default_ban_ms)
      else if text_eq s (codes "retry_same_proxy")
      then retry_same_proxy (get_u64 lua t (codes "delay_ms") 0)
      else if text_eq s (codes "return_as_is")
      then return_as_is
      else if text_eq s (codes "hard_fail")
      then hard_fail (text_or t (codes "reason") (codes "hard_fail"))
      else if text_eq s (codes "give_up")
      then give_up (u16_or t (codes "status") 502)
          (text_or t (codes "body") (codes "proxy gave up"))
      else success

  unfoldable pub parse_response_verdict : LuaValue lua → ℕ → ResponseVerdict
  parse_response_verdict (table t) default_ban_ms =
      response_named (get_string lua t (codes "verdict")) t default_ban_ms
  parse_response_verdict _ default_ban_ms = success

  unfoldable pub exhausted_named : Option Text → Table → ExhaustedVerdict
  exhausted_named none t = try_fatal
  exhausted_named (some s) t =
      if text_eq s (codes "try_fatal")
      then try_fatal
      else if text_eq s (codes "wait_probe")
      then wait_probe (get_u64 lua t (codes "timeout_ms") 5000)
      else if text_eq s (codes "return_error")
      then return_error (u16_or t (codes "status") 502)
          (text_or t (codes "body") (codes "all proxies exhausted"))
      else if text_eq s (codes "retry_all")
      then retry_all
      else try_fatal

  unfoldable pub parse_exhausted_verdict : LuaValue lua → ExhaustedVerdict
  parse_exhausted_verdict (table t) = exhausted_named (get_string lua t (codes "verdict")) t
  parse_exhausted_verdict _ = try_fatal

  unfoldable pub added : Option Table → List (Text × Text)
  added (some add) = map (λ kv. (to_ascii_lowercase kv.0, kv.1)) (flatten (pairs_of_strings add))
  added none = []

  unfoldable pub dropped : Option Table → List Text
  dropped (some drop) = map to_ascii_lowercase (flatten (sequence_of_strings drop))
  dropped none = []

  -- `override_pool.tags`.
  unfoldable pub overridden : Option Table → Option (List Text)
  overridden (some tags) =
      Option.map (λ list. flatten (sequence_of_strings list)) (get_table lua tags (codes "tags"))
  overridden none = none

  unfoldable pub parse_request_mods : LuaValue lua → RequestMods
  parse_request_mods (table t) = record {
    add_headers = added (get_table lua t (codes "add_headers"));
    drop_headers = dropped (get_table lua t (codes "drop_headers"));
    override_all_tags = overridden (get_table lua t (codes "override_pool"));
    force_proxy = get_string lua t (codes "force_proxy");
  }
  parse_request_mods _ = no_mods

  unfoldable pub probe_named : Option Text → ProbeOutcome
  probe_named (some s) =
      if text_eq s (codes "ok")
      then probe_ok
      else if text_eq s (codes "give_up_route")
      then give_up_route
      else still_banned
  probe_named none = still_banned

  unfoldable pub parse_probe_outcome : LuaValue lua → List ℕ → ℕ → ProbeOutcome
  parse_probe_outcome (string s) ok_statuses status = probe_named s
  parse_probe_outcome (boolean true) ok_statuses status = probe_ok
  parse_probe_outcome (boolean false) ok_statuses status = by_status ok_statuses status
  parse_probe_outcome nil ok_statuses status = by_status ok_statuses status
  parse_probe_outcome _ ok_statuses status = still_banned
