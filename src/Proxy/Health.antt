-- ===== src/Proxy/Health.antt =====
-- intermediate-proxy/src/proxy/entry.rs, `RouteState` and `GlobalStats`: the health of one proxy on
-- one route. An atomic read-modify-write is one operation on the record, and the clock is read once
-- per operation, as the argument `now`.
pub mod Laws
use proxy_systems.Common.{
  ℕ, zero, suc, ◌+◌, ◌-◌, ◌*◌, ◌/◌, Bool, List, [], ◌∷◌, ◌++◌, Option, none, some, ltb, leb, ◌==◌,
  if◌then◌else◌, max,
}
use proxy_systems.Common.Words.{u64_max, add64, mul64, add32, sat_add64}
use proxy_systems.Common.Text.{Text}
use proxy_systems.Util.{scrub_credentials}

abbrev pub ewma_num : ℕ
ewma_num = 3

abbrev pub ewma_den : ℕ
ewma_den = 10

abbrev pub reason_max_len : ℕ
reason_max_len = 200

pub record GlobalStats : Type 0 where
  pub success_count : ℕ
  pub error_count : ℕ
  pub usage_count : ℕ
  pub last_success_ms : ℕ
  pub last_error_ms : ℕ

pub record RouteState : Type 0 where
  pub banned_until_ms : ℕ
  pub consecutive_failures : ℕ
  pub consecutive_successes : ℕ
  pub avg_latency_ms : ℕ
  pub last_latency_ms : ℕ
  pub success_count : ℕ
  pub error_count : ℕ
  pub last_success_ms : ℕ
  pub last_error_ms : ℕ
  pub last_probe_ms : ℕ
  pub ban_count : ℕ
  pub last_error_reason : Option Text

abbrev pub no_stats : GlobalStats
no_stats = record {
  success_count = 0;
  error_count = 0;
  usage_count = 0;
  last_success_ms = 0;
  last_error_ms = 0;
}

-- `RouteState::default`.
abbrev pub fresh_state : RouteState
fresh_state = record {
  banned_until_ms = 0;
  consecutive_failures = 0;
  consecutive_successes = 0;
  avg_latency_ms = 0;
  last_latency_ms = 0;
  success_count = 0;
  error_count = 0;
  last_success_ms = 0;
  last_error_ms = 0;
  last_probe_ms = 0;
  ban_count = 0;
  last_error_reason = none;
}

-- The next average: the first sample as it is, then 3/10 of the sample and 7/10 of the average.
unfoldable pub blend : ℕ → ℕ → ℕ
blend prev sample_ms =
    if prev == 0
    then sample_ms
    else add64 (mul64 ewma_num sample_ms) (mul64 (ewma_den - ewma_num) prev) / ewma_den

unfoldable pub blend_latency : ℕ → RouteState → RouteState
blend_latency sample_ms st = record st { avg_latency_ms = blend st.avg_latency_ms sample_ms }

-- The bytes of a code point in UTF-8, and of a text.
unfoldable pub utf8_len : ℕ → ℕ
utf8_len c = if ltb c 0x80 then 1 else if ltb c 0x800 then 2 else if ltb c 0x10000 then 3 else 4

unfoldable pub byte_len : Text → ℕ
byte_len [] = 0
byte_len (c ∷ s) = utf8_len c + byte_len s

-- `&s[..end]`, where `end` is the last character boundary within `n` bytes.
unfoldable pub take_bytes : ℕ → Text → Text
take_bytes n [] = []
take_bytes n (c ∷ s) =
    let rest = take_bytes (n - utf8_len c) s in if leb (utf8_len c) n then c ∷ rest else []

abbrev pub ellipsis : ℕ
ellipsis = 0x2026

unfoldable pub trim_reason : Text → Text
trim_reason scrubbed =
    if ltb reason_max_len (byte_len scrubbed)
    then take_bytes reason_max_len scrubbed ++ ellipsis ∷ []
    else scrubbed

unfoldable pub set_reason : Text → RouteState → RouteState
set_reason reason st = record st {
  last_error_reason = some (trim_reason (scrub_credentials reason));
}

unfoldable pub is_banned : RouteState → ℕ → Bool
is_banned st now = ltb now st.banned_until_ms

unfoldable pub ban_for : ℕ → ℕ → RouteState → RouteState
ban_for now ms st = record st {
  banned_until_ms = sat_add64 now ms;
  ban_count = add64 st.ban_count 1;
}

unfoldable pub ban_permanent : RouteState → RouteState
ban_permanent st = record st { banned_until_ms = u64_max; ban_count = add64 st.ban_count 1 }

unfoldable pub clear_ban : RouteState → RouteState
clear_ban st = record st { banned_until_ms = 0; consecutive_failures = 0 }

unfoldable pub observe_success : ℕ → ℕ → RouteState → RouteState
unfolding blend_latency
observe_success now latency_ms st = blend_latency latency_ms (record st {
  success_count = add64 st.success_count 1;
  consecutive_failures = 0;
  consecutive_successes = add32 st.consecutive_successes 1;
  last_success_ms = now;
  last_latency_ms = latency_ms;
})

-- The part of `observe_failure` for a failure whose latency was measured.
unfoldable pub observe_latency : Option ℕ → ℕ → RouteState → RouteState
unfolding blend_latency
observe_latency none slow_ms st = st
observe_latency (some l) slow_ms st =
    blend_latency (max l (add64 slow_ms 1)) (record st { last_latency_ms = l })

unfoldable pub observe_failure : ℕ → Option ℕ → Text → ℕ → RouteState → RouteState
unfolding observe_latency set_reason
observe_failure now latency_ms reason slow_ms st = set_reason reason (
    observe_latency latency_ms slow_ms (record st {
      error_count = add64 st.error_count 1;
      consecutive_successes = 0;
      consecutive_failures = add32 st.consecutive_failures 1;
      last_error_ms = now;
    }))
