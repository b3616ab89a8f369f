-- ===== src/Common/Words.antt =====
-- Machine integers as natural numbers: unsigned 64-bit and 32-bit words that wrap around, as the
-- release profile of the root Cargo.toml compiles them, and the saturating operations.
use proxy_systems.Common.Tests.{ltb, if◌then◌else◌}
use Prim.Native.Nat.{ℕ, ◌+◌, ◌*◌, ◌-◌, ◌%◌, ◌^◌}

abbrev pub u64_mod : ℕ
u64_mod = 2 ^ 64

abbrev pub u32_mod : ℕ
u32_mod = 2 ^ 32

abbrev pub u64_max : ℕ
u64_max = 2 ^ 64 - 1

abbrev pub add64 : ℕ → ℕ → ℕ
add64 a b = (a + b) % u64_mod

abbrev pub mul64 : ℕ → ℕ → ℕ
mul64 a b = (a * b) % u64_mod

abbrev pub add32 : ℕ → ℕ → ℕ
add32 a b = (a + b) % u32_mod

-- `u64::saturating_add`.
abbrev pub sat_add64 : ℕ → ℕ → ℕ
sat_add64 a b = if ltb (a + b) u64_mod then a + b else u64_max
