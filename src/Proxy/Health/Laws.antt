-- ===== src/Proxy/Health/Laws.antt =====
-- Properties of the health record of intermediate-proxy/src/proxy/entry.rs.
use proxy_systems.Common.{
  ℕ, ◌+◌, ◌-◌, ◌*◌, ◌≤◌, ◌<◌, ◌≡◌, refl, true, [], ◌∷◌, ◌++◌, arith, ltb, max, min,
}
use proxy_systems.Common.Words.{u64_mod, u64_max}
use proxy_systems.Common.Text.{Text}
use proxy_systems.Proxy.Health.{
  RouteState, blend, utf8_len, byte_len, take_bytes, trim_reason, ellipsis, is_banned, ban_for,
  ban_permanent,
}

-- Where an average is known, that is not zero, the blended average lies between it and the new
-- sample, as long as ten times each of the two is a 64-bit number.
pub blend_bounds :
    (prev sample_ms : ℕ)
    → 0 < prev
    → 10 * prev < u64_mod
    → 10 * sample_ms < u64_mod
    → (min prev sample_ms ≤ blend prev sample_ms) × (blend prev sample_ms ≤ max prev sample_ms)
unfolding blend
blend_bounds prev sample_ms p h k = ground arith

byte_len-take_bytes : (n : ℕ) (s : Text) → byte_len (take_bytes n s) ≤ n
unfolding byte_len take_bytes
byte_len-take_bytes n [] = omega arith
byte_len-take_bytes n (c ∷ s) = ground (arith, byte_len-take_bytes (n - utf8_len c) s)

byte_len-append : (s t : Text) → byte_len (s ++ t) ≡ byte_len s + byte_len t
unfolding byte_len
byte_len-append [] t = omega arith
byte_len-append (c ∷ s) t = omega (arith, byte_len-append s t)

-- A stored reason takes at most 203 bytes: 200 and the mark of a cut.
pub trim_reason-byte_len : (s : Text) → byte_len (trim_reason s) ≤ 203
unfolding trim_reason
trim_reason-byte_len s =
    ground (
      arith,
      byte_len-take_bytes 200 s,
      byte_len-append (take_bytes 200 s) (ellipsis ∷ []),
      mark_len,
    )
  where
    mark_len : byte_len (ellipsis ∷ []) ≡ 3
    mark_len = unfold byte_len utf8_len in refl

-- A ban whose end is a 64-bit number holds at the times before its end, and not at its end or
-- later.
ban_for-is_banned :
    (now ms later : ℕ) (st : RouteState)
    → now + ms < u64_mod
    → is_banned (ban_for now ms st) later ≡ ltb later (now + ms)
unfolding is_banned ban_for
ban_for-is_banned now ms later st h = ground arith

-- A permanent ban holds at every time that a 64-bit clock shows but the last.
pub ban_permanent-is_banned :
    (now : ℕ) (st : RouteState) → now < u64_max → is_banned (ban_permanent st) now ≡ true
unfolding is_banned ban_permanent
ban_permanent-is_banned now st h = ground arith
