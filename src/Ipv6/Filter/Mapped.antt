-- ===== src/Ipv6/Filter/Mapped.antt =====
-- simple-ipv6-proxy/src/filter.rs: IPv4 targets written as IPv6 addresses.
use proxy_systems.Common.{ℕ, ◌+◌, ◌*◌, ◌/◌, ◌%◌, ◌<◌, ◌≡◌, refl, ap, some, arith}
use proxy_systems.Ipv6.Filter.{V4, V6, v4, v6, to_ipv4_mapped, blocked_form, is_blocked_ip}

abbrev pub IsV4 : V4 → Type 0
IsV4 ip = (ip.a < 256) × (ip.b < 256) × (ip.c < 256) × (ip.d < 256)

-- `::ffff:a.b.c.d`.
abbrev pub mapped : V4 → V6
mapped ip = record {
  s0 = 0;
  s1 = 0;
  s2 = 0;
  s3 = 0;
  s4 = 0;
  s5 = 0xffff;
  s6 = ip.a * 256 + ip.b;
  s7 = ip.c * 256 + ip.d;
}

high_byte : (a b : ℕ) → b < 256 → (a * 256 + b) / 256 ≡ a
high_byte a b h = omega arith

low_byte : (a b : ℕ) → b < 256 → (a * 256 + b) % 256 ≡ b
low_byte a b h = omega arith

mapped-back : (ip : V4) → IsV4 ip → to_ipv4_mapped (mapped ip) ≡ some ip
unfolding to_ipv4_mapped
mapped-back ip h =
    rw
      (
        high_byte ip.a ip.b h.1,
        low_byte ip.a ip.b h.1,
        high_byte ip.c ip.d h.3,
        low_byte ip.c ip.d h.3,
      )
      refl

-- Writing an IPv4 target as an IPv4-mapped IPv6 address does not get it past the filter: both forms
-- are refused, or neither is.
pub is_blocked_ip-mapped :
    (ip : V4) → IsV4 ip → is_blocked_ip (v6 (mapped ip)) ≡ is_blocked_ip (v4 ip)
unfolding is_blocked_ip blocked_form
is_blocked_ip-mapped ip h = ap (λ form. blocked_form form (mapped ip)) (mapped-back ip h)
