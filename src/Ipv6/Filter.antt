-- ===== src/Ipv6/Filter.antt =====
-- simple-ipv6-proxy/src/filter.rs: the targets that are refused. An IPv4 address is its four octets, an
-- IPv6 address its eight segments; the tests of the standard library are written out.
pub mod Mapped
use proxy_systems.Common.{
  ℕ, ◌*◌, ◌/◌, ◌%◌, Bool, true, false, ◌&&◌, ◌||◌, Option, none, some, ltb, leb, ◌==◌,
  if◌then◌else◌,
}

pub record V4 : Type 0 where
  pub a : ℕ
  pub b : ℕ
  pub c : ℕ
  pub d : ℕ

pub record V6 : Type 0 where
  pub s0 : ℕ
  pub s1 : ℕ
  pub s2 : ℕ
  pub s3 : ℕ
  pub s4 : ℕ
  pub s5 : ℕ
  pub s6 : ℕ
  pub s7 : ℕ

pub data IpAddr : Type 0 where
  v4 : V4 → IpAddr
  v6 : V6 → IpAddr

-- `is_unspecified`, `is_loopback`, `is_private`, `is_link_local`, `is_broadcast`, `is_multicast` and
-- `is_documentation`, in this order.
unfoldable pub std_blocked_v4 : V4 → Bool
std_blocked_v4 ip =
    ip.a == 0 && ip.b == 0 && ip.c == 0 && ip.d == 0
    || ip.a == 127
    || (ip.a == 10 || ip.a == 172 && leb 16 ip.b && leb ip.b 31 || ip.a == 192 && ip.b == 168)
    || ip.a == 169 && ip.b == 254
    || ip.a == 255 && ip.b == 255 && ip.c == 255 && ip.d == 255
    || leb 224 ip.a && leb ip.a 239
    || (ip.a == 192 && ip.b == 0 && ip.c == 2
        || ip.a == 198 && ip.b == 51 && ip.c == 100
        || ip.a == 203 && ip.b == 0 && ip.c == 113)

unfoldable pub is_blocked_v4 : V4 → Bool
is_blocked_v4 ip =
    if std_blocked_v4 ip
    then true
    else if ip.a == 0
    then true
    else if ip.a == 100 && leb 64 ip.b && ltb ip.b 128
    then true
    else if ip.a == 192 && ip.b == 0 && ip.c == 0
    then true
    else if ip.a == 192 && ip.b == 88 && ip.c == 99
    then true
    else if ip.a == 198 && (ip.b == 18 || ip.b == 19)
    then true
    else if leb 240 ip.a
    then true
    else false

-- `is_unspecified`, `is_loopback` and `is_multicast`, then the four prefixes. A mask that clears the
-- low `k` bits of a segment is written as `/ 2 ^ k * 2 ^ k`.
unfoldable pub is_blocked_v6 : V6 → Bool
is_blocked_v6 ip =
    let zeros =
      ip.s0 == 0
      && ip.s1 == 0
      && ip.s2 == 0
      && ip.s3 == 0
      && ip.s4 == 0
      && ip.s5 == 0
      && ip.s6 == 0 in
    if zeros && ip.s7 == 0 || zeros && ip.s7 == 1 || ip.s0 / 256 * 256 == 0xff00
    then true
    else if ip.s0 / 64 * 64 == 0xfe80
    then true
    else if ip.s0 / 512 * 512 == 0xfc00
    then true
    else if ip.s0 == 0x2001 && ip.s1 == 0x0db8
    then true
    else if ip.s0 == 0x0064 && ip.s1 == 0xff9b && ip.s2 == 0x0001
    then true
    else false

unfoldable pub to_ipv4_mapped : V6 → Option V4
to_ipv4_mapped ip =
    if ip.s0 == 0 && ip.s1 == 0 && ip.s2 == 0 && ip.s3 == 0 && ip.s4 == 0 && ip.s5 == 0xffff
    then some (record { a = ip.s6 / 256; b = ip.s6 % 256; c = ip.s7 / 256; d = ip.s7 % 256 })
    else none

-- `if let Some(mapped) = v6.to_ipv4_mapped()`.
unfoldable pub blocked_form : Option V4 → V6 → Bool
blocked_form (some mapped) ip = is_blocked_v4 mapped
blocked_form none ip = is_blocked_v6 ip

unfoldable pub is_blocked_ip : IpAddr → Bool
is_blocked_ip (v4 ip) = is_blocked_v4 ip
is_blocked_ip (v6 ip) = blocked_form (to_ipv4_mapped ip) ip
