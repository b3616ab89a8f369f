-- ===== src/Ipv6/Subnet.antt =====
-- simple-ipv6-proxy/src/subnet.rs: an IPv6 subnet, its parser, and a random address in it. An address
-- is its list of octets; the parser of addresses and the random octets are arguments.
pub mod Members
use mathlib.Core.Option
use proxy_systems.Common.{
  ℕ, zero, suc, ◌+◌, ◌-◌, ◌*◌, ◌/◌, ◌%◌, ◌^◌, List, [], ◌∷◌, Option, none, some, ltb, leb, ◌==◌,
  if◌then◌else◌,
}
use proxy_systems.Common.Text.{Text, codes, split_once}
use proxy_systems.Util.{parse_u64}
use proxy_systems.Proxy.Loader.{trim}

pub record Subnet : Type 0 where
  pub prefix : List ℕ
  pub prefix_len : ℕ

-- `b & !((1 << host_bits) - 1)`: an octet without its low bits.
unfoldable pub net_bits : ℕ → ℕ → ℕ
net_bits host_bits b = b / 2 ^ host_bits * 2 ^ host_bits

-- `b & ((1 << host_bits) - 1)`: the low bits of an octet.
unfoldable pub host_part : ℕ → ℕ → ℕ
host_part host_bits b = b % 2 ^ host_bits

-- One round of the loop of `mask_prefix`, for the octet number `i`.
unfoldable pub mask_octet : ℕ → ℕ → ℕ → ℕ
mask_octet plen i b =
    if leb (i * 8 + 8) plen
    then b
    else if leb plen (i * 8)
    then 0
    else net_bits (i * 8 + 8 - plen) b

unfoldable pub mask_from : ℕ → ℕ → List ℕ → List ℕ
mask_from plen i [] = []
mask_from plen i (b ∷ bs) = mask_octet plen i b ∷ mask_from plen (suc i) bs

unfoldable pub mask_prefix : List ℕ → ℕ → List ℕ
mask_prefix ip plen = mask_from plen 0 ip

-- One round of the loop of `random_addr`. The two halves share no bit, so that `|` is their sum.
unfoldable pub random_octet : ℕ → ℕ → ℕ → ℕ → ℕ
random_octet plen i p r =
    if leb plen (i * 8)
    then r
    else if ltb plen (i * 8 + 8)
    then net_bits (i * 8 + 8 - plen) p + host_part (i * 8 + 8 - plen) r
    else p

unfoldable pub random_from : ℕ → ℕ → List ℕ → List ℕ → List ℕ
random_from plen i (p ∷ ps) (r ∷ rs) = random_octet plen i p r ∷ random_from plen (suc i) ps rs
random_from plen i _ _ = []

unfoldable pub random_addr : List ℕ → Subnet → List ℕ
random_addr rnd s =
    if s.prefix_len == 128 then s.prefix else random_from s.prefix_len 0 s.prefix rnd

-- `Subnet::parse`, with the parser of addresses as an argument. A number that fits 8 bits is one that
-- fits 64 bits and is below 256.
unfoldable pub parse_prefix_len : Text → Option ℕ
parse_prefix_len s = Option.bind (parse_u64 s) (λ n. if ltb n 256 then some n else none)

unfoldable pub subnet_of : (Text → Option (List ℕ)) → Text → ℕ → Option Subnet
subnet_of parse_addr addr_str n =
    if ltb 128 n
    then none
    else Option.map (λ ip. record { prefix = mask_prefix ip n; prefix_len = n })
        (parse_addr addr_str)

unfoldable pub parse_subnet : (Text → Option (List ℕ)) → Text → Option Subnet
parse_subnet parse_addr s =
    Option.bind (split_once (codes "/") (trim s))
      (λ halves. Option.bind (parse_prefix_len halves.1) (subnet_of parse_addr halves.0))
