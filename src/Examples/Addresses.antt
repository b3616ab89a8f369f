-- ===== src/Examples/Addresses.antt =====
-- The theorems on addresses, at a /68 prefix, which cuts an octet in two, and at the loopback address.
use proxy_systems.Common.{ℕ, ◌≡◌, List, [], ◌∷◌, arith}
use proxy_systems.Ipv6.Filter.{V4, v4, v6, is_blocked_ip}
use proxy_systems.Ipv6.Filter.Mapped.{IsV4, mapped, is_blocked_ip-mapped}
use proxy_systems.Ipv6.Subnet.{mask_prefix, random_addr}
use proxy_systems.Ipv6.Subnet.Members.{mask_prefix-random_addr}

abbrev address : List ℕ
address = 32 ∷ 1 ∷ 13 ∷ 184 ∷ 171 ∷ 205 ∷ 18 ∷ 52 ∷ 255 ∷ 1 ∷ 2 ∷ 3 ∷ 4 ∷ 5 ∷ 6 ∷ 7 ∷ []

abbrev drawn : List ℕ
drawn = 9 ∷ 8 ∷ 7 ∷ 6 ∷ 5 ∷ 4 ∷ 3 ∷ 2 ∷ 1 ∷ 0 ∷ 11 ∷ 12 ∷ 13 ∷ 14 ∷ 15 ∷ 16 ∷ []

mask_prefix-random_addr_example :
    mask_prefix (random_addr drawn (record { prefix = mask_prefix address 68; prefix_len = 68 })) 68
    ≡ mask_prefix address 68
mask_prefix-random_addr_example =
    mask_prefix-random_addr address drawn 68 (omega arith) (omega arith)

abbrev loopback : V4
loopback = record { a = 127; b = 0; c = 0; d = 1 }

loopback-IsV4 : IsV4 loopback
loopback-IsV4 = (omega arith, omega arith, omega arith, omega arith)

is_blocked_ip-mapped_example : is_blocked_ip (v6 (mapped loopback)) ≡ is_blocked_ip (v4 loopback)
is_blocked_ip-mapped_example = is_blocked_ip-mapped loopback loopback-IsV4
