-- ===== src/Ipv6/Subnet/Members.antt =====
-- simple-ipv6-proxy/src/subnet.rs: the addresses that are drawn lie in the subnet.
use proxy_systems.Common.{
  ℕ, zero, suc, ◌+◌, ◌-◌, ◌*◌, ◌≤◌, ◌≡◌, refl, ap, inl, inr, List, [], ◌∷◌, arith, length, leb,
  ◌==◌, Bool-cases, ==_iff,
}
use proxy_systems.Ipv6.Subnet.{
  net_bits, host_part, mask_octet, mask_from, mask_prefix, random_octet, random_from, random_addr,
}

-- The octet of a drawn address, masked again.
net_bits-sum :
    (h b r : ℕ) → h ≤ 7 → net_bits h (net_bits h (net_bits h b) + host_part h r) ≡ net_bits h b
unfolding net_bits host_part
net_bits-sum zero b r l = omega arith
net_bits-sum (suc zero) b r l = omega arith
net_bits-sum (suc (suc zero)) b r l = omega arith
net_bits-sum (suc (suc (suc zero))) b r l = omega arith
net_bits-sum (suc (suc (suc (suc zero)))) b r l = omega arith
net_bits-sum (suc (suc (suc (suc (suc zero))))) b r l = omega arith
net_bits-sum (suc (suc (suc (suc (suc (suc zero)))))) b r l = omega arith
net_bits-sum (suc (suc (suc (suc (suc (suc (suc zero))))))) b r l = omega arith
net_bits-sum (suc (suc (suc (suc (suc (suc (suc (suc h)))))))) b r l = absurd (omega arith)

mask_octet-random_octet :
    (plen i b r : ℕ)
    → mask_octet plen i (random_octet plen i (mask_octet plen i b) r) ≡ mask_octet plen i b
unfolding mask_octet random_octet
mask_octet-random_octet plen i b r = elim (Bool-cases (leb (i * 8 + 8) plen)) [
  | inl whole ↦ ground (arith, whole)
  | inr cut ↦ elim (Bool-cases (leb plen (i * 8))) [
    | inl free ↦ ground (arith, cut, free)
    | inr shared ↦
        ground
          (arith, cut, shared, net_bits-sum (i * 8 + 8 - plen) b r (ground (arith, cut, shared)))
  ]
]

mask_from-random_from :
    (plen i : ℕ) (ip rnd : List ℕ)
    → length rnd ≡ length ip
    → mask_from plen i (random_from plen i (mask_from plen i ip) rnd) ≡ mask_from plen i ip
unfolding mask_from random_from
mask_from-random_from plen i [] rnd h = refl
mask_from-random_from plen i (b ∷ bs) [] h = absurd (omega arith)
mask_from-random_from plen i (b ∷ bs) (r ∷ rs) h =
    rw (mask_octet-random_octet plen i b r)
      (ap (◌∷◌ (mask_octet plen i b)) (mask_from-random_from plen (suc i) bs rs (omega arith)))

-- A prefix of 128 bits masks nothing of the sixteen octets of an address.
mask_from_whole : (i : ℕ) (bs : List ℕ) → i + length bs ≤ 16 → mask_from 128 i bs ≡ bs
unfolding mask_from mask_octet
mask_from_whole i [] h = refl
mask_from_whole i (b ∷ bs) h = ground (arith, mask_from_whole (suc i) bs)

-- A random address of a subnet lies in it: for any address, prefix length and random octets, masking
-- the drawn address gives the prefix of the subnet again.
pub mask_prefix-random_addr :
    (ip rnd : List ℕ) (plen : ℕ)
    → length ip ≡ 16
    → length rnd ≡ 16
    → mask_prefix
        (random_addr rnd (record { prefix = mask_prefix ip plen; prefix_len = plen }))
        plen
      ≡ mask_prefix ip plen
unfolding mask_prefix random_addr
mask_prefix-random_addr ip rnd plen h g = elim (Bool-cases (plen == 128)) [
  | inl e ↦
      let p : plen ≡ 128 = (==_iff plen 128).0 e in
      rw e (rw p (ap (mask_from 128 0) (mask_from_whole 0 ip (omega (arith, h)))))
  | inr e ↦ rw e (mask_from-random_from plen 0 ip rnd (omega (arith, h, g)))
]
