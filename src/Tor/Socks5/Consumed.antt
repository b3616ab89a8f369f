-- ===== src/Tor/Socks5/Consumed.antt =====
-- tor-proxy/src/socks5.rs: the handshake reads the reply of the server and no byte more.
use proxy_systems.Common.{
  ℕ, zero, suc, ◌+◌, ◌-◌, ◌≤◌, ◌<◌, ◌≡◌, refl, ap, ◌∙◌, true, [], ◌∷◌, ◌++◌, some, leb, length,
  take, drop, arith, drop-drop, drop_front, length-append,
}
use proxy_systems.Http.{Bytes}
use proxy_systems.Tor.Socks5.{
  connected, read_exact, byte_at, after_skip, skip_exact, extra_for, skip_extra, finish_reply,
  read_reply, read_greeting, socks5_connect,
}

-- The bound address of a reply, with its port: RFC 1928.
pub data Bound : Type 0 where
  ipv4 : ℕ → ℕ → ℕ → ℕ → Bound
  domain : Bytes → Bound
  ipv6 : Bytes → Bound

-- The reply of a server that has connected, with the two bytes of the port.
unfoldable pub reply_bytes : Bound → ℕ → ℕ → Bytes
reply_bytes (ipv4 a b c d) p q = 5 ∷ 0 ∷ 0 ∷ 1 ∷ a ∷ b ∷ c ∷ d ∷ p ∷ q ∷ []
reply_bytes (domain name) p q = 5 ∷ 0 ∷ 0 ∷ 3 ∷ length name ∷ (name ++ p ∷ q ∷ [])
reply_bytes (ipv6 address) p q = 5 ∷ 0 ∷ 0 ∷ 4 ∷ (address ++ p ∷ q ∷ [])

-- The sizes of addresses, and a domain that is no shorter than the code expects.
abbrev pub IsSized : Bound → Type 0
IsSized (ipv4 a b c d) = Unit
IsSized (domain name) = (3 ≤ length name) × (length name < 256)
IsSized (ipv6 address) = length address ≡ 16

skip_exact-connected :
    (n : ℕ) (input : Bytes) → n ≤ length input → skip_exact n input ≡ connected (drop n input)
unfolding skip_exact read_exact after_skip
skip_exact-connected n input l =
    let e : leb n (length input) ≡ true = ground (arith, l) in rw e refl

skip_extra-connected :
    (n : ℕ) (input : Bytes)
    → n < 256
    → n ≤ length input
    → skip_extra n input ≡ connected (drop n input)
unfolding skip_extra
skip_extra-connected n input m l = ground (arith, m, skip_exact-connected n input l)

extra_for-long : (n : ℕ) → 3 ≤ n → n < 256 → extra_for n ≡ n - 3
unfolding extra_for
extra_for-long n l m = omega (arith, l, m)

-- After the ten bytes of the first read, the rest of the address.
drop_tail : (k m : ℕ) (x rest : Bytes) → k + m ≡ length x → drop m (drop k (x ++ rest)) ≡ rest
drop_tail k m x rest e =
    drop-drop k m (x ++ rest) ∙ ap (λ n. drop n (x ++ rest)) e ∙ drop_front x rest

length-drop : (k : ℕ) (xs : Bytes) → length (drop k xs) ≡ length xs - k
length-drop zero xs = omega arith
length-drop (suc k) [] = omega arith
length-drop (suc k) (x ∷ xs) = omega (arith, length-drop k xs)

length-left : (k m : ℕ) (x rest : Bytes) → k + m ≡ length x → m ≤ length (drop k (x ++ rest))
length-left k m x rest e = omega (arith, length-drop k (x ++ rest), length-append x rest, e)

read_exact-enough :
    (n : ℕ) (input : Bytes)
    → n ≤ length input
    → read_exact n input ≡ some (take n input, drop n input)
unfolding read_exact
read_exact-enough n input l = let e : leb n (length input) ≡ true = ground (arith, l) in rw e refl

-- An accepted greeting, and ten bytes of the reply.
connect-reply :
    (input : Bytes)
    → 10 ≤ length input
    → socks5_connect (5 ∷ 0 ∷ input) ≡ read_reply (some (take 10 input, drop 10 input))
unfolding socks5_connect read_greeting byte_at
connect-reply input l =
    ap read_greeting (read_exact-enough 2 (5 ∷ 0 ∷ input) (omega arith))
    ∙ ap read_reply (read_exact-enough 10 input l)

-- Where the server accepts the greeting and sends a reply of success with a bound address, which is an
-- IPv4 address, a domain of 3 to 255 bytes or the 16 bytes of an IPv6 address, the handshake connects,
-- and what follows the reply is left on the connection as it is.
pub socks5_connect-rest :
    (bound : Bound) (p q : ℕ) (rest : Bytes)
    → IsSized bound
    → socks5_connect (5 ∷ 0 ∷ (reply_bytes bound p q ++ rest)) ≡ connected rest
unfolding read_reply finish_reply reply_bytes byte_at
socks5_connect-rest (ipv4 a b c d) p q rest s =
    connect-reply (reply_bytes (ipv4 a b c d) p q ++ rest) (omega arith)
socks5_connect-rest (domain name) p q rest (l, m) =
    let bound = name ++ p ∷ q ∷ [] in
    let size : length bound ≡ length name + 2 = length-append name (p ∷ q ∷ []) in
    let left : 5 + (length name - 3) ≡ length bound = omega (arith, size, l) in
    connect-reply (reply_bytes (domain name) p q ++ rest)
      (omega (arith, size, l, length-append bound rest))
    ∙ ap (λ n. skip_extra n (drop 5 (bound ++ rest))) (extra_for-long (length name) l m)
    ∙ skip_extra-connected (length name - 3) (drop 5 (bound ++ rest)) (omega (arith, m))
        (length-left 5 (length name - 3) bound rest left)
    ∙ ap connected (drop_tail 5 (length name - 3) bound rest left)
socks5_connect-rest (ipv6 address) p q rest s =
    let bound = address ++ p ∷ q ∷ [] in
    let size : length bound ≡ length address + 2 = length-append address (p ∷ q ∷ []) in
    let left : 6 + 12 ≡ length bound = omega (arith, size, s) in
    connect-reply (reply_bytes (ipv6 address) p q ++ rest)
      (omega (arith, size, s, length-append bound rest))
    ∙ skip_exact-connected 12 (drop 6 (bound ++ rest)) (length-left 6 12 bound rest left)
    ∙ ap connected (drop_tail 6 12 bound rest left)
