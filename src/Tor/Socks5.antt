-- ===== src/Tor/Socks5.antt =====
-- tor-proxy/src/socks5.rs: the handshake over a connection, as what is written and what is read. A
-- connection gives the bytes of the server in order; time-outs and broken connections are its end.
pub mod Consumed
use proxy_systems.Common.{
  ℕ, zero, suc, ◌+◌, ◌-◌, ◌/◌, ◌%◌, ◌^◌, Bool, not, ◌||◌, List, [], ◌∷◌, ◌++◌, Option, none, some,
  if◌then◌else◌, leb, ltb, ◌==◌, length, take, drop, get_elem?, get_or_else,
}
use proxy_systems.Common.Words.{u64_mod}
use proxy_systems.Common.Text.{Text, codes, as_bytes}
use proxy_systems.Dispatch.Outcome.{show}
use proxy_systems.Http.{Bytes}

-- How the handshake ends: connected, with what the server sends next; refused with a text; at the end of
-- the input; or in a panic, where more is asked for than a buffer can hold.
pub data Handshake : Type 0 where
  connected : Bytes → Handshake
  connection_refused : Text → Handshake
  unexpected_eof : Handshake
  capacity_overflow : Handshake

unfoldable pub greeting : Bytes
greeting = 5 ∷ 1 ∷ 0 ∷ []

-- The request: one byte of the length, the bytes of the host, two bytes of the port.
unfoldable pub connect_request : Text → ℕ → Bytes
connect_request dest_host dest_port =
    5
    ∷ 1
    ∷ 0
    ∷ 3
    ∷ length (as_bytes dest_host) % 256
    ∷ (as_bytes dest_host ++ (dest_port / 256 % 256 ∷ dest_port % 256 ∷ []))

-- `read_exact` of `n` bytes: those bytes and what follows.
unfoldable pub read_exact : ℕ → Bytes → Option (Bytes × Bytes)
read_exact n input = if leb n (length input) then some (take n input, drop n input) else none

unfoldable pub byte_at : ℕ → Bytes → ℕ
byte_at i bytes = get_or_else (get_elem? bytes i) 0

unfoldable pub after_skip : Option (Bytes × Bytes) → Handshake
after_skip none = unexpected_eof
after_skip (some (skipped, rest)) = connected rest

unfoldable pub skip_exact : ℕ → Bytes → Handshake
skip_exact n input = after_skip (read_exact n input)

-- `domain_len + 2 - 5` on 64-bit words.
unfoldable pub extra_for : ℕ → ℕ
extra_for domain_len = (domain_len + 2 + (u64_mod - 5)) % u64_mod

-- `vec![0u8; extra]` holds at most `isize::MAX` bytes.
unfoldable pub skip_extra : ℕ → Bytes → Handshake
skip_extra extra input =
    if extra == 0
    then connected input
    else if ltb extra (2 ^ 63)
    then skip_exact extra input
    else capacity_overflow

unfoldable pub finish_reply : Bytes → Bytes → Handshake
finish_reply resp input =
    if byte_at 3 resp == 1
    then connected input
    else if byte_at 3 resp == 3
    then skip_extra (extra_for (byte_at 4 resp)) input
    else if byte_at 3 resp == 4
    then skip_exact 12 input
    else connected input

unfoldable pub read_reply : Option (Bytes × Bytes) → Handshake
read_reply none = unexpected_eof
read_reply (some (resp, input)) =
    if not (byte_at 0 resp == 5) || not (byte_at 1 resp == 0)
    then connection_refused (codes "SOCKS5 connect error code=" ++ show (byte_at 1 resp))
    else finish_reply resp input

unfoldable pub read_greeting : Option (Bytes × Bytes) → Handshake
read_greeting none = unexpected_eof
read_greeting (some (greet, input)) =
    if not (byte_at 0 greet == 5) || not (byte_at 1 greet == 0)
    then connection_refused (codes "SOCKS5 handshake rejected")
    else read_reply (read_exact 10 input)

-- What the server sends decides the end; the request is written once the greeting is accepted.
unfoldable pub socks5_connect : Bytes → Handshake
socks5_connect input = read_greeting (read_exact 2 input)
