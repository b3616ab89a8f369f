-- ===== src/Examples/Hops.antt =====
-- The theorem on the addresses of the IPv6 proxy, at a host with one refused and one public address.
use proxy_systems.Common.{ℕ, max, ◌≤◌, ◌≡◌, false, List, [], ◌∷◌, Option, none, some, length, All}
use proxy_systems.Common.Text.{Text, codes}
use proxy_systems.Common.Results.{Result, ok, err}
use proxy_systems.Handler.{Incoming}
use proxy_systems.Shared.{Codec}
use proxy_systems.SimpleProxy.{UpstreamResponse}
use proxy_systems.Ipv6.Filter.{IpAddr, v6, V6, is_blocked_ip}
use proxy_systems.Ipv6.Handler.{ParsedUrl, SocketAddrV6, Hop, HandlerState, proxy_handler}
use proxy_systems.Ipv6.Handler.Attempts.{proxy_handler-Bounded}
use proxy_systems.Examples.Fixtures.{Pairs, pair_headers}

abbrev kept : Codec
kept = record { bytes_of = λ t. t; from_utf8 = some; encode = λ b. b; decode = some }

abbrev loopback : V6
loopback = record { s0 = 0; s1 = 0; s2 = 0; s3 = 0; s4 = 0; s5 = 0; s6 = 0; s7 = 1 }

abbrev public_ip : V6
public_ip = record { s0 = 9733; s1 = 18176; s2 = 0; s3 = 0; s4 = 0; s5 = 0; s6 = 0; s7 = 17 }

abbrev a_url : Text → Option ParsedUrl
a_url t = some (record {
  scheme = codes "https";
  host_str = some (codes "x");
  port = none;
  path = codes "/y";
  query = none;
})

abbrev no_join : Text → Text → Option Text
no_join base t = none

abbrev no_literal : Text → Option IpAddr
no_literal t = none

abbrev two_addresses : Text → ℕ → Result (List SocketAddrV6)
two_addresses host port =
    ok (record { ip = loopback; port = port } ∷ record { ip = public_ip; port = port } ∷ [])

abbrev unreachable : ℕ → Hop Pairs → Result (UpstreamResponse Pairs)
unreachable k hop = err (codes "unreachable")

abbrev no_draw : ℕ → List ℕ
no_draw k = []

abbrev unnamed : V6 → Text
unnamed ip = []

abbrev three_tries : HandlerState
three_tries = record { subnet = none; max_attempts = 3; retry_codes = 429 ∷ [] }

abbrev a_get : Incoming Pairs
a_get = record {
  method = codes "GET";
  headers = (codes "x-target", codes "https://x/y") ∷ [];
  body = some [];
}

proxy_handler-Bounded_example :
    All
      (λ (hop : Hop Pairs). is_blocked_ip (v6 hop.target.ip) ≡ false)
      (proxy_handler pair_headers kept a_url no_join no_literal two_addresses no_draw unreachable
        unnamed three_tries a_get).0
    × (length
          (proxy_handler pair_headers kept a_url no_join no_literal two_addresses no_draw
            unreachable unnamed three_tries a_get).0
        ≤ max 3 1)
proxy_handler-Bounded_example =
    proxy_handler-Bounded pair_headers kept a_url no_join no_literal two_addresses no_draw
      unreachable unnamed three_tries a_get
