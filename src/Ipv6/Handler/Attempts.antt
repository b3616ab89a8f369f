-- ===== src/Ipv6/Handler/Attempts.antt =====
-- simple-ipv6-proxy/src/handler.rs: which addresses a request may reach, and how often.
use proxy_systems.Common.{
  ℕ, zero, suc, ◌+◌, max, ◌≤◌, ◌≡◌, refl, Bool, true, false, not, List, [], ◌∷◌, Option, none, some,
  length, select, get_elem?, get_or_else, All, All-get_elem?, arith, inl, inr, Bool-cases,
}
use proxy_systems.Common.Text.{Text}
use proxy_systems.Common.Results.{Result, ok, err}
use proxy_systems.Http.{Bytes, HeaderApi}
use proxy_systems.Shared.{Codec}
use proxy_systems.Handler.{Incoming}
use proxy_systems.SimpleProxy.{UpstreamResponse}
use proxy_systems.Ipv6.Filter.{IpAddr, v6, V6, is_blocked_ip}
use proxy_systems.Ipv6.Handler.{
  ParsedUrl, SocketAddrV6, Hop, HandlerState, is_public, Round, answered, again, Served, hop_for,
  then_round, address_for, try_attempts, serve_addresses, serve_resolved, serve_host, serve_named,
  serve_parsed, serve_target, serve_header, proxy_handler,
}

abbrev IsPublic : SocketAddrV6 → Type 0
IsPublic sa = is_public sa ≡ true

select-IsPublic : (xs : List SocketAddrV6) → All IsPublic (select is_public xs)
select-IsPublic [] = tt
select-IsPublic (x ∷ xs) = elim (Bool-cases (is_public x)) [
  | inl e ↦ rw e (e, select-IsPublic xs)
  | inr e ↦ rw e (select-IsPublic xs)
]

or_first :
    (found : Option SocketAddrV6) (first : SocketAddrV6) (addrs : List SocketAddrV6) (i : ℕ)
    → get_elem? addrs i ≡ found
    → All IsPublic addrs
    → IsPublic first
    → IsPublic (get_or_else found first)
or_first none first addrs i e h p = p
or_first (some a) first addrs i e h p = All-get_elem? IsPublic addrs i h e

not-true : {b : Bool} → not b ≡ true → b ≡ false
not-true {b = b} e = ground (arith, e)

module _ (api : HeaderApi) (codec : Codec) (parse : Text → Option ParsedUrl)
    (join : Text → Text → Option Text) (parse_ip : Text → Option IpAddr)
    (resolve_ipv6 : Text → ℕ → Result (List SocketAddrV6)) (draw : ℕ → List ℕ)
    (send : ℕ → Hop api.Headers → Result (UpstreamResponse api.Headers)) (show_ip : V6 → Text)
    (state : HandlerState) where
  open api use {Headers}

  -- Only public addresses are reached, at most so many times.
  abbrev Bounded :
      ℕ → Served api codec parse join parse_ip resolve_ipv6 draw send show_ip state → Type 0
  Bounded n served =
      All (λ (hop : Hop Headers). is_blocked_ip (v6 hop.target.ip) ≡ false) served.0
      × (length served.0 ≤ n)

  then_round-Bounded :
      (n : ℕ) (hop : Hop Headers)
      (round : Round api codec parse join parse_ip resolve_ipv6 draw send show_ip state)
      (later : Text → Served api codec parse join parse_ip resolve_ipv6 draw send show_ip state)
      → is_blocked_ip (v6 hop.target.ip) ≡ false
      → ((e : Text) → Bounded n (later e))
      → Bounded (suc n) (
          then_round api codec parse join parse_ip resolve_ipv6 draw send show_ip state hop round
            later)
  unfolding then_round
  then_round-Bounded n hop (answered answer) later p f = ((p, tt), omega arith)
  then_round-Bounded n hop (again e) later p f = ((p, (f e).0), omega (arith, (f e).1))

  try_attempts-Bounded :
      (hop_at : SocketAddrV6 → ℕ → Hop Headers) (target_url : Text) (first : SocketAddrV6)
      (more : List SocketAddrV6) (left attempt : ℕ) (last_err : Option Text)
      → ((t : SocketAddrV6) (k : ℕ) → (hop_at t k).target ≡ t)
      → All IsPublic (first ∷ more)
      → Bounded left (
          try_attempts api codec parse join parse_ip resolve_ipv6 draw send show_ip state hop_at
            target_url first more left attempt last_err)
  unfolding try_attempts address_for is_public
  try_attempts-Bounded hop_at target_url first more zero attempt last_err same h = (tt, omega arith)
  try_attempts-Bounded hop_at target_url first more (suc left) attempt last_err same h =
      then_round-Bounded left _ _ _ (target_public (or_first _ first (first ∷ more) _ refl h h.0))
        (λ e. try_attempts-Bounded hop_at target_url first more left (attempt + 1) (some e) same h)
    where
      target_public :
          IsPublic (
            address_for api codec parse join parse_ip resolve_ipv6 draw send show_ip state first
              more attempt)
          → is_blocked_ip (
              v6
                (hop_at
                  (address_for api codec parse join parse_ip resolve_ipv6 draw send show_ip state
                    first more attempt)
                  attempt).target.ip)
            ≡ false
      target_public p =
          rw
            (same
              (address_for api codec parse join parse_ip resolve_ipv6 draw send show_ip state first
                more attempt)
              attempt)
            (not-true p)

  serve_addresses-Bounded :
      (target_url : Text) (u : ParsedUrl) (host : Text) (req : Incoming Headers)
      (addrs : List SocketAddrV6) (body : Option Bytes)
      → All IsPublic addrs
      → Bounded (max state.max_attempts 1) (
          serve_addresses api codec parse join parse_ip resolve_ipv6 draw send show_ip state
            target_url u host req addrs body)
  unfolding serve_addresses hop_for
  serve_addresses-Bounded target_url u host req [] body h = (tt, omega arith)
  serve_addresses-Bounded target_url u host req (first ∷ more) none h = (tt, omega arith)
  serve_addresses-Bounded target_url u host req (first ∷ more) (some body) h =
      try_attempts-Bounded _ target_url first more (max state.max_attempts 1) 0 none (λ t k. refl) h

  serve_resolved-Bounded :
      (target_url : Text) (u : ParsedUrl) (host : Text) (req : Incoming Headers)
      (resolved : Result (List SocketAddrV6))
      → Bounded (max state.max_attempts 1) (
          serve_resolved api codec parse join parse_ip resolve_ipv6 draw send show_ip state
            target_url u host req resolved)
  unfolding serve_resolved
  serve_resolved-Bounded target_url u host req (err e) = (tt, omega arith)
  serve_resolved-Bounded target_url u host req (ok resolved) =
      serve_addresses-Bounded target_url u host req _ req.body (select-IsPublic resolved)

  serve_host-Bounded :
      (target_url : Text) (u : ParsedUrl) (host : Text) (req : Incoming Headers)
      (problem : Option (ℕ × Text))
      → Bounded (max state.max_attempts 1) (
          serve_host api codec parse join parse_ip resolve_ipv6 draw send show_ip state target_url u
            host req problem)
  unfolding serve_host
  serve_host-Bounded target_url u host req none = serve_resolved-Bounded target_url u host req _
  serve_host-Bounded target_url u host req (some (status, problem)) = (tt, omega arith)

  serve_named-Bounded :
      (target_url : Text) (u : ParsedUrl) (host : Option Text) (req : Incoming Headers)
      → Bounded (max state.max_attempts 1) (
          serve_named api codec parse join parse_ip resolve_ipv6 draw send show_ip state target_url
            u host req)
  unfolding serve_named
  serve_named-Bounded target_url u none req = (tt, omega arith)
  serve_named-Bounded target_url u (some host) req = serve_host-Bounded target_url u host req _

  serve_parsed-Bounded :
      (target_url : Text) (u : Option ParsedUrl) (req : Incoming Headers)
      → Bounded (max state.max_attempts 1) (
          serve_parsed api codec parse join parse_ip resolve_ipv6 draw send show_ip state target_url
            u req)
  unfolding serve_parsed
  serve_parsed-Bounded target_url none req = (tt, omega arith)
  serve_parsed-Bounded target_url (some u) req = serve_named-Bounded target_url u u.host_str req

  serve_header-Bounded :
      (header : Option Text) (req : Incoming Headers)
      → Bounded (max state.max_attempts 1) (
          serve_header api codec parse join parse_ip resolve_ipv6 draw send show_ip state header
            req)
  unfolding serve_header serve_target
  serve_header-Bounded none req = (tt, omega arith)
  serve_header-Bounded (some v) req = serve_target-Bounded _
    where
      serve_target-Bounded :
          (t : Option Text)
          → Bounded (max state.max_attempts 1) (
              serve_target api codec parse join parse_ip resolve_ipv6 draw send show_ip state t req)
      serve_target-Bounded none = (tt, omega arith)
      serve_target-Bounded (some url) = serve_parsed-Bounded url _ req

  -- Whatever the client asks for and the resolver answers, a request makes no attempt at an address that
  -- the filter refuses, and at most `max_attempts` attempts, or one where that is 0.
  pub proxy_handler-Bounded :
      (req : Incoming Headers)
      → All
          (λ (hop : Hop Headers). is_blocked_ip (v6 hop.target.ip) ≡ false)
          (proxy_handler api codec parse join parse_ip resolve_ipv6 draw send show_ip state req).0
        × (length
              (proxy_handler api codec parse join parse_ip resolve_ipv6 draw send show_ip state
                req).0
            ≤ max state.max_attempts 1)
  unfolding proxy_handler
  proxy_handler-Bounded req = serve_header-Bounded _ req
