-- ===== src/Dns.antt =====
-- intermediate-proxy/src/dns.rs: which hosts are known not to resolve. The resolver and the clock are
-- arguments; times are in milliseconds.
pub mod Cached
use proxy_systems.Common.{
  ℕ, ◌+◌, ◌*◌, Bool, true, false, not, ◌||◌, List, [], ◌∷◌, Option, none, some, if◌then◌else◌, ltb,
  leb, length, is_empty,
}
use proxy_systems.Common.Text.{Text, text_eq}

abbrev pub found_ttl : ℕ
found_ttl = 300 * 1000

abbrev pub missing_ttl : ℕ
missing_ttl = 60 * 1000

abbrev pub max_hosts : ℕ
max_hosts = 10000

-- What the resolver says: an address, that there is none, or that it failed.
pub data Lookup : Type 0 where
  resolves no_such_host lookup_failed : Lookup

-- `DashMap<String, (bool, Instant)>`: whether a host was found, and until when that holds.
abbrev pub Known : Type 0
Known = List (Text × Bool × ℕ)

unfoldable pub get_known : Text → Known → Option (Bool × ℕ)
get_known host [] = none
get_known host ((h, found, until) ∷ more) =
    let rest = get_known host more in if text_eq h host then some (found, until) else rest

unfoldable pub put_known : Text → Bool → ℕ → Known → Known
put_known host found until [] = (host, found, until) ∷ []
put_known host found until ((h, f, u) ∷ more) =
    let rest = put_known host found until more in
    if text_eq h host then (host, found, until) ∷ more else (h, f, u) ∷ rest

unfoldable pub keep : Text → Bool → ℕ → Known → Known
keep host found now known =
    put_known host found (now + (if found then found_ttl else missing_ttl))
      (if leb max_hosts (length known) then [] else known)

unfoldable pub look_up : Lookup → Text → ℕ → Known → Bool × Known
look_up resolves host now known = (false, keep host true now known)
look_up no_such_host host now known = (true, keep host false now known)
look_up lookup_failed host now known = (false, known)

unfoldable pub check_known : Option (Bool × ℕ) → Lookup → Text → ℕ → Known → Bool × Known
check_known none lookup host now known = look_up lookup host now known
check_known (some (found, until)) lookup host now known =
    if ltb now until then (not found, known) else look_up lookup host now known

-- `is_ip` says whether the host, without brackets, is an address.
unfoldable pub missing : (Text → Bool) → Lookup → Text → ℕ → Known → Bool × Known
missing is_ip lookup host now known =
    if is_empty host || is_ip host
    then (false, known)
    else check_known (get_known host known) lookup host now known
