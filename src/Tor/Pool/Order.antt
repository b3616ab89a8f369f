-- ===== src/Tor/Pool/Order.antt =====
-- tor-proxy/src/pool.rs: the order in which the nodes are offered to a request.
use mathlib.Core.List.{Perm}
use mathlib.Core.List.Perm
use mathlib.Core.Option
use proxy_systems.Common.{ℕ, List, map}
use proxy_systems.Tor.Pool.{TorNodeConfig, NodeState}

-- The nodes as a request sees them: number and address.
abbrev offered : List (ℕ × NodeState) → List (ℕ × TorNodeConfig)
offered = map (λ q. (q.0, q.1.config))
