-- ===== src/Examples/Nodes.antt =====
-- The theorems on the Tor nodes, at a pool of two nodes.
use proxy_systems.Common.{
  ℕ, zero, suc, ◌≡◌, refl, true, List, [], ◌∷◌, none, some, get_elem?, if◌then◌else◌, ◌==◌, ◌++◌,
  arith,
}
use proxy_systems.Common.Text.{Text, codes}
use proxy_systems.Tor.Socks5.{connected, socks5_connect}
use proxy_systems.Tor.Socks5.Consumed.{domain, reply_bytes, socks5_connect-rest}
use proxy_systems.Tor.Pool.{TorNodeConfig, NodeState, NodePool, Newnym, new_node, on_error}
use proxy_systems.Tor.Pool.Rotation.{after_error, on_error_lem}
use proxy_systems.Tor.Failover.{Exchanged, answered, try_nodes}
use proxy_systems.Tor.Failover.Laws.{Outcome, try_nodes-Outcome}

abbrev node_config : Text → TorNodeConfig
node_config name = record { host = name; socks_port = 9050; control_port = 9051 }

abbrev first_node : NodeState
first_node = new_node 5000000000000 (node_config (codes "tor1"))

abbrev tor_pool : NodePool
tor_pool = record {
  nodes = first_node ∷ new_node 5000000000000 (node_config (codes "tor2")) ∷ [];
  rr_idx = 0;
  password = codes "pw";
  error_threshold = 1;
  newnym_cooldown = 10000;
}

abbrev renewal : Newnym
renewal = record {
  checked_at = 5000000000000;
  newnym_ok = true;
  renewed_at = 5000000000100;
  cooling_from = 5000000000200;
}

on_error_example : get_elem? (on_error renewal 0 tor_pool).nodes 0 ≡ (
    if 0 == 0 then some (after_error renewal tor_pool first_node) else get_elem? tor_pool.nodes 0)
on_error_example = on_error_lem renewal 0 0 tor_pool first_node refl

-- The first exchange is refused with a rate limit, the second is answered.
abbrev second_answers : ℕ → TorNodeConfig → Exchanged Text
second_answers zero config = answered 429 (codes "slow down")
second_answers (suc k) config = answered 200 (codes "ok")

abbrev both_nodes : List (ℕ × TorNodeConfig)
both_nodes = (1, node_config (codes "tor2")) ∷ (0, node_config (codes "tor1")) ∷ []

try_nodes-Outcome_example :
    Outcome second_answers
      (λ k. renewal)
      0
      both_nodes
      tor_pool
      (try_nodes second_answers (λ k. renewal) 0 both_nodes none tor_pool)
try_nodes-Outcome_example =
    try_nodes-Outcome second_answers (λ k. renewal) 0 both_nodes none tor_pool

-- A reply with a bound domain of three letters, and the first byte of what follows.
socks5_connect-rest_example :
    socks5_connect (5 ∷ 0 ∷ (reply_bytes (domain (codes "tor")) 31 144 ++ 7 ∷ []))
    ≡ connected (7 ∷ [])
socks5_connect-rest_example =
    socks5_connect-rest (domain (codes "tor")) 31 144 (7 ∷ []) (omega arith, omega arith)
