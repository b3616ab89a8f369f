-- ===== src/Tor/Pool.antt =====
-- tor-proxy/src/pool.rs: the pool of Tor nodes. A time is a number of nanoseconds from an origin more
-- than an hour before the start; each read of the clock is an argument, and so is the answer of
-- `send_newnym`. A section under one lock is one function. The spawned timers call `rotate_node`.
pub mod Rotation
pub mod Order
use mathlib.Core.Option
use proxy_systems.Common.{
  ℕ, zero, suc, ◌+◌, ◌-◌, ◌*◌, ◌/◌, ◌%◌, ◌≡◌, Bool, true, false, ◌++◌, List, [], ◌∷◌, Option, none,
  some, map, length, get_elem?, set, take, drop, select, is_empty, leb, if◌then◌else◌,
}
use proxy_systems.Common.Words.{add64, add32}
use proxy_systems.Common.Text.{Text}

pub record TorNodeConfig : Type 0 where
  pub host : Text
  pub socks_port : ℕ
  pub control_port : ℕ

pub record NodeStats : Type 0 where
  pub requests : ℕ
  pub success : ℕ
  pub errors : ℕ
  pub rotations : ℕ

pub record NodeState : Type 0 where
  pub config : TorNodeConfig
  pub consecutive_errors : ℕ
  pub last_newnym : ℕ
  pub cooldown_until : ℕ
  pub stats : NodeStats

pub record NodeStatus : Type 0 where
  pub host : Text
  pub available : Bool
  pub consecutive_errors : ℕ
  pub stats : NodeStats

pub record NodePool : Type 0 where
  pub nodes : List NodeState
  pub rr_idx : ℕ
  pub password : Text
  pub error_threshold : ℕ
  pub newnym_cooldown : ℕ

unfoldable pub new_node : ℕ → TorNodeConfig → NodeState
new_node now config = record {
  config = config;
  consecutive_errors = 0;
  last_newnym = now - 3600000000000;
  cooldown_until = now - 1000000000;
  stats = record { requests = 0; success = 0; errors = 0; rotations = 0 };
}

-- The first delays of the timers of the nodes from number `i` on.
unfoldable pub initial_delays : ℕ → ℕ → ℕ → ℕ → List ℕ
initial_delays zero i stagger rotation_interval = []
initial_delays (suc n) i stagger rotation_interval =
    (stagger * i + rotation_interval) ∷ initial_delays n (suc i) stagger rotation_interval

-- `NodePool::new`, with the first delay of each node's timer. Without a node the division of the
-- interval panics: no result.
unfoldable pub new_pool : ℕ → List TorNodeConfig → Text → ℕ → ℕ → ℕ → Option (NodePool × List ℕ)
unfolding new_node initial_delays
new_pool now [] password error_threshold newnym_cooldown rotation_interval = none
new_pool now (c ∷ cs) password error_threshold newnym_cooldown rotation_interval = some (
  record {
    nodes = map (new_node now) (c ∷ cs);
    rr_idx = 0;
    password = password;
    error_threshold = error_threshold;
    newnym_cooldown = newnym_cooldown;
  },
  initial_delays (length (c ∷ cs)) 0 (rotation_interval / length (c ∷ cs)) rotation_interval,
)

-- `iter().enumerate()`, from number `i` on.
unfoldable pub enumerate : ℕ → List NodeState → List (ℕ × NodeState)
enumerate i [] = []
enumerate i (n ∷ ns) = (i, n) ∷ enumerate (suc i) ns

unfoldable pub is_available : ℕ → NodeState → Bool
is_available now n = leb n.cooldown_until now

-- The nodes that are not cooling down, or else all.
unfoldable pub usable : ℕ → List NodeState → List (ℕ × NodeState)
unfolding enumerate is_available
usable now nodes =
    let pool = select (λ (p : ℕ × NodeState). is_available now p.1) (enumerate 0 nodes) in
    if is_empty pool then enumerate 0 nodes else pool

-- `iter().cycle().skip(k).take(len)` for `k` below the length: two rounds of the cycle are enough.
unfoldable pub cycle_from {ℓ} : {A : Type ℓ} → ℕ → List A → List A
cycle_from k xs = take (length xs) (drop k (xs ++ xs))

unfoldable pub with_rr : ℕ → NodePool → NodePool
with_rr k p = record p { rr_idx = k }

-- The nodes on offer from the next one on, and the cursor. Without a node the remainder panics: no
-- result.
unfoldable pub offer :
    List (ℕ × NodeState) → NodePool → Option (List (ℕ × TorNodeConfig) × NodePool)
offer [] p = none
offer (q ∷ qs) p =
    let rr = suc p.rr_idx % length (q ∷ qs) in
    some (map (λ (n : ℕ × NodeState). (n.0, n.1.config)) (cycle_from rr (q ∷ qs)), with_rr rr p)

unfoldable pub get_ordered_nodes : ℕ → NodePool → Option (List (ℕ × TorNodeConfig) × NodePool)
get_ordered_nodes now p = offer (usable now p.nodes) p

-- `if let Some(node) = nodes.get_mut(idx)`.
unfoldable pub with_node : ℕ → (NodeState → NodeState) → NodePool → NodePool
with_node i f p = elim (get_elem? p.nodes i) [
  | none ↦ p
  | some n ↦ record p { nodes = set p.nodes i (f n) }
]

unfoldable pub count_success : NodeState → NodeState
count_success n = record n {
  consecutive_errors = 0;
  stats = record (n.stats) {
    success = add64 n.stats.success 1;
    requests = add64 n.stats.requests 1;
  };
}

unfoldable pub on_success : ℕ → NodePool → NodePool
unfolding with_node
on_success i p = with_node i count_success p

unfoldable pub count_error : NodeState → NodeState
count_error n = record n {
  consecutive_errors = add32 n.consecutive_errors 1;
  stats = record (n.stats) { errors = add64 n.stats.errors 1; requests = add64 n.stats.requests 1 };
}

-- The section of `on_error` under the lock, with `should_rotate`.
unfoldable pub record_error : ℕ → NodePool → Bool × NodePool
unfolding with_node
record_error i p = elim (get_elem? p.nodes i) [
  | none ↦ (false, p)
  | some n ↦ (leb p.error_threshold (count_error n).consecutive_errors, with_node i count_error p)
]

-- The first section of `rotate_node`: is the node there, and its last NEWNYM long enough ago?
unfoldable pub can_rotate : ℕ → ℕ → NodePool → Bool
can_rotate now i p = elim (get_elem? p.nodes i) [
  | none ↦ false
  | some n ↦ leb p.newnym_cooldown (now - n.last_newnym)
]

unfoldable pub renew : ℕ → ℕ → ℕ → NodeState → NodeState
renew renewed_at cooling_from cooldown n = record n {
  last_newnym = renewed_at;
  cooldown_until = cooling_from + cooldown;
  consecutive_errors = 0;
  stats = record (n.stats) { rotations = add64 n.stats.rotations 1 };
}

-- What one run of `rotate_node` reads: the clock, three times, and the answer of `send_newnym`.
pub record Newnym : Type 0 where
  pub checked_at : ℕ
  pub newnym_ok : Bool
  pub renewed_at : ℕ
  pub cooling_from : ℕ

unfoldable pub rotate_node : Newnym → ℕ → NodePool → NodePool
unfolding with_node
rotate_node r i p =
    if can_rotate r.checked_at i p
    then if r.newnym_ok
      then with_node i (renew r.renewed_at r.cooling_from p.newnym_cooldown) p
      else p
    else p

unfoldable pub on_error : Newnym → ℕ → NodePool → NodePool
on_error r i p =
    let (should_rotate, counted) = record_error i p in
    if should_rotate then rotate_node r i counted else counted

unfoldable pub node_status : ℕ → NodeState → NodeStatus
unfolding is_available
node_status now n = record {
  host = n.config.host;
  available = is_available now n;
  consecutive_errors = n.consecutive_errors;
  stats = n.stats;
}

unfoldable pub status : ℕ → NodePool → List NodeStatus
status now p = map (node_status now) p.nodes
