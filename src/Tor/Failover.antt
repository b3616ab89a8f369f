-- ===== src/Tor/Failover.antt =====
-- tor-proxy/src/handler.rs, `proxy_handler` from the choice of the nodes on: failover over the nodes.
-- `http_over_socks5` is a parameter: what it answers on the n-th exchange with a node.
pub mod Laws
use proxy_systems.Common.{
  ℕ, suc, ◌+◌, Bool, List, [], ◌∷◌, ◌++◌, Option, none, some, ◌||◌, ◌==◌, if◌then◌else◌,
}
use proxy_systems.Common.Text.{Text, codes}
use proxy_systems.Dispatch.Outcome.{show}
use proxy_systems.Tor.Pool.{
  TorNodeConfig, NodePool, Newnym, get_ordered_nodes, on_success, on_error,
}

-- What an exchange through a node gives: a whole response, or the text of an error.
pub data Exchanged (Reply : Type 0) : Type 0 where
  answered : ℕ → Reply → Exchanged Reply
  failed : Text → Exchanged Reply

-- `RATE_LIMIT_CODES.contains(&status_code)`.
unfoldable pub is_rate_limited : ℕ → Bool
is_rate_limited status = status == 429 || status == 500 || status == 503

-- What the client gets: the response of a node, or status 503 with a text.
pub data Answer (Reply : Type 0) : Type 0 where
  proxied : ℕ → Reply → Answer Reply
  unavailable : Text → Answer Reply

unfoldable pub status_text : ℕ → TorNodeConfig → Text
status_text status config = show status ++ (codes " from " ++ config.host)

-- `last_error.unwrap_or_else(...)`, in the answer's text.
unfoldable pub failure_text : Option Text → Text
failure_text none = codes "Tor proxy error: all nodes failed"
failure_text (some e) = codes "Tor proxy error: " ++ e

-- What the loop does with an exchange: an answer, or the text of the error and the next node.
pub data Step (Reply : Type 0) : Type 0 where
  finish : ℕ → Reply → Step Reply
  retry : Text → Step Reply

unfoldable pub judge : {Reply : Type 0} → TorNodeConfig → Exchanged Reply → Step Reply
judge config (answered status reply) =
    if is_rate_limited status then retry (status_text status config) else finish status reply
judge config (failed e) = retry e

module _ {Reply : Type 0} (http_over_socks5 : ℕ → TorNodeConfig → Exchanged Reply)
    (newnym : ℕ → Newnym) where
  -- The loop over the nodes; `tick` counts the exchanges.
  unfoldable pub try_nodes :
      ℕ → List (ℕ × TorNodeConfig) → Option Text → NodePool → Answer Reply × NodePool
  try_nodes tick [] last_error p = (unavailable (failure_text last_error), p)
  try_nodes tick (node ∷ nodes) last_error p = elim (judge node.1 (http_over_socks5 tick node.1)) [
    | finish status reply ↦ (proxied status reply, on_success node.0 p)
    | retry e ↦ try_nodes (suc tick) nodes (some e) (on_error (newnym tick) node.0 p)
  ]

  -- A request on the pool; without a node the choice of the nodes panics.
  unfoldable pub serve : ℕ → NodePool → Option (Answer Reply × NodePool)
  serve now p = elim (get_ordered_nodes now p) [
    | none ↦ none
    | some chosen ↦ some (try_nodes 0 chosen.0 none chosen.1)
  ]
