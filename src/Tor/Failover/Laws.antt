-- ===== src/Tor/Failover/Laws.antt =====
-- tor-proxy/src/handler.rs: what the client gets from the failover over the nodes.

use proxy_systems.Common.{
  ℕ, suc, ◌≡◌, refl, sym, true, false, List, [], ◌∷◌, Option, some, inl, inr, Bool-cases,
}
use proxy_systems.Common.Text.{Text}
use proxy_systems.Tor.Pool.{TorNodeConfig, NodePool, Newnym, on_success, on_error}
use proxy_systems.Tor.Failover.{
  Exchanged, answered, failed, is_rate_limited, Answer, proxied, unavailable, Step, finish, retry,
  judge, try_nodes, status_text, failure_text,
}

module _ {Reply : Type 0} (http_over_socks5 : ℕ → TorNodeConfig → Exchanged Reply)
    (newnym : ℕ → Newnym) where
  -- What a run of the loop may end with: a response that is no rate limit, from a node of the list
  -- behind nodes that failed, with the pool as their errors and its success leave it; or the
  -- failure of all nodes, with their errors recorded.
  pub data Outcome
      : ℕ → List (ℕ × TorNodeConfig) → NodePool → Answer Reply × NodePool → Type 0 where
    all_failed : (tick : ℕ) (text : Text) (p : NodePool) → Outcome tick [] p (unavailable text, p)
    served :
        (tick : ℕ) (node : ℕ × TorNodeConfig) (nodes : List (ℕ × TorNodeConfig)) (p : NodePool)
        (status : ℕ) (reply : Reply)
        → http_over_socks5 tick node.1 ≡ answered status reply
        → is_rate_limited status ≡ false
        → Outcome tick (node ∷ nodes) p (proxied status reply, on_success node.0 p)
    failed_over :
        (tick : ℕ) (node : ℕ × TorNodeConfig) (nodes : List (ℕ × TorNodeConfig)) (p : NodePool)
        (answer : Answer Reply × NodePool)
        → ((status : ℕ) (reply : Reply)
            → http_over_socks5 tick node.1 ≡ answered status reply
            → is_rate_limited status ≡ true)
        → Outcome (suc tick) nodes (on_error (newnym tick) node.0 p) answer
        → Outcome tick (node ∷ nodes) p answer

  -- What the loop makes of an exchange and of the answer behind it.
  abbrev step_answer :
      ℕ × TorNodeConfig
      → NodePool
      → (Text → Answer Reply × NodePool)
      → Step Reply
      → Answer Reply × NodePool
  step_answer node p later (finish status reply) = (proxied status reply, on_success node.0 p)
  step_answer node p later (retry e) = later e

  step-Outcome :
      (tick : ℕ) (node : ℕ × TorNodeConfig) (nodes : List (ℕ × TorNodeConfig)) (p : NodePool)
      (later : Text → Answer Reply × NodePool) (x : Exchanged Reply)
      → http_over_socks5 tick node.1 ≡ x
      → ((e : Text) → Outcome (suc tick) nodes (on_error (newnym tick) node.0 p) (later e))
      → Outcome tick (node ∷ nodes) p (step_answer node p later (judge node.1 x))
  unfolding judge
  step-Outcome tick node nodes p later (failed t) e h =
      Outcome.failed_over tick node nodes p (later t) (λ status reply e'. cc) (h t)
  step-Outcome tick node nodes p later (answered s r) e h = elim (Bool-cases (is_rate_limited s)) [
    | inl l ↦ rw l (
        Outcome.failed_over tick node nodes p (later (status_text s node.1))
          (λ status reply e'. let same : s ≡ status = cc in rw (sym same) l)
          (h (status_text s node.1)))
    | inr l ↦ rw l (Outcome.served tick node nodes p s r e l)
  ]

  -- The loop over the nodes gives the response of the first node that answers without a rate limit,
  -- and the error answer only when no node does; an error is recorded for each node tried before, and
  -- a success for the one that served.
  pub try_nodes-Outcome :
      (tick : ℕ) (nodes : List (ℕ × TorNodeConfig)) (last_error : Option Text) (p : NodePool)
      → Outcome tick nodes p (try_nodes http_over_socks5 newnym tick nodes last_error p)
  unfolding try_nodes
  try_nodes-Outcome tick [] last_error p = Outcome.all_failed tick (failure_text last_error) p
  try_nodes-Outcome tick (node ∷ nodes) last_error p =
      step-Outcome tick node nodes p
        (λ e.
          (try_nodes http_over_socks5 newnym (suc tick) nodes (some e)
            (on_error (newnym tick) node.0 p)))
        (http_over_socks5 tick node.1) refl
        (λ e. try_nodes-Outcome (suc tick) nodes (some e) (on_error (newnym tick) node.0 p))
