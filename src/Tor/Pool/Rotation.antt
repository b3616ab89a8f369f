-- ===== src/Tor/Pool/Rotation.antt =====
-- tor-proxy/src/pool.rs: what an error does to the node it is recorded for, and to the others.
use proxy_systems.Common.{
  ℕ, zero, suc, ◌+◌, ◌-◌, ◌%◌, ◌^◌, Bool, ap, sym, ◌∙◌, ◌≡◌, ◌≢◌, ◌==◌, ==_iff, if◌then◌else◌, refl,
  ◌&&◌, List, [], ◌∷◌, some, get_elem?, set, leb, if◌then◌else◌, arith, inl, inr, Bool-cases,
  Option-cases,
}
use proxy_systems.Tor.Pool.{
  NodeState, NodePool, Newnym, with_node, count_error, record_error, can_rotate, renew, rotate_node,
  on_error,
}

module _ {ℓ} {A : Type ℓ} where
  get_elem?-set :
      (xs : List A) (i : ℕ) (x y : A) → get_elem? xs i ≡ some x → get_elem? (set xs i y) i ≡ some y
  get_elem?-set [] i x y e = cc
  get_elem?-set (z ∷ xs) zero x y e = refl
  get_elem?-set (z ∷ xs) (suc i) x y e = get_elem?-set xs i x y e

  get_elem?-set_other :
      (xs : List A) (i j : ℕ) (y : A) → j ≢ i → get_elem? (set xs i y) j ≡ get_elem? xs j
  get_elem?-set_other [] i j y h = refl
  get_elem?-set_other (z ∷ xs) zero zero y h = absurd (h refl)
  get_elem?-set_other (z ∷ xs) zero (suc j) y h = refl
  get_elem?-set_other (z ∷ xs) (suc i) zero y h = refl
  get_elem?-set_other (z ∷ xs) (suc i) (suc j) y h =
      get_elem?-set_other xs i j y (λ e. h (omega arith))

get_elem?-with_node :
    (i : ℕ) (f : NodeState → NodeState) (p : NodePool) (n : NodeState)
    → get_elem? p.nodes i ≡ some n
    → get_elem? (with_node i f p).nodes i ≡ some (f n)
unfolding with_node
get_elem?-with_node i f p n e = ground (arith, get_elem?-set p.nodes i n (f n) e)

get_elem?-with_node_other :
    (i j : ℕ) (f : NodeState → NodeState) (p : NodePool)
    → j ≢ i
    → get_elem? (with_node i f p).nodes j ≡ get_elem? p.nodes j
unfolding with_node
get_elem?-with_node_other i j f p h = elim (Option-cases (get_elem? p.nodes i)) [
  | inl e ↦ ground (arith, e)
  | inr (n, e) ↦ ground (arith, e, get_elem?-set_other p.nodes i j (f n) h)
]

with_node-cooldown :
    (i : ℕ) (f : NodeState → NodeState) (p : NodePool)
    → (with_node i f p).newnym_cooldown ≡ p.newnym_cooldown
unfolding with_node
with_node-cooldown i f p = ground arith

rotate_node_lem :
    (r : Newnym) (i : ℕ) (p : NodePool) (n : NodeState)
    → get_elem? p.nodes i ≡ some n
    → get_elem? (rotate_node r i p).nodes i
      ≡ some (
          if leb p.newnym_cooldown (r.checked_at - n.last_newnym) && r.newnym_ok
          then renew r.renewed_at r.cooling_from p.newnym_cooldown n
          else n)
unfolding rotate_node can_rotate
rotate_node_lem r i p n e =
    ground
      (arith, e, get_elem?-with_node i (renew r.renewed_at r.cooling_from p.newnym_cooldown) p n e)

rotate_node_other :
    (r : Newnym) (i j : ℕ) (p : NodePool)
    → j ≢ i
    → get_elem? (rotate_node r i p).nodes j ≡ get_elem? p.nodes j
unfolding rotate_node
rotate_node_other r i j p h =
    ground (
      arith,
      get_elem?-with_node_other i j (renew r.renewed_at r.cooling_from p.newnym_cooldown) p h,
    )

count_error-last_newnym : (n : NodeState) → (count_error n).last_newnym ≡ n.last_newnym
unfolding count_error
count_error-last_newnym n = refl

record_error_lem :
    (i : ℕ) (p : NodePool) (n : NodeState)
    → get_elem? p.nodes i ≡ some n
    → record_error i p
      ≡ (leb p.error_threshold (count_error n).consecutive_errors, with_node i count_error p)
unfolding record_error
record_error_lem i p n e = ground (arith, e)

-- Is the node renewed by one more error: is the threshold reached, is the last NEWNYM long enough ago,
-- and does Tor accept a new one?
abbrev pub is_renewed : Newnym → NodePool → NodeState → Bool
is_renewed r p n =
    leb p.error_threshold ((n.consecutive_errors + 1) % 2 ^ 32)
    && leb p.newnym_cooldown (r.checked_at - n.last_newnym)
    && r.newnym_ok

-- The node after one more error, renewed or not.
abbrev pub after_error : Newnym → NodePool → NodeState → NodeState
after_error r p n = record {
  config = n.config;
  consecutive_errors = if is_renewed r p n then 0 else (n.consecutive_errors + 1) % 2 ^ 32;
  last_newnym = if is_renewed r p n then r.renewed_at else n.last_newnym;
  cooldown_until =
      if is_renewed r p n then r.cooling_from + p.newnym_cooldown else n.cooldown_until;
  stats = record {
    requests = (n.stats.requests + 1) % 2 ^ 64;
    success = n.stats.success;
    errors = (n.stats.errors + 1) % 2 ^ 64;
    rotations = if is_renewed r p n then (n.stats.rotations + 1) % 2 ^ 64 else n.stats.rotations;
  };
}

-- The same by the operations of the pool.
renewed_error :
    (r : Newnym) (p : NodePool) (n : NodeState)
    → after_error r p n ≡ (
        if is_renewed r p n
        then renew r.renewed_at r.cooling_from p.newnym_cooldown (count_error n)
        else count_error n)
unfolding renew count_error
renewed_error r p n = elim (Bool-cases (is_renewed r p n)) [ inl e ↦ rw e refl | inr e ↦ rw e refl ]

count_error-consecutive_errors :
    (n : NodeState) → (count_error n).consecutive_errors ≡ (n.consecutive_errors + 1) % 2 ^ 32
unfolding count_error
count_error-consecutive_errors n = refl

on_error_here :
    (r : Newnym) (i : ℕ) (p : NodePool) (n : NodeState)
    → get_elem? p.nodes i ≡ some n
    → get_elem? (on_error r i p).nodes i ≡ some (after_error r p n)
unfolding on_error
on_error_here r i p n e =
    let q : NodePool = with_node i count_error p in
    let at : get_elem? q.nodes i ≡ some (count_error n) = get_elem?-with_node i count_error p n e in
    let rotated : get_elem? (on_error r i p).nodes i
        ≡ some (
            if is_renewed r p n
            then renew r.renewed_at r.cooling_from p.newnym_cooldown (count_error n)
            else count_error n) =
      ground (
        arith,
        record_error_lem i p n e,
        at,
        with_node-cooldown i count_error p,
        count_error-last_newnym n,
        count_error-consecutive_errors n,
        rotate_node_lem r i q (count_error n) at,
      ) in
    rotated ∙ ap some (sym (renewed_error r p n))

on_error_elsewhere :
    (r : Newnym) (i j : ℕ) (p : NodePool) (n : NodeState)
    → get_elem? p.nodes i ≡ some n
    → j ≢ i
    → get_elem? (on_error r i p).nodes j ≡ get_elem? p.nodes j
unfolding on_error
on_error_elsewhere r i j p n e h = ground (
  arith,
  record_error_lem i p n e,
  get_elem?-with_node_other i j count_error p h,
  rotate_node_other r i j (with_node i count_error p) h,
)

-- `on_error` on a node that is in the pool adds one to its requests and errors. When its consecutive
-- errors with this one reach the threshold, the cooldown since its last NEWNYM has passed and Tor
-- accepts, it is rotated: the streak goes to zero, the times of the NEWNYM and of the cooldown are set
-- and the rotations count on; otherwise the streak counts on and the times stay. Its configuration and
-- successes stay, and every other node is left as it was.
pub on_error_lem :
    (r : Newnym) (i j : ℕ) (p : NodePool) (n : NodeState)
    → get_elem? p.nodes i ≡ some n
    → get_elem? (on_error r i p).nodes j
      ≡ (if j == i then some (after_error r p n) else get_elem? p.nodes j)
on_error_lem r i j p n e = elim (Bool-cases (j == i)) [
  | inl same ↦ let p' : j ≡ i = (==_iff j i).0 same in rw same (rw p' (on_error_here r i p n e))
  | inr other ↦ rw other (on_error_elsewhere r i j p n e (ground (arith, other)))
]
