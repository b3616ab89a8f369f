-- ===== src/Route/State/Live.antt =====
-- What the two loops of intermediate-proxy/src/route/state.rs collect: the lazily made states change
-- nothing that is read later, so each loop computes a filter over the proxies as they stand.
use mathlib.Core.Path.{ap₂}
use proxy_systems.Common.{
  cons_some, ◌&&◌, any, All-weaken, ℕ, ◌≡◌, refl, ◌∙◌, true, false, not, List, [], ◌∷◌, Option,
  none, some, arith, ◌==◌, if◌then◌else◌, All, Bool-cases, inl, inr,
}
use proxy_systems.Common.Text.{Text}
use proxy_systems.Proxy.Entry.{Entry, RouteId, route_state, is_transport_fatal}
use proxy_systems.Proxy.Entry.Laws.{health, health-route_state}
use proxy_systems.Proxy.Store.{Addr, Store, modify}
use proxy_systems.Route.Def.{RouteDef}
use proxy_systems.Route.State.{
  Tier, Candidate, entry_tier, tag_match, is_excluded, is_eligible, is_sidelined, touch, visit_live,
  collect_live,
}

-- Two records of one proxy that differ at most in states not yet made.
pub record Agree (e e' : Entry) : Type 0 where
  pub url : e'.url ≡ e.url
  pub tags : e'.tags ≡ e.tags
  pub flag : e'.transport_fatal ≡ e.transport_fatal
  pub state : (k : RouteId) → health k e' ≡ health k e

abbrev pub SameView : Store → Store → Type 0
SameView s s' = (b : Addr) → Agree (s.entry b) (s'.entry b)

pub Agree-refl : (e : Entry) → Agree e e
Agree-refl e = record { url = refl; tags = refl; flag = refl; state = λ k. refl }

pub SameView-trans : (s t u : Store) → SameView s t → SameView t u → SameView s u
SameView-trans s t u h g b = record {
  url = (g b).url ∙ (h b).url;
  tags = (g b).tags ∙ (h b).tags;
  flag = (g b).flag ∙ (h b).flag;
  state = λ k. (g b).state k ∙ (h b).state k;
}

route_state-Agree : (rid : RouteId) (e : Entry) → Agree e (route_state rid e).1
unfolding route_state
route_state-Agree rid e = record {
  url = ground arith;
  tags = ground arith;
  flag = ground arith;
  state = λ k. health-route_state rid k e;
}

pub touch-SameView : (route : RouteDef) (a : Addr) (s : Store) → SameView s (touch route a s).1
unfolding touch modify
touch-SameView route a s b = elim (Bool-cases (a == b)) [
  | inl e ↦ rw e (route_state-Agree route.id (s.entry b))
  | inr e ↦ rw e (Agree-refl (s.entry b))
]

pub is_eligible-Agree :
    (route : RouteDef) (pool_all pool_any : List Text) {e e' : Entry}
    → Agree e e'
    → is_eligible route pool_all pool_any e' ≡ is_eligible route pool_all pool_any e
unfolding is_eligible is_excluded tag_match
is_eligible-Agree route pool_all pool_any v = rw v.tags

-- The tier of a proxy as it stands.
unfoldable pub tier_of : RouteDef → ℕ → Entry → Tier
tier_of route now e = entry_tier e (health route.id e) route now

pub tier_of-Agree :
    (route : RouteDef) (now : ℕ) {e e' : Entry}
    → Agree e e'
    → tier_of route now e' ≡ tier_of route now e
unfolding tier_of entry_tier is_transport_fatal
tier_of-Agree route now v = simp (v.flag, v.state route.id)

-- The candidate that a proxy as it stands gives: one that the route's tags select and that is neither
-- banned nor dead, with its tier and its average latency.
unfoldable pub candidate_of : RouteDef → List Text → List Text → ℕ → Store → Addr → Option Candidate
candidate_of route pool_all pool_any now s a =
    if is_eligible route pool_all pool_any (s.entry a)
      && not (is_sidelined (tier_of route now (s.entry a)))
    then some (record {
      entry = a;
      tier = tier_of route now (s.entry a);
      latency = (health route.id (s.entry a)).avg_latency_ms;
    })
    else none

unfoldable pub live_candidates :
    RouteDef → List Text → List Text → ℕ → Store → List Addr → List Candidate
live_candidates route pool_all pool_any now s [] = []
live_candidates route pool_all pool_any now s (a ∷ more) =
    cons_some (candidate_of route pool_all pool_any now s a)
      (live_candidates route pool_all pool_any now s more)

candidate_of-SameView :
    (route : RouteDef) (pool_all pool_any : List Text) (now : ℕ) (s s' : Store) (a : Addr)
    → SameView s s'
    → candidate_of route pool_all pool_any now s' a ≡ candidate_of route pool_all pool_any now s a
unfolding candidate_of
candidate_of-SameView route pool_all pool_any now s s' a v = rw (
  is_eligible-Agree route pool_all pool_any (v a),
  tier_of-Agree route now (v a),
  (v a).state route.id,
)

live_candidates-SameView :
    (route : RouteDef) (pool_all pool_any : List Text) (now : ℕ) (s s' : Store) (more : List Addr)
    → SameView s s'
    → live_candidates route pool_all pool_any now s' more
      ≡ live_candidates route pool_all pool_any now s more
unfolding live_candidates
live_candidates-SameView route pool_all pool_any now s s' [] v = refl
live_candidates-SameView route pool_all pool_any now s s' (a ∷ more) v = rw (
  candidate_of-SameView route pool_all pool_any now s s' a v,
  live_candidates-SameView route pool_all pool_any now s s' more v,
)

visit_live-candidate_of :
    (route : RouteDef) (pool_all pool_any : List Text) (now : ℕ) (a : Addr) (s : Store)
    → (visit_live route pool_all pool_any now a s).0 ≡ candidate_of route pool_all pool_any now s a
unfolding visit_live candidate_of tier_of health touch
visit_live-candidate_of route pool_all pool_any now a s = ground arith

visit_live-SameView :
    (route : RouteDef) (pool_all pool_any : List Text) (now : ℕ) (a : Addr) (s : Store)
    → SameView s (visit_live route pool_all pool_any now a s).1
unfolding visit_live
visit_live-SameView route pool_all pool_any now a s =
    elim (Bool-cases (is_eligible route pool_all pool_any (s.entry a))) [
      | inl e ↦ rw e (touch-SameView route a s)
      | inr e ↦ rw e (λ b. Agree-refl (s.entry b))
    ]

-- The states made on the way change nothing that is read later.
pub collect_live-SameView :
    (route : RouteDef) (pool_all pool_any : List Text) (now : ℕ) (more : List Addr) (s : Store)
    → SameView s (collect_live route pool_all pool_any now more s).1
unfolding collect_live
collect_live-SameView route pool_all pool_any now [] s = λ b. Agree-refl (s.entry b)
collect_live-SameView route pool_all pool_any now (a ∷ more) s =
    let s' = (visit_live route pool_all pool_any now a s).1 in
    SameView-trans s s' (collect_live route pool_all pool_any now more s').1
      (visit_live-SameView route pool_all pool_any now a s)
      (collect_live-SameView route pool_all pool_any now more s')

-- The loop collects, in the snapshot's order, the candidate of each proxy that gives one.
pub collect_live-live_candidates :
    (route : RouteDef) (pool_all pool_any : List Text) (now : ℕ) (more : List Addr) (s : Store)
    → (collect_live route pool_all pool_any now more s).0
      ≡ live_candidates route pool_all pool_any now s more
unfolding collect_live live_candidates
collect_live-live_candidates route pool_all pool_any now [] s = refl
collect_live-live_candidates route pool_all pool_any now (a ∷ more) s =
    let s' = (visit_live route pool_all pool_any now a s).1 in
    ap₂ cons_some (visit_live-candidate_of route pool_all pool_any now a s) (
      collect_live-live_candidates route pool_all pool_any now more s'
      ∙ live_candidates-SameView route pool_all pool_any now s s' more
          (visit_live-SameView route pool_all pool_any now a s))

-- What it means that a candidate is live: it stands in the snapshot, the route's tags select it, it
-- is neither banned nor dead at this time, and it carries its own tier and latency.
pub record IsLive (route : RouteDef) (pool_all pool_any : List Text) (now : ℕ) (s : Store)
    (snapshot : List Addr) (c : Candidate) : Type 0 where
  pub listed : any (λ a. a == c.entry) snapshot ≡ true
  pub eligible : is_eligible route pool_all pool_any (s.entry c.entry) ≡ true
  pub usable : is_sidelined c.tier ≡ false
  pub tier : c.tier ≡ tier_of route now (s.entry c.entry)
  pub latency : c.latency ≡ (health route.id (s.entry c.entry)).avg_latency_ms

IsLive-cons :
    (route : RouteDef) (pool_all pool_any : List Text) (now : ℕ) (s : Store) (a : Addr)
    (snapshot : List Addr) (c : Candidate)
    → IsLive route pool_all pool_any now s snapshot c
    → IsLive route pool_all pool_any now s (a ∷ snapshot) c
IsLive-cons route pool_all pool_any now s a snapshot c h = record {
  listed = ground (arith, h.listed);
  eligible = h.eligible;
  usable = h.usable;
  tier = h.tier;
  latency = h.latency;
}

module _ (route : RouteDef) (pool_all pool_any : List Text) (now : ℕ) (s : Store) (a : Addr) where
  candidate_some :
      (is_eligible route pool_all pool_any (s.entry a)
          && not (is_sidelined (tier_of route now (s.entry a))))
        ≡ true
      → candidate_of route pool_all pool_any now s a
        ≡ some (record {
          entry = a;
          tier = tier_of route now (s.entry a);
          latency = (health route.id (s.entry a)).avg_latency_ms;
        })
  unfolding candidate_of
  candidate_some e = rw e

  candidate_none :
      (is_eligible route pool_all pool_any (s.entry a)
          && not (is_sidelined (tier_of route now (s.entry a))))
        ≡ false
      → candidate_of route pool_all pool_any now s a ≡ none
  unfolding candidate_of
  candidate_none e = rw e

pub live_candidates-IsLive :
    (route : RouteDef) (pool_all pool_any : List Text) (now : ℕ) (s : Store) (snapshot : List Addr)
    → All
        (IsLive route pool_all pool_any now s snapshot)
        (live_candidates route pool_all pool_any now s snapshot)
unfolding live_candidates
live_candidates-IsLive route pool_all pool_any now s [] = tt
live_candidates-IsLive route pool_all pool_any now s (a ∷ more) =
    let later =
      All-weaken (live_candidates route pool_all pool_any now s more)
        (IsLive-cons route pool_all pool_any now s a more)
        (live_candidates-IsLive route pool_all pool_any now s more) in
    elim (Bool-cases (
      is_eligible route pool_all pool_any (s.entry a)
      && not (is_sidelined (tier_of route now (s.entry a))))) [
        | inl e ↦ rw (candidate_some route pool_all pool_any now s a e) (
          record {
            listed = ground arith;
            eligible = ground arith;
            usable = ground arith;
            tier = refl;
            latency = refl;
          },
          later,
        )
        | inr e ↦ rw (candidate_none route pool_all pool_any now s a e) later
      ]
