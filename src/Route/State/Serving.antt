-- ===== src/Route/State/Serving.antt =====
-- What a plan of intermediate-proxy/src/route/state.rs means for the proxies in it, said without the
-- tests of the code.
use proxy_systems.Common.{
  ℕ, ◌≤◌, ◌≡◌, refl, ◌⊎◌, inl, inr, Bool, true, false, not, ◌&&◌, ◌||◌, List, [], ◌∷◌, Option,
  arith, All, All-weaken, all, any, is_empty, ◌==◌,
}
use proxy_systems.Common.Text.{Text, has_text}
use proxy_systems.Proxy.Health.{is_banned}
use proxy_systems.Proxy.Entry.{Entry, is_transport_fatal}
use proxy_systems.Proxy.Entry.Laws.{health}
use proxy_systems.Proxy.Store.{Addr, Store}
use proxy_systems.Route.Def.{RouteDef}
use proxy_systems.Route.State.{
  Candidate, entry_tier, tag_match, is_excluded, is_sidelined, is_eligible, build_plan,
}
use proxy_systems.Route.State.Live.{IsLive, tier_of}
use proxy_systems.Route.State.Plan.{build_plan-IsLive}

-- A proxy may serve a request of the route: it carries each required tag, one of the alternative
-- tags if there are any, and no excluded tag; it is not dead, and its ban on the route is over.
pub record MayServe (route : RouteDef) (pool_all pool_any : List Text) (now : ℕ) (e : Entry)
    : Type 0 where
  pub required : All (λ t. has_text e.tags t ≡ true) pool_all
  pub one_of : (pool_any ≡ []) ⊎ (any (has_text e.tags) pool_any ≡ true)
  pub not_excluded : All (λ t. has_text e.tags t ≡ false) route.exclude_tags
  pub not_dead : e.transport_fatal ≡ false
  pub not_banned : (health route.id e).banned_until_ms ≤ now

all-All : (p : Text → Bool) (ts : List Text) → all p ts ≡ true → All (λ t. p t ≡ true) ts
all-All p [] h = tt
all-All p (t ∷ ts) h = (ground (arith, h), all-All p ts (ground (arith, h)))

any-All : (p : Text → Bool) (ts : List Text) → any p ts ≡ false → All (λ t. p t ≡ false) ts
any-All p [] h = tt
any-All p (t ∷ ts) h = (ground (arith, h), any-All p ts (ground (arith, h)))

module _ (route : RouteDef) (pool_all pool_any : List Text) (e : Entry)
    (h : is_eligible route pool_all pool_any e ≡ true) where
  required_of : All (λ t. has_text e.tags t ≡ true) pool_all
  unfolding is_eligible tag_match
  required_of = required_from pool_all (ground (arith, h))
    where
      required_from :
          (ts : List Text)
          → (is_empty ts || all (has_text e.tags) ts) ≡ true
          → All (λ t. has_text e.tags t ≡ true) ts
      required_from [] b = tt
      required_from (t ∷ ts) b = all-All (has_text e.tags) (t ∷ ts) b

  one_of_of : (pool_any ≡ []) ⊎ (any (has_text e.tags) pool_any ≡ true)
  unfolding is_eligible tag_match
  one_of_of = one_from pool_any (ground (arith, h))
    where
      one_from :
          (ts : List Text)
          → (is_empty ts || any (has_text e.tags) ts) ≡ true
          → (ts ≡ []) ⊎ (any (has_text e.tags) ts ≡ true)
      one_from [] b = inl refl
      one_from (t ∷ ts) b = inr b

  not_excluded_of : All (λ t. has_text e.tags t ≡ false) route.exclude_tags
  unfolding is_eligible is_excluded
  not_excluded_of = none_from route.exclude_tags (ground (arith, h))
    where
      none_from :
          (ts : List Text)
          → (not (is_empty ts) && any (has_text e.tags) ts) ≡ false
          → All (λ t. has_text e.tags t ≡ false) ts
      none_from [] b = tt
      none_from (t ∷ ts) b = any-All (has_text e.tags) (t ∷ ts) b

alive_of :
    (route : RouteDef) (now : ℕ) (e : Entry)
    → is_sidelined (tier_of route now e) ≡ false
    → (e.transport_fatal ≡ false) × ((health route.id e).banned_until_ms ≤ now)
unfolding tier_of entry_tier is_sidelined is_banned is_transport_fatal
alive_of route now e h = (ground (arith, h), ground (arith, h))

IsLive-MayServe :
    (route : RouteDef) (pool_all pool_any : List Text) (now : ℕ) (s : Store) (snapshot : List Addr)
    (c : Candidate)
    → IsLive route pool_all pool_any now s snapshot c
    → (any (λ a. a == c.entry) snapshot ≡ true)
      × MayServe route pool_all pool_any now (s.entry c.entry)
IsLive-MayServe route pool_all pool_any now s snapshot c live =
    let e = s.entry c.entry in
    let alive = alive_of route now e (ground (arith, live.tier, live.usable)) in
    (
      live.listed,
      record {
        required = required_of route pool_all pool_any e live.eligible;
        one_of = one_of_of route pool_all pool_any e live.eligible;
        not_excluded = not_excluded_of route pool_all pool_any e live.eligible;
        not_dead = alive.0;
        not_banned = alive.1;
      },
    )

-- Every candidate of a plan is a proxy of the snapshot that may serve the request: its tags are
-- those the route asks for, it is not marked dead, and its ban on the route, if any, is over.
pub build_plan-MayServe :
    (draw : ℕ → ℕ) (hash : Text → ℕ) (now : ℕ) (route : RouteDef) (snapshot : List Addr)
    (pool_all pool_any : List Text) (sticky : Option Text) (cursor : ℕ) (s : Store)
    → All
        (λ c.
          (any (λ a. a == c.entry) snapshot ≡ true)
          × MayServe route pool_all pool_any now (s.entry c.entry))
        (build_plan draw hash now route snapshot pool_all pool_any sticky cursor s).0
build_plan-MayServe draw hash now route snapshot pool_all pool_any sticky cursor s =
    All-weaken _ (IsLive-MayServe route pool_all pool_any now s snapshot)
      (build_plan-IsLive draw hash now route snapshot pool_all pool_any sticky cursor s)
