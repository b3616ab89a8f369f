-- ===== src/Route/State/Precedence.antt =====
-- What the order of a plan of intermediate-proxy/src/route/state.rs means for the proxies in it, said
-- without the keys and the comparator of the code.
use proxy_systems.Common.{
  ℕ, ◌≤◌, ◌≡◌, refl, sym, ◌∙◌, ◌⊎◌, inl, inr, Bool, true, false, List, Option, max, ltb, ◌==◌,
  arith, any, Bool-cases,
}
use proxy_systems.Common.Order.{Pairwise, Pairwise-weaken}
use proxy_systems.Common.Text.{Text, codes, has_text}
use proxy_systems.Proxy.Entry.{is_reserve, has_tag}
use proxy_systems.Proxy.Store.{Addr, Store}
use proxy_systems.Route.Def.{RouteDef}
use proxy_systems.Route.State.{
  Tier, healthy, slow, failed, banned, fatal, rank, Candidate, build_plan, lat_key, tier_latency_le,
  key_le, prefer_key, reserve_key,
}
use proxy_systems.Route.State.Ranking.{ByRank, Ranked, ByReserve, Ahead}
use proxy_systems.Route.State.Plan.{build_plan-Ahead}

-- The tiers from the best to the worst.
pub data Better : Tier → Tier → Type 0 where
  healthy_slow : Better healthy slow
  slow_failed : Better slow failed
  failed_banned : Better failed banned
  banned_fatal : Better banned fatal
  further : {t u v : Tier} → Better t u → Better u v → Better t v

module _ (route : RouteDef) (s : Store) where
  -- The candidate's proxy has one of the tags that the route prefers.
  abbrev pub is_preferred : Candidate → Bool
  is_preferred c = any (λ t. has_text (s.entry c.entry).tags t) route.prefer_tags

  -- The candidate's proxy has the tag `reserve`.
  abbrev pub is_in_reserve : Candidate → Bool
  is_in_reserve c = has_text (s.entry c.entry).tags (codes "reserve")

  -- Nothing is said of two proxies by the tag `reserve`.
  abbrev pub SameReserve : Candidate → Candidate → Type 0
  SameReserve a b = (route.prefer_non_reserve ≡ false) ⊎ (is_in_reserve a ≡ is_in_reserve b)

  -- The first of two candidates goes first by the first of four marks in which they differ: preferred
  -- tags, the tag `reserve` if the route looks at it, the tier, and the average latency, where a proxy
  -- that was never measured counts as one of a millisecond.
  pub data Precedes (a b : Candidate) : Type 0 where
    by_preference : is_preferred a ≡ true → is_preferred b ≡ false → Precedes a b
    by_reserve :
        is_preferred a ≡ is_preferred b
        → route.prefer_non_reserve ≡ true
        → is_in_reserve a ≡ false
        → is_in_reserve b ≡ true
        → Precedes a b
    by_tier :
        is_preferred a ≡ is_preferred b → SameReserve a b → Better a.tier b.tier → Precedes a b
    by_latency :
        is_preferred a ≡ is_preferred b
        → SameReserve a b
        → a.tier ≡ b.tier
        → max 1 a.latency ≤ max 1 b.latency
        → Precedes a b

Better-of_rank : (t u : Tier) → ltb (rank t) (rank u) ≡ true → Better t u
Better-of_rank healthy healthy e = cc
Better-of_rank healthy slow e = healthy_slow
Better-of_rank healthy failed e = further healthy_slow slow_failed
Better-of_rank healthy banned e = further healthy_slow (further slow_failed failed_banned)
Better-of_rank healthy fatal e =
    further healthy_slow (further slow_failed (further failed_banned banned_fatal))
Better-of_rank slow healthy e = cc
Better-of_rank slow slow e = cc
Better-of_rank slow failed e = slow_failed
Better-of_rank slow banned e = further slow_failed failed_banned
Better-of_rank slow fatal e = further slow_failed (further failed_banned banned_fatal)
Better-of_rank failed healthy e = cc
Better-of_rank failed slow e = cc
Better-of_rank failed failed e = cc
Better-of_rank failed banned e = failed_banned
Better-of_rank failed fatal e = further failed_banned banned_fatal
Better-of_rank banned healthy e = cc
Better-of_rank banned slow e = cc
Better-of_rank banned failed e = cc
Better-of_rank banned banned e = cc
Better-of_rank banned fatal e = banned_fatal
Better-of_rank fatal healthy e = cc
Better-of_rank fatal slow e = cc
Better-of_rank fatal failed e = cc
Better-of_rank fatal banned e = cc
Better-of_rank fatal fatal e = cc

same-of_rank : (t u : Tier) → (rank t == rank u) ≡ true → t ≡ u
same-of_rank healthy healthy e = refl
same-of_rank healthy slow e = cc
same-of_rank healthy failed e = cc
same-of_rank healthy banned e = cc
same-of_rank healthy fatal e = cc
same-of_rank slow healthy e = cc
same-of_rank slow slow e = refl
same-of_rank slow failed e = cc
same-of_rank slow banned e = cc
same-of_rank slow fatal e = cc
same-of_rank failed healthy e = cc
same-of_rank failed slow e = cc
same-of_rank failed failed e = refl
same-of_rank failed banned e = cc
same-of_rank failed fatal e = cc
same-of_rank banned healthy e = cc
same-of_rank banned slow e = cc
same-of_rank banned failed e = cc
same-of_rank banned banned e = refl
same-of_rank banned fatal e = cc
same-of_rank fatal healthy e = cc
same-of_rank fatal slow e = cc
same-of_rank fatal failed e = cc
same-of_rank fatal banned e = cc
same-of_rank fatal fatal e = refl

lat_key-max : (l : ℕ) → lat_key l ≡ max 1 l
unfolding lat_key
lat_key-max l = ground arith

-- The comparator: a better tier, or the same and a latency that is no larger.
Ranked-cases :
    (a b : Candidate)
    → Ranked a b
    → Better a.tier b.tier ⊎ ((a.tier ≡ b.tier) × (max 1 a.latency ≤ max 1 b.latency))
unfolding tier_latency_le
Ranked-cases a b h = elim (Bool-cases (ltb (rank a.tier) (rank b.tier))) [
  | inl e ↦ inl (Better-of_rank a.tier b.tier e)
  | inr e ↦ inr (
    same-of_rank a.tier b.tier (ground (arith, h, e)),
    ground (arith, h, e, lat_key-max a.latency, lat_key-max b.latency),
  )
]

-- A Boolean key sorts what does not have it before what has it.
key_le-cases :
    (key : Candidate → Bool) (a b : Candidate)
    → key_le key a b ≡ true
    → ((key a ≡ false) × (key b ≡ true)) ⊎ ((key a ≡ key b) × (key_le key b a ≡ true))
key_le-cases key a b h = elim (Bool-cases (key a)) [
  | inl e ↦ elim (Bool-cases (key b)) [
    | inl f ↦ inr (e ∙ sym f, ground (arith, e, f))
    | inr f ↦ absurd (ground (arith, h, e, f))
  ]
  | inr e ↦ elim (Bool-cases (key b)) [
    | inl f ↦ inl (e, f)
    | inr f ↦ inr (e ∙ sym f, ground (arith, e, f))
  ]
]

module _ (route : RouteDef) (s : Store) (a b : Candidate) where
  Ranked-Precedes :
      is_preferred route s a ≡ is_preferred route s b
      → SameReserve route s a b
      → Ranked a b
      → Precedes route s a b
  Ranked-Precedes p r h = elim (Ranked-cases a b h) [
    | inl t ↦ by_tier p r t
    | inr (t, l) ↦ by_latency p r t l
  ]

  reserve-Precedes :
      is_preferred route s a ≡ is_preferred route s b
      → (on : Bool) → route.prefer_non_reserve ≡ on
      → ByReserve s Ranked on a b
      → Precedes route s a b
  unfolding reserve_key is_reserve has_tag
  reserve-Precedes p false o h = Ranked-Precedes p (inl o) h
  reserve-Precedes p true o (h, later) = elim (key_le-cases (reserve_key s) a b h) [
    | inl (x, y) ↦ by_reserve p o x y
    | inr (same, back) ↦ Ranked-Precedes p (inr same) (later back)
  ]

  Ahead-Precedes : Ahead route s Ranked a b → Precedes route s a b
  unfolding prefer_key
  Ahead-Precedes (h, later) = elim (key_le-cases (prefer_key route.prefer_tags s) a b h) [
    | inl (x, y) ↦ by_preference (ground (arith, x)) (ground (arith, y))
    | inr (same, back) ↦
        reserve-Precedes (ground (arith, same)) route.prefer_non_reserve refl (later back)
  ]

-- Under the selectors `best_latency` and `hedge`, of two proxies of a plan the earlier one has a
-- preferred tag, or the later has none either. Between two that agree in this, one without the tag
-- `reserve` goes before one with it, if the route looks at it. Then a better tier goes first: healthy,
-- slow, failed. In one tier a smaller average latency does, and a proxy that was never measured counts
-- as one of a millisecond, so that it goes before all whose average is larger.
pub build_plan-Precedes :
    (draw : ℕ → ℕ) (hash : Text → ℕ) (now : ℕ) (route : RouteDef) (snapshot : List Addr)
    (pool_all pool_any : List Text) (sticky : Option Text) (cursor : ℕ) (s : Store)
    → ByRank route.selector
    → let out = build_plan draw hash now route snapshot pool_all pool_any sticky cursor s in
      Pairwise (Precedes route out.1) out.0
build_plan-Precedes draw hash now route snapshot pool_all pool_any sticky cursor s r =
    Pairwise-weaken _ (Ahead-Precedes route _)
      (build_plan-Ahead draw hash now route snapshot pool_all pool_any sticky cursor s r)
