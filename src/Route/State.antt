-- ===== src/Route/State.antt =====
-- intermediate-proxy/src/route/state.rs: the tier of a proxy on a route, the ordered plan of live
-- proxies, and the fallback pool of banned and dead ones. The random draws and the hash are those
-- of the crates fastrand and ahash, and arguments here.
pub mod Ranking
pub mod Live
pub mod Fallback
pub mod Plan
pub mod Serving
pub mod Precedence
use proxy_systems.Common.{
  ℕ, zero, suc, ◌+◌, ◌-◌, ◌%◌, ◌<◌, Bool, true, false, not, ◌&&◌, ◌||◌, List, [], ◌∷◌, ◌++◌, map,
  Option, none, some, ltb, leb, ◌==◌, if◌then◌else◌, length, get_elem?, set, take, drop, any, all,
  is_empty, get_or_else, cons_some,
}
use proxy_systems.Common.Words.{u64_max, add64, u64_mod}
use proxy_systems.Common.Order.{sort_by}
use proxy_systems.Common.Text.{Text, has_text}
use proxy_systems.Proxy.Health.{RouteState, is_banned}
use proxy_systems.Proxy.Entry.{Entry, route_state, is_transport_fatal, is_reserve}
use proxy_systems.Proxy.Store.{Addr, Store, modify}
use proxy_systems.Route.Def.{
  RouteDef, Selector, best_latency, round_robin, random, hedge, sticky_by_header,
}

pub data Tier : Type 0 where
  healthy slow failed banned fatal : Tier

-- The derived order of the enum.
abbrev pub rank : Tier → ℕ
rank healthy = 0
rank slow = 1
rank failed = 2
rank banned = 3
rank fatal = 4

unfoldable pub entry_tier : Entry → RouteState → RouteDef → ℕ → Tier
entry_tier entry st route now =
    if is_transport_fatal entry
    then fatal
    else if is_banned st now
    then banned
    else if leb route.fail_streak st.consecutive_failures
    then failed
    else if ltb 0 st.avg_latency_ms && ltb route.slow_ms st.avg_latency_ms
    then slow
    else healthy

unfoldable pub tag_match : Entry → List Text → List Text → Bool
tag_match entry all_tags any_tags =
    (is_empty all_tags || all (has_text entry.tags) all_tags)
    && (is_empty any_tags || any (has_text entry.tags) any_tags)

unfoldable pub is_excluded : Entry → List Text → Bool
is_excluded entry exclude = not (is_empty exclude) && any (has_text entry.tags) exclude

pub record Candidate : Type 0 where
  pub entry : Addr
  pub tier : Tier
  pub latency : ℕ

-- `tier == Tier::Banned || tier == Tier::Fatal`.
unfoldable pub is_sidelined : Tier → Bool
is_sidelined banned = true
is_sidelined fatal = true
is_sidelined _ = false

-- `route_state` through a pointer: the state, and the store in which it was made.
unfoldable pub touch : RouteDef → Addr → Store → RouteState × Store
touch route a s =
    ((route_state route.id (s.entry a)).0, modify a (λ e. (route_state route.id e).1) s)

-- The two tag tests of both loops below: the proxy belongs to the route's pool.
unfoldable pub is_eligible : RouteDef → List Text → List Text → Entry → Bool
is_eligible route pool_all pool_any e =
    not (is_excluded e route.exclude_tags) && tag_match e pool_all pool_any

-- One round of the loop of `build_plan`: the candidate, unless a `continue` skips the proxy.
unfoldable pub visit_live :
    RouteDef → List Text → List Text → ℕ → Addr → Store → Option Candidate × Store
visit_live route pool_all pool_any now a s =
    let (st, s') = touch route a s in
    let tier = entry_tier (s.entry a) st route now in
    if is_eligible route pool_all pool_any (s.entry a)
    then (
      (if is_sidelined tier
          then none
          else some (record { entry = a; tier = tier; latency = st.avg_latency_ms })),
      s',
    )
    else (none, s)

unfoldable pub collect_live :
    RouteDef → List Text → List Text → ℕ → List Addr → Store → List Candidate × Store
collect_live route pool_all pool_any now [] s = ([], s)
collect_live route pool_all pool_any now (a ∷ more) s =
    let (found, s') = visit_live route pool_all pool_any now a s in
    let (rest, s'') = collect_live route pool_all pool_any now more s' in
    (cons_some found rest, s'')

unfoldable pub lat_key : ℕ → ℕ
lat_key l = if l == 0 then 1 else l

-- `a.tier.cmp(&b.tier).then_with(|| lat_key(a.latency).cmp(&lat_key(b.latency)))` is not `Greater`.
unfoldable pub tier_latency_le : Candidate → Candidate → Bool
tier_latency_le a b =
    ltb (rank a.tier) (rank b.tier)
    || rank a.tier == rank b.tier && leb (lat_key a.latency) (lat_key b.latency)

unfoldable pub tier_le : Candidate → Candidate → Bool
tier_le a b = leb (rank a.tier) (rank b.tier)

module _ {ℓ} {A : Type ℓ} where
  unfoldable pub rotate_left : ℕ → List A → List A
  rotate_left n xs = drop n xs ++ take n xs

  -- `slice::swap`; both indices are in range where it is called.
  unfoldable pub swap_at : ℕ → ℕ → List A → List A
  swap_at i j xs = elim (get_elem? xs i) [
    | none ↦ xs
    | some x ↦ elim (get_elem? xs j) [ none ↦ xs | some y ↦ set (set xs i y) j x ]
  ]

  -- `for i in (1..n).rev() { live.swap(i, fastrand::usize(..=i)) }`, from the index down.
  unfoldable pub shuffle : (ℕ → ℕ) → ℕ → List A → List A
  shuffle draw zero xs = xs
  shuffle draw (suc i) xs = shuffle draw i (swap_at (suc i) (draw (suc i)) xs)

-- The selector's order; the second part is the route's cursor afterwards.
unfoldable pub order :
    (ℕ → ℕ) → (Text → ℕ) → Selector → Option Text → ℕ → List Candidate → List Candidate × ℕ
order draw hash best_latency sticky_key cursor live = (sort_by tier_latency_le live, cursor)
order draw hash hedge sticky_key cursor live = (sort_by tier_latency_le live, cursor)
order draw hash random sticky_key cursor live =
    (sort_by tier_le (shuffle draw (length live - 1) (sort_by tier_le live)), cursor)
order draw hash round_robin sticky_key cursor live =
    if ltb 1 (length live)
    then (rotate_left (cursor % length live) (sort_by tier_latency_le live), add64 cursor 1)
    else (sort_by tier_latency_le live, cursor)
order draw hash (sticky_by_header _) sticky_key cursor live =
    if ltb 1 (length live)
    then (
      rotate_left (hash (get_or_else sticky_key []) % length live) (sort_by tier_latency_le live),
      cursor,
    )
    else (sort_by tier_latency_le live, cursor)

-- A Boolean sort key, `false` first.
abbrev pub bit : Bool → ℕ
bit false = 0
bit true = 1

abbrev pub key_le {ℓ} : {A : Type ℓ} → (A → Bool) → A → A → Bool
key_le key a b = leb (bit (key a)) (bit (key b))

unfoldable pub reserve_key : Store → Candidate → Bool
reserve_key s c = is_reserve (s.entry c.entry)

unfoldable pub prefer_key : List Text → Store → Candidate → Bool
prefer_key prefer s c = not (any (has_text (s.entry c.entry).tags) prefer)

-- `if route.prefer_non_reserve { live.sort_by_key(|c| c.entry.is_reserve()) }`.
unfoldable pub regulars_first : Bool → Store → List Candidate → List Candidate
regulars_first true s live = sort_by (key_le (reserve_key s)) live
regulars_first false s live = live

-- The sort that floats the preferred tags to the front.
unfoldable pub preferred_first : List Text → Store → List Candidate → List Candidate
preferred_first [] s live = live
preferred_first (t ∷ ts) s live = sort_by (key_le (prefer_key (t ∷ ts) s)) live

-- The two stable sorts behind the selector's order, the preferred tags last.
unfoldable pub arrange : RouteDef → Store → List Candidate → List Candidate
arrange route s live =
    preferred_first route.prefer_tags s (regulars_first route.prefer_non_reserve s live)

unfoldable pub build_plan :
    (ℕ → ℕ)
    → (Text → ℕ)
    → ℕ
    → RouteDef
    → List Addr
    → List Text
    → List Text
    → Option Text
    → ℕ
    → Store
    → List Candidate × Store × ℕ
build_plan draw hash now route snapshot pool_all pool_any sticky_key cursor s =
    let (live, s') = collect_live route pool_all pool_any now snapshot s in
    let (ordered, cursor') = order draw hash route.selector sticky_key cursor live in
    (take route.max_attempts (arrange route s' ordered), s', cursor')

-- One round of the loop of `fallback_pool`.
unfoldable pub visit_fallback :
    RouteDef → List Text → List Text → List Text → ℕ → Addr → Store → Option (ℕ × Addr) × Store
visit_fallback route pool_all pool_any tried now a s =
    let (st, s') = touch route a s in
    let tier = entry_tier (s.entry a) st route now in
    if has_text tried (s.entry a).url
    then (none, s)
    else if is_eligible route pool_all pool_any (s.entry a)
    then ((if is_sidelined tier then some (st.avg_latency_ms, a) else none), s')
    else (none, s)

unfoldable pub collect_fallback :
    RouteDef → List Text → List Text → List Text → ℕ → List Addr → Store → List (ℕ × Addr) × Store
collect_fallback route pool_all pool_any tried now [] s = ([], s)
collect_fallback route pool_all pool_any tried now (a ∷ more) s =
    let (found, s') = visit_fallback route pool_all pool_any tried now a s in
    let (rest, s'') = collect_fallback route pool_all pool_any tried now more s' in
    (cons_some found rest, s'')

-- `if *l == 0 { u64::MAX } else { *l }`.
unfoldable pub fallback_key : ℕ × Addr → ℕ
fallback_key p = if p.0 == 0 then u64_max else p.0

abbrev pub fallback_le : ℕ × Addr → ℕ × Addr → Bool
fallback_le p q = leb (fallback_key p) (fallback_key q)

unfoldable pub fallback_pool :
    ℕ → RouteDef → List Addr → List Text → List Text → List Text → Store → List Addr × Store
fallback_pool now route snapshot pool_all pool_any tried s =
    let (out, s') = collect_fallback route pool_all pool_any tried now snapshot s in
    (map (λ p. p.1) (sort_by fallback_le out), s')
