-- ===== src/Route/State/Fallback.antt =====
-- What `fallback_pool` of intermediate-proxy/src/route/state.rs, the last resort of a request, collects.

use proxy_systems.Common.{
  ℕ, ◌≡◌, refl, sym, ap, ◌∙◌, Bool, not, ◌&&◌, List, [], ◌∷◌, map, Perm, Option, if◌then◌else◌,
  cons_some, Bool-cases, inl, inr,
}
use proxy_systems.Common.Order.{sort_by-perm}
use proxy_systems.Common.Permutations.{map-perm}
use proxy_systems.Common.Text.{Text, has_text}
use proxy_systems.Proxy.Entry.{Entry}
use proxy_systems.Proxy.Entry.Laws.{health}
use proxy_systems.Proxy.Store.{Addr, Store}
use proxy_systems.Route.Def.{RouteDef}
use proxy_systems.Route.State.{
  is_eligible, is_sidelined, touch, visit_fallback, collect_fallback, fallback_le, fallback_pool,
}
use proxy_systems.Route.State.Live.{
  SameView, Agree-refl, SameView-trans, touch-SameView, is_eligible-Agree, tier_of, tier_of-Agree,
}

-- The elements that a test keeps, in their order.
unfoldable pub keep_where : {A : Type 0} → (A → Bool) → List A → List A
keep_where p [] = []
keep_where p (x ∷ xs) = let rest = keep_where p xs in if p x then x ∷ rest else rest

module _ (route : RouteDef) (pool_all pool_any tried : List Text) (now : ℕ) where
  -- A proxy as it stands may be asked as a last resort: its URL was not tried, the tags of the route
  -- select it, and it is banned on the route or dead.
  abbrev pub may_fall_back : Entry → Bool
  may_fall_back e =
      not (has_text tried e.url)
      && (is_eligible route pool_all pool_any e && is_sidelined (tier_of route now e))

  abbrev visited : Addr → Store → Option (ℕ × Addr) × Store
  visited a s = visit_fallback route pool_all pool_any tried now a s

  abbrev collected : List Addr → Store → List (ℕ × Addr) × Store
  collected more s = collect_fallback route pool_all pool_any tried now more s

  visit_fallback-SameView : (a : Addr) (s : Store) → SameView s (visited a s).1
  unfolding visit_fallback
  visit_fallback-SameView a s = elim (Bool-cases (has_text tried (s.entry a).url)) [
    | inl e ↦ rw e (λ b. Agree-refl (s.entry b))
    | inr e ↦ rw e (elim (Bool-cases (is_eligible route pool_all pool_any (s.entry a))) [
      | inl f ↦ rw f (touch-SameView route a s)
      | inr f ↦ rw f (λ b. Agree-refl (s.entry b))
    ])
  ]

  collect_fallback-SameView : (more : List Addr) (s : Store) → SameView s (collected more s).1
  unfolding collect_fallback
  collect_fallback-SameView [] s = λ b. Agree-refl (s.entry b)
  collect_fallback-SameView (a ∷ more) s =
      let s' = (visited a s).1 in
      SameView-trans s s' (collected more s').1 (visit_fallback-SameView a s)
        (collect_fallback-SameView more s')

  may_fall_back-SameView :
      (s s' : Store) (a : Addr)
      → SameView s s'
      → may_fall_back (s'.entry a) ≡ may_fall_back (s.entry a)
  may_fall_back-SameView s s' a v =
      rw
        (
          is_eligible-Agree route pool_all pool_any (v a),
          tier_of-Agree route now (v a),
          ap (has_text tried) (v a).url,
        )
        refl

  -- The proxies of a snapshot that may be asked, as they stand.
  abbrev pub resting : Store → List Addr → List Addr
  resting s = keep_where (λ a. may_fall_back (s.entry a))

  resting-SameView :
      (s s' : Store) (more : List Addr) → SameView s s' → resting s' more ≡ resting s more
  unfolding keep_where
  resting-SameView s s' [] v = refl
  resting-SameView s s' (a ∷ more) v =
      rw (may_fall_back-SameView s s' a v, resting-SameView s s' more v) refl

  cons_visited :
      (a : Addr) (s : Store) (found : List (ℕ × Addr)) (more : List Addr)
      → map (λ p. p.1) found ≡ more
      → map (λ p. p.1) (cons_some (visited a s).0 found)
        ≡ (if may_fall_back (s.entry a) then a ∷ more else more)
  unfolding visit_fallback tier_of touch health
  cons_visited a s found more e = elim (Bool-cases (has_text tried (s.entry a).url)) [
    | inl t ↦ rw t e
    | inr t ↦ rw t (elim (Bool-cases (is_eligible route pool_all pool_any (s.entry a))) [
      | inl f ↦ rw f (elim (Bool-cases (is_sidelined (tier_of route now (s.entry a)))) [
        | inl g ↦ rw g (ap (λ l. a ∷ l) e)
        | inr g ↦ rw g e
      ])
      | inr f ↦ rw f e
    ])
  ]

  collect_fallback-resting :
      (more : List Addr) (s : Store) → map (λ p. p.1) (collected more s).0 ≡ resting s more
  unfolding collect_fallback keep_where
  collect_fallback-resting [] s = refl
  collect_fallback-resting (a ∷ more) s =
      let s' = (visited a s).1 in
      cons_visited a s (collected more s').0 (resting s more) (
        collect_fallback-resting more s' ∙ resting-SameView s s' more (visit_fallback-SameView a s))

  -- The fallback pool is, up to its order, the proxies of the snapshot that were not tried, that the
  -- tags of the route select and that are banned on the route or dead; making it changes no tags, no URL,
  -- no health and no mark of any proxy.
  pub fallback_pool-perm :
      (snapshot : List Addr) (s : Store)
      → Perm (fallback_pool now route snapshot pool_all pool_any tried s).0 (resting s snapshot)
        × SameView s (fallback_pool now route snapshot pool_all pool_any tried s).1
  unfolding fallback_pool
  fallback_pool-perm snapshot s = (
    rw (sym (collect_fallback-resting snapshot s))
        (map-perm _ (sort_by-perm fallback_le (collected snapshot s).0)),
    collect_fallback-SameView snapshot s,
  )
