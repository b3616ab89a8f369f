-- ===== src/Proxy/Pool/Retained.antt =====
-- The whole reload of intermediate-proxy/src/proxy/mod.rs: the proxies that the file still lists keep
-- their address and all that was learnt of them.
use mathlib.Core.List.{Memᴰ}
use proxy_systems.Common.{
  ◌<◌, ◌≡◌, refl, sym, ap, ◌∙◌, subst, inl, inr, false, List, [], ◌∷◌, some, arith, ◌≢◌, All,
  Bool-cases, Option-cases,
}
use proxy_systems.Common.Text.{Text, text_eq, text_eq_iff, text_eq_refl}
use proxy_systems.Proxy.Entry.{Entry, set_tags}
use proxy_systems.Proxy.Store.{Addr, Store, modify, alloc}
use proxy_systems.Proxy.Loader.{ParsedProxy}
use proxy_systems.Proxy.Loader.Laws.{NoUrl, HasDistinctUrls}
use proxy_systems.Proxy.Pool.{
  get_url, ProxyPool, push_new_entry, find_url, ReloadState, reload_one, reload_all, start_reload,
  is_unchanged, reload,
}
use proxy_systems.Proxy.Pool.Reload.{
  IsValidMap, IsIndexed, IsValidMap-Extends, reload_one-Extends, reload_one-get_url,
  reload_one_known, reload_one_new, update_tags_lem, get_url-put_url,
}

-- The new map keeps a URL that is not listed again.
reload_all-get_url :
    (old : List (Text × Addr)) (more : List ParsedProxy) (r : ReloadState) (u : Text)
    → All (λ q. text_eq q.url u ≡ false) more
    → get_url u (reload_all old more r).fresh.by_url ≡ get_url u r.fresh.by_url
unfolding reload_all
reload_all-get_url old [] r u h = refl
reload_all-get_url old (p ∷ more) r u h =
    reload_all-get_url old more (reload_one old p r) u h.1 ∙ reload_one-get_url old p r u h.0

-- A proxy that no listed URL points to is left alone.
reload_one-untouched :
    (old : List (Text × Addr)) (p : ParsedProxy) (r : ReloadState) (a : Addr)
    → a < r.store.next
    → get_url p.url old ≢ some a
    → (reload_one old p r).store.entry a ≡ r.store.entry a
unfolding push_new_entry modify alloc
reload_one-untouched old p r a h n = elim (Option-cases (get_url p.url old)) [
  | inl e ↦ rw (reload_one_new old p r e) (ground arith)
  | inr (b, e) ↦ rw (reload_one_known old p r b e) (ground arith)
]

reload_all-untouched :
    (old : List (Text × Addr)) (more : List ParsedProxy) (r : ReloadState) (a : Addr)
    → a < r.store.next
    → All (λ q. get_url q.url old ≢ some a) more
    → (reload_all old more r).store.entry a ≡ r.store.entry a
unfolding reload_all
reload_all-untouched old [] r a h n = refl
reload_all-untouched old (p ∷ more) r a h n =
    reload_all-untouched old more (reload_one old p r) a
      (omega (arith, (reload_one-Extends old p r).next)) n.1
    ∙ reload_one-untouched old p r a h n.0

NoUrl-of_mem :
    (u : Text) (more : List ParsedProxy) (p : ParsedProxy)
    → NoUrl u more
    → Memᴰ p more
    → text_eq p.url u ≡ false
NoUrl-of_mem u [] p h m = elim m [ ]
NoUrl-of_mem u (q ∷ more) p h (Memᴰ.head e) = rw e h.0
NoUrl-of_mem u (q ∷ more) p h (Memᴰ.tail m) = NoUrl-of_mem u more p h.1 m

-- Another URL does not point to the proxy.
points_elsewhere :
    (old : List (Text × Addr)) (s : Store) (u : Text) (a : Addr)
    → IsValidMap old s
    → get_url u old ≡ some a
    → (more : List ParsedProxy) → NoUrl u more
    → All (λ q. get_url q.url old ≢ some a) more
points_elsewhere old s u a v f [] h = tt
points_elsewhere old s u a v f (q ∷ more) h = (
  λ g.
      let same : q.url ≡ u = sym (v q.url a g).1 ∙ (v u a f).1 in
      ground (arith, text_eq_iff q.url u, h.0, same),
  points_elsewhere old s u a v f more h.1,
)

module _ (old : List (Text × Addr)) (p : ParsedProxy) (a : Addr)
    (known : get_url p.url old ≡ some a) where
  reload_one-retains :
      (r : ReloadState)
      → (get_url p.url (reload_one old p r).fresh.by_url ≡ some a)
        × ((reload_one old p r).store.entry a ≡ set_tags p.tags (r.store.entry a))
  unfolding modify
  reload_one-retains r = rw (reload_one_known old p r a known) (
    ground (arith, get_url-put_url p.url p.url a r.fresh.by_url, text_eq_refl p.url),
    ground (arith, update_tags_lem p (r.store.entry a)),
  )

  -- What the loop leaves of the proxy in a state of its variables.
  abbrev Kept : ReloadState → Entry → Type 0
  Kept r e = (get_url p.url r.fresh.by_url ≡ some a) × (r.store.entry a ≡ set_tags p.tags e)

  reload_head :
      (more : List ParsedProxy) (r : ReloadState)
      → IsValidMap old r.store
      → HasDistinctUrls (p ∷ more)
      → Kept (reload_all old more (reload_one old p r)) (r.store.entry a)
  reload_head more r v d =
      let r' = reload_one old p r in
      (
        reload_all-get_url old more r' p.url d.0 ∙ (reload_one-retains r).0,
        reload_all-untouched old more r' a
              (omega (arith, (reload_one-Extends old p r).next, (v p.url a known).0))
              (points_elsewhere old r.store p.url a v known more d.0)
            ∙ (reload_one-retains r).1,
      )

  reload_all-retains :
      (more : List ParsedProxy) (r : ReloadState)
      → HasDistinctUrls more
      → IsValidMap old r.store
      → Memᴰ p more
      → Kept (reload_all old more r) (r.store.entry a)
  unfolding reload_all
  reload_all-retains [] r d v m = elim m [ ]
  reload_all-retains (q ∷ more) r d v (Memᴰ.head e) =
      subst
        (λ (z : ParsedProxy).
          HasDistinctUrls (z ∷ more)
          → Kept (reload_all old more (reload_one old z r)) (r.store.entry a))
        e (reload_head more r v) d
  reload_all-retains (q ∷ more) r d v (Memᴰ.tail m) =
      let r' = reload_one old q r in
      let later =
        reload_all-retains more r' d.1
          (IsValidMap-Extends old r.store r'.store (reload_one-Extends old q r) v) m in
      let elsewhere = points_elsewhere old r.store p.url a v known (q ∷ []) (
        ground (
          arith,
          NoUrl-of_mem q.url more p d.0 m,
          text_eq_iff p.url q.url,
          text_eq_iff q.url p.url,
        ),
        tt,
      ) in
      (
        later.0,
        later.1
            ∙ ap (set_tags p.tags) (reload_one-untouched old q r a (v p.url a known).0 elsewhere.0),
      )

-- In a pool whose list and map agree, reloaded from proxies with pairwise different URLs, a proxy
-- that is known and that the new file lists is still found under its URL, at the same address, and
-- of all that its record holds only the tags change: to those of the file.
pub reload-retains :
    (parsed : List ParsedProxy) (pool : ProxyPool) (s : Store) (p : ParsedProxy) (a : Addr)
    → HasDistinctUrls parsed
    → IsIndexed pool s
    → Memᴰ p parsed
    → find_url pool p.url ≡ some a
    → (find_url (reload parsed pool s).0 p.url ≡ some a)
      × ((reload parsed pool s).1.entry a ≡ set_tags p.tags (s.entry a))
unfolding reload find_url
reload-retains parsed pool s p a d i m known =
    let r = reload_all pool.by_url parsed (start_reload s) in
    let kept = reload_all-retains pool.by_url p a known parsed (start_reload s) d i.valid m in
    elim (Bool-cases (is_unchanged pool.by_url r)) [
      | inl e ↦ rw e (known, kept.1)
      | inr e ↦ rw e kept
    ]
