-- ===== src/Proxy/Pool/Indexed.antt =====
-- Making and reloading the pool of intermediate-proxy/src/proxy/mod.rs: its list and its map stay in
-- agreement.

use proxy_systems.Common.{◌≡◌, refl, ◌∙◌, inl, inr, List, [], ◌∷◌, none, arith, All, Bool-cases}
use proxy_systems.Common.Text.{Text, text_eq_iff}
use proxy_systems.Proxy.Entry.{new_entry}
use proxy_systems.Proxy.Store.{Addr, Store, alloc}
use proxy_systems.Proxy.Loader.{ParsedProxy}
use proxy_systems.Proxy.Loader.Laws.{NoUrl, HasDistinctUrls}
use proxy_systems.Proxy.Pool.{
  get_url, ProxyPool, empty_pool, push_new_entry, fill, new_pool, ReloadState, reload_one,
  reload_all, start_reload, is_unchanged, reload,
}
use proxy_systems.Proxy.Pool.Reload.{
  IsValidMap, IsIndexed, Extends, IsPending, IsValidMap-Extends, IsIndexed-Extends,
  push_new_entry-IsIndexed, reload_one-Extends, reload_one-IsIndexed, reload_one-IsPending,
  get_url-put_url,
}

Extends-trans : (s t u : Store) → Extends s t → Extends t u → Extends s u
Extends-trans s t u x y = record {
  next = omega (arith, x.next, y.next);
  url = λ a h. y.url a (omega (arith, x.next)) ∙ x.url a h;
}

empty-IsIndexed : (s : Store) → IsIndexed empty_pool s
unfolding get_url
empty-IsIndexed s = record { valid = λ u a e. absurd (cc); found = tt; listed = λ u a e. cc }

reload_all-Extends :
    (old : List (Text × Addr)) (more : List ParsedProxy) (r : ReloadState)
    → Extends r.store (reload_all old more r).store
unfolding reload_all
reload_all-Extends old [] r = record { next = omega arith; url = λ a _. refl }
reload_all-Extends old (p ∷ more) r =
    Extends-trans r.store (reload_one old p r).store
      (reload_all old more (reload_one old p r)).store (reload_one-Extends old p r)
      (reload_all-Extends old more (reload_one old p r))

reload_all-IsIndexed :
    (old : List (Text × Addr)) (more : List ParsedProxy) (r : ReloadState)
    → HasDistinctUrls more
    → IsPending more r
    → IsValidMap old r.store
    → IsIndexed r.fresh r.store
    → IsIndexed (reload_all old more r).fresh (reload_all old more r).store
unfolding reload_all
reload_all-IsIndexed old [] r d w v i = i
reload_all-IsIndexed old (p ∷ more) r d w v i =
    reload_all-IsIndexed old more (reload_one old p r) d.1
      (reload_one-IsPending old p more r d.0 w.1)
      (IsValidMap-Extends old r.store (reload_one old p r).store (reload_one-Extends old p r) v)
      (reload_one-IsIndexed old p r v i w.0)

all-IsPending : (parsed : List ParsedProxy) (s : Store) → IsPending parsed (start_reload s)
unfolding get_url
all-IsPending [] s = tt
all-IsPending (p ∷ parsed) s = (refl, all-IsPending parsed s)

-- A reload with pairwise different URLs keeps the list and the map of a pool in agreement, if they
-- were, whether it is applied or finds nothing new.
pub reload-IsIndexed :
    (parsed : List ParsedProxy) (pool : ProxyPool) (s : Store)
    → HasDistinctUrls parsed
    → IsIndexed pool s
    → IsIndexed (reload parsed pool s).0 (reload parsed pool s).1
unfolding reload
reload-IsIndexed parsed pool s d i =
    let r = reload_all pool.by_url parsed (start_reload s) in
    elim (Bool-cases (is_unchanged pool.by_url r)) [
      | inl e ↦ rw e (
          IsIndexed-Extends pool s r.store (reload_all-Extends pool.by_url parsed (start_reload s))
            i)
      | inr e ↦ rw e (
          reload_all-IsIndexed pool.by_url parsed (start_reload s) d (all-IsPending parsed s)
            i.valid (empty-IsIndexed s))
    ]

push_new_entry_pending :
    (p : ParsedProxy) (more : List ParsedProxy) (pool : ProxyPool) (s : Store)
    → NoUrl p.url more
    → All (λ q. get_url q.url pool.by_url ≡ none) more
    → All (λ q. get_url q.url (push_new_entry p pool s).0.by_url ≡ none) more
unfolding push_new_entry
push_new_entry_pending p [] pool s d w = tt
push_new_entry_pending p (q ∷ more) pool s d w = (
  ground (
    arith,
    get_url-put_url p.url q.url (alloc (new_entry p.url p.tags) s).0 pool.by_url,
    text_eq_iff q.url p.url,
    text_eq_iff p.url q.url,
    w.0,
    d.0,
  ),
  push_new_entry_pending p more pool s d.1 w.1,
)

fill-IsIndexed :
    (more : List ParsedProxy) (pool : ProxyPool) (s : Store)
    → HasDistinctUrls more
    → All (λ q. get_url q.url pool.by_url ≡ none) more
    → IsIndexed pool s
    → IsIndexed (fill more pool s).0 (fill more pool s).1
unfolding fill
fill-IsIndexed [] pool s d w i = i
fill-IsIndexed (p ∷ more) pool s d w i =
    fill-IsIndexed more (push_new_entry p pool s).0 (push_new_entry p pool s).1 d.1
      (push_new_entry_pending p more pool s d.0 w.1) (push_new_entry-IsIndexed p pool s i w.0)

-- A pool made from proxies with pairwise different URLs has its list and its map in agreement.
pub new_pool-IsIndexed :
    (parsed : List ParsedProxy) (s : Store)
    → HasDistinctUrls parsed
    → IsIndexed (new_pool parsed s).0 (new_pool parsed s).1
unfolding new_pool
new_pool-IsIndexed parsed s d =
    fill-IsIndexed parsed empty_pool s d (all-IsPending parsed s) (empty-IsIndexed s)
