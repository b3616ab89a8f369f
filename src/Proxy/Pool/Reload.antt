-- ===== src/Proxy/Pool/Reload.antt =====
-- The index of the pool of intermediate-proxy/src/proxy/mod.rs: that construction and reload keep
-- the list and the map in agreement, and that a reload keeps the health of the proxies it retains.
use proxy_systems.Common.{
  ◌+◌, ◌≤◌, ◌<◌, ◌≡◌, refl, ◌∙◌, inl, inr, Bool, true, false, ◌||◌, List, [], ◌∷◌, ◌++◌, none, some,
  arith, ◌==◌, if◌then◌else◌, any, All, All-append, All-weaken, Option-cases,
}
use proxy_systems.Common.Text.{Text, text_eq, text_eq_iff, text_eq_refl}
use proxy_systems.Proxy.Entry.{Entry, new_entry, set_tags}
use proxy_systems.Proxy.Store.{Addr, Store, modify, alloc}
use proxy_systems.Proxy.Loader.{ParsedProxy}
use proxy_systems.Proxy.Loader.Laws.{NoUrl}
use proxy_systems.Proxy.Pool.{
  get_url, put_url, ProxyPool, push_new_entry, tags_eq, update_tags, ReloadState, reload_one,
}

pub get_url-put_url :
    (u v : Text) (a : Addr) (m : List (Text × Addr))
    → get_url v (put_url u a m) ≡ (if text_eq u v then some a else get_url v m)
unfolding get_url put_url
get_url-put_url u v a [] = refl
get_url-put_url u v a ((k, b) ∷ m) =
    ground (arith, text_eq_iff k u, text_eq_iff k v, text_eq_iff u v, get_url-put_url u v a m)

-- Every pair of the map points to a proxy in use that has that URL.
abbrev pub IsValidMap : List (Text × Addr) → Store → Type 0
IsValidMap m s = (u : Text) (a : Addr) → get_url u m ≡ some a → (a < s.next) × ((s.entry a).url ≡ u)

abbrev pub has_addr : List Addr → Addr → Bool
has_addr addrs a = any (λ b. b == a) addrs

-- The list and the map of a pool agree: the map finds each listed proxy by its own URL, and finds
-- nothing that is not listed.
pub record IsIndexed (pool : ProxyPool) (s : Store) : Type 0 where
  pub valid : IsValidMap pool.by_url s
  pub found : All (λ a. get_url (s.entry a).url pool.by_url ≡ some a) pool.entries
  pub listed :
      (u : Text) (a : Addr) → get_url u pool.by_url ≡ some a → has_addr pool.entries a ≡ true

-- The store has grown, and no proxy has another URL than before.
pub record Extends (s s' : Store) : Type 0 where
  pub next : s.next ≤ s'.next
  pub url : (a : Addr) → a < s.next → (s'.entry a).url ≡ (s.entry a).url

pub IsValidMap-Extends :
    (m : List (Text × Addr)) (s s' : Store) → Extends s s' → IsValidMap m s → IsValidMap m s'
IsValidMap-Extends m s s' x v u a e =
    (omega (arith, x.next, (v u a e).0), x.url a (v u a e).0 ∙ (v u a e).1)

pub IsIndexed-Extends :
    (pool : ProxyPool) (s s' : Store) → Extends s s' → IsIndexed pool s → IsIndexed pool s'
IsIndexed-Extends pool s s' x i = record {
  valid = IsValidMap-Extends pool.by_url s s' x i.valid;
  found = All-weaken pool.entries (λ a e. rw (x.url a (i.valid (s.entry a).url a e).0) e) i.found;
  listed = i.listed;
}

alloc-Extends : (e : Entry) (s : Store) → Extends s (alloc e s).1
unfolding alloc
alloc-Extends e s = record { next = omega arith; url = λ a h. ground arith }

pub modify-Extends :
    (a : Addr) (f : Entry → Entry) (s : Store)
    → ((e : Entry) → (f e).url ≡ e.url)
    → Extends s (modify a f s)
unfolding modify
modify-Extends a f s h = record { next = omega arith; url = λ b _. ground (arith, h (s.entry b)) }

has_addr-snoc :
    (addrs : List Addr) (b a : Addr) → has_addr (addrs ++ b ∷ []) a ≡ (has_addr addrs a || b == a)
has_addr-snoc [] b a = ground arith
has_addr-snoc (c ∷ addrs) b a = ground (arith, has_addr-snoc addrs b a)

-- A proxy with a URL that the map does not hold joins the list and the map.
module _ (pool : ProxyPool) (s : Store) (u : Text) (a : Addr) where
  abbrev pub joined : ProxyPool
  joined = record { entries = pool.entries ++ a ∷ []; by_url = put_url u a pool.by_url }

  joined-IsIndexed :
      IsIndexed pool s
      → get_url u pool.by_url ≡ none
      → a < s.next
      → (s.entry a).url ≡ u
      → IsIndexed joined s
  joined-IsIndexed i fresh h e = record {
    valid =
        λ v b f. ground (arith, get_url-put_url u v a pool.by_url, text_eq_iff u v, i.valid v b);
    found =
        All-append _ pool.entries (a ∷ [])
          (All-weaken pool.entries
            (λ b f. ground (
              arith,
              get_url-put_url u (s.entry b).url a pool.by_url,
              text_eq_iff u (s.entry b).url,
              kept b,
            ))
            i.found)
          (rw (e, get_url-put_url u u a pool.by_url, text_eq_refl u) refl, tt);
    listed = λ v b f.
        ground
          (arith, get_url-put_url u v a pool.by_url, has_addr-snoc pool.entries a b, i.listed v b);
  }
    where
      kept : (b : Addr) → u ≡ (s.entry b).url → get_url (s.entry b).url pool.by_url ≡ none
      kept b p = rw (← p) fresh

pub push_new_entry-Extends :
    (p : ParsedProxy) (pool : ProxyPool) (s : Store) → Extends s (push_new_entry p pool s).1
unfolding push_new_entry
push_new_entry-Extends p pool s = alloc-Extends (new_entry p.url p.tags) s

pub push_new_entry-IsIndexed :
    (p : ParsedProxy) (pool : ProxyPool) (s : Store)
    → IsIndexed pool s
    → get_url p.url pool.by_url ≡ none
    → IsIndexed (push_new_entry p pool s).0 (push_new_entry p pool s).1
unfolding push_new_entry alloc
push_new_entry-IsIndexed p pool s i fresh =
    joined-IsIndexed pool (alloc (new_entry p.url p.tags) s).1 p.url s.next
      (IsIndexed-Extends pool s _ (alloc-Extends (new_entry p.url p.tags) s) i) fresh
      (unfold alloc in omega arith) (unfold alloc new_entry in ground arith)

pub update_tags-url : (p : ParsedProxy) (e : Entry) → (update_tags p e).url ≡ e.url
unfolding update_tags set_tags
update_tags-url p e = ground arith

tags_eq→eq : (s t : List Text) → tags_eq s t ≡ true → s ≡ t
unfolding tags_eq
tags_eq→eq [] [] e = refl
tags_eq→eq [] (b ∷ t) e = cc
tags_eq→eq (a ∷ s) [] e = cc
tags_eq→eq (a ∷ s) (b ∷ t) e = ground (arith, text_eq_iff a b, tags_eq→eq s t)

-- Only the tags change, and they become those of the file.
pub update_tags_lem : (p : ParsedProxy) (e : Entry) → update_tags p e ≡ set_tags p.tags e
unfolding update_tags set_tags
update_tags_lem p e = ground (arith, tags_eq→eq e.tags p.tags)

-- What a retained proxy leaves, and what a new one leaves.
module _ (old : List (Text × Addr)) (p : ParsedProxy) (r : ReloadState) where
  pub reload_one_known :
      (a : Addr)
      → get_url p.url old ≡ some a
      → reload_one old p r ≡ record {
        fresh = joined r.fresh r.store p.url a;
        added = r.added;
        retained = r.retained + 1;
        store = modify a (update_tags p) r.store;
      }
  unfolding reload_one
  reload_one_known a e = rw (e, reload_one)

  pub reload_one_new :
      get_url p.url old ≡ none
      → reload_one old p r ≡ record {
        fresh = (push_new_entry p r.fresh r.store).0;
        added = r.added + 1;
        retained = r.retained;
        store = (push_new_entry p r.fresh r.store).1;
      }
  unfolding reload_one
  reload_one_new e = rw (e, reload_one)

  pub reload_one-Extends : Extends r.store (reload_one old p r).store
  reload_one-Extends = elim (Option-cases (get_url p.url old)) [
    | inl e ↦ rw (reload_one_new e) (push_new_entry-Extends p r.fresh r.store)
    | inr (a, e) ↦
        rw (reload_one_known a e) (modify-Extends a (update_tags p) r.store (update_tags-url p))
  ]

  pub reload_one-IsIndexed :
      IsValidMap old r.store
      → IsIndexed r.fresh r.store
      → get_url p.url r.fresh.by_url ≡ none
      → IsIndexed (reload_one old p r).fresh (reload_one old p r).store
  reload_one-IsIndexed v i fresh = elim (Option-cases (get_url p.url old)) [
    | inl e ↦ rw (reload_one_new e) (push_new_entry-IsIndexed p r.fresh r.store i fresh)
    | inr (a, e) ↦
        let x = modify-Extends a (update_tags p) r.store (update_tags-url p) in
        rw (reload_one_known a e) (
          joined-IsIndexed r.fresh (modify a (update_tags p) r.store) p.url a
            (IsIndexed-Extends r.fresh r.store _ x i) fresh
            (IsValidMap-Extends old r.store _ x v p.url a e).0
            (IsValidMap-Extends old r.store _ x v p.url a e).1)
  ]

  -- The URL joins the new map, at the old address if there is one; other URLs are not touched.
  pub reload_one-get_url :
      (u : Text)
      → text_eq p.url u ≡ false
      → get_url u (reload_one old p r).fresh.by_url ≡ get_url u r.fresh.by_url
  unfolding push_new_entry
  reload_one-get_url u h = elim (Option-cases (get_url p.url old)) [
    | inl e ↦ rw (reload_one_new e) (
        ground (
          arith,
          get_url-put_url p.url u (alloc (new_entry p.url p.tags) r.store).0 r.fresh.by_url,
        ))
    | inr (a, e) ↦
        rw (reload_one_known a e) (ground (arith, get_url-put_url p.url u a r.fresh.by_url))
  ]

-- Nothing that is still to come is in the new map yet.
abbrev pub IsPending : List ParsedProxy → ReloadState → Type 0
IsPending more r = All (λ q. get_url q.url r.fresh.by_url ≡ none) more

pub reload_one-IsPending :
    (old : List (Text × Addr)) (p : ParsedProxy) (more : List ParsedProxy) (r : ReloadState)
    → NoUrl p.url more
    → IsPending more r
    → IsPending more (reload_one old p r)
reload_one-IsPending old p [] r d h = tt
reload_one-IsPending old p (q ∷ more) r d h = (
  reload_one-get_url old p r q.url
        (ground (arith, text_eq_iff q.url p.url, text_eq_iff p.url q.url))
      ∙ h.0,
  reload_one-IsPending old p more r d.1 h.1,
)
