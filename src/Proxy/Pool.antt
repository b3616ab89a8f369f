-- ===== src/Proxy/Pool.antt =====
-- intermediate-proxy/src/proxy/mod.rs and watcher.rs: the pool of proxies, its reload from a freshly
-- parsed file, and one round of the watcher of that file. A pool holds addresses into the store.
pub mod Reload
pub mod Indexed
pub mod Retained
use proxy_systems.Common.{
  ℕ, suc, ◌+◌, ◌-◌, Bool, true, false, not, ◌&&◌, List, [], ◌∷◌, ◌++◌, Option, none, some, ◌==◌,
  if◌then◌else◌, length, is_empty,
}
use proxy_systems.Common.Text.{Text, text_eq}
use proxy_systems.Proxy.Entry.{Entry, new_entry, set_tags, is_transport_fatal}
use proxy_systems.Proxy.Store.{Addr, Store, modify, alloc}
use proxy_systems.Proxy.Loader.{ParsedProxy, parse_proxies}

-- The map from URLs: `HashMap::get` and `HashMap::insert`.
unfoldable pub get_url : Text → List (Text × Addr) → Option Addr
get_url u [] = none
get_url u ((k, a) ∷ m) = let rest = get_url u m in if text_eq k u then some a else rest

unfoldable pub put_url : Text → Addr → List (Text × Addr) → List (Text × Addr)
put_url u a [] = (u, a) ∷ []
put_url u a ((k, b) ∷ m) =
    let rest = put_url u a m in if text_eq k u then (k, a) ∷ m else (k, b) ∷ rest

pub record ProxyPool : Type 0 where
  pub entries : List Addr
  pub by_url : List (Text × Addr)

abbrev pub empty_pool : ProxyPool
empty_pool = record { entries = []; by_url = [] }

-- The new entry of a proxy that was not known, in the list and in the map.
unfoldable pub push_new_entry : ParsedProxy → ProxyPool → Store → ProxyPool × Store
push_new_entry p pool s =
    let (a, s') = alloc (new_entry p.url p.tags) s in
    (record { entries = pool.entries ++ a ∷ []; by_url = put_url p.url a pool.by_url }, s')

unfoldable pub fill : List ParsedProxy → ProxyPool → Store → ProxyPool × Store
fill [] pool s = (pool, s)
fill (p ∷ more) pool s = let (pool', s') = push_new_entry p pool s in fill more pool' s'

-- `ProxyPool::new`.
unfoldable pub new_pool : List ParsedProxy → Store → ProxyPool × Store
new_pool parsed s = fill parsed empty_pool s

unfoldable pub find_url : ProxyPool → Text → Option Addr
find_url pool url = get_url url pool.by_url

unfoldable pub pool_len : ProxyPool → ℕ
pool_len pool = length pool.entries

-- Equality of two tag lists.
unfoldable pub tags_eq : List Text → List Text → Bool
tags_eq [] [] = true
tags_eq (a ∷ s) (b ∷ t) = text_eq a b && tags_eq s t
tags_eq _ _ = false

-- The variables of the loop of `reload`.
pub record ReloadState : Type 0 where
  pub fresh : ProxyPool
  pub added : ℕ
  pub retained : ℕ
  pub store : Store

-- `if existing.tags() != p.tags { existing.set_tags(p.tags.clone()) }`.
unfoldable pub update_tags : ParsedProxy → Entry → Entry
update_tags p e = if tags_eq e.tags p.tags then e else set_tags p.tags e

unfoldable pub reload_one : List (Text × Addr) → ParsedProxy → ReloadState → ReloadState
reload_one old p r = elim (get_url p.url old) [
  | some a ↦ record {
    fresh = record { entries = r.fresh.entries ++ a ∷ []; by_url = put_url p.url a r.fresh.by_url };
    added = r.added;
    retained = r.retained + 1;
    store = modify a (update_tags p) r.store;
  }
  | none ↦ record {
    fresh = (push_new_entry p r.fresh r.store).0;
    added = r.added + 1;
    retained = r.retained;
    store = (push_new_entry p r.fresh r.store).1;
  }
]

unfoldable pub reload_all : List (Text × Addr) → List ParsedProxy → ReloadState → ReloadState
reload_all old [] r = r
reload_all old (p ∷ more) r = reload_all old more (reload_one old p r)

abbrev pub start_reload : Store → ReloadState
start_reload s = record { fresh = empty_pool; added = 0; retained = 0; store = s }

-- `added == 0 && removed == 0 && retained == old.len()`.
unfoldable pub is_unchanged : List (Text × Addr) → ReloadState → Bool
is_unchanged old r = r.added == 0 && length old - r.retained == 0 && r.retained == length old

unfoldable pub reload : List ParsedProxy → ProxyPool → Store → ProxyPool × Store
reload parsed pool s =
    let r = reload_all pool.by_url parsed (start_reload s) in
    (if is_unchanged pool.by_url r then pool else r.fresh, r.store)

unfoldable pub count_fatal : List Addr → Store → ℕ
count_fatal [] s = 0
count_fatal (a ∷ more) s =
    let rest = count_fatal more s in if is_transport_fatal (s.entry a) then suc rest else rest

-- `summary`: the size of the pool and the number of its dead proxies.
unfoldable pub summary : ProxyPool → Store → ℕ × ℕ
summary pool s = (pool_len pool, count_fatal pool.entries s)

-- `load_initial`: the content of the file, if it can be read.
unfoldable pub load_initial : Option Text → List ParsedProxy
load_initial none = []
load_initial (some content) = parse_proxies content

-- What a round of the watcher finds: the modification time, or no file; and the content, if it can
-- be read.
pub record Poll : Type 0 where
  pub metadata : Option (Option ℕ)
  pub content : Option Text

pub record Watcher : Type 0 where
  pub last : Option ℕ
  pub pool : ProxyPool
  pub store : Store

unfoldable pub same_mtime : Option ℕ → Option ℕ → Bool
same_mtime none none = true
same_mtime (some a) (some b) = a == b
same_mtime _ _ = false

unfoldable pub apply_proxies : List ParsedProxy → Watcher → Watcher
apply_proxies [] w = w
apply_proxies (p ∷ more) w =
    let (pool', s') = reload (p ∷ more) w.pool w.store in record w { pool = pool'; store = s' }

unfoldable pub apply_content : Option Text → Watcher → Watcher
apply_content none w = w
apply_content (some content) w = apply_proxies (parse_proxies content) w

unfoldable pub poll_mtime : Option ℕ → Option Text → Watcher → Watcher
poll_mtime mtime content w =
    if same_mtime mtime w.last then w else apply_content content (record w { last = mtime })

unfoldable pub watch : Poll → Watcher → Watcher
watch poll w = elim poll.metadata [ none ↦ w | some mtime ↦ poll_mtime mtime poll.content w ]
