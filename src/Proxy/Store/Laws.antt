-- ===== src/Proxy/Store/Laws.antt =====
-- Reads after writes in the store of proxy records.
use proxy_systems.Common.{◌<◌, ◌≡◌, refl, arith, ◌==◌, if◌then◌else◌}
use proxy_systems.Proxy.Entry.{Entry}
use proxy_systems.Proxy.Store.{Addr, Store, modify, alloc}

pub entry-modify :
    (a b : Addr) (f : Entry → Entry) (s : Store)
    → (modify a f s).entry b ≡ (if a == b then f (s.entry b) else s.entry b)
unfolding modify
entry-modify a b f s = refl

pub entry-modify_self :
    (a : Addr) (f : Entry → Entry) (s : Store) → (modify a f s).entry a ≡ f (s.entry a)
unfolding modify
entry-modify_self a f s = ground arith

pub entry-alloc_old :
    (b : Addr) (e : Entry) (s : Store) → b < s.next → (alloc e s).1.entry b ≡ s.entry b
unfolding alloc
entry-alloc_old b e s h = ground arith

pub entry-alloc_new : (e : Entry) (s : Store) → (alloc e s).1.entry (alloc e s).0 ≡ e
unfolding alloc
entry-alloc_new e s = ground arith
