-- ===== src/Proxy/Store.antt =====
-- The store of `Arc<Entry>` objects: an address is the identity of one proxy record, which the pool,
-- the snapshots and the requests in flight share.
pub mod Laws
use proxy_systems.Common.{ℕ, suc, Bool, List, [], ◌∷◌, ◌==◌, if◌then◌else◌}
use proxy_systems.Proxy.Entry.{Entry}

abbrev pub Addr : Type 0
Addr = ℕ

-- Addresses below `next` are in use.
pub record Store : Type 0 where
  pub entry : Addr → Entry
  pub next : Addr

-- A call through a pointer that changes the record.
unfoldable pub modify : Addr → (Entry → Entry) → Store → Store
modify a f s = record s { entry = λ b. if a == b then f (s.entry b) else s.entry b }

-- `Arc::new`.
unfoldable pub alloc : Entry → Store → Addr × Store
alloc e s =
    (s.next, record { entry = λ b. if s.next == b then e else s.entry b; next = suc s.next })
