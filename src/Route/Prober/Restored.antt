-- ===== src/Route/Prober/Restored.antt =====
-- intermediate-proxy/src/route/prober.rs: a probe brings a proxy back.
use proxy_systems.Proxy.Entry.{Entry}
use proxy_systems.Proxy.Store.{Store}
