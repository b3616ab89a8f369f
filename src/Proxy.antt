-- ===== src/Proxy.antt =====
-- intermediate-proxy/src/proxy: the health records of the upstream proxies, the parser of the
-- proxies file, and the pool that is reloaded from it.
pub mod Health
pub mod Entry
pub mod Store
pub mod Loader
pub mod Pool
