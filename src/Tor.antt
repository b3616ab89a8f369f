-- ===== src/Tor.antt =====
-- tor-proxy: the pool of Tor nodes, and the failover over them.
pub mod Pool
pub mod Failover
pub mod Socks5
pub mod Reply
pub mod Tunnel
