-- ===== src/Ipv6.antt =====
-- simple-ipv6-proxy: the subnet from which outgoing addresses are drawn, and the filter of targets.
pub mod Subnet
pub mod Filter
pub mod Handler
