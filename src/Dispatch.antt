-- ===== src/Dispatch.antt =====
-- intermediate-proxy/src/dispatch/mod.rs: one request through the proxies of its route.
pub mod Outcome
pub mod Attempt
pub mod Record
pub mod Sequential
pub mod Hedged
pub mod Prepare
pub mod Run
