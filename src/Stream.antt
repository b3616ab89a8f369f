-- ===== src/Stream.antt =====
-- intermediate-proxy/src/stream.rs: the body on its way to the client, and its recovery.
pub mod Relay
pub mod Reply
