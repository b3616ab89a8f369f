-- ===== src/Examples.antt =====
-- Concrete inputs on which the theorems apply: a small pool, a route, a request, a network.
mod Fixtures
mod Proxies
mod Plans
mod Requests
mod Dispatches
mod Nodes
mod Addresses
mod Streams
mod Configs
mod Probes
mod Targets
mod Hops
