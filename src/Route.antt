-- ===== src/Route.antt =====
-- intermediate-proxy/src/route: the routes, and the ordered attempt plan of a route.
pub mod Def
pub mod State
pub mod Matcher
pub mod Select
pub mod MatcherParser
pub mod Config
pub mod Rounds
pub mod Prober
