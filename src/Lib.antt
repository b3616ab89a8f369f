-- ===== src/Lib.antt =====
-- A model of the proxies of this repository and what holds of them. The repository has four services;
-- the one with a core of its own is intermediate-proxy, which takes a request, picks a route by rules
-- written in Lua, and tries upstream proxies one after another, or several at once, until one answers;
-- tor-proxy does the same over a few Tor nodes; simple-ipv6-proxy sends from random addresses.
--
-- The parts, and the files that model them:
--   Util                intermediate-proxy/src/util.rs: masking of credentials, readers of settings
--   Proxy.Health        intermediate-proxy/src/proxy/entry.rs: RouteState, GlobalStats
--   Proxy.Entry         intermediate-proxy/src/proxy/entry.rs: Entry
--   Proxy.Store         the heap of `Arc<Entry>`: an address is the identity of a shared record
--   Proxy.Loader        intermediate-proxy/src/proxy/loader.rs: parse_proxies
--   Proxy.Pool          intermediate-proxy/src/proxy/mod.rs and watcher.rs: ProxyPool, run_proxy_watcher
--   Route.Def           intermediate-proxy/src/route/config.rs and matcher.rs: the data of a route
--   Route.Matcher       intermediate-proxy/src/route/matcher.rs: matches, glob_to_regex
--   Route.Select        intermediate-proxy/src/route/mod.rs: select_route
--   Route.State         intermediate-proxy/src/route/state.rs: build_plan, order, fallback_pool
--   Route.Config        intermediate-proxy/src/route/config.rs: parse_router_config
--   Route.MatcherParser the same file: parse_matcher
--   Route.Rounds        intermediate-proxy/src/route/prober.rs: the loop with its semaphore, on events
--   Route.Prober        the same file: run_route_prober, run_transport_prober
--   Http, Lua           the data of the HTTP crates and of intermediate-proxy/src/lua/api.rs
--   Lua.Value           the Lua library as an interface: tables, numbers, functions
--   Lua.Verdict         intermediate-proxy/src/lua/api.rs: the parsers of verdicts
--   Lua.Context         the same file: the tables that hooks are given
--   Lua.Pool            intermediate-proxy/src/lua/mod.rs: LuaPool, build, reload, run_routes_watcher
--   Lua.Calls           the same file: pick, and the calls of the hooks
--   Handler             intermediate-proxy/src/handler.rs: proxy_handler, x_target_handler, serve
--   Upstream            intermediate-proxy/src/upstream and forward.rs: the request that goes out
--   Stream.Relay        intermediate-proxy/src/stream.rs: the task of build_streaming_response
--   Stream.Reply        the same file: copy_headers
--   Shared              proxy-common/src: header filters, decode_target, CORS headers
--   Dispatch.Outcome    intermediate-proxy/src/dispatch/mod.rs: default_verdict, buffer_failed
--   Dispatch.Record     the same file: record_success, record_failure
--   Dispatch.Attempt    the same file: run_attempt
--   Dispatch.Sequential the same file: dispatch_sequential
--   Dispatch.Hedged     the same file: dispatch_hedged, as steps on a schedule of events
--   Dispatch.Prepare    the same file: apply_request_mods and the start of run
--   Dispatch.Run        the same file: run, try_fatal
--   Tor.Pool            tor-proxy/src/pool.rs: NodePool
--   Tor.Failover        tor-proxy/src/handler.rs: the loop over the nodes in proxy_handler
--   Tor.Reply           the same file: build_response, resolve_location
--   Tor.Socks5          tor-proxy/src/socks5.rs: socks5_connect
--   Tor.Tunnel          tor-proxy/src/handler.rs before the loop, tunnel.rs and control.rs
--   Dns                 intermediate-proxy/src/dns.rs: DnsCheck
--   Status              intermediate-proxy/src/health.rs: tier_counts and the two details
--   SimpleProxy         simple-proxy/src/handler.rs and redirect.rs
--   Ipv6.Subnet         simple-ipv6-proxy/src/subnet.rs: parse, mask_prefix, random_addr
--   Ipv6.Filter         simple-ipv6-proxy/src/filter.rs: is_blocked_ip
--   Ipv6.Handler        simple-ipv6-proxy/src/handler.rs: proxy_handler, dispatch
--   Common              names, tests, lists, sorting and texts that the parts share
--   Examples            concrete inputs on which the theorems apply
-- The laws of a part stand in its child modules, which are named for what they prove.
--
-- How they interact: the loader gives proxies to the pool, which allots records in the store and hands
-- addresses to a plan; a plan orders the addresses by the health that the records hold for the route;
-- an attempt reads and changes one record; a request runs plans in rounds. A function that changes
-- shared state takes the state and gives the new one.
--
-- Text is a list of code points. Machine integers are natural numbers whose wrap-around is written
-- out, as the release profile has it. The clock, random draws, hashes, the network, regex matching,
-- the Lua hooks and the header map are parameters. An operation of several atomic steps on one record
-- is one step.
--
-- Fuel: scrub_from has the length of its text, of which each round takes at least one character;
-- run_rounds has one more than the cap of hard rounds, and each further round counts one. A hedged
-- dispatch follows a finite schedule of events and says when the schedule ends too early. relay takes
-- one unit for each recovery, and gives no ending when the fuel ends before the task does; a recovery
-- marks a proxy as tried, so one more than the number of URLs that the pool may list is enough.
--
-- Waiting: the body of a reply is the finite list of what it brings up to its end or its error, and a
-- send to the client succeeds or finds the client gone. The program reads bodies (resp.bytes and
-- buffer_failed in dispatch/mod.rs, stream.next in stream.rs) and sends to the client without a limit of
-- time, so a body that falls silent or a client that stops reading holds a request or a task for ever;
-- such a wait is not modelled.
--
-- Not modelled: network and file I/O, TLS, the DNS resolver, the HTTP servers and clients, the making of a
-- Lua machine with its sandbox, the main functions, the client of simple-proxy, and the sockets and
-- settings of simple-ipv6-proxy. Log lines are left out everywhere.
pub mod Common
pub mod Util
pub mod Proxy
pub mod Route
pub mod Http
pub mod Lua
pub mod Dispatch
pub mod Stream
pub mod Shared
pub mod Upstream
pub mod Handler
pub mod SimpleProxy
pub mod Dns
pub mod Status
pub mod Tor
pub mod Ipv6
pub mod Examples
