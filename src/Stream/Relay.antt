-- ===== src/Stream/Relay.antt =====
-- intermediate-proxy/src/stream.rs, the task of `build_streaming_response`: it passes the chunks of a
-- body on, and where the body breaks it asks other proxies for the rest. The network, the clock, the
-- pool and the client's end of the channel are parameters, asked by the number of the occasion.
pub mod Prefix
pub mod Delivery
pub mod Untried
pub mod Ends
pub mod Asked
use proxy_systems.Common.{
  ℕ, zero, suc, ◌+◌, ◌-◌, Bool, true, false, not, ◌&&◌, ◌||◌, List, [], ◌∷◌, ◌++◌, Option, none,
  some, ltb, leb, ◌==◌, if◌then◌else◌, length, drop,
}
use proxy_systems.Common.Words.{add64}
use proxy_systems.Common.Text.{Text, codes, has_text}
use proxy_systems.Proxy.Health.{RouteState, observe_success, observe_failure}
use proxy_systems.Proxy.Entry.{Entry, on_route}
use proxy_systems.Proxy.Store.{Addr, Store, modify}
use proxy_systems.Proxy.Pool.{ProxyPool, find_url}
use proxy_systems.Route.Def.{RouteDef}
use proxy_systems.Route.State.{entry_tier, is_sidelined, touch}
use proxy_systems.Http.{
  Bytes, HeaderApi, Chunk, got, broken, Reply, Exchange, replied, refused, timed_out,
}
use proxy_systems.Dispatch.Outcome.{show}

-- What the task reads from outside: `now` at an exchange, `break_now` at a break of the stream.
pub record StreamWorld (H : Type 0) : Type 0 where
  pub exchange : ℕ → Entry → H → H → Exchange H
  pub now : ℕ → ℕ
  pub break_now : ℕ → ℕ
  pub elapsed : ℕ → ℕ
  pub pool_at : ℕ → ProxyPool
  pub receives : ℕ → Bool

-- The variables of the task: the bytes on the channel and the number of sends, `total_bytes`,
-- `current_url`, `tried`, the proxies, and the numbers of exchanges and of broken streams.
pub record Relay : Type 0 where
  pub sent : Bytes
  pub sends : ℕ
  pub total : ℕ
  pub current_url : Text
  pub tried : List Text
  pub store : Store
  pub tick : ℕ
  pub breaks : ℕ

-- How the task ends: at the end of a stream, with an error for the client, with no proxy left to
-- resume from, or because the client is gone. The first and the third look the same to the client.
pub data Ending : Type 0 where
  stream_end no_recovery client_gone : Ending
  with_error : Text → Ending

-- Where the loop over the proxies leads: to a stream that goes on, to the end of the task, or nowhere.
pub data Recovery : Type 0 where
  resumed : List Chunk → Relay → Recovery
  hung_up : Relay → Recovery
  exhausted : Relay → Recovery

unfoldable pub start : Text → List Text → Store → Relay
start used_url tried store = record {
  sent = [];
  sends = 0;
  total = 0;
  current_url = used_url;
  tried = tried;
  store = store;
  tick = 0;
  breaks = 0;
}

-- `total_bytes += b.len()`, and the bytes on the channel.
unfoldable pub push_bytes : Bytes → Relay → Relay
push_bytes b r = record r {
  sent = r.sent ++ b;
  sends = r.sends + 1;
  total = add64 r.total (length b);
}

-- The send that finds the receiver dropped: the counter moved, the bytes did not.
unfoldable pub drop_bytes : Bytes → Relay → Relay
drop_bytes b r = record r { total = add64 r.total (length b) }

unfoldable pub on_entry : Addr → (Entry → Entry) → Relay → Relay
on_entry a f r = record r { store = modify a f r.store }

-- `next.global.success_count.fetch_add(1, ..)`.
unfoldable pub count_recovery : Entry → Entry
count_recovery e = record e {
  global = record (e.global) { success_count = add64 e.global.success_count 1 };
}

module _ (api : HeaderApi) where
  open api use {Headers, empty, remove, insert_valid}

  -- `range: bytes={total_bytes}-`.
  unfoldable pub range_headers : ℕ → Headers
  range_headers total =
      insert_valid (codes "range") (codes "bytes=" ++ (show total ++ codes "-")) empty

  unfoldable pub resume_headers : Headers → Headers
  resume_headers h = remove (codes "if-modified-since") (remove (codes "if-none-match") h)

  module _ (world : StreamWorld Headers) (route : RouteDef) (original_headers : Headers) where
    open world use {exchange, now, break_now, elapsed, pool_at, receives}

    -- The loop that skips what the client has of a whole body: `skipped` bytes are skipped so far.
    unfoldable pub skip_sent : ℕ → List Chunk → Relay → Recovery
    skip_sent skipped [] r = resumed [] r
    skip_sent skipped (broken reason ∷ more) r =
        if ltb skipped r.total then resumed more r else resumed (broken reason ∷ more) r
    skip_sent skipped (got c ∷ more) r =
        let further = skip_sent (skipped + length c) more r in
        let keep = drop (r.total - skipped) c in
        if ltb skipped r.total
        then if leb (length c) (r.total - skipped)
          then further
          else if receives r.sends
          then resumed more (push_bytes keep r)
          else hung_up (drop_bytes keep r)
        else resumed (got c ∷ more) r

    -- `if rs == 200 && total_bytes > 0`, and the new stream.
    unfoldable pub take_over : Reply Headers → Text → Relay → Recovery
    take_over reply url r =
        let skipped = skip_sent 0 reply.chunks (record r { current_url = url }) in
        if reply.status == 200 && ltb 0 r.total
        then skipped
        else resumed reply.chunks (record r { current_url = url })

    unfoldable pub observe : ℕ → Option ℕ → Text → Addr → Relay → Relay
    observe at latency reason a r =
        on_entry a (on_route route.id (observe_failure at latency reason route.slow_ms)) r

    -- What one proxy's answer leads to, or nothing: the next proxy is tried with the changed state.
    unfoldable pub judge_resume : Addr → Exchange Headers → Relay → Recovery
    judge_resume a (replied reply) r =
        if reply.status == 206 || reply.status == 200
        then take_over reply (r.store.entry a).url (
            on_entry a
              (λ e.
                count_recovery
                  (on_route route.id (observe_success (now r.tick) (elapsed r.tick)) e))
              r)
        else exhausted (
            observe (now r.tick) (some (elapsed r.tick))
              (codes "recovery status " ++ show reply.status) a r)
    judge_resume a (refused reason connect) r =
        exhausted (observe (now r.tick) none (codes "recovery: " ++ reason) a r)
    judge_resume a timed_out r =
        exhausted (observe (now r.tick) none (codes "recovery timeout") a r)

    unfoldable pub next_tick : Relay → Relay
    next_tick r = record r { tick = r.tick + 1 }

    -- One proxy that is neither banned nor tried: it is marked as tried, and asked for the rest.
    unfoldable pub ask : Addr → Relay → Recovery
    ask a r =
        let marked = record r { tried = (r.store.entry a).url ∷ r.tried } in
        judge_resume a
          (exchange r.tick (r.store.entry a) (resume_headers original_headers)
            (range_headers r.total))
          marked

    unfoldable pub then_next : (Relay → Recovery) → Recovery → Recovery
    then_next later (resumed chunks r) = resumed chunks (next_tick r)
    then_next later (hung_up r) = hung_up (next_tick r)
    then_next later (exhausted r) = later (next_tick r)

    -- `for next in live.iter()`; the clock is read once before the loop.
    unfoldable pub recover : ℕ → List Addr → Relay → Recovery
    recover at [] r = exhausted r
    recover at (a ∷ more) r =
        let (st, s') = touch route a r.store in
        let touched = record r { store = s' } in
        let later = recover at more touched in
        let asked = then_next (recover at more) (ask a touched) in
        if is_sidelined (entry_tier (r.store.entry a) st route at)
        then later
        else if has_text r.tried (r.store.entry a).url
        then later
        else asked

    -- The failure of the proxy in use is recorded where the pool still has it.
    unfoldable pub blame_found : Option Addr → Text → Relay → Relay
    blame_found none reason r = r
    blame_found (some a) reason r =
        observe (break_now r.breaks) none (codes "stream error: " ++ reason) a r

    unfoldable pub blame : Text → Relay → Relay
    blame reason r = blame_found (find_url (pool_at r.breaks) r.current_url) reason r

    unfoldable pub next_break : Relay → Relay
    next_break r = record r { breaks = r.breaks + 1 }

    -- A stream error in a task that may recover.
    unfoldable pub after_break : Text → Relay → Recovery
    after_break reason r =
        recover (break_now r.breaks) (pool_at r.breaks).entries (next_break (blame reason r))

    unfoldable pub settle :
        (List Chunk → Relay → Option Ending × Relay) → Recovery → Option Ending × Relay
    settle again (resumed chunks r) = again chunks r
    settle again (hung_up r) = (some client_gone, r)
    settle again (exhausted r) = (some no_recovery, r)

    module _ (can_recover : Bool) where
      -- The loop of the task. Passing chunks on follows the stream; each recovery takes a unit of fuel.
      -- A stream that stays silent or a client that stops reading would hold the task where it is: the
      -- reads and the sends have no limit of time.
      unfoldable pub relay : ℕ → List Chunk → Relay → Option Ending × Relay
      relay fuel [] r = (some stream_end, r)
      relay fuel (got b ∷ more) r =
          let later = relay fuel more (push_bytes b r) in
          if receives r.sends then later else (some client_gone, drop_bytes b r)
      relay zero (broken reason ∷ more) r =
          if can_recover then (none, r) else (some (with_error reason), r)
      relay (suc fuel) (broken reason ∷ more) r =
          let recovered = settle (relay fuel) (after_break reason r) in
          if can_recover then recovered else (some (with_error reason), r)

      -- The task from its start, on the body of the first reply.
      unfoldable pub stream_body : ℕ → Text → List Text → Store → List Chunk → Option Ending × Relay
      stream_body fuel used_url tried store chunks = relay fuel chunks (start used_url tried store)
