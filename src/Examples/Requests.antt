-- ===== src/Examples/Requests.antt =====
-- The theorems on attempts and requests, at a request through the two proxies.
use proxy_systems.Common.{
  ℕ, ◌≡◌, refl, true, List, [], ◌∷◌, ◌++◌, some, ◌==◌, if◌then◌else◌, length, take, ◌≤◌, max, arith,
}
use proxy_systems.Common.Text.{codes}
use proxy_systems.Proxy.Entry.{Entry, new_entry}
use proxy_systems.Proxy.Entry.Laws.{health}
use proxy_systems.Route.Def.{RouteDef, Selector}
use proxy_systems.Http.{Chunk, got, broken, replied, timed_out}
use proxy_systems.Dispatch.Outcome.{failed_body_cap, buffer_chunks}
use proxy_systems.Dispatch.Outcome.Bounds.{stream_bytes, buffer_chunks-take}
use proxy_systems.Dispatch.Record.{record_success, record_failure}
use proxy_systems.Dispatch.Record.Laws.{SameProxy}
use proxy_systems.Dispatch.Record.Fields.{
  after_success, after_failure, total_success, total_failure, record_success-fields,
  record_failure-fields,
}
use proxy_systems.Dispatch.Attempt.{AttemptResult, run_attempt}
use proxy_systems.Dispatch.Attempt.Recorded.{Recorded, run_attempt-Recorded}
use proxy_systems.Dispatch.Attempt.Effects.{run_attempt-SameProxy, run_attempt-alive}
use proxy_systems.Dispatch.Run.{first_round}
use proxy_systems.Dispatch.Prepare.{prepare}
use proxy_systems.Dispatch.Run.Limit.{rounds_begun, run-rounds_begun}
use proxy_systems.Examples.Fixtures.{
  first_url, eu, two_store, route_with, pair_headers, a_reply, world_of, some_hooks, a_request,
  some_rounds,
}

abbrev turns : RouteDef
turns = route_with Selector.round_robin

abbrev first_proxy : Entry
first_proxy = new_entry first_url (eu ∷ [])

run-rounds_begun_example :
    rounds_begun pair_headers
      (world_of timed_out)
      some_hooks
      some_rounds
      turns
      a_request
      (prepare pair_headers some_hooks turns a_request)
      4
      9
      0
      (first_round pair_headers
        (world_of timed_out)
        some_hooks
        some_rounds
        turns
        a_request
        (prepare pair_headers some_hooks turns a_request)
        4
        two_store
        0)
    ≤ max 1 4
run-rounds_begun_example =
    run-rounds_begun pair_headers (world_of timed_out) some_hooks some_rounds turns a_request
      (prepare pair_headers some_hooks turns a_request) 4 9 0 two_store

run_attempt-SameProxy_example :
    SameProxy first_proxy
      (run_attempt pair_headers
        (world_of (replied a_reply))
        some_hooks
        turns
        a_request
        []
        []
        1
        0
        first_proxy).1
    × (health 7
          (run_attempt pair_headers
            (world_of (replied a_reply))
            some_hooks
            turns
            a_request
            []
            []
            1
            0
            first_proxy).1
        ≡ health 7 first_proxy)
run_attempt-SameProxy_example =
    run_attempt-SameProxy pair_headers (world_of (replied a_reply)) some_hooks turns a_request [] []
      1 0 first_proxy 7 refl

-- The attempt that runs out of time.
abbrev timed_out_attempt : AttemptResult pair_headers.Headers × Entry
timed_out_attempt =
    run_attempt pair_headers (world_of timed_out) some_hooks turns a_request [] [] 1 0 first_proxy

run_attempt-Recorded_example :
    Recorded pair_headers
      (world_of timed_out)
      some_hooks
      turns
      a_request
      []
      []
      0
      first_proxy
      timed_out_attempt.0
      timed_out_attempt.1
run_attempt-Recorded_example =
    run_attempt-Recorded pair_headers (world_of timed_out) some_hooks turns a_request [] [] 1 0
      first_proxy

run_attempt-alive_example :
    (run_attempt pair_headers
      (world_of (replied a_reply))
      some_hooks
      turns
      a_request
      []
      []
      1
      0
      first_proxy).1.transport_fatal
    ≡ first_proxy.transport_fatal
run_attempt-alive_example =
    run_attempt-alive pair_headers (world_of (replied a_reply)) some_hooks turns a_request [] [] 1 0
      first_proxy a_reply refl refl

abbrev failed_proxy : Entry
failed_proxy = record_failure 1000 turns (some 40) (codes "refused") (some 60000) true first_proxy

record_failure-fields_example :
    SameProxy first_proxy failed_proxy
    × (failed_proxy.transport_fatal ≡ (if true then true else first_proxy.transport_fatal))
    × (failed_proxy.global ≡ total_failure 1000 first_proxy.global)
    × (health 0 failed_proxy ≡ (
        if 0 == 0
        then after_failure 1000 500 (some 40) (codes "refused") (some 60000) (health 0 first_proxy)
        else health 0 first_proxy))
record_failure-fields_example =
    record_failure-fields 1000 turns 0 (some 40) (codes "refused") (some 60000) true first_proxy

record_success-fields_example :
    SameProxy failed_proxy (record_success 2000 0 20 failed_proxy)
    × ((record_success 2000 0 20 failed_proxy).transport_fatal ≡ failed_proxy.transport_fatal)
    × ((record_success 2000 0 20 failed_proxy).global ≡ total_success 2000 failed_proxy.global)
    × (health 0 (record_success 2000 0 20 failed_proxy)
        ≡ (if 0 == 0 then after_success 2000 20 (health 0 failed_proxy) else health 0 failed_proxy))
record_success-fields_example = record_success-fields 2000 0 0 20 failed_proxy

-- A stream that breaks behind its first chunk.
abbrev broken_stream : List Chunk
broken_stream = got (codes "busy") ∷ broken (codes "reset") ∷ got (codes "lost") ∷ []

empty_fits : length {A = ℕ} [] ≤ failed_body_cap
empty_fits = omega arith

buffer_chunks-take_example :
    buffer_chunks [] broken_stream ≡ take failed_body_cap ([] ++ stream_bytes broken_stream)
buffer_chunks-take_example = buffer_chunks-take [] broken_stream empty_fits
