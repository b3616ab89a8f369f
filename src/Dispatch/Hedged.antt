-- ===== src/Dispatch/Hedged.antt =====
-- intermediate-proxy/src/dispatch/mod.rs, `dispatch_hedged`: attempts in flight side by side. The
-- order in which they end and the timer fires is a schedule; an attempt takes effect when it ends.
pub mod Flights
pub mod Skipped
use proxy_systems.Common.{
  ℕ, zero, suc, ◌+◌, ◌%◌, max, Bool, true, false, List, [], ◌∷◌, ◌++◌, Option, none, some, ltb,
  if◌then◌else◌, length, get_elem?,
}
use proxy_systems.Common.Text.{Text, has_text}
use proxy_systems.Proxy.Store.{Addr, Store}
use proxy_systems.Route.Def.{RouteDef}
use proxy_systems.Route.State.{Candidate}
use proxy_systems.Http.{HeaderApi}
use proxy_systems.Lua.{Hooks}
use proxy_systems.Dispatch.Outcome.{FailedResponse, Request}
use proxy_systems.Dispatch.Attempt.{AttemptOk, AttemptResult, done, next, World, run_attempt}
use proxy_systems.Dispatch.Sequential.{Progress, push_failure, attempt_at}

-- What `select!` sees next: the end of one of the attempts in flight, given by its place among them
-- (counted round), or the timer.
pub data HedgeEvent : Type 0 where
  ends : ℕ → HedgeEvent
  timer : HedgeEvent

-- An attempt in flight: its number in the plan, from 1, and its proxy.
pub record Flight : Type 0 where
  pub number : ℕ
  pub entry : Addr

-- `futs`, the candidates not yet looked at with the number of the first, and the rest of the state.
pub record Hedge : Type 0 where
  pub flights : List Flight
  pub waiting : List Candidate
  pub next_number : ℕ
  pub progress : Progress

pub data HedgeResult (H : Type 0) : Type 0 where
  won : AttemptOk H → HedgeResult H
  exhausted pending : HedgeResult H

-- Whether the loop of `dispatch_hedged` returns or goes round again.
pub data Iteration (H : Type 0) : Type 0 where
  over : HedgeResult H → Progress → Iteration H
  again : Hedge → Iteration H

-- The loop of the closure `launch`: the first candidate whose URL was not tried takes off.
unfoldable pub launch_from : List Candidate → Hedge → Hedge
launch_from [] h = record h { waiting = [] }
launch_from (c ∷ more) h =
    let url = (h.progress.store.entry c.entry).url in
    let later = launch_from more (record h { next_number = h.next_number + 1 }) in
    if has_text h.progress.tried url then later else record {
      flights = h.flights ++ record { number = h.next_number; entry = c.entry } ∷ [];
      waiting = more;
      next_number = h.next_number + 1;
      progress = record (h.progress) { tried = url ∷ h.progress.tried };
    }

unfoldable pub launch : Hedge → Hedge
launch h = launch_from h.waiting h

-- The flight that ends, and those that stay.
unfoldable pub remove_at : ℕ → List Flight → List Flight
remove_at zero [] = []
remove_at (suc n) [] = []
remove_at zero (f ∷ fs) = fs
remove_at (suc n) (f ∷ fs) = f ∷ remove_at n fs

unfoldable pub fire_timer : RouteDef → Hedge → Hedge
fire_timer route h = if ltb (length h.flights) (max route.hedge.max_parallel 1) then launch h else h

module _ (api : HeaderApi) where
  open api use {Headers}

  module _ (world : World Headers) (hooks : Hooks) (route : RouteDef) (req : Request Headers)
      (hdr_pairs : List (Text × Text)) (base_headers : Headers) where
    -- One flight ends.
    unfoldable pub land : ℕ → Flight → Hedge → AttemptResult Headers × Hedge
    land place f h =
        let (result, p') =
          attempt_at api world hooks route req hdr_pairs base_headers f.number f.entry h.progress in
        (result, record h { flights = remove_at place h.flights; progress = p' })

    -- A flight that ended without an answer: its failure is kept and the next candidate takes off.
    unfoldable pub relaunch : Option FailedResponse → Hedge → Hedge
    relaunch failed h = launch (record h {
      progress = record (h.progress) { failures = push_failure failed h.progress.failures };
    })

    -- One round of the loop, with an attempt in flight.
    unfoldable pub on_event : HedgeEvent → Hedge → Iteration Headers
    on_event timer h = again (fire_timer route h)
    on_event (ends i) h = elim (get_elem? h.flights (i % length h.flights)) [
      | none ↦ over exhausted h.progress
      | some f ↦
          let (result, h') = land (i % length h.flights) f h in
          elim result [
            | done ok ↦ over (won ok) h'.progress
            | next failed ↦ again (relaunch failed h')
          ]
    ]

    -- The loop runs while an attempt is in flight; where the schedule ends before it does, the request
    -- is still waiting.
    unfoldable pub fly : List HedgeEvent → Hedge → HedgeResult Headers × Progress
    fly [] h = elim h.flights [ [] ↦ (exhausted, h.progress) | _ ∷ _ ↦ (pending, h.progress) ]
    fly (event ∷ events) h = elim h.flights [
      | [] ↦ (exhausted, h.progress)
      | _ ∷ _ ↦ elim (on_event event h) [ over result p ↦ (result, p) | again h' ↦ fly events h' ]
    ]

    abbrev pub before_launch : List Candidate → Progress → Hedge
    before_launch plan p = record { flights = []; waiting = plan; next_number = 1; progress = p }

    unfoldable pub dispatch_hedged :
        List HedgeEvent → List Candidate → Progress → HedgeResult Headers × Progress
    dispatch_hedged events plan p = fly events (launch (before_launch plan p))
