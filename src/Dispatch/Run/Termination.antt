-- ===== src/Dispatch/Run/Termination.antt =====
-- The fuel of the loop of `run` in intermediate-proxy/src/dispatch/mod.rs is enough.
use proxy_systems.Common.{
  ℕ, zero, suc, ◌+◌, ◌≤◌, ◌<◌, ◌≡◌, refl, ◌≢◌, inl, inr, List, [], ◌∷◌, Option, none, some, arith,
  leb, Bool-cases,
}
use proxy_systems.Common.Text.{Text}
use proxy_systems.Proxy.Store.{Store}
use proxy_systems.Route.Def.{RouteDef, Selector}
use proxy_systems.Route.State.{Candidate}
use proxy_systems.Http.{HeaderApi}
use proxy_systems.Lua.{Hooks, ExhaustedVerdict, try_fatal, retry_all, wait_probe, return_error}
use proxy_systems.Dispatch.Outcome.{Request}
use proxy_systems.Dispatch.Attempt.{World}
use proxy_systems.Dispatch.Sequential.{Progress}
use proxy_systems.Dispatch.Hedged.{HedgeResult, won, exhausted, pending}
use proxy_systems.Dispatch.Prepare.{Prepared}
use proxy_systems.Dispatch.Run.{
  Response, Rounds, Round, RoundResult, answered, stopped, goes_on, waits, RunResult, finished,
  plan_round, dispatch_plan, dispatch_any, next_round, on_verdict, exhausted_verdict, round_result,
  one_round, conclude, run_rounds, first_round, run,
}

-- Where a round may lead: to an answer, to the end of the loop, or to one more hard round below the
-- cap.
abbrev pub Leads : {H : Type 0} → ℕ → ℕ → RoundResult H → Type 0
Leads cap n (answered response p) = Unit
Leads cap n (stopped p) = Unit
Leads cap n (goes_on r) = (r.hard_rounds ≡ n + 1) × (r.hard_rounds < cap)
Leads cap n waits = ⊥

module _ (api : HeaderApi) where
  open api use {Headers}

  module _ (world : World Headers) (hooks : Hooks) (rounds : Rounds) (route : RouteDef)
      (req : Request Headers) (prep : Prepared api) (max_hard_attempts : ℕ) where
    next_round-Leads :
        (r : Round) (tried : List Text)
        → Leads max_hard_attempts r.hard_rounds
            (next_round api world hooks rounds route req prep max_hard_attempts r tried)
    unfolding next_round
    next_round-Leads r tried = elim (Bool-cases (leb max_hard_attempts (r.hard_rounds + 1))) [
      | inl e ↦ rw e tt
      | inr e ↦ rw e (refl, ground arith)
    ]

    pub on_verdict-Leads :
        (round : ℕ) (r : Round) (v : ExhaustedVerdict)
        → Leads max_hard_attempts r.hard_rounds
            (on_verdict api world hooks rounds route req prep max_hard_attempts round r v)
    unfolding on_verdict
    on_verdict-Leads round r try_fatal = answer_or_stop _ _
      where
        answer_or_stop :
            (answer : Option (Response Headers)) (p : Progress)
            → Leads max_hard_attempts r.hard_rounds
                (elim answer [ some response ↦ answered response p | none ↦ stopped p ])
        answer_or_stop none p = tt
        answer_or_stop (some response) p = tt
    on_verdict-Leads round r retry_all = next_round-Leads r []
    on_verdict-Leads round r (wait_probe timeout_ms) = next_round-Leads r r.progress.tried
    on_verdict-Leads round r (return_error status body) = tt

    -- The dispatch of a round has a result, whatever its plan and the state.
    abbrev pub Settles : ℕ → Type 0
    Settles round =
        (plan : List Candidate) (p : Progress)
        → (dispatch_any api world hooks rounds route req prep max_hard_attempts round plan p).0
          ≢ pending

    round_result-Leads :
        (round : ℕ) (r : Round) (result : HedgeResult Headers) (p : Progress)
        → result ≢ pending
        → Leads max_hard_attempts r.hard_rounds
            (round_result api world hooks rounds route req prep max_hard_attempts round r result p)
    unfolding round_result
    round_result-Leads round r (won ok) p n = tt
    round_result-Leads round r exhausted p n =
        let r' = record r { progress = p } in
        on_verdict-Leads round r'
          (exhausted_verdict api world hooks rounds route req prep max_hard_attempts round r')
    round_result-Leads round r pending p n = absurd (n refl)

    one_round-Leads :
        (round : ℕ) (r : Round)
        → Settles round
        → Leads max_hard_attempts r.hard_rounds
            (one_round api world hooks rounds route req prep max_hard_attempts round r)
    unfolding one_round plan_round
    one_round-Leads round r h =
        let planned = plan_round api world hooks rounds route req prep max_hard_attempts round r in
        let dispatched =
          dispatch_any api world hooks rounds route req prep max_hard_attempts round planned.0
            planned.1.progress in
        round_result-Leads round planned.1 dispatched.0 dispatched.1
          (h planned.0 planned.1.progress)

    conclude-finished :
        (loop : Round → RunResult Headers) (n : ℕ) (result : RoundResult Headers)
        → Leads max_hard_attempts n result
        → ((r : Round)
            → r.hard_rounds ≡ n + 1
            → r.hard_rounds < max_hard_attempts
            → (response : Response Headers) × (loop r ≡ finished response))
        → (response : Response Headers) × (conclude api world hooks rounds route req prep
              max_hard_attempts loop result
            ≡ finished response)
    unfolding conclude
    conclude-finished loop n (answered response p) l h = (response, refl)
    conclude-finished loop n (stopped p) l h = (_, refl)
    conclude-finished loop n (goes_on r) l h = h r l.0 l.1
    conclude-finished loop n waits l h = absurd l

    run_rounds-finished :
        (fuel round : ℕ) (r : Round)
        → ((n : ℕ) → Settles n)
        → r.hard_rounds ≤ max_hard_attempts
        → max_hard_attempts < r.hard_rounds + fuel
        → (response : Response Headers) × (run_rounds api world hooks rounds route req prep
              max_hard_attempts fuel round r
            ≡ finished response)
    unfolding run_rounds
    run_rounds-finished zero round r h le lt = absurd (omega arith)
    run_rounds-finished (suc fuel) round r h le lt =
        conclude-finished _ r.hard_rounds _ (one_round-Leads round r (h round))
          (λ r' e below. run_rounds-finished fuel (round + 1) r' h (omega arith) (omega (arith, e)))

    sequential_settles :
        (round : ℕ) (sel : Selector)
        → sel ≢ Selector.hedge
        → (plan : List Candidate) (p : Progress)
        → (dispatch_plan api world hooks rounds route req prep max_hard_attempts round sel plan p).0
          ≢ pending
    unfolding dispatch_plan
    sequential_settles round Selector.hedge h plan p = absurd (h refl)
    sequential_settles round _ h plan p = ground arith

    dispatch_any-ne-pending : route.selector ≢ Selector.hedge → (round : ℕ) → Settles round
    unfolding dispatch_any
    dispatch_any-ne-pending h round [] p = λ e. cc
    dispatch_any-ne-pending h round (c ∷ plan) p =
        sequential_settles round route.selector h (c ∷ plan) p

    -- On a route that is not hedged, and with bodies that each end or break, the fuel for one round more
    -- than `max_hard_attempts` is enough for a response.
    run-finished :
        (s : Store) (cursor : ℕ)
        → route.selector ≢ Selector.hedge
        → (response : Response Headers) × (run api world hooks rounds route req prep
              max_hard_attempts s cursor
            ≡ finished response)
    unfolding run
    run-finished s cursor h =
        run_rounds-finished (suc max_hard_attempts) 0
          (first_round api world hooks rounds route req prep max_hard_attempts s cursor)
          (dispatch_any-ne-pending h) (omega arith) (omega arith)
