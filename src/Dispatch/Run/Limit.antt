-- ===== src/Dispatch/Run/Limit.antt =====
-- The number of rounds of the loop of `run` in intermediate-proxy/src/dispatch/mod.rs.
use proxy_systems.Common.{ℕ, zero, suc, ◌+◌, ◌≤◌, ◌<◌, ◌≡◌, arith, max}
use proxy_systems.Proxy.Store.{Store}
use proxy_systems.Route.Def.{RouteDef}
use proxy_systems.Http.{HeaderApi}
use proxy_systems.Lua.{Hooks}
use proxy_systems.Dispatch.Outcome.{Request}
use proxy_systems.Dispatch.Attempt.{World}
use proxy_systems.Dispatch.Sequential.{Progress}
use proxy_systems.Dispatch.Hedged.{HedgeResult, won, exhausted, pending}
use proxy_systems.Dispatch.Prepare.{Prepared}
use proxy_systems.Dispatch.Run.{
  Rounds, Round, RoundResult, answered, stopped, goes_on, waits, plan_round, dispatch_any,
  exhausted_verdict, round_result, one_round, first_round,
}
use proxy_systems.Dispatch.Run.Termination.{Leads, on_verdict-Leads}

-- The rounds that a round begins: itself, and those that follow where it goes on.
unfoldable pub count_rounds : {H : Type 0} → (Round → ℕ) → RoundResult H → ℕ
count_rounds later (answered response p) = 1
count_rounds later (stopped p) = 1
count_rounds later (goes_on r) = suc (later r)
count_rounds later waits = 1

-- A round goes on only with one more hard round below the cap.
abbrev GoesOn : {H : Type 0} → ℕ → ℕ → RoundResult H → Type 0
GoesOn cap n (goes_on r) = (r.hard_rounds ≡ n + 1) × (r.hard_rounds < cap)
GoesOn cap n _ = Unit

Leads-GoesOn : {H : Type 0} → (cap n : ℕ) (x : RoundResult H) → Leads cap n x → GoesOn cap n x
Leads-GoesOn cap n (answered response p) l = tt
Leads-GoesOn cap n (stopped p) l = tt
Leads-GoesOn cap n (goes_on r) l = l
Leads-GoesOn cap n waits l = tt

count_rounds-le :
    {H : Type 0}
    → (cap n : ℕ) (later : Round → ℕ) (x : RoundResult H) → GoesOn cap n x
    → ((r : Round) → later r + r.hard_rounds ≤ max (r.hard_rounds + 1) cap)
    → count_rounds later x + n ≤ max (n + 1) cap
unfolding count_rounds
count_rounds-le cap n later (answered response p) g h = omega arith
count_rounds-le cap n later (stopped p) g h = omega arith
count_rounds-le cap n later (goes_on r) g h = omega (arith, g, h r)
count_rounds-le cap n later waits g h = omega arith

module _ (api : HeaderApi) (world : World api.Headers) (hooks : Hooks) (rounds : Rounds)
    (route : RouteDef) (req : Request api.Headers) (prep : Prepared api)
    (max_hard_attempts : ℕ) where
  -- The rounds that the loop begins from a state on, looked at for at most so many rounds.
  unfoldable pub rounds_begun : ℕ → ℕ → Round → ℕ
  rounds_begun zero round r = 0
  rounds_begun (suc n) round r =
      count_rounds (rounds_begun n (round + 1))
        (one_round api world hooks rounds route req prep max_hard_attempts round r)

  round_result-GoesOn :
      (round : ℕ) (r : Round) (result : HedgeResult api.Headers) (p : Progress)
      → GoesOn max_hard_attempts r.hard_rounds
          (round_result api world hooks rounds route req prep max_hard_attempts round r result p)
  unfolding round_result
  round_result-GoesOn round r (won ok) p = tt
  round_result-GoesOn round r pending p = tt
  round_result-GoesOn round r exhausted p =
      let r' = record r { progress = p } in
      Leads-GoesOn max_hard_attempts r.hard_rounds _ (
        on_verdict-Leads api world hooks rounds route req prep max_hard_attempts round r'
          (exhausted_verdict api world hooks rounds route req prep max_hard_attempts round r'))

  one_round-GoesOn :
      (round : ℕ) (r : Round)
      → GoesOn max_hard_attempts r.hard_rounds
          (one_round api world hooks rounds route req prep max_hard_attempts round r)
  unfolding one_round plan_round
  one_round-GoesOn round r =
      let planned = plan_round api world hooks rounds route req prep max_hard_attempts round r in
      let dispatched =
        dispatch_any api world hooks rounds route req prep max_hard_attempts round planned.0
          planned.1.progress in
      round_result-GoesOn round planned.1 dispatched.0 dispatched.1

  rounds_begun-le :
      (n round : ℕ) (r : Round)
      → rounds_begun n round r + r.hard_rounds ≤ max (r.hard_rounds + 1) max_hard_attempts
  unfolding rounds_begun
  rounds_begun-le zero round r = omega arith
  rounds_begun-le (suc n) round r =
      count_rounds-le max_hard_attempts r.hard_rounds _ _ (one_round-GoesOn round r)
        (rounds_begun-le n (round + 1))

  -- However long it is looked at, the loop of a request begins at most `max_hard_attempts` rounds, or one
  -- if that is zero, under every selector: whatever the network answers, the hooks decide and a reload
  -- puts in the pool, a round that is followed by another has counted a hard round. A round itself may
  -- wait without end.
  pub run-rounds_begun :
      (n cursor : ℕ) (s : Store)
      → rounds_begun n 0
          (first_round api world hooks rounds route req prep max_hard_attempts s cursor)
        ≤ max 1 max_hard_attempts
  run-rounds_begun n cursor s = omega (
    arith,
    rounds_begun-le n 0
        (first_round api world hooks rounds route req prep max_hard_attempts s cursor),
  )
