-- ===== src/Dispatch/Hedged/Flights.antt =====
-- Invariants of the hedged dispatch in intermediate-proxy/src/dispatch/mod.rs.
use proxy_systems.Common.{
  ℕ, zero, suc, ◌+◌, ◌%◌, ◌≤◌, ◌<◌, ◌≡◌, refl, subst, inl, inr, List, [], ◌∷◌, Option, none, some,
  arith, length, length-append, get_elem?, Bool-cases, ltb, ltb→lt, max,
}
use proxy_systems.Common.Text.{Text, has_text}
use proxy_systems.Route.State.{Candidate}
use proxy_systems.Route.Def.{RouteDef}
use proxy_systems.Http.{HeaderApi}
use proxy_systems.Lua.{Hooks}
use proxy_systems.Dispatch.Outcome.{FailedResponse, Request}
use proxy_systems.Dispatch.Attempt.{World, AttemptResult, done, next}
use proxy_systems.Dispatch.Sequential.{Progress}
use proxy_systems.Dispatch.Hedged.{
  HedgeEvent, ends, timer, Flight, Hedge, Iteration, again, over, launch_from, launch, remove_at,
  fire_timer, land, relaunch, on_event, before_launch, won, exhausted,
}

-- A launch adds one flight, or none and then no candidate is left.
launch_from-length :
    (more : List Candidate) (h : Hedge) → length (launch_from more h).flights ≤ length h.flights + 1
unfolding launch_from
launch_from-length [] h = omega arith
launch_from-length (c ∷ more) h =
    elim (Bool-cases (has_text h.progress.tried (h.progress.store.entry c.entry).url)) [
      | inl e ↦ rw e (launch_from-length more (record h { next_number = h.next_number + 1 }))
      | inr e ↦ rw e (
          omega (
            arith,
            length-append h.flights (record { number = h.next_number; entry = c.entry } ∷ []),
          ))
    ]

length-remove_at :
    (n : ℕ) (fs : List Flight) → n < length fs → length (remove_at n fs) + 1 ≡ length fs
unfolding remove_at
length-remove_at zero [] h = absurd (omega arith)
length-remove_at (suc n) [] h = absurd (omega arith)
length-remove_at zero (f ∷ fs) h = omega arith
length-remove_at (suc n) (f ∷ fs) h = omega (arith, length-remove_at n fs)

get_elem?-lt : {A : Type 0} (xs : List A) (n : ℕ) (x : A) → get_elem? xs n ≡ some x → n < length xs
get_elem?-lt [] n x e = cc
get_elem?-lt (y ∷ xs) zero x e = omega arith
get_elem?-lt (y ∷ xs) (suc n) x e = omega (arith, get_elem?-lt xs n x e)

launch-length : (h : Hedge) → length (launch h).flights ≤ length h.flights + 1
unfolding launch
launch-length h = launch_from-length h.waiting h

fire_timer-length :
    (route : RouteDef) (h : Hedge)
    → length h.flights ≤ max route.hedge.max_parallel 1
    → length (fire_timer route h).flights ≤ max route.hedge.max_parallel 1
unfolding fire_timer
fire_timer-length route h b =
    elim (Bool-cases (ltb (length h.flights) (max route.hedge.max_parallel 1))) [
      | inl e ↦ rw e (
          omega
            (arith, launch-length h, ltb→lt (length h.flights) (max route.hedge.max_parallel 1) e))
      | inr e ↦ rw e b
    ]

module _ (api : HeaderApi) where
  open api use {Headers}

  module _ (world : World Headers) (hooks : Hooks) (route : RouteDef) (req : Request Headers)
      (hdr_pairs : List (Text × Text)) (base_headers : Headers) where
    abbrev pub step : HedgeEvent → Hedge → Iteration Headers
    step = on_event api world hooks route req hdr_pairs base_headers

    -- The states of the loop of a hedged dispatch of a plan, at its head.
    pub data Flying (plan : List Candidate) (p : Progress) : Hedge → Type 0 where
      takeoff :
          Flying plan p
            (launch (before_launch api world hooks route req hdr_pairs base_headers plan p))
      later :
          (h h' : Hedge) (event : HedgeEvent)
          → Flying plan p h
          → step event h ≡ again h'
          → Flying plan p h'

    relaunch-length :
        (failed : Option FailedResponse) (h : Hedge)
        → length (relaunch api world hooks route req hdr_pairs base_headers failed h).flights
          ≤ length h.flights + 1
    unfolding relaunch
    relaunch-length failed h = launch-length _

    land-length :
        (place : ℕ) (f : Flight) (h : Hedge)
        → place < length h.flights
        → length (land api world hooks route req hdr_pairs base_headers place f h).1.flights + 1
          ≡ length h.flights
    unfolding land
    land-length place f h b = length-remove_at place h.flights b

    -- What follows the end of a flight.
    landed-length :
        (n : ℕ) (result : AttemptResult Headers) (h h' : Hedge)
        → length h.flights + 1 ≤ n
        → (elim result [
          | done ok ↦ over (won ok) h.progress
          | next failed ↦ again (relaunch api world hooks route req hdr_pairs base_headers failed h)
        ])
          ≡ again h'
        → length h'.flights ≤ n
    landed-length n (done ok) h h' b e = cc
    landed-length n (next failed) h h' b e =
        let same : relaunch api world hooks route req hdr_pairs base_headers failed h ≡ h' = cc in
        subst (λ g. length g.flights ≤ n) same (omega (arith, relaunch-length failed h))

    -- What follows a look at the place of the flight that ends.
    ended-length :
        (n place : ℕ) (found : Option Flight) (h h' : Hedge)
        → length h.flights ≤ n
        → get_elem? h.flights place ≡ found
        → (elim found [
          | none ↦ over exhausted h.progress
          | some f ↦
              let (result, g) = land api world hooks route req hdr_pairs base_headers place f h in
              elim result [
                | done ok ↦ over (won ok) g.progress
                | next failed ↦
                    again (relaunch api world hooks route req hdr_pairs base_headers failed g)
              ]
        ])
          ≡ again h'
        → length h'.flights ≤ n
    ended-length n place none h h' b q e = cc
    ended-length n place (some f) h h' b q e =
        let (result, g) = land api world hooks route req hdr_pairs base_headers place f h in
        let inside : place < length h.flights = get_elem?-lt h.flights place f q in
        landed-length n result g h' (omega (arith, land-length place f h inside)) e

    on_event-length :
        (event : HedgeEvent) (h h' : Hedge)
        → length h.flights ≤ max route.hedge.max_parallel 1
        → step event h ≡ again h'
        → length h'.flights ≤ max route.hedge.max_parallel 1
    unfolding on_event
    on_event-length timer h h' b e =
        let same : fire_timer route h ≡ h' = cc in
        subst (λ g. length g.flights ≤ max route.hedge.max_parallel 1) same
          (fire_timer-length route h b)
    on_event-length (ends i) h h' b e =
        ended-length (max route.hedge.max_parallel 1) (i % length h.flights)
          (get_elem? h.flights (i % length h.flights)) h h' b refl e

    -- A hedged dispatch never has more attempts in flight than `max_parallel`, or one if that is zero.
    pub flights-length :
        (plan : List Candidate) (p : Progress) (h : Hedge)
        → Flying plan p h
        → length h.flights ≤ max route.hedge.max_parallel 1
    flights-length plan p _ takeoff = omega (
      arith,
      launch-length (before_launch api world hooks route req hdr_pairs base_headers plan p),
    )
    flights-length plan p _ (later h h' event f e) =
        on_event-length event h h' (flights-length plan p h f) e
