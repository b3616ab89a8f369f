-- ===== src/Dispatch/Hedged/Skipped.antt =====
-- `dispatch_hedged` in intermediate-proxy/src/dispatch/mod.rs on candidates that were tried before.
use proxy_systems.Common.{◌+◌, ◌≡◌, refl, ◌∙◌, ap, true, List, [], ◌∷◌, All}
use proxy_systems.Common.Text.{Text, has_text}
use proxy_systems.Route.Def.{RouteDef}
use proxy_systems.Route.State.{Candidate}
use proxy_systems.Http.{HeaderApi}
use proxy_systems.Lua.{Hooks}
use proxy_systems.Dispatch.Outcome.{Request}
use proxy_systems.Dispatch.Attempt.{World}
use proxy_systems.Dispatch.Sequential.{Progress}
use proxy_systems.Dispatch.Hedged.{
  HedgeEvent, Hedge, exhausted, launch_from, launch, fly, before_launch, dispatch_hedged,
}

-- A launch skips candidates whose URL was tried.
launch_from_tried :
    (more : List Candidate) (h : Hedge)
    → All (λ c. has_text h.progress.tried (h.progress.store.entry c.entry).url ≡ true) more
    → ((launch_from more h).flights ≡ h.flights) × ((launch_from more h).progress ≡ h.progress)
unfolding launch_from
launch_from_tried [] h t = (refl, refl)
launch_from_tried (c ∷ more) h t =
    rw t.0 (launch_from_tried more (record h { next_number = h.next_number + 1 }) t.1)

module _ (api : HeaderApi) where
  open api use {Headers}

  module _ (world : World Headers) (hooks : Hooks) (route : RouteDef) (req : Request Headers)
      (hdr_pairs : List (Text × Text)) (base_headers : Headers) where
    fly_grounded :
        (events : List HedgeEvent) (h : Hedge)
        → h.flights ≡ []
        → fly api world hooks route req hdr_pairs base_headers events h ≡ (exhausted, h.progress)
    unfolding fly
    fly_grounded [] h e = rw e refl
    fly_grounded (event ∷ events) h e = rw e refl

    -- A hedged dispatch of a plan whose URLs were all tried before makes no attempt and changes
    -- nothing, whatever the health of the proxies is by then.
    pub dispatch_hedged-tried :
        (events : List HedgeEvent) (plan : List Candidate) (p : Progress)
        → All (λ c. has_text p.tried (p.store.entry c.entry).url ≡ true) plan
        → dispatch_hedged api world hooks route req hdr_pairs base_headers events plan p
          ≡ (exhausted, p)
    unfolding dispatch_hedged launch
    dispatch_hedged-tried events plan p t =
        let start : Hedge = before_launch api world hooks route req hdr_pairs base_headers plan p in
        let skipped = launch_from_tried plan start t in
        fly_grounded events (launch_from plan start) skipped.0 ∙ ap (λ q. (exhausted, q)) skipped.1
