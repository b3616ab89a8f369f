-- ===== src/Dispatch/Sequential.antt =====
-- intermediate-proxy/src/dispatch/mod.rs, `dispatch_sequential`: the plan, one proxy after another.
pub mod Coverage
use proxy_systems.Common.{ℕ, ◌+◌, List, [], ◌∷◌, ◌++◌, Option, none, some, if◌then◌else◌}
use proxy_systems.Common.Text.{Text, has_text}
use proxy_systems.Proxy.Store.{Addr, Store, modify}
use proxy_systems.Route.Def.{RouteDef}
use proxy_systems.Route.State.{Candidate}
use proxy_systems.Http.{HeaderApi}
use proxy_systems.Lua.{Hooks}
use proxy_systems.Dispatch.Outcome.{FailedResponse, Request}
use proxy_systems.Dispatch.Attempt.{AttemptOk, AttemptResult, done, next, World, run_attempt}

-- What a request changes: the proxies, the number of exchanges so far, the set of tried URLs and the
-- buffered failures.
pub record Progress : Type 0 where
  pub store : Store
  pub tick : ℕ
  pub tried : List Text
  pub failures : List FailedResponse

-- `HashSet::insert`.
unfoldable pub insert_url : Text → List Text → List Text
insert_url u tried = if has_text tried u then tried else u ∷ tried

unfoldable pub push_failure : Option FailedResponse → List FailedResponse → List FailedResponse
push_failure none failures = failures
push_failure (some f) failures = failures ++ f ∷ []

module _ (api : HeaderApi) where
  open api use {Headers}

  module _ (world : World Headers) (hooks : Hooks) (route : RouteDef) (req : Request Headers)
      (hdr_pairs : List (Text × Text)) (base_headers : Headers) where
    -- One attempt, with its effect on the shared record.
    unfoldable pub attempt_at : ℕ → Addr → Progress → AttemptResult Headers × Progress
    attempt_at attempt a p =
        let e = p.store.entry a in
        let (result, e') =
          run_attempt api world hooks route req hdr_pairs base_headers attempt p.tick e in
        (result, record p { store = modify a (λ _. e') p.store; tick = p.tick + 1 })

    unfoldable pub try_candidate : ℕ → Candidate → Progress → AttemptResult Headers × Progress
    try_candidate attempt c p =
        attempt_at attempt c.entry
          (record p { tried = insert_url (p.store.entry c.entry).url p.tried })

    -- `attempt` counts the attempts made so far.
    unfoldable pub dispatch_sequential :
        ℕ → List Candidate → Progress → Option (AttemptOk Headers) × Progress
    dispatch_sequential attempt [] p = (none, p)
    dispatch_sequential attempt (c ∷ plan) p =
        let (result, p') = try_candidate (attempt + 1) c p in
        elim result [
          | done ok ↦ (some ok, p')
          | next failed ↦
              dispatch_sequential (attempt + 1) plan
                (record p' { failures = push_failure failed p'.failures })
        ]
