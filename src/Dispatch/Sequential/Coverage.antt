-- ===== src/Dispatch/Sequential/Coverage.antt =====
-- `dispatch_sequential` in intermediate-proxy/src/dispatch/mod.rs tries the whole plan before it fails.
use proxy_systems.Common.{
  ℕ, ◌+◌, ◌≡◌, refl, ap, ◌∙◌, subst, inl, inr, true, List, [], ◌∷◌, Option, none, some, arith,
  length, All, All-weaken, Bool-cases, ◌==◌, ==_iff,
}
use proxy_systems.Common.Text.{Text, has_text, text_eq_refl}
use proxy_systems.Proxy.Entry.{Entry}
use proxy_systems.Proxy.Store.{Addr, Store, modify}
use proxy_systems.Route.Def.{RouteDef}
use proxy_systems.Route.State.{Candidate}
use proxy_systems.Http.{HeaderApi}
use proxy_systems.Lua.{Hooks}
use proxy_systems.Dispatch.Outcome.{FailedResponse, Request}
use proxy_systems.Dispatch.Attempt.{World, AttemptOk, AttemptResult, done, next}
use proxy_systems.Dispatch.Attempt.Effects.{attempt-Keeps}
use proxy_systems.Dispatch.Sequential.{
  Progress, insert_url, push_failure, attempt_at, try_candidate, dispatch_sequential,
}

insert_url-here : (u : Text) (tried : List Text) → has_text (insert_url u tried) u ≡ true
unfolding insert_url has_text
insert_url-here u tried = ground (arith, text_eq_refl u)

insert_url-more :
    (u v : Text) (tried : List Text)
    → has_text tried v ≡ true
    → has_text (insert_url u tried) v ≡ true
unfolding insert_url has_text
insert_url-more u v tried h = ground (arith, h)

-- A write that keeps the URL of its record keeps all URLs.
written-url :
    (a b : Addr) (e : Entry) (s : Store)
    → e.url ≡ (s.entry a).url
    → ((modify a (λ _. e) s).entry b).url ≡ (s.entry b).url
unfolding modify
written-url a b e s h = elim (Bool-cases (a == b)) [
  | inl same ↦ rw same (h ∙ ap (λ k. (s.entry k).url) ((==_iff a b).0 same))
  | inr other ↦ rw other refl
]

module _ (api : HeaderApi) where
  open api use {Headers}

  module _ (world : World Headers) (hooks : Hooks) (route : RouteDef) (req : Request Headers)
      (hdr_pairs : List (Text × Text)) (base_headers : Headers) where
    abbrev pub tries : ℕ → Candidate → Progress → AttemptResult Headers × Progress
    tries = try_candidate api world hooks route req hdr_pairs base_headers

    abbrev pub runs : ℕ → List Candidate → Progress → Option (AttemptOk Headers) × Progress
    runs = dispatch_sequential api world hooks route req hdr_pairs base_headers

    -- What an attempt on a candidate changes for the others.
    record Advances (u : Text) (p p' : Progress) : Type 0 where
      tick : p'.tick ≡ p.tick + 1
      here : has_text p'.tried u ≡ true
      more : (v : Text) → has_text p.tried v ≡ true → has_text p'.tried v ≡ true
      urls : (a : Addr) → (p'.store.entry a).url ≡ (p.store.entry a).url

    try_candidate-Advances :
        (attempt : ℕ) (c : Candidate) (p : Progress)
        → Advances (p.store.entry c.entry).url p (tries attempt c p).1
    unfolding try_candidate attempt_at modify
    try_candidate-Advances attempt c p = record {
      tick = refl;
      here = insert_url-here (p.store.entry c.entry).url p.tried;
      more = λ v. insert_url-more (p.store.entry c.entry).url v p.tried;
      urls = λ a.
          written-url c.entry a _ p.store
            (attempt-Keeps api world hooks route req hdr_pairs base_headers attempt p.tick
              (p.store.entry c.entry)).0.url;
    }

    -- The URLs of the candidates in a store were all tried.
    abbrev pub AllTried : List Candidate → Store → Progress → Type 0
    AllTried plan s p = All (λ c. has_text p.tried (s.entry c.entry).url ≡ true) plan

    -- A dispatch that fails: how many exchanges, and what was tried.
    record Covers (plan : List Candidate) (p p' : Progress) : Type 0 where
      tick : p'.tick ≡ p.tick + length plan
      tried : AllTried plan p.store p'
      more : (v : Text) → has_text p.tried v ≡ true → has_text p'.tried v ≡ true

    Covers-cons :
        (c : Candidate) (plan : List Candidate) (p q p' : Progress)
        → Advances (p.store.entry c.entry).url p q
        → Covers plan q p'
        → Covers (c ∷ plan) p p'
    Covers-cons c plan p q p' a h = record {
      tick = omega (arith, a.tick, h.tick);
      tried = (
        h.more (p.store.entry c.entry).url a.here,
        All-weaken plan (λ d e. subst (λ u. has_text p'.tried u ≡ true) (a.urls d.entry) e) h.tried,
      );
      more = λ v e. h.more v (a.more v e);
    }

    failed-Advances :
        (u : Text) (failed : Option FailedResponse) (p q : Progress)
        → Advances u p q
        → Advances u p (record q { failures = push_failure failed q.failures })
    failed-Advances u failed p q a = record {
      tick = a.tick;
      here = a.here;
      more = a.more;
      urls = a.urls;
    }

    runs-Covers :
        (attempt : ℕ) (plan : List Candidate) (p : Progress)
        → (runs attempt plan p).0 ≡ none
        → Covers plan p (runs attempt plan p).1
    unfolding dispatch_sequential
    runs-Covers attempt [] p e = record { tick = omega arith; tried = tt; more = λ v h. h }
    runs-Covers attempt (c ∷ plan) p e =
        attempted-Covers (tries (attempt + 1) c p).0 (tries (attempt + 1) c p).1
          (try_candidate-Advances (attempt + 1) c p) (λ q. runs-Covers (attempt + 1) plan q) e
      where
        attempted-Covers :
            (result : AttemptResult Headers) (q : Progress)
            → Advances (p.store.entry c.entry).url p q
            → ((r : Progress)
                → (runs (attempt + 1) plan r).0 ≡ none
                → Covers plan r (runs (attempt + 1) plan r).1)
            → let out : Option (AttemptOk Headers) × Progress = elim result [
              | done ok ↦ (some ok, q)
              | next failed ↦
                  runs (attempt + 1) plan (record q { failures = push_failure failed q.failures })
            ] in
              out.0 ≡ none → Covers (c ∷ plan) p out.1
        attempted-Covers (done ok) q a later e = cc
        attempted-Covers (next failed) q a later e =
            let q' = record q { failures = push_failure failed q.failures } in
            Covers-cons c plan p q' _ (failed-Advances _ failed p q a) (later q' e)

    -- Where a sequential dispatch fails, it has made one exchange for each candidate of its plan,
    -- and the URL of each candidate is among the tried ones.
    pub dispatch_sequential-AllTried :
        (attempt : ℕ) (plan : List Candidate) (p : Progress)
        → (dispatch_sequential api world hooks route req hdr_pairs base_headers attempt plan p).0
          ≡ none
        → let p' =
            (dispatch_sequential api world hooks route req hdr_pairs base_headers attempt plan
              p).1 in
          (p'.tick ≡ p.tick + length plan) × AllTried plan p.store p'
    dispatch_sequential-AllTried attempt plan p e =
        ((runs-Covers attempt plan p e).tick, (runs-Covers attempt plan p e).tried)
