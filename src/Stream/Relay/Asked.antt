-- ===== src/Stream/Relay/Asked.antt =====
-- intermediate-proxy/src/stream.rs: how many requests the recoveries of one task send.
use proxy_systems.Common.{
  ℕ, zero, suc, ◌+◌, ◌-◌, ◌≤◌, ◌<◌, ◌≡◌, refl, sym, subst, inl, inr, Bool, true, false, ◌&&◌, ◌||◌,
  List, [], ◌∷◌, Option, none, some, ltb, leb, ◌==◌, length, arith, Bool-cases, All,
}
use proxy_systems.Common.Text.{Text, has_text}
use proxy_systems.Proxy.Entry.{on_route}
use proxy_systems.Proxy.Store.{Addr, Store}
use proxy_systems.Route.Def.{RouteDef}
use proxy_systems.Route.State.{entry_tier, is_sidelined, touch}
use proxy_systems.Http.{HeaderApi, Chunk, got, broken, Reply, Exchange, replied, refused, timed_out}
use proxy_systems.Stream.Relay.Untried.{
  untried, untried-new, untried_all, Named, Named-modify, route_state-url,
}
use proxy_systems.Stream.Relay.{
  StreamWorld, Relay, Ending, Recovery, resumed, hung_up, exhausted, count_recovery, push_bytes,
  drop_bytes, on_entry, skip_sent, take_over, observe, judge_resume, next_tick, ask, then_next,
  recover, start, stream_body, blame, blame_found, next_break, after_break, settle, relay,
}

-- What holds of the state in which a recovery leaves the task.
abbrev Leaves : (Relay → Type 0) → Recovery → Type 0
Leaves P (resumed chunks r) = P r
Leaves P (hung_up r) = P r
Leaves P (exhausted r) = P r

module _ (api : HeaderApi) (world : StreamWorld api.Headers) (route : RouteDef)
    (original_headers : api.Headers) (names : Addr → Text) (universe : List Text) where
  -- The requests sent so far and the URLs that are not tried are together fewer than `bound`.
  abbrev Spent : ℕ → Relay → Type 0
  Spent bound r = Named names r.store × (r.tick + untried universe r.tried < bound)

  skip_sent-Spent :
      (bound skipped : ℕ) (chunks : List Chunk) (r : Relay)
      → Spent bound r
      → Leaves (Spent bound) (skip_sent api world route original_headers skipped chunks r)
  unfolding skip_sent push_bytes drop_bytes
  skip_sent-Spent bound skipped [] r p = p
  skip_sent-Spent bound skipped (broken reason ∷ more) r p =
      elim (Bool-cases (ltb skipped r.total)) [ inl e ↦ rw e p | inr e ↦ rw e p ]
  skip_sent-Spent bound skipped (got c ∷ more) r p = elim (Bool-cases (ltb skipped r.total)) [
    | inr e ↦ rw e p
    | inl e ↦ elim (Bool-cases (leb (length c) (r.total - skipped))) [
      | inl f ↦ rw (e, f) (skip_sent-Spent bound (skipped + length c) more r p)
      | inr f ↦ elim (Bool-cases (world.receives r.sends)) [
        | inl g ↦ rw (e, f, g) p
        | inr g ↦ rw (e, f, g) p
      ]
    ]
  ]

  take_over-Spent :
      (bound : ℕ) (reply : Reply api.Headers) (url : Text) (r : Relay)
      → Spent bound r
      → Leaves (Spent bound) (take_over api world route original_headers reply url r)
  unfolding take_over
  take_over-Spent bound reply url r p = elim (Bool-cases (reply.status == 200 && ltb 0 r.total)) [
    | inl e ↦ rw e (skip_sent-Spent bound 0 reply.chunks (record r { current_url = url }) p)
    | inr e ↦ rw e p
  ]

  judge_resume-Spent :
      (bound : ℕ) (a : Addr) (x : Exchange api.Headers) (r : Relay)
      → Spent bound r
      → Leaves (Spent bound) (judge_resume api world route original_headers a x r)
  unfolding judge_resume on_entry observe on_route count_recovery
  judge_resume-Spent bound a (refused reason connect) r (n, l) =
      (Named-modify names a _ r.store (λ e. refl) n, l)
  judge_resume-Spent bound a timed_out r (n, l) = (Named-modify names a _ r.store (λ e. refl) n, l)
  judge_resume-Spent bound a (replied reply) r (n, l) =
      elim (Bool-cases (reply.status == 206 || reply.status == 200)) [
        | inl e ↦
            rw e (take_over-Spent bound reply _ _ (Named-modify names a _ r.store (λ e. refl) n, l))
        | inr e ↦ rw e (Named-modify names a _ r.store (λ e. refl) n, l)
      ]

  -- An exchange counts as one request.
  then_next-Spent :
      (bound : ℕ) (later : Relay → Recovery) (x : Recovery)
      → ((r : Relay) → Spent (suc bound) r → Leaves (Spent (suc bound)) (later r))
      → Leaves (Spent bound) x
      → Leaves (Spent (suc bound)) (then_next api world route original_headers later x)
  unfolding then_next next_tick
  then_next-Spent bound later (resumed chunks r) f (n, l) = (n, omega (arith, l))
  then_next-Spent bound later (hung_up r) f (n, l) = (n, omega (arith, l))
  then_next-Spent bound later (exhausted r) f (n, l) =
      f (record r { tick = r.tick + 1 }) (n, omega (arith, l))

  -- A proxy that was not tried is one less to try.
  fewer :
      (a : Addr) (bound : ℕ) (r : Relay)
      → Named names r.store
      → has_text universe (names a) ≡ true
      → has_text r.tried (names a) ≡ false
      → r.tick + untried universe r.tried < suc bound
      → r.tick + untried universe ((r.store.entry a).url ∷ r.tried) < bound
  fewer a bound r n known new l =
      let less : r.tick + untried universe (names a ∷ r.tried) < bound =
        omega (arith, untried-new universe (names a) r.tried known new, l) in
      subst (λ u. r.tick + untried universe (u ∷ r.tried) < bound) (sym (n a)) less

  ask-Spent :
      (bound : ℕ) (a : Addr) (r : Relay)
      → Named names r.store
      → r.tick + untried universe ((r.store.entry a).url ∷ r.tried) < bound
      → Leaves (Spent bound) (ask api world route original_headers a r)
  unfolding ask
  ask-Spent bound a r n l =
      judge_resume-Spent bound a _ (record r { tried = (r.store.entry a).url ∷ r.tried }) (n, l)

  recover-Spent :
      (bound at : ℕ) (entries : List Addr) (r : Relay)
      → All (λ a. has_text universe (names a) ≡ true) entries
      → Spent (suc bound) r
      → Leaves (Spent (suc bound)) (recover api world route original_headers at entries r)
  unfolding recover touch
  recover-Spent bound at [] r known p = p
  recover-Spent bound at (a ∷ more) r (here, known) (n, l) =
      let touched = record r { store = (touch route a r.store).1 } in
      let n' : Named names touched.store =
        Named-modify names a _ r.store (route_state-url route.id) n in
      let later = recover-Spent bound at more touched known (n', l) in
      elim (Bool-cases
        (is_sidelined (entry_tier (r.store.entry a) (touch route a r.store).0 route at))) [
          | inl e ↦ rw e later
          | inr e ↦ elim (Bool-cases (has_text r.tried (r.store.entry a).url)) [
            | inl f ↦ rw (e, f) later
            | inr f ↦
                let new : has_text r.tried (names a) ≡ false =
                  subst (λ u. has_text r.tried u ≡ false) (n a) f in
                rw (e, f)
                  (then_next-Spent bound _ _ (λ r' p. recover-Spent bound at more r' known p)
                    (ask-Spent bound a touched n' (fewer a bound touched n' here new l)))
          ]
        ]

  blame_found-Spent :
      (bound : ℕ) (found : Option Addr) (reason : Text) (r : Relay)
      → Spent bound r
      → Spent bound (blame_found api world route original_headers found reason r)
  unfolding blame_found observe on_entry on_route
  blame_found-Spent bound none reason r p = p
  blame_found-Spent bound (some a) reason r (n, l) =
      (Named-modify names a _ r.store (λ e. refl) n, l)

  settle-Spent :
      (bound : ℕ) (again : List Chunk → Relay → Option Ending × Relay) (x : Recovery)
      → ((chunks : List Chunk) (r : Relay) → Spent bound r → Spent bound (again chunks r).1)
      → Leaves (Spent bound) x
      → Spent bound (settle api world route original_headers again x).1
  unfolding settle
  settle-Spent bound again (resumed chunks r) f p = f chunks r p
  settle-Spent bound again (hung_up r) f p = p
  settle-Spent bound again (exhausted r) f p = p

  module _ (can_recover : Bool)
      (known : (k : ℕ)
        → All (λ a. has_text universe (names a) ≡ true) (world.pool_at k).entries) where
    relay-Spent :
        (bound fuel : ℕ) (chunks : List Chunk) (r : Relay)
        → Spent (suc bound) r
        → Spent (suc bound) (relay api world route original_headers can_recover fuel chunks r).1
    unfolding relay after_break blame next_break push_bytes drop_bytes
    relay-Spent bound fuel [] r p = p
    relay-Spent bound fuel (got c ∷ more) r p = elim (Bool-cases (world.receives r.sends)) [
      | inl e ↦ rw e (relay-Spent bound fuel more (push_bytes c r) p)
      | inr e ↦ rw e p
    ]
    relay-Spent bound zero (broken reason ∷ more) r p = elim (Bool-cases can_recover) [
      | inl e ↦ rw e p
      | inr e ↦ rw e p
    ]
    relay-Spent bound (suc fuel) (broken reason ∷ more) r p = elim (Bool-cases can_recover) [
      | inr e ↦ rw e p
      | inl e ↦ rw e (
          settle-Spent (suc bound) _ _ (λ chunks r' q. relay-Spent bound fuel chunks r' q)
            (recover-Spent bound _ (world.pool_at r.breaks).entries _ (known r.breaks)
              (blame_found-Spent (suc bound) _ reason r p)))
    ]

-- Where the URLs of the proxies that the pool may list are among those of a list, a task sends no more
-- requests for the rest of a body than that list has URLs, in whatever state it stops or is looked at:
-- however often the streams break, whatever the network answers and whenever the client goes.
pub stream_body-asks :
    (api : HeaderApi) (world : StreamWorld api.Headers) (route : RouteDef)
    (original_headers : api.Headers) (universe : List Text) (can_recover : Bool) (fuel : ℕ)
    (used_url : Text) (tried : List Text) (store : Store) (chunks : List Chunk)
    → ((k : ℕ) → All (λ a. has_text universe (store.entry a).url ≡ true) (world.pool_at k).entries)
    → (stream_body api world route original_headers can_recover fuel used_url tried store
        chunks).1.tick
      ≤ length universe
unfolding stream_body start
stream_body-asks api world route h universe can fuel used_url tried store chunks known =
    let spent =
      relay-Spent api world route h (λ a. (store.entry a).url) universe can known (length universe)
        fuel chunks (start used_url tried store)
        (λ a. refl, omega (arith, untried_all universe tried)) in
    omega (arith, spent.1)
