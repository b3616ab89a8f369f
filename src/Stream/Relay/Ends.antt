-- ===== src/Stream/Relay/Ends.antt =====
-- intermediate-proxy/src/stream.rs: the fuel for one recovery more than there are proxies is enough.
use proxy_systems.Common.{
  ℕ, zero, suc, ◌+◌, ◌-◌, ◌<◌, ◌≡◌, refl, sym, subst, inl, inr, Bool, true, false, ◌&&◌, ◌||◌, List,
  [], ◌∷◌, Option, none, some, is_some, ltb, leb, ◌==◌, length, arith, Bool-cases, All,
}
use proxy_systems.Common.Text.{Text, has_text}
use proxy_systems.Proxy.Entry.{on_route}
use proxy_systems.Proxy.Store.{Addr, Store}
use proxy_systems.Route.Def.{RouteDef}
use proxy_systems.Route.State.{entry_tier, is_sidelined, touch}
use proxy_systems.Http.{HeaderApi, Chunk, got, broken, Reply, Exchange, replied, refused, timed_out}
use proxy_systems.Stream.Relay.Untried.{
  untried, untried-new, untried_all, Named, Named-modify, route_state-url,
}
use proxy_systems.Stream.Relay.{
  StreamWorld, Relay, Ending, Recovery, resumed, hung_up, exhausted, count_recovery, push_bytes,
  on_entry, skip_sent, take_over, observe, judge_resume, next_tick, ask, then_next, recover, start,
  stream_body, blame, blame_found, next_break, after_break, settle, relay,
}

-- What a recovery leaves holds of the records and of the tried URLs.
abbrev Leaves : (Store → List Text → Type 0) → Recovery → Type 0
Leaves P (resumed chunks r) = P r.store r.tried
Leaves P (hung_up r) = Unit
Leaves P (exhausted r) = P r.store r.tried

module _ (api : HeaderApi) (world : StreamWorld api.Headers) (route : RouteDef)
    (original_headers : api.Headers) (names : Addr → Text) (universe : List Text) where
  -- The records have their URLs, and fewer than `bound` are not tried.
  abbrev Below : ℕ → Store → List Text → Type 0
  Below bound s tried = Named names s × (untried universe tried < bound)

  skip_sent-Leaves :
      (P : Store → List Text → Type 0) (skipped : ℕ) (chunks : List Chunk) (r : Relay)
      → P r.store r.tried
      → Leaves P (skip_sent api world route original_headers skipped chunks r)
  unfolding skip_sent push_bytes
  skip_sent-Leaves P skipped [] r p = p
  skip_sent-Leaves P skipped (broken reason ∷ more) r p = elim (Bool-cases (ltb skipped r.total)) [
    | inl e ↦ rw e p
    | inr e ↦ rw e p
  ]
  skip_sent-Leaves P skipped (got c ∷ more) r p = elim (Bool-cases (ltb skipped r.total)) [
    | inr e ↦ rw e p
    | inl e ↦ elim (Bool-cases (leb (length c) (r.total - skipped))) [
      | inl f ↦ rw (e, f) (skip_sent-Leaves P (skipped + length c) more r p)
      | inr f ↦ elim (Bool-cases (world.receives r.sends)) [
        | inl g ↦ rw (e, f, g) p
        | inr g ↦ rw (e, f, g) tt
      ]
    ]
  ]

  take_over-Leaves :
      (P : Store → List Text → Type 0) (reply : Reply api.Headers) (url : Text) (r : Relay)
      → P r.store r.tried
      → Leaves P (take_over api world route original_headers reply url r)
  unfolding take_over
  take_over-Leaves P reply url r p = elim (Bool-cases (reply.status == 200 && ltb 0 r.total)) [
    | inl e ↦ rw e (skip_sent-Leaves P 0 reply.chunks (record r { current_url = url }) p)
    | inr e ↦ rw e p
  ]

  judge_resume-Leaves :
      (bound : ℕ) (a : Addr) (x : Exchange api.Headers) (r : Relay)
      → Below bound r.store r.tried
      → Leaves (Below bound) (judge_resume api world route original_headers a x r)
  unfolding judge_resume on_entry observe on_route count_recovery
  judge_resume-Leaves bound a (refused reason connect) r (n, l) =
      (Named-modify names a _ r.store (λ e. refl) n, l)
  judge_resume-Leaves bound a timed_out r (n, l) = (Named-modify names a _ r.store (λ e. refl) n, l)
  judge_resume-Leaves bound a (replied reply) r (n, l) =
      elim (Bool-cases (reply.status == 206 || reply.status == 200)) [
        | inl e ↦ rw e (
            take_over-Leaves (Below bound) reply _ _
              (Named-modify names a _ r.store (λ e. refl) n, l))
        | inr e ↦ rw e (Named-modify names a _ r.store (λ e. refl) n, l)
      ]

  -- A resumed stream leaves fewer to try than there were.
  abbrev Shrinks : ℕ → Recovery → Type 0
  Shrinks bound (resumed chunks r) = Below bound r.store r.tried
  Shrinks bound (hung_up r) = Unit
  Shrinks bound (exhausted r) = Below (suc bound) r.store r.tried

  then_next-Shrinks :
      (bound : ℕ) (later : Relay → Recovery) (x : Recovery)
      → ((r : Relay) → Below (suc bound) r.store r.tried → Shrinks bound (later r))
      → Leaves (Below bound) x
      → Shrinks bound (then_next api world route original_headers later x)
  unfolding then_next next_tick
  then_next-Shrinks bound later (resumed chunks r) f p = p
  then_next-Shrinks bound later (hung_up r) f p = tt
  then_next-Shrinks bound later (exhausted r) f (n, l) =
      f (record r { tick = r.tick + 1 }) (n, omega (arith, l))

  ask-Leaves :
      (bound : ℕ) (a : Addr) (r : Relay)
      → Named names r.store
      → untried universe ((r.store.entry a).url ∷ r.tried) < bound
      → Leaves (Below bound) (ask api world route original_headers a r)
  unfolding ask
  ask-Leaves bound a r n l =
      judge_resume-Leaves bound a _ (record r { tried = (r.store.entry a).url ∷ r.tried }) (n, l)

  recover-Shrinks :
      (bound at : ℕ) (entries : List Addr) (r : Relay)
      → All (λ a. has_text universe (names a) ≡ true) entries
      → Below (suc bound) r.store r.tried
      → Shrinks bound (recover api world route original_headers at entries r)
  unfolding recover touch
  recover-Shrinks bound at [] r known b = b
  recover-Shrinks bound at (a ∷ more) r (here, known) (n, l) =
      let touched = record r { store = (touch route a r.store).1 } in
      let n' : Named names touched.store =
        Named-modify names a _ r.store (route_state-url route.id) n in
      let later = recover-Shrinks bound at more touched known (n', l) in
      elim (Bool-cases
        (is_sidelined (entry_tier (r.store.entry a) (touch route a r.store).0 route at))) [
          | inl e ↦ rw e later
          | inr e ↦ elim (Bool-cases (has_text r.tried (r.store.entry a).url)) [
            | inl f ↦ rw (e, f) later
            | inr f ↦
                rw (e, f)
                  (then_next-Shrinks bound _ _ (λ r' b'. recover-Shrinks bound at more r' known b')
                    (ask-Leaves bound a touched n' (fewer n' f)))
          ]
        ]
    where
      fewer :
          Named names (touch route a r.store).1
          → has_text r.tried (r.store.entry a).url ≡ false
          → untried universe (((touch route a r.store).1.entry a).url ∷ r.tried) < bound
      fewer n' f =
          let f' : has_text r.tried (names a) ≡ false =
            subst (λ u. has_text r.tried u ≡ false) (n a) f in
          let less : untried universe (names a ∷ r.tried) < bound =
            omega (arith, untried-new universe (names a) r.tried here f', l) in
          subst (λ u. untried universe (u ∷ r.tried) < bound) (sym (n' a)) less

  blame_found-Named :
      (found : Option Addr) (reason : Text) (r : Relay)
      → Named names r.store
      → Named names (blame_found api world route original_headers found reason r).store
  unfolding blame_found observe on_entry on_route
  blame_found-Named none reason r n = n
  blame_found-Named (some a) reason r n = Named-modify names a _ r.store (λ e. refl) n

  blame_found-tried :
      (found : Option Addr) (reason : Text) (r : Relay)
      → (blame_found api world route original_headers found reason r).tried ≡ r.tried
  unfolding blame_found observe on_entry
  blame_found-tried none reason r = refl
  blame_found-tried (some a) reason r = refl

  settle-ends :
      (bound : ℕ) (again : List Chunk → Relay → Option Ending × Relay) (x : Recovery)
      → ((chunks : List Chunk) (r : Relay)
          → Below bound r.store r.tried
          → is_some (again chunks r).0 ≡ true)
      → Shrinks bound x
      → is_some (settle api world route original_headers again x).0 ≡ true
  unfolding settle
  settle-ends bound again (resumed chunks r) f p = f chunks r p
  settle-ends bound again (hung_up r) f p = refl
  settle-ends bound again (exhausted r) f p = refl

  module _ (can_recover : Bool)
      (known : (k : ℕ)
        → All (λ a. has_text universe (names a) ≡ true) (world.pool_at k).entries) where
    relay-ends :
        (fuel : ℕ) (chunks : List Chunk) (r : Relay)
        → Below fuel r.store r.tried
        → is_some (relay api world route original_headers can_recover fuel chunks r).0 ≡ true
    unfolding relay after_break blame next_break push_bytes
    relay-ends fuel [] r b = refl
    relay-ends fuel (got c ∷ more) r b = elim (Bool-cases (world.receives r.sends)) [
      | inl e ↦ rw e (relay-ends fuel more (push_bytes c r) b)
      | inr e ↦ rw e refl
    ]
    relay-ends zero (broken reason ∷ more) r (n, l) = ground (arith, l)
    relay-ends (suc fuel) (broken reason ∷ more) r (n, l) = elim (Bool-cases can_recover) [
      | inr e ↦ rw e refl
      | inl e ↦ rw e (
          settle-ends fuel _ _ (λ chunks r' b. relay-ends fuel chunks r' b)
            (recover-Shrinks fuel _ (world.pool_at r.breaks).entries _ (known r.breaks) (
              blame_found-Named _ reason r n,
              subst (λ t. untried universe t < suc fuel) (sym (blame_found-tried _ reason r)) l,
            )))
    ]

-- With streams that each end or break, and a client that takes each chunk or is gone, more fuel than the
-- pool may list URLs is enough for an ending.
stream_body-is_some :
    (api : HeaderApi) (world : StreamWorld api.Headers) (route : RouteDef)
    (original_headers : api.Headers) (universe : List Text) (can_recover : Bool) (fuel : ℕ)
    (used_url : Text) (tried : List Text) (store : Store) (chunks : List Chunk)
    → ((k : ℕ) → All (λ a. has_text universe (store.entry a).url ≡ true) (world.pool_at k).entries)
    → length universe < fuel
    → is_some
        (stream_body api world route original_headers can_recover fuel used_url tried store
          chunks).0
      ≡ true
unfolding stream_body start
stream_body-is_some api world route h universe can fuel used_url tried store chunks known enough =
    relay-ends api world route h (λ a. (store.entry a).url) universe can known fuel chunks
      (start used_url tried store) (λ a. refl, omega (arith, enough, untried_all universe tried))
