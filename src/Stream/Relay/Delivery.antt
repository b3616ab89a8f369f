-- ===== src/Stream/Relay/Delivery.antt =====
-- intermediate-proxy/src/stream.rs: over any number of recoveries the client gets a front part of the
-- resource.
use proxy_systems.Common.{
  ℕ, zero, suc, ◌+◌, ◌<◌, ◌≡◌, refl, subst, inl, inr, Bool, true, ◌||◌, List, [], ◌∷◌, Option, none,
  some, ltb, ◌==◌, length, drop, arith, Bool-cases,
}
use proxy_systems.Common.Words.{u64_mod}
use proxy_systems.Common.Text.{Text, has_text}
use proxy_systems.Proxy.Entry.{Entry}
use proxy_systems.Proxy.Store.{Addr, Store}
use proxy_systems.Route.Def.{RouteDef}
use proxy_systems.Route.State.{entry_tier, is_sidelined, touch}
use proxy_systems.Http.{
  Bytes, HeaderApi, Chunk, got, broken, Reply, Exchange, replied, refused, timed_out,
}
use proxy_systems.Stream.Relay.{
  StreamWorld, Relay, Ending, Recovery, resumed, hung_up, exhausted, push_bytes, drop_bytes,
  on_entry, range_headers, resume_headers, take_over, observe, judge_resume, next_tick, ask,
  then_next, recover, start, stream_body, blame, blame_found, next_break, after_break, settle,
  relay,
}
use proxy_systems.Stream.Relay.Prefix.{
  Brings, Upto, IsPrefix, Recovers, push_bytes-Upto, missing, skip_sent-Recovers,
}

-- What a proxy that serves the resource may answer to a request for its part from `n` on: with status
-- 206 that part, with status 200 the whole; other answers do not matter.
abbrev pub Honest : {H : Type 0} → Bytes → ℕ → Exchange H → Type 0
Honest resource n (replied reply) =
    ((reply.status == 206) ≡ true → Brings (drop n resource) reply.chunks)
    × ((reply.status == 200) ≡ true → Brings resource reply.chunks)
Honest resource n (refused reason connect) = Unit
Honest resource n timed_out = Unit

module _ (resource : Bytes) (small : length resource < u64_mod) (api : HeaderApi)
    (world : StreamWorld api.Headers) (route : RouteDef) (original_headers : api.Headers) where
  take_over-Recovers :
      (reply : Reply api.Headers) (url : Text) (rest : Bytes) (r : Relay)
      → Upto resource rest r
      → Honest resource r.total (replied reply)
      → (reply.status == 206 || reply.status == 200) ≡ true
      → Recovers resource small (take_over api world route original_headers reply url r)
  unfolding take_over
  take_over-Recovers reply url rest r u (part, full) ok =
      let r' = record r { current_url = url } in
      let u' : Upto resource rest r' = record { split = u.split; count = u.count } in
      elim (Bool-cases (reply.status == 200)) [
        | inr e ↦ rw e (
          rest,
          u',
          subst (λ body. Brings body reply.chunks) (missing resource small rest r r.total u refl)
              (part (ground (arith, ok, e))),
        )
        | inl e ↦ elim (Bool-cases (ltb 0 r.total)) [
          | inl f ↦
              rw (e, f)
                (skip_sent-Recovers resource small api world route original_headers 0 reply.chunks
                  rest r' u' (omega arith) (full e))
          | inr f ↦
              rw (e, f)
                (
                  rest,
                  u',
                  subst (λ body. Brings body reply.chunks)
                      (missing resource small rest r 0 u (ground (arith, f))) (full e),
                )
        ]
      ]

  judge_resume-Recovers :
      (a : Addr) (x : Exchange api.Headers) (rest : Bytes) (r : Relay)
      → Upto resource rest r
      → Honest resource r.total x
      → Recovers resource small (judge_resume api world route original_headers a x r)
  unfolding judge_resume on_entry observe
  judge_resume-Recovers a (refused reason connect) rest r u h =
      (rest, record { split = u.split; count = u.count })
  judge_resume-Recovers a timed_out rest r u h = (rest, record { split = u.split; count = u.count })
  judge_resume-Recovers a (replied reply) rest r u h =
      elim (Bool-cases (reply.status == 206 || reply.status == 200)) [
        | inl e ↦
            rw e
              (take_over-Recovers reply _ rest _ (record { split = u.split; count = u.count }) h e)
        | inr e ↦ rw e (rest, record { split = u.split; count = u.count })
      ]

  then_next-Recovers :
      (later : Relay → Recovery) (x : Recovery)
      → ((rest : Bytes) (r : Relay) → Upto resource rest r → Recovers resource small (later r))
      → Recovers resource small x
      → Recovers resource small (then_next api world route original_headers later x)
  unfolding then_next next_tick
  then_next-Recovers later (resumed chunks r) f (rest, u, b) =
      (rest, record { split = u.split; count = u.count }, b)
  then_next-Recovers later (hung_up r) f p = p
  then_next-Recovers later (exhausted r) f (rest, u) =
      f rest (record r { tick = r.tick + 1 }) (record { split = u.split; count = u.count })

  -- Every proxy answers honestly, on every occasion.
  abbrev pub AllHonest : Type 0
  AllHonest =
      (k : ℕ) (e : Entry) (h : api.Headers) (n : ℕ)
      → Honest resource n (world.exchange k e h (range_headers api n))

  module _ (honest : AllHonest) where
    ask-Recovers :
        (a : Addr) (rest : Bytes) (r : Relay)
        → Upto resource rest r
        → Recovers resource small (ask api world route original_headers a r)
    unfolding ask
    ask-Recovers a rest r u =
        judge_resume-Recovers a _ rest (record r { tried = (r.store.entry a).url ∷ r.tried })
          (record { split = u.split; count = u.count })
          (honest r.tick (r.store.entry a) (resume_headers api original_headers) r.total)

    recover-Recovers :
        (at : ℕ) (entries : List Addr) (rest : Bytes) (r : Relay)
        → Upto resource rest r
        → Recovers resource small (recover api world route original_headers at entries r)
    unfolding recover
    recover-Recovers at [] rest r u = (rest, u)
    recover-Recovers at (a ∷ more) rest r u =
        let touched = record r { store = (touch route a r.store).1 } in
        let later =
          recover-Recovers at more rest touched (record { split = u.split; count = u.count }) in
        elim (Bool-cases
          (is_sidelined (entry_tier (r.store.entry a) (touch route a r.store).0 route at))) [
            | inl e ↦ rw e later
            | inr e ↦ elim (Bool-cases (has_text r.tried (r.store.entry a).url)) [
              | inl f ↦ rw (e, f) later
              | inr f ↦
                  rw (e, f)
                    (then_next-Recovers _ _ (recover-Recovers at more)
                      (ask-Recovers a rest touched (record { split = u.split; count = u.count })))
            ]
          ]

    blame_found-Upto :
        (found : Option Addr) (reason : Text) (rest : Bytes) (r : Relay)
        → Upto resource rest r
        → Upto resource rest (
            next_break api world route original_headers
              (blame_found api world route original_headers found reason r))
    unfolding blame_found next_break observe on_entry
    blame_found-Upto none reason rest r u = record { split = u.split; count = u.count }
    blame_found-Upto (some a) reason rest r u = record { split = u.split; count = u.count }

    settle-IsPrefix :
        (again : List Chunk → Relay → Option Ending × Relay) (x : Recovery)
        → ((chunks : List Chunk) (rest : Bytes) (r : Relay)
            → Upto resource rest r
            → Brings rest chunks
            → IsPrefix (again chunks r).1.sent resource)
        → Recovers resource small x
        → IsPrefix (settle api world route original_headers again x).1.sent resource
    unfolding settle
    settle-IsPrefix again (resumed chunks r) f (rest, u, b) = f chunks rest r u b
    settle-IsPrefix again (hung_up r) f p = p
    settle-IsPrefix again (exhausted r) f (rest, u) = (rest, u.split)

    relay-IsPrefix :
        (can_recover : Bool) (fuel : ℕ) (chunks : List Chunk) (rest : Bytes) (r : Relay)
        → Upto resource rest r
        → Brings rest chunks
        → IsPrefix
            (relay api world route original_headers can_recover fuel chunks r).1.sent
            resource
    unfolding relay after_break blame drop_bytes
    relay-IsPrefix can_recover fuel [] rest r u b = (rest, u.split)
    relay-IsPrefix can_recover fuel (got c ∷ more) rest r u (q, d, b) =
        elim (Bool-cases (world.receives r.sends)) [
          | inl e ↦ rw e (
              relay-IsPrefix can_recover fuel more q (push_bytes c r)
                (push_bytes-Upto resource small c q r (subst (λ body. Upto resource body r) d u)) b)
          | inr e ↦ rw e (rest, u.split)
        ]
    relay-IsPrefix can_recover zero (broken reason ∷ more) rest r u b =
        elim (Bool-cases can_recover) [
          | inl e ↦ rw e (rest, u.split)
          | inr e ↦ rw e (rest, u.split)
        ]
    relay-IsPrefix can_recover (suc fuel) (broken reason ∷ more) rest r u b =
        elim (Bool-cases can_recover) [
          | inl e ↦ rw e (
              settle-IsPrefix _ _ (relay-IsPrefix can_recover fuel)
                (recover-Recovers _ _ rest _ (blame_found-Upto _ reason rest r u)))
          | inr e ↦ rw e (rest, u.split)
        ]

-- Where the first stream and every proxy serve the same resource, of less than 2^64 bytes, the bytes
-- sent to the client are a front part of it, over any number of breaks and recoveries.
pub stream_body-IsPrefix :
    (resource : Bytes)
    → (small : length resource < u64_mod)
    → (api : HeaderApi) (world : StreamWorld api.Headers) (route : RouteDef)
      (original_headers : api.Headers) (can_recover : Bool)
    → AllHonest resource small api world route original_headers
    → (fuel : ℕ) (used_url : Text) (tried : List Text) (store : Store) (chunks : List Chunk)
    → Brings resource chunks
    → IsPrefix
        (stream_body api world route original_headers can_recover fuel used_url tried store
          chunks).1.sent
        resource
unfolding stream_body start
stream_body-IsPrefix resource small api world route h can honest fuel used_url tried store chunks
      b =
    relay-IsPrefix resource small api world route h honest can fuel chunks resource
      (start used_url tried store) (record { split = refl; count = refl }) b
