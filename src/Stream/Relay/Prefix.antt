-- ===== src/Stream/Relay/Prefix.antt =====
-- intermediate-proxy/src/stream.rs: what the client gets of a body that is resumed from other proxies.
use proxy_systems.Common.{
  drop-drop, drop_front, drop-append, ℕ, ◌+◌, ◌-◌, ◌≤◌, ◌<◌, ◌≡◌, sym, ap, ◌∙◌, subst, inl, inr,
  false, List, [], ◌∷◌, ◌++◌, ltb, leb, length, drop, arith, append_assoc, length-append,
  Bool-cases, leb→le, ltb→lt,
}
use proxy_systems.Common.Words.{u64_mod}
use proxy_systems.Route.Def.{RouteDef}
use proxy_systems.Http.{Bytes, HeaderApi, Chunk, got, broken}
use proxy_systems.Stream.Relay.{
  StreamWorld, Relay, Recovery, resumed, hung_up, exhausted, push_bytes, drop_bytes, skip_sent,
}

-- A stream brings a front part of a body, in chunks; an error is the end of it.
abbrev pub Brings : Bytes → List Chunk → Type 0
Brings body [] = Unit {0}
Brings body (got b ∷ more) = (rest : Bytes) × (body ≡ b ++ rest) × Brings rest more
Brings body (broken reason ∷ more) = more ≡ []

-- The client has the front part of the resource that the counter says, and this is what follows.
pub record Upto (resource rest : Bytes) (r : Relay) : Type 0 where
  pub split : resource ≡ r.sent ++ rest
  pub count : r.total ≡ length r.sent

-- What the client has is a front part of the resource.
abbrev pub IsPrefix : Bytes → Bytes → Type 0
IsPrefix front resource = (rest : Bytes) × (resource ≡ front ++ rest)

module _ (resource : Bytes) (small : length resource < u64_mod) where
  length-rest :
      (b rest : Bytes) (r : Relay)
      → resource ≡ r.sent ++ (b ++ rest)
      → length r.sent + length b < u64_mod
  length-rest b rest r e =
      let m : length resource ≡ length (r.sent ++ (b ++ rest)) = ap length e in
      omega (arith, m, small, length-append r.sent (b ++ rest), length-append b rest)

  pub push_bytes-Upto :
      (b rest : Bytes) (r : Relay)
      → Upto resource (b ++ rest) r
      → Upto resource rest (push_bytes b r)
  unfolding push_bytes
  push_bytes-Upto b rest r u = record {
    split = u.split ∙ sym (append_assoc r.sent b rest);
    count = omega (arith, u.count, length-append r.sent b, length-rest b rest r u.split);
  }

  -- What a recovery leaves: a stream that brings what is missing, or a client with a front part.
  abbrev pub Recovers : Recovery → Type 0
  Recovers (resumed chunks r) = (rest : Bytes) × Upto resource rest r × Brings rest chunks
  Recovers (hung_up r) = IsPrefix r.sent resource
  Recovers (exhausted r) = (rest : Bytes) × Upto resource rest r

  -- What follows the bytes that the client has is what is missing.
  pub missing :
      (rest : Bytes) (r : Relay) (n : ℕ)
      → Upto resource rest r
      → n ≡ r.total
      → drop n resource ≡ rest
  missing rest r n u e =
      let count : n ≡ length r.sent = e ∙ u.count in rw (u.split, count) (drop_front r.sent rest)

  -- Skipping ends here: the stream brings what is missing.
  skipped_all :
      (skipped : ℕ) (chunks : List Chunk) (rest : Bytes) (r : Relay)
      → Upto resource rest r
      → skipped ≤ r.total
      → ltb skipped r.total ≡ false
      → Brings (drop skipped resource) chunks
      → Recovers (resumed chunks r)
  skipped_all skipped chunks rest r u l e b =
      let same : skipped ≡ r.total = ground (arith, e) in
      (rest, u, subst (λ body. Brings body chunks) (missing rest r skipped u same) b)

  -- A chunk that reaches beyond what the client has: the part beyond it.
  skip_over :
      (skipped : ℕ) (c q : Bytes) (more : List Chunk) (rest : Bytes) (r : Relay)
      → Upto resource rest r
      → skipped ≤ r.total
      → leb (length c) (r.total - skipped) ≡ false
      → drop skipped resource ≡ c ++ q
      → rest ≡ drop (r.total - skipped) c ++ q
  skip_over skipped c q more rest r u l e d =
      let n = r.total - skipped in
      let at : skipped + n ≡ r.total = omega arith in
      sym (missing rest r (skipped + n) u at)
      ∙ sym (drop-drop skipped n resource)
      ∙ ap (drop n) d
      ∙ drop-append n c q (ground (arith, e))

  module _ (api : HeaderApi) (world : StreamWorld api.Headers) (route : RouteDef)
      (h : api.Headers) where
    abbrev skips : ℕ → List Chunk → Relay → Recovery
    skips = skip_sent api world route h

    pub skip_sent-Recovers :
        (skipped : ℕ) (chunks : List Chunk) (rest : Bytes) (r : Relay)
        → Upto resource rest r
        → skipped ≤ r.total
        → Brings (drop skipped resource) chunks
        → Recovers (skips skipped chunks r)
    unfolding skip_sent drop_bytes
    skip_sent-Recovers skipped [] rest r u l b = (rest, u, tt)
    skip_sent-Recovers skipped (broken reason ∷ more) rest r u l b =
        elim (Bool-cases (ltb skipped r.total)) [
          | inl e ↦ rw e (rest, u, subst (Brings rest) (sym b) tt)
          | inr e ↦ rw e (rest, u, b)
        ]
    skip_sent-Recovers skipped (got c ∷ more) rest r u l (q, d, b) =
        elim (Bool-cases (ltb skipped r.total)) [
          | inr e ↦ rw e (skipped_all skipped (got c ∷ more) rest r u l e (q, d, b))
          | inl e ↦ elim (Bool-cases (leb (length c) (r.total - skipped))) [
            | inl f ↦
                rw (e, f)
                  (skip_sent-Recovers (skipped + length c) more rest r u
                    (omega
                      (arith, l, leb→le (length c) (r.total - skipped) f, ltb→lt skipped r.total e))
                    (subst (λ body. Brings body more)
                      (sym (drop_front c q)
                        ∙ sym (ap (drop (length c)) d)
                        ∙ drop-drop skipped (length c) resource)
                      b))
            | inr f ↦ elim (Bool-cases (world.receives r.sends)) [
              | inl g ↦
                  rw (e, f, g)
                    (
                      q,
                      push_bytes-Upto (drop (r.total - skipped) c) q r (
                          subst (λ body. Upto resource body r)
                            (skip_over skipped c q more rest r u l f d) u),
                      b,
                    )
              | inr g ↦ rw (e, f, g) (rest, u.split)
            ]
          ]
        ]
