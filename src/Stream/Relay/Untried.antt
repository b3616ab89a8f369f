-- ===== src/Stream/Relay/Untried.antt =====
-- intermediate-proxy/src/stream.rs: the count of the proxies that are left to resume from.
use proxy_systems.Common.{
  ℕ, suc, ◌≤◌, ◌<◌, ◌≡◌, sym, ◌∙◌, subst, inl, inr, true, false, List, [], ◌∷◌, ◌==◌, if◌then◌else◌,
  length, arith, Bool-cases,
}
use proxy_systems.Common.Text.{Text, text_eq, text_eq_iff, text_eq_refl, has_text}
use proxy_systems.Proxy.Entry.{Entry, RouteId, route_state}
use proxy_systems.Proxy.Store.{Addr, Store, modify}
use proxy_systems.Proxy.Store.Laws.{entry-modify}

-- How many of the URLs are not tried yet.
unfoldable pub untried : List Text → List Text → ℕ
untried [] tried = 0
untried (u ∷ us) tried = let rest = untried us tried in if has_text tried u then rest else suc rest

untried-less :
    (us : List Text) (u : Text) (tried : List Text) → untried us (u ∷ tried) ≤ untried us tried
unfolding untried has_text
untried-less [] u tried = omega arith
untried-less (v ∷ us) u tried = ground (arith, untried-less us u tried)

-- A new URL is one less to try.
pub untried-new :
    (us : List Text) (u : Text) (tried : List Text)
    → has_text us u ≡ true
    → has_text tried u ≡ false
    → untried us (u ∷ tried) < untried us tried
unfolding untried has_text
untried-new [] u tried k f = cc
untried-new (v ∷ us) u tried k f = elim (Bool-cases (text_eq v u)) [
  | inr e ↦
      let k' : has_text us u ≡ true = ground (arith, k, e) in
      ground (arith, untried-new us u tried k' f)
  | inl e ↦
      let same : v ≡ u = (text_eq_iff v u).0 e in
      let here : text_eq u v ≡ true = subst (λ w. text_eq u w ≡ true) (sym same) (text_eq_refl u) in
      let old : has_text tried v ≡ false = subst (λ w. has_text tried w ≡ false) (sym same) f in
      ground (arith, untried-less us u tried, here, old)
]

pub untried_all : (us tried : List Text) → untried us tried ≤ length us
unfolding untried
untried_all [] tried = omega arith
untried_all (u ∷ us) tried = ground (arith, untried_all us tried)

-- Every record has the URL that it had at the start.
abbrev pub Named : (Addr → Text) → Store → Type 0
Named names s = (a : Addr) → (s.entry a).url ≡ names a

pub Named-modify :
    (names : Addr → Text) (a : Addr) (f : Entry → Entry) (s : Store)
    → ((e : Entry) → (f e).url ≡ e.url)
    → Named names s
    → Named names (modify a f s)
Named-modify names a f s keeps n b = elim (Bool-cases (a == b)) [
  | inl e ↦ rw (entry-modify a b f s, e) (keeps (s.entry b) ∙ n b)
  | inr e ↦ rw (entry-modify a b f s, e) (n b)
]

pub route_state-url : (rid : RouteId) (e : Entry) → (route_state rid e).1.url ≡ e.url
unfolding route_state
route_state-url rid e = ground arith
