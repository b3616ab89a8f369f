-- ===== src/Dns/Cached.antt =====
-- intermediate-proxy/src/dns.rs: an answer is remembered.
use proxy_systems.Common.{
  ℕ, ◌+◌, ◌<◌, ◌≡◌, refl, Bool, true, false, not, ◌||◌, [], ◌∷◌, some, if◌then◌else◌, ltb, is_empty,
  arith, ap, ◌∙◌, inl, inr, Bool-cases,
}
use proxy_systems.Common.Text.{Text, text_eq, text_eq_refl}
use proxy_systems.Dns.{
  Known, Lookup, get_known, put_known, keep, check_known, missing, found_ttl, missing_ttl,
}

get_known-put_known :
    (host : Text) (found : Bool) (until : ℕ) (known : Known)
    → get_known host (put_known host found until known) ≡ some (found, until)
unfolding get_known put_known
get_known-put_known host found until [] = rw (text_eq_refl host) refl
get_known-put_known host found until ((h, f, u) ∷ more) = elim (Bool-cases (text_eq h host)) [
  | inl e ↦ rw (e, text_eq_refl host) refl
  | inr e ↦ rw (e, e) (get_known-put_known host found until more)
]

get_known-keep :
    (host : Text) (found : Bool) (now : ℕ) (known : Known)
    → get_known host (keep host found now known)
      ≡ some (found, now + (if found then found_ttl else missing_ttl))
unfolding keep
get_known-keep host found now known = get_known-put_known host found _ _

check_known-fresh :
    (lookup : Lookup) (host : Text) (found : Bool) (until later : ℕ) (known : Known)
    → later < until
    → check_known (some (found, until)) lookup host later known ≡ (not found, known)
unfolding check_known
check_known-fresh lookup host found until later known l =
    let e : ltb later until ≡ true = ground (arith, l) in rw e refl

-- What was kept is answered again, whatever a lookup would say, until it expires.
missing-keep :
    (is_ip : Text → Bool) (lookup : Lookup) (host : Text) (found : Bool) (now later : ℕ)
    (known : Known)
    → (is_empty host || is_ip host) ≡ false
    → later < now + (if found then found_ttl else missing_ttl)
    → missing is_ip lookup host later (keep host found now known)
      ≡ (not found, keep host found now known)
unfolding missing
missing-keep is_ip lookup host found now later known e l = rw e (
    ap (λ k. check_known k lookup host later (keep host found now known))
      (get_known-keep host found now known)
    ∙ check_known-fresh lookup host found _ later (keep host found now known) l)
