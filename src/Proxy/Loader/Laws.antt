-- ===== src/Proxy/Loader/Laws.antt =====
-- What `parse_proxies` of intermediate-proxy/src/proxy/loader.rs guarantees of its result.
use proxy_systems.Common.{
  ◌≡◌, refl, inl, inr, true, false, List, [], ◌∷◌, ◌++◌, some, arith, if◌then◌else◌, All,
  Bool-cases, Option-cases, is_empty, ◌==◌,
}
use proxy_systems.Common.Text.{
  Text, codes, text_eq, text_eq_iff, has_text, strip_prefix, starts_with,
}
use proxy_systems.Util.{scheme_mark}
use proxy_systems.Proxy.Entry.{contains}
use proxy_systems.Proxy.Loader.{
  ParsedProxy, trim, split, split_whitespace, lines, push_new, push_all, push_listed, collect_tags,
  parse_tokens, parse_line, add_proxy, add_line, parse_lines, parse_proxies,
}

-- No text stands twice in the list.
abbrev pub IsDistinct : List Text → Type 0
IsDistinct [] = Unit {0}
IsDistinct (t ∷ ts) = (has_text ts t ≡ false) × IsDistinct ts

has_text-append :
    (xs ys : List Text) (t : Text)
    → has_text (xs ++ ys) t ≡ (if has_text xs t then true else has_text ys t)
unfolding has_text
has_text-append [] ys t = refl
has_text-append (x ∷ xs) ys t = ground (arith, has_text-append xs ys t)

snoc-IsDistinct :
    (xs : List Text) (t : Text) → IsDistinct xs → has_text xs t ≡ false → IsDistinct (xs ++ t ∷ [])
unfolding has_text
snoc-IsDistinct [] t h e = (refl, tt)
snoc-IsDistinct (x ∷ xs) t h e = (
  ground (arith, has_text-append xs (t ∷ []) x, text_eq_iff x t, text_eq_iff t x),
  snoc-IsDistinct xs t h.1 (ground arith),
)

push_new-IsDistinct : (tags : List Text) (t : Text) → IsDistinct tags → IsDistinct (push_new tags t)
unfolding push_new
push_new-IsDistinct tags t h = elim (Bool-cases (has_text tags t)) [
  | inl e ↦ rw e h
  | inr e ↦ rw e (snoc-IsDistinct tags t h e)
]

push_all-IsDistinct : (tags ts : List Text) → IsDistinct tags → IsDistinct (push_all tags ts)
unfolding push_all
push_all-IsDistinct tags [] h = h
push_all-IsDistinct tags (t ∷ ts) h =
    push_all-IsDistinct (push_new tags t) ts (push_new-IsDistinct tags t h)

push_listed-IsDistinct : (tags ts : List Text) → IsDistinct tags → IsDistinct (push_listed tags ts)
unfolding push_listed
push_listed-IsDistinct tags [] h = h
push_listed-IsDistinct tags (t ∷ ts) h = elim (Bool-cases (is_empty (trim t))) [
  | inl e ↦ rw e (push_listed-IsDistinct tags ts h)
  | inr e ↦
      rw e
        (push_listed-IsDistinct (push_new tags (trim t)) ts (push_new-IsDistinct tags (trim t) h))
]

collect_tags-IsDistinct :
    (tags toks : List Text) → IsDistinct tags → IsDistinct (collect_tags tags toks)
unfolding collect_tags
collect_tags-IsDistinct tags [] h = h
collect_tags-IsDistinct tags (tok ∷ more) h =
    elim (Option-cases (strip_prefix (codes "tags=") tok)) [
      | inl e ↦ elim (Bool-cases (starts_with tok (codes "#"))) [
        | inl f ↦ rw (e, f, collect_tags) h
        | inr f ↦
            rw (e, f, collect_tags)
              (collect_tags-IsDistinct (push_new tags tok) more (push_new-IsDistinct tags tok h))
      ]
      | inr (listed, e) ↦
          rw (e, collect_tags)
            (collect_tags-IsDistinct (push_listed tags (split (λ c. c == b',') listed)) more
              (push_listed-IsDistinct tags (split (λ c. c == b',') listed) h))
    ]

-- A proxy of the result: its URL has a scheme, and no tag stands twice.
pub record IsProxy (p : ParsedProxy) : Type 0 where
  pub scheme : contains p.url scheme_mark ≡ true
  pub tags : IsDistinct p.tags

parse_tokens-IsProxy : (toks : List Text) (p : ParsedProxy) → parse_tokens toks ≡ some p → IsProxy p
unfolding parse_tokens
parse_tokens-IsProxy [] p e = cc
parse_tokens-IsProxy (url ∷ more) p e = record {
  scheme = ground arith;
  tags = ground (arith, collect_tags-IsDistinct [] more tt);
}

parse_line-IsProxy : (raw : Text) (p : ParsedProxy) → parse_line raw ≡ some p → IsProxy p
unfolding parse_line
parse_line-IsProxy raw p e = parse_tokens-IsProxy (split_whitespace (trim raw)) p (ground arith)

-- No proxy of the list has this URL.
abbrev pub NoUrl : Text → List ParsedProxy → Type 0
NoUrl url = All (λ q. text_eq q.url url ≡ false)

add_proxy-NoUrl :
    (url : Text) (p : ParsedProxy) (out : List ParsedProxy)
    → text_eq p.url url ≡ false
    → NoUrl url out
    → NoUrl url (add_proxy p out)
unfolding add_proxy
add_proxy-NoUrl url p [] e h = (e, tt)
add_proxy-NoUrl url p (q ∷ out) e h = ground (arith, add_proxy-NoUrl url p out)

-- The URLs of the list are pairwise different.
abbrev pub HasDistinctUrls : List ParsedProxy → Type 0
HasDistinctUrls [] = Unit {0}
HasDistinctUrls (p ∷ out) = NoUrl p.url out × HasDistinctUrls out

-- What the parsed list is at every point of the loop.
pub record IsProxyList (out : List ParsedProxy) : Type 0 where
  pub proxies : All IsProxy out
  pub distinct : HasDistinctUrls out

add_proxy-distinct :
    (p : ParsedProxy) (out : List ParsedProxy)
    → HasDistinctUrls out
    → HasDistinctUrls (add_proxy p out)
unfolding add_proxy
add_proxy-distinct p [] h = (tt, tt)
add_proxy-distinct p (q ∷ out) h = elim (Bool-cases (text_eq q.url p.url)) [
  | inl e ↦ rw e h
  | inr e ↦ rw e (
    add_proxy-NoUrl q.url p out (ground (arith, text_eq_iff q.url p.url, text_eq_iff p.url q.url))
        h.0,
    add_proxy-distinct p out h.1,
  )
]

add_proxy-IsProxy :
    (p : ParsedProxy) (out : List ParsedProxy)
    → IsProxy p
    → All IsProxy out
    → All IsProxy (add_proxy p out)
unfolding add_proxy
add_proxy-IsProxy p [] v h = (v, tt)
add_proxy-IsProxy p (q ∷ out) v h = elim (Bool-cases (text_eq q.url p.url)) [
  | inl e ↦
      rw e (record { scheme = h.0.scheme; tags = push_all-IsDistinct q.tags p.tags h.0.tags }, h.1)
  | inr e ↦ rw e (h.0, add_proxy-IsProxy p out v h.1)
]

add_line-IsProxyList :
    (raw : Text) (out : List ParsedProxy) → IsProxyList out → IsProxyList (add_line raw out)
unfolding add_line
add_line-IsProxyList raw out v = elim (Option-cases (parse_line raw)) [
  | inl e ↦ rw (e, add_line) v
  | inr (p, e) ↦
      rw (e, add_line)
        (record {
          proxies = add_proxy-IsProxy p out (parse_line-IsProxy raw p e) v.proxies;
          distinct = add_proxy-distinct p out v.distinct;
        })
]

parse_lines-IsProxyList :
    (out : List ParsedProxy) (more : List Text)
    → IsProxyList out
    → IsProxyList (parse_lines out more)
unfolding parse_lines
parse_lines-IsProxyList out [] v = v
parse_lines-IsProxyList out (raw ∷ more) v =
    parse_lines-IsProxyList (add_line raw out) more (add_line-IsProxyList raw out v)

-- Whatever the file holds, the parsed proxies have pairwise different URLs, each URL has a scheme,
-- and no proxy has a tag twice.
pub parse_proxies-IsProxyList : (content : Text) → IsProxyList (parse_proxies content)
unfolding parse_proxies
parse_proxies-IsProxyList content =
    parse_lines-IsProxyList [] (lines content) (record { proxies = tt; distinct = tt })
