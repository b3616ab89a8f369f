-- ===== src/Proxy/Loader.antt =====
-- intermediate-proxy/src/proxy/loader.rs: the parser of the proxies file.
pub mod Laws
use proxy_systems.Common.{
  ℕ, ◌≡◌, Bool, true, false, not, ◌&&◌, ◌||◌, List, [], ◌∷◌, ◌++◌, reverse, Option, none, some,
  ◌==◌, if◌then◌else◌, is_empty,
}
use proxy_systems.Common.Text.{Text, codes, text_eq, has_text, strip_prefix, starts_with}
use proxy_systems.Util.{is_whitespace, scheme_mark}
use proxy_systems.Proxy.Entry.{contains}

pub record ParsedProxy : Type 0 where
  pub url : Text
  pub tags : List Text

abbrev pub newline : ℕ
newline = 10

-- The `\r` that `str::lines` drops before a line feed; the current line is held reversed.
unfoldable pub drop_return : Text → Text
drop_return [] = []
drop_return (c ∷ cur) = if c == 13 then cur else c ∷ cur

unfoldable pub lines_from : Text → Text → List Text
lines_from [] [] = []
lines_from (c ∷ cur) [] = reverse (c ∷ cur) ∷ []
lines_from cur (c ∷ s) =
    let closed = lines_from [] s in
    let longer = lines_from (c ∷ cur) s in
    if c == newline then reverse (drop_return cur) ∷ closed else longer

-- `str::lines`.
unfoldable pub lines : Text → List Text
unfolding lines_from drop_return
lines content = lines_from [] content

-- `str::split` at every character that passes a test; the current piece is held reversed.
unfoldable pub split_from : (ℕ → Bool) → Text → Text → List Text
split_from stop cur [] = reverse cur ∷ []
split_from stop cur (c ∷ s) =
    let closed = split_from stop [] s in
    let longer = split_from stop (c ∷ cur) s in if stop c then reverse cur ∷ closed else longer

unfoldable pub split : (ℕ → Bool) → Text → List Text
unfolding split_from
split stop s = split_from stop [] s

unfoldable pub non_empty : List Text → List Text
non_empty [] = []
non_empty ([] ∷ ts) = non_empty ts
non_empty ((c ∷ t) ∷ ts) = (c ∷ t) ∷ non_empty ts

-- `str::split_whitespace`.
unfoldable pub split_whitespace : Text → List Text
unfolding split non_empty is_whitespace
split_whitespace s = non_empty (split is_whitespace s)

unfoldable pub trim_start : Text → Text
trim_start [] = []
trim_start (c ∷ s) = let rest = trim_start s in if is_whitespace c then rest else c ∷ s

-- `str::trim`.
unfoldable pub trim : Text → Text
unfolding trim_start is_whitespace
trim s = reverse (trim_start (reverse (trim_start s)))

-- `if !tags.iter().any(|x| x == t) { tags.push(t) }`.
unfoldable pub push_new : List Text → Text → List Text
push_new tags t = if has_text tags t then tags else tags ++ t ∷ []

unfoldable pub push_all : List Text → List Text → List Text
push_all tags [] = tags
push_all tags (t ∷ ts) = push_all (push_new tags t) ts

-- The loop over the pieces of `tags=a,b,c`.
unfoldable pub push_listed : List Text → List Text → List Text
push_listed tags [] = tags
push_listed tags (t ∷ ts) =
    push_listed (if is_empty (trim t) then tags else push_new tags (trim t)) ts

-- The loop over the tokens behind the URL, which a token that begins with `#` breaks.
unfoldable pub collect_tags : List Text → List Text → List Text
collect_tags tags [] = tags
collect_tags tags (tok ∷ more) =
    let rest = λ (found : List Text). collect_tags found more in
    elim (strip_prefix (codes "tags=") tok) [
      | some listed ↦ rest (push_listed tags (split (λ c. c == b',') listed))
      | none ↦ if starts_with tok (codes "#") then tags else rest (push_new tags tok)
    ]

-- `continue` is `none`.
unfoldable pub parse_tokens : List Text → Option ParsedProxy
parse_tokens [] = none
parse_tokens (url ∷ more) =
    if contains url scheme_mark
    then some (record { url = url; tags = collect_tags [] more })
    else none

unfoldable pub parse_line : Text → Option ParsedProxy
parse_line raw =
    if is_empty (trim raw) || starts_with (trim raw) (codes "#")
    then none
    else parse_tokens (split_whitespace (trim raw))

-- `match out.iter_mut().find(..)`: merge the tags into the first proxy of that URL, or append.
unfoldable pub add_proxy : ParsedProxy → List ParsedProxy → List ParsedProxy
add_proxy p [] = p ∷ []
add_proxy p (q ∷ out) =
    let rest = add_proxy p out in
    if text_eq q.url p.url then record q { tags = push_all q.tags p.tags } ∷ out else q ∷ rest

unfoldable pub add_line : Text → List ParsedProxy → List ParsedProxy
add_line raw out = elim (parse_line raw) [ none ↦ out | some p ↦ add_proxy p out ]

unfoldable pub parse_lines : List ParsedProxy → List Text → List ParsedProxy
parse_lines out [] = out
parse_lines out (raw ∷ more) = parse_lines (add_line raw out) more

unfoldable pub parse_proxies : Text → List ParsedProxy
parse_proxies content = parse_lines [] (lines content)
