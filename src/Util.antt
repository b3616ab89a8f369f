-- ===== src/Util.antt =====
-- intermediate-proxy/src/util.rs: masking of credentials in URLs and in free text, and the readers of
-- environment variables, whose raw values are arguments here.
pub mod Masking
pub mod Texts
use mathlib.Core.Option
use proxy_systems.Common.{
  ℕ, zero, suc, ◌+◌, ◌-◌, ◌*◌, ◌≡◌, refl, Bool, true, false, ◌||◌, ◌&&◌, List, [], ◌∷◌, ◌++◌,
  Option, none, some, ltb, leb, ◌==◌, if◌then◌else◌, length, get_or_else, any,
}
use proxy_systems.Common.Words.{u64_mod}
use proxy_systems.Common.Text.{
  Text, codes, has_text, split_once, break_at, rsplit_once, to_ascii_lowercase,
}

abbrev pub scheme_mark : Text
scheme_mark = codes "://"

abbrev pub mask : Text
mask = codes ":***"

abbrev pub at_sign : ℕ
at_sign = b'@'

abbrev pub colon : ℕ
colon = b':'

-- `['/', '?', '#']`, the characters that end an authority.
unfoldable pub ends_authority : ℕ → Bool
ends_authority c = c == b'/' || c == b'?' || c == b'#'

-- `char::is_whitespace`: the Unicode property White_Space.
unfoldable pub is_whitespace : ℕ → Bool
is_whitespace c =
    leb 9 c && leb c 13
    || c == 32
    || c == 0x85
    || c == 0xa0
    || c == 0x1680
    || leb 0x2000 c && leb c 0x200a
    || c == 0x2028
    || c == 0x2029
    || c == 0x202f
    || c == 0x205f
    || c == 0x3000

-- What ends a URL in free text.
unfoldable pub ends_url : ℕ → Bool
unfolding is_whitespace
ends_url c =
    is_whitespace c
    || c == b')'
    || c == 0x22
    || c == 0x27
    || c == b'>'
    || c == b'<'
    || c == b','
    || c == b';'

-- `match userinfo.find(':')`: the part before the first colon, masked.
unfoldable pub mask_userinfo : Text → Text
mask_userinfo userinfo = elim (break_at (λ c. c == colon) userinfo).1 [
  | [] ↦ userinfo
  | _ ∷ _ ↦ (break_at (λ c. c == colon) userinfo).0 ++ mask
]

-- One branch of both functions below: the authority with its user information masked.
unfoldable pub mask_authority : Text → Text
mask_authority authority = elim (rsplit_once at_sign authority) [
  | none ↦ authority
  | some halves ↦ mask_userinfo halves.0 ++ at_sign ∷ halves.1
]

unfoldable pub sanitize_url : Text → Text
sanitize_url url = elim (split_once scheme_mark url) [
  | none ↦ url
  | some url_parts ↦
      let (authority, rest) = break_at ends_authority url_parts.1 in
      elim (rsplit_once at_sign authority) [
        | none ↦ url
        | some halves ↦
            url_parts.0 ++ (scheme_mark ++ (mask_userinfo halves.0 ++ at_sign ∷ (halves.1 ++ rest)))
      ]
]

-- One round of the loop of `scrub_credentials` on the text behind a `://`: the masked URL, and the
-- text behind the URL.
unfoldable pub scrub_chunk : Text → Text × Text
scrub_chunk tail =
    let (chunk, rest) = break_at ends_url tail in
    let (authority, after_authority) = break_at ends_authority chunk in
    (mask_authority authority ++ after_authority, rest)

-- The loop, with fuel: each round leaves a shorter text.
unfoldable pub scrub_from : ℕ → Text → Text
scrub_from zero rest = rest
scrub_from (suc fuel) rest = elim (split_once scheme_mark rest) [
  | none ↦ rest
  | some halves ↦
      let (masked, later) = scrub_chunk halves.1 in
      halves.0 ++ (scheme_mark ++ (masked ++ scrub_from fuel later))
]

unfoldable pub scrub_credentials : Text → Text
scrub_credentials text = scrub_from (length text) text

-- `str::parse::<u64>`: an optional `+`, then decimal digits whose value fits.
digits_value : ℕ → Text → Option ℕ
digits_value acc [] = some acc
digits_value acc (c ∷ s) =
    let later = digits_value (acc * 10 + (c - b'0')) s in
    if leb b'0' c && leb c b'9' && ltb (acc * 10 + (c - b'0')) u64_mod then later else none

unfoldable pub parse_u64 : Text → Option ℕ
unfolding digits_value
parse_u64 [] = none
parse_u64 (c ∷ s) =
    if c == b'+'
    then (elim s [ [] ↦ none | d ∷ t ↦ digits_value 0 (d ∷ t) ])
    else digits_value 0 (c ∷ s)

unfoldable pub env_u64 : Option Text → ℕ → ℕ
unfolding parse_u64
env_u64 var default = get_or_else (Option.bind var parse_u64) default

unfoldable pub env_string : Option Text → Text → Text
env_string var default = get_or_else var default

unfoldable pub env_bool : Option Text → Bool → Bool
unfolding has_text to_ascii_lowercase
env_bool var default = get_or_else (Option.map truthy var) default
  where
    truthy : Text → Bool
    truthy v =
        has_text (codes "1" ∷ codes "true" ∷ codes "yes" ∷ codes "on" ∷ []) (to_ascii_lowercase v)
