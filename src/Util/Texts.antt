-- ===== src/Util/Texts.antt =====
-- What scrub_credentials of intermediate-proxy/src/util.rs makes of a whole text.
use proxy_systems.Common.{◌≡◌, refl, ◌∙◌, List, [], ◌∷◌, ◌++◌, none, arith, ◌==◌}
use proxy_systems.Common.Text.{Text, codes, Free, split_once, strip_prefix, break_at}
use proxy_systems.Util.{scheme_mark, at_sign, colon, ends_authority, ends_url, scrub_credentials}
use proxy_systems.Util.Masking.{
  authority_of, IsAuthority, scrub_credentials-loop, scrub_credentials-masks,
}

-- A text, and the URL with credentials that stands behind it.
pub record Credentials : Type 0 where
  pub before : Text
  pub user : Text
  pub pass : Text
  pub host : Text
  pub path : Text

-- A text that ends with `last`, with URLs in it, as written and with every password masked.
unfoldable pub written : List Credentials → Text → Text
written [] last = last
written (c ∷ cs) last =
    c.before ++ (scheme_mark ++ ((authority_of c.user c.pass c.host ++ c.path) ++ written cs last))

unfoldable pub masked : List Credentials → Text → Text
masked [] last = last
masked (c ∷ cs) last =
    c.before
    ++ (scheme_mark
        ++ ((((c.user ++ codes ":***") ++ at_sign ∷ c.host) ++ c.path) ++ masked cs last))

-- Each URL stands where it is cut out of the text: the text before it and its user hold no colon, its
-- host no at sign, and it ends where the text behind it begins. The last text holds no colon.
unfoldable pub Separates : List Credentials → Text → Type 0
Separates [] last = Free (λ c. c == colon) last
Separates (c ∷ cs) last =
    Free (λ x. x == colon) c.before
    × IsAuthority c.user c.pass c.host
    × ((break_at ends_authority c.path).0 ≡ [])
    × Free ends_url (authority_of c.user c.pass c.host ++ c.path)
    × ((break_at ends_url (written cs last)).0 ≡ [])
    × Separates cs last

split_once-colon : (s : Text) → Free (λ c. c == colon) s → split_once scheme_mark s ≡ none
unfolding split_once strip_prefix
split_once-colon [] h = refl
split_once-colon (c ∷ s) h = ground (arith, split_once-colon s h.1)

-- A text with any number of URLs with credentials is written with every one of the passwords masked,
-- and is otherwise kept. For each URL the text before its `://` and the user hold no colon, the host
-- holds no at sign, none of user, password and host ends an authority, the path is empty or starts with
-- the end of an authority, nothing in the URL ends a URL, and the text behind it is empty or starts with
-- such an end; the text behind the last URL holds no colon.
pub scrub_credentials-all :
    (cs : List Credentials) (last : Text)
    → Separates cs last
    → scrub_credentials (written cs last) ≡ masked cs last
unfolding written masked Separates
scrub_credentials-all [] last h =
    ground (arith, scrub_credentials-loop last, split_once-colon last h)
scrub_credentials-all (c ∷ cs) last (before, authority, path, url, later, rest) =
    scrub_credentials-masks c.before c.user c.pass c.host c.path (written cs last) before authority
      path url later
    ∙ rw (scrub_credentials-all cs last rest) refl
