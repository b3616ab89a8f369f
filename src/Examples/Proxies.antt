-- ===== src/Examples/Proxies.antt =====
-- The theorems on the proxies, their file and their health, at the two proxies and at small texts.
use mathlib.Core.List.{Memᴰ}
use proxy_systems.Common.{◌≤◌, min, max, ◌≡◌, refl, List, [], ◌∷◌, ◌++◌, some, arith, ◌==◌}
use proxy_systems.Common.Text.{Text, codes, text_eq, Free, Free-any, break_at}
use proxy_systems.Util.{
  scheme_mark, mask, at_sign, colon, sanitize_url, scrub_credentials, ends_authority, ends_url,
  is_whitespace,
}
use proxy_systems.Util.Masking.{
  authority_of, IsAuthority, sanitize_url-masks, scrub_credentials-masks,
}
use proxy_systems.Util.Texts.{Credentials, Separates, written, masked, scrub_credentials-all}
use proxy_systems.Proxy.Health.{blend, byte_len, trim_reason}
use proxy_systems.Proxy.Health.Laws.{blend_bounds, trim_reason-byte_len}
use proxy_systems.Proxy.Entry.{set_tags}
use proxy_systems.Proxy.Store.{alloc}
use proxy_systems.Proxy.Loader.{ParsedProxy, parse_proxies}
use proxy_systems.Proxy.Loader.Laws.{IsProxyList, HasDistinctUrls, parse_proxies-IsProxyList}
use proxy_systems.Proxy.Pool.{new_pool, reload, find_url, put_url, get_url, fill, push_new_entry}
use proxy_systems.Proxy.Pool.Reload.{IsIndexed}
use proxy_systems.Proxy.Pool.Indexed.{reload-IsIndexed, new_pool-IsIndexed}
use proxy_systems.Proxy.Pool.Retained.{reload-retains}
use proxy_systems.Examples.Fixtures.{second_url, two_listed, empty_store, two_pool, two_store}

two_listed-distinct : HasDistinctUrls two_listed
unfolding text_eq
two_listed-distinct = ((refl, tt), (tt, tt))

-- The file as it is read again: the second proxy with another tag, behind a new one.
abbrev retagged : ParsedProxy
retagged = record { url = second_url; tags = codes "us" ∷ [] }

abbrev listed_again : List ParsedProxy
listed_again = record { url = codes "http://c"; tags = [] } ∷ retagged ∷ []

listed_again-distinct : HasDistinctUrls listed_again
unfolding text_eq
listed_again-distinct = ((refl, tt), (tt, tt))

second_known : find_url two_pool second_url ≡ some 1
unfolding find_url new_pool fill push_new_entry alloc put_url get_url text_eq
second_known = refl

two_pool-IsIndexed : IsIndexed two_pool two_store
two_pool-IsIndexed = new_pool-IsIndexed two_listed empty_store two_listed-distinct

reload-IsIndexed_example :
    IsIndexed (reload listed_again two_pool two_store).0 (reload listed_again two_pool two_store).1
reload-IsIndexed_example =
    reload-IsIndexed listed_again two_pool two_store listed_again-distinct two_pool-IsIndexed

reload-retains_example :
    (find_url (reload listed_again two_pool two_store).0 second_url ≡ some 1)
    × ((reload listed_again two_pool two_store).1.entry 1
        ≡ set_tags (codes "us" ∷ []) (two_store.entry 1))
reload-retains_example =
    reload-retains listed_again two_pool two_store retagged 1 listed_again-distinct
      two_pool-IsIndexed (Memᴰ.tail (Memᴰ.head refl)) second_known

parse_proxies-IsProxyList_example : IsProxyList (parse_proxies (codes "http://a eu eu"))
parse_proxies-IsProxyList_example = parse_proxies-IsProxyList (codes "http://a eu eu")

blend_bounds_example : (min 100 40 ≤ blend 100 40) × (blend 100 40 ≤ max 100 40)
blend_bounds_example = blend_bounds 100 40 (omega arith) (omega arith) (omega arith)

trim_reason-byte_len_example : byte_len (trim_reason (codes "connect timeout")) ≤ 203
trim_reason-byte_len_example = trim_reason-byte_len (codes "connect timeout")

abbrev user : Text
user = codes "u"

-- A password that holds a colon and an at sign.
abbrev pass : Text
pass = codes "p:@s"

abbrev host : Text
host = codes "h:8080"

host-IsAuthority : IsAuthority user pass host
unfolding ends_authority
host-IsAuthority = record {
  whole = Free-any ends_authority (authority_of user pass host) refl;
  user_plain = Free-any (λ c. c == colon) user refl;
  host_plain = Free-any (λ c. c == at_sign) host refl;
}

path_ends : (break_at ends_authority (codes "/x")).0 ≡ []
unfolding break_at ends_authority
path_ends = refl

later_ends : (break_at ends_url (codes " again")).0 ≡ []
unfolding break_at ends_url is_whitespace
later_ends = refl

no_url_end : Free ends_url (authority_of user pass host ++ codes "/x")
unfolding ends_url is_whitespace
no_url_end = Free-any ends_url (authority_of user pass host ++ codes "/x") refl

-- `http://u:p:@s@h:8080/x` and what becomes of it.
sanitize_url-masks_example :
    sanitize_url (codes "http" ++ (scheme_mark ++ (authority_of user pass host ++ codes "/x")))
    ≡ codes "http" ++ (scheme_mark ++ ((user ++ mask) ++ at_sign ∷ (host ++ codes "/x")))
sanitize_url-masks_example =
    sanitize_url-masks (codes "http") user pass host (codes "/x")
      (Free-any (λ c. c == colon) (codes "http") refl) host-IsAuthority path_ends

scrub_credentials-masks_example :
    scrub_credentials (
      codes "via http"
      ++ (scheme_mark ++ ((authority_of user pass host ++ codes "/x") ++ codes " again")))
    ≡ codes "via http"
      ++ (scheme_mark
          ++ ((((user ++ mask) ++ at_sign ∷ host) ++ codes "/x")
              ++ scrub_credentials (codes " again")))
scrub_credentials-masks_example =
    scrub_credentials-masks (codes "via http") user pass host (codes "/x") (codes " again")
      (Free-any (λ c. c == colon) (codes "via http") refl) host-IsAuthority path_ends no_url_end
      later_ends

abbrev a_url : Text → Credentials
a_url before = record { before = before; user = user; pass = pass; host = host; path = codes "/x" }

-- Two URLs with credentials in one text.
abbrev two_urls : List Credentials
two_urls = a_url (codes "via http") ∷ a_url (codes " or http") ∷ []

two_urls-Separates : Separates two_urls (codes " again")
unfolding Separates written break_at ends_url is_whitespace
two_urls-Separates = (
  Free-any (λ c. c == colon) (codes "via http") refl,
  host-IsAuthority,
  path_ends,
  no_url_end,
  refl,
  (
    Free-any (λ c. c == colon) (codes " or http") refl,
    host-IsAuthority,
    path_ends,
    no_url_end,
    refl,
    Free-any (λ c. c == colon) (codes " again") refl,
  ),
)

scrub_credentials-all_example :
    scrub_credentials (written two_urls (codes " again")) ≡ masked two_urls (codes " again")
scrub_credentials-all_example = scrub_credentials-all two_urls (codes " again") two_urls-Separates
