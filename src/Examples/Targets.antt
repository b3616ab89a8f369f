-- ===== src/Examples/Targets.antt =====
-- The theorem on targets, at header maps that are lists of pairs and a codec that keeps everything.
use proxy_systems.Common.{
  ◌≡◌, ◌≢◌, refl, true, false, List, [], ◌∷◌, ◌++◌, Option, none, some, if◌then◌else◌, is_some, inl,
  inr, Bool-cases, arith,
}
use proxy_systems.Common.Text.{Text, codes, text_eq, text_eq_refl, starts_with, strip_prefix}
use proxy_systems.Http.{HeaderApi}
use proxy_systems.Shared.{Codec, is_http_url, decode_target}
use proxy_systems.Upstream.{endpoint, send_to_upstream}
use proxy_systems.Handler.{
  set_target, UrlApi, Head, is_redirection, is_host, absolute_location, serve,
  rewrite_location_to_self, x_target_handler,
}
use proxy_systems.Handler.Redirect.{rewrite_location_to_self-x_target_handler}
use proxy_systems.Route.Def.{RouteDef}
use proxy_systems.Dispatch.Outcome.{Request}
use proxy_systems.Handler.Laws.{CodecLaws, HeaderLaws, first, or_else}
use proxy_systems.Handler.Target.{Addresses, send_to_upstream-Addresses}
use proxy_systems.Handler.{Incoming}
use proxy_systems.Common.Results.{Result, err}
use proxy_systems.SimpleProxy.{Urls, Sent, UpstreamResponse, rejected, provided, proxy_handler}
use proxy_systems.SimpleProxy.Guarded.{IsClean, proxy_handler-guarded}
use mathlib.Core.Option

abbrev Listed : Type 0
Listed = List (Text × Text)

-- An insert goes to the front and hides what was there.
abbrev front_headers : HeaderApi
front_headers = record {
  Headers = Listed;
  empty = [];
  pairs = λ h. h;
  get = first;
  get_value = first;
  contains_key = λ k h. is_some (first k h);
  remove = λ k h. h;
  insert_valid = λ k v h. (k, v) ∷ h;
  HeaderValue = Text;
  entries = λ h. h;
  append = λ k v h. h ++ (k, v) ∷ [];
  insert = λ k v h. (k, v) ∷ h;
  from_static = λ v. v;
  to_str = some;
}

abbrev identity : Codec
identity = record { bytes_of = λ t. t; from_utf8 = some; encode = λ b. b; decode = some }

bind_some : (v : Option Text) → v ≡ Option.bind v some
unfolding Option.bind
bind_some none = refl
bind_some (some t) = refl

first_append :
    (k n v : Text) (h : Listed)
    → first k (h ++ (n, v) ∷ []) ≡ or_else (first k h) (if text_eq n k then some v else none)
unfolding first
first_append k n v [] = refl
first_append k n v ((m, w) ∷ h) = elim (Bool-cases (text_eq m k)) [
  | inl e ↦ rw e refl
  | inr e ↦ rw e (first_append k n v h)
]

first_self : (k v : Text) (h : Listed) → first k ((k, v) ∷ h) ≡ some v
unfolding first
first_self k v h = rw (text_eq_refl k) refl

identity-laws : CodecLaws identity
identity-laws = record { decode-encode = λ b. refl; from_utf8-bytes_of = λ t. refl }

front-laws : HeaderLaws front_headers identity
unfolding first
front-laws = record {
  get-first = λ k h. bind_some (first k h);
  first-empty = λ k. refl;
  first-append = first_append;
  first-insert = λ k n v h. refl;
  first-insert_valid = λ k n v h e. rw e refl;
  get-insert_valid = first_self;
}

a_target : is_http_url (codes "https://x/y") ≡ true
unfolding is_http_url starts_with strip_prefix
a_target = refl

send_to_upstream-Addresses_example :
    Addresses front_headers identity identity-laws front-laws
      (send_to_upstream front_headers identity
        (λ url. none)
        (endpoint (codes "https://w"))
        (codes "GET")
        (set_target front_headers identity (codes "https://x/y") [])
        []
        none)
      (codes "https://x/y")
      (endpoint (codes "https://w"))
send_to_upstream-Addresses_example =
    send_to_upstream-Addresses front_headers identity identity-laws front-laws (λ url. none)
      (endpoint (codes "https://w")) (codes "GET") (codes "https://x/y") [] [] none a_target tt

abbrev some_urls : Urls
some_urls = record {
  parses = λ t. true;
  host_of = λ t. some (codes "x");
  scheme = λ t. codes "https";
  join = λ base t. some t;
}

-- A client without the token.
abbrev a_client : Incoming Listed
a_client = record {
  method = codes "GET";
  headers = (codes "x-target", codes "https://x/y") ∷ [];
  body = some [];
}

abbrev no_answer : Sent Listed → Result (UpstreamResponse Listed)
no_answer out = err (codes "refused")

proxy_handler-guarded_example :
    (([] ≢ codes "key")
      → proxy_handler front_headers identity some_urls (some (codes "key")) no_answer a_client
        ≡ (none, rejected 401 (codes "Unauthorized")))
    × IsClean front_headers identity some_urls identity-laws front-laws
        (Option.bind (first (codes "x-target") a_client.headers) (decode_target identity))
        (proxy_handler front_headers identity some_urls (some (codes "key")) no_answer a_client).0
unfolding provided first text_eq
proxy_handler-guarded_example =
    proxy_handler-guarded front_headers identity some_urls identity-laws front-laws (codes "key")
      no_answer a_client tt (omega arith, (omega arith, (omega arith, tt)))

-- Every URL is on the host `z`.
abbrev z_urls : UrlApi
z_urls = record { parse = λ t. some (some (codes "z"), codes "/q"); join = λ base t. some (some t) }

abbrev redirection : Head Listed
redirection = record { status = 302; headers = (codes "location", codes "https://z/q") ∷ [] }

abbrev no_run : RouteDef → Request Listed → Head Listed
no_run route req = redirection

redirection-absolute :
    absolute_location front_headers identity z_urls (codes "https://z/q") (codes "https://x/y")
    ≡ some (codes "https://z/q")
unfolding absolute_location is_http_url starts_with strip_prefix
redirection-absolute = refl

redirection-elsewhere :
    is_host front_headers identity z_urls (z_urls.parse (codes "https://z/q")) (codes "p") ≡ false
unfolding is_host text_eq
redirection-elsewhere = refl

redirection-is_redirection : is_redirection 302 ≡ true
unfolding is_redirection
redirection-is_redirection = refl

redirection-get : first (codes "location") redirection.headers ≡ some (codes "https://z/q")
redirection-get = first_self (codes "location") (codes "https://z/q") []

z_target : is_http_url (codes "https://z/q") ≡ true
unfolding is_http_url starts_with strip_prefix
z_target = refl

rewrite_location_to_self-x_target_handler_example :
    ((rewrite_location_to_self front_headers identity z_urls redirection
        (codes "https://x/y")
        (codes "p")).headers
      ≡ (codes "location", codes "https://p/x-target/https://z/q") ∷ redirection.headers)
    × (x_target_handler front_headers identity z_urls none
          (λ p t. false)
          (λ id ctx. false)
          []
          no_run
          (codes "https://z/q")
          a_client
        ≡ serve front_headers identity z_urls none
            (λ p t. false)
            (λ id ctx. false)
            []
            no_run
            (codes "https://z/q")
            a_client
            (first (codes "host") a_client.headers))
rewrite_location_to_self-x_target_handler_example =
    rewrite_location_to_self-x_target_handler front_headers identity z_urls identity-laws none
      (λ p t. false) (λ id ctx. false) [] no_run redirection (codes "https://x/y") (codes "p")
      (codes "https://z/q") (codes "https://z/q") (codes "https://z/") b'q' a_client
      redirection-is_redirection redirection-get redirection-absolute redirection-elsewhere z_target
      refl refl
