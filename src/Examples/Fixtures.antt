-- ===== src/Examples/Fixtures.antt =====
-- The concrete data that the examples share: two proxies in a store, a route, a request and a network
-- that always answers.
use proxy_systems.Common.{Bool, true, false, List, [], ◌∷◌, ◌++◌, Option, none, some, if◌then◌else◌}
use proxy_systems.Common.Text.{Text, codes, text_eq}
use proxy_systems.Proxy.Entry.{new_entry}
use proxy_systems.Proxy.Store.{Store}
use proxy_systems.Proxy.Loader.{ParsedProxy}
use proxy_systems.Proxy.Pool.{ProxyPool, new_pool}
use proxy_systems.Route.Def.{Matcher, Selector, RouteDef, any_host, any_path}
use proxy_systems.Http.{HeaderApi, Reply, Exchange, got}
use proxy_systems.Lua.{Hooks, return_as_is, retry_all}
use proxy_systems.Dispatch.Outcome.{Request}
use proxy_systems.Dispatch.Attempt.{World}
use proxy_systems.Dispatch.Run.{Rounds}

abbrev pub first_url : Text
first_url = codes "http://a"

abbrev pub second_url : Text
second_url = codes "socks5://b"

abbrev pub eu : Text
eu = codes "eu"

-- A file that lists both proxies, the second with a tag.
abbrev pub two_listed : List ParsedProxy
two_listed =
    record { url = first_url; tags = [] } ∷ record { url = second_url; tags = eu ∷ [] } ∷ []

abbrev pub empty_store : Store
empty_store = record { entry = λ a. new_entry [] []; next = 0 }

abbrev pub two_pool : ProxyPool
two_pool = (new_pool two_listed empty_store).0

abbrev pub two_store : Store
two_store = (new_pool two_listed empty_store).1

abbrev pub anything : Matcher
anything = record { host = any_host; path = any_path; methods = none; has_predicate = false }

abbrev pub route_with : Selector → RouteDef
route_with sel = record {
  id = 0;
  name = codes "all";
  matcher = anything;
  pool_all_tags = [];
  pool_any_tags = [];
  prefer_tags = eu ∷ [];
  exclude_tags = [];
  selector = sel;
  hedge = record { max_parallel = 2; delay_ms = 100 };
  max_attempts = 3;
  timeout_ms = 1000;
  slow_ms = 500;
  fail_streak = 3;
  attempt_backoff_ms = 0;
  capture_body_bytes = 0;
  prefer_non_reserve = true;
  default_ban_ms = 60000;
  hooks = record { on_request = false; on_response = false; on_exhausted = false };
  probe = none;
}

-- Header maps as lists of pairs.
abbrev pub pair_headers : HeaderApi
pair_headers = record {
  Headers = List (Text × Text);
  empty = [];
  pairs = λ h. h;
  get = lookup;
  get_value = lookup;
  contains_key = has_key;
  remove = drop_key;
  insert_valid = put;
  HeaderValue = Text;
  entries = λ h. h;
  append = λ k v h. h ++ (k, v) ∷ [];
  insert = put;
  from_static = λ v. v;
  to_str = some;
}
  where
    lookup : Text → List (Text × Text) → Option Text
    lookup k [] = none
    lookup k ((n, v) ∷ h) = if text_eq n k then some v else lookup k h

    has_key : Text → List (Text × Text) → Bool
    has_key k [] = false
    has_key k ((n, v) ∷ h) = if text_eq n k then true else has_key k h

    drop_key : Text → List (Text × Text) → List (Text × Text)
    drop_key k [] = []
    drop_key k ((n, v) ∷ h) = if text_eq n k then drop_key k h else (n, v) ∷ drop_key k h

    put : Text → Text → List (Text × Text) → List (Text × Text)
    put k v [] = (k, v) ∷ []
    put k v ((n, w) ∷ h) = if text_eq n k then (k, v) ∷ h else (n, w) ∷ put k v h

abbrev pub Pairs : Type 0
Pairs = List (Text × Text)

abbrev pub a_reply : Reply Pairs
a_reply = record { status = 503; headers = []; chunks = got (codes "busy") ∷ [] }

-- A network in which each exchange ends as given.
abbrev pub world_of : Exchange Pairs → World Pairs
world_of x = record {
  exchange = λ k e h. x;
  now = λ k. 1000;
  elapsed = λ k. 20;
  since_start = λ k. 30;
  from_utf8_lossy = λ b. b;
}

abbrev pub some_hooks : Hooks
some_hooks = record {
  on_request = λ k id ctx. record {
    add_headers = [];
    drop_headers = [];
    override_all_tags = none;
    force_proxy = none;
  };
  on_response = λ k id ctx res n. return_as_is;
  on_exhausted = λ k id ctx. retry_all;
}

abbrev pub a_request : Request Pairs
a_request = record {
  method = codes "GET";
  headers = [];
  body = [];
  target_url = codes "http://x/";
  host = codes "x";
  path = codes "/";
}

abbrev pub some_rounds : Rounds
some_rounds = record {
  pool_at = λ k. two_pool;
  plan_now = λ k. 1000;
  draw = λ k n. 0;
  events = λ k. [];
  hash = λ t. 1;
  choose = λ m. m;
}
