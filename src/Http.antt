-- ===== src/Http.antt =====
-- The parts of the HTTP crates that intermediate-proxy/src relies on: header maps as an interface,
-- a reply with its body as a stream of chunks, and the check of a status code.
use proxy_systems.Common.{
  ℕ, Bool, false, ◌&&◌, ◌||◌, List, [], ◌∷◌, ◌++◌, Option, none, some, ltb, leb, if◌then◌else◌,
}
use proxy_systems.Common.Text.{Text, codes, starts_with, to_ascii_lowercase}

abbrev pub Bytes : Type 0
Bytes = List ℕ

-- `HeaderMap`: its entries in order, with names in lower case, and its operations. `get` gives the
-- first value of a name, if it is text, and `get_value` gives it whether or not it is text. `pairs` are
-- the entries whose value is text, and `entries` are all.
pub record HeaderApi : Type 1 where
  pub Headers : Type 0
  pub empty : Headers
  pub pairs : Headers → List (Text × Text)
  pub get : Text → Headers → Option Text
  pub get_value : Text → Headers → Option Text
  pub contains_key : Text → Headers → Bool
  pub remove : Text → Headers → Headers
  pub insert_valid : Text → Text → Headers → Headers
  pub HeaderValue : Type 0
  pub entries : Headers → List (Text × HeaderValue)
  pub append : Text → HeaderValue → Headers → Headers
  pub insert : Text → HeaderValue → Headers → Headers
  pub from_static : Text → HeaderValue
  pub to_str : HeaderValue → Option Text

-- One item of a body stream: bytes, or the error that ends it.
pub data Chunk : Type 0 where
  got : Bytes → Chunk
  broken : Text → Chunk

-- A reply with what its body brings up to its end or its error. A body that brings nothing more and does
-- not end either is not among these: where the program waits for it without a limit of time, nothing
-- that follows happens.
pub record Reply (H : Type 0) : Type 0 where
  pub status : ℕ
  pub headers : H
  pub chunks : List Chunk

-- `resp.bytes()`: the whole body, or the first error.
pub data Collected : Type 0 where
  whole : Bytes → Collected
  cut : Text → Collected

unfoldable pub collect_body : Bytes → List Chunk → Collected
collect_body acc [] = whole acc
collect_body acc (got b ∷ more) = collect_body (acc ++ b) more
collect_body acc (broken reason ∷ more) = cut reason

-- `StatusCode::from_u16(status).unwrap_or(default)`.
unfoldable pub valid_status : ℕ → ℕ → ℕ
valid_status status default = if leb 100 status && ltb status 1000 then status else default

abbrev pub bad_gateway : ℕ
bad_gateway = 502

-- `is_html_response` of stream.rs and `is_html_ct` of dispatch/mod.rs, which are the same function.
unfoldable pub is_html : Option Text → Bool
is_html none = false
is_html (some ct) =
    starts_with (to_ascii_lowercase ct) (codes "text/html")
    || starts_with (to_ascii_lowercase ct) (codes "application/xhtml")

-- What sending a request to an upstream gives: a reply, an error with its description and whether it
-- is a connect error, or the end of the route's time budget.
pub data Exchange (H : Type 0) : Type 0 where
  replied : Reply H → Exchange H
  refused : Text → Bool → Exchange H
  timed_out : Exchange H
