-- ===== src/Dispatch/Outcome.antt =====
-- intermediate-proxy/src/dispatch/mod.rs, the data and the functions that touch no shared state:
-- the request, the default verdict, the buffered failures and the answer made of them.
pub mod Bounds
use proxy_systems.Common.{
  ℕ, zero, suc, ◌+◌, ◌-◌, ◌*◌, ◌/◌, ◌%◌, Bool, true, false, ◌&&◌, ◌||◌, List, [], ◌∷◌, ◌++◌, Option,
  none, some, ltb, leb, ◌==◌, if◌then◌else◌, length, take, find, is_some, cons_some,
}
use proxy_systems.Common.Text.{Text, codes}
use proxy_systems.Http.{Bytes, Chunk, got, broken, Reply}
use proxy_systems.Lua.{ResponseVerdict, success, return_as_is, retry_other_proxy}

abbrev pub max_capture_buffer : ℕ
max_capture_buffer = 10 * 1024 * 1024

abbrev pub failed_body_cap : ℕ
failed_body_cap = 64 * 1024

pub record FailedResponse : Type 0 where
  pub status : ℕ
  pub content_type : Option Text
  pub body : Bytes

pub record Request (H : Type 0) : Type 0 where
  pub method : Text
  pub headers : H
  pub body : Bytes
  pub target_url : Text
  pub host : Text
  pub path : Text

unfoldable pub default_verdict : ℕ → ℕ → ResponseVerdict
default_verdict status default_ban_ms =
    if status == 403
    then return_as_is
    else if status == 421 || status == 429 || status == 500 || status == 502 || status == 503
    then retry_other_proxy default_ban_ms
    else if leb 500 status
    then retry_other_proxy default_ban_ms
    else success

-- The loop of `buffer_failed` over the body stream.
unfoldable pub buffer_chunks : Bytes → List Chunk → Bytes
buffer_chunks buf [] = buf
buffer_chunks buf (broken reason ∷ more) = buf
buffer_chunks buf (got b ∷ more) =
    let rest = buffer_chunks (buf ++ b) more in
    if failed_body_cap - length buf == 0
    then buf
    else if leb (length b) (failed_body_cap - length buf)
    then rest
    else buf ++ take (failed_body_cap - length buf) b

-- The `HashMap` of `build_most_common`, as an association list: how often a status was seen.
unfoldable pub bump : ℕ → List (ℕ × ℕ) → List (ℕ × ℕ)
bump status [] = (status, 1) ∷ []
bump status ((k, n) ∷ m) =
    let rest = bump status m in if k == status then (k, n + 1) ∷ m else (k, n) ∷ rest

unfoldable pub count_statuses : List (ℕ × ℕ) → List FailedResponse → List (ℕ × ℕ)
count_statuses m [] = m
count_statuses m (f ∷ more) = count_statuses (bump f.status m) more

-- `max_by_key` over the map. The iteration order of the map is that of the hash; `choose` stands for
-- it, and the last of the maxima is taken.
unfoldable pub max_count : Option (ℕ × ℕ) → List (ℕ × ℕ) → Option (ℕ × ℕ)
max_count best [] = best
max_count none (p ∷ more) = max_count (some p) more
max_count (some b) (p ∷ more) = max_count (some (if leb b.1 p.1 then p else b)) more

-- `build_most_common`: the failure that is answered with.
unfoldable pub most_common :
    (List (ℕ × ℕ) → List (ℕ × ℕ)) → List FailedResponse → Option FailedResponse
most_common choose failures = elim (max_count none (choose (count_statuses [] failures))) [
  | none ↦ none
  | some best ↦ find (λ f. f.status == best.0) failures
]

-- The decimal digits of a number, with fuel for the digits of a 64-bit number.
unfoldable pub show_digits : ℕ → ℕ → Text → Text
show_digits zero n acc = acc
show_digits (suc fuel) n acc =
    let rest = show_digits fuel (n / 10) ((b'0' + n % 10) ∷ acc) in
    if ltb n 10 then (b'0' + n) ∷ acc else rest

unfoldable pub show : ℕ → Text
show n = show_digits 20 n []
