-- ===== src/Common/Results.antt =====
-- `Result<A, String>`: a value, or the text of an error, with the `?` operator and `map_err`.
use proxy_systems.Common.Text.{Text}
use mathlib.Core.Bool.{Bool, true, false}

pub data Result {ℓ} (A : Type ℓ) : Type ℓ where
  ok : A → Result A
  err : Text → Result A

module _ {ℓ κ} {A : Type ℓ} {B : Type κ} where
  -- The `?` operator: the rest of the function runs on a value, and an error is passed on.
  abbrev pub and_then : Result A → (A → Result B) → Result B
  and_then (ok a) f = f a
  and_then (err e) f = err e

  abbrev pub map_ok : (A → B) → Result A → Result B
  map_ok f (ok a) = ok (f a)
  map_ok f (err e) = err e

module _ {ℓ} {A : Type ℓ} where
  abbrev pub map_err : (Text → Text) → Result A → Result A
  map_err f (ok a) = ok a
  map_err f (err e) = err (f e)

  abbrev pub is_ok : Result A → Bool
  is_ok (ok a) = true
  is_ok (err e) = false

module _ {ℓ κ} {A : Type ℓ} where
  -- What holds of the value, if there is one.
  abbrev pub Accepts : (A → Type κ) → Result A → Type κ
  Accepts P (ok a) = P a
  Accepts P (err e) = Unit
