-- ===== src/Common/Text.antt =====
-- Rust text as a list of code points, with the tests of `str` that the program uses.
use Prim.Native.Char.{code}
use Prim.Native.String.{String}
use Prim.Native.Nat.{ℕ, ◌+◌, ◌/◌, ◌%◌}
use mathlib.Core.Path.{◌≡◌, refl}
use mathlib.Core.Logic.{◌↔◌}
use mathlib.Core.Bool.{Bool, true, false, ◌&&◌, ◌||◌}
use mathlib.Core.Option
use mathlib.Core.Option.{Option, none, some}
use mathlib.Core.List.{List, [], ◌∷◌, ◌++◌, map}
use native.Mathlib.Omega.{arith}
use proxy_systems.Common.Tests.{ltb, leb, ◌==◌, if◌then◌else◌}
use proxy_systems.Common.Lists.{All, any, is_some}

abbrev pub Text : Type 0
Text = List ℕ

-- The code points of a literal.
abbrev pub codes : String → Text
codes String.[] = []
codes (String.◌∷◌ c s) = code c ∷ codes s

unfoldable pub text_eq : Text → Text → Bool
text_eq [] [] = true
text_eq (a ∷ s) (b ∷ t) = a == b && text_eq s t
text_eq _ _ = false

pub text_eq_iff : (s t : Text) → (text_eq s t ≡ true) ↔ (s ≡ t)
unfolding text_eq
text_eq_iff [] [] = (λ _. refl, λ _. refl)
text_eq_iff [] (b ∷ t) = ground arith
text_eq_iff (a ∷ s) [] = ground arith
text_eq_iff (a ∷ s) (b ∷ t) = ground (arith, text_eq_iff s t)

pub text_eq_refl : (s : Text) → text_eq s s ≡ true
text_eq_refl s = (text_eq_iff s s).1 refl

-- `xs.iter().any(|t| t == s)`, that is `contains`.
unfoldable pub has_text : List Text → Text → Bool
has_text [] s = false
has_text (t ∷ ts) s = text_eq t s || has_text ts s

-- `str::strip_prefix`.
unfoldable pub strip_prefix : Text → Text → Option Text
strip_prefix [] s = some s
strip_prefix (a ∷ p) [] = none
strip_prefix (a ∷ p) (b ∷ s) = let rest = strip_prefix p s in if a == b then rest else none

pub strip_prefix-append : (p s : Text) → strip_prefix p (p ++ s) ≡ some s
unfolding strip_prefix
strip_prefix-append [] s = refl
strip_prefix-append (a ∷ p) s = ground (arith, strip_prefix-append p s)

pub strip_prefix-eq-some : (p s r : Text) → strip_prefix p s ≡ some r → s ≡ p ++ r
unfolding strip_prefix
strip_prefix-eq-some [] s r e = ground arith
strip_prefix-eq-some (a ∷ p) [] r e = cc
strip_prefix-eq-some (a ∷ p) (b ∷ s) r e = ground (arith, strip_prefix-eq-some p s r)

-- `str::starts_with`.
unfoldable pub starts_with : Text → Text → Bool
unfolding strip_prefix
starts_with s p = is_some (strip_prefix p s)

-- `str::to_ascii_lowercase`, on one code point and on a text.
unfoldable pub lower_char : ℕ → ℕ
lower_char c = if leb b'A' c && leb c b'Z' then c + 32 else c

unfoldable pub to_ascii_lowercase : Text → Text
unfolding lower_char
to_ascii_lowercase s = map lower_char s

-- `str::eq_ignore_ascii_case`.
unfoldable pub eq_ignore_ascii_case : Text → Text → Bool
unfolding to_ascii_lowercase text_eq
eq_ignore_ascii_case s t = text_eq (to_ascii_lowercase s) (to_ascii_lowercase t)

-- The split of `s` round the first occurrence of a pattern: `find`, and the two slices beside it.
unfoldable pub split_once : Text → Text → Option (Text × Text)
unfolding strip_prefix
split_once p [] = elim (strip_prefix p []) [ some r ↦ some ([], r) | none ↦ none ]
split_once p (c ∷ s) =
    let later = split_once p s in
    elim (strip_prefix p (c ∷ s)) [
      | some r ↦ some ([], r)
      | none ↦ Option.map (λ (halves : Text × Text). (c ∷ halves.0, halves.1)) later
    ]

-- The longest front part with no character of a class, and what follows it.
unfoldable pub break_at : (ℕ → Bool) → Text → Text × Text
break_at stop [] = ([], [])
break_at stop (c ∷ s) =
    let (front, back) = break_at stop s in if stop c then ([], c ∷ s) else (c ∷ front, back)

-- The split round the last occurrence of a character: `rfind`, and the two slices beside it.
unfoldable pub rsplit_once : ℕ → Text → Option (Text × Text)
rsplit_once at [] = none
rsplit_once at (c ∷ s) = elim (rsplit_once at s) [
  | some halves ↦ some (c ∷ halves.0, halves.1)
  | none ↦ if c == at then some ([], s) else none
]

-- No character of the text passes the test.
abbrev pub Free : (ℕ → Bool) → Text → Type 0
Free stop s = All (λ c. stop c ≡ false) s

-- To see it by running the test.
pub Free-any : (stop : ℕ → Bool) (s : Text) → any stop s ≡ false → Free stop s
Free-any stop [] h = tt
Free-any stop (c ∷ s) h = (ground (arith, h), Free-any stop s (ground (arith, h)))

pub break_at-append :
    (stop : ℕ → Bool) (s t : Text)
    → Free stop s
    → (break_at stop t).0 ≡ []
    → break_at stop (s ++ t) ≡ (s, t)
unfolding break_at
break_at-append stop [] [] h e = refl
break_at-append stop [] (c ∷ t) h e = ground arith
break_at-append stop (c ∷ s) t h e = ground (arith, break_at-append stop s t h.1 e)

pub rsplit_once_free : (at : ℕ) (s : Text) → Free (λ c. c == at) s → rsplit_once at s ≡ none
unfolding rsplit_once
rsplit_once_free at [] h = refl
rsplit_once_free at (c ∷ s) h = ground (arith, rsplit_once_free at s h.1)

pub rsplit_once-append :
    (at : ℕ) (s t : Text) → Free (λ c. c == at) t → rsplit_once at (s ++ at ∷ t) ≡ some (s, t)
unfolding rsplit_once
rsplit_once-append at [] t h = ground (arith, rsplit_once_free at t h)
rsplit_once-append at (c ∷ s) t h = ground (arith, rsplit_once-append at s t h)

-- `str::as_bytes`: the UTF-8 bytes of a text.
unfoldable pub utf8_char : ℕ → List ℕ
utf8_char c =
    if ltb c 128
    then c ∷ []
    else if ltb c 2048
    then (192 + c / 64) ∷ (128 + c % 64) ∷ []
    else if ltb c 65536
    then (224 + c / 4096) ∷ (128 + c / 64 % 64) ∷ (128 + c % 64) ∷ []
    else (240 + c / 262144) ∷ (128 + c / 4096 % 64) ∷ (128 + c / 64 % 64) ∷ (128 + c % 64) ∷ []

unfoldable pub as_bytes : Text → List ℕ
as_bytes [] = []
as_bytes (c ∷ s) = utf8_char c ++ as_bytes s
