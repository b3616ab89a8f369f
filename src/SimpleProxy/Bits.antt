-- ===== src/SimpleProxy/Bits.antt =====
-- simple-proxy/src/handler.rs: the comparison without early exit is equality of bytes.
use proxy_systems.Common.{
  ℕ, zero, suc, ◌/◌, ◌^◌, ◌<◌, ◌≡◌, ◌↔◌, refl, sym, ap, ◌∙◌, true, false, not, [], ◌∷◌,
  if◌then◌else◌, ◌==◌, length, All, arith,
}
use proxy_systems.Http.{Bytes}
use proxy_systems.SimpleProxy.{xor_bits, or_bits, diff_from, constant_time_eq}
use mathlib.Core.Path.{ap₂}

xor_bits-same : (w x : ℕ) → xor_bits w x x ≡ 0
unfolding xor_bits
xor_bits-same zero x = refl
xor_bits-same (suc w) x = ground (arith, xor_bits-same w (x / 2))

xor_bits-zero : (w x y : ℕ) → x < 2 ^ w → y < 2 ^ w → xor_bits w x y ≡ 0 → x ≡ y
unfolding xor_bits
xor_bits-zero zero x y l m e = omega (arith, l, m)
xor_bits-zero (suc w) x y l m e =
    let halves : (x / 2 < 2 ^ w) × (y / 2 < 2 ^ w) = (omega (arith, l), omega (arith, m)) in
    ground (arith, e, xor_bits-zero w (x / 2) (y / 2) halves.0 halves.1)

or_bits-zero : (w x y : ℕ) → x < 2 ^ w → y < 2 ^ w → or_bits w x y ≡ 0 → (x ≡ 0) × (y ≡ 0)
unfolding or_bits
or_bits-zero zero x y l m e = (omega (arith, l), omega (arith, m))
or_bits-zero (suc w) x y l m e =
    let halves : (x / 2 < 2 ^ w) × (y / 2 < 2 ^ w) = (omega (arith, l), omega (arith, m)) in
    let rest = or_bits-zero w (x / 2) (y / 2) halves.0 halves.1 in
    (ground (arith, e, rest), ground (arith, e, rest))

xor_bits-bound : (w x y : ℕ) → xor_bits w x y < 2 ^ w
unfolding xor_bits
xor_bits-bound zero x y = omega arith
xor_bits-bound (suc w) x y = ground (arith, xor_bits-bound w (x / 2) (y / 2))

or_bits-bound : (w x y : ℕ) → or_bits w x y < 2 ^ w
unfolding or_bits
or_bits-bound zero x y = omega arith
or_bits-bound (suc w) x y = ground (arith, or_bits-bound w (x / 2) (y / 2))

abbrev pub IsByte : ℕ → Type 0
IsByte x = x < 2 ^ 8

diff_from-zero :
    (d : ℕ) (xs ys : Bytes)
    → d < 2 ^ 8
    → All IsByte xs
    → All IsByte ys
    → length xs ≡ length ys
    → diff_from d xs ys ≡ 0
    → (d ≡ 0) × (xs ≡ ys)
unfolding diff_from
diff_from-zero d [] [] l a b n e = (e, refl)
diff_from-zero d [] (y ∷ ys) l a b n e = (ground (arith, n), ground (arith, n))
diff_from-zero d (x ∷ xs) [] l a b n e = (ground (arith, n), ground (arith, n))
diff_from-zero d (x ∷ xs) (y ∷ ys) l (x8, a) (y8, b) n e =
    let x' = xor_bits 8 x y in
    let rest =
      diff_from-zero (or_bits 8 d x') xs ys (or_bits-bound 8 d x') a b (omega (arith, n)) e in
    let bits = or_bits-zero 8 d x' l (xor_bits-bound 8 x y) rest.0 in
    (bits.0, ap₂ (λ z zs. z ∷ zs) (xor_bits-zero 8 x y x8 y8 bits.1) rest.1)

diff_from-same : (xs : Bytes) → diff_from 0 xs xs ≡ 0
unfolding diff_from or_bits
diff_from-same [] = refl
diff_from-same (x ∷ xs) =
    ap (λ e. diff_from (or_bits 8 0 e) xs xs) (xor_bits-same 8 x) ∙ diff_from-same xs

-- On bytes, the comparison without early exit says whether the two are equal.
pub constant_time_eq_iff :
    (a b : Bytes) → All IsByte a → All IsByte b → (constant_time_eq a b ≡ true) ↔ (a ≡ b)
unfolding constant_time_eq
constant_time_eq_iff a b p q = (forth, back)
  where
    forth : (if not (length a == length b) then false else diff_from 0 a b == 0) ≡ true → a ≡ b
    forth e =
        let n : length a ≡ length b = ground (arith, e) in
        let z : diff_from 0 a b ≡ 0 = ground (arith, e) in
        (diff_from-zero 0 a b (omega arith) p q n z).1

    back : a ≡ b → (if not (length a == length b) then false else diff_from 0 a b == 0) ≡ true
    back e =
        let n : length a ≡ length b = ap length e in
        let z : diff_from 0 a b ≡ 0 = ap (λ c. diff_from 0 a c) (sym e) ∙ diff_from-same a in
        ground (arith, n, z)
