-- ===== src/Common/Permutations.antt =====
-- What holds of every element, and how many there are, does not change under a permutation.
use mathlib.Core.List.{Permᴰ}
use mathlib.Core.Logic.{∥∥₁_elim, ∥∥₁_map}
use mathlib.Core.HLevel.{×_prop}
use native.Mathlib.Nat.{ℕ_set}
use proxy_systems.Common.{suc, ◌≡◌, refl, ap, ◌∙◌, subst, List, [], ◌∷◌, Perm, map, length, All}

module _ {ℓ κ} {A : Type ℓ} (P : A → Type κ) where
  All-Permᴰ : {xs ys : List A} → Permᴰ xs ys → All P xs → All P ys
  All-Permᴰ Permᴰ.nil h = tt
  All-Permᴰ (Permᴰ.cons e d) h = (subst P e h.0, All-Permᴰ d h.1)
  All-Permᴰ (Permᴰ.swap e f) h = (subst P f h.1.0, (subst P e h.0, h.1.1))
  All-Permᴰ (Permᴰ.trans d d') h = All-Permᴰ d' (All-Permᴰ d h)

  All_prop : ((a : A) → IsProp (P a)) → (xs : List A) → IsProp (All P xs)
  All_prop p [] = λ _ _. refl
  All_prop p (x ∷ xs) = ×_prop (p x) (All_prop p xs)

  pub All-perm : ((a : A) → IsProp (P a)) → {xs ys : List A} → Perm xs ys → All P xs → All P ys
  All-perm p {ys} d h = ∥∥₁_elim d (All_prop p ys) (λ e. All-Permᴰ e h)

module _ {ℓ} {A : Type ℓ} where
  length-Permᴰ : {xs ys : List A} → Permᴰ xs ys → length xs ≡ length ys
  length-Permᴰ Permᴰ.nil = refl
  length-Permᴰ (Permᴰ.cons e d) = ap suc (length-Permᴰ d)
  length-Permᴰ (Permᴰ.swap e f) = refl
  length-Permᴰ (Permᴰ.trans d d') = length-Permᴰ d ∙ length-Permᴰ d'

  pub length-perm : {xs ys : List A} → Perm xs ys → length xs ≡ length ys
  length-perm d = ∥∥₁_elim d (ℕ_set _ _) length-Permᴰ

module _ {ℓ} {A B : Type ℓ} (f : A → B) where
  map-Permᴰ : {xs ys : List A} → Permᴰ xs ys → Permᴰ (map f xs) (map f ys)
  map-Permᴰ Permᴰ.nil = Permᴰ.nil
  map-Permᴰ (Permᴰ.cons e d) = Permᴰ.cons (ap f e) (map-Permᴰ d)
  map-Permᴰ (Permᴰ.swap e g) = Permᴰ.swap (ap f e) (ap f g)
  map-Permᴰ (Permᴰ.trans d d') = Permᴰ.trans (map-Permᴰ d) (map-Permᴰ d')

  pub map-perm : {xs ys : List A} → Perm xs ys → Perm (map f xs) (map f ys)
  map-perm d = ∥∥₁_map d map-Permᴰ
