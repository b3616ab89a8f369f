-- ===== src/Common/Order.antt =====
-- The standard library's stable sorts, as insertion sort: `sort_by`, `sort_by_key`, and what they
-- promise: a sort keeps the elements, orders them, and leaves ties in their former order.
use mathlib.Core.List.Perm
use proxy_systems.Common.Tests.{if◌then◌else◌, Bool-cases}
use proxy_systems.Common.Lists.{All, All-weaken, All-take, take}
use Prim.Native.Nat.{ℕ, zero, suc}
use mathlib.Core.Path.{◌≡◌}
use mathlib.Core.Logic.{inl, inr}
use mathlib.Core.Bool.{Bool, true, false}
use mathlib.Core.List.{List, [], ◌∷◌, Perm}

-- A Boolean test that orders a type up to ties.
pub record IsPreorder {ℓ} {A : Type ℓ} (le : A → A → Bool) : Type ℓ where
  pub total : (a b : A) → le a b ≡ false → le b a ≡ true
  pub trans : (a b c : A) → le a b ≡ true → le b c ≡ true → le a c ≡ true

-- Every element is related to all that follow it.
module _ {ℓ κ} {A : Type ℓ} (R : A → A → Type κ) where
  abbrev pub Pairwise : List A → Type κ
  Pairwise [] = Unit
  Pairwise (x ∷ xs) = All (R x) xs × Pairwise xs

module _ {ℓ κ κ'} {A : Type ℓ} {R : A → A → Type κ} {S : A → A → Type κ'} where
  pub Pairwise-weaken : (xs : List A) → ((a b : A) → R a b → S a b) → Pairwise R xs → Pairwise S xs
  Pairwise-weaken [] f h = tt
  Pairwise-weaken (x ∷ xs) f h = (All-weaken xs (f x) h.0, Pairwise-weaken xs f h.1)

module _ {ℓ κ} {A : Type ℓ} (R : A → A → Type κ) where
  pub Pairwise-take : (n : ℕ) (xs : List A) → Pairwise R xs → Pairwise R (take n xs)
  Pairwise-take zero xs h = tt
  Pairwise-take (suc n) [] h = tt
  Pairwise-take (suc n) (x ∷ xs) h = (All-take (R x) n xs h.0, Pairwise-take n xs h.1)

module _ {ℓ} {A : Type ℓ} (le : A → A → Bool) where
  pub insert : A → List A → List A
  insert x [] = x ∷ []
  insert x (y ∷ ys) = let rest = insert x ys in if le x y then x ∷ y ∷ ys else y ∷ rest

  unfoldable pub sort_by : List A → List A
  unfolding insert
  sort_by [] = []
  sort_by (x ∷ xs) = insert x (sort_by xs)

  insert-perm : (x : A) (ys : List A) → Perm (insert x ys) (x ∷ ys)
  unfolding insert
  insert-perm x [] = Perm.refl _
  insert-perm x (y ∷ ys) = elim (Bool-cases (le x y)) [
    | inl e ↦ rw e (Perm.refl _)
    | inr e ↦ rw e (Perm.trans (Perm.cons y (insert-perm x ys)) (Perm.swap x y ys))
  ]

  pub sort_by-perm : (xs : List A) → Perm (sort_by xs) xs
  unfolding sort_by
  sort_by-perm [] = Perm.refl _
  sort_by-perm (x ∷ xs) = Perm.trans (insert-perm x (sort_by xs)) (Perm.cons x (sort_by-perm xs))

  insert-All {κ} : (P : A → Type κ) (x : A) (ys : List A) → P x → All P ys → All P (insert x ys)
  unfolding insert
  insert-All P x [] p h = (p, tt)
  insert-All P x (y ∷ ys) p h = elim (Bool-cases (le x y)) [
    | inl e ↦ rw e (p, h)
    | inr e ↦ rw e (h.0, insert-All P x ys p h.1)
  ]

  pub sort_by-All {κ} : (P : A → Type κ) (xs : List A) → All P xs → All P (sort_by xs)
  unfolding sort_by
  sort_by-All P [] h = tt
  sort_by-All P (x ∷ xs) h = insert-All P x (sort_by xs) h.0 (sort_by-All P xs h.1)

  -- The order that a stable sort leaves: by the test, and ties as they stood before.
  module _ {κ} (R : A → A → Type κ) where
    abbrev pub Refined : A → A → Type κ
    Refined a b = (le a b ≡ true) × (le b a ≡ true → R a b)

    module _ (o : IsPreorder le) where
      Refined-below :
          (x y : A) (zs : List A)
          → le x y ≡ true
          → All (R x) zs
          → All (Refined y) zs
          → All (Refined x) zs
      Refined-below x y [] e r h = tt
      Refined-below x y (z ∷ zs) e r h =
          ((o.trans x y z e h.0.0, λ _. r.0), Refined-below x y zs e r.1 h.1)

      insert-Refined :
          (x : A) (ys : List A)
          → All (R x) ys
          → Pairwise Refined ys
          → Pairwise Refined (insert x ys)
      unfolding insert
      insert-Refined x [] r h = (tt, tt)
      insert-Refined x (y ∷ ys) r h = elim (Bool-cases (le x y)) [
        | inl e ↦ rw e (((e, λ _. r.0), Refined-below x y ys e r.1 h.0), h)
        | inr e ↦ rw e (
          insert-All (Refined y) x ys (o.total x y e, λ bad. absurd (cc)) h.0,
          insert-Refined x ys r.1 h.1,
        )
      ]

      pub sort_by-Refined : (xs : List A) → Pairwise R xs → Pairwise Refined (sort_by xs)
      unfolding sort_by
      sort_by-Refined [] h = tt
      sort_by-Refined (x ∷ xs) h =
          insert-Refined x (sort_by xs) (sort_by-All (R x) xs h.0) (sort_by-Refined xs h.1)
