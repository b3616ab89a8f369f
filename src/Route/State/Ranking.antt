-- ===== src/Route/State/Ranking.antt =====
-- The order that the sorts of intermediate-proxy/src/route/state.rs leave, and that they lose no
-- candidate.
use mathlib.Core.List.Perm
use mathlib.Core.List.{perm_middle}
use proxy_systems.Common.{
  ℕ, zero, suc, ◌-◌, ◌%◌, ◌≡◌, refl, inl, inr, Bool, true, false, List, [], ◌∷◌, ◌++◌, Perm, Option,
  some, arith, ltb, length, get_elem?, set, take, drop, take-append-drop, All, Bool-cases,
  Option-cases, append-nil, get_or_else,
}
use proxy_systems.Common.Order.{
  IsPreorder, Pairwise, Pairwise-weaken, Refined, sort_by, sort_by-perm, sort_by-Refined,
}
use proxy_systems.Common.Text.{Text}
use proxy_systems.Proxy.Store.{Store}
use proxy_systems.Route.Def.{
  RouteDef, Selector, best_latency, round_robin, random, hedge, sticky_by_header,
}
use proxy_systems.Route.State.{
  Candidate, tier_latency_le, tier_le, rotate_left, swap_at, shuffle, order, key_le, reserve_key,
  prefer_key, regulars_first, preferred_first, arrange,
}

pub key_le-IsPreorder {ℓ} : {A : Type ℓ} (key : A → Bool) → IsPreorder (key_le key)
key_le-IsPreorder key = record { total = λ a b e. ground arith; trans = λ a b c e f. ground arith }

pub tier_latency_le-IsPreorder : IsPreorder tier_latency_le
unfolding tier_latency_le
tier_latency_le-IsPreorder = record {
  total = λ a b e. ground arith;
  trans = λ a b c e f. ground arith;
}

module _ {ℓ} {A : Type ℓ} where
  pub append_comm-perm : (xs ys : List A) → Perm (xs ++ ys) (ys ++ xs)
  append_comm-perm [] ys = rw append-nil (Perm.refl ys)
  append_comm-perm (x ∷ xs) ys =
      Perm.trans (Perm.cons x (append_comm-perm xs ys)) (Perm.symm (perm_middle ys xs))

  rotate_left-perm : (n : ℕ) (xs : List A) → Perm (rotate_left n xs) xs
  unfolding rotate_left
  rotate_left-perm n xs =
      Perm.trans (append_comm-perm (drop n xs) (take n xs))
        (rw (take-append-drop n xs) (Perm.refl xs))

  set-perm :
      (xs : List A) (i : ℕ) (x y : A) → get_elem? xs i ≡ some x → Perm (x ∷ set xs i y) (y ∷ xs)
  set-perm [] i x y e = cc
  set-perm (z ∷ xs) zero x y e = let p : z ≡ x = cc in rw p (Perm.swap y x xs)
  set-perm (z ∷ xs) (suc i) x y e =
      Perm.trans (Perm.swap z x (set xs i y))
        (Perm.trans (Perm.cons z (set-perm xs i x y e)) (Perm.swap y z xs))

  get_elem?-set :
      (xs : List A) (i j : ℕ) (x y : A)
      → get_elem? xs i ≡ some x
      → get_elem? xs j ≡ some y
      → get_elem? (set xs i y) j ≡ some y
  get_elem?-set [] i j x y e f = cc
  get_elem?-set (w ∷ xs) zero zero x y e f = refl
  get_elem?-set (w ∷ xs) zero (suc j) x y e f = f
  get_elem?-set (w ∷ xs) (suc i) zero x y e f = f
  get_elem?-set (w ∷ xs) (suc i) (suc j) x y e f = get_elem?-set xs i j x y e f

  swap_at-perm : (i j : ℕ) (xs : List A) → Perm (swap_at i j xs) xs
  unfolding swap_at
  swap_at-perm i j xs = elim (Option-cases (get_elem? xs i)) [
    | inl e ↦ rw (e, swap_at) (Perm.refl xs)
    | inr (x, e) ↦ elim (Option-cases (get_elem? xs j)) [
      | inl f ↦ rw (e, f, swap_at) (Perm.refl xs)
      | inr (y, f) ↦
          rw (e, f, swap_at)
            (Perm.cons_inv (
              Perm.trans (set-perm (set xs i y) j y x (get_elem?-set xs i j x y e f))
                (set-perm xs i x y e)))
    ]
  ]

  shuffle-perm : (draw : ℕ → ℕ) (n : ℕ) (xs : List A) → Perm (shuffle draw n xs) xs
  unfolding shuffle
  shuffle-perm draw zero xs = Perm.refl xs
  shuffle-perm draw (suc i) xs =
      Perm.trans (shuffle-perm draw i (swap_at (suc i) (draw (suc i)) xs))
        (swap_at-perm (suc i) (draw (suc i)) xs)

module _ (draw : ℕ → ℕ) (hash : Text → ℕ) (sticky : Option Text) (cursor : ℕ) where
  sorted-perm : (live : List Candidate) → Perm (sort_by tier_latency_le live) live
  sorted-perm live = sort_by-perm tier_latency_le live

  rotated-perm :
      (n : ℕ) (live : List Candidate) → Perm (rotate_left n (sort_by tier_latency_le live)) live
  rotated-perm n live =
      Perm.trans (rotate_left-perm n (sort_by tier_latency_le live))
        (sort_by-perm tier_latency_le live)

  -- No selector loses a candidate or makes one up.
  pub order-perm :
      (sel : Selector) (live : List Candidate)
      → Perm (order draw hash sel sticky cursor live).0 live
  unfolding order
  order-perm best_latency live = sort_by-perm tier_latency_le live
  order-perm hedge live = sort_by-perm tier_latency_le live
  order-perm random live =
      Perm.trans (sort_by-perm tier_le (shuffle draw (length live - 1) (sort_by tier_le live))) (
        Perm.trans (shuffle-perm draw (length live - 1) (sort_by tier_le live))
          (sort_by-perm tier_le live))
  order-perm round_robin live = elim (Bool-cases (ltb 1 (length live))) [
    | inl e ↦ rw e (rotated-perm (cursor % length live) live)
    | inr e ↦ rw e (sorted-perm live)
  ]
  order-perm (sticky_by_header h) live = elim (Bool-cases (ltb 1 (length live))) [
    | inl e ↦ rw e (rotated-perm (hash (get_or_else sticky []) % length live) live)
    | inr e ↦ rw e (sorted-perm live)
  ]

regulars_first-perm :
    (on : Bool) (s : Store) (live : List Candidate) → Perm (regulars_first on s live) live
unfolding regulars_first
regulars_first-perm true s live = sort_by-perm (key_le (reserve_key s)) live
regulars_first-perm false s live = Perm.refl live

preferred_first-perm :
    (prefer : List Text) (s : Store) (live : List Candidate)
    → Perm (preferred_first prefer s live) live
unfolding preferred_first
preferred_first-perm [] s live = Perm.refl live
preferred_first-perm (t ∷ ts) s live = sort_by-perm (key_le (prefer_key (t ∷ ts) s)) live

pub arrange-perm :
    (route : RouteDef) (s : Store) (live : List Candidate) → Perm (arrange route s live) live
unfolding arrange
arrange-perm route s live =
    Perm.trans (preferred_first-perm route.prefer_tags s _)
      (regulars_first-perm route.prefer_non_reserve s live)

-- The test that the comparator of two candidates states.
abbrev pub Ranked : Candidate → Candidate → Type 0
Ranked a b = tier_latency_le a b ≡ true

module _ (s : Store) (R : Candidate → Candidate → Type 0) where
  -- Regular proxies before reserve ones where that is asked for, and otherwise as `R` says.
  abbrev pub ByReserve : Bool → Candidate → Candidate → Type 0
  ByReserve true = Refined (key_le (reserve_key s)) R
  ByReserve false = R

  regulars_first-ByReserve :
      (on : Bool) (live : List Candidate)
      → Pairwise R live
      → Pairwise (ByReserve on) (regulars_first on s live)
  unfolding regulars_first
  regulars_first-ByReserve true live h =
      sort_by-Refined (key_le (reserve_key s)) R (key_le-IsPreorder (reserve_key s)) live h
  regulars_first-ByReserve false live h = h

  preferred_first-Refined :
      (prefer : List Text) (live : List Candidate)
      → Pairwise R live
      → Pairwise (Refined (key_le (prefer_key prefer s)) R) (preferred_first prefer s live)
  unfolding preferred_first prefer_key
  preferred_first-Refined [] live h = Pairwise-weaken live (λ a b r. (refl, λ _. r)) h
  preferred_first-Refined (t ∷ ts) live h =
      sort_by-Refined (key_le (prefer_key (t ∷ ts) s)) R (key_le-IsPreorder (prefer_key (t ∷ ts) s))
        live h

-- Preferred proxies first, then regular before reserve ones where the route asks for it, and
-- otherwise as `R` says.
abbrev pub Ahead :
    RouteDef → Store → (Candidate → Candidate → Type 0) → Candidate → Candidate → Type 0
Ahead route s R =
    Refined (key_le (prefer_key route.prefer_tags s)) (ByReserve s R route.prefer_non_reserve)

-- The two sorts behind the selector's order leave its order within each group.
pub arrange-Ahead :
    (route : RouteDef) (s : Store) (R : Candidate → Candidate → Type 0) (live : List Candidate)
    → Pairwise R live
    → Pairwise (Ahead route s R) (arrange route s live)
unfolding arrange
arrange-Ahead route s R live h =
    preferred_first-Refined s (ByReserve s R route.prefer_non_reserve) route.prefer_tags _
      (regulars_first-ByReserve s R route.prefer_non_reserve live h)

-- The selectors that rank by tier and latency alone.
pub data ByRank : Selector → Type 0 where
  by_latency : ByRank best_latency
  by_hedge : ByRank hedge

any_order : (live : List Candidate) → Pairwise (λ a b. Unit {0}) live
any_order [] = tt
any_order (c ∷ live) = (any_candidate live, any_order live)
  where
    any_candidate : (xs : List Candidate) → All (λ b. Unit {0}) xs
    any_candidate [] = tt
    any_candidate (x ∷ xs) = (tt, any_candidate xs)

sorted_Ranked : (live : List Candidate) → Pairwise Ranked (sort_by tier_latency_le live)
sorted_Ranked live =
    Pairwise-weaken (sort_by tier_latency_le live) (λ a b r. r.0)
      (sort_by-Refined tier_latency_le (λ a b. Unit {0}) tier_latency_le-IsPreorder live
        (any_order live))

pub order-Ranked :
    (draw : ℕ → ℕ) (hash : Text → ℕ) (sticky : Option Text) (cursor : ℕ) (sel : Selector)
    (live : List Candidate)
    → ByRank sel
    → Pairwise Ranked (order draw hash sel sticky cursor live).0
unfolding order
order-Ranked draw hash sticky cursor sel live by_latency = sorted_Ranked live
order-Ranked draw hash sticky cursor sel live by_hedge = sorted_Ranked live
