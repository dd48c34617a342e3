-- ===== src/Prelude/Sets.antt =====
-- The set that is made of a list by inserting its elements one by one.
use Prim.Native.Nat.{ℕ, ◌+◌, ◌≤◌}
use mathlib.Core.Bool.{true, false}
use mathlib.Core.List.{List, [], ◌∷◌}
use mathlib.Core.Logic.{ite, if_neg, inl, inr}
use mathlib.Core.Path.{◌≡◌, subst}
use native.Mathlib.Omega.{arith}
use zkboost.Prelude.Tests.{bit, Bool-cases}
use zkboost.Prelude.Lists.{length, count, All}
use zkboost.Prelude.Maps.{contains, insert, extend}

module _ {A : Type 0} (dec : Discrete A) where
  pub length-extend-le : (xs ys : List A) → length (extend dec xs ys) ≤ length xs + length ys
  unfolding extend insert
  length-extend-le xs [] = omega arith
  length-extend-le xs (y ∷ ys) =
      ground (arith, length-extend-le xs ys, length-extend-le (y ∷ xs) ys)

  -- Where nothing is lost, no element stood twice or in the set.
  pub length-extend_distinct :
      (xs ys : List A) (a : A)
      → length (extend dec xs ys) ≡ length xs + length ys
      → bit (contains dec xs a) + count dec a ys ≤ 1
  unfolding extend insert
  length-extend_distinct xs [] a h = ground arith
  length-extend_distinct xs (y ∷ ys) a h =
      ground (arith, length-extend-le xs ys, length-extend_distinct (y ∷ xs) ys a)

  fresh :
      (xs : List A) (y : A) (n : ℕ)
      → bit (contains dec xs y) + (ite (dec y y) 1 0 + n) ≤ 1
      → contains dec xs y ≡ false
  fresh xs y n h = ground arith

  -- Where no element stands twice or in the set, nothing is lost.
  pub length-extend :
      (xs ys : List A)
      → ((a : A) → bit (contains dec xs a) + count dec a ys ≤ 1)
      → length (extend dec xs ys) ≡ length xs + length ys
  unfolding extend insert
  length-extend xs [] h = omega arith
  length-extend xs (y ∷ ys) h =
      rw (fresh xs y (count dec y ys) (h y))
        (omega (arith, length-extend (y ∷ xs) ys (λ a. ground (arith, h a))))

  All-contains {κ} :
      (P : A → Type κ) (xs : List A) (a : A) → All P xs → contains dec xs a ≡ true → P a
  All-contains P [] a h c = cc
  All-contains P (x ∷ xs) a h c = elim (dec x a) [
    | yes e ↦ subst P e h.0
    | no n ↦ All-contains P xs a h.1 (rw (if_neg _ n) at c)
  ]

  pub All-extend {κ} :
      (P : A → Type κ) (xs ys : List A) → All P (extend dec xs ys) → All P xs × All P ys
  unfolding extend insert
  All-extend P xs [] h = (h, tt)
  All-extend P xs (y ∷ ys) h = elim (Bool-cases (contains dec xs y)) [
    | inl e ↦ let (hx, hy) = All-extend P xs ys (rw e at h) in (hx, (All-contains P xs y hx e, hy))
    | inr e ↦ let (hx, hy) = All-extend P (y ∷ xs) ys (rw e at h) in (hx.1, (hx.0, hy))
  ]

  pub extend-All {κ} :
      (P : A → Type κ) (xs ys : List A) → All P xs → All P ys → All P (extend dec xs ys)
  unfolding extend insert
  extend-All P xs [] h k = h
  extend-All P xs (y ∷ ys) h k = elim (Bool-cases (contains dec xs y)) [
    | inl e ↦ rw e (extend-All P xs ys h k.1)
    | inr e ↦ rw e (extend-All P (y ∷ xs) ys (k.0, h) k.1)
  ]
