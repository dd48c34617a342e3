-- ===== src/Prelude/Sort.antt =====
-- `sort` and `sort_by_key` of the standard library: a stable sort by a numeric key.
use Prim.Native.Nat.{ℕ, ◌≤◌}
use mathlib.Core.List.{List, [], ◌∷◌, map}
use mathlib.Core.Path.{◌≡◌, refl}
use native.Mathlib.Omega.{arith}
use zkboost.Prelude.Lists.{count}
use zkboost.Prelude.Tests.{leb, if◌then◌else◌}

module _ {ℓ} {A : Type ℓ} (key : A → ℕ) where
  insert_sorted : A → List A → List A
  insert_sorted a [] = a ∷ []
  insert_sorted a (x ∷ xs) = if leb (key a) (key x) then a ∷ x ∷ xs else x ∷ insert_sorted a xs

  unfoldable pub sort_by_key : List A → List A
  unfolding insert_sorted
  sort_by_key [] = []
  sort_by_key (x ∷ xs) = insert_sorted x (sort_by_key xs)

  -- Every key is at least `n`, and the keys do not fall.
  abbrev pub IsSortedFrom : ℕ → List A → Type 0
  IsSortedFrom n [] = Unit
  IsSortedFrom n (x ∷ xs) = (n ≤ key x) × IsSortedFrom (key x) xs

  insert_sorted-IsSortedFrom :
      (n : ℕ) (a : A) (xs : List A)
      → n ≤ key a
      → IsSortedFrom n xs
      → IsSortedFrom n (insert_sorted a xs)
  unfolding insert_sorted
  insert_sorted-IsSortedFrom n a [] h s = (h, tt)
  insert_sorted-IsSortedFrom n a (x ∷ xs) h s =
      ground (arith, insert_sorted-IsSortedFrom (key x) a xs)

  pub sort_by_key-IsSortedFrom : (xs : List A) → IsSortedFrom 0 (sort_by_key xs)
  unfolding sort_by_key
  sort_by_key-IsSortedFrom [] = tt
  sort_by_key-IsSortedFrom (x ∷ xs) =
      insert_sorted-IsSortedFrom 0 x (sort_by_key xs) (omega arith) (sort_by_key-IsSortedFrom xs)

  module _ (dec : Discrete A) where
    count-insert_sorted :
        (a b : A) (xs : List A) → count dec b (insert_sorted a xs) ≡ count dec b (a ∷ xs)
    unfolding insert_sorted
    count-insert_sorted a b [] = refl
    count-insert_sorted a b (x ∷ xs) = ground (arith, count-insert_sorted a b xs)

    -- Sorting keeps every element as often as it stood there.
    pub count-sort_by_key : (b : A) (xs : List A) → count dec b (sort_by_key xs) ≡ count dec b xs
    unfolding sort_by_key
    count-sort_by_key b [] = refl
    count-sort_by_key b (x ∷ xs) =
        omega (arith, count-insert_sorted x b (sort_by_key xs), count-sort_by_key b xs)

  -- The same of what a function makes of the elements.
  module _ {κ} {B : Type κ} (dec : Discrete B) (f : A → B) where
    count-map-insert_sorted :
        (a : A) (b : B) (xs : List A)
        → count dec b (map f (insert_sorted a xs)) ≡ count dec b (map f (a ∷ xs))
    unfolding insert_sorted
    count-map-insert_sorted a b [] = refl
    count-map-insert_sorted a b (x ∷ xs) = ground (arith, count-map-insert_sorted a b xs)

    pub count-map-sort_by_key :
        (b : B) (xs : List A) → count dec b (map f (sort_by_key xs)) ≡ count dec b (map f xs)
    unfolding sort_by_key
    count-map-sort_by_key b [] = refl
    count-map-sort_by_key b (x ∷ xs) =
        omega (arith, count-map-insert_sorted x b (sort_by_key xs), count-map-sort_by_key b xs)
