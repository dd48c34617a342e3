-- ===== src/Prelude/Maps.antt =====
-- `HashSet` and `HashMap` as lists with distinct keys. The order of a list is the order in which
-- the collection is iterated.
use mathlib.Core.Bool.{Bool, true, false}
use mathlib.Core.List.{List, [], ◌∷◌}
use mathlib.Core.Logic.{ite, ◌≢◌, if_pos, if_neg}
use mathlib.Core.Option.{Option, none, some}
use mathlib.Core.Path.{◌≡◌, refl}
use native.Mathlib.Omega.{arith}
use zkboost.Prelude.Tests.{if◌then◌else◌, bit, is_some}
use Prim.Native.Nat.{ℕ, ◌+◌}

-- HashSet.
module _ {ℓ} {A : Type ℓ} (dec : Discrete A) where
  abbrev pub contains : List A → A → Bool
  contains [] a = false
  contains (x ∷ xs) a = ite (dec x a) true (contains xs a)

  unfoldable pub insert : A → List A → List A
  insert a xs = if contains xs a then xs else a ∷ xs

  unfoldable pub remove : A → List A → List A
  remove a [] = []
  remove a (x ∷ xs) = ite (dec x a) (remove a xs) (x ∷ remove a xs)

  -- `extend`: inserts the elements of the second list one by one.
  unfoldable pub extend : List A → List A → List A
  extend xs [] = xs
  extend xs (y ∷ ys) = extend (insert y xs) ys

  pub contains-insert :
      (a b : A) (xs : List A) → contains (insert a xs) b ≡ ite (dec a b) true (contains xs b)
  unfolding insert
  contains-insert a b xs = ground arith

  pub contains-remove :
      (a b : A) (xs : List A) → contains (remove a xs) b ≡ ite (dec a b) false (contains xs b)
  unfolding remove
  contains-remove a b [] = ground arith
  contains-remove a b (x ∷ xs) = elim (dec x a) [
    | yes p ↦ rw (if_pos _ p, contains-remove a b xs, p) (ground arith)
    | no p ↦ rw (if_neg _ p, contains-remove a b xs) (ground arith)
  ]

-- HashMap.
module _ {ℓ} {K V : Type ℓ} (dec : Discrete K) where
  abbrev pub get : List (K × V) → K → Option V
  get [] k = none
  get ((j, v) ∷ m) k = ite (dec j k) (some v) (get m k)

  unfoldable pub insert_entry : K → V → List (K × V) → List (K × V)
  insert_entry k v [] = (k, v) ∷ []
  insert_entry k v ((j, w) ∷ m) = ite (dec j k) ((k, v) ∷ m) ((j, w) ∷ insert_entry k v m)

  unfoldable pub remove_entry : K → List (K × V) → List (K × V)
  remove_entry k [] = []
  remove_entry k ((j, w) ∷ m) = ite (dec j k) m ((j, w) ∷ remove_entry k m)

  pub get-insert_entry :
      (k j : K) (v : V) (m : List (K × V))
      → get (insert_entry k v m) j ≡ ite (dec k j) (some v) (get m j)
  unfolding insert_entry
  get-insert_entry k j v [] = refl
  get-insert_entry k j v ((i, w) ∷ m) = ground (arith, get-insert_entry k j v m)

  pub get-remove_entry_ne :
      (k j : K) (m : List (K × V)) → k ≢ j → get (remove_entry k m) j ≡ get m j
  unfolding remove_entry
  get-remove_entry_ne k j [] h = refl
  get-remove_entry_ne k j ((i, w) ∷ m) h = ground (arith, get-remove_entry_ne k j m)

module _ {K V : Type 0} (dec : Discrete K) where
  -- How many entries a key has: at most one, in a map.
  abbrev pub entries : K → List (K × V) → ℕ
  entries k [] = 0
  entries k ((j, v) ∷ m) = ite (dec j k) 1 0 + entries k m

  pub entries-insert_entry :
      (k j : K) (v : V) (m : List (K × V))
      → entries j (insert_entry dec k v m) + ite (dec k j) (bit (is_some (get dec m k))) 0
        ≡ entries j m + ite (dec k j) 1 0
  unfolding insert_entry
  entries-insert_entry k j v [] = ground arith
  entries-insert_entry k j v ((i, w) ∷ m) = ground (arith, entries-insert_entry k j v m)

  pub entries-remove_entry :
      (k j : K) (m : List (K × V))
      → entries j (remove_entry dec k m) + ite (dec k j) (bit (is_some (get dec m k))) 0
        ≡ entries j m
  unfolding remove_entry
  entries-remove_entry k j [] = ground arith
  entries-remove_entry k j ((i, w) ∷ m) = ground (arith, entries-remove_entry k j m)

  pub entries-get-none : (k : K) (m : List (K × V)) → get dec m k ≡ none → entries k m ≡ 0
  entries-get-none k [] h = refl
  entries-get-none k ((j, w) ∷ m) h = ground (arith, entries-get-none k m)

  -- A map in which no key has an entry is empty.
  pub entries-empty : (m : List (K × V)) → ((k : K) → entries k m ≡ 0) → m ≡ []
  entries-empty [] h = refl
  entries-empty ((j, w) ∷ m) h = let none_at_j = h j in ground arith
