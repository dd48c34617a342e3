-- ===== src/Witness/Fetch.antt =====
-- crates/server/src/witness.rs: what a fetch returns.
use zkboost.Prelude.{ℕ, ◌≡◌, refl, ◌↔◌, List, [], ◌∷◌, ◌++◌, All, some, ap}
use zkboost.Witness.{Attempt, found, not_found, failed, panicked, fetch_witness}

module _ {W : Type 0} where
  abbrev pub IsRetried : Attempt W → Type 0
  IsRetried (found witness size) = ⊥
  IsRetried not_found = Unit
  IsRetried (failed error) = Unit
  IsRetried panicked = ⊥

  -- The first attempt that finds a witness, after attempts that are made again.
  abbrev pub FirstFound : W → ℕ → List (Attempt W) → Type 0
  FirstFound witness size attempts =
      (before : List (Attempt W)) × (after : List (Attempt W)) × (attempts
        ≡ before ++ (found witness size ∷ after))
      × All IsRetried before

  fetch_found :
      (witness : W) (size : ℕ) (before after : List (Attempt W))
      → All IsRetried before
      → (fetch_witness (before ++ (found witness size ∷ after))).1 ≡ some (witness, size)
  unfolding fetch_witness
  fetch_found witness size [] after h = refl
  fetch_found witness size (found w n ∷ before) after h = absurd h.0
  fetch_found witness size (not_found ∷ before) after h = fetch_found witness size before after h.1
  fetch_found witness size (failed e ∷ before) after h = fetch_found witness size before after h.1
  fetch_found witness size (panicked ∷ before) after h = absurd h.0

  longer :
      (a : Attempt W) (witness : W) (size : ℕ) (attempts : List (Attempt W))
      → IsRetried a
      → FirstFound witness size attempts
      → FirstFound witness size (a ∷ attempts)
  longer a witness size attempts r (before, after, e, h) = (a ∷ before, after, ap (◌∷◌ a) e, (r, h))

  found_first :
      (witness : W) (size : ℕ) (attempts : List (Attempt W))
      → (fetch_witness attempts).1 ≡ some (witness, size)
      → FirstFound witness size attempts
  unfolding fetch_witness
  found_first witness size [] h = absurd (cc)
  found_first witness size (found w n ∷ attempts) h = ([], attempts, cc, tt)
  found_first witness size (not_found ∷ attempts) h =
      longer not_found witness size attempts tt (found_first witness size attempts h)
  found_first witness size (failed e ∷ attempts) h =
      longer (failed e) witness size attempts tt (found_first witness size attempts h)
  found_first witness size (panicked ∷ attempts) h = absurd (cc)

  -- A fetch returns a witness exactly if an attempt before the timeout finds it, and each attempt
  -- before that one found nothing or failed, without a panic.
  pub fetch_witness-eq-some_iff :
      (witness : W) (size : ℕ) (attempts : List (Attempt W))
      → ((fetch_witness attempts).1 ≡ some (witness, size)) ↔ FirstFound witness size attempts
  fetch_witness-eq-some_iff witness size attempts = (
    found_first witness size attempts,
    λ (before, after, e, h). rw e (fetch_found witness size before after h),
  )
