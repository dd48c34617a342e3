-- ===== src/Prelude/Results.antt =====
-- Rust's `Result<A, E>`, with `?` as the bind.
use mathlib.Core.Bool.{Bool, true, false}
use mathlib.Core.Logic.{◌⊎◌, inl, inr}
use mathlib.Core.Option.{Option, none, some}
use mathlib.Core.Path.{◌≡◌, refl}

pub data Result {ℓ κ} (E : Type ℓ) (A : Type κ) : Type (ℓ ⊔ κ) where
  ok : A → Result E A
  err : E → Result E A

infixl 5 ◌>>=◌ ◌>>◌
abbrev pub ◌>>=◌ {ℓ κ μ} :
    {E : Type ℓ} {A : Type κ} {B : Type μ} → Result E A → (A → Result E B) → Result E B
ok a >>= f = f a
err e >>= f = err e

abbrev pub ◌>>◌ {ℓ κ} : {E : Type ℓ} {B : Type κ} → Result E (Unit {0}) → Result E B → Result E B
m >> k = m >>= λ _. k

-- `ensure!` of anyhow: the condition, or the error.
abbrev pub ensure {ℓ} : {E : Type ℓ} → Bool → E → Result E (Unit {0})
ensure true e = ok tt
ensure false e = err e

abbrev pub ok_or {ℓ κ} : {E : Type ℓ} {A : Type κ} → Option A → E → Result E A
ok_or none e = err e
ok_or (some a) e = ok a

pub >>=-eq-ok {ℓ κ μ} :
    {E : Type ℓ} {A : Type κ} {B : Type μ} (first : Result E A) (next : A → Result E B) {last : B}
    → (first >>= next) ≡ ok last
    → (value : A) × (first ≡ ok value) × (next value ≡ ok last)
>>=-eq-ok (ok value) next passed = (value, refl, passed)
>>=-eq-ok (err error) next passed = cc

pub Result-cases {ℓ κ} :
    {E : Type ℓ} {A : Type κ} (r : Result E A) → ((a : A) × (r ≡ ok a)) ⊎ ((e : E) × (r ≡ err e))
Result-cases (ok a) = inl (a, refl)
Result-cases (err e) = inr (e, refl)

module _ {ℓ} {E : Type ℓ} where
  -- A chain of checks passes exactly if each of them does.
  pub >>-eq-ok : (m n : Result E (Unit {0})) → (m >> n) ≡ ok tt → (m ≡ ok tt) × (n ≡ ok tt)
  >>-eq-ok (ok tt) n h = (refl, h)
  >>-eq-ok (err e) n h = cc

  pub ensure-eq-ok : (b : Bool) (e : E) → ensure b e ≡ ok tt → b ≡ true
  ensure-eq-ok true e h = refl
  ensure-eq-ok false e h = cc

  pub >>-eq-ok' {κ} :
      {B : Type κ} (m : Result E (Unit {0})) (n : Result E B) {c : B}
      → (m >> n) ≡ ok c
      → (m ≡ ok tt) × (n ≡ ok c)
  >>-eq-ok' (ok tt) n h = (refl, h)
  >>-eq-ok' (err e) n h = cc
