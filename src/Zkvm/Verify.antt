-- ===== src/Zkvm/Verify.antt =====
-- crates/server/src/proof/zkvm.rs: when a proof is accepted.
use zkboost.Prelude.{
  ℕ, zero, suc, ◌≤◌, ◌≡◌, refl, sym, ap, ◌∙◌, ◌↔◌, arith, [], ◌∷◌, ◌++◌, Text, text_eq,
  text_eq_sound, text_eq_refl, Bool, true, false, ◌&&◌, Result, ok, err, >>=-eq-ok, Result-cases,
  inl, inr, leb, ◌==◌, length, take, drop, all, if◌then◌else◌,
}
use zkboost.Payload.{Hash256, Bytes}
use zkboost.External.{External}
use zkboost.Zkvm.{
  Backends, ZkvmInstance, ZkvmError, verification_failed, public_values_mismatch, public_values_of,
  expected_public_values, verify,
}

abbrev pub zeros : ℕ → Bytes
zeros zero = []
zeros (suc n) = 0 ∷ zeros n

all_zero-zeros : (l : Bytes) → all (λ byte. byte == 0) l ≡ true → l ≡ zeros (length l)
all_zero-zeros [] h = refl
all_zero-zeros (c ∷ l) h = ground (arith, all_zero-zeros l)

zeros-all_zero : (n : ℕ) → all (λ byte. byte == 0) (zeros n) ≡ true
zeros-all_zero zero = refl
zeros-all_zero (suc n) = zeros-all_zero n

take-append-drop : (n : ℕ) (l : Bytes) → take n l ++ drop n l ≡ l
take-append-drop zero l = refl
take-append-drop (suc n) [] = refl
take-append-drop (suc n) (c ∷ l) = ap (◌∷◌ c) (take-append-drop n l)

take-append : (n : ℕ) (l m : Bytes) → length l ≡ n → (take n (l ++ m) ≡ l) × (drop n (l ++ m) ≡ m)
take-append zero [] m h = (refl, refl)
take-append zero (c ∷ l) m h = absurd (omega arith)
take-append (suc n) [] m h = absurd (omega arith)
take-append (suc n) (c ∷ l) m h = let (t, d) = take-append n l m (omega arith) in (ap (◌∷◌ c) t, d)

length-append-le : (l m : Bytes) → length l ≤ length (l ++ m)
length-append-le [] m = omega arith
length-append-le (c ∷ l) m = omega (arith, length-append-le l m)

-- The three tests on the public values.
abbrev accepted : Bytes → Bytes → Bool
accepted values expected =
    leb 32 (length values)
    && text_eq (take 32 values) expected
    && all (λ byte. byte == 0) (drop 32 values)

&&-true : (a b c : Bool) → (a && b && c) ≡ true → (a ≡ true) × (b ≡ true) × (c ≡ true)
&&-true a b c h = ground arith

pub le→leb : (a b : ℕ) → a ≤ b → leb a b ≡ true
le→leb a b h = ground arith

accepted-padded :
    (values expected : Bytes)
    → accepted values expected ≡ true
    → (n : ℕ) × (values ≡ expected ++ zeros n)
accepted-padded values expected h =
    let (long, hash, padding) =
      &&-true (leb 32 (length values)) (text_eq (take 32 values) expected)
        (all (λ byte. byte == 0) (drop 32 values)) h in
    (
      length (drop 32 values),
      cc (
        take-append-drop 32 values,
        text_eq_sound (take 32 values) expected hash,
        all_zero-zeros (drop 32 values) padding,
      ),
    )

padded-accepted :
    (expected : Bytes) (n : ℕ)
    → length expected ≡ 32
    → accepted (expected ++ zeros n) expected ≡ true
padded-accepted expected n h =
    let (hash, padding) = take-append 32 expected (zeros n) h in
    rw (
      le→leb 32 (length (expected ++ zeros n)) (omega (arith, length-append-le expected (zeros n))),
      hash,
      padding,
      text_eq_refl expected,
      zeros-all_zero n,
    )

module _ {x : External} (b : Backends x) where
  expected-length :
      (root : Hash256) (expected : Bytes)
      → expected_public_values b root ≡ ok expected
      → length expected ≡ 32
  unfolding expected_public_values
  expected-length root expected h =
      let (serialized, e, h') = >>=-eq-ok (b.encode_output root) _ h in
      let same : b.sha256 serialized ≡ expected = cc in
      ap length (sym same) ∙ b.length-sha256 serialized

  module _ (zkvm : ZkvmInstance b) (root : Hash256) (proof expected : Bytes)
      (e : expected_public_values b root ≡ ok expected) where
    verify_read :
        (values : Bytes)
        → public_values_of b zkvm proof ≡ ok values
        → verify b zkvm root proof
          ≡ (if accepted values expected then ok tt else err public_values_mismatch)
    unfolding verify
    verify_read values q = rw (q, e) refl

    verify_failed :
        (error : Text)
        → public_values_of b zkvm proof ≡ err error
        → verify b zkvm root proof ≡ err (verification_failed error)
    unfolding verify
    verify_failed error q = rw q refl

    accepted_of_ok :
        (c : Bool)
        → ◌≡◌ {A = Result (ZkvmError b) (Unit {0})}
            (if c then ok tt else err public_values_mismatch)
            (ok tt)
        → c ≡ true
    accepted_of_ok true h = refl
    accepted_of_ok false h = cc

  -- A proof is valid for a root exactly if the backend reads public values from it that are the
  -- hash expected for the root, followed by zeros only.
  pub verify-eq-ok_iff :
      (zkvm : ZkvmInstance b) (root : Hash256) (proof expected : Bytes)
      → expected_public_values b root ≡ ok expected
      → (verify b zkvm root proof ≡ ok tt)
        ↔ ((n : ℕ) × (public_values_of b zkvm proof ≡ ok (expected ++ zeros n)))
  verify-eq-ok_iff zkvm root proof expected e = (valid, padded)
    where
      valid :
          verify b zkvm root proof ≡ ok tt
          → (n : ℕ) × (public_values_of b zkvm proof ≡ ok (expected ++ zeros n))
      valid h = elim (Result-cases (public_values_of b zkvm proof)) [
        | inl (values, q) ↦
            let passed =
              accepted_of_ok zkvm root proof expected e (accepted values expected)
                (sym (verify_read zkvm root proof expected e values q) ∙ h) in
            let (n, padded_) = accepted-padded values expected passed in (n, q ∙ ap ok padded_)
        | inr (error, q) ↦ absurd (cc (verify_failed zkvm root proof expected e error q))
      ]

      padded :
          (n : ℕ) × (public_values_of b zkvm proof ≡ ok (expected ++ zeros n))
          → verify b zkvm root proof ≡ ok tt
      padded (n, h) =
          verify_read zkvm root proof expected e (expected ++ zeros n) h
          ∙ rw (padded-accepted expected n (expected-length root expected e)) refl
