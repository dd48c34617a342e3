-- ===== src/Zkvm/Mock.antt =====
-- crates/server/src/proof/zkvm.rs: the proofs of the mock zkVM, and the time that it takes.
use mathlib.Core.List.{append-nil}
use zkboost.Prelude.{
  ℕ, zero, suc, ◌+◌, ◌*◌, ◌≤◌, ◌<◌, ◌≡◌, refl, sym, ap, ◌∙◌, arith, [], ◌∷◌, ◌++◌, false, ok,
  length, take, drop,
}
use zkboost.ProofType.{ProofType}
use zkboost.Payload.{Hash256, Bytes}
use zkboost.External.{External}
use zkboost.Worker.{StatelessInput}
use zkboost.Config.{linear}
use zkboost.Zkvm.{
  Backends, MockZkvm, Random, resize, fill, proving_time, u64_max, saturating_mul, div_ceil, mock,
  execute, mock_prove, mock_verify, public_values_of, expected_public_values, verify,
}
use zkboost.Zkvm.Verify.{verify-eq-ok_iff, le→leb}

length-resize : (n : ℕ) (l : Bytes) → length (resize n l) ≡ n
unfolding resize
length-resize zero l = refl
length-resize (suc n) [] = ap suc (length-resize n [])
length-resize (suc n) (c ∷ l) = ap suc (length-resize n l)

length-fill : (byte : ℕ → ℕ) (l : Bytes) → length (fill byte l) ≡ length l
unfolding fill
length-fill byte [] = refl
length-fill byte (c ∷ l) = ap suc (length-fill (λ i. byte (suc i)) l)

length-take-drop : (n : ℕ) (l : Bytes) → length (take n l) + length (drop n l) ≡ length l
length-take-drop zero l = omega arith
length-take-drop (suc n) [] = omega arith
length-take-drop (suc n) (c ∷ l) = omega (arith, length-take-drop n l)

length-append : (l m : Bytes) → length (l ++ m) ≡ length l + length m
length-append [] m = omega arith
length-append (c ∷ l) m = omega (arith, length-append l m)

take-take-append : (n : ℕ) (l m : Bytes) → n ≤ length l → take n (take n l ++ m) ≡ take n l
take-take-append zero l m h = refl
take-take-append (suc n) [] m h = absurd (omega arith)
take-take-append (suc n) (c ∷ l) m h = ap (◌∷◌ c) (take-take-append n l m (omega arith))

take-resize : (n m : ℕ) (l : Bytes) → n ≤ m → length l ≡ n → take n (resize m l) ≡ l
unfolding resize
take-resize zero m [] h e = refl
take-resize zero m (c ∷ l) h e = absurd (omega arith)
take-resize (suc n) zero l h e = absurd (omega arith)
take-resize (suc n) (suc m) [] h e = absurd (omega arith)
take-resize (suc n) (suc m) (c ∷ l) h e = ap (◌∷◌ c) (take-resize n m l (omega arith) (omega arith))

-- The proof that the mock makes of a hash.
mock_proof : ℕ → Bytes → (ℕ → ℕ) → Bytes
mock_proof size hash byte = take 32 (resize size hash) ++ fill byte (drop 32 (resize size hash))

length-mock_proof :
    (size : ℕ) (hash : Bytes) (byte : ℕ → ℕ) → length (mock_proof size hash byte) ≡ size
unfolding mock_proof
length-mock_proof size hash byte = omega (
  arith,
  length-append (take 32 (resize size hash)) (fill byte (drop 32 (resize size hash))),
  length-fill byte (drop 32 (resize size hash)),
  length-take-drop 32 (resize size hash),
  length-resize size hash,
)

take-mock_proof :
    (size : ℕ) (hash : Bytes) (byte : ℕ → ℕ)
    → 32 ≤ size
    → length hash ≡ 32
    → take 32 (mock_proof size hash byte) ≡ hash
unfolding mock_proof
take-mock_proof size hash byte h e =
    take-take-append 32 (resize size hash) (fill byte (drop 32 (resize size hash)))
      (omega (arith, length-resize size hash))
    ∙ take-resize 32 size hash h e

module _ {x : External} (b : Backends x) where
  mock_public_values :
      (p : ProofType) (timeout : ℕ) (vm : MockZkvm) (hash : Bytes) (byte : ℕ → ℕ)
      → 32 ≤ vm.mock_proof_size
      → length hash ≡ 32
      → public_values_of b (mock p timeout vm) (mock_proof vm.mock_proof_size hash byte) ≡ ok hash
  unfolding public_values_of mock_verify
  mock_public_values p timeout vm hash byte size l =
      rw
        (
          le→leb 32 (length (mock_proof vm.mock_proof_size hash byte))
              (omega (arith, length-mock_proof vm.mock_proof_size hash byte)),
          take-mock_proof vm.mock_proof_size hash byte size l,
        )
        refl

  -- A mock that is not set to fail makes a proof of the configured size, and its own verification
  -- accepts the proof for every root whose expected hash is the one that the guest returned.
  pub verify-mock_prove :
      (p : ProofType) (timeout : ℕ) (vm : MockZkvm) (input : StatelessInput x) (rng : Random)
      (root : Hash256) (hash : Bytes) (gas : ℕ)
      → execute b vm.el_kind input ≡ ok (hash, gas)
      → expected_public_values b root ≡ ok hash
      → length hash ≡ 32
      → 32 ≤ vm.mock_proof_size
      → vm.failure ≡ false
      → (proof : Bytes) × ((mock_prove b vm input rng).1 ≡ ok proof)
        × (length proof ≡ vm.mock_proof_size)
        × (verify b (mock p timeout vm) root proof ≡ ok tt)
  unfolding mock_prove mock_verify mock_proof
  verify-mock_prove p timeout vm input rng root hash gas ran e l size works = (
    mock_proof vm.mock_proof_size hash rng.byte,
    rw (ran, mock_prove, works) refl,
    length-mock_proof vm.mock_proof_size hash rng.byte,
    (verify-eq-ok_iff b (mock p timeout vm) root _ hash e).1
        (0, mock_public_values p timeout vm hash rng.byte size l ∙ ap ok (sym (append-nil hash))),
  )

ceil-bounds :
    (a : ℕ) → (a ≤ div_ceil a 1000000 * 1000000) × (div_ceil a 1000000 * 1000000 < a + 1000000)
ceil-bounds a = ground arith

-- The mock that takes time in proportion to gas takes the product in millionths, rounded up, where
-- the product fits 64 bits.
pub proving_time-linear :
    (ms_per_mgas gas : ℕ) (rng : Random)
    → ms_per_mgas * gas ≤ u64_max
    → (ms_per_mgas * gas ≤ proving_time (linear ms_per_mgas) gas rng * 1000000)
      × (proving_time (linear ms_per_mgas) gas rng * 1000000 < ms_per_mgas * gas + 1000000)
unfolding proving_time
proving_time-linear ms_per_mgas gas rng h =
    let fits : saturating_mul ms_per_mgas gas ≡ ms_per_mgas * gas = omega arith in
    rw fits (ceil-bounds (ms_per_mgas * gas))
