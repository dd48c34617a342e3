-- ===== src/Zkvm.antt =====
-- crates/server/src/proof/zkvm.rs: the zkVM instances. The clients of an ere-server, the in-process
-- verifiers, the guest programs and SHA-256 are code of other crates.
pub mod Mock
pub mod Verify
use zkboost.Prelude.{
  ℕ, zero, suc, ◌+◌, ◌-◌, ◌*◌, ◌/◌, ◌^◌, ◌≤◌, ◌≡◌, List, [], ◌∷◌, ◌++◌, Text, text, text_eq, Bool,
  true, false, ◌&&◌, Result, ok, err, ◌>>=◌, leb, ltb, ◌==◌, if◌then◌else◌, length, take, drop, all,
  Option, none, some, min,
}
use zkboost.ProofType.{ProofType, ElKind, ethrex, reth, el_kind, as_str}
use zkboost.Payload.{Hash256, Bytes}
use zkboost.External.{External}
use zkboost.Worker.{StatelessInput, NewPayloadRequestWithWitness}
use zkboost.Config.{MockProvingTime, constant, random, linear}

-- What the source calls for proving and verifying.
pub record Backends (x : External) : Type 1 where
  pub Client : Type 0
  pub Verifier : Type 0
  pub Input : Type 0
  -- `build_eip8025_input(input, true)` and `StatelessValidatorRethInput::new(input, true)`, encoded.
  pub ethrex_input : StatelessInput x → Result Text Bytes
  pub reth_input : StatelessInput x → Result Text Bytes
  -- `Input::new().with_prefixed_stdin(..)`
  pub with_prefixed_stdin : Bytes → Input
  pub client_prove : Client → Input → Result Text Bytes
  pub client_verify : Client → Bytes → Result Text Bytes
  pub verifier_verify : Verifier → Bytes → Result Text Bytes
  -- The input and the output of each guest program, encoded.
  pub compute_ethrex : StatelessInput x → Result Text Bytes
  pub compute_reth : StatelessInput x → Result Text Bytes
  -- `StatelessValidatorOutput::new(root, true)`, encoded.
  pub encode_output : Hash256 → Result Text Bytes
  pub gas_used : x.Block → ℕ
  pub sha256 : Bytes → Bytes
  pub length-sha256 : (b : Bytes) → length (sha256 b) ≡ 32

pub record MockZkvm : Type 0 where
  pub el_kind : ElKind
  pub mock_proving_time : MockProvingTime
  pub mock_proof_size : ℕ
  pub failure : Bool

-- The random choices of one run of the mock: a time within the range, and the bytes of the proof.
pub record Random : Type 0 where
  pub range : ℕ → ℕ → ℕ
  pub byte : ℕ → ℕ

abbrev pub u64_max : ℕ
u64_max = 2 ^ 64 - 1

abbrev pub saturating_mul : ℕ → ℕ → ℕ
saturating_mul a b = min (a * b) u64_max

-- `div_ceil` at a divisor that is not zero.
abbrev pub div_ceil : ℕ → ℕ → ℕ
div_ceil a b = if (a - b * (a / b)) == 0 then a / b else a / b + 1

-- The time that the mock sleeps, in milliseconds.
unfoldable pub proving_time : MockProvingTime → ℕ → Random → ℕ
proving_time (constant ms) gas rng = ms
proving_time (random min_ms max_ms) gas rng = rng.range min_ms max_ms
proving_time (linear ms_per_mgas) gas rng = div_ceil (saturating_mul ms_per_mgas gas) 1000000

-- `resize(n, 0)`.
unfoldable pub resize : ℕ → Bytes → Bytes
resize zero l = []
resize (suc n) [] = 0 ∷ resize n []
resize (suc n) (b ∷ l) = b ∷ resize n l

-- `fill` of a slice with random bytes.
unfoldable pub fill : (ℕ → ℕ) → Bytes → Bytes
fill byte [] = []
fill byte (b ∷ l) = byte 0 ∷ fill (λ i. byte (suc i)) l

module _ {x : External} (b : Backends x) where
  pub data ZkvmInstance : Type 0 where
    -- proof type, timeout, client
    ere : ProofType → ℕ → b.Client → ZkvmInstance
    -- proof type, timeout, mock
    mock : ProofType → ℕ → MockZkvm → ZkvmInstance
    -- proof type, verifier
    verifier : ProofType → b.Verifier → ZkvmInstance

  pub data ZkvmError : Type 0 where
    verification_failed : Text → ZkvmError
    public_values_mismatch : ZkvmError

  pub data BackendKind : Type 0 where
    ere mock verifier : BackendKind

  abbrev pub instance_proof_type : ZkvmInstance → ProofType
  instance_proof_type (ere p t c) = p
  instance_proof_type (mock p t vm) = p
  instance_proof_type (verifier p v) = p

  -- In seconds.
  abbrev pub proof_timeout : ZkvmInstance → ℕ
  proof_timeout (ere p t c) = t
  proof_timeout (mock p t vm) = t
  proof_timeout (verifier p v) = 12

  -- The kind, and whether the instance can prove and can verify.
  abbrev pub backend_capabilities : ZkvmInstance → BackendKind × Bool × Bool
  backend_capabilities (ere p t c) = (BackendKind.ere, true, true)
  backend_capabilities (mock p t vm) = (BackendKind.mock, true, true)
  backend_capabilities (verifier p v) = (BackendKind.verifier, false, true)

  -- The `match` of `to_zkvm_input`, and the input of its bytes.
  abbrev to_zkvm_input : ElKind → StatelessInput x → Result Text b.Input
  to_zkvm_input ethrex input = do stdin ← b.ethrex_input input; ok (b.with_prefixed_stdin stdin)
  to_zkvm_input reth input = do stdin ← b.reth_input input; ok (b.with_prefixed_stdin stdin)

  -- The `match` of `execute`.
  abbrev compute : ElKind → StatelessInput x → Result Text Bytes
  compute ethrex input = b.compute_ethrex input
  compute reth input = b.compute_reth input

  -- `execute`: the hash of the guest's output, and the gas of the block.
  unfoldable pub execute : ElKind → StatelessInput x → Result Text (Bytes × ℕ)
  execute kind input = do
    serialized ← compute kind input
    ok (b.sha256 serialized, b.gas_used input.block)

  -- `MockzkVM::prove`: the time that it sleeps, and what it returns.
  unfoldable pub mock_prove : MockZkvm → StatelessInput x → Random → ℕ × Result Text Bytes
  mock_prove vm input rng = elim (execute vm.el_kind input) [
    | err e ↦ (0, err e)
    | ok (hash, gas) ↦ (
      proving_time vm.mock_proving_time gas rng,
      (if vm.failure
          then err (text "mocking failure")
          else (let proof = resize vm.mock_proof_size hash in
              ok (take 32 proof ++ fill rng.byte (drop 32 proof)))),
    )
  ]

  unfoldable pub mock_verify : Bytes → Result Text Bytes
  mock_verify proof =
      if leb 32 (length proof) then ok (take 32 proof) else err (text "invalid proof")

  unfoldable pub prove : ZkvmInstance → NewPayloadRequestWithWitness x → Random → Result Text Bytes
  prove (mock p t vm) payload rng = (mock_prove vm payload.stateless_input rng).1
  prove (verifier p v) payload rng =
      err (text "prove not supported for verifier-only zkvm " ++ as_str p)
  prove (ere p t client) payload rng = do
    input ← to_zkvm_input (el_kind p) payload.stateless_input
    b.client_prove client input

  unfoldable pub expected_public_values : Hash256 → Result Text Bytes
  expected_public_values root = do serialized ← b.encode_output root; ok (b.sha256 serialized)

  -- The public values that an instance takes from a proof.
  unfoldable pub public_values_of : ZkvmInstance → Bytes → Result Text Bytes
  public_values_of (ere p t client) proof = b.client_verify client proof
  public_values_of (mock p t vm) proof = mock_verify proof
  public_values_of (verifier p v) proof = b.verifier_verify v proof

  abbrev map_err {ℓ} : {A : Type ℓ} → Result Text A → Result ZkvmError A
  map_err (ok a) = ok a
  map_err (err e) = err (verification_failed e)

  unfoldable pub verify : ZkvmInstance → Hash256 → Bytes → Result ZkvmError (Unit {0})
  verify zkvm root proof = do
    public_values ← map_err (public_values_of zkvm proof)
    expected ← map_err (expected_public_values root)
    if leb 32 (length public_values)
          && text_eq (take 32 public_values) expected
          && all (λ byte. byte == 0) (drop 32 public_values)
        then ok tt
        else err public_values_mismatch
