-- ===== src/Server.antt =====
-- crates/server/src/server.rs and the constructors of crates/server/src/proof/zkvm.rs: the
-- instances and the workers that the server starts. An assertion that fails is an error here.
pub mod Start
pub mod Workers
pub mod Run
pub mod Running
use zkboost.Prelude.{
  Text, ◌==◌, is_some, ◌||◌, ◌&&◌, ltb, if◌then◌else◌, Option, some, none, ℕ, ◌*◌, List, [], ◌∷◌,
  text, Bool, Result, ok, err, ◌>>=◌, ◌>>◌, ensure, leb, insert, insert_entry, length,
}
use zkboost.Payload.{Bytes}
use zkboost.ProofType.{ProofType, ElKind, ZkvmKind, zkvm_kind, el_kind, proof_type_dec}
use zkboost.External.{External}
use zkboost.Config.{
  MockProvingTime, constant, random, linear, ZkvmConfig, ere, mock, verifier, config_proof_type,
}
use zkboost.Zkvm.{Backends, MockZkvm, ZkvmInstance, instance_proof_type}
use zkboost.Transport.{Response, refuse_status}
use zkboost.Http.{Zkvms, is_verifier}

-- The assertion of `MockzkVM::new` on the range of a random time.
unfoldable pub assert_range : MockProvingTime → Result Text (Unit {0})
assert_range (constant ms) = ok tt
assert_range (random min_ms max_ms) =
    ensure (leb min_ms max_ms) (text "assertion failed: min_ms <= max_ms")
assert_range (linear ms_per_mgas) = ok tt

-- `MockzkVM::new`.
unfoldable pub new_mock : ElKind → MockProvingTime → ℕ → Bool → Result Text MockZkvm
unfolding assert_range
new_mock kind time size failure = do
  ensure (leb 32 size) (text "assertion failed: mock_proof_size >= 32")
  assert_range time
  ok (record {
    el_kind = kind;
    mock_proving_time = time;
    mock_proof_size = size;
    failure = failure;
  })

-- What the server calls to set up a backend: `Url::parse` and `zkVMClient::new` of an endpoint, the
-- file system, an HTTP request, and `Verifier::new` of a verifying key.
pub record Connect {x : External} (b : Backends x) : Type 0 where
  pub new_client : Text → Result Text b.Client
  pub read_file : Text → Result Text Bytes
  pub http_get : Text → Result Text Response
  pub new_verifier : ZkvmKind → Bytes → Result Text b.Verifier

unfoldable pub strip_prefix : Text → Text → Option Text
strip_prefix [] s = some s
strip_prefix (c ∷ prefix) [] = none
strip_prefix (c ∷ prefix) (d ∷ s) =
    let rest = strip_prefix prefix s in if c == d then rest else none

-- `str::contains` of a text.
unfoldable pub has_text : Text → Text → Bool
unfolding strip_prefix
has_text part [] = is_some (strip_prefix part [])
has_text part (c ∷ s) = is_some (strip_prefix part (c ∷ s)) || has_text part s

-- Where a verifying key is read: the path of a file, or none for a URL of another scheme.
unfoldable pub key_path : Text → Option Text
unfolding strip_prefix has_text
key_path url = elim (strip_prefix (text "file://") url) [
  | some path ↦ some path
  | none ↦ if has_text (text "://") url then none else some url
]

module _ {x : External} (b : Backends x) (connect : Connect b) where
  unfoldable pub download_program_vk : Text → Result Text Bytes
  unfolding key_path
  download_program_vk url = elim (key_path url) [
    | some path ↦ connect.read_file path
    | none ↦ (do sent ← connect.http_get url; response ← refuse_status sent; response.body)
  ]

  unfoldable pub verifier_from_url : ProofType → Text → Result Text b.Verifier
  unfolding download_program_vk
  verifier_from_url proof_type url = do
    encoded_program_vk ← download_program_vk url
    connect.new_verifier (zkvm_kind proof_type) encoded_program_vk

  -- `zkVMInstance::new`.
  unfoldable pub new_instance : ZkvmConfig → Result Text (ZkvmInstance b)
  unfolding new_mock verifier_from_url
  new_instance (ere proof_type timeout endpoint) = do
    client ← connect.new_client endpoint
    ok (ZkvmInstance.ere proof_type timeout client)
  new_instance (mock proof_type timeout time size failure) = do
    vm ← new_mock (el_kind proof_type) time size failure
    ok (ZkvmInstance.mock proof_type timeout vm)
  new_instance (verifier proof_type program_vk_url) = do
    key ← verifier_from_url proof_type program_vk_url
    ok (ZkvmInstance.verifier proof_type key)

  -- The loop of `zkBoostServer::new` over the backends of the configuration.
  unfoldable pub start_zkvms : Zkvms b → List ZkvmConfig → Result Text (Zkvms b)
  start_zkvms zkvms [] = ok zkvms
  start_zkvms zkvms (config ∷ configs) = do
    instance_ ← new_instance config
    start_zkvms (insert_entry proof_type_dec (config_proof_type config) instance_ zkvms) configs

module _ {x : External} (b : Backends x) where
  -- The keys of `worker_input_txs` in `zkBoostServer::run`.
  unfoldable pub worker_types : List ProofType → Zkvms b → List ProofType
  worker_types started [] = started
  worker_types started ((p, zkvm) ∷ zkvms) =
      worker_types
        (if is_verifier b zkvm
          then started
          else insert proof_type_dec (instance_proof_type b zkvm) started)
        zkvms
