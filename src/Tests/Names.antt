-- ===== src/Tests/Names.antt =====
-- crates/types/src: names of proof types, query values and events.
use zkboost.Prelude.{
  ℕ, ◌==◌, if◌then◌else◌, Result, refl, ◌≡◌, ◌↔◌, [], ◌∷◌, map, Text, text, ok, err,
}
use zkboost.ProofType.{
  ProofType, ethrex_risc0, ethrex_zisk, reth_openvm, reth_risc0, reth_sp1, reth_zisk, ethrex_sp1,
  as_str,
}
use zkboost.ProofType.Query.{split, trim, serialize, deserialize}
use zkboost.ProofType.Query.RoundTrip.{deserialize-serialize, deserialize-eq-ok_iff}
use zkboost.Events.{
  Json, ProofComplete, ProofFailure, ProofEvent, FailureReason, witness_timeout, proving_timeout,
  proving_error, internal_error, to_parts, try_from_parts, try_from_parts-to_parts,
}
use zkboost.Payload.Conversion.Fields.{
  conversion-fields, converted, expected_requests_hash, inner_v1, requests_hash_of,
}
use zkboost.Payload.{block_hash, block_number, timestamp, gas_used}
use zkboost.Tests.World.{request}

deserialize-serialize_example :
    deserialize (serialize (reth_zisk ∷ ethrex_sp1 ∷ [])) ≡ ok (reth_zisk ∷ ethrex_sp1 ∷ [])
deserialize-serialize_example = deserialize-serialize (reth_zisk ∷ ethrex_sp1 ∷ [])

deserialize-eq-ok_iff_example :
    (deserialize (text " reth-zisk,ethrex-sp1") ≡ ok (reth_zisk ∷ ethrex_sp1 ∷ [])) ↔ (
      map trim (split b',' (text " reth-zisk,ethrex-sp1"))
      ≡ map as_str (reth_zisk ∷ ethrex_sp1 ∷ []))
deserialize-eq-ok_iff_example =
    deserialize-eq-ok_iff (text " reth-zisk,ethrex-sp1") (reth_zisk ∷ ethrex_sp1 ∷ []) (λ e. cc)

-- A format for the payloads of events: a number for each field, and the error's text.
abbrev number : ProofType → ℕ
number ethrex_risc0 = 0
number ethrex_sp1 = 1
number ethrex_zisk = 2
number reth_openvm = 3
number reth_risc0 = 4
number reth_sp1 = 5
number reth_zisk = 6

abbrev type_of : ℕ → ProofType
type_of n =
    if n == 0
    then ethrex_risc0
    else if n == 1
    then ethrex_sp1
    else if n == 2
    then ethrex_zisk
    else if n == 3
    then reth_openvm
    else if n == 4
    then reth_risc0
    else if n == 5
    then reth_sp1
    else reth_zisk

pub type_of-number : (p : ProofType) → type_of (number p) ≡ p
type_of-number ethrex_risc0 = refl
type_of-number ethrex_sp1 = refl
type_of-number ethrex_zisk = refl
type_of-number reth_openvm = refl
type_of-number reth_risc0 = refl
type_of-number reth_sp1 = refl
type_of-number reth_zisk = refl

abbrev reason_number : FailureReason → ℕ
reason_number witness_timeout = 0
reason_number proving_timeout = 1
reason_number proving_error = 2
reason_number internal_error = 3

abbrev reason_of : ℕ → FailureReason
reason_of n =
    if n == 0
    then witness_timeout
    else if n == 1
    then proving_timeout
    else if n == 2
    then proving_error
    else internal_error

pub reason_of-reason_number : (r : FailureReason) → reason_of (reason_number r) ≡ r
reason_of-reason_number witness_timeout = refl
reason_of-reason_number proving_timeout = refl
reason_of-reason_number proving_error = refl
reason_of-reason_number internal_error = refl

abbrev read_complete : Text → Result Text ProofComplete
read_complete (root ∷ p ∷ rest) =
    ok (record { new_payload_request_root = root; proof_type = type_of p })
read_complete _ = err (text "expected an event")

abbrev read_failure : Text → Result Text ProofFailure
read_failure (root ∷ p ∷ reason ∷ error) = ok (record {
  new_payload_request_root = root;
  proof_type = type_of p;
  reason = reason_of reason;
  error = error;
})
read_failure _ = err (text "expected an event")

abbrev pub json : Json
json = record {
  Error = Text;
  complete_to_string = λ c. c.new_payload_request_root ∷ number c.proof_type ∷ [];
  failure_to_string =
      λ f. f.new_payload_request_root ∷ number f.proof_type ∷ reason_number f.reason ∷ f.error;
  complete_from_str = read_complete;
  failure_from_str = read_failure;
  complete_law = λ c. rw (type_of-number c.proof_type) refl;
  failure_law = λ f. rw (type_of-number f.proof_type, reason_of-reason_number f.reason) refl;
}

abbrev pub failed : ProofEvent
failed = ProofEvent.proof_failure (record {
  new_payload_request_root = 9;
  proof_type = reth_zisk;
  reason = proving_error;
  error = text "out of memory";
})

try_from_parts-to_parts_example :
    try_from_parts json (to_parts json failed).0 (to_parts json failed).1 ≡ ok failed
try_from_parts-to_parts_example = try_from_parts-to_parts json failed

conversion-fields_example :
    ((inner_v1 (converted (λ r. r) request).payload).block_hash ≡ block_hash request)
    × ((inner_v1 (converted (λ r. r) request).payload).block_number ≡ block_number request)
    × ((inner_v1 (converted (λ r. r) request).payload).timestamp ≡ timestamp request)
    × ((inner_v1 (converted (λ r. r) request).payload).gas_used ≡ gas_used request)
    × (requests_hash_of (converted (λ r. r) request).sidecar
        ≡ expected_requests_hash (λ r. r) request)
conversion-fields_example = conversion-fields (λ r. r) request
