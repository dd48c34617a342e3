-- ===== src/Payload/Conversion/Fields.antt =====
-- crates/server/src/proof/input.rs: the execution data of a payload request against what
-- crates/types/src/new_payload_request.rs reads from the request.
use zkboost.Prelude.{◌≡◌, refl, Option, none, some}
use zkboost.Payload.{
  Hash256, NewPayloadRequest, bellatrix, capella, deneb, electra, fulu, gloas, block_hash,
  block_number, timestamp, gas_used,
}
use zkboost.Payload.Conversion.{
  AlloyExecutionPayloadV1, AlloyExecutionPayload, v1, v2, v3, ExecutionPayloadSidecar, no_sidecar,
  cancun, prague, ExecutionData, new_payload_request_to_execution_data,
}

abbrev pub inner_v1 : AlloyExecutionPayload → AlloyExecutionPayloadV1
inner_v1 (v1 p) = p
inner_v1 (v2 p) = p.payload_inner
inner_v1 (v3 p) = p.payload_inner.payload_inner

abbrev pub requests_hash_of : ExecutionPayloadSidecar → Option Hash256
requests_hash_of no_sidecar = none
requests_hash_of (cancun fields) = none
requests_hash_of (prague fields hash) = some hash

module _ {R : Type 0} (requests_hash : R → Hash256) where
  -- The hash of the execution requests, from Electra on.
  abbrev pub expected_requests_hash : NewPayloadRequest R → Option Hash256
  expected_requests_hash (bellatrix inner) = none
  expected_requests_hash (capella inner) = none
  expected_requests_hash (deneb inner) = none
  expected_requests_hash (electra inner) = some (requests_hash inner.execution_requests)
  expected_requests_hash (fulu inner) = some (requests_hash inner.execution_requests)
  expected_requests_hash (gloas inner) = some (requests_hash inner.execution_requests)

  abbrev pub converted : NewPayloadRequest R → ExecutionData
  converted request = new_payload_request_to_execution_data requests_hash request

  -- In every fork the converted payload has the block hash, the number, the timestamp and the gas
  -- that are read from the request, and its sidecar has the hash of the execution requests exactly
  -- in the forks that have them.
  pub conversion-fields :
      (request : NewPayloadRequest R)
      → ((inner_v1 (converted request).payload).block_hash ≡ block_hash request)
        × ((inner_v1 (converted request).payload).block_number ≡ block_number request)
        × ((inner_v1 (converted request).payload).timestamp ≡ timestamp request)
        × ((inner_v1 (converted request).payload).gas_used ≡ gas_used request)
        × (requests_hash_of (converted request).sidecar ≡ expected_requests_hash request)
  unfolding new_payload_request_to_execution_data block_hash block_number timestamp gas_used
  conversion-fields (bellatrix inner) = (refl, refl, refl, refl, refl)
  conversion-fields (capella inner) = (refl, refl, refl, refl, refl)
  conversion-fields (deneb inner) = (refl, refl, refl, refl, refl)
  conversion-fields (electra inner) = (refl, refl, refl, refl, refl)
  conversion-fields (fulu inner) = (refl, refl, refl, refl, refl)
  conversion-fields (gloas inner) = (refl, refl, refl, refl, refl)
