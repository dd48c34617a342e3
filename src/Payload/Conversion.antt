-- ===== src/Payload/Conversion.antt =====
-- crates/server/src/proof/input.rs: a payload request as the execution data of alloy. The types
-- of alloy are the struct literals that the source writes.
pub mod Fields
use zkboost.Prelude.{ℕ, List, map}
use zkboost.Payload.{
  Hash256, Bytes, Withdrawal, ExecutionPayloadBellatrix, ExecutionPayloadCapella,
  ExecutionPayloadDeneb, NewPayloadRequestElectra, NewPayloadRequest, bellatrix, capella, deneb,
  electra, fulu, gloas,
}

pub record AlloyExecutionPayloadV1 : Type 0 where
  pub parent_hash : Hash256
  pub fee_recipient : ℕ
  pub state_root : Hash256
  pub receipts_root : Hash256
  pub logs_bloom : Bytes
  pub prev_randao : Hash256
  pub block_number : ℕ
  pub gas_limit : ℕ
  pub gas_used : ℕ
  pub timestamp : ℕ
  pub extra_data : Bytes
  pub base_fee_per_gas : ℕ
  pub block_hash : Hash256
  pub transactions : List Bytes

pub record AlloyWithdrawal : Type 0 where
  pub index : ℕ
  pub validator_index : ℕ
  pub address : ℕ
  pub amount : ℕ

pub record AlloyExecutionPayloadV2 : Type 0 where
  pub payload_inner : AlloyExecutionPayloadV1
  pub withdrawals : List AlloyWithdrawal

pub record AlloyExecutionPayloadV3 : Type 0 where
  pub payload_inner : AlloyExecutionPayloadV2
  pub blob_gas_used : ℕ
  pub excess_blob_gas : ℕ

pub data AlloyExecutionPayload : Type 0 where
  v1 : AlloyExecutionPayloadV1 → AlloyExecutionPayload
  v2 : AlloyExecutionPayloadV2 → AlloyExecutionPayload
  v3 : AlloyExecutionPayloadV3 → AlloyExecutionPayload

pub record CancunPayloadFields : Type 0 where
  pub parent_beacon_block_root : Hash256
  pub versioned_hashes : List Hash256

-- `PraguePayloadFields` of a requests hash is that hash.
pub data ExecutionPayloadSidecar : Type 0 where
  no_sidecar : ExecutionPayloadSidecar
  cancun : CancunPayloadFields → ExecutionPayloadSidecar
  prague : CancunPayloadFields → Hash256 → ExecutionPayloadSidecar

pub record ExecutionData : Type 0 where
  pub payload : AlloyExecutionPayload
  pub sidecar : ExecutionPayloadSidecar

pub convert_withdrawal : Withdrawal → AlloyWithdrawal
convert_withdrawal w = record {
  index = w.index;
  validator_index = w.validator_index;
  address = w.address;
  amount = w.amount;
}

-- The macro `convert_payload_to_v1!`.
pub convert_payload_to_v1 : ExecutionPayloadBellatrix → AlloyExecutionPayloadV1
convert_payload_to_v1 payload = record {
  parent_hash = payload.parent_hash;
  fee_recipient = payload.fee_recipient;
  state_root = payload.state_root;
  receipts_root = payload.receipts_root;
  logs_bloom = payload.logs_bloom;
  prev_randao = payload.prev_randao;
  block_number = payload.block_number;
  gas_limit = payload.gas_limit;
  gas_used = payload.gas_used;
  timestamp = payload.timestamp;
  extra_data = payload.extra_data;
  base_fee_per_gas = payload.base_fee_per_gas;
  block_hash = payload.block_hash;
  transactions = payload.transactions;
}

-- The macro `convert_payload_to_v1_with_withdrawals!`, as the V2 payload of its two values.
pub convert_payload_to_v1_with_withdrawals : ExecutionPayloadCapella → AlloyExecutionPayloadV2
unfolding convert_payload_to_v1 convert_withdrawal
convert_payload_to_v1_with_withdrawals payload = record {
  payload_inner = convert_payload_to_v1 payload.bellatrix;
  withdrawals = map convert_withdrawal payload.withdrawals;
}

-- The V3 payload that the arms from Deneb on build.
convert_payload_to_v3 : ExecutionPayloadDeneb → AlloyExecutionPayloadV3
unfolding convert_payload_to_v1_with_withdrawals
convert_payload_to_v3 payload = record {
  payload_inner = convert_payload_to_v1_with_withdrawals payload.capella;
  blob_gas_used = payload.blob_gas_used;
  excess_blob_gas = payload.excess_blob_gas;
}

module _ {R : Type 0} (requests_hash : R → Hash256) where
  -- The body that the arms of Electra, Fulu and Gloas share.
  prague_execution_data : NewPayloadRequestElectra R → ExecutionData
  unfolding convert_payload_to_v3
  prague_execution_data inner = record {
    payload = v3 (convert_payload_to_v3 inner.execution_payload);
    sidecar =
        prague
          (record {
            parent_beacon_block_root = inner.parent_beacon_block_root;
            versioned_hashes = inner.versioned_hashes;
          })
          (requests_hash inner.execution_requests);
  }

  unfoldable pub new_payload_request_to_execution_data : NewPayloadRequest R → ExecutionData
  unfolding convert_payload_to_v3 prague_execution_data
  new_payload_request_to_execution_data (bellatrix inner) = record {
    payload = v1 (convert_payload_to_v1 inner);
    sidecar = no_sidecar;
  }
  new_payload_request_to_execution_data (capella inner) = record {
    payload = v2 (convert_payload_to_v1_with_withdrawals inner);
    sidecar = no_sidecar;
  }
  new_payload_request_to_execution_data (deneb inner) = record {
    payload = v3 (convert_payload_to_v3 inner.execution_payload);
    sidecar = cancun (record {
      parent_beacon_block_root = inner.parent_beacon_block_root;
      versioned_hashes = inner.versioned_hashes;
    });
  }
  new_payload_request_to_execution_data (electra inner) = prague_execution_data inner
  new_payload_request_to_execution_data (fulu inner) = prague_execution_data inner
  new_payload_request_to_execution_data (gloas inner) = prague_execution_data inner
