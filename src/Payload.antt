-- ===== src/Payload.antt =====
-- crates/types/src/new_payload_request.rs: the payload request of each fork, and what is read
-- from it. The fields of the payloads are the ones that the source reads. `R` stands for the type
-- of the execution requests, which no code of the repository looks into.
pub mod Conversion
use zkboost.Prelude.{ℕ, List}

-- A `Hash256`, an address or a `Uint256`, as the number that its bytes are.
abbrev pub Hash256 : Type 0
Hash256 = ℕ

abbrev pub Bytes : Type 0
Bytes = List ℕ

pub record Withdrawal : Type 0 where
  pub index : ℕ
  pub validator_index : ℕ
  pub address : ℕ
  pub amount : ℕ

pub record ExecutionPayloadBellatrix : Type 0 where
  pub parent_hash : Hash256
  pub fee_recipient : ℕ
  pub state_root : Hash256
  pub receipts_root : Hash256
  pub logs_bloom : Bytes
  pub prev_randao : Hash256
  pub block_number : ℕ
  pub gas_limit : ℕ
  pub gas_used : ℕ
  pub timestamp : ℕ
  pub extra_data : Bytes
  pub base_fee_per_gas : ℕ
  pub block_hash : Hash256
  pub transactions : List Bytes

pub record ExecutionPayloadCapella : Type 0 where
  pub bellatrix : ExecutionPayloadBellatrix
  pub open bellatrix use *
  pub withdrawals : List Withdrawal

-- Deneb and the later forks.
pub record ExecutionPayloadDeneb : Type 0 where
  pub capella : ExecutionPayloadCapella
  pub open capella use *
  pub blob_gas_used : ℕ
  pub excess_blob_gas : ℕ

pub record NewPayloadRequestDeneb : Type 0 where
  pub execution_payload : ExecutionPayloadDeneb
  pub versioned_hashes : List Hash256
  pub parent_beacon_block_root : Hash256

-- Electra, Fulu and Gloas.
pub record NewPayloadRequestElectra (R : Type 0) : Type 0 where
  pub execution_payload : ExecutionPayloadDeneb
  pub versioned_hashes : List Hash256
  pub parent_beacon_block_root : Hash256
  pub execution_requests : R

pub data NewPayloadRequest (R : Type 0) : Type 0 where
  bellatrix : ExecutionPayloadBellatrix → NewPayloadRequest R
  capella : ExecutionPayloadCapella → NewPayloadRequest R
  deneb : NewPayloadRequestDeneb → NewPayloadRequest R
  electra fulu gloas : NewPayloadRequestElectra R → NewPayloadRequest R

module _ {R : Type 0} where
  unfoldable pub block_hash : NewPayloadRequest R → Hash256
  block_hash (bellatrix inner) = inner.block_hash
  block_hash (capella inner) = inner.block_hash
  block_hash (deneb inner) = inner.execution_payload.block_hash
  block_hash (electra inner) = inner.execution_payload.block_hash
  block_hash (fulu inner) = inner.execution_payload.block_hash
  block_hash (gloas inner) = inner.execution_payload.block_hash

  unfoldable pub block_number : NewPayloadRequest R → ℕ
  block_number (bellatrix inner) = inner.block_number
  block_number (capella inner) = inner.block_number
  block_number (deneb inner) = inner.execution_payload.block_number
  block_number (electra inner) = inner.execution_payload.block_number
  block_number (fulu inner) = inner.execution_payload.block_number
  block_number (gloas inner) = inner.execution_payload.block_number

  unfoldable pub timestamp : NewPayloadRequest R → ℕ
  timestamp (bellatrix inner) = inner.timestamp
  timestamp (capella inner) = inner.timestamp
  timestamp (deneb inner) = inner.execution_payload.timestamp
  timestamp (electra inner) = inner.execution_payload.timestamp
  timestamp (fulu inner) = inner.execution_payload.timestamp
  timestamp (gloas inner) = inner.execution_payload.timestamp

  unfoldable pub gas_used : NewPayloadRequest R → ℕ
  gas_used (bellatrix inner) = inner.gas_used
  gas_used (capella inner) = inner.gas_used
  gas_used (deneb inner) = inner.execution_payload.gas_used
  gas_used (electra inner) = inner.execution_payload.gas_used
  gas_used (fulu inner) = inner.execution_payload.gas_used
  gas_used (gloas inner) = inner.execution_payload.gas_used
