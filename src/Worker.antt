-- ===== src/Worker.antt =====
-- crates/server/src/proof/input.rs and proof/worker.rs: the input of a zkVM worker, and what the
-- worker makes of it.
pub mod Run
use zkboost.Prelude.{ℕ, Text, Result, ok, err, ◌>>=◌}
use zkboost.ProofType.{ProofType}
use zkboost.Payload.{Hash256, Bytes, NewPayloadRequest, block_hash}
use zkboost.Payload.Conversion.{new_payload_request_to_execution_data}
use zkboost.External.{External}

pub data ProofResult : Type 0 where
  proof_ok : Bytes → ProofResult
  proof_err : Text → ProofResult
  timeout : ProofResult

pub record WorkerOutput : Type 0 where
  pub new_payload_request_root : Hash256
  pub block_hash : Hash256
  pub block_number : ℕ
  pub proof_type : ProofType
  pub proof_result : ProofResult
  pub duration : ℕ

module _ (x : External) where
  pub record StatelessInput : Type 0 where
    pub block : x.Block
    pub witness : x.Witness
    pub chain_config : x.ChainConfig

  pub record NewPayloadRequestWithWitness : Type 0 where
    pub root : Hash256
    pub stateless_input : StatelessInput
    pub block_hash : Hash256

  -- `NewPayloadRequestWithWitness::new`.
  unfoldable pub with_witness :
      NewPayloadRequest x.ExecutionRequests
      → Hash256
      → x.Witness
      → x.ChainConfig
      → Result Text NewPayloadRequestWithWitness
  with_witness request root witness chain_config = do
    block ← x.try_into_block (new_payload_request_to_execution_data x.requests_hash request)
    ok (record {
      root = root;
      stateless_input = record { block = block; witness = witness; chain_config = chain_config };
      block_hash = block_hash request;
    })

  pub payload_number : NewPayloadRequestWithWitness → ℕ
  payload_number payload = x.number payload.stateless_input.block
