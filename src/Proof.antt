-- ===== src/Proof.antt =====
-- crates/server/src/proof.rs: the messages and the state of the proof service. What the service
-- sends is kept beside its state, one list for each channel, the newest first.
pub mod Service
pub mod Keys
pub mod Accounting
pub mod Requests
pub mod System
pub mod Delivery
pub mod Dispatch
pub mod Refinement
pub mod Blocks
pub mod Asking
use zkboost.Prelude.{ℕ, List, [], Text, Option, ℕ_discrete}
use zkboost.ProofType.{ProofType, proof_type_dec}
use zkboost.Payload.{Hash256, Bytes, NewPayloadRequest}
use zkboost.Events.{ProofEvent}
use zkboost.External.{External}
use zkboost.Lru.{LruCache}
use zkboost.Worker.{NewPayloadRequestWithWitness}
use zkboost.Dashboard.{DashboardMessage}

-- What a proof is asked for and cached by.
abbrev pub Key : Type 0
Key = Hash256 × ProofType

unfoldable pub key_dec : Discrete Key
unfolding proof_type_dec ℕ_discrete
key_dec = hlevel (ℕ_discrete, proof_type_dec)

-- A call of `record_prove` of crates/server/src/metrics.rs.
pub record ProveRecord : Type 0 where
  pub proof_type : ProofType
  pub result : Text
  pub duration : ℕ
  pub proof_size : ℕ

-- What `try_send` to a worker's channel returns.
pub data SendReply : Type 0 where
  sent full closed : SendReply

module _ (x : External) where
  pub data ProofServiceMessage : Type 0 where
    -- root, payload request, proof types
    request_proof :
        Hash256 → NewPayloadRequest x.ExecutionRequests → List ProofType → ProofServiceMessage
    witness_available : Hash256 → x.Witness → ProofServiceMessage
    witness_timeout : Hash256 → ProofServiceMessage

  pub record PendingRequest : Type 0 where
    pub new_payload_request : NewPayloadRequest x.ExecutionRequests
    pub new_payload_request_root : Hash256
    pub proof_types : List ProofType

  -- What the world answers during one call of a handler: the time, the error of the send to the
  -- witness service if it fails, and the reply of each worker's channel.
  pub record Replies : Type 0 where
    pub now : x.Seconds
    pub fetch_error : Option Text
    pub worker_reply : ProofType → SendReply

  module _ (proofs : LruCache Key Bytes) where
    pub record ProofService : Type 0 where
      pub chain_config : x.ChainConfig
      pub proof_cache : proofs.Cache
      pub pending : List (Hash256 × PendingRequest)
      pub requested : List Key
      -- `proof_event_tx`
      pub events : List ProofEvent
      -- `witness_service_tx`: the block hashes of `FetchWitness`
      pub fetches : List Hash256
      -- the channels of the workers
      pub worker_inputs : List (ProofType × NewPayloadRequestWithWitness x)
      -- `dashboard_service_tx`
      pub dashboard : List (DashboardMessage x.Seconds)
      pub proves : List ProveRecord

    -- `ProofService::new`.
    unfoldable pub new_service : x.ChainConfig → proofs.Cache → ProofService
    new_service chain_config proof_cache = record {
      chain_config = chain_config;
      proof_cache = proof_cache;
      pending = [];
      requested = [];
      events = [];
      fetches = [];
      worker_inputs = [];
      dashboard = [];
      proves = [];
    }
