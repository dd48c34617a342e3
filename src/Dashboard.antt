-- ===== src/Dashboard.antt =====
-- crates/server/src/dashboard.rs: the messages, records and events of the dashboard. `Seconds` is
-- the type of a time in seconds, an `f64` in the source.
pub mod Service
pub mod Proofs
pub mod History
pub mod Frame
pub mod Page
use zkboost.Prelude.{ℕ, ◌≡◌, List, [], Text, Bool, false, Option, none, some, length, sort_by_key}
use zkboost.ProofType.{ProofType, discriminant}
use zkboost.Payload.{Hash256, NewPayloadRequest, block_hash, block_number, timestamp, gas_used}
use zkboost.External.{External}
use zkboost.Worker
use zkboost.Worker.{proof_ok, proof_err}

pub data ProofResult : Type 0 where
  success error timeout : ProofResult

module _ (Seconds : Type 0) where
  -- Created when the proof is requested; the other fields are filled in later.
  pub record HistoricalProof : Type 0 where
    pub requested_s : Option Seconds
    pub started_s : Option Seconds
    pub result : Option ProofResult
    pub error : Option Text
    pub ended_s : Option Seconds
    pub proof_size : Option ℕ

  pub record HistoricalBlock : Type 0 where
    pub block_number : ℕ
    pub block_hash : Hash256
    pub block_timestamp : ℕ
    pub gas_used : ℕ
    pub witness_started_s : Option Seconds
    pub witness_ended_s : Option Seconds
    pub witness_size : Option ℕ
    pub witness_success : Bool
    pub proofs : List (ProofType × HistoricalProof)

  pub data DashboardMessage : Type 0 where
    -- block number, block hash, block timestamp, gas used, proof types, time
    request_proof : ℕ → Hash256 → ℕ → ℕ → List ProofType → Seconds → DashboardMessage
    fetch_witness_start : Hash256 → Seconds → DashboardMessage
    -- block hash, witness size, success, time
    fetch_witness_end : Hash256 → ℕ → Bool → Seconds → DashboardMessage
    prove_start : Hash256 → ProofType → Seconds → DashboardMessage
    -- block hash, proof type, result, error, proof size, time
    prove_end :
        Hash256 → ProofType → ProofResult → Option Text → Option ℕ → Seconds → DashboardMessage

  pub data DashboardEvent : Type 0 where
    request_proof : ℕ → Hash256 → ℕ → ℕ → Seconds → List ProofType → DashboardEvent
    fetch_witness_start : Hash256 → Seconds → DashboardEvent
    fetch_witness_end : Hash256 → Seconds → ℕ → Bool → DashboardEvent
    prove_start : Hash256 → ProofType → Seconds → DashboardEvent
    prove_end :
        Hash256 → ProofType → Seconds → ProofResult → Option Text → Option ℕ → DashboardEvent

module _ {Seconds : Type 0} where
  -- `DashboardMessage::request_proof`; the proof types are sorted.
  unfoldable pub request_proof_message :
      {R : Type 0} → NewPayloadRequest R → List ProofType → Seconds → DashboardMessage Seconds
  request_proof_message request proof_types now =
      DashboardMessage.request_proof (block_number request) (block_hash request) (timestamp request)
        (gas_used request) (sort_by_key discriminant proof_types) now

  -- `DashboardMessage::prove_end`.
  unfoldable pub prove_end_message :
      Hash256 → ProofType → Worker.ProofResult → Seconds → DashboardMessage Seconds
  prove_end_message block_hash proof_type (proof_ok bytes) now =
      DashboardMessage.prove_end block_hash proof_type success none (some (length bytes)) now
  prove_end_message block_hash proof_type (proof_err msg) now =
      DashboardMessage.prove_end block_hash proof_type error (some msg) none now
  prove_end_message block_hash proof_type Worker.ProofResult.timeout now =
      DashboardMessage.prove_end block_hash proof_type ProofResult.timeout none none now
