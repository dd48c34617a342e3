-- ===== src/Witness.antt =====
-- crates/server/src/witness.rs: the service that fetches execution witnesses from the EL. What it
-- sends is kept beside its state, the newest first.
pub mod Fetch
pub mod Steps
pub mod Effects
use zkboost.Prelude.{
  ℕ, List, [], ◌∷◌, Text, text, true, false, Option, none, some, if◌then◌else◌, contains, insert,
  remove, ite, ℕ_discrete,
}
use zkboost.Payload.{Hash256}
use zkboost.External.{External}
use zkboost.Lru.{LruCache}
use zkboost.Proof.{ProofServiceMessage}
use zkboost.Dashboard.{DashboardMessage}

-- What one call of `get_execution_witness_by_hash` comes to.
pub data Attempt (W : Type 0) : Type 0 where
  -- the witness and its size
  found : W → ℕ → Attempt W
  not_found : Attempt W
  failed : Text → Attempt W
  panicked : Attempt W

-- `fetch_witness`, for the attempts that are made before the timeout: the label of
-- `record_witness_fetch`, and the result of the task.
unfoldable pub fetch_witness : {W : Type 0} → List (Attempt W) → Text × Option (W × ℕ)
fetch_witness [] = (text "timeout", none)
fetch_witness (found witness size ∷ attempts) = (text "success", some (witness, size))
fetch_witness (not_found ∷ attempts) = fetch_witness attempts
fetch_witness (failed error ∷ attempts) = fetch_witness attempts
fetch_witness (panicked ∷ attempts) = (text "panic", none)

module _ (x : External) (witnesses : LruCache Hash256 x.Witness) where
  pub record WitnessService : Type 0 where
    pub witness_cache : witnesses.Cache
    pub requested : List Hash256
    -- The block of each task that was spawned and is not joined.
    pub tasks : List Hash256
    -- `proof_service_tx`
    pub proof_messages : List (ProofServiceMessage x)
    -- `dashboard_service_tx`
    pub dashboard : List (DashboardMessage x.Seconds)
    -- the labels and sizes of the calls of `record_witness_fetch`
    pub fetches : List (Text × ℕ)

  -- `WitnessService::new` at a size that is not zero.
  unfoldable pub new_service : ℕ → WitnessService
  new_service witness_cache_size = record {
    witness_cache = witnesses.new witness_cache_size;
    requested = [];
    tasks = [];
    proof_messages = [];
    dashboard = [];
    fetches = [];
  }

  unfoldable pub handle_message : WitnessService → Hash256 → WitnessService
  handle_message s block_hash = elim (witnesses.peek s.witness_cache block_hash) [
    | some witness ↦ record s {
      proof_messages = ProofServiceMessage.witness_available block_hash witness ∷ s.proof_messages;
    }
    | none ↦ if contains ℕ_discrete s.requested block_hash then s else record s {
      requested = insert ℕ_discrete block_hash s.requested;
      tasks = block_hash ∷ s.tasks;
    }
  ]

  unfoldable pub handle_task_result :
      WitnessService → Hash256 → Option (x.Witness × ℕ) → x.Seconds → WitnessService
  handle_task_result s block_hash (some (witness, witness_size)) now = record s {
    requested = remove ℕ_discrete block_hash s.requested;
    witness_cache = witnesses.put s.witness_cache block_hash witness;
    proof_messages = ProofServiceMessage.witness_available block_hash witness ∷ s.proof_messages;
    dashboard = DashboardMessage.fetch_witness_end block_hash witness_size true now ∷ s.dashboard;
  }
  handle_task_result s block_hash none now = record s {
    requested = remove ℕ_discrete block_hash s.requested;
    proof_messages = ProofServiceMessage.witness_timeout block_hash ∷ s.proof_messages;
    dashboard = DashboardMessage.fetch_witness_end block_hash 0 false now ∷ s.dashboard;
  }

  -- The first act of a task of `fetch_witness`.
  unfoldable pub start_task : WitnessService → Hash256 → x.Seconds → WitnessService
  start_task s block_hash now = record s {
    dashboard = DashboardMessage.fetch_witness_start block_hash now ∷ s.dashboard;
  }

  -- The size that is recorded for a result of a task.
  abbrev fetched_size : Option (x.Witness × ℕ) → ℕ
  fetched_size none = 0
  fetched_size (some (witness, size)) = size

  pub take_task : Hash256 → List Hash256 → List Hash256
  take_task h [] = []
  take_task h (g ∷ tasks) = ite (ℕ_discrete g h) tasks (g ∷ take_task h tasks)

  -- A task comes to its end, which is recorded, and the arm of `join_next` in `run` takes it out of
  -- the set and handles its result.
  unfoldable pub join_next :
      WitnessService → Hash256 → List (Attempt x.Witness) → x.Seconds → WitnessService
  unfolding take_task fetch_witness handle_task_result
  join_next s block_hash attempts now =
      let (label, result) = fetch_witness attempts in
      handle_task_result
        (record s {
          tasks = take_task block_hash s.tasks;
          fetches = (label, fetched_size result) ∷ s.fetches;
        })
        block_hash result now
