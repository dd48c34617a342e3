-- ===== src/Dashboard/Page.antt =====
-- crates/server/src/http/dashboard/index.html: what the page that shows the dashboard makes of the
-- service's events. The page holds the blocks of a snapshot and changes them event by event.
pub mod Merge
pub mod Found
pub mod Reads
pub mod Run
pub mod Again
use zkboost.Prelude.{
  ℕ, ℕ_discrete, List, [], ◌∷◌, Bool, Option, none, some, ite, get, insert_entry, take,
}
use zkboost.ProofType.{ProofType, proof_type_dec}
use zkboost.Payload.{Hash256}
use zkboost.External.{External}
use zkboost.Lru.{LruCache}
use zkboost.Dashboard.{HistoricalProof, HistoricalBlock, DashboardEvent}
use zkboost.Dashboard.Service.{new_proof, empty_block}

module _ (x : External) where
  open x use {Seconds}

  abbrev pub Proofs : Type 0
  Proofs = List (ProofType × HistoricalProof Seconds)

  -- The object `data` of an update: a field that it does not have is `none`.
  pub record Update : Type 0 where
    pub block_number : Option ℕ
    pub gas_used : Option ℕ
    pub block_timestamp : Option ℕ
    pub witness_started_s : Option Seconds
    pub witness_ended_s : Option Seconds
    pub witness_success : Option Bool
    pub witness_size : Option ℕ
    pub proofs : Proofs

  abbrev no_update : Update
  no_update = record {
    block_number = none;
    gas_used = none;
    block_timestamp = none;
    witness_started_s = none;
    witness_ended_s = none;
    witness_success = none;
    witness_size = none;
    proofs = [];
  }

  -- The spread `{ ...entry.proofs, ...data.proofs }`.
  unfoldable pub merge : Proofs → Proofs → Proofs
  merge proofs [] = proofs
  merge proofs ((p, proof) ∷ data_proofs) =
      merge (insert_entry proof_type_dec p proof proofs) data_proofs

  -- `if (value != null) field = value`.
  abbrev assign : {A : Type 0} → Option A → A → A
  assign (some value) field = value
  assign none field = field

  -- The same for a field that may be null.
  abbrev assign_some : {A : Type 0} → Option A → Option A → Option A
  assign_some (some value) field = some value
  assign_some none field = field

  abbrev pub update_entry : Update → HistoricalBlock Seconds → HistoricalBlock Seconds
  update_entry update entry = record entry {
    block_number = assign update.block_number entry.block_number;
    gas_used = assign update.gas_used entry.gas_used;
    block_timestamp = assign update.block_timestamp entry.block_timestamp;
    witness_started_s = assign_some update.witness_started_s entry.witness_started_s;
    witness_ended_s = assign_some update.witness_ended_s entry.witness_ended_s;
    witness_success = assign update.witness_success entry.witness_success;
    witness_size = assign_some update.witness_size entry.witness_size;
    proofs = merge entry.proofs update.proofs;
  }

  -- `historicalBlocks.value.find((b) => b.blockHash === blockHash)`.
  unfoldable pub find_block :
      Hash256 → List (HistoricalBlock Seconds) → Option (HistoricalBlock Seconds)
  find_block hash [] = none
  find_block hash (b ∷ bs) = ite (ℕ_discrete b.block_hash hash) (some b) (find_block hash bs)

  unfoldable pub update_found :
      Hash256 → Update → List (HistoricalBlock Seconds) → List (HistoricalBlock Seconds)
  update_found hash update [] = []
  update_found hash update (b ∷ bs) =
      ite (ℕ_discrete b.block_hash hash) (update_entry update b ∷ bs)
        (b ∷ update_found hash update bs)

  module _ (blocks : LruCache Hash256 (HistoricalBlock Seconds)) where
    unfoldable pub update_historical_block :
        ℕ → Hash256 → Update → List (HistoricalBlock Seconds) → List (HistoricalBlock Seconds)
    unfolding find_block update_found
    update_historical_block retention hash update page = elim (find_block hash page) [
      | some entry ↦ update_found hash update page
      | none ↦ take retention (update_entry update (empty_block x blocks 0 hash 0 0) ∷ page)
    ]

    -- The proofs of a request: an object with an entry for each of the proof types.
    unfoldable pub requested_proofs : Seconds → List ProofType → Proofs → Proofs
    requested_proofs started [] proofs = proofs
    requested_proofs started (p ∷ ps) proofs =
        requested_proofs started ps
          (insert_entry proof_type_dec p (new_proof x (some started)) proofs)

    -- `historicalBlocks.value.find(..)?.proofs[proofType]`.
    unfoldable pub existing :
        Hash256 → ProofType → List (HistoricalBlock Seconds) → Option (HistoricalProof Seconds)
    unfolding find_block
    existing hash p page = elim (find_block hash page) [
      | none ↦ none
      | some b ↦ get proof_type_dec b.proofs p
    ]

    -- `existing?.requestedS ?? null`.
    abbrev requested_of : Option (HistoricalProof Seconds) → Option Seconds
    requested_of none = none
    requested_of (some proof) = proof.requested_s

    -- `existing?.startedS ?? null`.
    abbrev started_of : Option (HistoricalProof Seconds) → Option Seconds
    started_of none = none
    started_of (some proof) = proof.started_s

    -- The field `blockHash` of an event.
    abbrev pub block_of : DashboardEvent Seconds → Hash256
    block_of (DashboardEvent.request_proof number hash timestamp gas started ps) = hash
    block_of (DashboardEvent.fetch_witness_start hash started) = hash
    block_of (DashboardEvent.fetch_witness_end hash ended size success) = hash
    block_of (DashboardEvent.prove_start hash p started) = hash
    block_of (DashboardEvent.prove_end hash p ended result error size) = hash

    -- The update that the handler of an event makes.
    unfoldable pub update_of : DashboardEvent Seconds → List (HistoricalBlock Seconds) → Update
    unfolding requested_proofs existing
    update_of (DashboardEvent.request_proof number hash timestamp gas started ps) page =
        record no_update {
          block_number = some number;
          gas_used = some gas;
          block_timestamp = some timestamp;
          proofs = requested_proofs started ps [];
        }
    update_of (DashboardEvent.fetch_witness_start hash started) page = record no_update {
      witness_started_s = some started;
    }
    update_of (DashboardEvent.fetch_witness_end hash ended size success) page = record no_update {
      witness_ended_s = some ended;
      witness_success = some success;
      witness_size = some size;
    }
    update_of (DashboardEvent.prove_start hash p started) page =
        let proof = new_proof x (requested_of (existing hash p page)) in
        record no_update { proofs = (p, record proof { started_s = some started }) ∷ [] }
    update_of (DashboardEvent.prove_end hash p ended result error size) page =
        let proof : HistoricalProof Seconds = record {
          requested_s = requested_of (existing hash p page);
          started_s = started_of (existing hash p page);
          result = some result;
          error = error;
          ended_s = some ended;
          proof_size = size;
        } in
        record no_update { proofs = (p, proof) ∷ [] }

    -- `SSE_HANDLERS`: what the handler of an event makes of the blocks.
    unfoldable pub handle_event :
        ℕ → DashboardEvent Seconds → List (HistoricalBlock Seconds) → List (HistoricalBlock Seconds)
    unfolding update_historical_block update_of
    handle_event retention event page =
        update_historical_block retention (block_of event) (update_of event page) page

    -- The page after the events of the service, the newest first.
    unfoldable pub read_events :
        ℕ
        → List (HistoricalBlock Seconds)
        → List (DashboardEvent Seconds)
        → List (HistoricalBlock Seconds)
    read_events retention snapshot [] = snapshot
    read_events retention snapshot (event ∷ events) =
        handle_event retention event (read_events retention snapshot events)
