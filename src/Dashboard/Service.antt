-- ===== src/Dashboard/Service.antt =====
-- crates/server/src/dashboard.rs: the state behind the dashboard and the service that keeps it.
use zkboost.Prelude.{
  ℕ, List, [], ◌∷◌, map, Text, false, Option, none, some, if◌then◌else◌, get, insert_entry,
  sort_by_key,
}
use zkboost.ProofType.{ProofType, proof_type_dec, discriminant}
use zkboost.Payload.{Hash256}
use zkboost.External.{External}
use zkboost.Lru.{LruCache}
use zkboost.Dashboard.{HistoricalProof, HistoricalBlock, DashboardMessage, DashboardEvent}

module _ (x : External) where
  open x use {Seconds, since}

  abbrev pub new_proof : Option Seconds → HistoricalProof Seconds
  new_proof requested = record {
    requested_s = requested;
    started_s = none;
    result = none;
    error = none;
    ended_s = none;
    proof_size = none;
  }

  -- `entry(proof_type).or_insert(..)`.
  unfoldable pub or_insert :
      ProofType
      → HistoricalProof Seconds
      → List (ProofType × HistoricalProof Seconds)
      → List (ProofType × HistoricalProof Seconds)
  or_insert p value proofs = elim (get proof_type_dec proofs p) [
    | some _ ↦ proofs
    | none ↦ insert_entry proof_type_dec p value proofs
  ]

  -- The loop over the proof types of a request.
  unfoldable pub add_proofs :
      Seconds
      → List ProofType
      → List (ProofType × HistoricalProof Seconds)
      → List (ProofType × HistoricalProof Seconds)
  add_proofs started [] proofs = proofs
  add_proofs started (p ∷ ps) proofs =
      add_proofs started ps (or_insert p (new_proof (some started)) proofs)

  -- `if let Some(record) = block.proofs.get_mut(..)` with the assignments to the record.
  unfoldable pub update_proof :
      ProofType
      → (HistoricalProof Seconds → HistoricalProof Seconds)
      → List (ProofType × HistoricalProof Seconds)
      → List (ProofType × HistoricalProof Seconds)
  update_proof p assign proofs = elim (get proof_type_dec proofs p) [
    | some entry ↦ insert_entry proof_type_dec p (assign entry) proofs
    | none ↦ proofs
  ]

  module _ (blocks : LruCache Hash256 (HistoricalBlock Seconds)) where
    pub record DashboardState : Type 0 where
      pub build_version : Text
      pub proof_types : List ProofType
      pub historical_blocks : blocks.Cache

    pub record DashboardStateResponse : Type 0 where
      pub build_version : Text
      pub proof_types : List ProofType
      pub historical_blocks : List (HistoricalBlock Seconds)
      pub retention : ℕ

    -- `DashboardState::new` at a retention that is not zero.
    pub new_state : Text → List ProofType → ℕ → DashboardState
    new_state version proof_types retention = record {
      build_version = version;
      proof_types = sort_by_key discriminant proof_types;
      historical_blocks = blocks.new retention;
    }

    unfoldable pub to_response : DashboardState → DashboardStateResponse
    to_response state = record {
      build_version = state.build_version;
      proof_types = state.proof_types;
      historical_blocks = map (λ e. e.1) (blocks.iter state.historical_blocks);
      retention = blocks.cap state.historical_blocks;
    }

    abbrev pub get_block : DashboardState → Hash256 → Option (HistoricalBlock Seconds)
    get_block state hash = blocks.peek state.historical_blocks hash

    unfoldable pub insert_block :
        DashboardState → Hash256 → HistoricalBlock Seconds → DashboardState
    insert_block state hash block =
        if blocks.contains state.historical_blocks hash
        then state
        else record state { historical_blocks = blocks.put state.historical_blocks hash block }

    -- What is written through the reference that `get_block_mut` returns.
    unfoldable pub set_block : DashboardState → Hash256 → HistoricalBlock Seconds → DashboardState
    set_block state hash block = record state {
      historical_blocks = blocks.set state.historical_blocks hash block;
    }

    -- The service: its state and the events sent so far, the newest first.
    pub record DashboardService : Type 0 where
      pub state : DashboardState
      pub events : List (DashboardEvent Seconds)

    abbrev send : DashboardService → DashboardState → DashboardEvent Seconds → DashboardService
    send s state event = record { state = state; events = event ∷ s.events }

    -- The arms that need the block: where it is missing the handler returns.
    abbrev pub with_block :
        DashboardService → Hash256 → (HistoricalBlock Seconds → DashboardService) → DashboardService
    with_block s hash continue = elim (get_block s.state hash) [
      | none ↦ s
      | some block ↦ continue block
    ]

    abbrev pub empty_block : ℕ → Hash256 → ℕ → ℕ → HistoricalBlock Seconds
    empty_block number hash block_timestamp gas = record {
      block_number = number;
      block_hash = hash;
      block_timestamp = block_timestamp;
      gas_used = gas;
      witness_started_s = none;
      witness_ended_s = none;
      witness_size = none;
      witness_success = false;
      proofs = [];
    }

    -- `if let Some(block) = state.get_block_mut(..)` of the first arm.
    unfoldable pub add_request :
        DashboardState → Hash256 → Seconds → List ProofType → DashboardState
    unfolding add_proofs set_block
    add_request state hash started proof_types = elim (get_block state hash) [
      | none ↦ state
      | some block ↦
          set_block state hash
            (record block { proofs = add_proofs started proof_types block.proofs })
    ]

    unfoldable pub handle_message : DashboardService → DashboardMessage Seconds → DashboardService
    unfolding insert_block add_request set_block update_proof
    handle_message s
          (DashboardMessage.request_proof number hash block_timestamp gas proof_types now) =
        let started = since now block_timestamp in
        let inserted = insert_block s.state hash (empty_block number hash block_timestamp gas) in
        send s (add_request inserted hash started proof_types)
          (DashboardEvent.request_proof number hash block_timestamp gas started proof_types)
    handle_message s (DashboardMessage.fetch_witness_start hash now) = with_block s hash λ block.
        let started = since now block.block_timestamp in
        send s (set_block s.state hash (record block { witness_started_s = some started }))
          (DashboardEvent.fetch_witness_start hash started)
    handle_message s (DashboardMessage.fetch_witness_end hash size success now) =
        with_block s hash λ block.
          let ended = since now block.block_timestamp in
          send s
            (set_block s.state hash (record block {
              witness_ended_s = some ended;
              witness_size = some size;
              witness_success = success;
            }))
            (DashboardEvent.fetch_witness_end hash ended size success)
    handle_message s (DashboardMessage.prove_start hash proof_type now) = with_block s hash λ block.
        let started = since now block.block_timestamp in
        let assign = λ (p : HistoricalProof Seconds). record p { started_s = some started } in
        send s
          (set_block s.state hash
            (record block { proofs = update_proof proof_type assign block.proofs }))
          (DashboardEvent.prove_start hash proof_type started)
    handle_message s (DashboardMessage.prove_end hash proof_type result error size now) =
        with_block s hash λ block.
          let ended = since now block.block_timestamp in
          let assign = λ (p : HistoricalProof Seconds). record p {
            result = some result;
            error = error;
            ended_s = some ended;
            proof_size = size;
          } in
          send s
            (set_block s.state hash
              (record block { proofs = update_proof proof_type assign block.proofs }))
            (DashboardEvent.prove_end hash proof_type ended result error size)
