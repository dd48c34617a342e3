-- ===== src/Dashboard/History.antt =====
-- crates/server/src/dashboard.rs: the records that the dashboard's service keeps of a proof.
use zkboost.Prelude.{
  ℕ, ◌≡◌, refl, subst, ◌<◌, inl, inr, List, Text, true, Option, none, some, get, contains,
  Option-cases,
}
use zkboost.ProofType.{ProofType, proof_type_dec}
use zkboost.Payload.{Hash256}
use zkboost.External.{External}
use zkboost.Lru.{LruCache}
use zkboost.Dashboard.{
  HistoricalProof, HistoricalBlock, DashboardMessage, DashboardEvent, ProofResult,
}
use zkboost.Dashboard.Service.{
  add_proofs, update_proof, DashboardState, DashboardService, get_block, insert_block, set_block,
  new_proof, add_request, empty_block, with_block, handle_message,
}
use zkboost.Dashboard.Proofs.{or_new, add_proofs-get, update_proof-get}

module _ (x : External) where
  open x use {Seconds, since}

  module _ (blocks : LruCache Hash256 (HistoricalBlock Seconds)) where
    -- The record of a proof in the dashboard's history.
    pub record Recorded (s : DashboardService x blocks) (hash : Hash256) (p : ProofType)
        (timestamp : ℕ) (e : HistoricalProof Seconds) : Type 0 where
      pub block : HistoricalBlock Seconds
      pub stored : get_block x blocks s.state hash ≡ some block
      pub of_block : block.block_timestamp ≡ timestamp
      pub entry : get proof_type_dec block.proofs p ≡ some e

    set_block-Recorded :
        (s : DashboardService x blocks) (hash : Hash256) (p : ProofType) (timestamp : ℕ)
        (e : HistoricalProof Seconds) (assign : HistoricalProof Seconds → HistoricalProof Seconds)
        (events : List (DashboardEvent Seconds)) (r : Recorded s hash p timestamp e)
        → Recorded
            (record {
              state =
                  set_block x blocks s.state hash
                    (record r.block { proofs = update_proof x p assign r.block.proofs });
              events = events;
            })
            hash
            p
            timestamp
            (assign e)
    unfolding set_block
    set_block-Recorded s hash p timestamp e assign events r = record {
      block = record r.block { proofs = update_proof x p assign r.block.proofs };
      stored = blocks.peek-set_self s.state.historical_blocks hash _ r.block r.stored;
      of_block = r.of_block;
      entry = update_proof-get x p assign r.block.proofs e r.entry;
    }

    prove_start-Recorded :
        (s : DashboardService x blocks) (hash : Hash256) (p : ProofType) (timestamp : ℕ)
        (e : HistoricalProof Seconds) (now : Seconds)
        → Recorded s hash p timestamp e
        → Recorded
            (handle_message x blocks s (DashboardMessage.prove_start hash p now))
            hash
            p
            timestamp
            (record e { started_s = some (since now timestamp) })
    unfolding handle_message
    prove_start-Recorded s hash p timestamp e now r =
        subst
          (λ t.
            Recorded (handle_message x blocks s (DashboardMessage.prove_start hash p now)) hash p
              timestamp (record e { started_s = some (since now t) }))
          r.of_block
          (rw (handle_message, with_block, r.stored)
            (set_block-Recorded s hash p timestamp e _ _ r))

    prove_end-Recorded :
        (s : DashboardService x blocks) (hash : Hash256) (p : ProofType) (timestamp : ℕ)
        (e : HistoricalProof Seconds) (result : ProofResult) (error : Option Text) (size : Option ℕ)
        (now : Seconds)
        → Recorded s hash p timestamp e
        → Recorded
            (handle_message x blocks s (DashboardMessage.prove_end hash p result error size now))
            hash
            p
            timestamp
            (record e {
              result = some result;
              error = error;
              ended_s = some (since now timestamp);
              proof_size = size;
            })
    unfolding handle_message
    prove_end-Recorded s hash p timestamp e result error size now r =
        subst
          (λ t.
            Recorded
              (handle_message x blocks s (DashboardMessage.prove_end hash p result error size now))
              hash p timestamp
              (record e {
                result = some result;
                error = error;
                ended_s = some (since now t);
                proof_size = size;
              }))
          r.of_block
          (rw (handle_message, with_block, r.stored)
            (set_block-Recorded s hash p timestamp e _ _ r))

    -- The block of the history, or the one that a request makes.
    abbrev block_or :
        Option (HistoricalBlock Seconds) → HistoricalBlock Seconds → HistoricalBlock Seconds
    block_or none block = block
    block_or (some found) block = found

    -- A request puts the block into the history, if there is room for one.
    insert_block-stored :
        (s : DashboardState x blocks) (hash : Hash256) (block : HistoricalBlock Seconds)
        → 0 < blocks.cap s.historical_blocks
        → get_block x blocks (insert_block x blocks s hash block) hash
          ≡ some (block_or (get_block x blocks s hash) block)
    unfolding insert_block
    insert_block-stored s hash block room =
        elim (Option-cases (blocks.peek s.historical_blocks hash)) [
          | inl e ↦
              rw (insert_block, blocks.contains-peek s.historical_blocks hash, e)
                (blocks.peek-put_self s.historical_blocks hash block room)
          | inr (found, e) ↦ rw (insert_block, blocks.contains-peek s.historical_blocks hash, e) e
        ]

    request_proof_new :
        (s : DashboardService x blocks) (number : ℕ) (hash : Hash256) (timestamp gas : ℕ)
        (ps : List ProofType) (now : Seconds) (p : ProofType)
        → 0 < blocks.cap s.state.historical_blocks
        → contains proof_type_dec ps p ≡ true
        → let block =
            block_or
              (get_block x blocks s.state hash)
              (empty_block x blocks number hash timestamp gas) in
          Recorded
            (handle_message x blocks s
              (DashboardMessage.request_proof number hash timestamp gas ps now))
            hash
            p
            block.block_timestamp
            (or_new x
              (get proof_type_dec block.proofs p)
              (new_proof x (some (since now timestamp))))
    unfolding handle_message add_request set_block
    request_proof_new s number hash timestamp gas ps now p room h =
        let new = empty_block x blocks number hash timestamp gas in
        let block = block_or (get_block x blocks s.state hash) new in
        let stored = insert_block-stored s.state hash new room in
        record {
          block = record block { proofs = add_proofs x (since now timestamp) ps block.proofs };
          stored =
              rw (handle_message, add_request, stored) (blocks.peek-set_self _ hash _ block stored);
          of_block = refl;
          entry = add_proofs-get x (since now timestamp) ps block.proofs p h;
        }

    -- The timestamp of the block in the history, or the one of a request for a new block.
    abbrev pub timestamp_or : Option (HistoricalBlock Seconds) → ℕ → ℕ
    timestamp_or none timestamp = timestamp
    timestamp_or (some block) timestamp = block.block_timestamp

    -- When the proof was requested, by its record, or the time of a first request.
    abbrev pub requested_or :
        Option (HistoricalBlock Seconds) → ProofType → Seconds → Option Seconds
    requested_or none p now = some now
    requested_or (some block) p now = elim (get proof_type_dec block.proofs p) [
      | none ↦ some now
      | some proof ↦ proof.requested_s
    ]

    block_or-timestamp :
        (known : Option (HistoricalBlock Seconds)) (number : ℕ) (hash : Hash256) (timestamp gas : ℕ)
        → (block_or known (empty_block x blocks number hash timestamp gas)).block_timestamp
          ≡ timestamp_or known timestamp
    block_or-timestamp none number hash timestamp gas = refl
    block_or-timestamp (some block) number hash timestamp gas = refl

    or_new-requested :
        (known : Option (HistoricalBlock Seconds)) (number : ℕ) (hash : Hash256) (timestamp gas : ℕ)
        (p : ProofType) (now : Seconds)
        → (or_new x
            (get proof_type_dec
              (block_or known (empty_block x blocks number hash timestamp gas)).proofs
              p)
            (new_proof x (some now))).requested_s
          ≡ requested_or known p now
    or_new-requested none number hash timestamp gas p now = refl
    or_new-requested (some block) number hash timestamp gas p now =
        elim (Option-cases (get proof_type_dec block.proofs p)) [
          | inl e ↦ rw (requested_or, e) refl
          | inr (proof, e) ↦ rw (requested_or, e) refl
        ]

    -- A proof that is requested, started and ended, in this order and with no message between, has
    -- a record with its result, its error, its size and the times of its start and its end, if the
    -- history can hold a block. The times of the start and the end count from the timestamp of the
    -- block in the history, or of the request if the block is new; the time of the request is the
    -- one that an earlier record has, or counts from the timestamp of the request.
    pub lifecycle-Recorded :
        (s : DashboardService x blocks) (number : ℕ) (hash : Hash256) (timestamp gas : ℕ)
        (ps : List ProofType) (p : ProofType) (result : ProofResult) (error : Option Text)
        (size : Option ℕ) (t₀ t₁ t₂ : Seconds)
        → 0 < blocks.cap s.state.historical_blocks
        → contains proof_type_dec ps p ≡ true
        → let known = get_block x blocks s.state hash in
          let since_block = timestamp_or known timestamp in
          Recorded
            (handle_message x blocks
              (handle_message x blocks
                (handle_message x blocks s
                  (DashboardMessage.request_proof number hash timestamp gas ps t₀))
                (DashboardMessage.prove_start hash p t₁))
              (DashboardMessage.prove_end hash p result error size t₂))
            hash
            p
            since_block
            (record {
              requested_s = requested_or known p (since t₀ timestamp);
              started_s = some (since t₁ since_block);
              result = some result;
              error = error;
              ended_s = some (since t₂ since_block);
              proof_size = size;
            })
    lifecycle-Recorded s number hash timestamp gas ps p result error size t₀ t₁ t₂ room h =
        let known = get_block x blocks s.state hash in
        let block = block_or known (empty_block x blocks number hash timestamp gas) in
        let last =
          handle_message x blocks
            (handle_message x blocks
              (handle_message x blocks s
                (DashboardMessage.request_proof number hash timestamp gas ps t₀))
              (DashboardMessage.prove_start hash p t₁))
            (DashboardMessage.prove_end hash p result error size t₂) in
        let ended = λ (requested : Option Seconds) (n : ℕ). Recorded last hash p n (record {
          requested_s = requested;
          started_s = some (since t₁ n);
          result = some result;
          error = error;
          ended_s = some (since t₂ n);
          proof_size = size;
        }) in
        subst (λ n. ended (requested_or known p (since t₀ timestamp)) n)
          (block_or-timestamp known number hash timestamp gas)
          (subst (λ requested. ended requested block.block_timestamp)
            (or_new-requested known number hash timestamp gas p (since t₀ timestamp))
            (prove_end-Recorded _ hash p _ _ result error size t₂ (
              prove_start-Recorded _ hash p _ _ t₁
                (request_proof_new s number hash timestamp gas ps t₀ p room h))))
