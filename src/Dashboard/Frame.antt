-- ===== src/Dashboard/Frame.antt =====
-- crates/server/src/dashboard.rs: what a message leaves as it is.
use zkboost.Prelude.{
  ap, some, ℕ, ◌≡◌, refl, ◌∙◌, ◌≢◌, ◌⊎◌, inl, inr, List, ◌∷◌, none, Option-cases, Bool-cases,
}
use zkboost.ProofType.{ProofType}
use zkboost.Payload.{Hash256}
use zkboost.External.{External}
use zkboost.Lru.{LruCache}
use zkboost.Dashboard.{HistoricalProof, HistoricalBlock, DashboardMessage, DashboardEvent}
use zkboost.Dashboard.Service.{
  empty_block, add_proofs, DashboardState, DashboardService, get_block, insert_block, set_block,
  add_request, with_block, handle_message,
}
use zkboost.Dashboard.Proofs.{add_proofs-keep}
use zkboost.Dashboard.History.{Recorded}

module _ (x : External) (blocks : LruCache Hash256 (HistoricalBlock x.Seconds)) where
  -- The block that a message is about.
  abbrev target : DashboardMessage x.Seconds → Hash256
  target (DashboardMessage.request_proof number hash timestamp gas ps now) = hash
  target (DashboardMessage.fetch_witness_start hash now) = hash
  target (DashboardMessage.fetch_witness_end hash size success now) = hash
  target (DashboardMessage.prove_start hash p now) = hash
  target (DashboardMessage.prove_end hash p result error size now) = hash

  -- For the block `j`: the block stays as it is or is evicted, and the retention stays.
  record Leaves (j : Hash256) (s t : DashboardState x blocks) : Type 0 where
    pub block : (get_block x blocks t j ≡ get_block x blocks s j) ⊎ (get_block x blocks t j ≡ none)
    pub retention : blocks.cap t.historical_blocks ≡ blocks.cap s.historical_blocks

  Leaves-refl : (j : Hash256) (s : DashboardState x blocks) → Leaves j s s
  Leaves-refl j s = record { block = inl refl; retention = refl }

  set_block-Leaves :
      (j hash : Hash256) (s t : DashboardState x blocks) (block : HistoricalBlock x.Seconds)
      → hash ≢ j
      → Leaves j s t
      → Leaves j s (set_block x blocks t hash block)
  unfolding set_block
  set_block-Leaves j hash s t block n l = record {
    block = rw (blocks.peek-set_ne t.historical_blocks hash j block n) l.block;
    retention = blocks.cap-set t.historical_blocks hash block ∙ l.retention;
  }

  insert_block-Leaves :
      (j hash : Hash256) (s : DashboardState x blocks) (block : HistoricalBlock x.Seconds)
      → hash ≢ j
      → Leaves j s (insert_block x blocks s hash block)
  unfolding insert_block
  insert_block-Leaves j hash s block n =
      elim (Bool-cases (blocks.contains s.historical_blocks hash)) [
        | inl c ↦ rw (insert_block, c) (Leaves-refl j s)
        | inr c ↦
            rw (insert_block, c)
              (record {
                block = blocks.peek-put_ne s.historical_blocks hash j block n;
                retention = blocks.cap-put s.historical_blocks hash block;
              })
      ]

  add_request-Leaves :
      (j hash : Hash256) (s t : DashboardState x blocks) (started : x.Seconds) (ps : List ProofType)
      → hash ≢ j
      → Leaves j s t
      → Leaves j s (add_request x blocks t hash started ps)
  unfolding add_request
  add_request-Leaves j hash s t started ps n l = elim (Option-cases (get_block x blocks t hash)) [
    | inl e ↦ rw (add_request, e) l
    | inr (block, e) ↦ rw (add_request, e) (set_block-Leaves j hash s t _ n l)
  ]

  with_block-Leaves :
      (j hash : Hash256) (s : DashboardService x blocks)
      (change : HistoricalBlock x.Seconds → HistoricalBlock x.Seconds)
      (event : HistoricalBlock x.Seconds → DashboardEvent x.Seconds)
      → hash ≢ j
      → Leaves j s.state
          (with_block x blocks s hash λ block. record {
            state = set_block x blocks s.state hash (change block);
            events = event block ∷ s.events;
          }).state
  with_block-Leaves j hash s change event n =
      elim (Option-cases (get_block x blocks s.state hash)) [
        | inl e ↦ rw (with_block, e) (Leaves-refl j s.state)
        | inr (block, e) ↦
            rw (with_block, e)
              (set_block-Leaves j hash s.state s.state (change block) n (Leaves-refl j s.state))
      ]

  -- A message leaves every other block of the history as it is, or evicts it, and the number of
  -- blocks that the history keeps does not change.
  handle_message-Leaves :
      (s : DashboardService x blocks) (m : DashboardMessage x.Seconds) (j : Hash256)
      → target m ≢ j
      → Leaves j s.state (handle_message x blocks s m).state
  unfolding handle_message
  handle_message-Leaves s (DashboardMessage.request_proof number hash timestamp gas ps now) j n =
      add_request-Leaves j hash s.state _ _ ps n (insert_block-Leaves j hash s.state _ n)
  handle_message-Leaves s (DashboardMessage.fetch_witness_start hash now) j n =
      with_block-Leaves j hash s _ _ n
  handle_message-Leaves s (DashboardMessage.fetch_witness_end hash size success now) j n =
      with_block-Leaves j hash s _ _ n
  handle_message-Leaves s (DashboardMessage.prove_start hash p now) j n =
      with_block-Leaves j hash s _ _ n
  handle_message-Leaves s (DashboardMessage.prove_end hash p result error size now) j n =
      with_block-Leaves j hash s _ _ n

  pub insert_block_known :
      (s : DashboardState x blocks) (hash : Hash256) (block new : HistoricalBlock x.Seconds)
      → get_block x blocks s hash ≡ some block
      → insert_block x blocks s hash new ≡ s
  unfolding insert_block
  insert_block_known s hash block new h =
      rw (insert_block, blocks.contains-peek s.historical_blocks hash, h) refl

  -- A request for a block that the history holds keeps the record of each proof that is there.
  pub request_proof-Recorded :
      (s : DashboardService x blocks) (number : ℕ) (hash : Hash256) (timestamp gas : ℕ)
      (ps : List ProofType) (now : x.Seconds) (p : ProofType) (t : ℕ)
      (e : HistoricalProof x.Seconds)
      → Recorded x blocks s hash p t e
      → Recorded x blocks
          (handle_message x blocks s
            (DashboardMessage.request_proof number hash timestamp gas ps now))
          hash
          p
          t
          e
  unfolding handle_message add_request set_block
  request_proof-Recorded s number hash timestamp gas ps now p t e r =
      let started = x.since now timestamp in
      let proofs = add_proofs x started ps r.block.proofs in
      let known =
        ap (λ u. get_block x blocks u hash)
          (insert_block_known s.state hash r.block (empty_block x blocks number hash timestamp gas)
            r.stored)
        ∙ r.stored in
      record {
        block = record r.block { proofs = proofs };
        stored =
            rw (handle_message, add_request, known)
              (blocks.peek-set_self _ hash (record r.block { proofs = proofs }) r.block known);
        of_block = r.of_block;
        entry = add_proofs-keep x started ps r.block.proofs p e r.entry;
      }
