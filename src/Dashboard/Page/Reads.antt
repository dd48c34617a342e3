-- ===== src/Dashboard/Page/Reads.antt =====
-- crates/server/src/http/dashboard/index.html and crates/server/src/dashboard.rs: the page against
-- the service's history, at one message.
use zkboost.Prelude.{
  ap, ℕ, ◌≡◌, refl, sym, ◌∙◌, ◌<◌, inl, inr, List, ◌∷◌, some, none, Option, get, All, take,
  Option-cases,
}
use zkboost.ProofType.{ProofType, proof_type_dec}
use zkboost.Payload.{Hash256}
use zkboost.External.{External}
use zkboost.Lru.{LruCache}
use zkboost.Dashboard.{HistoricalProof, HistoricalBlock, DashboardMessage, DashboardEvent}
use zkboost.Dashboard.Service.{
  new_proof, DashboardState, DashboardService, get_block, insert_block, set_block, with_block,
}
use zkboost.Dashboard.Page.{
  block_of, update_of, update_entry, find_block, existing, handle_event, read_events,
  update_historical_block,
}
use zkboost.Dashboard.Page.Found.{
  Entries, values, IsKeyed, IsKeyed-get, IsKeyed-insert_entry, find_block-values, update_some,
}

module _ (x : External) (blocks : LruCache Hash256 (HistoricalBlock x.Seconds)) where
  open x use {Seconds}

  -- The message comes in the order in which a proof is made once: a request is for proof types that
  -- the block has no record of, and says of the block what is known of it; the start is of a proof
  -- that was requested and no more; the end is of a proof that has a record.
  unfoldable pub IsTimely : DashboardState x blocks → DashboardMessage Seconds → Type 0
  IsTimely s (DashboardMessage.request_proof number hash timestamp gas ps now) =
      (b : HistoricalBlock Seconds)
      → get_block x blocks s hash ≡ some b
      → (b.block_number ≡ number)
        × (b.gas_used ≡ gas)
        × (b.block_timestamp ≡ timestamp)
        × All (λ p. get proof_type_dec b.proofs p ≡ none) ps
  IsTimely s (DashboardMessage.fetch_witness_start hash now) = Unit {0}
  IsTimely s (DashboardMessage.fetch_witness_end hash size success now) = Unit {0}
  IsTimely s (DashboardMessage.prove_start hash p now) =
      (b : HistoricalBlock Seconds)
      → get_block x blocks s hash ≡ some b
      → (requested : Option Seconds) × (get proof_type_dec b.proofs p
          ≡ some (new_proof x requested))
  IsTimely s (DashboardMessage.prove_end hash p result error size now) =
      (b : HistoricalBlock Seconds)
      → get_block x blocks s hash ≡ some b
      → (e : HistoricalProof Seconds) × (get proof_type_dec b.proofs p ≡ some e)

  pub existing-found :
      (h : Hash256) (p : ProofType) (page : List (HistoricalBlock Seconds))
      (b : HistoricalBlock Seconds)
      → find_block x h page ≡ some b
      → existing x blocks h p page ≡ get proof_type_dec b.proofs p
  unfolding existing
  existing-found h p page b e = rw (existing, e) refl

  -- The entries of the history, the newest block first.
  abbrev pub entries_of : DashboardState x blocks → Entries x
  entries_of s = blocks.iter s.historical_blocks

  pub insert_block-iter :
      (s : DashboardState x blocks) (h : Hash256) (b : HistoricalBlock Seconds)
      → get_block x blocks s h ≡ none
      → entries_of (insert_block x blocks s h b)
        ≡ take (blocks.cap s.historical_blocks) ((h, b) ∷ entries_of s)
  unfolding insert_block
  insert_block-iter s h b e =
      rw (insert_block, blocks.contains-peek s.historical_blocks h, e)
        (blocks.iter-put s.historical_blocks h b e)

  pub insert_block_new :
      (s : DashboardState x blocks) (h : Hash256) (b : HistoricalBlock Seconds)
      → 0 < blocks.cap s.historical_blocks
      → get_block x blocks s h ≡ none
      → get_block x blocks (insert_block x blocks s h b) h ≡ some b
  unfolding insert_block
  insert_block_new s h b cap e =
      rw (insert_block, blocks.contains-peek s.historical_blocks h, e)
        (blocks.peek-put_self s.historical_blocks h b cap)

  pub cap-insert_block :
      (s : DashboardState x blocks) (h : Hash256) (b : HistoricalBlock Seconds)
      → blocks.cap (insert_block x blocks s h b).historical_blocks ≡ blocks.cap s.historical_blocks
  unfolding insert_block
  cap-insert_block s h b = elim (Option-cases (get_block x blocks s h)) [
    | inl e ↦
        rw (insert_block, blocks.contains-peek s.historical_blocks h, e)
          (blocks.cap-put s.historical_blocks h b)
    | inr (c, e) ↦ rw (insert_block, blocks.contains-peek s.historical_blocks h, e) refl
  ]

  module _ (retention : ℕ) (snapshot : List (HistoricalBlock Seconds)) where
    -- The page after the events of the service.
    abbrev pub page_of : DashboardService x blocks → List (HistoricalBlock Seconds)
    page_of s = read_events x blocks retention snapshot s.events

    -- The page has the blocks of the history, in their order.
    pub record IsShown (s : DashboardService x blocks) : Type 0 where
      pub same : page_of s ≡ values x (entries_of s.state)
      pub keyed : IsKeyed x (entries_of s.state)
      pub limit : blocks.cap s.state.historical_blocks ≡ retention

    -- An update of the page and of the history for a block that they have.
    pub set_block-IsShown :
        (h : Hash256) (s : DashboardService x blocks) (b change : HistoricalBlock Seconds)
        (event : DashboardEvent Seconds)
        → IsShown s
        → get_block x blocks s.state h ≡ some b
        → block_of x blocks event ≡ h
        → update_entry x (update_of x blocks event (page_of s)) b ≡ change
        → IsShown
            (record { state = set_block x blocks s.state h change; events = event ∷ s.events })
    unfolding handle_event read_events set_block
    set_block-IsShown h s b change event shown stored about changed =
        let cache = s.state.historical_blocks in
        let update = update_of x blocks event (page_of s) in
        let set = blocks.iter-set cache h change b stored in
        let hash =
          ap (λ (c : HistoricalBlock Seconds). c.block_hash) (sym changed)
          ∙ IsKeyed-get x blocks.dec h (blocks.iter cache) b shown.keyed
              (sym (blocks.peek-iter cache h) ∙ stored) in
        record {
          same =
              rw (about, set, ← changed)
                (ap (update_historical_block x blocks retention h update) shown.same
                  ∙ update_some x blocks.dec h update blocks retention (blocks.iter cache)
                      shown.keyed b (sym (blocks.peek-iter cache h) ∙ stored));
          keyed =
              rw set
                (IsKeyed-insert_entry x blocks.dec h (blocks.iter cache) change shown.keyed hash);
          limit = blocks.cap-set cache h change ∙ shown.limit;
        }

    -- An arm that needs the block: the page changes it as the service does.
    pub with_block-IsShown :
        (h : Hash256) (s : DashboardService x blocks)
        (change : HistoricalBlock Seconds → HistoricalBlock Seconds)
        (event : HistoricalBlock Seconds → DashboardEvent Seconds)
        → IsShown s
        → ((b : HistoricalBlock Seconds) → block_of x blocks (event b) ≡ h)
        → ((b : HistoricalBlock Seconds)
            → get_block x blocks s.state h ≡ some b
            → find_block x h (page_of s) ≡ some b
            → update_entry x (update_of x blocks (event b) (page_of s)) b ≡ change b)
        → IsShown (
            with_block x blocks s h λ b. record {
              state = set_block x blocks s.state h (change b);
              events = event b ∷ s.events;
            })
    with_block-IsShown h s change event shown about changed =
        elim (Option-cases (get_block x blocks s.state h)) [
          | inl e ↦ rw (with_block, e) shown
          | inr (b, e) ↦
              let found =
                ap (find_block x h) shown.same
                ∙ find_block-values x blocks.dec h (entries_of s.state) shown.keyed
                ∙ sym (blocks.peek-iter s.state.historical_blocks h)
                ∙ e in
              rw (with_block, e)
                (set_block-IsShown h s b (change b) (event b) shown e (about b) (changed b e found))
        ]
