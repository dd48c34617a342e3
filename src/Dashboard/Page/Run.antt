-- ===== src/Dashboard/Page/Run.antt =====
-- crates/server/src/http/dashboard/index.html and crates/server/src/dashboard.rs: the page beside
-- the service, message by message.
use zkboost.Prelude.{
  ap, ℕ, ◌≡◌, refl, sym, ◌∙◌, ◌<◌, inl, inr, List, [], ◌∷◌, some, none, get, All, take,
  insert_entry, Option-cases,
}
use zkboost.ProofType.{ProofType, proof_type_dec}
use zkboost.Payload.{Hash256}
use zkboost.External.{External}
use zkboost.Lru.{LruCache}
use zkboost.Dashboard.{HistoricalProof, HistoricalBlock, DashboardMessage, DashboardEvent}
use zkboost.Dashboard.Service.{
  empty_block, add_proofs, update_proof, DashboardState, DashboardService, get_block, insert_block,
  set_block, add_request, handle_message, to_response,
}
use zkboost.Dashboard.Frame.{insert_block_known}
use zkboost.Dashboard.Page.{
  update_of, Proofs, merge, handle_event, read_events, update_historical_block,
}
use zkboost.Dashboard.Page.Merge.{IsNew, merge-requested_proofs}
use zkboost.Dashboard.Page.Found.{values, IsKeyed, IsKeyed-take, insert_entry-take, update_none}
use zkboost.Dashboard.Page.Reads.{
  IsTimely, IsShown, page_of, entries_of, existing-found, insert_block-iter, insert_block_new,
  cap-insert_block, set_block-IsShown, with_block-IsShown,
}

module _ (x : External) (blocks : LruCache Hash256 (HistoricalBlock x.Seconds)) where
  open x use {Seconds}

  All-none :
      (ps : List ProofType)
      → All (λ p. get {V = HistoricalProof Seconds} proof_type_dec [] p ≡ none) ps
  All-none [] = tt
  All-none (p ∷ ps) = (refl, All-none ps)

  All-IsNew :
      (started : Seconds) (m : Proofs x) (ps : List ProofType)
      → All (λ p. get proof_type_dec m p ≡ none) ps
      → All (λ p. IsNew x blocks started p m) ps
  All-IsNew started m [] h = tt
  All-IsNew started m (p ∷ ps) h = (inl h.0, All-IsNew started m ps h.1)

  add_request-known :
      (s : DashboardState x blocks) (h : Hash256) (started : Seconds) (ps : List ProofType)
      (b : HistoricalBlock Seconds)
      → get_block x blocks s h ≡ some b
      → add_request x blocks s h started ps
        ≡ set_block x blocks s h (record b { proofs = add_proofs x started ps b.proofs })
  unfolding add_request
  add_request-known s h started ps b e = rw (add_request, e) refl

  -- A request for a block of the history adds the missing records.
  pub request_known :
      (s : DashboardState x blocks) (h : Hash256) (started : Seconds) (ps : List ProofType)
      (b new : HistoricalBlock Seconds)
      → get_block x blocks s h ≡ some b
      → add_request x blocks (insert_block x blocks s h new) h started ps
        ≡ set_block x blocks s h (record b { proofs = add_proofs x started ps b.proofs })
  request_known s h started ps b new e =
      ap (λ t. add_request x blocks t h started ps) (insert_block_known x blocks s h b new e)
      ∙ add_request-known s h started ps b e

  module _ (retention : ℕ) (snapshot : List (HistoricalBlock Seconds)) where
    module _ (s : DashboardService x blocks) (number : ℕ) (h : Hash256) (timestamp gas : ℕ)
        (ps : List ProofType) (now : Seconds) (shown : IsShown x blocks retention snapshot s) where
      request_known-IsShown :
          (b : HistoricalBlock Seconds)
          → IsTimely x blocks s.state (DashboardMessage.request_proof number h timestamp gas ps now)
          → get_block x blocks s.state h ≡ some b
          → IsShown x blocks retention snapshot (
              handle_message x blocks s
                (DashboardMessage.request_proof number h timestamp gas ps now))
      unfolding handle_message update_of IsTimely merge
      request_known-IsShown b timely e =
          let started = x.since now timestamp in
          let event = DashboardEvent.request_proof number h timestamp gas started ps in
          let (of_number, of_gas, of_timestamp, unknown) = timely b e in
          let merged =
            merge-requested_proofs x blocks started ps b.proofs [] tt
              (All-IsNew started b.proofs ps unknown) in
          let new = empty_block x blocks number h timestamp gas in
          rw (request_known s.state h started ps b new e) (
            set_block-IsShown x blocks retention snapshot h s b
              (record b { proofs = add_proofs x started ps b.proofs }) event shown e refl
              (rw (of_number, of_gas, of_timestamp, merged) refl))

      request_new-IsShown :
          0 < retention
          → get_block x blocks s.state h ≡ none
          → IsShown x blocks retention snapshot (
              handle_message x blocks s
                (DashboardMessage.request_proof number h timestamp gas ps now))
      unfolding handle_message handle_event read_events update_of merge set_block
      request_new-IsShown room e =
          let started = x.since now timestamp in
          let event = DashboardEvent.request_proof number h timestamp gas started ps in
          let page = page_of x blocks retention snapshot s in
          let m = entries_of x blocks s.state in
          let b = empty_block x blocks number h timestamp gas in
          let c = record b { proofs = add_proofs x started ps [] } in
          let t = insert_block x blocks s.state h b in
          let cap : 0 < blocks.cap s.state.historical_blocks = rw shown.limit room in
          let stored = insert_block_new x blocks s.state h b cap e in
          let known = add_request-known t h started ps b stored in
          let entries : blocks.iter (blocks.set t.historical_blocks h c)
              ≡ take retention ((h, c) ∷ m) =
            blocks.iter-set t.historical_blocks h c b stored
            ∙ ap (insert_entry blocks.dec h c) (insert_block-iter x blocks s.state h b e)
            ∙ insert_entry-take x blocks.dec h (blocks.cap s.state.historical_blocks) m c b cap
            ∙ ap (λ n. take n ((h, c) ∷ m)) shown.limit in
          let merged =
            merge-requested_proofs x blocks started ps [] [] tt
              (All-IsNew started [] ps (All-none ps)) in
          rw known (record {
            same = rw entries (
                ap (update_historical_block x blocks retention h (update_of x blocks event page))
                  shown.same
                ∙ update_none x blocks.dec h (update_of x blocks event page) blocks retention m
                    shown.keyed (sym (blocks.peek-iter s.state.historical_blocks h) ∙ e)
                ∙ ap (λ proofs. values x (take retention ((h, record b { proofs = proofs }) ∷ m)))
                    merged);
            keyed = rw entries (IsKeyed-take x retention ((h, c) ∷ m) (refl, shown.keyed));
            limit =
                blocks.cap-set t.historical_blocks h c
                ∙ cap-insert_block x blocks s.state h b
                ∙ shown.limit;
          })

    -- A timely message leaves the page as the history is.
    handle_message-IsShown :
        (s : DashboardService x blocks) (m : DashboardMessage Seconds)
        → 0 < retention
        → IsTimely x blocks s.state m
        → IsShown x blocks retention snapshot s
        → IsShown x blocks retention snapshot (handle_message x blocks s m)
    unfolding handle_message merge update_of update_proof IsTimely
    handle_message-IsShown s (DashboardMessage.request_proof number h timestamp gas ps now) room
          timely shown =
        elim (Option-cases (get_block x blocks s.state h)) [
          | inl e ↦ request_new-IsShown s number h timestamp gas ps now shown room e
          | inr (b, e) ↦ request_known-IsShown s number h timestamp gas ps now shown b timely e
        ]
    handle_message-IsShown s (DashboardMessage.fetch_witness_start h now) room timely shown =
        with_block-IsShown x blocks retention snapshot h s _
          (λ b. DashboardEvent.fetch_witness_start h (x.since now b.block_timestamp)) shown
          (λ b. refl) λ b e f. refl
    handle_message-IsShown s (DashboardMessage.fetch_witness_end h size success now) room timely
          shown =
        with_block-IsShown x blocks retention snapshot h s _
          (λ b. DashboardEvent.fetch_witness_end h (x.since now b.block_timestamp) size success)
          shown (λ b. refl) λ b e f. refl
    handle_message-IsShown s (DashboardMessage.prove_start h p now) room timely shown =
        with_block-IsShown x blocks retention snapshot h s _ _ shown (λ b. refl)
          λ b e f.
            let (r, g) = timely b e in
            rw
              (
                existing-found x blocks h p (page_of x blocks retention snapshot s) b f,
                update_proof,
                g,
              )
              refl
    handle_message-IsShown s (DashboardMessage.prove_end h p result error size now) room timely
          shown =
        with_block-IsShown x blocks retention snapshot h s _ _ shown (λ b. refl)
          λ b e f.
            let (r, g) = timely b e in
            rw
              (
                existing-found x blocks h p (page_of x blocks retention snapshot s) b f,
                update_proof,
                g,
              )
              refl

  -- The messages that the service handles, each of them timely.
  pub data Run : DashboardService x blocks → DashboardService x blocks → Type 0 where
    start : {s : DashboardService x blocks} → Run s s
    step :
        {s t : DashboardService x blocks} (m : DashboardMessage Seconds)
        → Run s t
        → IsTimely x blocks t.state m
        → Run s (handle_message x blocks t m)

  Run-IsShown :
      (retention : ℕ) (snapshot : List (HistoricalBlock Seconds)) (s t : DashboardService x blocks)
      → 0 < retention
      → IsShown x blocks retention snapshot s
      → Run s t
      → IsShown x blocks retention snapshot t
  Run-IsShown retention snapshot s _ room shown start = shown
  Run-IsShown retention snapshot s _ room shown (step {t = t} m r timely) =
      handle_message-IsShown retention snapshot t m room timely
        (Run-IsShown retention snapshot s t room shown r)

  -- A page that starts from the state that the server answers with, and reads the events that
  -- follow, has at each moment the blocks that the server would answer with then, in their order, if
  -- each message is timely, each block of the history stands under its hash, and the history has
  -- room for a block.
  pub read_events-to_response :
      (s t : DashboardService x blocks)
      → 0 < blocks.cap s.state.historical_blocks
      → IsKeyed x (entries_of x blocks s.state)
      → s.events ≡ []
      → Run s t
      → read_events x blocks
          (to_response x blocks s.state).retention
          (to_response x blocks s.state).historical_blocks
          t.events
        ≡ (to_response x blocks t.state).historical_blocks
  unfolding read_events to_response
  read_events-to_response s t room keyed fresh r =
      let snapshot = values x (entries_of x blocks s.state) in
      let retention = blocks.cap s.state.historical_blocks in
      let shown : IsShown x blocks retention snapshot s = record {
        same = rw fresh refl;
        keyed = keyed;
        limit = refl;
      } in
      let last = Run-IsShown retention snapshot s t room shown r in last.same
