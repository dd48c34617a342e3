-- ===== src/Dashboard/Page/Again.antt =====
-- crates/server/src/http/dashboard/index.html and crates/server/src/dashboard.rs: a proof that is
-- requested again, as a client may do after a failure.
use zkboost.Prelude.{none, ap, ℕ, ◌≡◌, sym, ◌∙◌, ◌≢◌, List, some, true, get, contains}
use mathlib.Core.Option.{some-injective}
use zkboost.ProofType.{ProofType, proof_type_dec}
use zkboost.Payload.{Hash256}
use zkboost.External.{External}
use zkboost.Lru.{LruCache}
use zkboost.Dashboard.{HistoricalProof, HistoricalBlock, DashboardMessage, DashboardEvent}
use zkboost.Dashboard.Service.{empty_block, add_proofs, set_block, DashboardService, handle_message}
use zkboost.Dashboard.Proofs.{add_proofs-keep}
use zkboost.Dashboard.History.{Recorded}
use zkboost.Dashboard.Frame.{request_proof-Recorded}
use zkboost.Dashboard.Page.{
  find_block, update_of, update_entry, handle_event, read_events, update_historical_block,
}
use zkboost.Dashboard.Page.Merge.{merge-requested_proofs-get}
use zkboost.Dashboard.Page.Found.{values, IsKeyed-get, find_block-insert_entry, update_some}
use zkboost.Dashboard.Page.Reads.{page_of, entries_of, IsShown}
use zkboost.Dashboard.Page.Run.{request_known}

module _ (x : External) (blocks : LruCache Hash256 (HistoricalBlock x.Seconds)) where
  open x use {Seconds}

  -- The record of a proof that was requested and no more.
  abbrev pub requested_only : Seconds → HistoricalProof Seconds
  requested_only time = record {
    requested_s = some time;
    started_s = none;
    result = none;
    error = none;
    ended_s = none;
    proof_size = none;
  }

  -- A request for a proof type that has a record in the history, while the page has the blocks of
  -- the history: the service keeps the record, the page replaces it by one with the time of the
  -- request only, and if these differ, the page no longer has the blocks of the history.
  pub request_proof_again :
      (retention : ℕ) (snapshot : List (HistoricalBlock Seconds)) (s : DashboardService x blocks)
      (number : ℕ) (h : Hash256) (timestamp gas : ℕ) (ps : List ProofType) (now : Seconds)
      (p : ProofType) (t : ℕ) (e : HistoricalProof Seconds)
      → Recorded x blocks s h p t e
      → IsShown x blocks retention snapshot s
      → contains proof_type_dec ps p ≡ true
      → e ≢ requested_only (x.since now timestamp)
      → let s' =
          handle_message x blocks s
            (DashboardMessage.request_proof number h timestamp gas ps now) in
        Recorded x blocks s' h p t e
        × ((b : HistoricalBlock Seconds) × (find_block x h (page_of x blocks retention snapshot s')
              ≡ some b)
            × (get proof_type_dec b.proofs p ≡ some (requested_only (x.since now timestamp))))
        × (page_of x blocks retention snapshot s' ≢ values x (entries_of x blocks s'.state))
  unfolding read_events handle_event update_of handle_message set_block
  request_proof_again retention snapshot s number h timestamp gas ps now p t e r shown asked other =
      let started = x.since now timestamp in
      let event = DashboardEvent.request_proof number h timestamp gas started ps in
      let page = page_of x blocks retention snapshot s in
      let update = update_of x blocks event page in
      let m = entries_of x blocks s.state in
      let b = r.block in
      let kept = record b { proofs = add_proofs x started ps b.proofs } in
      let stored = sym (blocks.peek-iter s.state.historical_blocks h) ∙ r.stored in
      let hash = IsKeyed-get x blocks.dec h m b shown.keyed stored in
      let on_page =
        ap (λ bs. find_block x h (update_historical_block x blocks retention h update bs))
          shown.same
        ∙ ap (find_block x h)
            (update_some x blocks.dec h update blocks retention m shown.keyed b stored)
        ∙ find_block-insert_entry x blocks.dec h m (update_entry x update b) shown.keyed hash in
      let new = empty_block x blocks number h timestamp gas in
      let in_history =
        ap (λ u. find_block x h (values x (entries_of x blocks u)))
          (request_known x blocks s.state h started ps b new r.stored)
        ∙ ap (λ es. find_block x h (values x es))
            (blocks.iter-set s.state.historical_blocks h kept b r.stored)
        ∙ find_block-insert_entry x blocks.dec h m kept shown.keyed hash in
      let fresh = merge-requested_proofs-get x blocks started ps b.proofs p asked in
      (
        request_proof-Recorded x blocks s number h timestamp gas ps now p t e r,
        (update_entry x update b, on_page, fresh),
        λ again.
            let same =
              some-injective (update_entry x update b) kept
                (sym on_page ∙ ap (find_block x h) again ∙ in_history) in
            other (
              some-injective _ _ (
                sym (add_proofs-keep x started ps b.proofs p e r.entry)
                ∙ ap (λ (c : HistoricalBlock Seconds). get proof_type_dec c.proofs p) (sym same)
                ∙ fresh)),
      )
