-- ===== src/Tests/Page.antt =====
-- crates/server/src/http/dashboard/index.html: the page beside the service, on one block.
use zkboost.Prelude.{
  ℕ, ◌≡◌, ◌≢◌, refl, sym, ap, arith, [], ◌∷◌, some, get, insert_entry, ℕ_discrete,
}
use mathlib.Core.Option.{some-injective}
use zkboost.ProofType.{reth_sp1, proof_type_dec}
use zkboost.Lru.Recent.{recent_put, set_value}
use zkboost.Dashboard.{HistoricalBlock, HistoricalProof, DashboardMessage}
use zkboost.Dashboard.Service.{
  or_insert, add_proofs, update_proof, insert_block, set_block, add_request, DashboardService,
  handle_message, to_response,
}
use zkboost.Dashboard.History.{Recorded}
use zkboost.Dashboard.Page.{
  merge, find_block, update_found, update_historical_block, requested_proofs, existing, update_of,
  handle_event, read_events,
}
use zkboost.Dashboard.Page.Found.{values}
use zkboost.Dashboard.Page.Reads.{IsTimely, IsShown, page_of, entries_of}
use zkboost.Dashboard.Page.Run.{Run, start, step, read_events-to_response}
use zkboost.Dashboard.Page.Again.{requested_only, request_proof_again}
use zkboost.Tests.World.{world}
use zkboost.Tests.Dashboard.{block_lru, begin, asking, once, first_record, once-Recorded}

program : Unit {0}
unfolding ℕ_discrete proof_type_dec insert_entry recent_put set_value or_insert add_proofs
    insert_block set_block add_request handle_message update_proof merge find_block update_found
    update_historical_block requested_proofs existing update_of handle_event read_events IsTimely
program = tt

abbrev proving : DashboardMessage ℕ
proving = DashboardMessage.prove_start 5 reth_sp1 103

abbrev proving_once : DashboardService world block_lru
proving_once = handle_message world block_lru once proving

once-Run : Run world block_lru begin once
unfolding program
once-Run = step asking start (λ b e. absurd (cc))

proving_once-Run : Run world block_lru begin proving_once
unfolding program
proving_once-Run = step proving once-Run λ b e. (
  some 1,
  ap (λ (b : HistoricalBlock ℕ). get proof_type_dec b.proofs reth_sp1) (sym (some-injective _ b e)),
)

read_events-to_response_example :
    read_events world block_lru
      (to_response world block_lru begin.state).retention
      (to_response world block_lru begin.state).historical_blocks
      proving_once.events
    ≡ (to_response world block_lru proving_once.state).historical_blocks
unfolding to_response
read_events-to_response_example =
    read_events-to_response world block_lru begin proving_once (omega arith) tt refl
      proving_once-Run

once-IsShown : IsShown world block_lru 64 [] once
unfolding program
once-IsShown = record { same = refl; keyed = (refl, tt); limit = refl }

first_record_differs : first_record ≢ requested_only world block_lru 8
first_record_differs e =
    omega (arith, some-injective {A = ℕ} 1 8 (ap (λ (r : HistoricalProof ℕ). r.requested_s) e))

-- The same block is asked for 7 seconds later.
abbrev asked_again : DashboardService world block_lru
asked_again =
    handle_message world block_lru once
      (DashboardMessage.request_proof 7 5 100 21000 (reth_sp1 ∷ []) 108)

request_proof_again_example :
    Recorded world block_lru asked_again 5 reth_sp1 100 first_record
    × ((b : HistoricalBlock ℕ) × (find_block world 5 (page_of world block_lru 64 [] asked_again)
          ≡ some b)
        × (get proof_type_dec b.proofs reth_sp1 ≡ some (requested_only world block_lru 8)))
    × (page_of world block_lru 64 [] asked_again
        ≢ values world (entries_of world block_lru asked_again.state))
unfolding proof_type_dec
request_proof_again_example =
    request_proof_again world block_lru 64 [] once 7 5 100 21000 (reth_sp1 ∷ []) 108 reth_sp1 100
      first_record once-Recorded once-IsShown refl first_record_differs
