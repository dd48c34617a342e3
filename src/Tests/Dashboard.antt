-- ===== src/Tests/Dashboard.antt =====
-- crates/server/src/dashboard.rs: a proof from its request to its end.
use zkboost.Prelude.{insert_entry, false, ℕ, refl, arith, [], ◌∷◌, text, none, some, ℕ_discrete}
use zkboost.ProofType.{reth_zisk, reth_sp1, proof_type_dec}
use zkboost.Payload.{Hash256}
use zkboost.Lru.{LruCache}
use zkboost.Lru.Recent.{recent_cache, recent_put, set_value}
use zkboost.Dashboard.{HistoricalProof, HistoricalBlock, DashboardMessage, success}
use zkboost.Dashboard.Service.{
  or_insert, add_proofs, insert_block, set_block, add_request, DashboardService, handle_message,
}
use zkboost.Dashboard.History.{Recorded, lifecycle-Recorded}
use zkboost.Tests.World.{world}

program : Unit {0}
unfolding ℕ_discrete proof_type_dec insert_entry recent_put set_value or_insert add_proofs
    insert_block set_block add_request handle_message
program = tt

abbrev pub block_lru : LruCache Hash256 (HistoricalBlock ℕ)
block_lru = recent_cache ℕ_discrete

abbrev pub begin : DashboardService world block_lru
begin = record {
  state = record {
    build_version = text "0.1.0";
    proof_types = reth_zisk ∷ reth_sp1 ∷ [];
    historical_blocks = block_lru.new 64;
  };
  events = [];
}

abbrev pub asking : DashboardMessage ℕ
asking = DashboardMessage.request_proof 7 5 100 21000 (reth_zisk ∷ reth_sp1 ∷ []) 101

lifecycle-Recorded_example :
    Recorded world block_lru
      (handle_message world block_lru
        (handle_message world block_lru
          (handle_message world block_lru begin asking)
          (DashboardMessage.prove_start 5 reth_sp1 103))
        (DashboardMessage.prove_end 5 reth_sp1 success none (some 40) 107))
      5
      reth_sp1
      100
      (record {
        requested_s = some 1;
        started_s = some 3;
        result = some success;
        error = none;
        ended_s = some 7;
        proof_size = some 40;
      })
unfolding program
lifecycle-Recorded_example =
    lifecycle-Recorded world block_lru begin 7 5 100 21000 (reth_zisk ∷ reth_sp1 ∷ []) reth_sp1
      success none (some 40) 101 103 107 (omega arith) refl

-- The record of a proof that is requested once, and the same request again.
abbrev pub once : DashboardService world block_lru
once = handle_message world block_lru begin asking

abbrev pub first_record : HistoricalProof ℕ
first_record = record {
  requested_s = some 1;
  started_s = none;
  result = none;
  error = none;
  ended_s = none;
  proof_size = none;
}

pub once-Recorded : Recorded world block_lru once 5 reth_sp1 100 first_record
unfolding program
once-Recorded = record {
  block = record {
    block_number = 7;
    block_hash = 5;
    block_timestamp = 100;
    gas_used = 21000;
    witness_started_s = none;
    witness_ended_s = none;
    witness_size = none;
    witness_success = false;
    proofs = (reth_zisk, first_record) ∷ (reth_sp1, first_record) ∷ [];
  };
  stored = refl;
  of_block = refl;
  entry = refl;
}
