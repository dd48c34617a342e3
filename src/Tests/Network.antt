-- ===== src/Tests/Network.antt =====
-- The proof service and the witness service together, from a request to its answer.
use zkboost.Prelude.{
  ℕ, ◌+◌, ◌≤◌, ◌≡◌, refl, arith, List, [], ◌∷◌, count, contains, false, entries, ℕ_discrete,
}
use zkboost.ProofType.{reth_zisk}
use zkboost.Lru.{LruCache}
use zkboost.Lru.Recent.{recent_cache}
use zkboost.Proof.{Key, key_dec, ProofServiceMessage}
use zkboost.Proof.Keys.{answered}
use zkboost.Proof.System.{accepted_count}
use zkboost.Proof.Service
use zkboost.Witness.{
  Attempt, found, not_found, handle_message, handle_task_result, fetch_witness, join_next,
  new_service,
}
use zkboost.Witness.Steps.{answers}
use zkboost.Network.{
  Network, Reach, start, next, request, fetch, joined, deliver, output, initial, proof_turn,
}
use zkboost.Network.Settled.{pending-covered, settled}
use zkboost.Tests.World.{world, proof_lru}
use zkboost.Tests.Service.{program, workers, asking, replies, proved}

abbrev lru : LruCache ℕ ℕ
lru = recent_cache ℕ_discrete

turns : Unit {0}
unfolding program handle_message new_service join_next handle_task_result fetch_witness
turns = tt

abbrev begin : Network world proof_lru lru
begin = initial world proof_lru lru 0 (proof_lru.new 2) 2

abbrev requested : Network world proof_lru lru
requested = record begin {
  proof = proof_turn world proof_lru lru workers begin.proof asking replies;
}

abbrev fetching : Network world proof_lru lru
fetching = record requested {
  witness = record {
    service = handle_message world lru requested.witness.service 5;
    asked = 5 ∷ [];
  };
}

abbrev attempts : List (Attempt ℕ)
attempts = not_found ∷ found 1 64 ∷ []

abbrev fetched : Network world proof_lru lru
fetched = record fetching {
  witness = record fetching.witness {
    service = join_next world lru fetching.witness.service 5 attempts 104;
  };
}

abbrev message : ProofServiceMessage world
message = ProofServiceMessage.witness_available 5 1

abbrev proving : Network world proof_lru lru
proving = record fetched {
  proof = proof_turn world proof_lru lru workers fetched.proof message replies;
  delivered = message ∷ [];
}

abbrev done : Network world proof_lru lru
done = record proving {
  proof = record {
    service = Service.handle_worker_output world proof_lru proving.proof.service proved 107;
    accepted = proving.proof.accepted;
    finished = (9, reth_zisk) ∷ [];
  };
}

abbrev Runs : Network world proof_lru lru → Type 0
Runs = Reach world proof_lru lru workers begin

fetching-Runs : Runs fetching
unfolding turns
fetching-Runs = next (next start (request asking replies (λ r h. cc) refl)) (fetch 5 [] refl refl)

done-Runs : Runs done
unfolding turns
done-Runs =
    next
      (next (next fetching-Runs (joined 5 attempts 104 (omega arith) refl))
        (deliver message [] replies refl tt refl))
      (output proved 107 (omega arith) refl)

pending-covered_example :
    (entries ℕ_discrete 5 fetching.proof.service.pending ≤ 1)
    × (entries ℕ_discrete 5 fetching.proof.service.pending
          + count ℕ_discrete 5 fetching.witness.asked
          + answers world lru 5 fetching.delivered
        ≤ count ℕ_discrete 5 fetching.proof.service.fetches
          + count ℕ_discrete 5 fetching.witness.service.tasks
          + answers world lru 5 fetching.witness.service.proof_messages)
pending-covered_example = pending-covered world proof_lru lru 0 (proof_lru.new 2) 2 fetching-Runs 5

settled_example :
    (done.proof.service.pending ≡ [])
    × ((k : Key)
        → (contains key_dec done.proof.service.requested k ≡ false)
          × (answered k done.proof.service.events
              ≡ accepted_count world proof_lru k done.proof.accepted))
unfolding turns
settled_example =
    settled world proof_lru lru 0 (proof_lru.new 2) 2 done-Runs refl refl refl (λ k. refl)
