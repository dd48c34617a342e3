-- ===== src/Tests/Service.antt =====
-- The proof service of crates/server/src/proof.rs, run from its start.
use zkboost.Prelude.{
  ◌+◌, ◌≡◌, refl, inl, arith, List, [], ◌∷◌, some, none, contains, true, false, ℕ_discrete, insert,
  remove, extend, insert_entry, remove_entry,
}
use zkboost.ProofType.{ProofType, reth_zisk, reth_sp1, proof_type_dec}
use zkboost.Payload.{block_hash}
use zkboost.Lru.Recent.{recent_put}
use zkboost.Worker.{NewPayloadRequestWithWitness, WorkerOutput, proof_ok, with_witness}
use zkboost.Proof.{
  key_dec, sent, Replies, ProofService, PendingRequest, ProofServiceMessage, request_proof,
  new_service,
}
use zkboost.Proof.Service.{
  fail_request, fail_each, finish, handle_worker_output, retain_new, add_pending, ask, enqueue,
  handle_request_proof, send_worker_input, send_each, dispatch, handle_witness_available,
  handle_witness_timeout, handle_message,
}
use zkboost.Proof.Keys.{tracked, answered, pending_count}
use zkboost.Proof.System.{
  System, Reach, start, next, message, output, initial, accepted_count, note, initial-Balanced,
}
use zkboost.Proof.Refinement.{Moves, life, idle, Reach-Moves}
use zkboost.Proof.Dispatch.{Dispatched, handle_witness_available-Dispatched}
use zkboost.Proof.Delivery.{
  accepted-answered, quiescent, handle_request_proof-known, handle_request_proof-other_root,
}
use zkboost.Tests.World.{world, proof_lru, request}

unfoldable pub program : Unit {0}
unfolding proof_type_dec key_dec ℕ_discrete insert remove extend insert_entry remove_entry
    recent_put with_witness new_service fail_request fail_each finish handle_worker_output
    retain_new add_pending ask enqueue handle_request_proof send_worker_input send_each dispatch
    handle_witness_available handle_witness_timeout handle_message block_hash
program = tt

abbrev pub replies : Replies world
replies = record { now = 103; fetch_error = none; worker_reply = λ p. sent }

abbrev pub workers : List ProofType
workers = reth_zisk ∷ []

abbrev pub begin : System world proof_lru
begin = initial world proof_lru 0 (proof_lru.new 2)

-- A request for two proof types, only one of which has a worker.
abbrev pub asking : ProofServiceMessage world
asking = request_proof 9 request (reth_zisk ∷ reth_sp1 ∷ [])

abbrev asked : System world proof_lru
asked = record {
  service = handle_message world proof_lru begin.service workers asking replies;
  accepted = note world proof_lru begin.service asking [];
  finished = [];
}

abbrev found : ProofServiceMessage world
found = ProofServiceMessage.witness_available 5 1

abbrev pub dispatched : System world proof_lru
dispatched = record {
  service = handle_message world proof_lru asked.service workers found replies;
  accepted = note world proof_lru asked.service found asked.accepted;
  finished = [];
}

abbrev pub proved : WorkerOutput
proved = record {
  new_payload_request_root = 9;
  block_hash = 5;
  block_number = 7;
  proof_type = reth_zisk;
  proof_result = proof_ok (1 ∷ 2 ∷ 3 ∷ []);
  duration = 4;
}

abbrev pub done : System world proof_lru
done = record {
  service = handle_worker_output world proof_lru dispatched.service proved 107;
  accepted = dispatched.accepted;
  finished = (9, reth_zisk) ∷ [];
}

pub done-Reach : Reach world proof_lru workers begin done
unfolding program
done-Reach =
    next
      (next (next start (message asking replies (λ r h. cc) refl)) (message found replies tt refl))
      (output proved 107 (omega arith) refl)

-- The proof is cached, the other type has failed, and nothing is left.
done_state :
    (proof_lru.peek done.service.proof_cache (9, reth_zisk) ≡ some (1 ∷ 2 ∷ 3 ∷ []))
    × (answered (9, reth_sp1) done.service.events ≡ 1)
    × (done.service.requested ≡ [])
unfolding program
done_state = (refl, refl, refl)

accepted-answered_example :
    answered (9, reth_sp1) done.service.events + tracked (9, reth_sp1) done.service.requested
    ≡ accepted_count world proof_lru (9, reth_sp1) done.accepted
accepted-answered_example =
    accepted-answered world proof_lru 0 (proof_lru.new 2) done-Reach (9, reth_sp1)

quiescent_example :
    (contains key_dec done.service.requested (9, reth_zisk) ≡ false)
    × (answered (9, reth_zisk) done.service.events
        ≡ accepted_count world proof_lru (9, reth_zisk) done.accepted)
unfolding program
quiescent_example =
    quiescent world proof_lru 0 (proof_lru.new 2) done-Reach (9, reth_zisk) refl refl

handle_request_proof-known_example :
    handle_request_proof world proof_lru done.service 9 request (reth_zisk ∷ []) replies
    ≡ done.service
unfolding program
handle_request_proof-known_example =
    handle_request_proof-known world proof_lru done.service 9 request (reth_zisk ∷ []) replies
      (inl refl, tt)

-- The block 5 is pending under the root 9, and is asked for under the root 10.
abbrev lost : ProofService world proof_lru
lost = handle_request_proof world proof_lru asked.service 10 request (reth_zisk ∷ []) replies

abbrev waiting : PendingRequest world
waiting = record {
  new_payload_request = request;
  new_payload_request_root = 9;
  proof_types = reth_zisk ∷ reth_sp1 ∷ [];
}

handle_request_proof-other_root_example :
    (contains key_dec lost.requested (10, reth_zisk) ≡ true)
    × (pending_count {x = world} (10, reth_zisk) lost.pending
        ≡ pending_count {x = world} (10, reth_zisk) asked.service.pending)
    × (lost.worker_inputs ≡ asked.service.worker_inputs)
    × (lost.events ≡ asked.service.events)
unfolding program
handle_request_proof-other_root_example =
    handle_request_proof-other_root world proof_lru asked.service 10 request (reth_zisk ∷ [])
      replies waiting reth_zisk refl (omega arith) refl refl

abbrev both : List ProofType
both = reth_zisk ∷ reth_sp1 ∷ []

abbrev built : NewPayloadRequestWithWitness world
built = record {
  root = 9;
  stateless_input = record { block = 7; witness = 1; chain_config = 0 };
  block_hash = 5;
}

handle_witness_available-Dispatched_example :
    Dispatched world proof_lru 9 waiting.proof_types asked.service
      (handle_witness_available world proof_lru asked.service both 5 1 (λ p. sent))
unfolding program
handle_witness_available-Dispatched_example =
    handle_witness_available-Dispatched world proof_lru asked.service both 5 1 (λ p. sent) waiting
      built refl refl (refl, (refl, tt)) (λ p. refl)

Reach-Moves_example :
    Moves (life world proof_lru (9, reth_zisk) begin) (life world proof_lru (9, reth_zisk) done)
Reach-Moves_example =
    Reach-Moves world proof_lru (9, reth_zisk)
      (initial-Balanced world proof_lru (9, reth_zisk) 0 (proof_lru.new 2)) done-Reach

-- The machine has accepted one use, answered it, and is idle.
life_end :
    life world proof_lru (9, reth_zisk) done ≡ record { phase = idle; accepted = 1; answered = 1 }
unfolding program
life_end = refl
