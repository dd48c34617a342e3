-- ===== src/Worker/Run.antt =====
-- crates/server/src/proof/worker.rs: the loop of a worker, over the inputs that it receives before
-- its channel closes or the server shuts down.
use zkboost.Prelude.{
  ℕ, ◌≡◌, refl, arith, List, [], ◌∷◌, map, count, Text, Result, ok, err, Bool, true, false,
}
use zkboost.Payload.{Bytes}
use zkboost.External.{External}
use zkboost.Worker.{
  ProofResult, proof_ok, proof_err, timeout, WorkerOutput, NewPayloadRequestWithWitness,
  payload_number,
}
use zkboost.Zkvm.{Backends, ZkvmInstance, Random, instance_proof_type, prove}
use zkboost.Dashboard.{DashboardMessage}
use zkboost.Proof.{Key, key_dec}
use zkboost.Proof.Keys.{sent_count}

-- The result of `prove`, or that the time ran out before it returned.
abbrev pub proof_result_of : Bool → Result Text Bytes → ProofResult
proof_result_of true (ok proof) = proof_ok proof
proof_result_of true (err error) = proof_err error
proof_result_of false (ok proof) = timeout
proof_result_of false (err error) = timeout

module _ {x : External} (b : Backends x) where
  -- One turn of the loop: the input, the random choices of a mock, the time when it starts, whether
  -- `prove` returns within the proof's timeout, and the time that has passed then.
  pub record Turn : Type 0 where
    pub payload : NewPayloadRequestWithWitness x
    pub rng : Random
    pub now : x.Seconds
    pub in_time : Bool
    pub duration : ℕ

  unfoldable pub worker_output : ZkvmInstance b → Turn → WorkerOutput
  unfolding payload_number
  worker_output zkvm turn = record {
    new_payload_request_root = turn.payload.root;
    block_hash = turn.payload.block_hash;
    block_number = payload_number x turn.payload;
    proof_type = instance_proof_type b zkvm;
    proof_result = proof_result_of turn.in_time (prove b zkvm turn.payload turn.rng);
    duration = turn.duration;
  }

  -- The outputs and the messages to the dashboard, the first turn first.
  unfoldable pub run_worker :
      ZkvmInstance b → List Turn → List WorkerOutput × List (DashboardMessage x.Seconds)
  run_worker zkvm [] = ([], [])
  run_worker zkvm (turn ∷ turns) =
      let (outputs, messages) = run_worker zkvm turns in
      (
        worker_output zkvm turn ∷ outputs,
        DashboardMessage.prove_start turn.payload.block_hash (instance_proof_type b zkvm) turn.now
            ∷ messages,
      )

  abbrev pub key_of : WorkerOutput → Key
  key_of output = (output.new_payload_request_root, output.proof_type)

  -- For each root and proof type, a worker makes as many outputs as it was sent inputs.
  pub count-run_worker :
      (zkvm : ZkvmInstance b) (turns : List Turn) (k : Key)
      → count key_dec k (map key_of (run_worker zkvm turns).0)
        ≡ sent_count {x = x} k (map (λ t. (instance_proof_type b zkvm, t.payload)) turns)
  unfolding run_worker worker_output
  count-run_worker zkvm [] k = refl
  count-run_worker zkvm (turn ∷ turns) k = omega (arith, count-run_worker zkvm turns k)
