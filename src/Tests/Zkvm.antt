-- ===== src/Tests/Zkvm.antt =====
-- crates/server/src/proof/zkvm.rs.
use zkboost.Prelude.{
  List, ◌∷◌, true, false, count, map, ℕ, ◌≡◌, refl, ◌↔◌, arith, ◌++◌, [], length, ok,
}
use zkboost.ProofType.{el_kind, reth_zisk, reth_sp1}
use zkboost.Payload.{Bytes}
use zkboost.Proof.{key_dec}
use zkboost.Proof.Keys.{sent_count}
use zkboost.Worker.Run.{Turn, key_of, run_worker, count-run_worker}
use zkboost.Zkvm.{
  instance_proof_type, ZkvmInstance, execute, expected_public_values, public_values_of, verify,
  mock_prove,
}
use zkboost.Zkvm.Verify.{zeros, verify-eq-ok_iff}
use zkboost.Zkvm.Mock.{verify-mock_prove}
use zkboost.Tests.World.{world}
use zkboost.Tests.Machines.{machines, digest, mock_vm, rng, input, payload}

abbrev prover : ZkvmInstance machines
prover = ZkvmInstance.ere reth_zisk 12 []

verify-eq-ok_iff_example :
    (verify machines prover 9 (digest ++ zeros 8) ≡ ok tt)
    ↔ ((n : ℕ) × (public_values_of machines prover (digest ++ zeros 8) ≡ ok (digest ++ zeros n)))
unfolding expected_public_values
verify-eq-ok_iff_example = verify-eq-ok_iff machines prover 9 (digest ++ zeros 8) digest refl

verify-mock_prove_example :
    (proof : Bytes) × ((mock_prove machines mock_vm input rng).1 ≡ ok proof)
    × (length proof ≡ 40)
    × (verify machines (ZkvmInstance.mock reth_sp1 12 mock_vm) 9 proof ≡ ok tt)
unfolding el_kind execute expected_public_values
verify-mock_prove_example =
    verify-mock_prove machines reth_sp1 12 mock_vm input rng 9 digest 21000 refl refl refl
      (omega arith) refl

-- One proof in time, and one that runs out of it.
abbrev turns : List (Turn machines)
turns =
    record { payload = payload; rng = rng; now = 103; in_time = true; duration = 4 }
    ∷ record { payload = payload; rng = rng; now = 107; in_time = false; duration = 12 }
    ∷ []

count-run_worker_example :
    count key_dec (9, reth_zisk) (map (key_of machines) (run_worker machines prover turns).0)
    ≡ sent_count {x = world}
        (9, reth_zisk)
        (map (λ t. (instance_proof_type machines prover, t.payload)) turns)
count-run_worker_example = count-run_worker machines prover turns (9, reth_zisk)
