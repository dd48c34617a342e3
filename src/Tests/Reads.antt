-- ===== src/Tests/Reads.antt =====
-- crates/server/src/http/v1: the handlers that read, after the run of Tests/Service.antt.
use zkboost.Prelude.{
  ◌≡◌, ◌↔◌, List, [], ◌∷◌, ◌++◌, map, true, ok, none, some, get, count, Option, IsSortedFrom,
}
use zkboost.ProofType.{ProofType, reth_zisk, reth_sp1, proof_type_dec, discriminant}
use zkboost.Events.{ProofEvent}
use zkboost.Zkvm.{ZkvmInstance, verify}
use zkboost.Zkvm.Verify.{zeros}
use zkboost.Http.{valid, post_execution_proof_verifications, get_proof_types}
use zkboost.Http.Reads.{get_proof_types-sorted, post_execution_proof_verifications-valid_iff}
use zkboost.Tests.Machines.{machines, zkvms, digest}

abbrev live : List (Option ProofEvent)
live =
    some
      (ProofEvent.proof_complete (record { new_payload_request_root = 8; proof_type = reth_zisk }))
    ∷ none
    ∷ some
        (ProofEvent.proof_complete (record { new_payload_request_root = 9; proof_type = reth_sp1 }))
    ∷ []

get_proof_types-sorted_example :
    IsSortedFrom (λ i. discriminant i.proof_type) 0 (get_proof_types machines zkvms)
    × ((p : ProofType)
        → count proof_type_dec p (map (λ i. i.proof_type) (get_proof_types machines zkvms))
          ≡ count proof_type_dec p (map (λ e. e.0) zkvms))
get_proof_types-sorted_example = get_proof_types-sorted machines zkvms

post_execution_proof_verifications-valid_iff_example :
    (post_execution_proof_verifications machines zkvms 9 reth_zisk (digest ++ zeros 8)
      ≡ (ok valid, (reth_zisk, true)))
    ↔ ((zkvm : ZkvmInstance machines) × (get proof_type_dec zkvms reth_zisk ≡ some zkvm)
        × (verify machines zkvm 9 (digest ++ zeros 8) ≡ ok tt))
post_execution_proof_verifications-valid_iff_example =
    post_execution_proof_verifications-valid_iff machines zkvms 9 reth_zisk (digest ++ zeros 8)
