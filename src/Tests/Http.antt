-- ===== src/Tests/Http.antt =====
-- crates/server/src/http/v1/post_execution_proof_requests.rs.
use zkboost.Prelude.{
  ◌≡◌, refl, ◌↔◌, arith, List, [], ◌∷◌, Text, ok, Option, none, some, extend, count, ◌≤◌,
}
use zkboost.ProofType.{ProofType, reth_zisk, reth_sp1, proof_type_dec}
use zkboost.Proof.{request_proof}
use zkboost.Http.{post_execution_proof_requests}
use zkboost.Http.Acceptable.{IsAcceptable}
use zkboost.Http.Requests.{post-eq-ok_iff}
use zkboost.Tests.World.{request}
use zkboost.Tests.Machines.{machines, zkvms, ssz}

abbrev pub asked_types : List ProofType
asked_types = reth_zisk ∷ reth_sp1 ∷ []

asked_once : (p : ProofType) → count proof_type_dec p asked_types ≤ 1
unfolding proof_type_dec
asked_once p = ground arith

pub acceptable : IsAcceptable machines zkvms asked_types
unfolding proof_type_dec
acceptable = record {
  some_type = refl;
  distinct = asked_once;
  provers = ((refl, refl), ((refl, refl), tt));
}

post-eq-ok_iff_example :
    (post_execution_proof_requests machines zkvms ssz asked_types [] none
      ≡ (ok 9, some (request_proof 9 request (extend proof_type_dec [] asked_types))))
    ↔ (IsAcceptable machines zkvms asked_types
        × (ssz.from_ssz_bytes [] ≡ ok request)
        × (ssz.tree_hash_root request ≡ 9)
        × (extend proof_type_dec [] asked_types ≡ extend proof_type_dec [] asked_types)
        × (◌≡◌ {A = Option Text} none none))
post-eq-ok_iff_example =
    post-eq-ok_iff machines zkvms ssz asked_types [] 9 request
      (extend proof_type_dec [] asked_types) none
