-- ===== src/Api/Queries.antt =====
-- crates/client/src/lib.rs, crates/server/src/http/v1.rs: the server's extractors read the queries
-- and paths that the client writes.
use zkboost.Prelude.{arith, ◌≡◌, ◌≤◌, Text, refl, List, [], ◌∷◌, text, ok, some}
use zkboost.ProofType.{ProofType, as_str}
use zkboost.ProofType.Names.{from_str-as_str}
use zkboost.Client.{proof_types_value}
use zkboost.Client.Responses.{deserialize-proof_types_value}
use zkboost.Payload.{Hash256}
use zkboost.External.{External}
use zkboost.Zkvm.{Backends}
use zkboost.Api.{Wire, Lawful}
use zkboost.Api.Router.{
  proof_request_query, proof_event_query, proof_verification_query, proof_path,
}

once : 1 ≤ 1
once = omega arith

module _ {x : External} {b : Backends x} (wire : Wire b) (lawful : Lawful wire) where
  pub proof_request_query-proof_types_value :
      (ps : List ProofType)
      → proof_request_query wire ((text "proof_types", proof_types_value ps) ∷ [])
        ≡ ok (record { proof_types = ps })
  unfolding proof_request_query
  proof_request_query-proof_types_value ps =
      let pairs : List (Text × Text) = (text "proof_types", proof_types_value ps) ∷ [] in
      rw
        (
          proof_request_query,
          lawful.field_value (text "proof_types") pairs once,
          deserialize-proof_types_value ps,
        )
        refl

  pub proof_event_query-show_hash :
      (h : Hash256)
      → proof_event_query wire ((text "new_payload_request_root", x.show_hash h) ∷ [])
        ≡ ok (record { new_payload_request_root = some h })
  unfolding proof_event_query
  proof_event_query-show_hash h =
      let pairs : List (Text × Text) = (text "new_payload_request_root", x.show_hash h) ∷ [] in
      rw
        (
          proof_event_query,
          lawful.field_value (text "new_payload_request_root") pairs once,
          lawful.parse-show_hash h,
        )
        refl

  pub proof_verification_query-written :
      (h : Hash256) (p : ProofType)
      → proof_verification_query wire
          ((text "new_payload_request_root", x.show_hash h) ∷ (text "proof_type", as_str p) ∷ [])
        ≡ ok (record { new_payload_request_root = h; proof_type = p })
  unfolding proof_verification_query
  proof_verification_query-written h p =
      let pairs : List (Text × Text) =
        (text "new_payload_request_root", x.show_hash h) ∷ (text "proof_type", as_str p) ∷ [] in
      rw
        (
          proof_verification_query,
          lawful.field_value (text "new_payload_request_root") pairs once,
          lawful.parse-show_hash h,
          lawful.field_value (text "proof_type") pairs once,
          from_str-as_str p,
        )
        refl

  pub proof_path-written :
      (h : Hash256) (p : ProofType) → proof_path wire (x.show_hash h ∷ as_str p ∷ []) ≡ ok (h, p)
  unfolding proof_path
  proof_path-written h p = rw (proof_path, lawful.parse-show_hash h, from_str-as_str p) refl
