-- ===== src/Api/Routes.antt =====
-- crates/server/src/http.rs: the endpoints that the client's paths lead to.
use zkboost.Prelude.{
  ◌≡◌, refl, sym, ap, subst, Result, ok, ◌∙◌, List, [], ◌∷◌, ◌++◌, Text, text, Bool, true, All,
}
use zkboost.ProofType.{
  ProofType, as_str, ethrex_risc0, ethrex_sp1, ethrex_zisk, reth_openvm, reth_risc0, reth_sp1,
  reth_zisk,
}
use zkboost.Payload.{Hash256}
use zkboost.External.{External}
use zkboost.Zkvm.{Backends}
use zkboost.Api.{Url, JoinsPaths, Wire, Lawful, Segment, is_segment, join_path, captures, get, post}
use zkboost.Api.Router.{
  routes, requests_route, proofs_route, verifications_route, target, endpoint, post_requests,
  get_requests, get_proofs, post_verifications,
}

abbrev pub proof_requests_path : Text
proof_requests_path = text "/v1/execution_proof_requests"

abbrev pub verifications_path : Text
verifications_path = text "/v1/execution_proof_verifications"

as_str_segment : (p : ProofType) → is_segment (as_str p) ≡ true
unfolding as_str
as_str_segment ethrex_risc0 = refl
as_str_segment ethrex_sp1 = refl
as_str_segment ethrex_zisk = refl
as_str_segment reth_openvm = refl
as_str_segment reth_risc0 = refl
as_str_segment reth_sp1 = refl
as_str_segment reth_zisk = refl

pub append_nil : (s : Text) → s ++ [] ≡ s
append_nil [] = refl
append_nil (c ∷ s) = ap (◌∷◌ c) (append_nil s)

module _ (x : External) where
  abbrev pub proof_url_path : Hash256 → ProofType → Text
  proof_url_path h p = text "/v1/execution_proofs/" ++ (x.show_hash h ++ (text "/" ++ as_str p))

  abbrev pub proof_segments : Hash256 → ProofType → List Text
  proof_segments h p = text "v1" ∷ text "execution_proofs" ∷ x.show_hash h ∷ as_str p ∷ []

  proof_url_path-join_path :
      (h : Hash256) (p : ProofType) → join_path (proof_segments h p) ≡ proof_url_path h p
  proof_url_path-join_path h p =
      ap (λ s. text "/v1/execution_proofs/" ++ (x.show_hash h ++ (text "/" ++ s)))
        (append_nil (as_str p))

module _ {x : External} {b : Backends x} (wire : Wire b) (lawful : Lawful wire) where
  proof_segments-is_segment :
      (h : Hash256) (p : ProofType) → All (λ s. is_segment s ≡ true) (proof_segments x h p)
  proof_segments-is_segment h p =
      (refl, (refl, (lawful.show_hash_segment h, (as_str_segment p, tt))))

  -- The path is made of four segments, which no text within breaks.
  proof_url_path-captures :
      (h : Hash256) (p : ProofType) (template : List Segment)
      → wire.matches template (proof_url_path x h p) ≡ captures template (proof_segments x h p)
  proof_url_path-captures h p template =
      ap (wire.matches template) (sym (proof_url_path-join_path x h p))
      ∙ lawful.matches-join_path template (proof_segments x h p) (proof_segments-is_segment h p)

  module _ (join : Text → Result Text Url) (joins : JoinsPaths join) where
    pub join-requests :
        join proof_requests_path ≡ ok (record { path = proof_requests_path; query = [] })
    join-requests = joins (text "v1" ∷ text "execution_proof_requests" ∷ []) (refl, (refl, tt))

    pub join-verifications :
        join verifications_path ≡ ok (record { path = verifications_path; query = [] })
    join-verifications =
        joins (text "v1" ∷ text "execution_proof_verifications" ∷ []) (refl, (refl, tt))

    pub join-proof_url_path :
        (h : Hash256) (p : ProofType)
        → join (proof_url_path x h p) ≡ ok (record { path = proof_url_path x h p; query = [] })
    join-proof_url_path h p =
        subst (λ q. join q ≡ ok (record { path = q; query = [] })) (proof_url_path-join_path x h p)
          (joins (proof_segments x h p) (proof_segments-is_segment h p))

module _ {x : External} {b : Backends x} (wire : Wire b) (lawful : Lawful wire) (d : Bool) where
  pub target_post_requests :
      target wire (routes d) post proof_requests_path ≡ endpoint post_requests []
  unfolding target routes
  target_post_requests =
      let fits = λ (template : List Segment).
        lawful.matches-join_path template (text "v1" ∷ text "execution_proof_requests" ∷ [])
          (refl, (refl, tt)) in
      rw (target, fits _) refl

  pub target_get_requests :
      target wire (routes d) get proof_requests_path ≡ endpoint get_requests []
  unfolding target routes
  target_get_requests =
      let fits = λ (template : List Segment).
        lawful.matches-join_path template (text "v1" ∷ text "execution_proof_requests" ∷ [])
          (refl, (refl, tt)) in
      rw (target, fits _) refl

  pub target_post_verifications :
      target wire (routes d) post verifications_path ≡ endpoint post_verifications []
  unfolding target routes
  target_post_verifications =
      let fits = λ (template : List Segment).
        lawful.matches-join_path template (text "v1" ∷ text "execution_proof_verifications" ∷ [])
          (refl, (refl, tt)) in
      rw (target, fits requests_route, fits proofs_route, fits verifications_route) refl

  pub target_get_proofs :
      (h : Hash256) (p : ProofType)
      → target wire (routes d) get (proof_url_path x h p)
        ≡ endpoint get_proofs (x.show_hash h ∷ as_str p ∷ [])
  unfolding target routes
  target_get_proofs h p =
      rw
        (
          target,
          proof_url_path-captures wire lawful h p requests_route,
          proof_url_path-captures wire lawful h p proofs_route,
        )
        refl
