-- ===== src/Http/Requests.antt =====
-- crates/server/src/http/v1/post_execution_proof_requests.rs: which proof requests are accepted.
use zkboost.Prelude.{
  ◌≡◌, refl, subst, ◌∙◌, ap, ◌↔◌, List, [], not, Result, ok, err, ◌>>=◌, ◌>>◌, >>=-eq-ok, ensure,
  ensure-eq-ok, >>-eq-ok', Result-cases, inl, inr, Option, none, some, is_empty, ◌⊎◌, extend, All,
  All-extend, extend-All, Text,
}
use zkboost.ProofType.{ProofType, proof_type_dec}
use zkboost.Payload.{Hash256, Bytes, NewPayloadRequest}
use zkboost.External.{External}
use zkboost.Proof.{request_proof}
use zkboost.Zkvm.{Backends}
use zkboost.Http.{
  ErrorResponse, Ssz, Zkvms, check_distinct, check_configured, check_provers, proof_request, decode,
  respond, post_execution_proof_requests,
}
use zkboost.Http.Acceptable.{
  check_distinct-eq-ok, check_distinct_ok, checks-passed, checks_pass, not-true, HasProver,
  IsAcceptable,
}

module _ {x : External} (b : Backends x) where
  module _ (zkvms : Zkvms b) (ssz : Ssz x) (ps : List ProofType) (body : Bytes) where
    abbrev set : List ProofType
    set = extend proof_type_dec [] ps

    proof_request_ok :
        (request : NewPayloadRequest x.ExecutionRequests)
        → IsAcceptable b zkvms ps
        → ssz.from_ssz_bytes body ≡ ok request
        → proof_request b zkvms ssz ps body ≡ ok (ssz.tree_hash_root request, request, set)
    unfolding proof_request
    proof_request_ok request a e =
        let (configured, provers) =
          checks_pass b zkvms set
            (extend-All proof_type_dec (HasProver b zkvms) [] ps tt a.provers) in
        rw (a.some_type, check_distinct_ok ps a.distinct, configured, provers, decode, e) refl

    -- The steps of the handler after the set is made.
    abbrev Answer : Type 0
    Answer = Hash256 × NewPayloadRequest x.ExecutionRequests × List ProofType

    abbrev answer :
        List ProofType → NewPayloadRequest x.ExecutionRequests → Result ErrorResponse Answer
    answer s request = ok (ssz.tree_hash_root request, request, s)

    abbrev decoded : List ProofType → Result ErrorResponse Answer
    decoded s = decode b ssz body >>= answer s

    abbrev checked : List ProofType → Result ErrorResponse Answer
    checked s = check_configured b zkvms s >> (check_provers b zkvms s >> decoded s)

    module _ (s : List ProofType) (q : NewPayloadRequest x.ExecutionRequests) (root : Hash256)
        (request : NewPayloadRequest x.ExecutionRequests) (found : List ProofType)
        (h : answer s q ≡ ok (root, request, found)) where
      answer_root : ssz.tree_hash_root q ≡ root
      answer_root = cc

      answer_request : q ≡ request
      answer_request = cc

      answer_set : s ≡ found
      answer_set = cc

    decode-eq-ok :
        (request : NewPayloadRequest x.ExecutionRequests)
        → decode b ssz body ≡ ok request
        → ssz.from_ssz_bytes body ≡ ok request
    decode-eq-ok request h = elim (Result-cases (ssz.from_ssz_bytes body)) [
      | inl (q, e) ↦ let h' = rw (decode, e) at h in e ∙ cc
      | inr (error, e) ↦ let h' = rw (decode, e) at h in absurd (cc)
    ]

    proof_request-eq-ok :
        (root : Hash256) (request : NewPayloadRequest x.ExecutionRequests) (found : List ProofType)
        → proof_request b zkvms ssz ps body ≡ ok (root, request, found)
        → IsAcceptable b zkvms ps
          × (ssz.from_ssz_bytes body ≡ ok request)
          × (ssz.tree_hash_root request ≡ root)
          × (found ≡ set)
    unfolding proof_request
    proof_request-eq-ok root request found h =
        let (some_type, h₁) =
          >>-eq-ok' (ensure (not (is_empty ps)) _) (check_distinct ps >>= checked) h in
        let (s, distinct, h₂) = >>=-eq-ok (check_distinct ps) checked h₁ in
        let (configured, h₃) =
          >>-eq-ok' (check_configured b zkvms s) (check_provers b zkvms s >> decoded s) h₂ in
        let (provers, h₄) = >>-eq-ok' (check_provers b zkvms s) (decoded s) h₃ in
        let (q, read, h₅) = >>=-eq-ok (decode b ssz body) (answer s) h₄ in
        let (same, once) = check_distinct-eq-ok ps s distinct in
        let all_set : All (HasProver b zkvms) set =
          subst (All (HasProver b zkvms)) same (checks-passed b zkvms s configured provers) in
        (
          record {
            some_type = not-true (is_empty ps) (ensure-eq-ok (not (is_empty ps)) _ some_type);
            distinct = once;
            provers = (All-extend proof_type_dec (HasProver b zkvms) [] ps all_set).1;
          },
          decode-eq-ok request (read ∙ ap ok (answer_request s q root request found h₅)),
          cc (answer_root s q root request found h₅, answer_request s q root request found h₅),
          cc (answer_set s q root request found h₅, same),
        )

    respond-eq-ok :
        (r : Result ErrorResponse Answer) (send_error : Option Text) (root : Hash256)
        (request : NewPayloadRequest x.ExecutionRequests) (found : List ProofType)
        → respond b send_error r ≡ (ok root, some (request_proof root request found))
        → (r ≡ ok (root, request, found)) × (send_error ≡ none)
    unfolding respond
    respond-eq-ok (ok a) none root request found h = (cc, refl)
    respond-eq-ok (ok a) (some e) root request found h = absurd (cc)
    respond-eq-ok (err e) none root request found h = absurd (cc)
    respond-eq-ok (err e) (some e') root request found h = absurd (cc)

    respond-cases :
        (send_error : Option Text)
        → (r : Result ErrorResponse Answer)
        → ((root : Hash256) × (request : NewPayloadRequest x.ExecutionRequests) × (found : List
              ProofType)
            × (respond b send_error r ≡ (ok root, some (request_proof root request found))))
          ⊎ ((e : ErrorResponse) × (respond b send_error r ≡ (err e, none)))
    unfolding respond
    respond-cases none (ok (root, request, found)) = inl (root, request, found, refl)
    respond-cases (some e) (ok a) = inr (_, refl)
    respond-cases none (err e) = inr (e, refl)
    respond-cases (some _) (err e) = inr (e, refl)

    -- The handler answers with a root, and sends the service a request for that root, a payload
    -- request and proof types, exactly if the body is the encoding of that payload request, the
    -- root is its tree hash, the proof types are those of the query, which is not empty and names
    -- none twice, each with an instance that can prove, and the service's channel is open.
    pub post-eq-ok_iff :
        (root : Hash256)
        → (request : NewPayloadRequest x.ExecutionRequests) → (found : List ProofType)
        → (send_error : Option Text)
        → (post_execution_proof_requests b zkvms ssz ps body send_error
            ≡ (ok root, some (request_proof root request found)))
          ↔ (IsAcceptable b zkvms ps
              × (ssz.from_ssz_bytes body ≡ ok request)
              × (ssz.tree_hash_root request ≡ root)
              × (found ≡ set)
              × (send_error ≡ none))
    unfolding post_execution_proof_requests respond
    post-eq-ok_iff root request found send_error = (
      λ h.
          let (e, unsent) = respond-eq-ok _ send_error root request found h in
          let (a, read, hash, whole) = proof_request-eq-ok root request found e in
          (a, read, hash, whole, unsent),
      λ (a, read, hash, whole, unsent).
          rw (unsent, proof_request_ok request a read, hash, whole) refl,
    )

    -- The handler either answers with a root and sends a request for that same root, or answers
    -- with an error and sends nothing.
    pub post-cases :
        (send_error : Option Text)
        → ((root : Hash256) × (request : NewPayloadRequest x.ExecutionRequests) × (found : List
              ProofType)
            × (post_execution_proof_requests b zkvms ssz ps body send_error
                ≡ (ok root, some (request_proof root request found))))
          ⊎ ((e : ErrorResponse) × (post_execution_proof_requests b zkvms ssz ps body send_error
                ≡ (err e, none)))
    unfolding post_execution_proof_requests
    post-cases send_error = respond-cases send_error (proof_request b zkvms ssz ps body)
