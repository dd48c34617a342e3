-- ===== src/Http.antt =====
-- crates/server/src/http/v1.rs and its handlers. Axum, SSZ and tree hashing are code of other
-- crates. A handler returns its response, with the messages that it sends.
pub mod Acceptable
pub mod Refusals
pub mod Requests
pub mod Reads
use zkboost.Prelude.{
  ℕ, ◌≡◌, List, [], ◌∷◌, ◌++◌, map, Text, text, Bool, true, false, not, Result, ok, err, ◌>>=◌,
  ◌>>◌, ensure, ok_or, Option, none, some, get, is_some, is_empty, extend, length, ◌==◌,
  if◌then◌else◌, sort_by_key,
}
use zkboost.ProofType.{ProofType, proof_type_dec, discriminant, as_str}
use zkboost.Payload.{Hash256, Bytes, NewPayloadRequest}
use zkboost.Events.{ProofEvent, event_root}
use zkboost.External.{External}
use zkboost.Lru.{LruCache}
use zkboost.Proof.{Key, ProofServiceMessage, request_proof}
use zkboost.Zkvm.{
  Backends, ZkvmInstance, ZkvmError, ere, mock, verifier, verify, backend_capabilities, BackendKind,
}

pub record ErrorResponse : Type 0 where
  pub code : ℕ
  pub message : Text

abbrev pub bad_request : Text → ErrorResponse
bad_request message = record { code = 400; message = message }

abbrev pub not_found : Text → ErrorResponse
not_found message = record { code = 404; message = message }

abbrev pub internal_server_error : Text → ErrorResponse
internal_server_error message = record { code = 500; message = message }

-- SSZ decoding, with the text of its error, and the tree hash of a payload request.
pub record Ssz (x : External) : Type 0 where
  pub from_ssz_bytes : Bytes → Result Text (NewPayloadRequest x.ExecutionRequests)
  pub tree_hash_root : NewPayloadRequest x.ExecutionRequests → Hash256

pub data ProofStatus : Type 0 where
  valid invalid : ProofStatus

abbrev pub is_valid : ProofStatus → Bool
is_valid valid = true
is_valid invalid = false

-- `HashSet::from_iter`, and the comparison of the lengths.
unfoldable pub check_distinct : List ProofType → Result ErrorResponse (List ProofType)
check_distinct ps =
    let set = extend proof_type_dec [] ps in
    if length set == length ps
    then ok set
    else err (bad_request (text "duplicate proof types in request"))

module _ {x : External} (b : Backends x) where
  -- `state.zkvms`.
  abbrev pub Zkvms : Type 0
  Zkvms = List (ProofType × ZkvmInstance b)

  abbrev pub is_verifier : ZkvmInstance b → Bool
  is_verifier (ere p t c) = false
  is_verifier (mock p t vm) = false
  is_verifier (verifier p v) = true

  unfoldable pub check_configured : Zkvms → List ProofType → Result ErrorResponse (Unit {0})
  check_configured zkvms [] = ok tt
  check_configured zkvms (p ∷ ps) = do
    ensure (is_some (get proof_type_dec zkvms p))
        (bad_request (text "no zkVM configured for proof type '" ++ (as_str p ++ text "'")))
    check_configured zkvms ps

  -- Whether a proof type has an instance that only verifies.
  abbrev pub only_verifies : Zkvms → ProofType → Bool
  only_verifies zkvms p = elim (get proof_type_dec zkvms p) [
    | some zkvm ↦ is_verifier zkvm
    | none ↦ false
  ]

  unfoldable pub check_provers : Zkvms → List ProofType → Result ErrorResponse (Unit {0})
  check_provers zkvms [] = ok tt
  check_provers zkvms (p ∷ ps) = do
    ensure (not (only_verifies zkvms p)) (
        bad_request (
          text "proof generation not supported for verifier-only zkvm '" ++ (as_str p ++ text "'")))
    check_provers zkvms ps

  abbrev pub decode : Ssz x → Bytes → Result ErrorResponse (NewPayloadRequest x.ExecutionRequests)
  decode ssz body = elim (ssz.from_ssz_bytes body) [
    | ok request ↦ ok request
    | err e ↦ err (bad_request (text "invalid SSZ body: " ++ e))
  ]

  -- The handler up to the send: the root, the payload request and the set of proof types.
  unfoldable pub proof_request :
      Zkvms
      → Ssz x
      → List ProofType
      → Bytes
      → Result ErrorResponse (Hash256 × NewPayloadRequest x.ExecutionRequests × List ProofType)
  proof_request zkvms ssz proof_types body = do
    ensure (not (is_empty proof_types)) (bad_request (text "empty proof types in request"))
    set ← check_distinct proof_types
    check_configured zkvms set
    check_provers zkvms set
    request ← decode ssz body
    ok (ssz.tree_hash_root request, request, set)

  -- The end of the handler, with the error of the send if the service's channel is closed: the
  -- response, and the message that the service receives.
  unfoldable pub respond :
      Option Text
      → Result ErrorResponse (Hash256 × NewPayloadRequest x.ExecutionRequests × List ProofType)
      → Result ErrorResponse Hash256 × Option (ProofServiceMessage x)
  respond none (ok (root, request, set)) = (ok root, some (request_proof root request set))
  respond (some e) (ok (root, request, set)) =
      (err (internal_server_error (text "failed to enqueue proof: " ++ e)), none)
  respond none (err e) = (err e, none)
  respond (some _) (err e) = (err e, none)

  unfoldable pub post_execution_proof_requests :
      Zkvms
      → Ssz x
      → List ProofType
      → Bytes
      → Option Text
      → Result ErrorResponse Hash256 × Option (ProofServiceMessage x)
  post_execution_proof_requests zkvms ssz proof_types body send_error =
      respond send_error (proof_request zkvms ssz proof_types body)

  -- `post_execution_proof_verifications`, with the call of `record_verify`.
  unfoldable pub post_execution_proof_verifications :
      Zkvms → Hash256 → ProofType → Bytes → Result ErrorResponse ProofStatus × (ProofType × Bool)
  post_execution_proof_verifications zkvms root proof_type body =
      elim (get proof_type_dec zkvms proof_type) [
        | none ↦ (
          err (not_found (text "unknown proof_type: " ++ as_str proof_type)),
          (proof_type, false),
        )
        | some zkvm ↦
            let status : ProofStatus = elim (verify b zkvm root body) [
              | ok _ ↦ valid
              | err _ ↦ invalid
            ] in
            (ok status, (proof_type, is_valid status))
      ]

  pub record ProofTypeInfo : Type 0 where
    pub proof_type : ProofType
    pub kind : BackendKind b
    pub can_prove : Bool
    pub can_verify : Bool

  abbrev pub info_of : ProofType × ZkvmInstance b → ProofTypeInfo
  info_of (p, zkvm) =
      let (kind, can_prove, can_verify) = backend_capabilities b zkvm in
      record { proof_type = p; kind = kind; can_prove = can_prove; can_verify = can_verify }

  unfoldable pub get_proof_types : Zkvms → List ProofTypeInfo
  get_proof_types zkvms = sort_by_key (λ i. discriminant i.proof_type) (map info_of zkvms)

module _ (x : External) (proofs : LruCache Key Bytes) where
  unfoldable pub get_execution_proofs :
      proofs.Cache → Hash256 → ProofType → Result ErrorResponse Bytes
  get_execution_proofs cache root proof_type = elim (proofs.peek cache (root, proof_type)) [
    | some proof ↦ ok proof
    | none ↦ err (
        not_found (
          text "proof not found for root "
          ++ (x.show_hash root ++ (text " and type " ++ as_str proof_type))))
  ]

  -- The proofs of a root that are in the cache, as events.
  unfoldable pub catch_up : Hash256 → List (Key × Bytes) → List ProofEvent
  catch_up root [] = []
  catch_up root (((r, p), proof) ∷ entries) =
      let rest = catch_up root entries in
      if r == root
      then ProofEvent.proof_complete (record { new_payload_request_root = r; proof_type = p })
        ∷ rest
      else rest

  -- What a receiver of the broadcast channel gets: an event, or that it lagged behind.
  unfoldable pub received : List (Option ProofEvent) → List ProofEvent
  received [] = []
  received (none ∷ rest) = received rest
  received (some event ∷ rest) = event ∷ received rest

  unfoldable pub filter_root : Hash256 → List ProofEvent → List ProofEvent
  filter_root root [] = []
  filter_root root (event ∷ rest) =
      let kept = filter_root root rest in if event_root event == root then event ∷ kept else kept

  -- `get_execution_proof_requests`: the events of the stream.
  unfoldable pub get_execution_proof_requests :
      proofs.Cache → Option Hash256 → List (Option ProofEvent) → List ProofEvent
  get_execution_proof_requests cache none live = received live
  get_execution_proof_requests cache (some root) live =
      catch_up root (proofs.iter cache) ++ filter_root root (received live)
