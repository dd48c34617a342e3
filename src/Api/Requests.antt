-- ===== src/Api/Requests.antt =====
-- crates/client/src/lib.rs: the requests that the client sends, and what its methods return. The
-- base URL's `join` and the sending of a request are parameters.
use zkboost.Prelude.{
  ◌≡◌, refl, List, [], ◌∷◌, ◌++◌, Text, text, Result, ok, err, ◌>>=◌, Option, none, some,
}
use zkboost.ProofType.{ProofType, as_str}
use zkboost.Payload.{Hash256, Bytes, NewPayloadRequest}
use zkboost.Events.{Json, ProofEvent}
use zkboost.External.{External}
use zkboost.Transport.{Response}
use zkboost.Zkvm.{Backends}
use zkboost.Client
use zkboost.Client.{
  Error, proof_types_value, handle_json_response, proof_events, SseEvent, sse, url,
}
use zkboost.Api.{Url, Request, get, post, Wire, ProofRequestResponse, ProofVerificationResponse}

abbrev pub application_octet_stream : Text
application_octet_stream = text "application/octet-stream"

-- `query_pairs_mut().append_pair(..)`.
abbrev pub append_pair : Text → Text → Url → Url
append_pair name value u = record u { query = u.query ++ ((name, value) ∷ []) }

-- A POST of bytes.
abbrev pub post_bytes : Url → Bytes → Request
post_bytes u body = record {
  method = post;
  url = u;
  content_type = some application_octet_stream;
  body = body;
}

abbrev pub get_url : Url → Request
get_url u = record { method = get; url = u; content_type = none; body = [] }

module _ (x : External) {b : Backends x} (wire : Wire b) (json : Json)
    (join : Text → Result Text Url)
    (as_ssz_bytes : NewPayloadRequest x.ExecutionRequests → Bytes) where
  -- A base URL that cannot be joined with a path, and a send that fails.
  abbrev joined : Text → Result (Error json) Url
  joined path = elim (join path) [ ok u ↦ ok u | err e ↦ err (url e) ]

  abbrev pub sent : Result Text Response → Result (Error json) Response
  sent (ok response) = ok response
  sent (err e) = err (Error.request e)

  unfoldable pub request_proof :
      (Request → Result Text Response)
      → NewPayloadRequest x.ExecutionRequests
      → List ProofType
      → Result (Error json) ProofRequestResponse
  request_proof send new_payload_request proof_types = do
    u ← joined (text "/v1/execution_proof_requests")
    response ← sent (
        send (
          post_bytes (append_pair (text "proof_types") (proof_types_value proof_types) u)
            (as_ssz_bytes new_payload_request)))
    handle_json_response json wire.json_message wire.read_root response

  -- `subscribe_proof_events`, where `source` is the event source of a request.
  unfoldable pub subscribe_proof_events :
      (Request → Result Text (List (Result Text SseEvent)))
      → Option Hash256
      → List ProofEvent × Option (Error json)
  subscribe_proof_events source filter_root = elim (joined (text "/v1/execution_proof_requests")) [
    | err e ↦ ([], some e)
    | ok u ↦
        let filtered : Url = elim filter_root [
          | some root ↦ append_pair (text "new_payload_request_root") (x.show_hash root) u
          | none ↦ u
        ] in
        elim (source (get_url filtered)) [
          | err e ↦ ([], some (sse (text "failed to create event source: " ++ e)))
          | ok events ↦ proof_events json events
        ]
  ]

  unfoldable pub get_proof :
      (Request → Result Text Response) → Hash256 → ProofType → Result (Error json) Bytes
  get_proof send new_payload_request_root proof_type = do
    u ← joined (
        text "/v1/execution_proofs/"
        ++ (x.show_hash new_payload_request_root ++ (text "/" ++ as_str proof_type)))
    response ← sent (send (get_url u))
    Client.get_proof json wire.json_message response

  unfoldable pub verify_proof :
      (Request → Result Text Response)
      → Hash256
      → ProofType
      → Bytes
      → Result (Error json) ProofVerificationResponse
  verify_proof send new_payload_request_root proof_type proof = do
    u ← joined (text "/v1/execution_proof_verifications")
    response ← sent (
        send (
          post_bytes
            (append_pair (text "proof_type") (as_str proof_type) (
              append_pair (text "new_payload_request_root") (x.show_hash new_payload_request_root)
                u))
            proof))
    handle_json_response json wire.json_message wire.read_status response

-- A method whose path is joined and whose request is answered ends with the reading of the response.
module _ (x : External) {b : Backends x} (wire : Wire b) (json : Json)
    (join : Text → Result Text Url) (as_ssz_bytes : NewPayloadRequest x.ExecutionRequests → Bytes)
    (send : Request → Result Text Response) (response : Response) where
  pub request_proof-handle_json_response :
      (u : Url) (request : NewPayloadRequest x.ExecutionRequests) (ps : List ProofType)
      → join (text "/v1/execution_proof_requests") ≡ ok u
      → send (
          post_bytes
            (append_pair (text "proof_types") (proof_types_value ps) u)
            (as_ssz_bytes request))
        ≡ ok response
      → request_proof x wire json join as_ssz_bytes send request ps
        ≡ handle_json_response json wire.json_message wire.read_root response
  unfolding request_proof
  request_proof-handle_json_response u request ps h k = rw (request_proof, joined, h, k) refl

  pub get_proof-sent :
      (u : Url) (root : Hash256) (p : ProofType)
      → join (text "/v1/execution_proofs/" ++ (x.show_hash root ++ (text "/" ++ as_str p))) ≡ ok u
      → send (get_url u) ≡ ok response
      → get_proof x wire json join as_ssz_bytes send root p
        ≡ Client.get_proof json wire.json_message response
  unfolding get_proof
  get_proof-sent u root p h k = rw (get_proof, joined, h, k) refl

  pub verify_proof-handle_json_response :
      (u : Url) (root : Hash256) (p : ProofType) (proof : Bytes)
      → join (text "/v1/execution_proof_verifications") ≡ ok u
      → send (
          post_bytes
            (append_pair
              (text "proof_type")
              (as_str p)
              (append_pair (text "new_payload_request_root") (x.show_hash root) u))
            proof)
        ≡ ok response
      → verify_proof x wire json join as_ssz_bytes send root p proof
        ≡ handle_json_response json wire.json_message wire.read_status response
  unfolding verify_proof
  verify_proof-handle_json_response u root p proof h k = rw (verify_proof, joined, h, k) refl

-- A stream that is subscribed to yields what the event source yields.
module _ (x : External) {b : Backends x} (wire : Wire b) (json : Json)
    (join : Text → Result Text Url) (as_ssz_bytes : NewPayloadRequest x.ExecutionRequests → Bytes)
    (source : Request → Result Text (List (Result Text SseEvent))) where
  pub subscribe_proof_events-source :
      (u : Url) (root : Hash256) (events : List (Result Text SseEvent))
      → join (text "/v1/execution_proof_requests") ≡ ok u
      → source (get_url (append_pair (text "new_payload_request_root") (x.show_hash root) u))
        ≡ ok events
      → subscribe_proof_events x wire json join as_ssz_bytes source (some root)
        ≡ proof_events json events
  unfolding subscribe_proof_events
  subscribe_proof_events-source u root events h k = rw (subscribe_proof_events, joined, h, k) refl
