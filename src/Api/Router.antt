-- ===== src/Api/Router.antt =====
-- crates/server/src/http.rs, http/v1.rs and http/dashboard.rs: the shared state of the handlers, the
-- routes, the extraction of queries, paths and bodies, and the responses. The layers that trace and
-- measure are left out, and a stream of events is the list of its events.
use zkboost.Prelude.{
  ℕ, List, [], ◌∷◌, ◌++◌, Text, text, Bool, true, false, Result, ok, err, ◌>>=◌, ok_or, none, some,
  if◌then◌else◌,
}
use zkboost.ProofType.{ProofType, from_str, show_parse_error, ProofTypeParseError}
use zkboost.ProofType.Query.{deserialize}
use zkboost.Payload.{Bytes}
use zkboost.External.{External}
use zkboost.Transport.{Response}
use zkboost.Proof.{Key}
use zkboost.Zkvm.{Backends}
use zkboost.Http.{ErrorResponse}
use zkboost.Api.{
  ProofRequestQuery, ProofEventQuery, ProofVerificationQuery, Method, get, post, head, Segment,
  literal, capture, Wire,
}

-- The handlers of the routes.
pub data Endpoint : Type 0 where
  post_requests get_requests get_proofs post_verifications get_types : Endpoint
  health metrics dashboard dashboard_state dashboard_events : Endpoint

abbrev pub Routes : Type 0
Routes = List (List Segment × List (Method × Endpoint))

-- A route under `/v1`.
abbrev v1 : List Segment → List Segment
v1 template = literal (text "v1") ∷ template

abbrev pub requests_route : List Segment
requests_route = v1 (literal (text "execution_proof_requests") ∷ [])

abbrev pub proofs_route : List Segment
proofs_route = v1 (
    literal (text "execution_proofs")
    ∷ capture (text "new_payload_request_root")
    ∷ capture (text "proof_type")
    ∷ [])

abbrev pub verifications_route : List Segment
verifications_route = v1 (literal (text "execution_proof_verifications") ∷ [])

abbrev pub api_routes : Routes
api_routes =
    (requests_route, (post, post_requests) ∷ (get, get_requests) ∷ [])
    ∷ (proofs_route, (get, get_proofs) ∷ [])
    ∷ (verifications_route, (post, post_verifications) ∷ [])
    ∷ (v1 (literal (text "proof_types") ∷ []), (get, get_types) ∷ [])
    ∷ []

abbrev pub dashboard_routes : Routes
dashboard_routes =
    (literal (text "dashboard") ∷ [], (get, dashboard) ∷ [])
    ∷ (literal (text "dashboard") ∷ literal (text "state") ∷ [], (get, dashboard_state) ∷ [])
    ∷ (literal (text "dashboard") ∷ literal (text "events") ∷ [], (get, dashboard_events) ∷ [])
    ∷ []

-- The routes of `router`, for a state with or without a dashboard.
unfoldable pub routes : Bool → Routes
routes has_dashboard =
    api_routes
    ++ ((literal (text "health") ∷ [], (get, health) ∷ [])
        ∷ (literal (text "metrics") ∷ [], (get, metrics) ∷ [])
        ∷ (if has_dashboard then dashboard_routes else []))

-- What a request leads to: an endpoint with the values of the route's names, a route without the
-- method, or the fallback.
pub data Target : Type 0 where
  endpoint : Endpoint → List Text → Target
  method_not_allowed : Target
  fallback : Target

-- Whether a route's method serves a request's: `get` also serves HEAD.
abbrev pub is_method : Method → Method → Bool
is_method get get = true
is_method get head = true
is_method post post = true
is_method _ _ = false

abbrev pub allowed : Method → List (Method × Endpoint) → List Text → Target
allowed m [] values = method_not_allowed
allowed m ((n, e) ∷ methods) values =
    let rest = allowed m methods values in if is_method n m then endpoint e values else rest

-- What a response carries: a body, or the names and data of an event stream.
pub data Answer : Type 0 where
  plain : Response → Answer
  stream : List (Text × Text) → Answer

module _ {x : External} {b : Backends x} (wire : Wire b) where
  unfoldable pub target : Routes → Method → Text → Target
  target [] m path = fallback
  target ((template, methods) ∷ rest) m path =
      let later = target rest m path in
      elim (wire.matches template path) [ some values ↦ allowed m methods values | none ↦ later ]

  -- The response of a handler: a body with the status 200, or `ErrorResponse::into_response`.
  abbrev pub result_response {ℓ} : {A : Type ℓ} → (A → Bytes) → Result ErrorResponse A → Response
  result_response write (ok value) = record { status = 200; body = ok (write value) }
  result_response write (err e) = record { status = e.code; body = ok (wire.write_error e) }

  abbrev pub error_answer : ErrorResponse → Answer
  error_answer e = plain (record { status = e.code; body = ok (wire.write_error e) })

  abbrev pub ok_answer : Bytes → Answer
  ok_answer body = plain (record { status = 200; body = ok body })

  -- `Query`, for the queries of the three handlers that have one.
  abbrev rejected {ℓ} : {A : Type ℓ} → ℕ → Result Text A → Result ErrorResponse A
  rejected status (ok value) = ok value
  rejected status (err message) = err (record { code = status; message = message })

  abbrev pub proof_type_of : Result ProofTypeParseError ProofType → Result Text ProofType
  proof_type_of (ok p) = ok p
  proof_type_of (err e) = err (show_parse_error e)

  abbrev pub proof_types_of :
      Result ProofTypeParseError (List ProofType) → Result Text (List ProofType)
  proof_types_of (ok ps) = ok ps
  proof_types_of (err e) = err (show_parse_error e)

  -- Of several errors in a query, serde may report another one first.
  abbrev required : Text → List (Text × Text) → Result Text Text
  required name pairs = do found ← wire.field name pairs; ok_or found (wire.missing_field name)

  unfoldable pub proof_request_query : List (Text × Text) → Result ErrorResponse ProofRequestQuery
  proof_request_query pairs = rejected wire.query_status (do
    value ← required (text "proof_types") pairs
    proof_types ← proof_types_of (deserialize value)
    ok (record { proof_types = proof_types }))

  unfoldable pub proof_event_query : List (Text × Text) → Result ErrorResponse ProofEventQuery
  proof_event_query pairs = rejected wire.query_status (do
    found ← wire.field (text "new_payload_request_root") pairs
    elim found [
      | none ↦ ok (record { new_payload_request_root = none })
      | some value ↦ (do
        root ← wire.parse_hash value
        ok (record { new_payload_request_root = some root }))
    ])

  unfoldable pub proof_verification_query :
      List (Text × Text) → Result ErrorResponse ProofVerificationQuery
  proof_verification_query pairs = rejected wire.query_status (do
    root_value ← required (text "new_payload_request_root") pairs
    root ← wire.parse_hash root_value
    type_value ← required (text "proof_type") pairs
    proof_type ← proof_type_of (from_str type_value)
    ok (record { new_payload_request_root = root; proof_type = proof_type }))

  -- `Path` of a root and a proof type.
  unfoldable pub proof_path : List Text → Result ErrorResponse Key
  proof_path (root_value ∷ type_value ∷ []) = rejected wire.path_status (do
    root ← wire.parse_hash root_value
    proof_type ← proof_type_of (from_str type_value)
    ok (root, proof_type))
  proof_path _ = err (record { code = 500; message = text "wrong number of path arguments" })
