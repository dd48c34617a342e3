-- ===== src/Api/Serve.antt =====
-- crates/server/src/http.rs: the shared state, and what `router` does with a request: the handler of
-- its route, with the messages to the proof service and the calls of `record_verify`.
use zkboost.Prelude.{
  ℕ, ◌^◌, leb, length, List, [], ◌∷◌, map, Text, text, Bool, ok, err, Option, none, some, is_some,
  if◌then◌else◌,
}
use zkboost.ProofType.{ProofType}
use zkboost.Payload.{Hash256, Bytes}
use zkboost.Events.{Json, ProofEvent, to_parts}
use zkboost.External.{External}
use zkboost.Lru.{LruCache}
use zkboost.Proof.{Key, ProofServiceMessage}
use zkboost.Zkvm.{Backends}
use zkboost.Dashboard.{HistoricalBlock, DashboardEvent}
use zkboost.Dashboard.Service.{DashboardState, DashboardStateResponse, to_response}
use zkboost.Http.{
  not_found, Ssz, Zkvms, post_execution_proof_requests, post_execution_proof_verifications,
  get_proof_types, get_execution_proofs, get_execution_proof_requests,
}
use zkboost.Api.{Request, Method, head, Wire}
use zkboost.Api.Router.{
  Endpoint, post_requests, get_requests, get_proofs, post_verifications, get_types, health, metrics,
  dashboard, dashboard_state, dashboard_events, Target, endpoint, method_not_allowed, fallback,
  Answer, plain, stream, target, routes, error_answer, ok_answer, result_response,
  proof_request_query, proof_event_query, proof_verification_query, proof_path,
}

-- `DashboardEvent::to_parts`, where `write` is `serde_json::to_string`.
abbrev pub dashboard_event_name : {Seconds : Type 0} → DashboardEvent Seconds → Text
dashboard_event_name (DashboardEvent.request_proof number hash time gas started ps) =
    text "requestProof"
dashboard_event_name (DashboardEvent.fetch_witness_start hash started) = text "fetchWitnessStart"
dashboard_event_name (DashboardEvent.fetch_witness_end hash ended size success) =
    text "fetchWitnessEnd"
dashboard_event_name (DashboardEvent.prove_start hash p started) = text "proveStart"
dashboard_event_name (DashboardEvent.prove_end hash p ended result error size) = text "proveEnd"

abbrev pub dashboard_event_parts :
    {Seconds : Type 0} → (DashboardEvent Seconds → Text) → DashboardEvent Seconds → Text × Text
dashboard_event_parts write event = (dashboard_event_name event, write event)

-- What a receiver of a broadcast channel gets, without what it lagged behind.
abbrev pub delivered {ℓ} : {A : Type ℓ} → List (Option A) → List A
delivered [] = []
delivered (none ∷ rest) = delivered rest
delivered (some event ∷ rest) = event ∷ delivered rest

-- `DefaultBodyLimit::max(1 << 30)`.
abbrev pub max_body : ℕ
max_body = 2 ^ 30

module _ (x : External) (b : Backends x) (proofs : LruCache Key Bytes)
    (blocks : LruCache Hash256 (HistoricalBlock x.Seconds)) where
  -- `AppState`. The receivers are what they will receive; `send_error` is the error of the channel
  -- to the proof service, if it is closed.
  pub record AppState : Type 0 where
    pub zkvms : Zkvms b
    pub proof_cache : proofs.Cache
    pub metrics : Bytes
    pub dashboard : Option (DashboardState x blocks)
    pub send_error : Option Text
    pub proof_event_rx : List (Option ProofEvent)
    pub dashboard_event_rx : List (Option (DashboardEvent x.Seconds))

  -- The page, and the JSON of the dashboard.
  pub record Pages : Type 0 where
    pub dashboard_html : Bytes
    pub write_state : DashboardStateResponse x blocks → Bytes
    pub write_event : DashboardEvent x.Seconds → Text

  -- An answer, with the message that was sent and the calls of `record_verify`.
  pub record Reply : Type 0 where
    pub answer : Answer
    pub sent : Option (ProofServiceMessage x)
    pub verifies : List (ProofType × Bool)

  abbrev pub reply : Answer → Reply
  reply answer = record { answer = answer; sent = none; verifies = [] }

  module _ (wire : Wire b) (json : Json) (ssz : Ssz x) (pages : Pages) where
    abbrev with_body : Bytes → (Bytes → Reply) → Reply
    with_body body handler =
        if leb (length body) max_body
        then handler body
        else reply (plain (record { status = 413; body = ok (text "length limit exceeded") }))

    unfoldable pub serve_post_requests : AppState → Request → Reply
    serve_post_requests state request = elim (proof_request_query wire request.url.query) [
      | err e ↦ reply (error_answer wire e)
      | ok params ↦ with_body request.body (λ body.
          let (result, message) =
            post_execution_proof_requests b state.zkvms ssz params.proof_types body
              state.send_error in
          record {
            answer = plain (
                result_response wire
                  (λ root. wire.write_root (record { new_payload_request_root = root })) result);
            sent = message;
            verifies = [];
          })
    ]

    unfoldable pub serve_get_requests : AppState → Request → Reply
    serve_get_requests state request = elim (proof_event_query wire request.url.query) [
      | err e ↦ reply (error_answer wire e)
      | ok params ↦ reply (
          stream (
            map (to_parts json) (
              get_execution_proof_requests x proofs state.proof_cache
                params.new_payload_request_root state.proof_event_rx)))
    ]

    unfoldable pub serve_get_proofs : AppState → List Text → Reply
    serve_get_proofs state values = elim (proof_path wire values) [
      | err e ↦ reply (error_answer wire e)
      | ok (root, proof_type) ↦ reply (
          plain (
            result_response wire (λ proof. proof)
              (get_execution_proofs x proofs state.proof_cache root proof_type)))
    ]

    unfoldable pub serve_post_verifications : AppState → Request → Reply
    serve_post_verifications state request =
        elim (proof_verification_query wire request.url.query) [
          | err e ↦ reply (error_answer wire e)
          | ok params ↦ with_body request.body (λ body.
              let (result, verify) =
                post_execution_proof_verifications b state.zkvms params.new_payload_request_root
                  params.proof_type body in
              record {
                answer = plain (
                    result_response wire (λ status. wire.write_status (record { status = status }))
                      result);
                sent = none;
                verifies = verify ∷ [];
              })
        ]

    unfoldable pub serve_get_types : AppState → Reply
    serve_get_types state =
        reply (
          ok_answer wire
            (wire.write_types (record { proof_types = get_proof_types b state.zkvms })))

    abbrev pub get_metrics : AppState → Reply
    get_metrics state = reply (ok_answer wire state.metrics)

    abbrev pub fallback_handler : Reply
    fallback_handler = reply (error_answer wire (not_found (text "route not found")))

    abbrev pub get_dashboard : Reply
    get_dashboard = reply (ok_answer wire pages.dashboard_html)

    -- It expects that the dashboard is enabled; none is a panic.
    unfoldable pub get_dashboard_state : AppState → Option Reply
    get_dashboard_state state = elim state.dashboard [
      | some d ↦ some (reply (ok_answer wire (pages.write_state (to_response x blocks d))))
      | none ↦ none
    ]

    abbrev pub get_dashboard_events : AppState → Reply
    get_dashboard_events state = reply (
        stream (map (dashboard_event_parts pages.write_event) (delivered state.dashboard_event_rx)))

    -- The handler of an endpoint.
    unfoldable pub handle : AppState → Request → Endpoint → List Text → Option Reply
    unfolding get_dashboard_state
    handle state request post_requests values = some (serve_post_requests state request)
    handle state request get_requests values = some (serve_get_requests state request)
    handle state request get_proofs values = some (serve_get_proofs state values)
    handle state request post_verifications values = some (serve_post_verifications state request)
    handle state request get_types values = some (serve_get_types state)
    handle state request health values = some (reply (ok_answer wire []))
    handle state request metrics values = some (get_metrics state)
    handle state request dashboard values = some get_dashboard
    handle state request dashboard_state values = get_dashboard_state state
    handle state request dashboard_events values = some (get_dashboard_events state)

    unfoldable pub handle_target : AppState → Request → Target → Option Reply
    unfolding handle
    handle_target state request (endpoint e values) = handle state request e values
    handle_target state request method_not_allowed =
        some (reply (plain (record { status = 405; body = ok [] })))
    handle_target state request fallback = some fallback_handler

    -- The response to HEAD has no body.
    abbrev pub without_body : Answer → Answer
    without_body (plain response) = plain (record response { body = ok [] })
    without_body (stream events) = plain (record { status = 200; body = ok [] })

    abbrev pub answer_method : Method → Option Reply → Option Reply
    answer_method head (some r) = some (record r { answer = without_body r.answer })
    answer_method head none = none
    answer_method _ r = r

    -- The router that `router` builds, on a request.
    unfoldable pub router : AppState → Request → Option Reply
    unfolding handle_target
    router state request = answer_method request.method (
        handle_target state request
          (target wire (routes (is_some state.dashboard)) request.method request.url.path))
