-- ===== src/Api/EndToEnd.antt =====
-- crates/client/src/lib.rs, crates/server/src/http.rs: what the client's methods return where the
-- server's router answers their requests.
use zkboost.Prelude.{
  ◌<◌, ◌≡◌, refl, ap, ◌∙◌, List, [], ◌∷◌, length, leb, map, Text, text, true, Result, ok, err,
  ◌>>=◌, Option, none, some, is_some,
}
use zkboost.ProofType.{ProofType, as_str}
use zkboost.Client.Responses.{sent_event, proof_events-sent}
use zkboost.Payload.{Hash256, Bytes, NewPayloadRequest}
use zkboost.Events.{Json, ProofEvent, to_parts}
use zkboost.External.{External}
use zkboost.Lru.{LruCache}
use zkboost.Transport.{Response}
use zkboost.Proof.{Key, ProofService}
use zkboost.Proof.Service.{handle_worker_output}
use zkboost.Worker.{WorkerOutput, proof_ok}
use zkboost.Http.Reads.{get_execution_proofs-handle_worker_output}
use zkboost.Zkvm.{Backends}
use zkboost.Dashboard.{HistoricalBlock}
use zkboost.Http.Refusals.{
  post_requests-IsRefusal, post_verifications-IsRefusal, get_proofs-IsRefusal,
}
use zkboost.Api.Queries.{
  proof_event_query-show_hash, proof_request_query-proof_types_value,
  proof_verification_query-written, proof_path-written,
}
use zkboost.Http.{
  get_execution_proof_requests, Ssz, post_execution_proof_requests,
  post_execution_proof_verifications, get_execution_proofs,
}
use zkboost.Client.{SseEvent, opened, message, proof_events, proof_types_value}
use zkboost.Api.{JoinsPaths, Wire, Lawful, Url, Request}
use zkboost.Api.Router.{result_response, plain, stream}
use zkboost.Api.Serve.{
  serve_get_requests, AppState, Pages, Reply, router, handle_target, handle, serve_post_requests,
  serve_get_proofs, serve_post_verifications, max_body,
}
use zkboost.Api.Requests.{
  subscribe_proof_events, subscribe_proof_events-source, request_proof, get_proof, verify_proof,
  post_bytes, get_url, append_pair, request_proof-handle_json_response, get_proof-sent,
  verify_proof-handle_json_response,
}
use zkboost.Api.Routes.{
  proof_requests_path, target_get_requests, proof_url_path, join-requests, join-verifications,
  join-proof_url_path, target_post_requests, target_get_proofs, target_post_verifications,
}
use zkboost.Api.Answers.{
  client_result, handle_json_response-result_response, get_proof-result_response,
}

module _ (x : External) (b : Backends x) (proofs : LruCache Key Bytes)
    (blocks : LruCache Hash256 (HistoricalBlock x.Seconds)) (wire : Wire b) (lawful : Lawful wire)
    (json : Json) (ssz : Ssz x) (pages : Pages x b proofs blocks)
    (as_ssz_bytes : NewPayloadRequest x.ExecutionRequests → Bytes) (join : Text → Result Text Url)
    (joins : JoinsPaths join) (state : AppState x b proofs blocks) where
  abbrev response_of : Option (Reply x b proofs blocks) → Result Text Response
  response_of none = err (text "connection closed")
  response_of (some r) = elim r.answer [
    | plain response ↦ ok response
    | stream events ↦ err (text "event stream")
  ]

  -- The server's response to a request, where the connection carries both.
  abbrev pub over : Request → Result Text Response
  over request = response_of (router x b proofs blocks wire json ssz pages state request)

  -- Where the server's router answers the client, and a body of at most 2^30 bytes is sent:
  -- `request_proof` returns the root that the handler returns, or the handler's error by its status
  -- and with its message.
  pub request_proof-router :
      (request : NewPayloadRequest x.ExecutionRequests) (ps : List ProofType)
      → leb (length (as_ssz_bytes request)) max_body ≡ true
      → request_proof x wire json join as_ssz_bytes over request ps
        ≡ client_result wire json (
            (post_execution_proof_requests b state.zkvms ssz ps
              (as_ssz_bytes request)
              state.send_error).0
            >>= λ root. ok (record { new_payload_request_root = root }))
  unfolding router handle_target handle serve_post_requests
  request_proof-router request ps small =
      let sent : over (
            post_bytes
              (append_pair (text "proof_types") (proof_types_value ps)
                (record { path = text "/v1/execution_proof_requests"; query = [] }))
              (as_ssz_bytes request))
          ≡ ok (
              result_response wire
                (λ root. wire.write_root (record { new_payload_request_root = root }))
                (post_execution_proof_requests b state.zkvms ssz ps (as_ssz_bytes request)
                  state.send_error).0) =
        rw
          (
            router,
            target_post_requests wire lawful (is_some state.dashboard),
            serve_post_requests,
            proof_request_query-proof_types_value wire lawful ps,
            small,
          )
          refl in
      request_proof-handle_json_response x wire json join as_ssz_bytes over _ _ request ps
        (join-requests wire lawful join joins) sent
      ∙ handle_json_response-result_response wire lawful json
          (λ root. wire.write_root (record { new_payload_request_root = root })) wire.read_root
          (λ root. record { new_payload_request_root = root }) _ (λ root. lawful.root_law _)
          (post_requests-IsRefusal b state.zkvms ssz ps (as_ssz_bytes request) state.send_error)

  -- Where the server's router answers the client, `get_proof` returns the cached proof, or the
  -- error that there is none.
  pub get_proof-router :
      (root : Hash256) (p : ProofType)
      → get_proof x wire json join as_ssz_bytes over root p
        ≡ client_result wire json (get_execution_proofs x proofs state.proof_cache root p)
  unfolding router handle_target handle serve_get_proofs
  get_proof-router root p =
      let sent : over (get_url (record { path = proof_url_path x root p; query = [] }))
          ≡ ok (
              result_response wire (λ proof. proof)
                (get_execution_proofs x proofs state.proof_cache root p)) =
        rw
          (
            router,
            target_get_proofs wire lawful (is_some state.dashboard) root p,
            serve_get_proofs,
            proof_path-written wire lawful root p,
          )
          refl in
      get_proof-sent x wire json join as_ssz_bytes over _ _ root p
        (join-proof_url_path wire lawful join joins root p) sent
      ∙ get_proof-result_response wire lawful json _
          (get_proofs-IsRefusal x proofs state.proof_cache root p)

  -- Where the server's router answers the client, and a proof of at most 2^30 bytes is sent:
  -- `verify_proof` returns the status that the handler returns, or the handler's error.
  pub verify_proof-router :
      (root : Hash256) (p : ProofType) (proof : Bytes)
      → leb (length proof) max_body ≡ true
      → verify_proof x wire json join as_ssz_bytes over root p proof
        ≡ client_result wire json (
            (post_execution_proof_verifications b state.zkvms root p proof).0 >>= λ status.
            ok (record { status = status }))
  unfolding router handle_target handle serve_post_verifications
  verify_proof-router root p proof small =
      let sent : over (
            post_bytes
              (append_pair (text "proof_type") (as_str p) (
                append_pair (text "new_payload_request_root") (x.show_hash root)
                  (record { path = text "/v1/execution_proof_verifications"; query = [] })))
              proof)
          ≡ ok (
              result_response wire (λ status. wire.write_status (record { status = status }))
                (post_execution_proof_verifications b state.zkvms root p proof).0) =
        rw
          (
            router,
            target_post_verifications wire lawful (is_some state.dashboard),
            serve_post_verifications,
            proof_verification_query-written wire lawful root p,
            small,
          )
          refl in
      verify_proof-handle_json_response x wire json join as_ssz_bytes over _ _ root p proof
        (join-verifications wire lawful join joins) sent
      ∙ handle_json_response-result_response wire lawful json
          (λ status. wire.write_status (record { status = status })) wire.read_status
          (λ status. record { status = status }) _ (λ status. lawful.status_law _)
          (post_verifications-IsRefusal b state.zkvms root p proof)

  -- An event of the server's stream, as the event source yields it.
  abbrev yielded : Text × Text → Result Text SseEvent
  yielded (name, content) = ok (message name content)

  -- The event source of a request: it opens, and yields the events of the server's stream.
  abbrev source_of : Option (Reply x b proofs blocks) → Result Text (List (Result Text SseEvent))
  source_of none = err (text "connection closed")
  source_of (some r) = elim r.answer [
    | plain response ↦ err (text "invalid content type")
    | stream events ↦ ok (ok opened ∷ map yielded events)
  ]

  abbrev pub source : Request → Result Text (List (Result Text SseEvent))
  source request = source_of (router x b proofs blocks wire json ssz pages state request)

  map-yielded :
      (events : List ProofEvent)
      → map yielded (map (to_parts json) events) ≡ map (sent_event json) events
  map-yielded [] = refl
  map-yielded (event ∷ events) = ap (◌∷◌ (sent_event json event)) (map-yielded events)

  -- Where the server's router answers the client, the client's stream for a root yields the events
  -- of the server's stream for the root, in their order and without an error.
  pub subscribe_proof_events-router :
      (root : Hash256)
      → subscribe_proof_events x wire json join as_ssz_bytes source (some root) ≡ (
        get_execution_proof_requests x proofs state.proof_cache (some root) state.proof_event_rx,
        none,
      )
  unfolding router handle_target handle serve_get_requests
  subscribe_proof_events-router root =
      let events =
        get_execution_proof_requests x proofs state.proof_cache (some root) state.proof_event_rx in
      let opens : source (
            get_url (
              append_pair (text "new_payload_request_root") (x.show_hash root)
                (record { path = proof_requests_path; query = [] })))
          ≡ ok (ok opened ∷ map yielded (map (to_parts json) events)) =
        rw
          (
            router,
            target_get_requests wire lawful (is_some state.dashboard),
            serve_get_requests,
            proof_event_query-show_hash wire lawful root,
          )
          refl in
      subscribe_proof_events-source x wire json join as_ssz_bytes source _ root _
        (join-requests wire lawful join joins) opens
      ∙ ap (λ e. proof_events json (ok opened ∷ e)) (map-yielded events)
      ∙ proof_events-sent json events

  -- Where the server's router answers the client: once the proof service has handled the output of a
  -- worker with a proof, and its cache has room for an entry, `get_proof` downloads that proof.
  pub get_proof-handle_worker_output :
      (s : ProofService x proofs) (output : WorkerOutput) (now : x.Seconds) (proof : Bytes)
      → output.proof_result ≡ proof_ok proof
      → 0 < proofs.cap s.proof_cache
      → state.proof_cache ≡ (handle_worker_output x proofs s output now).proof_cache
      → get_proof x wire json join as_ssz_bytes over output.new_payload_request_root
          output.proof_type
        ≡ ok proof
  get_proof-handle_worker_output s output now proof made room served =
      let root = output.new_payload_request_root in
      let found = get_execution_proofs-handle_worker_output x proofs s output now proof made room in
      get_proof-router root output.proof_type
      ∙ ap
          (λ cache.
            client_result wire json (get_execution_proofs x proofs cache root output.proof_type))
          served
      ∙ ap (client_result wire json) found
