-- ===== src/Client/Responses.antt =====
-- crates/client/src/lib.rs: what the client makes of the server's responses.
use zkboost.Prelude.{◌≡◌, refl, ap, List, [], ◌∷◌, map, Text, Result, ok, err, Option, none, some}
use zkboost.ProofType.{ProofType}
use zkboost.ProofType.Query.{serialize, deserialize}
use zkboost.ProofType.Query.RoundTrip.{deserialize-serialize}
use zkboost.Payload.{Bytes}
use zkboost.Events.{Json, ProofEvent, to_parts, try_from_parts-to_parts}
use zkboost.Transport.{Response}
use zkboost.Http
use zkboost.Http.{ErrorResponse}
use zkboost.Client.{
  not_found, bad_request, server_error, SseEvent, message, opened, proof_types_value,
  error_for_status, proof_events, after,
}

-- The server reads the proof types that the client was asked for.
pub deserialize-proof_types_value :
    (ps : List ProofType) → deserialize (proof_types_value ps) ≡ ok ps
unfolding proof_types_value serialize
deserialize-proof_types_value ps = deserialize-serialize ps

module _ (json : Json) where
  -- The server's event as the event source yields it.
  abbrev pub sent_event : ProofEvent → Result Text SseEvent
  sent_event event = ok (message (to_parts json event).0 (to_parts json event).1)

  proof_events-map :
      (events : List ProofEvent) → proof_events json (map sent_event events) ≡ (events, none)
  unfolding proof_events
  proof_events-map [] = refl
  proof_events-map (event ∷ events) =
      rw (proof_events, try_from_parts-to_parts json event)
        (ap (after json event) (proof_events-map events))

  -- The client yields the events that the server sent, in their order and without an error, if the
  -- stream opens and is not cut, and JSON gives back what it was given.
  pub proof_events-sent :
      (events : List ProofEvent)
      → proof_events json (ok opened ∷ map sent_event events) ≡ (events, none)
  unfolding proof_events
  proof_events-sent events = proof_events-map events

  -- The response of a handler that returns an error, its body written by `write`.
  abbrev pub error_response : (ErrorResponse → Bytes) → ErrorResponse → Response
  error_response write e = record { status = e.code; body = ok (write e) }

  -- The errors of the server reach the caller of the client by kind and with their message, if the
  -- message can be read from the body.
  pub error_for_status-error_response :
      (json_message : Bytes → Option Text)
      → (write : ErrorResponse → Bytes)
      → ((e : ErrorResponse) → json_message (write e) ≡ some e.message)
      → (msg : Text)
      → (error_for_status json json_message (error_response write (Http.not_found msg))
          ≡ err (not_found msg))
        × (error_for_status json json_message (error_response write (Http.bad_request msg))
            ≡ err (bad_request msg))
        × (error_for_status json json_message
              (error_response write (Http.internal_server_error msg))
            ≡ err (server_error 500 msg))
  unfolding error_for_status
  error_for_status-error_response json_message write law msg = (
    rw (error_for_status, law (Http.not_found msg)) refl,
    rw (error_for_status, law (Http.bad_request msg)) refl,
    rw (error_for_status, law (Http.internal_server_error msg)) refl,
  )
