-- ===== src/Client.antt =====
-- crates/client/src/lib.rs and error.rs: the client of the server's API. Requests and responses
-- are carried by other crates; a response that was received is a value here.
pub mod Responses
use zkboost.Prelude.{
  ℕ, List, [], ◌∷◌, map, Text, text, Result, ok, err, ◌>>=◌, Option, none, some, Bool, ◌&&◌, leb,
  ltb, ◌==◌, if◌then◌else◌,
}
use zkboost.ProofType.{ProofType, as_str, join}
use zkboost.Payload.{Bytes}
use zkboost.Transport.{Response, is_success}
use zkboost.Events.{Json, ProofEvent, ProofEventParseError, try_from_parts}

-- The errors of reqwest, serde_json, url and the event source are their texts.
pub data Error (json : Json) : Type 0 where
  request : Text → Error json
  -- status and body
  server_error : ℕ → Text → Error json
  not_found : Text → Error json
  bad_request : Text → Error json
  transport : Text → Error json
  sse : Text → Error json
  parse : Text → Error json
  event_parse : ProofEventParseError json → Error json
  url : Text → Error json

-- What the event source yields.
pub data SseEvent : Type 0 where
  opened : SseEvent
  -- the name and the data of an event
  message : Text → Text → SseEvent

-- The value of the parameter `proof_types` in `request_proof`.
unfoldable pub proof_types_value : List ProofType → Text
unfolding join
proof_types_value proof_types = join (text ",") (map as_str proof_types)

-- `json_message` is the text under "message" in a JSON body, if there is one.
module _ (json : Json) (json_message : Bytes → Option Text) where
  abbrev pub unwrap_or : Option Text → Text → Text
  unwrap_or (some msg) body = msg
  unwrap_or none body = body

  abbrev pub status_error : ℕ → Text → Error json
  status_error status msg =
      if status == 404
      then not_found msg
      else if status == 400
      then bad_request msg
      else server_error status msg

  unfoldable pub error_for_status : Response → Result (Error json) Response
  error_for_status response =
      if is_success response.status then ok response else (elim response.body [
        | err e ↦ err (transport e)
        | ok raw_body ↦
            err (status_error response.status (unwrap_or (json_message raw_body) raw_body))
      ])

  -- The end of `get_proof`, where the response has come.
  unfoldable pub get_proof : Response → Result (Error json) Bytes
  unfolding error_for_status
  get_proof sent = do
    response ← error_for_status sent
    elim response.body [ ok bytes ↦ ok bytes | err e ↦ err (request e) ]

  -- `handle_json_response`, with the reading of the JSON.
  unfoldable pub handle_json_response :
      {T : Type 0} → (Bytes → Result Text T) → Response → Result (Error json) T
  unfolding error_for_status
  handle_json_response read sent = do
    response ← error_for_status sent
    elim response.body [
      | err e ↦ err (request e)
      | ok bytes ↦ (elim (read bytes) [ ok value ↦ ok value | err e ↦ err (request e) ])
    ]

module _ (json : Json) where
  abbrev after :
      ProofEvent → List ProofEvent × Option (Error json) → List ProofEvent × Option (Error json)
  after event (events, e) = (event ∷ events, e)

  -- The body of the stream of `subscribe_proof_events`: what it yields for what the event source
  -- yields, and the error that ends it.
  unfoldable pub proof_events : List (Result Text SseEvent) → List ProofEvent × Option (Error json)
  proof_events [] = ([], none)
  proof_events (ok opened ∷ rest) = proof_events rest
  proof_events (ok (message name content) ∷ rest) =
      let later = proof_events rest in
      elim (try_from_parts json name content) [
        | ok event ↦ after event later
        | err e ↦ ([], some (event_parse e))
      ]
  proof_events (err e ∷ rest) = ([], some (sse e))
