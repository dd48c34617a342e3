-- ===== src/Api/Answers.antt =====
-- crates/client/src/lib.rs, crates/server/src/http/v1.rs: what the client makes of the response that
-- the server makes of a handler's result.
use zkboost.Prelude.{◌≡◌, refl, Text, false, Result, ok, err, ◌>>=◌}
use zkboost.Payload.{Bytes}
use zkboost.Events.{Json}
use zkboost.External.{External}
use zkboost.Transport.{is_success}
use zkboost.Zkvm.{Backends}
use zkboost.Http.Refusals.{IsRefusal}
use zkboost.Http.{ErrorResponse}
use zkboost.Client
use zkboost.Client.{
  SseEvent, opened, message, proof_events, Error, status_error, error_for_status,
  handle_json_response, proof_types_value,
}
use zkboost.Api.{Wire, Lawful}
use zkboost.Api.Router.{result_response}

module _ {x : External} {b : Backends x} (wire : Wire b) (json : Json) where
  -- What the client makes of the result of a handler.
  abbrev pub client_result {ℓ} : {A : Type ℓ} → Result ErrorResponse A → Result (Error json) A
  client_result (ok value) = ok value
  client_result (err e) = err (status_error json wire.json_message e.code e.message)

module _ {x : External} {b : Backends x} (wire : Wire b) (lawful : Lawful wire) (json : Json) where
  pub error_for_status_refused :
      (e : ErrorResponse)
      → is_success e.code ≡ false
      → error_for_status json wire.json_message
          (record { status = e.code; body = ok (wire.write_error e) })
        ≡ err (status_error json wire.json_message e.code e.message)
  unfolding error_for_status
  error_for_status_refused e refused = rw (error_for_status, refused, lawful.message_law e) refl

  -- Reading gives back the value or the error of the handler.
  pub handle_json_response-result_response :
      {A T : Type 0} (write : A → Bytes) (read : Bytes → Result Text T) (value : A → T)
      (m : Result ErrorResponse A)
      → ((a : A) → read (write a) ≡ ok (value a))
      → IsRefusal m
      → handle_json_response json wire.json_message read (result_response wire write m)
        ≡ client_result wire json (m >>= λ a. ok (value a))
  unfolding handle_json_response error_for_status
  handle_json_response-result_response write read value (ok a) law refusal =
      rw (handle_json_response, law a) refl
  handle_json_response-result_response write read value (err e) law refusal =
      rw (handle_json_response, error_for_status_refused e (refusal e refl)) refl

  pub get_proof-result_response :
      (m : Result ErrorResponse Bytes)
      → IsRefusal m
      → Client.get_proof json wire.json_message (result_response wire (λ proof. proof) m)
        ≡ client_result wire json m
  unfolding Client.get_proof error_for_status
  get_proof-result_response (ok proof) refusal = refl
  get_proof-result_response (err e) refusal =
      rw (Client.get_proof, error_for_status_refused e (refusal e refl)) refl
