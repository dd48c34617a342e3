-- ===== src/Events.antt =====
-- crates/types/src/lib.rs: the events that the server broadcasts about proofs, and their form on
-- the SSE stream. JSON is the work of `serde_json`, a parameter here.
use zkboost.Prelude.{◌≡◌, ◌++◌, Text, text, text_eq, Result, ok, err, ◌>>=◌, if◌then◌else◌}
use zkboost.ProofType.{ProofType}
use zkboost.Payload.{Hash256}

pub data FailureReason : Type 0 where
  witness_timeout proving_timeout proving_error internal_error : FailureReason

pub record ProofComplete : Type 0 where
  pub new_payload_request_root : Hash256
  pub proof_type : ProofType

pub record ProofFailure : Type 0 where
  pub new_payload_request_root : Hash256
  pub proof_type : ProofType
  pub reason : FailureReason
  pub error : Text

pub data ProofEvent : Type 0 where
  proof_complete : ProofComplete → ProofEvent
  proof_failure : ProofFailure → ProofEvent

-- The derived discriminant.
pub data ProofEventKind : Type 0 where
  proof_complete proof_failure : ProofEventKind

pub kind : ProofEvent → ProofEventKind
kind (ProofEvent.proof_complete inner) = ProofEventKind.proof_complete
kind (ProofEvent.proof_failure inner) = ProofEventKind.proof_failure

abbrev pub event_root : ProofEvent → Hash256
event_root (ProofEvent.proof_complete inner) = inner.new_payload_request_root
event_root (ProofEvent.proof_failure inner) = inner.new_payload_request_root

abbrev pub event_proof_type : ProofEvent → ProofType
event_proof_type (ProofEvent.proof_complete inner) = inner.proof_type
event_proof_type (ProofEvent.proof_failure inner) = inner.proof_type

pub event_name : ProofEvent → Text
event_name (ProofEvent.proof_complete inner) = text "proof_complete"
event_name (ProofEvent.proof_failure inner) = text "proof_failure"

-- What the source uses of `serde_json`: writing and reading the two payloads, where reading gives
-- back what was written.
pub record Json : Type 1 where
  pub Error : Type 0
  pub complete_to_string : ProofComplete → Text
  pub failure_to_string : ProofFailure → Text
  pub complete_from_str : Text → Result Error ProofComplete
  pub failure_from_str : Text → Result Error ProofFailure
  pub complete_law : (c : ProofComplete) → complete_from_str (complete_to_string c) ≡ ok c
  pub failure_law : (f : ProofFailure) → failure_from_str (failure_to_string f) ≡ ok f

module _ (json : Json) where
  open json use {complete_to_string, failure_to_string, complete_from_str, failure_from_str}

  pub data ProofEventParseError : Type 0 where
    json_error : json.Error → ProofEventParseError
    unknown_event : Text → ProofEventParseError

  -- `Display`; `show` is that of `serde_json`'s error.
  abbrev pub show_event_parse_error : (json.Error → Text) → ProofEventParseError → Text
  show_event_parse_error show (json_error e) = text "JSON parse error: " ++ show e
  show_event_parse_error show (unknown_event name) = text "unknown SSE event type: " ++ name

  abbrev lift {ℓ} : {A : Type ℓ} → Result json.Error A → Result ProofEventParseError A
  lift (ok a) = ok a
  lift (err e) = err (json_error e)

  pub to_parts : ProofEvent → Text × Text
  unfolding event_name
  to_parts (ProofEvent.proof_complete inner) =
      (event_name (ProofEvent.proof_complete inner), complete_to_string inner)
  to_parts (ProofEvent.proof_failure inner) =
      (event_name (ProofEvent.proof_failure inner), failure_to_string inner)

  -- The `match` on the name.
  pub try_from_parts : Text → Text → Result ProofEventParseError ProofEvent
  try_from_parts name content =
      if text_eq name (text "proof_complete")
      then (do inner ← lift (complete_from_str content); ok (ProofEvent.proof_complete inner))
      else if text_eq name (text "proof_failure")
      then (do inner ← lift (failure_from_str content); ok (ProofEvent.proof_failure inner))
      else err (unknown_event name)

  -- An event that is written to its name and its JSON text is read back unchanged, if JSON gives
  -- back what it was given.
  pub try_from_parts-to_parts :
      (event : ProofEvent) → try_from_parts (to_parts event).0 (to_parts event).1 ≡ ok event
  unfolding to_parts try_from_parts
  try_from_parts-to_parts (ProofEvent.proof_complete inner) = rw (json.complete_law inner)
  try_from_parts-to_parts (ProofEvent.proof_failure inner) = rw (json.failure_law inner)
