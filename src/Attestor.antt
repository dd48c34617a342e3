-- ===== src/Attestor.antt =====
-- crates/mock-zkattestor/src/main.rs: the loop of `process_block` over the events of a request,
-- and the download of a proof.
pub mod Done
use zkboost.Prelude.{
  List, [], ◌∷◌, Text, text, Result, ok, err, ◌>>=◌, ◌>>◌, ensure, is_empty, remove, extend, Option,
  none, some, if◌then◌else◌,
}
use zkboost.ProofType.{ProofType, proof_type_dec}
use zkboost.Payload.{Hash256, Bytes, NewPayloadRequest}
use zkboost.ClClient.{Beacon, BeaconBlock, new_payload_request_from_beacon_block}
use zkboost.Events.{ProofEvent, event_proof_type}
use zkboost.Http.{ProofStatus, is_valid}

-- "all proofs done", or "proof stream ended".
pub data Outcome : Type 0 where
  all_done stream_ended : Outcome

-- The proof types to download, one for each event of a complete proof.
abbrev download : ProofEvent → List ProofType → List ProofType
download (ProofEvent.proof_complete inner) rest = inner.proof_type ∷ rest
download (ProofEvent.proof_failure inner) rest = rest

-- The loop, over the events that the stream yields before it ends or fails: the outcome, and the
-- proof types whose proofs are downloaded and verified.
unfoldable pub process_events : List ProofType → List ProofEvent → Outcome × List ProofType
process_events remaining [] = (if is_empty remaining then all_done else stream_ended, [])
process_events remaining (event ∷ events) =
    let (outcome, downloads) =
      process_events (remove proof_type_dec (event_proof_type event) remaining) events in
    if is_empty remaining then (all_done, []) else (outcome, download event downloads)

-- The end of `process_block`.
abbrev finished : Outcome × List ProofType → Result Text (List ProofType)
finished (all_done, downloads) = ok downloads
finished (stream_ended, downloads) = err (text "proof stream ended")

-- `download_and_verify`, with what the two calls of the client return.
unfoldable pub download_and_verify :
    Result Text Bytes → (Bytes → Result Text ProofStatus) → Result Text (Unit {0})
download_and_verify get_proof verify_proof = do
  proof ← get_proof
  status ← verify_proof proof
  ensure (is_valid status) (text "invalid proof")

-- `process_block`, with what the two nodes return. A panic, on a block of a fork that is not
-- supported, is none; the result is the proof types whose proofs are downloaded and verified.
unfoldable pub process_block :
    {R : Type 0}
    → Beacon
    → List ProofType
    → (Hash256 → Result Text (BeaconBlock R))
    → (NewPayloadRequest R → List ProofType → Result Text Hash256)
    → (Hash256 → List ProofEvent)
    → Hash256
    → Option (Result Text (List ProofType))
unfolding process_events
process_block beacon proof_types get_beacon_block request_proof proof_events block_root =
    elim (get_beacon_block block_root) [
      | err e ↦ some (err e)
      | ok beacon_block ↦ elim (new_payload_request_from_beacon_block beacon beacon_block) [
        | none ↦ none
        | some made ↦ some (do
          new_payload_request ← made
          root ← request_proof new_payload_request proof_types
          finished (process_events (extend proof_type_dec [] proof_types) (proof_events root)))
      ]
    ]
