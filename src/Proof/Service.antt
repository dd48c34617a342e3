-- ===== src/Proof/Service.antt =====
-- crates/server/src/proof.rs: the handlers of the proof service.
use zkboost.Prelude.{
  ℕ, List, [], ◌∷◌, ◌++◌, Text, text, ok, err, ◌||◌, none, some, if◌then◌else◌, get, insert_entry,
  remove_entry, contains, insert, remove, extend, is_empty, is_some, length, ℕ_discrete,
}
use zkboost.ProofType.{ProofType, proof_type_dec, as_str}
use zkboost.Payload.{Hash256, Bytes, NewPayloadRequest, block_hash}
use zkboost.Events.{
  ProofEvent, FailureReason, witness_timeout, proving_timeout, proving_error, internal_error,
}
use zkboost.External.{External}
use zkboost.Lru.{LruCache}
use zkboost.Worker.{
  NewPayloadRequestWithWitness, with_witness, WorkerOutput, ProofResult, proof_ok, proof_err,
  timeout,
}
use zkboost.Dashboard.{request_proof_message, prove_end_message}
use zkboost.Proof.{
  Key, key_dec, SendReply, sent, full, closed, ProofServiceMessage, PendingRequest, Replies,
  ProofService, request_proof,
}

pub result_label : FailureReason → Text
result_label witness_timeout = text "timeout"
result_label proving_timeout = text "timeout"
result_label proving_error = text "error"
result_label internal_error = text "error"

module _ (x : External) (proofs : LruCache Key Bytes) where
  abbrev Service : Type 0
  Service = ProofService x proofs

  unfoldable pub fail_request : Service → Hash256 → ProofType → FailureReason → Text → ℕ → Service
  fail_request s root proof_type reason error duration = record s {
    requested = remove key_dec (root, proof_type) s.requested;
    events =
        ProofEvent.proof_failure (record {
          new_payload_request_root = root;
          proof_type = proof_type;
          reason = reason;
          error = error;
        })
        ∷ s.events;
    proves =
        record {
          proof_type = proof_type;
          result = result_label reason;
          duration = duration;
          proof_size = 0;
        }
        ∷ s.proves;
  }

  -- The loops that fail every proof type of a request.
  unfoldable pub fail_each : Service → Hash256 → List ProofType → FailureReason → Text → Service
  fail_each s root [] reason error = s
  fail_each s root (p ∷ ps) reason error =
      fail_each (fail_request s root p reason error 0) root ps reason error

  -- The `match` on the result of a worker.
  unfoldable pub finish : Service → Hash256 → ProofType → ProofResult → ℕ → Service
  finish s root proof_type (proof_ok proof) duration = record s {
    proof_cache = proofs.put s.proof_cache (root, proof_type) proof;
    events =
        ProofEvent.proof_complete
          (record { new_payload_request_root = root; proof_type = proof_type })
        ∷ s.events;
    proves =
        record {
          proof_type = proof_type;
          result = text "success";
          duration = duration;
          proof_size = length proof;
        }
        ∷ s.proves;
  }
  finish s root proof_type (proof_err error) duration =
      fail_request s root proof_type proving_error error duration
  finish s root proof_type timeout duration =
      fail_request s root proof_type proving_timeout
        (text "proving timed out after " ++ (x.show_seconds duration ++ text " seconds")) duration

  unfoldable pub handle_worker_output : Service → WorkerOutput → x.Seconds → Service
  handle_worker_output s output now =
      let root = output.new_payload_request_root in
      let removed : Service = record s {
        requested = remove key_dec (root, output.proof_type) s.requested;
      } in
      let finished = finish removed root output.proof_type output.proof_result output.duration in
      record finished {
        dashboard =
            prove_end_message output.block_hash output.proof_type output.proof_result now
            ∷ finished.dashboard;
      }

  -- The closure of `proof_types.retain`, over the proof types in their order: the ones that are
  -- kept, and the set `requested` after it.
  unfoldable pub retain_new :
      proofs.Cache → Hash256 → List ProofType → List Key → List ProofType × List Key
  retain_new cache root [] requested = ([], requested)
  retain_new cache root (p ∷ ps) requested =
      let cached = proofs.contains cache (root, p) in
      let already = contains key_dec requested (root, p) in
      let inserted = if cached then requested else insert key_dec (root, p) requested in
      let (kept, requested') = retain_new cache root ps inserted in
      (if cached || already then kept else p ∷ kept, requested')

  -- `pending.entry(..).and_modify(..).or_insert_with(..)`, and the message to the dashboard.
  unfoldable pub add_pending :
      Service
      → Hash256
      → NewPayloadRequest x.ExecutionRequests
      → List ProofType
      → x.Seconds
      → Service
  add_pending s root request proof_types now =
      let hash = block_hash request in
      let entry : PendingRequest x = elim (get ℕ_discrete s.pending hash) [
        | some r ↦ record r { proof_types = extend proof_type_dec r.proof_types proof_types }
        | none ↦ record {
          new_payload_request = request;
          new_payload_request_root = root;
          proof_types = proof_types;
        }
      ] in
      record s {
        pending = insert_entry ℕ_discrete hash entry s.pending;
        dashboard = request_proof_message request proof_types now ∷ s.dashboard;
      }

  -- The send of `FetchWitness` for a block that is not pending yet.
  unfoldable pub ask :
      Service
      → Hash256
      → NewPayloadRequest x.ExecutionRequests
      → List ProofType
      → Replies x
      → Service
  ask s root request proof_types replies = elim replies.fetch_error [
    | some error ↦
        fail_each s root proof_types internal_error (text "witness service unavailable: " ++ error)
    | none ↦
        add_pending (record s { fetches = block_hash request ∷ s.fetches }) root request proof_types
          replies.now
  ]

  -- The rest of the arm of `RequestProof`, for the proof types that are kept: the witness is
  -- asked for unless the block is pending, and the request becomes pending.
  unfoldable pub enqueue :
      Service
      → Hash256
      → NewPayloadRequest x.ExecutionRequests
      → List ProofType
      → Replies x
      → Service
  enqueue s root request proof_types replies =
      if is_some (get ℕ_discrete s.pending (block_hash request))
      then add_pending s root request proof_types replies.now
      else ask s root request proof_types replies

  unfoldable pub handle_request_proof :
      Service
      → Hash256
      → NewPayloadRequest x.ExecutionRequests
      → List ProofType
      → Replies x
      → Service
  handle_request_proof s root request proof_types replies =
      let (kept, requested) = retain_new s.proof_cache root proof_types s.requested in
      let s' : Service = record s { requested = requested } in
      if is_empty kept then s' else enqueue s' root request kept replies

  -- `workers` holds the keys of `worker_input_txs`.
  unfoldable pub send_worker_input :
      Service
      → List ProofType
      → ProofType
      → NewPayloadRequestWithWitness x
      → (ProofType → SendReply)
      → Service
  send_worker_input s workers proof_type payload reply =
      if contains proof_type_dec workers proof_type
      then (elim (reply proof_type) [
        | sent ↦ record s { worker_inputs = (proof_type, payload) ∷ s.worker_inputs }
        | full ↦
            fail_request s payload.root proof_type internal_error
              (text "worker input send failed: worker channel full") 0
        | closed ↦
            fail_request s payload.root proof_type internal_error
              (text "worker input send failed: worker channel closed") 0
      ])
      else fail_request s payload.root proof_type internal_error
          (text "no zkVM worker for proof type '" ++ (as_str proof_type ++ text "'")) 0

  unfoldable pub send_each :
      Service
      → List ProofType
      → List ProofType
      → NewPayloadRequestWithWitness x
      → (ProofType → SendReply)
      → Service
  send_each s workers [] payload reply = s
  send_each s workers (p ∷ ps) payload reply =
      send_each (send_worker_input s workers p payload reply) workers ps payload reply

  -- The arm of `WitnessAvailable` for the request that was pending.
  unfoldable pub dispatch :
      Service → List ProofType → PendingRequest x → x.Witness → (ProofType → SendReply) → Service
  dispatch s workers request witness reply =
      elim (with_witness x request.new_payload_request request.new_payload_request_root witness
        s.chain_config) [
          | ok input ↦ send_each s workers request.proof_types input reply
          | err e ↦
              fail_each s request.new_payload_request_root request.proof_types proving_error
                (text "input construction failed: " ++ e)
        ]

  unfoldable pub handle_witness_available :
      Service → List ProofType → Hash256 → x.Witness → (ProofType → SendReply) → Service
  handle_witness_available s workers hash witness reply = elim (get ℕ_discrete s.pending hash) [
    | none ↦ s
    | some request ↦
        dispatch (record s { pending = remove_entry ℕ_discrete hash s.pending }) workers request
          witness reply
  ]

  unfoldable pub handle_witness_timeout : Service → Hash256 → Service
  handle_witness_timeout s hash = elim (get ℕ_discrete s.pending hash) [
    | none ↦ s
    | some request ↦
        fail_each (record s { pending = remove_entry ℕ_discrete hash s.pending })
          request.new_payload_request_root request.proof_types FailureReason.witness_timeout
          (text "witness timeout for block " ++ x.show_hash hash)
  ]

  unfoldable pub handle_message :
      Service → List ProofType → ProofServiceMessage x → Replies x → Service
  handle_message s workers (request_proof root request proof_types) replies =
      handle_request_proof s root request proof_types replies
  handle_message s workers (ProofServiceMessage.witness_available hash witness) replies =
      handle_witness_available s workers hash witness replies.worker_reply
  handle_message s workers (ProofServiceMessage.witness_timeout hash) replies =
      handle_witness_timeout s hash
