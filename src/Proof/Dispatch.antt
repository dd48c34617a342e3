-- ===== src/Proof/Dispatch.antt =====
-- crates/server/src/proof.rs: a witness that arrives while every worker takes its input.
use zkboost.Prelude.{
  ◌+◌, ◌≡◌, refl, arith, List, [], ◌∷◌, ok, some, get, ℕ_discrete, contains, true, All,
  remove_entry, subst,
}
use zkboost.ProofType.{ProofType, proof_type_dec}
use zkboost.Payload.{Hash256, Bytes}
use zkboost.External.{External}
use zkboost.Lru.{LruCache}
use zkboost.Worker.{NewPayloadRequestWithWitness, with_witness}
use zkboost.Proof.{Key, SendReply, sent, PendingRequest, ProofService}
use zkboost.Proof.Service.{send_worker_input, send_each, dispatch, handle_witness_available}
use zkboost.Proof.Accounting.{with_witness-root}
use zkboost.Proof.Keys.{key_count, sent_count}

module _ (x : External) (proofs : LruCache Key Bytes) where
  -- No proof was answered or released, and each proof type's input for the root was sent.
  pub record Dispatched (root : Hash256) (ps : List ProofType) (s t : ProofService x proofs)
      : Type 0 where
    pub events : t.events ≡ s.events
    pub requested : t.requested ≡ s.requested
    pub inputs :
        (k : Key)
        → sent_count {x = x} k t.worker_inputs
          ≡ key_count k root ps + sent_count {x = x} k s.worker_inputs

  module _ (workers : List ProofType) (input : NewPayloadRequestWithWitness x)
      (reply : ProofType → SendReply) (replies : (p : ProofType) → reply p ≡ sent) where
    send_worker_input_sent :
        (s : ProofService x proofs) (p : ProofType)
        → contains proof_type_dec workers p ≡ true
        → send_worker_input x proofs s workers p input reply
          ≡ record s { worker_inputs = (p, input) ∷ s.worker_inputs }
    unfolding send_worker_input
    send_worker_input_sent s p h = rw (send_worker_input, h, replies p) refl

    send_each-Dispatched :
        (s : ProofService x proofs) (ps : List ProofType)
        → All (λ p. contains proof_type_dec workers p ≡ true) ps
        → Dispatched input.root ps s (send_each x proofs s workers ps input reply)
    unfolding send_each
    send_each-Dispatched s [] h = record {
      events = refl;
      requested = refl;
      inputs = λ k. omega arith;
    }
    send_each-Dispatched s (p ∷ ps) h =
        let s' : ProofService x proofs = record s {
          worker_inputs = (p, input) ∷ s.worker_inputs;
        } in
        let d = send_each-Dispatched s' ps h.1 in
        rw (send_each, send_worker_input_sent s p h.0)
          (record {
            events = d.events;
            requested = d.requested;
            inputs = λ k. omega (arith, d.inputs k);
          })

  -- Where the input of a pending request can be built, each of its proof types has a worker and
  -- each worker's channel has room, the witness of its block sends each of the workers one input
  -- for the root, no proof fails, and all stay requested.
  pub handle_witness_available-Dispatched :
      (s : ProofService x proofs) (workers : List ProofType) (hash : Hash256) (witness : x.Witness)
      (reply : ProofType → SendReply) (r : PendingRequest x)
      (input : NewPayloadRequestWithWitness x)
      → get ℕ_discrete s.pending hash ≡ some r
      → with_witness x r.new_payload_request r.new_payload_request_root witness s.chain_config
        ≡ ok input
      → All (λ p. contains proof_type_dec workers p ≡ true) r.proof_types
      → ((p : ProofType) → reply p ≡ sent)
      → Dispatched r.new_payload_request_root r.proof_types s
          (handle_witness_available x proofs s workers hash witness reply)
  unfolding handle_witness_available dispatch
  handle_witness_available-Dispatched s workers hash witness reply r input pending built h replies =
      let s' : ProofService x proofs = record s {
        pending = remove_entry ℕ_discrete hash s.pending;
      } in
      let d = send_each-Dispatched workers input reply replies s' r.proof_types h in
      let same =
        with_witness-root x r.new_payload_request r.new_payload_request_root witness s.chain_config
          input built in
      let d' =
        subst
          (λ root.
            Dispatched root r.proof_types s'
              (send_each x proofs s' workers r.proof_types input reply))
          same d in
      rw (handle_witness_available, pending, dispatch, built)
        (record { events = d'.events; requested = d'.requested; inputs = d'.inputs })
