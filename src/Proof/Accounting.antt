-- ===== src/Proof/Accounting.antt =====
-- crates/server/src/proof.rs: where each handler of the proof service moves the keys of the
-- requests: from `pending` to a worker or to an event.
use zkboost.Prelude.{
  ℕ, ◌+◌, ◌≤◌, ◌≡◌, ap, arith, List, [], ◌∷◌, ite, Text, some, ok, get, remove_entry, subst,
  contains-remove, ℕ_discrete, Option-cases, inl, inr, Result-cases,
}
use zkboost.ProofType.{ProofType}
use zkboost.Payload.{Hash256, Bytes, NewPayloadRequest}
use zkboost.Events.{FailureReason}
use zkboost.External.{External}
use zkboost.Lru.{LruCache}
use zkboost.Worker.{NewPayloadRequestWithWitness, with_witness}
use zkboost.Proof.{Key, key_dec, SendReply, PendingRequest, ProofService}
use zkboost.Proof.Service.{
  fail_request, fail_each, send_worker_input, send_each, dispatch, handle_witness_available,
  handle_witness_timeout,
}
use zkboost.Proof.Keys.{
  tracked, tracked-le-one, key_count, answered, pending_count, sent_count, entry_count,
  pending_count-remove_entry,
}

module _ (x : External) where
  pub with_witness-root :
      (request : NewPayloadRequest x.ExecutionRequests) (root : Hash256) (witness : x.Witness)
      (config : x.ChainConfig) (input : NewPayloadRequestWithWitness x)
      → with_witness x request root witness config ≡ ok input
      → input.root ≡ root
  unfolding with_witness
  with_witness-root request root witness config input h = ground arith

module _ (x : External) (proofs : LruCache Key Bytes) (k : Key) where
  -- From `s` to `t`, `n` uses of the key that `s` had accepted were each sent to a worker or
  -- answered by an event, which takes the key out of `requested`; nothing became pending.
  pub record Settles (n : ℕ) (s t : ProofService x proofs) : Type 0 where
    pub released :
        tracked k t.requested + answered k t.events ≡ tracked k s.requested + answered k s.events
    pub moved :
        answered k t.events + sent_count k t.worker_inputs
        ≡ answered k s.events + sent_count k s.worker_inputs + n
    pub bounded : answered k t.events ≤ answered k s.events + n
    pub answers : answered k s.events ≤ answered k t.events
    pub pending : t.pending ≡ s.pending
    pub grows : sent_count k s.worker_inputs ≤ sent_count k t.worker_inputs

  fail_request-Settles :
      (s : ProofService x proofs) (root : Hash256) (p : ProofType) (reason : FailureReason)
      (error : Text) (duration : ℕ)
      → ite (key_dec (root, p) k) 1 0 ≤ tracked k s.requested
      → Settles
          (ite (key_dec (root, p) k) 1 0)
          s
          (fail_request x proofs s root p reason error duration)
  unfolding fail_request
  fail_request-Settles s root p reason error duration h =
      ground (arith, contains-remove key_dec (root, p) k s.requested)

  pub fail_each-Settles :
      (s : ProofService x proofs) (root : Hash256) (ps : List ProofType) (reason : FailureReason)
      (error : Text)
      → key_count k root ps ≤ tracked k s.requested
      → Settles (key_count k root ps) s (fail_each x proofs s root ps reason error)
  unfolding fail_each
  fail_each-Settles s root [] reason error h = ground arith
  fail_each-Settles s root (p ∷ ps) reason error h = ground (
    arith,
    fail_request-Settles s root p reason error 0,
    fail_each-Settles (fail_request x proofs s root p reason error 0) root ps reason error,
  )

  send_worker_input-Settles :
      (s : ProofService x proofs) (workers : List ProofType) (p : ProofType)
      (payload : NewPayloadRequestWithWitness x) (reply : ProofType → SendReply)
      → ite (key_dec (payload.root, p) k) 1 0 ≤ tracked k s.requested
      → Settles
          (ite (key_dec (payload.root, p) k) 1 0)
          s
          (send_worker_input x proofs s workers p payload reply)
  unfolding send_worker_input fail_request
  send_worker_input-Settles s workers p payload reply h =
      ground (arith, contains-remove key_dec (payload.root, p) k s.requested)

  pub send_each-Settles :
      (s : ProofService x proofs) (workers ps : List ProofType)
      (payload : NewPayloadRequestWithWitness x) (reply : ProofType → SendReply)
      → key_count k payload.root ps ≤ tracked k s.requested
      → Settles (key_count k payload.root ps) s (send_each x proofs s workers ps payload reply)
  unfolding send_each
  send_each-Settles s workers [] payload reply h = ground arith
  send_each-Settles s workers (p ∷ ps) payload reply h = ground (
    arith,
    send_worker_input-Settles s workers p payload reply,
    send_each-Settles (send_worker_input x proofs s workers p payload reply) workers ps payload
        reply,
  )

  send_each_at-Settles :
      (s : ProofService x proofs) (workers ps : List ProofType)
      (payload : NewPayloadRequestWithWitness x) (reply : ProofType → SendReply) {root : Hash256}
      → payload.root ≡ root
      → key_count k root ps ≤ tracked k s.requested
      → Settles (key_count k root ps) s (send_each x proofs s workers ps payload reply)
  send_each_at-Settles s workers ps payload reply e =
      subst
        (λ q.
          key_count k q ps ≤ tracked k s.requested
          → Settles (key_count k q ps) s (send_each x proofs s workers ps payload reply))
        e (send_each-Settles s workers ps payload reply)

  pub dispatch-Settles :
      (s : ProofService x proofs) (workers : List ProofType) (r : PendingRequest x)
      (witness : x.Witness) (reply : ProofType → SendReply)
      → key_count k r.new_payload_request_root r.proof_types ≤ tracked k s.requested
      → Settles
          (key_count k r.new_payload_request_root r.proof_types)
          s
          (dispatch x proofs s workers r witness reply)
  unfolding dispatch
  dispatch-Settles s workers r witness reply h =
      elim (Result-cases
        (with_witness x r.new_payload_request r.new_payload_request_root witness s.chain_config)) [
          | inl (input, e) ↦
              let root =
                with_witness-root x r.new_payload_request r.new_payload_request_root witness
                  s.chain_config input e in
              rw (e, dispatch) (send_each_at-Settles s workers r.proof_types input reply root h)
          | inr (error, e) ↦ rw (e, dispatch) (fail_each-Settles s _ r.proof_types _ _ h)
        ]

  -- From `s` to `t`, `accepted` uses of the key that `s` does not have in `requested` were taken in. Each is answered by an event or is
  -- in `requested`, and each is pending, at a worker or answered.
  pub record Keeps (accepted : ℕ) (s t : ProofService x proofs) : Type 0 where
    pub fresh : tracked k s.requested + accepted ≤ 1
    pub released :
        tracked k t.requested + answered k t.events
        ≡ tracked k s.requested + answered k s.events + accepted
    pub placed :
        pending_count k t.pending + sent_count k t.worker_inputs + answered k t.events
        ≡ pending_count k s.pending + sent_count k s.worker_inputs + answered k s.events + accepted
    pub grows : sent_count k s.worker_inputs ≤ sent_count k t.worker_inputs
    pub answers : answered k s.events ≤ answered k t.events

  module _ (s : ProofService x proofs) (hash : Hash256)
      (held : pending_count k s.pending ≤ tracked k s.requested) where
    entry-tracked :
        (r : PendingRequest x)
        → get ℕ_discrete s.pending hash ≡ some r
        → key_count k r.new_payload_request_root r.proof_types ≤ tracked k s.requested
    entry-tracked r e =
        omega (arith, ap (entry_count k) e, pending_count-remove_entry k hash s.pending)

    -- A request that is taken out of `pending` and settled.
    Settles-Keeps :
        (r : PendingRequest x) (t : ProofService x proofs)
        → get ℕ_discrete s.pending hash ≡ some r
        → Settles
            (key_count k r.new_payload_request_root r.proof_types)
            (record s { pending = remove_entry ℕ_discrete hash s.pending })
            t
        → Keeps 0 s t
    Settles-Keeps r t e settled = record {
      released = omega (arith, settled.released);
      fresh = omega (arith, tracked-le-one k s.requested);
      grows = settled.grows;
      answers = settled.answers;
      placed = omega (
        arith,
        settled.moved,
        ap (pending_count k) settled.pending,
        ap (entry_count k) e,
        pending_count-remove_entry k hash s.pending,
      );
    }

    pub handle_witness_timeout-Keeps : Keeps 0 s (handle_witness_timeout x proofs s hash)
    unfolding handle_witness_timeout
    handle_witness_timeout-Keeps = elim (Option-cases (get ℕ_discrete s.pending hash)) [
      | inl e ↦ rw (e, handle_witness_timeout) (ground (arith, tracked-le-one k s.requested))
      | inr (r, e) ↦
          rw (e, handle_witness_timeout)
            (Settles-Keeps r _ e (fail_each-Settles _ _ r.proof_types _ _ (entry-tracked r e)))
    ]

    pub handle_witness_available-Keeps :
        (workers : List ProofType) (witness : x.Witness) (reply : ProofType → SendReply)
        → Keeps 0 s (handle_witness_available x proofs s workers hash witness reply)
    unfolding handle_witness_available
    handle_witness_available-Keeps workers witness reply =
        elim (Option-cases (get ℕ_discrete s.pending hash)) [
          | inl e ↦ rw (e, handle_witness_available) (ground (arith, tracked-le-one k s.requested))
          | inr (r, e) ↦
              rw (e, handle_witness_available)
                (Settles-Keeps r _ e
                  (dispatch-Settles _ workers r witness reply (entry-tracked r e)))
        ]
