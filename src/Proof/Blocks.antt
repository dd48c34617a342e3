-- ===== src/Proof/Blocks.antt =====
-- crates/server/src/proof.rs: what the handlers do to the blocks that are pending and to the
-- witnesses that are asked for.
use zkboost.Prelude.{
  ℕ, ◌+◌, ◌≡◌, refl, ◌∙◌, arith, List, [], ◌∷◌, ite, bit, Text, none, get, is_some, entries,
  entries-remove_entry, remove_entry, ℕ_discrete, Option-cases, Result-cases, inl, inr,
}
use zkboost.ProofType.{ProofType}
use zkboost.Payload.{Hash256, Bytes}
use zkboost.Events.{FailureReason}
use zkboost.External.{External}
use zkboost.Lru.{LruCache}
use zkboost.Worker.{NewPayloadRequestWithWitness, WorkerOutput, with_witness}
use zkboost.Proof.{Key, SendReply, PendingRequest, ProofService}
use zkboost.Proof.Service.{
  fail_request, fail_each, finish, handle_worker_output, send_worker_input, send_each, dispatch,
  handle_witness_available, handle_witness_timeout,
}

module _ (x : External) (proofs : LruCache Key Bytes) where
  -- From `s` to `t`, no block became pending or settled, and no witness was asked for.
  pub record SameBlocks (s t : ProofService x proofs) : Type 0 where
    pub pending : t.pending ≡ s.pending
    pub fetches : t.fetches ≡ s.fetches

  SameBlocks-trans :
      {s t u : ProofService x proofs} → SameBlocks s t → SameBlocks t u → SameBlocks s u
  SameBlocks-trans a b = record { pending = b.pending ∙ a.pending; fetches = b.fetches ∙ a.fetches }

  fail_request-SameBlocks :
      (s : ProofService x proofs) (root : Hash256) (p : ProofType) (reason : FailureReason)
      (error : Text) (duration : ℕ)
      → SameBlocks s (fail_request x proofs s root p reason error duration)
  unfolding fail_request
  fail_request-SameBlocks s root p reason error duration = record { pending = refl; fetches = refl }

  pub fail_each-SameBlocks :
      (s : ProofService x proofs) (root : Hash256) (ps : List ProofType) (reason : FailureReason)
      (error : Text)
      → SameBlocks s (fail_each x proofs s root ps reason error)
  unfolding fail_each
  fail_each-SameBlocks s root [] reason error = record { pending = refl; fetches = refl }
  fail_each-SameBlocks s root (p ∷ ps) reason error =
      SameBlocks-trans (fail_request-SameBlocks s root p reason error 0)
        (fail_each-SameBlocks (fail_request x proofs s root p reason error 0) root ps reason error)

  send_worker_input-SameBlocks :
      (s : ProofService x proofs) (workers : List ProofType) (p : ProofType)
      (payload : NewPayloadRequestWithWitness x) (reply : ProofType → SendReply)
      → SameBlocks s (send_worker_input x proofs s workers p payload reply)
  unfolding send_worker_input fail_request
  send_worker_input-SameBlocks s workers p payload reply = record {
    pending = ground arith;
    fetches = ground arith;
  }

  send_each-SameBlocks :
      (s : ProofService x proofs) (workers ps : List ProofType)
      (payload : NewPayloadRequestWithWitness x) (reply : ProofType → SendReply)
      → SameBlocks s (send_each x proofs s workers ps payload reply)
  unfolding send_each
  send_each-SameBlocks s workers [] payload reply = record { pending = refl; fetches = refl }
  send_each-SameBlocks s workers (p ∷ ps) payload reply =
      SameBlocks-trans (send_worker_input-SameBlocks s workers p payload reply) (
        send_each-SameBlocks (send_worker_input x proofs s workers p payload reply) workers ps
          payload reply)

  dispatch-SameBlocks :
      (s : ProofService x proofs) (workers : List ProofType) (r : PendingRequest x)
      (witness : x.Witness) (reply : ProofType → SendReply)
      → SameBlocks s (dispatch x proofs s workers r witness reply)
  unfolding dispatch
  dispatch-SameBlocks s workers r witness reply =
      elim (Result-cases
        (with_witness x r.new_payload_request r.new_payload_request_root witness s.chain_config)) [
          | inl (input, e) ↦
              rw (e, dispatch) (send_each-SameBlocks s workers r.proof_types input reply)
          | inr (error, e) ↦ rw (e, dispatch) (fail_each-SameBlocks s _ r.proof_types _ _)
        ]

  pub handle_worker_output-SameBlocks :
      (s : ProofService x proofs) (o : WorkerOutput) (now : x.Seconds)
      → SameBlocks s (handle_worker_output x proofs s o now)
  unfolding handle_worker_output finish fail_request
  handle_worker_output-SameBlocks s o now = record {
    pending = ground arith;
    fetches = ground arith;
  }

  -- From `s` to `t`, the block `hash` was settled if it was pending, and nothing else changed.
  pub record Settled (hash : Hash256) (s t : ProofService x proofs) : Type 0 where
    pub fetches : t.fetches ≡ s.fetches
    pub others :
        (h : Hash256)
        → entries ℕ_discrete h t.pending
            + ite (ℕ_discrete hash h) (bit (is_some (get ℕ_discrete s.pending hash))) 0
          ≡ entries ℕ_discrete h s.pending

  SameBlocks-Settled :
      (hash : Hash256) (s t : ProofService x proofs)
      → SameBlocks (record s { pending = remove_entry ℕ_discrete hash s.pending }) t
      → Settled hash s t
  SameBlocks-Settled hash s t a = record {
    fetches = a.fetches;
    others = λ h. rw a.pending (entries-remove_entry ℕ_discrete hash h s.pending);
  }

  not_pending-Settled :
      (hash : Hash256) (s : ProofService x proofs)
      → get ℕ_discrete s.pending hash ≡ none
      → Settled hash s s
  not_pending-Settled hash s e = record { fetches = refl; others = λ h. ground (arith, e) }

  pub handle_witness_timeout-Settled :
      (s : ProofService x proofs) (hash : Hash256)
      → Settled hash s (handle_witness_timeout x proofs s hash)
  unfolding handle_witness_timeout
  handle_witness_timeout-Settled s hash = elim (Option-cases (get ℕ_discrete s.pending hash)) [
    | inl e ↦ rw (e, handle_witness_timeout) (not_pending-Settled hash s e)
    | inr (r, e) ↦
        rw (e, handle_witness_timeout)
          (SameBlocks-Settled hash s _ (fail_each-SameBlocks _ _ r.proof_types _ _))
  ]

  pub handle_witness_available-Settled :
      (s : ProofService x proofs) (hash : Hash256) (workers : List ProofType) (witness : x.Witness)
      (reply : ProofType → SendReply)
      → Settled hash s (handle_witness_available x proofs s workers hash witness reply)
  unfolding handle_witness_available
  handle_witness_available-Settled s hash workers witness reply =
      elim (Option-cases (get ℕ_discrete s.pending hash)) [
        | inl e ↦ rw (e, handle_witness_available) (not_pending-Settled hash s e)
        | inr (r, e) ↦
            rw (e, handle_witness_available)
              (SameBlocks-Settled hash s _ (dispatch-SameBlocks _ workers r witness reply))
      ]
