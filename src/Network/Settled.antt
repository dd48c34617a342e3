-- ===== src/Network/Settled.antt =====
-- crates/server/src/proof.rs, witness.rs: the two services once nothing is on its way.
use zkboost.Prelude.{
  ℕ, ◌+◌, ◌≤◌, ◌≡◌, ap, arith, List, [], count, contains, false, entries, entries-empty, ℕ_discrete,
}
use zkboost.ProofType.{ProofType}
use zkboost.Payload.{Hash256, Bytes}
use zkboost.External.{External}
use zkboost.Lru.{LruCache}
use zkboost.Proof.{Key, key_dec}
use zkboost.Proof.Keys.{pending_count, answered, sent_count}
use zkboost.Proof.System.{accepted_count}
use zkboost.Proof.Delivery.{quiescent}
use zkboost.Witness.Steps.{answers}
use zkboost.Network.{Network, Reach, initial, Reach-proof}
use zkboost.Network.Outstanding.{Reach-Outstanding}

module _ (x : External) (proofs : LruCache Key Bytes) (witnesses : LruCache Hash256 x.Witness)
    {workers : List ProofType} (chain_config : x.ChainConfig) (cache : proofs.Cache) (size : ℕ)
    {u : Network x proofs witnesses}
    (reached : Reach x proofs witnesses workers
      (initial x proofs witnesses chain_config cache size)
      u) where
  -- In every state that the two services reach from their start, where two requests that are
  -- pending for one block have one root and a worker sends at most one output for an input: a block
  -- is pending once at most, and while it is, a message about it is on its way or a task fetches its
  -- witness.
  pub pending-covered :
      (h : Hash256)
      → (entries ℕ_discrete h u.proof.service.pending ≤ 1)
        × (entries ℕ_discrete h u.proof.service.pending
              + count ℕ_discrete h u.witness.asked
              + answers x witnesses h u.delivered
            ≤ count ℕ_discrete h u.proof.service.fetches
              + count ℕ_discrete h u.witness.service.tasks
              + answers x witnesses h u.witness.service.proof_messages)
  pending-covered h =
      let b = Reach-Outstanding x proofs witnesses h chain_config cache size reached in
      (b.once, b.covered)

  -- In every state that the two services reach from their start, where two requests that are
  -- pending for one block have one root and a worker sends at most one output for an input: once
  -- the witness service has received each `FetchWitness` and has no task left, the proof service
  -- has received each message of the witness service, and each input of a worker is answered by an
  -- output, no block is pending, nothing is in `requested`, and each accepted use of a root with a
  -- proof type has had exactly one event.
  pub settled :
      u.proof.service.fetches ≡ u.witness.asked
      → u.witness.service.tasks ≡ []
      → u.witness.service.proof_messages ≡ u.delivered
      → ((k : Key) → sent_count k u.proof.service.worker_inputs ≡ count key_dec k u.proof.finished)
      → (u.proof.service.pending ≡ [])
        × ((k : Key)
            → (contains key_dec u.proof.service.requested k ≡ false)
              × (answered k u.proof.service.events ≡ accepted_count x proofs k u.proof.accepted))
  settled fetched idle delivered done =
      let none_pending : u.proof.service.pending ≡ [] =
        entries-empty ℕ_discrete _ (λ h. no_entry h) in
      (
        none_pending,
        λ k.
            quiescent x proofs chain_config cache (Reach-proof x proofs witnesses reached) k
              (ap (pending_count {x = x} k) none_pending) (done k),
      )
    where
      no_entry : (h : Hash256) → entries ℕ_discrete h u.proof.service.pending ≡ 0
      no_entry h = omega (
        arith,
        (pending-covered h).1,
        ap (count ℕ_discrete h) fetched,
        ap (count ℕ_discrete h) idle,
        ap (answers x witnesses h) delivered,
      )
