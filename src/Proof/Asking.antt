-- ===== src/Proof/Asking.antt =====
-- crates/server/src/proof.rs: a proof request makes its block pending, with a message that asks for
-- the witness.
use zkboost.Prelude.{
  ◌+◌, ◌≤◌, ◌≡◌, refl, ap, arith, List, ◌∷◌, ite, bit, count, none, get, is_some, is_empty, entries,
  entries-insert_entry, entries-get-none, ℕ_discrete, Option-cases, Bool-cases, true, inl, inr,
}
use zkboost.ProofType.{ProofType}
use zkboost.Payload.{Hash256, Bytes, NewPayloadRequest, block_hash}
use zkboost.Events.{internal_error}
use zkboost.External.{External}
use zkboost.Lru.{LruCache}
use zkboost.Proof.{Key, Replies, ProofService}
use zkboost.Proof.Service.{retain_new, add_pending, ask, enqueue, handle_request_proof}
use zkboost.Proof.Blocks.{SameBlocks, fail_each-SameBlocks}

module _ (x : External) (proofs : LruCache Key Bytes) where
  -- From `s` to `t`, the block `h` became pending at most once, with a message that asks for its
  -- witness; and it did not where it was pending.
  pub record Asks (h : Hash256) (s t : ProofService x proofs) : Type 0 where
    pub fetched :
        entries ℕ_discrete h t.pending + count ℕ_discrete h s.fetches
        ≤ entries ℕ_discrete h s.pending + count ℕ_discrete h t.fetches
    pub grows : count ℕ_discrete h s.fetches ≤ count ℕ_discrete h t.fetches
    pub once : entries ℕ_discrete h s.pending ≤ 1 → entries ℕ_discrete h t.pending ≤ 1

  SameBlocks-Asks :
      (h : Hash256) (s t : ProofService x proofs) → SameBlocks x proofs s t → Asks h s t
  SameBlocks-Asks h s t a =
      let entered = ap (entries ℕ_discrete h) a.pending in
      let asked = ap (count ℕ_discrete h) a.fetches in
      record {
        fetched = omega (arith, entered, asked);
        grows = omega (arith, asked);
        once = λ one. omega (arith, entered);
      }

  module _ (s : ProofService x proofs) (root : Hash256)
      (request : NewPayloadRequest x.ExecutionRequests) (h : Hash256) (ps : List ProofType) where
    hash : Hash256
    hash = block_hash request

    -- The block is an entry after `add_pending`, once.
    add_pending-entries :
        (now : x.Seconds)
        → entries ℕ_discrete h (add_pending x proofs s root request ps now).pending
            + ite (ℕ_discrete hash h) (bit (is_some (get ℕ_discrete s.pending hash))) 0
          ≡ entries ℕ_discrete h s.pending + ite (ℕ_discrete hash h) 1 0
    unfolding add_pending hash
    add_pending-entries now = entries-insert_entry ℕ_discrete hash h _ s.pending

    add_pending-fetches :
        (now : x.Seconds) → (add_pending x proofs s root request ps now).fetches ≡ s.fetches
    unfolding add_pending
    add_pending-fetches now = refl

    add_pending-Asks :
        (now : x.Seconds)
        → is_some (get ℕ_discrete s.pending hash) ≡ true
        → Asks h s (add_pending x proofs s root request ps now)
    add_pending-Asks now e =
        let same = ap (count ℕ_discrete h) (add_pending-fetches now) in
        record {
          fetched = ground (arith, add_pending-entries now, e, same);
          grows = omega (arith, same);
          once = λ one. ground (arith, add_pending-entries now, e);
        }

  module _ (s : ProofService x proofs) (root : Hash256)
      (request : NewPayloadRequest x.ExecutionRequests) (h : Hash256) (ps : List ProofType)
      (replies : Replies x) where
    -- The state in which the witness is asked for.
    asking : ProofService x proofs
    asking = record s { fetches = block_hash request ∷ s.fetches }

    asked-Asks :
        get ℕ_discrete s.pending (block_hash request) ≡ none
        → Asks h s (add_pending x proofs asking root request ps replies.now)
    unfolding asking hash
    asked-Asks e =
        let added = add_pending-entries asking root request h ps replies.now in
        let free = entries-get-none ℕ_discrete (block_hash request) s.pending e in
        let same =
          ap (count ℕ_discrete h) (add_pending-fetches asking root request h ps replies.now) in
        record {
          fetched = ground (arith, added, same, e);
          grows = omega (arith, same);
          once = λ one. ground (arith, added, e, free);
        }

    ask-Asks :
        get ℕ_discrete s.pending (block_hash request) ≡ none
        → Asks h s (ask x proofs s root request ps replies)
    unfolding ask asking
    ask-Asks e = elim (Option-cases replies.fetch_error) [
      | inl f ↦ rw (f, ask) (asked-Asks e)
      | inr (error, f) ↦
          rw (f, ask)
            (SameBlocks-Asks h s _ (fail_each-SameBlocks x proofs s root ps internal_error _))
    ]

    enqueue-Asks : Asks h s (enqueue x proofs s root request ps replies)
    unfolding enqueue hash
    enqueue-Asks = elim (Option-cases (get ℕ_discrete s.pending (block_hash request))) [
      | inl e ↦ rw (e, enqueue) (ask-Asks e)
      | inr (r, e) ↦
          rw (e, enqueue) (add_pending-Asks s root request h ps replies.now (ap is_some e))
    ]

  pub handle_request_proof-Asks :
      (s : ProofService x proofs) (root : Hash256) (request : NewPayloadRequest x.ExecutionRequests)
      (h : Hash256) (ps : List ProofType) (replies : Replies x)
      → Asks h s (handle_request_proof x proofs s root request ps replies)
  unfolding handle_request_proof
  handle_request_proof-Asks s root request h ps replies =
      let (kept, requested) = retain_new x proofs s.proof_cache root ps s.requested in
      let s' : ProofService x proofs = record s { requested = requested } in
      let a = enqueue-Asks s' root request h kept replies in
      elim (Bool-cases (is_empty kept)) [
        | inl e ↦
            rw (e, handle_request_proof)
              (SameBlocks-Asks h s _ (record { pending = refl; fetches = refl }))
        | inr e ↦
            rw (e, handle_request_proof)
              (record { fetched = a.fetched; grows = a.grows; once = a.once })
      ]
