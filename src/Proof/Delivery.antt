-- ===== src/Proof/Delivery.antt =====
-- crates/server/src/proof.rs: every accepted request for a proof is answered by one event, where
-- requests that are pending for one block agree on the root; and what happens where they do not.
use zkboost.Prelude.{
  subst, sym, ◌∙◌, if_neg, contains-insert, ◌≤◌, if◌then◌else◌, is_empty, Bool-cases, inl, inr, ◌+◌,
  ◌≡◌, refl, ◌≢◌, arith, List, [], ◌∷◌, count, some, get, ap, contains, true, false, bit, Bool,
  if_pos, ℕ_discrete, insert, extend, ◌⊎◌, All,
}
use zkboost.ProofType.{ProofType, proof_type_dec}
use zkboost.Payload.{Hash256, Bytes, NewPayloadRequest, block_hash}
use zkboost.External.{External}
use zkboost.Lru.{LruCache}
use zkboost.Proof.{Key, key_dec, Replies, ProofService, PendingRequest}
use zkboost.Proof.Service.{handle_request_proof, enqueue, add_pending, retain_new}
use zkboost.Proof.Keys.{
  tracked-retain_new, tracked, key_count, answered, pending_count, sent_count, entry_count,
  pending_count-insert_entry,
}
use zkboost.Proof.System.{
  System, Reach, initial, Balanced, accepted_count, initial-Balanced, Reach-Balanced,
}

bit-zero : (b : Bool) → bit b ≡ 0 → b ≡ false
bit-zero true h = absurd (omega arith)
bit-zero false h = refl

bit_one : (b : Bool) → 1 ≤ bit b → b ≡ true
bit_one true h = refl
bit_one false h = absurd (omega arith)

module _ (x : External) (proofs : LruCache Key Bytes) where
  module _ {workers : List ProofType} (chain_config : x.ChainConfig) (cache : proofs.Cache)
      {u : System x proofs}
      (reached : Reach x proofs workers (initial x proofs chain_config cache) u) (k : Key) where
    balanced : Balanced x proofs k u
    balanced = Reach-Balanced x proofs k reached (initial-Balanced x proofs k chain_config cache)

    -- In every state that the event loop reaches from the start, where two requests that are
    -- pending for one block have one root and a worker sends at most one output for an input: how
    -- often a root with a proof type was accepted is how many events were sent about it, plus one
    -- if it is in `requested`.
    pub accepted-answered :
        answered k u.service.events + tracked k u.service.requested
        ≡ accepted_count x proofs k u.accepted
    accepted-answered = omega (arith, balanced.released)

    -- In every state that the event loop reaches from the start, where two requests that are
    -- pending for one block have one root and a worker sends at most one output for an input: a
    -- root with a proof type is in `requested` exactly if it is pending or its input is at a worker,
    -- and it is at one of these places once.
    pub requested-in_progress :
        pending_count k u.service.pending + sent_count k u.service.worker_inputs
        ≡ tracked k u.service.requested + count key_dec k u.finished
    requested-in_progress = omega (arith, balanced.released, balanced.placed)

    -- In every state that the event loop reaches from the start, where two requests that are
    -- pending for one block have one root and a worker sends at most one output for an input: once
    -- no pending request is for a root with a proof type and each input of a worker for them is
    -- answered by an output, they are not in `requested`, and each accepted use of them has had
    -- exactly one event.
    pub quiescent :
        pending_count {x = x} k u.service.pending ≡ 0
        → sent_count k u.service.worker_inputs ≡ count key_dec k u.finished
        → (contains key_dec u.service.requested k ≡ false)
          × (answered k u.service.events ≡ accepted_count x proofs k u.accepted)
    quiescent h e =
        let none_left = balanced in
        (
          bit-zero _ (omega (arith, none_left.released, none_left.placed, h)),
          omega (arith, none_left.released, none_left.placed, h),
        )

  abbrev pub IsKnown : ProofService x proofs → Hash256 → ProofType → Type 0
  IsKnown s root p =
      (proofs.contains s.proof_cache (root, p) ≡ true)
      ⊎ (contains key_dec s.requested (root, p) ≡ true)

  retain_new-known :
      (s : ProofService x proofs) (root : Hash256) (ps : List ProofType)
      → All (IsKnown s root) ps
      → retain_new x proofs s.proof_cache root ps s.requested ≡ ([], s.requested)
  unfolding retain_new insert
  retain_new-known s root [] h = refl
  retain_new-known s root (p ∷ ps) h = ground (arith, retain_new-known s root ps)

  -- A request whose proof types are all cached or requested already changes nothing and sends
  -- nothing.
  pub handle_request_proof-known :
      (s : ProofService x proofs) (root : Hash256) (request : NewPayloadRequest x.ExecutionRequests)
      (ps : List ProofType) (replies : Replies x)
      → All (IsKnown s root) ps
      → handle_request_proof x proofs s root request ps replies ≡ s
  unfolding handle_request_proof
  handle_request_proof-known s root request ps replies h =
      rw (retain_new-known s root ps h, handle_request_proof)

  key_count_ne :
      (root other : Hash256) (p : ProofType) (ps : List ProofType)
      → other ≢ root
      → key_count (root, p) other ps ≡ 0
  key_count_ne root other p [] h = refl
  key_count_ne root other p (q ∷ ps) h = ground (arith, key_count_ne root other p ps)

  retain_new-keep :
      (cache : proofs.Cache) (root : Hash256) (ps : List ProofType) (requested : List Key) (k : Key)
      → contains key_dec requested k ≡ true
      → contains key_dec (retain_new x proofs cache root ps requested).1 k ≡ true
  retain_new-keep cache root ps requested k h =
      bit_one _ (omega (arith, tracked-retain_new x proofs k cache root ps requested, ap bit h))

  retain_new-requested :
      (cache : proofs.Cache) (root : Hash256) (ps : List ProofType) (requested : List Key)
      (p : ProofType)
      → contains proof_type_dec ps p ≡ true
      → proofs.contains cache (root, p) ≡ false
      → contains key_dec (retain_new x proofs cache root ps requested).1 (root, p) ≡ true
  unfolding retain_new
  retain_new-requested cache root [] requested p h absent = absurd (cc)
  retain_new-requested cache root (q ∷ ps) requested p h absent = elim (proof_type_dec q p) [
    | yes e ↦
        let absent' : proofs.contains cache (root, q) ≡ false =
          subst (λ t. proofs.contains cache (root, t) ≡ false) (sym e) absent in
        let same : (root, q) ≡ (root, p) = ap (λ t. (root, t)) e in
        rw absent' (
          retain_new-keep cache root ps (insert key_dec (root, q) requested) (root, p)
            (contains-insert key_dec (root, q) (root, p) requested
              ∙ if_pos (key_dec (root, q) (root, p)) same true _))
    | no n ↦
        retain_new-requested cache root ps _ p (sym (if_neg (proof_type_dec q p) n true _) ∙ h)
          absent
  ]

  module _ (s : ProofService x proofs) (root : Hash256)
      (request : NewPayloadRequest x.ExecutionRequests) (ps : List ProofType) (replies : Replies x)
      (r : PendingRequest x) where
    -- A request for a pending block joins the request that is pending.
    handle_request_proof-joins :
        get ℕ_discrete s.pending (block_hash request) ≡ some r
        → handle_request_proof x proofs s root request ps replies ≡ (
            let (kept, requested) = retain_new x proofs s.proof_cache root ps s.requested in
            let s' : ProofService x proofs = record s { requested = requested } in
            if is_empty kept then s' else add_pending x proofs s' root request kept replies.now)
    unfolding handle_request_proof enqueue
    handle_request_proof-joins e = rw (handle_request_proof, e) refl

  add_pending-other_root :
      (s : ProofService x proofs) (root : Hash256) (request : NewPayloadRequest x.ExecutionRequests)
      (kept : List ProofType) (now : x.Seconds) (r : PendingRequest x) (p : ProofType)
      → get ℕ_discrete s.pending (block_hash request) ≡ some r
      → r.new_payload_request_root ≢ root
      → pending_count (root, p) (add_pending x proofs s root request kept now).pending
        ≡ pending_count (root, p) s.pending
  unfolding add_pending
  add_pending-other_root s root request kept now r p e other =
      let wider = record r { proof_types = extend proof_type_dec r.proof_types kept } in
      rw (e, add_pending)
        (omega (
          arith,
          ap (entry_count (root, p)) e,
          key_count_ne root r.new_payload_request_root p wider.proof_types other,
          key_count_ne root r.new_payload_request_root p r.proof_types other,
          pending_count-insert_entry (root, p) (block_hash request) wider s.pending,
        ))

  -- A request for a block that is pending under another root is lost: its root with each proof type
  -- that it asks for and that is not cached enters `requested`, or is there already, but no pending
  -- request, no input of a worker and no event is about them that was not before.
  pub handle_request_proof-other_root :
      (s : ProofService x proofs) (root : Hash256) (request : NewPayloadRequest x.ExecutionRequests)
      (ps : List ProofType) (replies : Replies x) (r : PendingRequest x) (p : ProofType)
      → get ℕ_discrete s.pending (block_hash request) ≡ some r
      → r.new_payload_request_root ≢ root
      → contains proof_type_dec ps p ≡ true
      → proofs.contains s.proof_cache (root, p) ≡ false
      → let t = handle_request_proof x proofs s root request ps replies in
        (contains key_dec t.requested (root, p) ≡ true)
        × (pending_count (root, p) t.pending ≡ pending_count (root, p) s.pending)
        × (t.worker_inputs ≡ s.worker_inputs)
        × (t.events ≡ s.events)
  handle_request_proof-other_root s root request ps replies r p e other asked absent =
      let kept = (retain_new x proofs s.proof_cache root ps s.requested).0 in
      let there = retain_new-requested s.proof_cache root ps s.requested p asked absent in
      let s' : ProofService x proofs = record s {
        requested = (retain_new x proofs s.proof_cache root ps s.requested).1;
      } in
      rw (handle_request_proof-joins s root request ps replies r e)
        (elim (Bool-cases (is_empty kept)) [
          | inl n ↦ rw n (there, refl, refl, refl)
          | inr n ↦ rw n (
            unfold add_pending in there,
            add_pending-other_root s' root request kept replies.now r p e other,
            unfold add_pending in refl,
            unfold add_pending in refl,
          )
        ])
