-- ===== src/Proof/Requests.antt =====
-- crates/server/src/proof.rs: what a proof request and the output of a worker do to the keys that
-- the proof service keeps track of.
use zkboost.Prelude.{
  ℕ, ◌+◌, ◌≤◌, ◌≡◌, refl, ap, arith, List, [], ◌∷◌, true, ite, some, get, remove, is_some, is_empty,
  extend, contains-remove, ℕ_discrete, Option-cases, inl, inr, Bool-cases, text, ◌++◌,
}
use zkboost.ProofType.{ProofType, proof_type_dec}
use zkboost.Payload.{Hash256, Bytes, NewPayloadRequest, block_hash}
use zkboost.Events.{internal_error}
use zkboost.External.{External}
use zkboost.Lru.{LruCache}
use zkboost.Worker.{WorkerOutput, ProofResult, proof_ok}
use zkboost.Proof.{Key, key_dec, PendingRequest, Replies, ProofService}
use zkboost.Proof.Service.{
  fail_request, finish, handle_worker_output, retain_new, add_pending, ask, enqueue,
  handle_request_proof,
}
use zkboost.Proof.Keys.{
  tracked, key_count, answered, pending_count, sent_count, entry_count, pending_count-insert_entry,
  pending_count-remove_entry, tracked-retain_new, tracked-le-one, key_count-extend,
}
use zkboost.Proof.Accounting.{Keeps, fail_each-Settles}

module _ (x : External) (proofs : LruCache Key Bytes) where
  -- A pending request for the block of `request` has the root `root`.
  abbrev pub SameRoot :
      ProofService x proofs → Hash256 → NewPayloadRequest x.ExecutionRequests → Type 0
  SameRoot s root request =
      (r : PendingRequest x)
      → get ℕ_discrete s.pending (block_hash request) ≡ some r
      → r.new_payload_request_root ≡ root

  -- The proof types that a request is accepted for: not cached, and not requested already.
  abbrev pub accepts : ProofService x proofs → Hash256 → List ProofType → List ProofType
  accepts s root ps = (retain_new x proofs s.proof_cache root ps s.requested).0

  module _ (k : Key) where
    -- From `s` to `t`, the key left `requested` as often as an event answered it, `n` times, and
    -- nothing else moved.
    pub record Answers (n : ℕ) (s t : ProofService x proofs) : Type 0 where
      pub released :
          tracked k t.requested + answered k t.events ≡ tracked k s.requested + answered k s.events
      pub events : answered k t.events ≡ answered k s.events + n
      pub pending : t.pending ≡ s.pending
      pub worker_inputs : t.worker_inputs ≡ s.worker_inputs

    add_pending-count :
        (s : ProofService x proofs) (root : Hash256)
        (request : NewPayloadRequest x.ExecutionRequests) (ps : List ProofType) (now : x.Seconds)
        → SameRoot s root request
        → pending_count k s.pending + key_count k root ps ≤ 1
        → pending_count k (add_pending x proofs s root request ps now).pending
          ≡ pending_count k s.pending + key_count k root ps
    unfolding add_pending
    add_pending-count s root request ps now same h =
        elim (Option-cases (get ℕ_discrete s.pending (block_hash request))) [
          | inl e ↦
              rw (e, add_pending)
                (omega (
                  arith,
                  ap (entry_count k) e,
                  pending_count-insert_entry k (block_hash request)
                      (record {
                        new_payload_request = request;
                        new_payload_request_root = root;
                        proof_types = ps;
                      })
                      s.pending,
                ))
          | inr (r, e) ↦
              rw (e, add_pending)
                (omega (
                  arith,
                  ap (entry_count k) e,
                  ap (λ q. key_count k q ps) (same r e),
                  key_count-extend k r.new_payload_request_root r.proof_types ps,
                  pending_count-remove_entry k (block_hash request) s.pending,
                  pending_count-insert_entry k (block_hash request)
                      (record r { proof_types = extend proof_type_dec r.proof_types ps }) s.pending,
                ))
        ]

    -- From `s` to `t`, `n` uses of the key that `s` has in `requested` became pending or were
    -- answered by an event.
    record Places (n : ℕ) (s t : ProofService x proofs) : Type 0 where
      released :
          tracked k t.requested + answered k t.events ≡ tracked k s.requested + answered k s.events
      placed :
          pending_count k t.pending + sent_count k t.worker_inputs + answered k t.events
          ≡ pending_count k s.pending + sent_count k s.worker_inputs + answered k s.events + n
      grows : sent_count k s.worker_inputs ≤ sent_count k t.worker_inputs
      answers : answered k s.events ≤ answered k t.events

    add_pending-Places :
        (s : ProofService x proofs) (root : Hash256)
        (request : NewPayloadRequest x.ExecutionRequests) (ps : List ProofType) (now : x.Seconds)
        → SameRoot s root request
        → pending_count k s.pending + key_count k root ps ≤ 1
        → Places (key_count k root ps) s (add_pending x proofs s root request ps now)
    add_pending-Places s root request ps now same h = record {
      released = unfold add_pending in refl;
      grows = unfold add_pending in omega arith;
      answers = unfold add_pending in omega arith;
      placed =
          let counted = add_pending-count s root request ps now same h in
          unfold add_pending in omega (arith, counted);
    }

    -- The block is not pending: the witness is asked for.
    ask-Places :
        (s : ProofService x proofs) (root : Hash256)
        (request : NewPayloadRequest x.ExecutionRequests) (ps : List ProofType)
        (replies : Replies x)
        → SameRoot s root request
        → pending_count k s.pending + key_count k root ps ≤ tracked k s.requested
        → Places (key_count k root ps) s (ask x proofs s root request ps replies)
    unfolding ask
    ask-Places s root request ps replies same h = elim (Option-cases replies.fetch_error) [
      | inl e ↦
          let asked : ProofService x proofs = record s {
            fetches = block_hash request ∷ s.fetches;
          } in
          let a =
            add_pending-Places asked root request ps replies.now same
              (omega (arith, tracked-le-one k s.requested)) in
          rw (e, ask)
            (record {
              released = a.released;
              placed = a.placed;
              grows = a.grows;
              answers = a.answers;
            })
      | inr (error, e) ↦
          let a =
            fail_each-Settles x proofs k s root ps internal_error
              (text "witness service unavailable: " ++ error) (omega arith) in
          rw (e, ask)
            (record {
              released = a.released;
              placed = omega (arith, a.moved, ap (pending_count k) a.pending);
              grows = a.grows;
              answers = a.answers;
            })
    ]

    enqueue-Places :
        (s : ProofService x proofs) (root : Hash256)
        (request : NewPayloadRequest x.ExecutionRequests) (ps : List ProofType)
        (replies : Replies x)
        → SameRoot s root request
        → pending_count k s.pending + key_count k root ps ≤ tracked k s.requested
        → Places (key_count k root ps) s (enqueue x proofs s root request ps replies)
    unfolding enqueue
    enqueue-Places s root request ps replies same h =
        elim (Bool-cases (is_some (get ℕ_discrete s.pending (block_hash request)))) [
          | inl e ↦ rw e (
              add_pending-Places s root request ps replies.now same
                (omega (arith, tracked-le-one k s.requested)))
          | inr e ↦ rw e (ask-Places s root request ps replies same h)
        ]

    finish-Answers :
        (s : ProofService x proofs) (root : Hash256) (p : ProofType) (result : ProofResult)
        (duration : ℕ)
        → ite (key_dec (root, p) k) 1 0 ≤ tracked k s.requested
        → Answers (ite (key_dec (root, p) k) 1 0) s (
            finish x proofs
              (record s { requested = remove key_dec (root, p) s.requested })
              root
              p
              result
              duration)
    unfolding finish fail_request
    finish-Answers s root p (proof_ok proof) duration h =
        ground (arith, contains-remove key_dec (root, p) k s.requested)
    finish-Answers s root p _ duration h = ground (
      arith,
      contains-remove key_dec (root, p) k s.requested,
      contains-remove key_dec (root, p) k (remove key_dec (root, p) s.requested),
    )

    -- `handle_worker_output` answers the key of the output, if it is in `requested`.
    pub handle_worker_output-Answers :
        (s : ProofService x proofs) (o : WorkerOutput) (now : x.Seconds)
        → ite (key_dec (o.new_payload_request_root, o.proof_type) k) 1 0 ≤ tracked k s.requested
        → Answers
            (ite (key_dec (o.new_payload_request_root, o.proof_type) k) 1 0)
            s
            (handle_worker_output x proofs s o now)
    unfolding handle_worker_output
    handle_worker_output-Answers s o now h =
        let a =
          finish-Answers s o.new_payload_request_root o.proof_type o.proof_result o.duration h in
        record {
          released = a.released;
          events = a.events;
          pending = a.pending;
          worker_inputs = a.worker_inputs;
        }

    key_count-is_empty :
        (root : Hash256) (ps : List ProofType) → is_empty ps ≡ true → key_count k root ps ≡ 0
    key_count-is_empty root [] h = refl
    key_count-is_empty root (p ∷ ps) h = cc

    pub handle_request_proof-Keeps :
        (s : ProofService x proofs) (root : Hash256)
        (request : NewPayloadRequest x.ExecutionRequests) (ps : List ProofType)
        (replies : Replies x)
        → SameRoot s root request
        → pending_count k s.pending ≤ tracked k s.requested
        → Keeps x proofs k
            (key_count k root (accepts s root ps))
            s
            (handle_request_proof x proofs s root request ps replies)
    unfolding handle_request_proof
    handle_request_proof-Keeps s root request ps replies same h =
        elim (Bool-cases (is_empty kept)) [
          | inl e ↦
              rw (e, handle_request_proof)
                (record {
                  released = omega (arith, grown);
                  fresh = omega (arith, grown, tracked-le-one k s'.requested);
                  placed = omega (arith, key_count-is_empty root kept e);
                  grows = omega arith;
                  answers = omega arith;
                })
          | inr e ↦
              let a = enqueue-Places s' root request kept replies same (omega (arith, grown)) in
              rw (e, handle_request_proof)
                (record {
                  released = omega (arith, a.released, grown);
                  fresh = omega (arith, grown, tracked-le-one k s'.requested);
                  placed = omega (arith, a.placed);
                  grows = a.grows;
                  answers = a.answers;
                })
        ]
      where
        kept : List ProofType
        kept = accepts s root ps

        s' : ProofService x proofs
        s' = record s { requested = (retain_new x proofs s.proof_cache root ps s.requested).1 }

        grown : tracked k s'.requested ≡ tracked k s.requested + key_count k root kept
        grown = tracked-retain_new x proofs k s.proof_cache root ps s.requested
