-- ===== src/Proof/System.antt =====
-- crates/server/src/proof.rs: the proof service in the course of its event loop, where messages
-- and the outputs of workers come in any order.
use zkboost.Prelude.{
  ℕ, ◌+◌, ◌≤◌, ◌<◌, ◌≡◌, arith, List, [], ◌∷◌, ite, count, ap, if_pos, if_neg, subst,
}
use zkboost.ProofType.{ProofType}
use zkboost.Payload.{Hash256, Bytes}
use zkboost.External.{External}
use zkboost.Lru.{LruCache}
use zkboost.Worker.{WorkerOutput}
use zkboost.Proof.{
  Key, key_dec, ProofServiceMessage, request_proof, Replies, ProofService, new_service,
}
use zkboost.Proof.Service.{handle_message, handle_worker_output}
use zkboost.Proof.Keys.{tracked, key_count, answered, pending_count, sent_count}
use zkboost.Proof.Accounting.{handle_witness_timeout-Keeps, handle_witness_available-Keeps, Keeps}
use zkboost.Proof.Requests.{
  SameRoot, accepts, handle_request_proof-Keeps, handle_worker_output-Answers, Answers,
}

module _ (x : External) (proofs : LruCache Key Bytes) where
  abbrev pub output_key : WorkerOutput → Key
  output_key o = (o.new_payload_request_root, o.proof_type)

  -- The service, with what was accepted and which outputs were handled so far.
  pub record System : Type 0 where
    pub service : ProofService x proofs
    pub accepted : List (Hash256 × List ProofType)
    pub finished : List Key

  -- How often a key was accepted.
  abbrev pub accepted_count : Key → List (Hash256 × List ProofType) → ℕ
  accepted_count k [] = 0
  accepted_count k ((root, ps) ∷ l) = key_count k root ps + accepted_count k l

  -- What the handler of a message accepts.
  abbrev pub note :
      ProofService x proofs
      → ProofServiceMessage x
      → List (Hash256 × List ProofType)
      → List (Hash256 × List ProofType)
  note s (request_proof root request ps) l = (root, accepts x proofs s root ps) ∷ l
  note s (ProofServiceMessage.witness_available hash witness) l = l
  note s (ProofServiceMessage.witness_timeout hash) l = l

  -- Two requests for one block that are pending together have one root.
  abbrev pub Agrees : ProofService x proofs → ProofServiceMessage x → Type 0
  Agrees s (request_proof root request ps) = SameRoot x proofs s root request
  Agrees s (ProofServiceMessage.witness_available hash witness) = Unit
  Agrees s (ProofServiceMessage.witness_timeout hash) = Unit

  -- A turn of the event loop of `run`. A worker sends one output for each of its inputs.
  pub data Step (workers : List ProofType) (u v : System) : Type 0 where
    message :
        (m : ProofServiceMessage x) (replies : Replies x)
        → Agrees u.service m
        → v ≡ record {
          service = handle_message x proofs u.service workers m replies;
          accepted = note u.service m u.accepted;
          finished = u.finished;
        }
        → Step workers u v
    output :
        (o : WorkerOutput) (now : x.Seconds)
        → count key_dec (output_key o) u.finished
          < sent_count (output_key o) u.service.worker_inputs
        → v ≡ record {
          service = handle_worker_output x proofs u.service o now;
          accepted = u.accepted;
          finished = output_key o ∷ u.finished;
        }
        → Step workers u v

  pub data Reach (workers : List ProofType) (u : System) : System → Type 0 where
    start : Reach workers u u
    next : {v w : System} → Reach workers u v → Step workers v w → Reach workers u w

  abbrev pub initial : x.ChainConfig → proofs.Cache → System
  initial chain_config cache = record {
    service = new_service x proofs chain_config cache;
    accepted = [];
    finished = [];
  }

  -- For one key: what was accepted is in `requested` or answered, and is pending, at a worker or
  -- answered.
  pub record Balanced (k : Key) (u : System) : Type 0 where
    pub released :
        tracked k u.service.requested + answered k u.service.events ≡ accepted_count k u.accepted
    pub placed :
        pending_count k u.service.pending
          + sent_count k u.service.worker_inputs
          + answered k u.service.events
        ≡ accepted_count k u.accepted + count key_dec k u.finished
    pub finished_le : count key_dec k u.finished ≤ sent_count k u.service.worker_inputs

  pub initial-Balanced :
      (k : Key) (chain_config : x.ChainConfig) (cache : proofs.Cache)
      → Balanced k (initial chain_config cache)
  unfolding new_service
  initial-Balanced k chain_config cache = omega arith

  held :
      (k : Key) (u : System)
      → Balanced k u
      → pending_count k u.service.pending ≤ tracked k u.service.requested
  held k u b = omega arith

  Keeps-Balanced :
      (k : Key) (u : System) (t : ProofService x proofs) (n : ℕ)
      (l : List (Hash256 × List ProofType))
      → Balanced k u
      → Keeps x proofs k n u.service t
      → accepted_count k l ≡ accepted_count k u.accepted + n
      → Balanced k (record { service = t; accepted = l; finished = u.finished })
  Keeps-Balanced k u t n l b a e = record {
    released = omega (arith, a.released);
    placed = omega (arith, a.placed);
    finished_le = omega (arith, a.grows);
  }

  -- Every handler keeps count of what it accepts.
  pub handle_message-Keeps :
      (workers : List ProofType) (k : Key) (u : System) (m : ProofServiceMessage x)
      (replies : Replies x)
      → Balanced k u
      → Agrees u.service m
      → (n : ℕ) × Keeps x proofs k n u.service (handle_message x proofs u.service workers m replies)
        × (accepted_count k (note u.service m u.accepted) ≡ accepted_count k u.accepted + n)
  unfolding handle_message
  handle_message-Keeps workers k u (request_proof root request ps) replies b a = (
    key_count k root (accepts x proofs u.service root ps),
    handle_request_proof-Keeps x proofs k u.service root request ps replies a (held k u b),
    omega arith,
  )
  handle_message-Keeps workers k u (ProofServiceMessage.witness_available hash witness) replies b
        a =
      (
        0,
        handle_witness_available-Keeps x proofs k u.service hash (held k u b) workers witness
            replies.worker_reply,
        omega arith,
      )
  handle_message-Keeps workers k u (ProofServiceMessage.witness_timeout hash) replies b a =
      (0, handle_witness_timeout-Keeps x proofs k u.service hash (held k u b), omega arith)

  -- An output that is due leaves no more outputs than inputs, for any key.
  due-le :
      (k : Key) (u : System) (o : WorkerOutput)
      → Balanced k u
      → count key_dec (output_key o) u.finished < sent_count (output_key o) u.service.worker_inputs
      → ite (key_dec (output_key o) k) 1 0 + count key_dec k u.finished
        ≤ sent_count k u.service.worker_inputs
  due-le k u o b h = elim (key_dec (output_key o) k) [
    | yes e ↦ rw (if_pos _ e) (
        subst (λ q. 1 + count key_dec q u.finished ≤ sent_count q u.service.worker_inputs) e
          (omega arith))
    | no n ↦ rw (if_neg _ n) (omega arith)
  ]

  -- An output that is due answers its key.
  pub due-Answers :
      (k : Key) (u : System) (o : WorkerOutput) (now : x.Seconds)
      → Balanced k u
      → count key_dec (output_key o) u.finished < sent_count (output_key o) u.service.worker_inputs
      → Answers x proofs k
          (ite (key_dec (output_key o) k) 1 0)
          u.service
          (handle_worker_output x proofs u.service o now)
  due-Answers k u o now b h =
      let due = due-le k u o b h in
      handle_worker_output-Answers x proofs k u.service o now (omega arith)

  pub Step-Balanced :
      {workers : List ProofType} {u v : System} (k : Key)
      → Step workers u v
      → Balanced k u
      → Balanced k v
  Step-Balanced {workers} {u} k (message m replies a e) b =
      let kept = handle_message-Keeps workers k u m replies b a in
      rw e (Keeps-Balanced k u _ kept.0 _ b kept.1 kept.2)
  Step-Balanced {workers} {u} k (output o now h e) b =
      let due = due-le k u o b h in
      let a = due-Answers k u o now b h in
      let inputs = ap (sent_count k) a.worker_inputs in
      rw e (record {
        released = omega (arith, a.released);
        placed = omega (arith, a.events, ap (pending_count k) a.pending, inputs);
        finished_le = omega (arith, inputs);
      })

  pub Reach-Balanced :
      {workers : List ProofType} {u v : System} (k : Key)
      → Reach workers u v
      → Balanced k u
      → Balanced k v
  Reach-Balanced k start b = b
  Reach-Balanced k (next r s) b = Step-Balanced k s (Reach-Balanced k r b)
