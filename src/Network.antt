-- ===== src/Network.antt =====
-- crates/server/src/server.rs, proof.rs, witness.rs: the proof service and the witness service, each
-- in its event loop, with the channels between them.
pub mod Outstanding
pub mod Settled
use zkboost.Prelude.{ℕ, ◌<◌, ◌≡◌, ap, List, [], ◌∷◌, ◌++◌, count, ℕ_discrete}
use zkboost.ProofType.{ProofType}
use zkboost.Payload.{Hash256, Bytes}
use zkboost.External.{External}
use zkboost.Lru.{LruCache}
use zkboost.Worker.{WorkerOutput}
use zkboost.Witness.{Attempt}
use zkboost.Proof.{Key, key_dec, ProofServiceMessage, Replies}
use zkboost.Proof.Keys.{sent_count}
use zkboost.Proof.Service
use zkboost.Proof.System
use zkboost.Witness
use zkboost.Witness.Steps

module _ (x : External) (proofs : LruCache Key Bytes) (witnesses : LruCache Hash256 x.Witness) where
  -- Both services. The channel of `FetchWitness` holds the messages of `fetches` that are not among
  -- `asked`, the oldest the last; the channel of `WitnessAvailable` and `WitnessTimeout` holds the
  -- messages of `proof_messages` that are not among `delivered`.
  pub record Network : Type 0 where
    pub proof : System.System x proofs
    pub witness : Steps.System x witnesses
    pub delivered : List (ProofServiceMessage x)

  -- The turn of the proof service that handles a message.
  abbrev pub proof_turn :
      List ProofType
      → System.System x proofs
      → ProofServiceMessage x
      → Replies x
      → System.System x proofs
  proof_turn workers s m replies = record {
    service = Service.handle_message x proofs s.service workers m replies;
    accepted = System.note x proofs s.service m s.accepted;
    finished = s.finished;
  }

  pub data Step (workers : List ProofType) (u v : Network) : Type 0 where
    -- a handler of the HTTP server sends a message to the proof service
    request :
        (m : ProofServiceMessage x) (replies : Replies x)
        → System.Agrees x proofs u.proof.service m
        → v ≡ record u { proof = proof_turn workers u.proof m replies }
        → Step workers u v
    -- the witness service receives the next `FetchWitness`
    fetch :
        (block_hash : Hash256) (later : List Hash256)
        → u.proof.service.fetches ≡ later ++ (block_hash ∷ u.witness.asked)
        → v ≡ record u {
          witness = record {
            service = Witness.handle_message x witnesses u.witness.service block_hash;
            asked = block_hash ∷ u.witness.asked;
          };
        }
        → Step workers u v
    -- a task of the witness service begins or ends
    begun :
        (block_hash : Hash256) (now : x.Seconds)
        → 0 < count ℕ_discrete block_hash u.witness.service.tasks
        → v ≡ record u {
          witness = record u.witness {
            service = Witness.start_task x witnesses u.witness.service block_hash now;
          };
        }
        → Step workers u v
    joined :
        (block_hash : Hash256) (attempts : List (Attempt x.Witness)) (now : x.Seconds)
        → 0 < count ℕ_discrete block_hash u.witness.service.tasks
        → v ≡ record u {
          witness = record u.witness {
            service = Witness.join_next x witnesses u.witness.service block_hash attempts now;
          };
        }
        → Step workers u v
    -- the proof service receives the next message of the witness service
    deliver :
        (m : ProofServiceMessage x) (later : List (ProofServiceMessage x)) (replies : Replies x)
        → u.witness.service.proof_messages ≡ later ++ (m ∷ u.delivered)
        → System.Agrees x proofs u.proof.service m
        → v ≡ record u { proof = proof_turn workers u.proof m replies; delivered = m ∷ u.delivered }
        → Step workers u v
    -- the proof service receives the output of a worker
    output :
        (o : WorkerOutput) (now : x.Seconds)
        → count key_dec (System.output_key x proofs o) u.proof.finished
          < sent_count (System.output_key x proofs o) u.proof.service.worker_inputs
        → v ≡ record u {
          proof = record {
            service = Service.handle_worker_output x proofs u.proof.service o now;
            accepted = u.proof.accepted;
            finished = System.output_key x proofs o ∷ u.proof.finished;
          };
        }
        → Step workers u v

  pub data Reach (workers : List ProofType) (u : Network) : Network → Type 0 where
    start : Reach workers u u
    next : {v w : Network} → Reach workers u v → Step workers v w → Reach workers u w

  abbrev pub initial : x.ChainConfig → proofs.Cache → ℕ → Network
  initial chain_config cache witness_cache_size = record {
    proof = System.initial x proofs chain_config cache;
    witness = Steps.initial x witnesses witness_cache_size;
    delivered = [];
  }

  -- What happens to one service is a run of that service.
  pub Reach-proof :
      {workers : List ProofType} {u v : Network}
      → Reach workers u v
      → System.Reach x proofs workers u.proof v.proof
  Reach-proof start = System.start
  Reach-proof (next r (request m replies a e)) =
      System.next (Reach-proof r) (System.message m replies a (ap (λ q. q.proof) e))
  Reach-proof (next r (fetch g later i e)) = rw (ap (λ q. q.proof) e) (Reach-proof r)
  Reach-proof (next r (begun g now p e)) = rw (ap (λ q. q.proof) e) (Reach-proof r)
  Reach-proof (next r (joined g attempts now p e)) = rw (ap (λ q. q.proof) e) (Reach-proof r)
  Reach-proof (next r (deliver m later replies i a e)) =
      System.next (Reach-proof r) (System.message m replies a (ap (λ q. q.proof) e))
  Reach-proof (next r (output o now p e)) =
      System.next (Reach-proof r) (System.output o now p (ap (λ q. q.proof) e))

  pub Reach-witness :
      {workers : List ProofType} {u v : Network}
      → Reach workers u v
      → Steps.Reach x witnesses u.witness v.witness
  Reach-witness start = Steps.start
  Reach-witness (next r (request m replies a e)) = rw (ap (λ q. q.witness) e) (Reach-witness r)
  Reach-witness (next r (fetch g later i e)) =
      Steps.next (Reach-witness r) (Steps.message g (ap (λ q. q.witness) e))
  Reach-witness (next r (begun g now p e)) =
      Steps.next (Reach-witness r) (Steps.begun g now p (ap (λ q. q.witness) e))
  Reach-witness (next r (joined g attempts now p e)) =
      Steps.next (Reach-witness r) (Steps.joined g attempts now p (ap (λ q. q.witness) e))
  Reach-witness (next r (deliver m later replies i a e)) =
      rw (ap (λ q. q.witness) e) (Reach-witness r)
  Reach-witness (next r (output o now p e)) = rw (ap (λ q. q.witness) e) (Reach-witness r)
