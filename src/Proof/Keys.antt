-- ===== src/Proof/Keys.antt =====
-- Counting the key of a request, a root with a proof type, through the state of the proof service
-- of crates/server/src/proof.rs.
use zkboost.Prelude.{
  ℕ, ◌+◌, ◌≤◌, ◌≡◌, refl, arith, List, [], ◌∷◌, true, bit, ite, Option, none, some, get,
  insert_entry, remove_entry, contains, insert, extend, contains-insert, ℕ_discrete,
}
use zkboost.ProofType.{ProofType, proof_type_dec}
use zkboost.Payload.{Hash256, Bytes}
use zkboost.Events.{ProofEvent, event_root, event_proof_type}
use zkboost.External.{External}
use zkboost.Lru.{LruCache}
use zkboost.Worker.{NewPayloadRequestWithWitness}
use zkboost.Proof.{Key, key_dec, PendingRequest}
use zkboost.Proof.Service.{retain_new}

-- 1 if the key is in the set `requested`.
abbrev pub tracked : Key → List Key → ℕ
tracked k requested = bit (contains key_dec requested k)

pub tracked-le-one : (k : Key) (requested : List Key) → tracked k requested ≤ 1
tracked-le-one k requested = ground arith

-- How often a key stands among the proof types of a root.
abbrev pub key_count : Key → Hash256 → List ProofType → ℕ
key_count k root [] = 0
key_count k root (p ∷ ps) = ite (key_dec (root, p) k) 1 0 + key_count k root ps

-- How many events are about a key.
abbrev pub answered : Key → List ProofEvent → ℕ
answered k [] = 0
answered k (e ∷ es) = ite (key_dec (event_root e, event_proof_type e) k) 1 0 + answered k es

module _ {x : External} where
  -- How often a key is among the requests that wait for a witness.
  abbrev pub pending_count : Key → List (Hash256 × PendingRequest x) → ℕ
  pending_count k [] = 0
  pending_count k ((h, r) ∷ m) =
      key_count k r.new_payload_request_root r.proof_types + pending_count k m

  -- How many inputs for a key were sent to a worker.
  abbrev pub sent_count : Key → List (ProofType × NewPayloadRequestWithWitness x) → ℕ
  sent_count k [] = 0
  sent_count k ((p, payload) ∷ l) = ite (key_dec (payload.root, p) k) 1 0 + sent_count k l

  abbrev pub entry_count : Key → Option (PendingRequest x) → ℕ
  entry_count k none = 0
  entry_count k (some r) = key_count k r.new_payload_request_root r.proof_types

  -- Taking a block out of the pending requests takes its keys out, and no others.
  pub pending_count-remove_entry :
      (k : Key) (h : Hash256) (m : List (Hash256 × PendingRequest x))
      → pending_count k (remove_entry ℕ_discrete h m) + entry_count k (get ℕ_discrete m h)
        ≡ pending_count k m
  unfolding remove_entry
  pending_count-remove_entry k h [] = refl
  pending_count-remove_entry k h ((j, r) ∷ m) = ground (arith, pending_count-remove_entry k h m)

  pub pending_count-insert_entry :
      (k : Key) (h : Hash256) (r : PendingRequest x) (m : List (Hash256 × PendingRequest x))
      → pending_count k (insert_entry ℕ_discrete h r m) + entry_count k (get ℕ_discrete m h)
        ≡ pending_count k m + key_count k r.new_payload_request_root r.proof_types
  unfolding insert_entry
  pending_count-insert_entry k h r [] = omega arith
  pending_count-insert_entry k h r ((j, q) ∷ m) = ground (arith, pending_count-insert_entry k h r m)

-- The set tracks a key once more exactly if `retain_new` keeps it.
pub tracked-retain_new :
    (x : External) (proofs : LruCache Key Bytes) (k : Key) (cache : proofs.Cache) (root : Hash256)
    (ps : List ProofType) (requested : List Key)
    → tracked k (retain_new x proofs cache root ps requested).1
      ≡ tracked k requested + key_count k root (retain_new x proofs cache root ps requested).0
unfolding retain_new
tracked-retain_new x proofs k cache root [] requested = omega arith
tracked-retain_new x proofs k cache root (p ∷ ps) requested = ground (
  arith,
  contains-insert key_dec (root, p) k requested,
  tracked-retain_new x proofs k cache root ps requested,
  tracked-retain_new x proofs k cache root ps (insert key_dec (root, p) requested),
)

key_count-contains :
    (root : Hash256) (p : ProofType) (ps : List ProofType)
    → contains proof_type_dec ps p ≡ true
    → 1 ≤ key_count (root, p) root ps
key_count-contains root p [] h = cc
key_count-contains root p (q ∷ ps) h = ground (arith, key_count-contains root p ps)

-- A union of two sets of proof types that share no key holds the keys of both.
pub key_count-extend :
    (k : Key) (root : Hash256) (ps qs : List ProofType)
    → key_count k root ps + key_count k root qs ≤ 1
    → key_count k root (extend proof_type_dec ps qs) ≡ key_count k root ps + key_count k root qs
unfolding extend insert
key_count-extend k root ps [] h = omega arith
key_count-extend k root ps (q ∷ qs) h = ground (
  arith,
  key_count-contains root q ps,
  key_count-extend k root ps qs,
  key_count-extend k root (q ∷ ps) qs,
)
