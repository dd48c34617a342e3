-- ===== src/Network/Outstanding.antt =====
-- crates/server/src/proof.rs, witness.rs: a block that is pending in the proof service is on its way
-- through the channels, or has a task in the witness service.
use zkboost.Prelude.{
  ℕ, ◌+◌, ◌≤◌, ◌≡◌, ap, arith, List, [], ◌∷◌, ◌++◌, count, count-append, entries, ite, bit, get,
  contains, if_pos, if_neg, Option-cases, entries-get-none, ◌∙◌, ℕ_discrete, inl, inr,
}
use zkboost.ProofType.{ProofType}
use zkboost.Payload.{Hash256, Bytes}
use zkboost.External.{External}
use zkboost.Lru.{LruCache}
use zkboost.Proof.{Key, ProofServiceMessage, ProofService, request_proof, Replies, new_service}
use zkboost.Proof.Service.{handle_message}
use zkboost.Proof.Asking.{handle_request_proof-Asks}
use zkboost.Proof.Blocks.{
  Settled, handle_witness_available-Settled, handle_witness_timeout-Settled,
  handle_worker_output-SameBlocks,
}
use zkboost.Witness.Steps.{answers, tasks-requested}
use zkboost.Witness.Effects.{handle_message-Takes, join_next-Takes}
use zkboost.Witness
use zkboost.Network.{
  Network, Step, request, fetch, begun, joined, deliver, output, Reach, start, next, initial,
  Reach-witness,
}

module _ (x : External) (proofs : LruCache Key Bytes) (witnesses : LruCache Hash256 x.Witness)
    (h : Hash256) where
  -- How many messages of the block the witness service has received, and how many of its own were.
  pub record Outstanding (u : Network x proofs witnesses) : Type 0 where
    pub received : count ℕ_discrete h u.witness.asked ≤ count ℕ_discrete h u.proof.service.fetches
    pub arrived :
        answers x witnesses h u.delivered ≤ answers x witnesses h u.witness.service.proof_messages
    pub once : entries ℕ_discrete h u.proof.service.pending ≤ 1
    pub covered :
        entries ℕ_discrete h u.proof.service.pending
          + count ℕ_discrete h u.witness.asked
          + answers x witnesses h u.delivered
        ≤ count ℕ_discrete h u.proof.service.fetches
          + count ℕ_discrete h u.witness.service.tasks
          + answers x witnesses h u.witness.service.proof_messages

  -- A message of the witness service about a block.
  abbrev about : ProofServiceMessage x → ℕ
  about m = answers x witnesses h (m ∷ [])

  answers-append :
      (l m : List (ProofServiceMessage x))
      → answers x witnesses h (l ++ m) ≡ answers x witnesses h l + answers x witnesses h m
  answers-append [] m = omega arith
  answers-append (request_proof root r ps ∷ l) m = answers-append l m
  answers-append (ProofServiceMessage.witness_available g w ∷ l) m =
      omega (arith, answers-append l m)
  answers-append (ProofServiceMessage.witness_timeout g ∷ l) m = omega (arith, answers-append l m)

  -- What a message does to the block in the proof service.
  record Handles (m : ProofServiceMessage x) (s t : ProofService x proofs) : Type 0 where
    fetched :
        entries ℕ_discrete h t.pending + count ℕ_discrete h s.fetches
        ≤ entries ℕ_discrete h s.pending + count ℕ_discrete h t.fetches
    grows : count ℕ_discrete h s.fetches ≤ count ℕ_discrete h t.fetches
    once : entries ℕ_discrete h s.pending ≤ 1 → entries ℕ_discrete h t.pending + about m ≤ 1

  Settled-once :
      (g : Hash256) (s t : ProofService x proofs)
      → Settled x proofs g s t
      → entries ℕ_discrete h s.pending ≤ 1
      → entries ℕ_discrete h t.pending + ite (ℕ_discrete g h) 1 0 ≤ 1
  Settled-once g s t a one = elim (ℕ_discrete g h) [
    | no n ↦ rw (if_neg _ n) (omega (arith, a.others h))
    | yes p ↦ rw (if_pos _ p) (elim (Option-cases (get ℕ_discrete s.pending g)) [
      | inl e ↦
          let free = entries-get-none ℕ_discrete g s.pending e in
          ground (arith, a.others h, free, p)
      | inr (r, e) ↦ ground (arith, a.others h, p, e)
    ])
  ]

  Settled-Handles :
      (g : Hash256) (m : ProofServiceMessage x) (s t : ProofService x proofs)
      → about m ≡ ite (ℕ_discrete g h) 1 0
      → Settled x proofs g s t
      → Handles m s t
  Settled-Handles g m s t e a =
      let same = ap (count ℕ_discrete h) a.fetches in
      record {
        fetched = omega (arith, a.others h, same);
        grows = omega (arith, same);
        once = λ one. omega (arith, e, Settled-once g s t a one);
      }

  handle_message-Handles :
      (workers : List ProofType) (s : ProofService x proofs) (m : ProofServiceMessage x)
      (replies : Replies x)
      → Handles m s (handle_message x proofs s workers m replies)
  unfolding handle_message
  handle_message-Handles workers s (request_proof root r ps) replies =
      let a = handle_request_proof-Asks x proofs s root r h ps replies in
      record { fetched = a.fetched; grows = a.grows; once = λ one. omega (arith, a.once one) }
  handle_message-Handles workers s (ProofServiceMessage.witness_available g w) replies =
      Settled-Handles g _ s _ (omega arith)
        (handle_witness_available-Settled x proofs s g workers w replies.worker_reply)
  handle_message-Handles workers s (ProofServiceMessage.witness_timeout g) replies =
      Settled-Handles g _ s _ (omega arith) (handle_witness_timeout-Settled x proofs s g)

  -- One task for a block that the witness service has in `requested`.
  abbrev OneTask : Network x proofs witnesses → Type 0
  OneTask u =
      count ℕ_discrete h u.witness.service.tasks
      ≡ bit (contains ℕ_discrete u.witness.service.requested h)

  Step-Outstanding :
      {workers : List ProofType} {u v : Network x proofs witnesses}
      → Step x proofs witnesses workers u v
      → OneTask u
      → Outstanding u
      → Outstanding v
  Step-Outstanding {workers} {u} (request m replies a e) one b =
      let handled = handle_message-Handles workers u.proof.service m replies in
      rw e (record {
        received = omega (arith, handled.grows, b.received);
        arrived = b.arrived;
        once = omega (arith, handled.once b.once);
        covered = omega (arith, handled.fetched, b.covered);
      })
  Step-Outstanding {workers} {u} (fetch g later i e) one b =
      let took = handle_message-Takes x witnesses h u.witness.service g one in
      let queued =
        ap (count ℕ_discrete h) i ∙ count-append ℕ_discrete h later (g ∷ u.witness.asked) in
      rw e (record {
        received = omega (arith, queued);
        arrived = omega (arith, took.sends, b.arrived);
        once = b.once;
        covered = elim took.takes [
          | inl t ↦ omega (arith, t, b.covered)
          | inr t ↦ omega (arith, t, b.once, queued, b.arrived, took.sends)
        ];
      })
  Step-Outstanding {workers} {u} (begun g now p e) one b =
      unfold Witness.start_task in
      rw e
        (record { received = b.received; arrived = b.arrived; once = b.once; covered = b.covered })
  Step-Outstanding {workers} {u} (joined g attempts now p e) one b =
      let took = join_next-Takes x witnesses h u.witness.service g attempts now p in
      rw e (record {
        received = b.received;
        arrived = omega (arith, took.sends, b.arrived);
        once = b.once;
        covered = omega (arith, took.keeps, b.covered);
      })
  Step-Outstanding {workers} {u} (deliver m later replies i a e) one b =
      let handled = handle_message-Handles workers u.proof.service m replies in
      let queued = ap (answers x witnesses h) i ∙ answers-append later (m ∷ u.delivered) in
      let one_more = answers-append (m ∷ []) u.delivered in
      rw e (record {
        received = omega (arith, handled.grows, b.received);
        arrived = omega (arith, queued);
        once = omega (arith, handled.once b.once);
        covered = omega (
          arith,
          handled.fetched,
          handled.once b.once,
          handled.grows,
          one_more,
          queued,
          b.received,
          b.covered,
        );
      })
  Step-Outstanding {workers} {u} (output o now p e) one b =
      let a = handle_worker_output-SameBlocks x proofs u.proof.service o now in
      let entered = ap (entries ℕ_discrete h) a.pending in
      let asked = ap (count ℕ_discrete h) a.fetches in
      rw e (record {
        received = omega (arith, asked, b.received);
        arrived = b.arrived;
        once = omega (arith, entered, b.once);
        covered = omega (arith, entered, asked, b.covered);
      })

  initial-Outstanding :
      (chain_config : x.ChainConfig) (cache : proofs.Cache) (size : ℕ)
      → Outstanding (initial x proofs witnesses chain_config cache size)
  unfolding new_service Witness.new_service
  initial-Outstanding chain_config cache size = record {
    received = omega arith;
    arrived = omega arith;
    once = omega arith;
    covered = omega arith;
  }

  pub Reach-Outstanding :
      {workers : List ProofType} (chain_config : x.ChainConfig) (cache : proofs.Cache) (size : ℕ)
      {u : Network x proofs witnesses}
      → Reach x proofs witnesses workers (initial x proofs witnesses chain_config cache size) u
      → Outstanding u
  Reach-Outstanding chain_config cache size start = initial-Outstanding chain_config cache size
  Reach-Outstanding chain_config cache size (next r s) =
      Step-Outstanding s (tasks-requested x witnesses size (Reach-witness x proofs witnesses r) h)
        (Reach-Outstanding chain_config cache size r)
