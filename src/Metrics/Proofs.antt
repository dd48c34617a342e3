-- ===== src/Metrics/Proofs.antt =====
-- crates/server/src/proof.rs, metrics.rs: the metrics of proofs are those of the events that the
-- proof service sends.
use zkboost.Prelude.{
  ℕ, ◌≡◌, refl, ap, sym, ◌∙◌, arith, List, [], ◌∷◌, map, Text, text, ite, if_pos, if_neg, count, ok,
  get, is_empty, is_some, ℕ_discrete, Option-cases, Result-cases, Bool-cases, inl, inr, contains,
}
use zkboost.ProofType.{ProofType, proof_type_dec, as_str, from_str}
use zkboost.ProofType.Names.{from_str-as_str}
use zkboost.Payload.{Hash256, Bytes, NewPayloadRequest, block_hash}
use zkboost.Events.{ProofEvent, FailureReason, internal_error}
use zkboost.External.{External}
use zkboost.Lru.{LruCache}
use zkboost.Worker.{
  NewPayloadRequestWithWitness, ProofResult, proof_ok, proof_err, timeout, with_witness,
}
use zkboost.Proof.{
  Key, ProveRecord, ProofService, PendingRequest, SendReply, sent, full, closed, Replies,
  ProofServiceMessage, request_proof, new_service,
}
use zkboost.Proof.Service.{
  result_label, fail_request, fail_each, finish, handle_worker_output, retain_new, add_pending, ask,
  enqueue, handle_request_proof, send_worker_input, send_each, dispatch, handle_witness_available,
  handle_witness_timeout, handle_message,
}
use zkboost.Proof.System.{System, message, output, Reach, start, next, initial}
use zkboost.Metrics.{Log, Metric, metric_dec, record_prove, prove_total, counter_value}

-- A proof type with the outcome of a proof.
abbrev pub Outcome : Type 0
Outcome = ProofType × Text

-- What an event says of a proof.
abbrev pub event_outcome : ProofEvent → Outcome
event_outcome (ProofEvent.proof_complete inner) = (inner.proof_type, text "success")
event_outcome (ProofEvent.proof_failure inner) = (inner.proof_type, result_label inner.reason)

abbrev recorded_outcome : ProveRecord → Outcome
recorded_outcome r = (r.proof_type, r.result)

-- The log of the calls of `record_prove`.
abbrev pub prove_log : List ProveRecord → Log
prove_log [] = []
prove_log (r ∷ records) =
    record_prove r.proof_type r.result r.duration r.proof_size (prove_log records)

abbrev pub prove_metric : Outcome → Metric
prove_metric (p, status) =
    (prove_total, (text "proof_type", as_str p) ∷ (text "status", status) ∷ [])

unfoldable pub outcome_dec : Discrete Outcome
unfolding proof_type_dec ℕ_discrete
outcome_dec = hlevel (ℕ_discrete, proof_type_dec)

as_str_injective : (p q : ProofType) → as_str p ≡ as_str q → p ≡ q
as_str_injective p q e =
    let same : ok p ≡ from_str (as_str q) = sym (from_str-as_str p) ∙ ap from_str e in
    let same' = same ∙ from_str-as_str q in cc

prove_metric_injective : (a b : Outcome) → prove_metric a ≡ prove_metric b → a ≡ b
prove_metric_injective (p, s) (q, t) e =
    let same : as_str p ≡ as_str q = cc in let type = as_str_injective p q same in cc

same_metric :
    (a b : Outcome)
    → ◌≡◌ {A = ℕ}
        (ite (metric_dec (prove_metric a) (prove_metric b)) 1 0)
        (ite (outcome_dec a b) 1 0)
same_metric a b = elim (outcome_dec a b) [
  | yes e ↦ if_pos _ (ap prove_metric e) 1 0 ∙ sym (if_pos (outcome_dec a b) e 1 0)
  | no n ↦
      if_neg _ (λ e. n (prove_metric_injective a b e)) 1 0 ∙ sym (if_neg (outcome_dec a b) n 1 0)
]

counted :
    (a : Outcome) (records : List ProveRecord)
    → counter_value (prove_metric a) (prove_log records)
      ≡ count outcome_dec a (map recorded_outcome records)
unfolding record_prove
counted a [] = refl
counted a (r ∷ records) = ground (arith, counted a records, same_metric (r.proof_type, r.result) a)

module _ (x : External) (proofs : LruCache Key Bytes) where
  -- Each event has its call of `record_prove`, in the same order.
  abbrev Metered : ProofService x proofs → Type 0
  Metered s = map recorded_outcome s.proves ≡ map event_outcome s.events

  fail_request-Metered :
      (s : ProofService x proofs) (root : Hash256) (p : ProofType) (reason : FailureReason)
      (error : Text) (duration : ℕ)
      → Metered s
      → Metered (fail_request x proofs s root p reason error duration)
  unfolding fail_request
  fail_request-Metered s root p reason error duration h = ap (◌∷◌ (p, result_label reason)) h

  fail_each-Metered :
      (s : ProofService x proofs) (root : Hash256) (ps : List ProofType) (reason : FailureReason)
      (error : Text)
      → Metered s
      → Metered (fail_each x proofs s root ps reason error)
  unfolding fail_each
  fail_each-Metered s root [] reason error h = h
  fail_each-Metered s root (p ∷ ps) reason error h =
      fail_each-Metered (fail_request x proofs s root p reason error 0) root ps reason error
        (fail_request-Metered s root p reason error 0 h)

  finish-Metered :
      (s : ProofService x proofs) (root : Hash256) (p : ProofType) (result : ProofResult)
      (duration : ℕ)
      → Metered s
      → Metered (finish x proofs s root p result duration)
  unfolding finish
  finish-Metered s root p (proof_ok proof) duration h = ap (◌∷◌ (p, text "success")) h
  finish-Metered s root p (proof_err error) duration h =
      fail_request-Metered s root p _ error duration h
  finish-Metered s root p timeout duration h = fail_request-Metered s root p _ _ duration h

  send_worker_input-Metered :
      (s : ProofService x proofs) (workers : List ProofType) (p : ProofType)
      (payload : NewPayloadRequestWithWitness x) (reply : ProofType → SendReply)
      → Metered s
      → Metered (send_worker_input x proofs s workers p payload reply)
  unfolding send_worker_input
  send_worker_input-Metered s workers p payload reply h =
      let failed : (error : Text)
          → Metered (fail_request x proofs s payload.root p internal_error error 0) =
        λ error. fail_request-Metered s payload.root p internal_error error 0 h in
      elim (Bool-cases (contains proof_type_dec workers p)) [
        | inl e ↦
            elim (reply p)
                as (λ q.
                  reply p ≡ q → Metered (send_worker_input x proofs s workers p payload reply)) [
                    | sent ↦ λ f. rw (send_worker_input, e, f) h
                    | full ↦ λ f. rw (send_worker_input, e, f) (failed _)
                    | closed ↦ λ f. rw (send_worker_input, e, f) (failed _)
                  ]
              refl
        | inr e ↦ rw (send_worker_input, e) (failed _)
      ]

  send_each-Metered :
      (s : ProofService x proofs) (workers ps : List ProofType)
      (payload : NewPayloadRequestWithWitness x) (reply : ProofType → SendReply)
      → Metered s
      → Metered (send_each x proofs s workers ps payload reply)
  unfolding send_each
  send_each-Metered s workers [] payload reply h = h
  send_each-Metered s workers (p ∷ ps) payload reply h =
      send_each-Metered (send_worker_input x proofs s workers p payload reply) workers ps payload
        reply (send_worker_input-Metered s workers p payload reply h)

  dispatch-Metered :
      (s : ProofService x proofs) (workers : List ProofType) (r : PendingRequest x)
      (witness : x.Witness) (reply : ProofType → SendReply)
      → Metered s
      → Metered (dispatch x proofs s workers r witness reply)
  unfolding dispatch
  dispatch-Metered s workers r witness reply h =
      elim (Result-cases
        (with_witness x r.new_payload_request r.new_payload_request_root witness s.chain_config)) [
          | inl (input, e) ↦
              rw (e, dispatch) (send_each-Metered s workers r.proof_types input reply h)
          | inr (error, e) ↦ rw (e, dispatch) (fail_each-Metered s _ r.proof_types _ _ h)
        ]

  enqueue-Metered :
      (s : ProofService x proofs) (root : Hash256) (request : NewPayloadRequest x.ExecutionRequests)
      (ps : List ProofType) (replies : Replies x)
      → Metered s
      → Metered (enqueue x proofs s root request ps replies)
  unfolding enqueue ask add_pending
  enqueue-Metered s root request ps replies h =
      elim (Bool-cases (is_some (get ℕ_discrete s.pending (block_hash request)))) [
        | inl e ↦ rw (enqueue, e) h
        | inr e ↦ elim (Option-cases replies.fetch_error) [
          | inl f ↦ rw (enqueue, e, ask, f) h
          | inr (error, f) ↦
              rw (enqueue, e, ask, f) (fail_each-Metered s root ps internal_error _ h)
        ]
      ]

  handle_message-Metered :
      (s : ProofService x proofs) (workers : List ProofType) (m : ProofServiceMessage x)
      (replies : Replies x)
      → Metered s
      → Metered (handle_message x proofs s workers m replies)
  unfolding handle_message handle_request_proof handle_witness_available handle_witness_timeout
  handle_message-Metered s workers (request_proof root request ps) replies h =
      elim (Bool-cases (is_empty (retain_new x proofs s.proof_cache root ps s.requested).0)) [
        | inl e ↦ rw (handle_request_proof, e) h
        | inr e ↦ rw (handle_request_proof, e) (enqueue-Metered _ root request _ replies h)
      ]
  handle_message-Metered s workers (ProofServiceMessage.witness_available hash witness) replies h =
      elim (Option-cases (get ℕ_discrete s.pending hash)) [
        | inl e ↦ rw (handle_witness_available, e) h
        | inr (r, e) ↦
            rw (handle_witness_available, e)
              (dispatch-Metered _ workers r witness replies.worker_reply h)
      ]
  handle_message-Metered s workers (ProofServiceMessage.witness_timeout hash) replies h =
      elim (Option-cases (get ℕ_discrete s.pending hash)) [
        | inl e ↦ rw (handle_witness_timeout, e) h
        | inr (r, e) ↦ rw (handle_witness_timeout, e) (fail_each-Metered _ _ r.proof_types _ _ h)
      ]

  Reach-Metered :
      {workers : List ProofType} {u v : System x proofs}
      → Reach x proofs workers u v
      → Metered u.service
      → Metered v.service
  unfolding handle_worker_output
  Reach-Metered start h = h
  Reach-Metered {workers} (next r (message m replies a e)) h =
      rw e (handle_message-Metered _ workers m replies (Reach-Metered r h))
  Reach-Metered (next r (output o now p e)) h = rw e (
      finish-Metered _ o.new_payload_request_root o.proof_type o.proof_result o.duration
        (Reach-Metered r h))

  -- In every state that the event loop of the proof service reaches from its start, under the
  -- conditions of `Step`: the counter of the proofs of a proof type with an outcome stands at the
  -- number of events about that proof type with that outcome.
  pub prove_total-events :
      {workers : List ProofType} (chain_config : x.ChainConfig) (cache : proofs.Cache)
      {u : System x proofs}
      → Reach x proofs workers (initial x proofs chain_config cache) u
      → (p : ProofType) (status : Text)
      → counter_value (prove_metric (p, status)) (prove_log u.service.proves)
        ≡ count outcome_dec (p, status) (map event_outcome u.service.events)
  unfolding new_service
  prove_total-events chain_config cache {u} r p status =
      counted (p, status) u.service.proves
      ∙ ap (count outcome_dec (p, status)) (Reach-Metered r refl)
