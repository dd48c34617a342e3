-- ===== src/Proof/Refinement.antt =====
-- crates/server/src/proof.rs: what the proof service promises for one root with one proof type, as a
-- machine of three phases, and that every run of the event loop is a run of that machine.
use zkboost.Prelude.{
  ℕ, ◌+◌, ◌-◌, ◌≤◌, ◌≡◌, arith, ap, count, List, ltb, if◌then◌else◌, ◌⊎◌, inl, inr, ℕ_discrete,
}
use zkboost.ProofType.{ProofType}
use zkboost.Payload.{Hash256, Bytes}
use zkboost.External.{External}
use zkboost.Lru.{LruCache}
use zkboost.Proof.{Key, key_dec, ProofService}
use zkboost.Proof.Keys.{tracked-le-one, answered, pending_count, sent_count}
use zkboost.Proof.Accounting.{Keeps}
use zkboost.Proof.System.{
  System, Balanced, accepted_count, Step, message, output, Reach, start, next, handle_message-Keeps,
  due-Answers, Step-Balanced, Reach-Balanced,
}

pub data Phase : Type 0 where
  idle waiting proving : Phase

-- What a client can know about a root with a proof type.
pub record Life : Type 0 where
  pub phase : Phase
  pub accepted : ℕ
  pub answered : ℕ

pub data Move : Life → Life → Type 0 where
  accept :
      {n m : ℕ}
      → Move
          (record { phase = idle; accepted = n; answered = m })
          (record { phase = waiting; accepted = n + 1; answered = m })
  send :
      {n m : ℕ}
      → Move
          (record { phase = waiting; accepted = n; answered = m })
          (record { phase = proving; accepted = n; answered = m })
  fail :
      {n m : ℕ}
      → Move
          (record { phase = waiting; accepted = n; answered = m })
          (record { phase = idle; accepted = n; answered = m + 1 })
  answer :
      {n m : ℕ}
      → Move
          (record { phase = proving; accepted = n; answered = m })
          (record { phase = idle; accepted = n; answered = m + 1 })

pub data Moves (a : Life) : Life → Type 0 where
  stay : Moves a a
  go : {b c : Life} → Moves a b → Move b c → Moves a c

abbrev pub phase_of : ℕ → ℕ → Phase
phase_of p q = if ltb 0 p then waiting else if ltb 0 q then proving else idle

abbrev pub life_of : ℕ → ℕ → ℕ → ℕ → Life
life_of p q c a = record { phase = phase_of p q; accepted = c; answered = a }

place-cases :
    (p q : ℕ) → p + q ≤ 1 → ((p ≡ 0) × (q ≡ 0)) ⊎ (((p ≡ 1) × (q ≡ 0)) ⊎ ((p ≡ 0) × (q ≡ 1)))
place-cases p q h = ground arith

module _ (p q c a p' q' c' a' : ℕ) (before : p + q + a ≡ c) (after : p' + q' + a' ≡ c')
    (accepts_more : c ≤ c') (accepts_one : c' ≤ a + 1) (answers_more : a ≤ a')
    (progress : q + a ≤ q' + a') where
  Moves-from_idle : p ≡ 0 → q ≡ 0 → Moves (life_of p q c a) (life_of p' q' c' a')
  Moves-from_idle e f = elim (place-cases p' q' (omega arith)) [
    | inl g ↦ elim (ℕ_discrete c' c) [
      | yes h ↦ let k : a' ≡ a = omega arith in rw (e, f, g.0, g.1, h, k) stay
      | no h ↦
          let j : c' ≡ c + 1 = omega arith in
          let k : a' ≡ a + 1 = omega arith in rw (e, f, g.0, g.1, j, k) (go (go stay accept) fail)
    ]
    | inr (inl g) ↦
        let j : c' ≡ c + 1 = omega arith in
        let k : a' ≡ a = omega arith in rw (e, f, g.0, j, k) (go stay accept)
    | inr (inr g) ↦
        let j : c' ≡ c + 1 = omega arith in
        let k : a' ≡ a = omega arith in rw (e, f, g.0, g.1, j, k) (go (go stay accept) send)
  ]

  Moves-from_waiting : p ≡ 1 → q ≡ 0 → Moves (life_of p q c a) (life_of p' q' c' a')
  Moves-from_waiting e f =
      let j : c' ≡ c = omega arith in
      elim (place-cases p' q' (omega arith)) [
        | inl g ↦ let k : a' ≡ a + 1 = omega arith in rw (e, g.0, g.1, j, k) (go stay fail)
        | inr (inl g) ↦ let k : a' ≡ a = omega arith in rw (e, g.0, j, k) stay
        | inr (inr g) ↦ let k : a' ≡ a = omega arith in rw (e, g.0, g.1, j, k) (go stay send)
      ]

  Moves-from_proving : p ≡ 0 → q ≡ 1 → Moves (life_of p q c a) (life_of p' q' c' a')
  Moves-from_proving e f =
      let j : c' ≡ c = omega arith in
      elim (place-cases p' q' (omega arith)) [
        | inl g ↦ let k : a' ≡ a + 1 = omega arith in rw (e, f, g.0, g.1, j, k) (go stay answer)
        | inr (inl g) ↦ absurd (omega arith)
        | inr (inr g) ↦ let k : a' ≡ a = omega arith in rw (e, f, g.0, g.1, j, k) stay
      ]

  Moves-between : Moves (life_of p q c a) (life_of p' q' c' a')
  Moves-between = elim (place-cases p q (omega arith)) [
    | inl e ↦ Moves-from_idle e.0 e.1
    | inr (inl e) ↦ Moves-from_waiting e.0 e.1
    | inr (inr e) ↦ Moves-from_proving e.0 e.1
  ]

module _ (x : External) (proofs : LruCache Key Bytes) (k : Key) where
  -- Where the events and the queues of the service are, for one key.
  abbrev pub life : System x proofs → Life
  life u =
      life_of (pending_count k u.service.pending)
        (sent_count k u.service.worker_inputs - count key_dec k u.finished)
        (accepted_count x proofs k u.accepted) (answered k u.service.events)

  -- What a turn of the loop changes for the key, at most.
  record Progresses (u v : System x proofs) : Type 0 where
    accepts_more : accepted_count x proofs k u.accepted ≤ accepted_count x proofs k v.accepted
    accepts_one : accepted_count x proofs k v.accepted ≤ answered k u.service.events + 1
    answers_more : answered k u.service.events ≤ answered k v.service.events
    busy :
        sent_count k u.service.worker_inputs
          - count key_dec k u.finished
          + answered k u.service.events
        ≤ sent_count k v.service.worker_inputs
          - count key_dec k v.finished
          + answered k v.service.events

  Progresses-Moves :
      (u v : System x proofs)
      → Balanced x proofs k u
      → Balanced x proofs k v
      → Progresses u v
      → Moves (life u) (life v)
  Progresses-Moves u v b d m =
      Moves-between _ _ _ _ _ _ _ _ (omega (arith, b.placed, b.finished_le))
        (omega (arith, d.placed, d.finished_le)) m.accepts_more m.accepts_one m.answers_more m.busy

  Keeps-Progresses :
      (u : System x proofs) (t : ProofService x proofs) (n : ℕ)
      (l : List (Hash256 × List ProofType))
      → Balanced x proofs k u
      → Keeps x proofs k n u.service t
      → accepted_count x proofs k l ≡ accepted_count x proofs k u.accepted + n
      → Progresses u (record { service = t; accepted = l; finished = u.finished })
  Keeps-Progresses u t n l b a e = record {
    accepts_more = omega (arith, e);
    accepts_one = omega (arith, e, a.fresh, b.released);
    answers_more = a.answers;
    busy = omega (arith, a.grows, a.answers);
  }

  Step-Progresses :
      {workers : List ProofType} {u v : System x proofs}
      → Step x proofs workers u v
      → Balanced x proofs k u
      → Progresses u v
  Step-Progresses {workers} {u} (message m replies a e) b =
      let kept = handle_message-Keeps x proofs workers k u m replies b a in
      rw e (Keeps-Progresses u _ kept.0 _ b kept.1 kept.2)
  Step-Progresses {workers} {u} (output o now h e) b =
      let a = due-Answers x proofs k u o now b h in
      let inputs = ap (sent_count k) a.worker_inputs in
      rw e (record {
        accepts_more = omega arith;
        accepts_one = omega (arith, b.released, tracked-le-one k u.service.requested);
        answers_more = omega (arith, a.events);
        busy = omega (arith, a.events, inputs, b.finished_le);
      })

  Moves-trans : {a b c : Life} → Moves a b → Moves b c → Moves a c
  Moves-trans m stay = m
  Moves-trans m (go n o) = go (Moves-trans m n) o

  -- Where two requests that are pending for one block have one root and a worker sends at most one
  -- output for an input, every run of the event loop is, for each root and proof type, a run of the
  -- machine: the use is accepted when idle, waits for its witness, is proved by a worker, and is
  -- answered by one event before it is accepted again.
  pub Reach-Moves :
      {workers : List ProofType} {u v : System x proofs}
      → Balanced x proofs k u
      → Reach x proofs workers u v
      → Moves (life u) (life v)
  Reach-Moves b start = stay
  Reach-Moves b (next r s) =
      let c = Reach-Balanced x proofs k r b in
      Moves-trans (Reach-Moves b r)
        (Progresses-Moves _ _ c (Step-Balanced x proofs k s c) (Step-Progresses s c))
