-- ===== src/Witness/Effects.antt =====
-- crates/server/src/witness.rs: what the turns of the event loop do to the tasks of a block and to
-- the messages about it.
use zkboost.Prelude.{
  ℕ, ◌+◌, ◌≤◌, ◌<◌, ◌≡◌, refl, ap, arith, List, ite, bit, count, Option, some, none, contains, ◌⊎◌,
  inl, inr, ℕ_discrete, Option-cases, Bool-cases,
}
use zkboost.Payload.{Hash256}
use zkboost.External.{External}
use zkboost.Lru.{LruCache}
use zkboost.Witness.{
  Attempt, WitnessService, handle_message, handle_task_result, fetch_witness, take_task, join_next,
}
use zkboost.Witness.Steps.{answers, count-take_task}

module _ (x : External) (witnesses : LruCache Hash256 x.Witness) (h : Hash256) where
  -- What is under way for the block: its tasks and the messages about it.
  abbrev pub under_way : WitnessService x witnesses → ℕ
  under_way s = count ℕ_discrete h s.tasks + answers x witnesses h s.proof_messages

  -- From `s` to `t`, `n` uses of the block came under way, or it had a task already.
  pub record Takes (n : ℕ) (s t : WitnessService x witnesses) : Type 0 where
    pub sends : answers x witnesses h s.proof_messages ≤ answers x witnesses h t.proof_messages
    pub keeps : under_way s ≤ under_way t
    pub takes : (under_way s + n ≤ under_way t) ⊎ (1 ≤ count ℕ_discrete h t.tasks)

  -- A message about `g`.
  pub handle_message-Takes :
      (s : WitnessService x witnesses) (g : Hash256)
      → count ℕ_discrete h s.tasks ≡ bit (contains ℕ_discrete s.requested h)
      → Takes (ite (ℕ_discrete g h) 1 0) s (handle_message x witnesses s g)
  unfolding handle_message
  handle_message-Takes s g one = elim (Option-cases (witnesses.peek s.witness_cache g)) [
    | inl e ↦ elim (Bool-cases (contains ℕ_discrete s.requested g)) [
      | inl c ↦
          rw (handle_message, e, c)
            (record {
              sends = omega arith;
              keeps = omega arith;
              takes = elim (ℕ_discrete g h) [
                | yes p ↦ inr (ground (arith, p, c))
                | no p ↦ inl (ground (arith, p))
              ];
            })
      | inr c ↦
          rw (handle_message, e, c)
            (record { sends = omega arith; keeps = ground arith; takes = inl (omega arith) })
    ]
    | inr (w, e) ↦
        rw (handle_message, e)
          (record { sends = omega arith; keeps = ground arith; takes = inl (omega arith) })
  ]

  handle_task_result-sends :
      (s : WitnessService x witnesses) (g : Hash256) (r : Option (x.Witness × ℕ)) (now : x.Seconds)
      → answers x witnesses h (handle_task_result x witnesses s g r now).proof_messages
        ≡ ite (ℕ_discrete g h) 1 0 + answers x witnesses h s.proof_messages
  unfolding handle_task_result
  handle_task_result-sends s g (some (w, size)) now = refl
  handle_task_result-sends s g none now = refl

  handle_task_result-tasks :
      (s : WitnessService x witnesses) (g : Hash256) (r : Option (x.Witness × ℕ)) (now : x.Seconds)
      → (handle_task_result x witnesses s g r now).tasks ≡ s.tasks
  unfolding handle_task_result
  handle_task_result-tasks s g (some (w, size)) now = refl
  handle_task_result-tasks s g none now = refl

  -- A result that is handled once its task is taken out.
  handle_task_result-Takes :
      (s s' : WitnessService x witnesses) (g : Hash256) (r : Option (x.Witness × ℕ))
      (now : x.Seconds)
      → 0 < count ℕ_discrete g s.tasks
      → s'.tasks ≡ take_task x witnesses g s.tasks
      → s'.proof_messages ≡ s.proof_messages
      → Takes 0 s (handle_task_result x witnesses s' g r now)
  handle_task_result-Takes s s' g r now p tasks messages =
      let sent = handle_task_result-sends s' g r now in
      let same = ap (answers x witnesses h) messages in
      let kept = ap (count ℕ_discrete h) (handle_task_result-tasks s' g r now) in
      let left = ap (count ℕ_discrete h) tasks in
      let taken = count-take_task x witnesses g h s.tasks p in
      record {
        sends = omega (arith, sent, same);
        keeps = omega (arith, sent, same, kept, left, taken);
        takes = inl (omega (arith, sent, same, kept, left, taken));
      }

  -- The end of a task of `g`.
  pub join_next-Takes :
      (s : WitnessService x witnesses) (g : Hash256) (attempts : List (Attempt x.Witness))
      (now : x.Seconds)
      → 0 < count ℕ_discrete g s.tasks
      → Takes 0 s (join_next x witnesses s g attempts now)
  unfolding join_next
  join_next-Takes s g attempts now p =
      handle_task_result-Takes s _ g (fetch_witness attempts).1 now p refl refl
