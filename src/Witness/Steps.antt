-- ===== src/Witness/Steps.antt =====
-- crates/server/src/witness.rs: the service in the course of its event loop.
use zkboost.Prelude.{
  Text, ℕ, ◌+◌, ◌≤◌, ◌<◌, ◌≡◌, refl, arith, List, [], ◌∷◌, ite, count, Option, some, none, contains,
  contains-insert, contains-remove, insert, true, false, bit, Option-cases, Bool-cases, inl, inr,
  ℕ_discrete,
}
use zkboost.Payload.{Hash256}
use zkboost.External.{External}
use zkboost.Lru.{LruCache}
use zkboost.Proof.{ProofServiceMessage, request_proof}
use zkboost.Witness.{
  start_task, Attempt, WitnessService, new_service, handle_message, handle_task_result,
  fetch_witness, take_task, join_next,
}

module _ (x : External) (witnesses : LruCache Hash256 x.Witness) where
  -- How many messages about a block were sent to the proof service.
  abbrev pub answers : Hash256 → List (ProofServiceMessage x) → ℕ
  answers h [] = 0
  answers h (ProofServiceMessage.witness_available g witness ∷ l) =
      ite (ℕ_discrete g h) 1 0 + answers h l
  answers h (ProofServiceMessage.witness_timeout g ∷ l) = ite (ℕ_discrete g h) 1 0 + answers h l
  answers h (request_proof root request proof_types ∷ l) = answers h l

  -- The service, with the blocks of the messages that it has handled.
  pub record System : Type 0 where
    pub service : WitnessService x witnesses
    pub asked : List Hash256

  -- A turn of the event loop: a message, or a task that begins or ends.
  pub data Step (u v : System) : Type 0 where
    message :
        (block_hash : Hash256)
        → v ≡ record {
          service = handle_message x witnesses u.service block_hash;
          asked = block_hash ∷ u.asked;
        }
        → Step u v
    begun :
        (block_hash : Hash256) (now : x.Seconds)
        → 0 < count ℕ_discrete block_hash u.service.tasks
        → v ≡ record { service = start_task x witnesses u.service block_hash now; asked = u.asked }
        → Step u v
    joined :
        (block_hash : Hash256) (attempts : List (Attempt x.Witness)) (now : x.Seconds)
        → 0 < count ℕ_discrete block_hash u.service.tasks
        → v ≡ record {
          service = join_next x witnesses u.service block_hash attempts now;
          asked = u.asked;
        }
        → Step u v

  pub data Reach (u : System) : System → Type 0 where
    start : Reach u u
    next : {v w : System} → Reach u v → Step v w → Reach u w

  abbrev pub initial : ℕ → System
  initial witness_cache_size = record {
    service = new_service x witnesses witness_cache_size;
    asked = [];
  }

  record Balanced (h : Hash256) (u : System) : Type 0 where
    one_task : count ℕ_discrete h u.service.tasks ≡ bit (contains ℕ_discrete u.service.requested h)
    at_most :
        answers h u.service.proof_messages + count ℕ_discrete h u.service.tasks
        ≤ count ℕ_discrete h u.asked
    at_least :
        0 < count ℕ_discrete h u.asked
        → 0 < answers h u.service.proof_messages + count ℕ_discrete h u.service.tasks

  pub count-take_task :
      (g h : Hash256) (tasks : List Hash256)
      → 0 < count ℕ_discrete g tasks
      → ite (ℕ_discrete g h) 1 0 + count ℕ_discrete h (take_task x witnesses g tasks)
        ≡ count ℕ_discrete h tasks
  unfolding take_task
  count-take_task g h [] p = absurd (omega arith)
  count-take_task g h (i ∷ tasks) p = ground (arith, count-take_task g h tasks)

  sent-Balanced :
      (g h : Hash256) (u : System) (w : x.Witness)
      → Balanced h u
      → Balanced h (record {
        service = record u.service {
          proof_messages = ProofServiceMessage.witness_available g w ∷ u.service.proof_messages;
        };
        asked = g ∷ u.asked;
      })
  sent-Balanced g h u w b = record {
    one_task = b.one_task;
    at_most = omega (arith, b.at_most);
    at_least = λ p. ground (arith, b.at_least);
  }

  spawned-Balanced :
      (g h : Hash256) (u : System)
      → contains ℕ_discrete u.service.requested g ≡ false
      → Balanced h u
      → Balanced h (record {
        service = record u.service {
          requested = insert ℕ_discrete g u.service.requested;
          tasks = g ∷ u.service.tasks;
        };
        asked = g ∷ u.asked;
      })
  spawned-Balanced g h u c b = record {
    one_task = ground (arith, b.one_task, contains-insert ℕ_discrete g h u.service.requested);
    at_most = omega (arith, b.at_most);
    at_least = λ p. ground (arith, b.at_least);
  }

  running-Balanced :
      (g h : Hash256) (u : System)
      → contains ℕ_discrete u.service.requested g ≡ true
      → Balanced h u
      → Balanced h (record { service = u.service; asked = g ∷ u.asked })
  running-Balanced g h u c b = record {
    one_task = b.one_task;
    at_most = omega (arith, b.at_most);
    at_least = λ p. ground (arith, b.one_task, b.at_least);
  }

  message-Balanced :
      (g h : Hash256) (u : System)
      → Balanced h u
      → Balanced h
          (record { service = handle_message x witnesses u.service g; asked = g ∷ u.asked })
  unfolding handle_message
  message-Balanced g h u b = elim (Option-cases (witnesses.peek u.service.witness_cache g)) [
    | inl e ↦ elim (Bool-cases (contains ℕ_discrete u.service.requested g)) [
      | inl c ↦ rw (handle_message, e, c) (running-Balanced g h u c b)
      | inr c ↦ rw (handle_message, e, c) (spawned-Balanced g h u c b)
    ]
    | inr (w, e) ↦ rw (handle_message, e) (sent-Balanced g h u w b)
  ]

  begun-Balanced :
      (g h : Hash256) (u : System) (now : x.Seconds)
      → Balanced h u
      → Balanced h (record { service = start_task x witnesses u.service g now; asked = u.asked })
  unfolding start_task
  begun-Balanced g h u now b = record {
    one_task = b.one_task;
    at_most = b.at_most;
    at_least = b.at_least;
  }

  task-Balanced :
      (g h : Hash256) (u : System) (fetches : List (Text × ℕ)) (r : Option (x.Witness × ℕ))
      (now : x.Seconds)
      → 0 < count ℕ_discrete g u.service.tasks
      → Balanced h u
      → Balanced h (record {
        service =
            handle_task_result x witnesses
              (record u.service {
                tasks = take_task x witnesses g u.service.tasks;
                fetches = fetches;
              })
              g
              r
              now;
        asked = u.asked;
      })
  unfolding handle_task_result
  task-Balanced g h u fetches (some (w, size)) now p b = record {
    one_task = ground (
      arith,
      b.one_task,
      contains-remove ℕ_discrete g h u.service.requested,
      count-take_task g h u.service.tasks,
    );
    at_most = omega (arith, b.at_most, count-take_task g h u.service.tasks);
    at_least = λ q. ground (arith, b.at_least, count-take_task g h u.service.tasks);
  }
  task-Balanced g h u fetches none now p b = record {
    one_task = ground (
      arith,
      b.one_task,
      contains-remove ℕ_discrete g h u.service.requested,
      count-take_task g h u.service.tasks,
    );
    at_most = omega (arith, b.at_most, count-take_task g h u.service.tasks);
    at_least = λ q. ground (arith, b.at_least, count-take_task g h u.service.tasks);
  }

  Step-Balanced : {u v : System} (h : Hash256) → Step u v → Balanced h u → Balanced h v
  unfolding join_next
  Step-Balanced {u} h (message g e) b = rw e (message-Balanced g h u b)
  Step-Balanced {u} h (begun g now p e) b = rw e (begun-Balanced g h u now b)
  Step-Balanced {u} h (joined g attempts now p e) b =
      rw e (task-Balanced g h u _ (fetch_witness attempts).1 now p b)

  Reach-Balanced : {u v : System} (h : Hash256) → Reach u v → Balanced h u → Balanced h v
  Reach-Balanced h start b = b
  Reach-Balanced h (next r s) b = Step-Balanced h s (Reach-Balanced h r b)

  initial-Balanced : (h : Hash256) (size : ℕ) → Balanced h (initial size)
  unfolding new_service
  initial-Balanced h size = record {
    one_task = refl;
    at_most = omega arith;
    at_least = λ p. absurd (omega arith);
  }

  -- However messages and the ends of tasks follow each other from the service's start, a block
  -- has one task if it is in `requested`, and none otherwise.
  pub tasks-requested :
      {u : System} (size : ℕ)
      → Reach (initial size) u
      → (h : Hash256)
      → count ℕ_discrete h u.service.tasks ≡ bit (contains ℕ_discrete u.service.requested h)
  tasks-requested size r h = (Reach-Balanced h r (initial-Balanced h size)).one_task

  -- Once the tasks of a block that was asked for have ended, the proof service has been sent a
  -- message about the block, and no more of them than it asked for.
  pub asked-answered :
      {u : System} (size : ℕ)
      → Reach (initial size) u
      → (h : Hash256) → count ℕ_discrete h u.service.tasks ≡ 0
      → 0 < count ℕ_discrete h u.asked
      → (0 < answers h u.service.proof_messages)
        × (answers h u.service.proof_messages ≤ count ℕ_discrete h u.asked)
  asked-answered size r h idle asked =
      let b = Reach-Balanced h r (initial-Balanced h size) in
      (omega (arith, b.at_least asked), omega (arith, b.at_most))
