-- ===== src/Tests/Witness.antt =====
-- crates/server/src/witness.rs: a witness that is asked for twice and found at the second attempt.
use zkboost.Prelude.{
  ℕ, ◌≤◌, ◌<◌, ◌≡◌, refl, ◌↔◌, arith, List, [], ◌∷◌, text, some, count, bit, contains, insert,
  remove, ℕ_discrete,
}
use zkboost.Payload.{Hash256}
use zkboost.Lru.{LruCache}
use zkboost.Lru.Recent.{recent_cache, recent_put}
use zkboost.Witness.{
  Attempt, found, not_found, failed, fetch_witness, new_service, handle_message, handle_task_result,
  join_next, start_task,
}
use zkboost.Witness.Fetch.{FirstFound, fetch_witness-eq-some_iff}
use zkboost.Witness.Steps.{
  System, Reach, start, next, message, begun, joined, initial, answers, tasks-requested,
  asked-answered,
}
use zkboost.Tests.World.{world}

abbrev witness_lru : LruCache Hash256 ℕ
witness_lru = recent_cache ℕ_discrete

program : Unit {0}
unfolding ℕ_discrete insert remove recent_put fetch_witness new_service handle_message
    handle_task_result start_task join_next
program = tt

abbrev attempts : List (Attempt ℕ)
attempts = not_found ∷ failed (text "refused") ∷ found 1 100 ∷ []

abbrev begin : System world witness_lru
begin = initial world witness_lru 2

abbrev asked : System world witness_lru
asked = record { service = handle_message world witness_lru begin.service 5; asked = 5 ∷ [] }

abbrev again : System world witness_lru
again = record { service = handle_message world witness_lru asked.service 5; asked = 5 ∷ 5 ∷ [] }

abbrev running : System world witness_lru
running = record { service = start_task world witness_lru again.service 5 101; asked = 5 ∷ 5 ∷ [] }

abbrev fetched : System world witness_lru
fetched = record {
  service = join_next world witness_lru running.service 5 attempts 102;
  asked = 5 ∷ 5 ∷ [];
}

fetched-Reach : Reach world witness_lru begin fetched
unfolding program
fetched-Reach =
    next
      (next (next (next start (message 5 refl)) (message 5 refl)) (begun 5 101 (omega arith) refl))
      (joined 5 attempts 102 (omega arith) refl)

tasks-requested_example :
    count ℕ_discrete 5 fetched.service.tasks ≡ bit (contains ℕ_discrete fetched.service.requested 5)
tasks-requested_example = tasks-requested world witness_lru 2 fetched-Reach 5

asked-answered_example :
    (0 < answers world witness_lru 5 fetched.service.proof_messages)
    × (answers world witness_lru 5 fetched.service.proof_messages
        ≤ count ℕ_discrete 5 fetched.asked)
unfolding program
asked-answered_example = asked-answered world witness_lru 2 fetched-Reach 5 refl (omega arith)

fetch_witness-eq-some_iff_example :
    ((fetch_witness attempts).1 ≡ some (1, 100)) ↔ FirstFound 1 100 attempts
fetch_witness-eq-some_iff_example = fetch_witness-eq-some_iff 1 100 attempts
