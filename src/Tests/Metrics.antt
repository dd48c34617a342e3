-- ===== src/Tests/Metrics.antt =====
-- crates/server/src/metrics.rs: the metrics of concurrent requests and of a proof.
use zkboost.Prelude.{◌+◌, ◌≡◌, refl, [], ◌∷◌, text, some, none, count, map}
use zkboost.ProofType.{reth_zisk}
use zkboost.Metrics
use zkboost.Metrics.{
  Metric, metric_dec, counter_value, increments, decrements, to_string, record_prove,
  record_witness_fetch, middleware_enter, middleware_leave, guard_drop, prove_total,
}
use zkboost.Metrics.InFlight.{
  Request, Traffic, Reach, start, next, enter, leave, quiet, in_flight, gauge_of, response_metric,
  in_flight-gauge,
}
use zkboost.Metrics.Proofs.{prove_metric, prove_log, outcome_dec, event_outcome, prove_total-events}
use zkboost.Tests.World.{proof_lru, world}
use zkboost.Tests.Service.{done, done-Reach}

to_string_sample : to_string 404 ≡ text "404"
to_string_sample = refl

-- A fetch that fails has no duration and no size.
record_witness_fetch_sample :
    record_witness_fetch (text "timeout") 12 0 []
    ≡ Metrics.increment (text "zkboost_witness_fetch_total", (text "status", text "timeout") ∷ [])
      ∷ []
unfolding record_witness_fetch
record_witness_fetch_sample = refl

abbrev posted : Request
posted = record { matched = some (text "/v1/execution_proof_requests"); method = text "POST" }

abbrev strayed : Request
strayed = record { matched = none; method = text "GET" }

-- Two requests begin, the first is answered, and the second is dropped.
abbrev both : Traffic
both = record {
  log = middleware_enter strayed.matched (middleware_enter posted.matched []);
  running = strayed ∷ posted ∷ [];
  answered = [];
}

abbrev one : Traffic
one = record {
  log = middleware_leave posted.matched posted.method 200 3 both.log;
  running = strayed ∷ [];
  answered = response_metric posted 200 ∷ [];
}

one-Reach : Reach quiet one
one-Reach =
    next (next (next start (enter posted refl)) (enter strayed refl))
      (leave (strayed ∷ []) [] posted 200 3 refl refl)

in_flight-gauge_example :
    (increments (gauge_of strayed) one.log
      ≡ decrements (gauge_of strayed) one.log + in_flight (gauge_of strayed) one.running)
    × (counter_value (gauge_of strayed) one.log ≡ count metric_dec (gauge_of strayed) one.answered)
in_flight-gauge_example = in_flight-gauge one-Reach (gauge_of strayed)

one_state :
    (in_flight (gauge_of strayed) one.running ≡ 1) × (in_flight (gauge_of posted) one.running ≡ 0)
unfolding metric_dec
one_state = (refl, refl)

prove_total-events_example :
    counter_value (prove_metric (reth_zisk, text "success")) (prove_log done.service.proves)
    ≡ count outcome_dec (reth_zisk, text "success") (map event_outcome done.service.events)
prove_total-events_example =
    prove_total-events world proof_lru 0 (proof_lru.new 2) done-Reach reth_zisk (text "success")
