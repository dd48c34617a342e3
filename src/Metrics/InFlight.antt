-- ===== src/Metrics/InFlight.antt =====
-- crates/server/src/metrics.rs: the middleware while requests begin and end in any order.
use zkboost.Prelude.{
  ℕ, ◌+◌, ◌≡◌, refl, ap, ◌∙◌, arith, List, [], ◌∷◌, ◌++◌, Text, text, Option, ite, count,
}
use zkboost.Metrics.{
  Log, Metric, metric_dec, matched_path, in_flight_metric, middleware_enter, middleware_leave,
  guard_drop, guard_new, record_http_request, counter_value, increments, decrements,
  http_requests_total, to_string,
}

-- A request that the middleware has passed on: the route that it matched and its method.
pub record Request : Type 0 where
  pub matched : Option Text
  pub method : Text

-- The log, the requests that are in flight, and the metrics of the responses.
pub record Traffic : Type 0 where
  pub log : Log
  pub running : List Request
  pub answered : List Metric

-- What a response is counted as.
abbrev pub response_metric : Request → ℕ → Metric
response_metric r status = (
  http_requests_total,
  (text "endpoint", matched_path r.matched)
      ∷ (text "method", r.method)
      ∷ (text "status", to_string status)
      ∷ [],
)

-- A request begins, is answered, or ends without an answer: its task is dropped or panics, which
-- drops the guard.
pub data Step (u v : Traffic) : Type 0 where
  enter :
      (r : Request)
      → v ≡ record {
        log = middleware_enter r.matched u.log;
        running = r ∷ u.running;
        answered = u.answered;
      }
      → Step u v
  leave :
      (before after : List Request) (r : Request) (status elapsed : ℕ)
      → u.running ≡ before ++ (r ∷ after)
      → v ≡ record {
        log = middleware_leave r.matched r.method status elapsed u.log;
        running = before ++ after;
        answered = response_metric r status ∷ u.answered;
      }
      → Step u v
  dropped :
      (before after : List Request) (r : Request)
      → u.running ≡ before ++ (r ∷ after)
      → v ≡ record {
        log = guard_drop (matched_path r.matched) u.log;
        running = before ++ after;
        answered = u.answered;
      }
      → Step u v

pub data Reach (u : Traffic) : Traffic → Type 0 where
  start : Reach u u
  next : {v w : Traffic} → Reach u v → Step v w → Reach u w

abbrev pub quiet : Traffic
quiet = record { log = []; running = []; answered = [] }

abbrev pub gauge_of : Request → Metric
gauge_of r = in_flight_metric (matched_path r.matched)

abbrev pub in_flight : Metric → List Request → ℕ
in_flight m [] = 0
in_flight m (r ∷ rs) = ite (metric_dec (gauge_of r) m) 1 0 + in_flight m rs

in_flight-append :
    (m : Metric) (rs ss : List Request) → in_flight m (rs ++ ss) ≡ in_flight m rs + in_flight m ss
in_flight-append m [] ss = omega arith
in_flight-append m (r ∷ rs) ss = omega (arith, in_flight-append m rs ss)

record Metered (m : Metric) (u : Traffic) : Type 0 where
  gauge : increments m u.log ≡ decrements m u.log + in_flight m u.running
  counter : counter_value m u.log ≡ count metric_dec m u.answered

Step-Metered : {u v : Traffic} (m : Metric) → Step u v → Metered m u → Metered m v
unfolding middleware_enter middleware_leave guard_drop guard_new record_http_request
Step-Metered m (enter r e) b = rw e (record { gauge = omega (arith, b.gauge); counter = b.counter })
Step-Metered {u} m (leave before after r status elapsed i e) b =
    let was = ap (in_flight m) i ∙ in_flight-append m before (r ∷ after) in
    let left = in_flight-append m before after in
    rw e (record { gauge = omega (arith, b.gauge, was, left); counter = omega (arith, b.counter) })
Step-Metered m (dropped before after r i e) b =
    let was = ap (in_flight m) i ∙ in_flight-append m before (r ∷ after) in
    let left = in_flight-append m before after in
    rw e (record { gauge = omega (arith, b.gauge, was, left); counter = b.counter })

Reach-Metered : {u : Traffic} (m : Metric) → Reach quiet u → Metered m u
Reach-Metered m start = record { gauge = omega arith; counter = refl }
Reach-Metered m (next r s) = Step-Metered m s (Reach-Metered m r)

-- Whatever the order in which requests begin, are answered and are dropped, the gauge of an
-- endpoint stands at the number of its requests that are in flight, and the counter of an endpoint,
-- a method and a status at the number of such responses.
pub in_flight-gauge :
    {u : Traffic}
    → Reach quiet u
    → (m : Metric)
    → (increments m u.log ≡ decrements m u.log + in_flight m u.running)
      × (counter_value m u.log ≡ count metric_dec m u.answered)
in_flight-gauge r m = let b = Reach-Metered m r in (b.gauge, b.counter)
