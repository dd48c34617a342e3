-- ===== src/Metrics.antt =====
-- crates/server/src/metrics.rs: what the server tells its metrics. The recorder of the `metrics`
-- crate is a log of the calls, the newest first. A duration is in the unit of its sample.
pub mod Proofs
pub mod InFlight
use zkboost.Prelude.{
  ℕ, ◌+◌, ◌/◌, ◌%◌, zero, suc, List, [], ◌∷◌, ◌++◌, Text, text, text_eq, Bool, true, false, Option,
  none, some, ltb, if◌then◌else◌, ite, count, ℕ_discrete,
}
use zkboost.ProofType.{ProofType, as_str}

abbrev pub http_requests_total : Text
http_requests_total = text "zkboost_http_requests_total"

abbrev pub http_request_duration_seconds : Text
http_request_duration_seconds = text "zkboost_http_request_duration_seconds"

abbrev pub http_requests_in_flight : Text
http_requests_in_flight = text "zkboost_http_requests_in_flight"

abbrev pub witness_fetch_duration_seconds : Text
witness_fetch_duration_seconds = text "zkboost_witness_fetch_duration_seconds"

abbrev pub witness_bytes : Text
witness_bytes = text "zkboost_witness_bytes"

abbrev pub witness_fetch_total : Text
witness_fetch_total = text "zkboost_witness_fetch_total"

abbrev pub prove_total : Text
prove_total = text "zkboost_prove_total"

abbrev pub prove_duration_seconds : Text
prove_duration_seconds = text "zkboost_prove_duration_seconds"

abbrev pub prove_proof_bytes : Text
prove_proof_bytes = text "zkboost_prove_proof_bytes"

abbrev pub verify_total : Text
verify_total = text "zkboost_verify_total"

abbrev pub verify_duration_seconds : Text
verify_duration_seconds = text "zkboost_verify_duration_seconds"

abbrev pub programs_loaded : Text
programs_loaded = text "zkboost_programs_loaded"

abbrev pub build_info : Text
build_info = text "zkboost_build_info"

-- A metric's name, and its labels with their values.
abbrev pub Metric : Type 0
Metric = Text × List (Text × Text)

-- What a histogram records: `as_secs_f64` of a duration, or a number of bytes.
pub data Sample : Type 0 where
  duration size : ℕ → Sample

-- A call of the `metrics` crate: `increment(1)` of a counter; `record` of a histogram;
-- `increment(1.0)`, `decrement(1.0)` and `set` of a gauge.
pub data Call : Type 0 where
  increment : Metric → Call
  record_sample : Metric → Sample → Call
  gauge_increment : Metric → Call
  gauge_decrement : Metric → Call
  gauge_set : Metric → ℕ → Call

abbrev pub Log : Type 0
Log = List Call

-- `ToString` of a number, in decimal digits.
abbrev digits : ℕ → ℕ → Text
digits zero n = []
digits (suc fuel) n =
    let rest = digits fuel (n / 10) in (if ltb n 10 then [] else rest) ++ ((48 + n % 10) ∷ [])

abbrev pub to_string : ℕ → Text
to_string n = digits (suc n) n

abbrev pub bool_to_string : Bool → Text
bool_to_string true = text "true"
bool_to_string false = text "false"

unfoldable pub record_http_request : Text → Text → ℕ → ℕ → Log → Log
record_http_request endpoint method status elapsed log =
    let labels : List (Text × Text) = (text "endpoint", endpoint) ∷ (text "method", method) ∷ [] in
    record_sample (http_request_duration_seconds, labels) (duration elapsed)
    ∷ increment (http_requests_total, labels ++ ((text "status", to_string status) ∷ []))
    ∷ log

unfoldable pub record_witness_fetch : Text → ℕ → ℕ → Log → Log
record_witness_fetch status elapsed witness_size log =
    let counted : Log = increment (witness_fetch_total, (text "status", status) ∷ []) ∷ log in
    if text_eq status (text "success")
    then record_sample (witness_bytes, []) (size witness_size)
      ∷ record_sample (witness_fetch_duration_seconds, []) (duration elapsed)
      ∷ counted
    else counted

unfoldable pub record_prove : ProofType → Text → ℕ → ℕ → Log → Log
record_prove proof_type status elapsed proof_size log =
    let label : Text × Text = (text "proof_type", as_str proof_type) in
    let counted : Log = increment (prove_total, label ∷ (text "status", status) ∷ []) ∷ log in
    if text_eq status (text "success")
    then record_sample (prove_proof_bytes, label ∷ []) (size proof_size)
      ∷ record_sample (prove_duration_seconds, label ∷ []) (duration elapsed)
      ∷ counted
    else counted

unfoldable pub record_verify : ProofType → Bool → ℕ → Log → Log
record_verify proof_type verified elapsed log =
    let label : Text × Text = (text "proof_type", as_str proof_type) in
    record_sample (verify_duration_seconds, label ∷ []) (duration elapsed)
    ∷ increment (verify_total, label ∷ (text "verified", bool_to_string verified) ∷ [])
    ∷ log

unfoldable pub set_programs_loaded : ℕ → Log → Log
set_programs_loaded loaded log = gauge_set (programs_loaded, []) loaded ∷ log

unfoldable pub set_build_info : Text → Log → Log
set_build_info version log = gauge_set (build_info, (text "version", version) ∷ []) 1 ∷ log

-- `InFlightGuard`: the gauge of an endpoint while the guard lives.
abbrev pub in_flight_metric : Text → Metric
in_flight_metric endpoint = (http_requests_in_flight, (text "endpoint", endpoint) ∷ [])

unfoldable pub guard_new : Text → Log → Log
guard_new endpoint log = gauge_increment (in_flight_metric endpoint) ∷ log

unfoldable pub guard_drop : Text → Log → Log
guard_drop endpoint log = gauge_decrement (in_flight_metric endpoint) ∷ log

-- The endpoint of `http_metrics_middleware`: the template of the route that was matched.
abbrev pub matched_path : Option Text → Text
matched_path (some path) = path
matched_path none = text "unmatched"

-- `http_metrics_middleware` up to `next.run(request)`, and after the response.
unfoldable pub middleware_enter : Option Text → Log → Log
unfolding guard_new
middleware_enter matched log = guard_new (matched_path matched) log

unfoldable pub middleware_leave : Option Text → Text → ℕ → ℕ → Log → Log
unfolding guard_drop record_http_request
middleware_leave matched method status elapsed log =
    guard_drop (matched_path matched)
      (record_http_request (matched_path matched) method status elapsed log)

unfoldable pub metric_dec : Discrete Metric
unfolding ℕ_discrete
metric_dec = hlevel ℕ_discrete

-- How often a counter was incremented.
abbrev pub counter_value : Metric → Log → ℕ
counter_value m [] = 0
counter_value m (increment n ∷ log) = ite (metric_dec n m) 1 0 + counter_value m log
counter_value m (record_sample n sample ∷ log) = counter_value m log
counter_value m (gauge_increment n ∷ log) = counter_value m log
counter_value m (gauge_decrement n ∷ log) = counter_value m log
counter_value m (gauge_set n v ∷ log) = counter_value m log

-- How often a gauge was incremented, and how often it was decremented.
abbrev pub increments : Metric → Log → ℕ
increments m [] = 0
increments m (increment n ∷ log) = increments m log
increments m (record_sample n sample ∷ log) = increments m log
increments m (gauge_increment n ∷ log) = ite (metric_dec n m) 1 0 + increments m log
increments m (gauge_decrement n ∷ log) = increments m log
increments m (gauge_set n v ∷ log) = increments m log

abbrev pub decrements : Metric → Log → ℕ
decrements m [] = 0
decrements m (increment n ∷ log) = decrements m log
decrements m (record_sample n sample ∷ log) = decrements m log
decrements m (gauge_increment n ∷ log) = decrements m log
decrements m (gauge_decrement n ∷ log) = ite (metric_dec n m) 1 0 + decrements m log
decrements m (gauge_set n v ∷ log) = decrements m log
