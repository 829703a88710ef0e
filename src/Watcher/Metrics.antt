-- ===== src/Watcher/Metrics.antt =====
-- watch_metrics.go: the values that the watches measure.
pub mod Totals
use opentrace.Base.{
  ℕ, ◌+◌, ◌-◌, ◌≤◌, ◌≡◌, refl, arith, List, [], ◌∷◌, Bytes, codes, bytes_eq, length, get_or, Bool,
  ◌||◌, leb, ◌==◌, Result, err, ok, ◌>>=◌, map_err, if◌then◌else◌,
}
use opentrace.Watcher.Store.{
  Floats, Clock, RequestSummary, Aggregates, LogStore, Trouble, invalid_config, store_error,
}

-- strings.ToLower is a parameter.
abbrev pub is_error_level : (Bytes → Bytes) → Bytes → Bool
is_error_level to_lower level =
    bytes_eq (to_lower level) (codes "error") || bytes_eq (to_lower level) (codes "fatal")

-- The loop of measureLogCount.
abbrev pub total_count : List (Bytes × ℕ) → ℕ
total_count [] = 0
total_count ((level, count) ∷ counts) = count + total_count counts

-- That of measureErrorCount.
abbrev pub error_total : (Bytes → Bytes) → List (Bytes × ℕ) → ℕ
error_total to_lower [] = 0
error_total to_lower ((level, count) ∷ counts) =
    let rest = error_total to_lower counts in
    if is_error_level to_lower level then count + rest else rest

-- The loop of measureErrorRate: the total and the errors.
abbrev pub rate_totals : (Bytes → Bytes) → List (Bytes × ℕ) → ℕ × ℕ
rate_totals to_lower [] = (0, 0)
rate_totals to_lower ((level, count) ∷ counts) =
    let (total, errors) = rate_totals to_lower counts in
    (count + total, if is_error_level to_lower level then count + errors else errors)

module _ (f : Floats) (to_lower : Bytes → Bytes) (logs : LogStore f.F) where
  abbrev no_value : f.F
  no_value = f.of_int 0

  unfoldable pub measure_error_rate : Bytes → Bytes → ℕ → ℕ → Result Trouble f.F
  measure_error_rate service environment start finish = do
    counts ← map_err store_error (
        logs.count_by_level (record {
          since = start;
          until = finish;
          service = service;
          level = [];
          environment = environment;
        }))
    let (total, errors) = rate_totals to_lower counts
    ok (if total == 0 then no_value else f.div (f.of_int errors) (f.of_int total))

  abbrev aggregate : Bytes → Bytes → Bytes → ℕ → ℕ → Result Trouble (Aggregates f.F)
  aggregate service endpoint environment start finish = map_err store_error (
      logs.aggregate_request_summaries (record {
        start = start;
        finish = finish;
        service = service;
        path = endpoint;
        environment = environment;
        sort_by = [];
        limit = 0;
      }))

  unfoldable pub measure_response_time : Bytes → Bytes → Bytes → ℕ → ℕ → Result Trouble f.F
  measure_response_time service endpoint environment start finish = do
    agg ← aggregate service endpoint environment start finish
    ok (if agg.count == 0 then no_value else agg.avg_duration)

  -- The durations of one service, of any if none is named.
  abbrev durations_of : Bytes → List (RequestSummary f.F) → List f.F
  durations_of service [] = []
  durations_of service (s ∷ ss) =
      let rest = durations_of service ss in
      if bytes_eq service [] || bytes_eq s.service service then s.duration_ms ∷ rest else rest

  -- Subtraction that stops at 0 is the lower clamp of the code.
  abbrev p95_index : ℕ → ℕ
  p95_index n =
      let idx = f.ceil_int (f.mul (f.of_int n) f.p95) - 1 in if leb n idx then n - 1 else idx

  abbrev percentile : List f.F → f.F
  percentile [] = no_value
  percentile (d ∷ ds) = get_or (f.sort_floats (d ∷ ds)) (p95_index (length (d ∷ ds))) no_value

  unfoldable pub measure_p95_response : Bytes → Bytes → Bytes → ℕ → ℕ → Result Trouble f.F
  measure_p95_response service endpoint environment start finish = do
    summaries ← map_err store_error (
        logs.search_request_summaries (record {
          start = start;
          finish = finish;
          service = [];
          path = endpoint;
          environment = environment;
          sort_by = codes "duration_ms";
          limit = 200;
        }))
    ok (percentile (durations_of service summaries))

  unfoldable pub measure_log_count : Bytes → Bytes → ℕ → ℕ → Result Trouble f.F
  measure_log_count service environment start finish = do
    counts ← map_err store_error (
        logs.count_by_level (record {
          since = start;
          until = finish;
          service = service;
          level = [];
          environment = environment;
        }))
    ok (f.of_int (total_count counts))

  unfoldable pub measure_error_count : Bytes → Bytes → ℕ → ℕ → Result Trouble f.F
  measure_error_count service environment start finish = do
    counts ← map_err store_error (
        logs.count_by_level (record {
          since = start;
          until = finish;
          service = service;
          level = [];
          environment = environment;
        }))
    ok (f.of_int (error_total to_lower counts))

  abbrev since_last : Clock f.F → ℕ → ℕ → List ℕ → f.F
  since_last c start finish [] = c.seconds_between finish start
  since_last c start finish (timestamp ∷ entries) = c.seconds_between finish timestamp

  unfoldable pub measure_heartbeat : Clock f.F → Bytes → Bytes → ℕ → ℕ → Result Trouble f.F
  measure_heartbeat c service environment start finish = do
    entries ← map_err store_error (
        logs.search_logs (record {
          start = start;
          finish = finish;
          service = service;
          path = [];
          environment = environment;
          sort_by = [];
          limit = 1;
        }))
    ok (since_last c start finish entries)

  unfoldable pub measure_sql_count : Bytes → Bytes → Bytes → ℕ → ℕ → Result Trouble f.F
  measure_sql_count service endpoint environment start finish = do
    agg ← aggregate service endpoint environment start finish
    ok (if agg.count == 0 then no_value else agg.avg_sql_count)

  unfoldable pub measure_range :
      Clock f.F → Bytes → Bytes → Bytes → Bytes → ℕ → ℕ → Result Trouble f.F
  measure_range c metric service endpoint environment start finish =
      if bytes_eq metric (codes "error_rate")
      then measure_error_rate service environment start finish
      else if bytes_eq metric (codes "response_time")
      then measure_response_time service endpoint environment start finish
      else if bytes_eq metric (codes "p95_response")
      then measure_p95_response service endpoint environment start finish
      else if bytes_eq metric (codes "log_count")
      then measure_log_count service environment start finish
      else if bytes_eq metric (codes "error_count")
      then measure_error_count service environment start finish
      else if bytes_eq metric (codes "heartbeat")
      then measure_heartbeat c service environment start finish
      else if bytes_eq metric (codes "sql_count")
      then measure_sql_count service endpoint environment start finish
      else err invalid_config

  unfoldable pub measure : Clock f.F → Bytes → Bytes → Bytes → Bytes → ℕ → Result Trouble f.F
  measure c metric service endpoint environment window =
      measure_range c metric service endpoint environment (c.now - window) c.now
