-- ===== src/Watcher/Condition/Leaves.antt =====
-- watch_conditions.go: the evaluation of a leaf, without the summary it prints.
use opentrace.Base.{
  ◌+◌, ℕ, ◌-◌, ◌*◌, ◌^◌, List, [], ◌∷◌, Bytes, codes, bytes_eq, length, Bool, false, not, ◌&&◌,
  ◌||◌, ltb, ◌==◌, Option, none, some, Result, err, ok, ◌>>=◌, map_err, if◌then◌else◌,
}
use opentrace.Watcher.Store.{
  Floats, CountParams, LogStore, Trouble, invalid_config, store_error, nil_pointer,
  parse_duration_or,
}
use opentrace.TextIndex.Tokenizer.{is_seen}
use opentrace.Watcher.Metrics.{measure, measure_range}
use opentrace.Watcher.CountQuery.{parse_count_query, apply_filter, non_empty}
use opentrace.Watcher.Condition.{Baseline, Leaf, ConditionResult, World}

module _ (f : Floats) where
  unfoldable pub compare : f.F → Bytes → f.F → Result Trouble Bool
  compare value op threshold =
      if bytes_eq op (codes "gt")
      then ok (f.gt value threshold)
      else if bytes_eq op (codes "gte")
      then ok (f.ge value threshold)
      else if bytes_eq op (codes "lt")
      then ok (f.lt value threshold)
      else if bytes_eq op (codes "lte")
      then ok (f.le value threshold)
      else if bytes_eq op (codes "eq")
      then ok (f.eq value threshold)
      else if bytes_eq op (codes "neq")
      then ok (not (f.eq value threshold))
      else err invalid_config

  abbrev pub not_breached : f.F → ConditionResult f.F
  not_breached value = record { breached = false; value = value }

  -- The end of every leaf: the comparison, and the value it reports.
  abbrev pub compared : f.F → f.F → Bytes → f.F → Result Trouble (ConditionResult f.F)
  compared reported value op threshold = do
    breached ← compare value op threshold
    ok (record { breached = breached; value = reported })

  unfoldable pub baseline_value_for_metric : Baseline f.F → Bytes → f.F
  baseline_value_for_metric b metric =
      if bytes_eq metric (codes "error_rate")
      then b.error_rate
      else if bytes_eq metric (codes "response_time")
      then b.avg_response_ms
      else if bytes_eq metric (codes "p95_response")
      then b.p95_response_ms
      else if bytes_eq metric (codes "log_count")
      then f.of_int b.log_count
      else if bytes_eq metric (codes "error_count")
      then f.of_int b.error_count
      else if bytes_eq metric (codes "sql_count")
      then b.sql_count
      else if bytes_eq metric (codes "cache_hit_rate")
      then b.cache_hit_rate
      else f.of_int 0

  abbrev pub is_count_metric : Bytes → Bool
  is_count_metric m = bytes_eq m (codes "log_count") || bytes_eq m (codes "error_count")

  -- The metrics that call the log store; the others are errors before that.
  abbrev store_metrics : List Bytes
  store_metrics =
      codes "error_rate"
      ∷ codes "response_time"
      ∷ codes "p95_response"
      ∷ codes "log_count"
      ∷ codes "error_count"
      ∷ codes "heartbeat"
      ∷ codes "sql_count"
      ∷ []

  abbrev pub without_store : Bytes → Result Trouble f.F
  without_store metric =
      if is_seen store_metrics metric then err nil_pointer else err invalid_config

  module _ (w : World f) where
    abbrev measure_with : Option (LogStore f.F) → Leaf f.F → ℕ → Result Trouble f.F
    measure_with none c window = without_store c.metric
    measure_with (some logs) c window =
        measure f w.texts.to_lower logs w.clock c.metric c.service c.endpoint w.environment window

    abbrev measure_range_with : Option (LogStore f.F) → Leaf f.F → ℕ → ℕ → Result Trouble f.F
    measure_range_with none c start finish = without_store c.metric
    measure_range_with (some logs) c start finish =
        measure_range f w.texts.to_lower logs w.clock c.metric c.service c.endpoint w.environment
          start finish

    unfoldable pub eval_threshold : Leaf f.F → Result Trouble (ConditionResult f.F)
    eval_threshold c = do
      value ← measure_with w.logs c w.check_window
      compared value value c.op c.value

    abbrev against_baseline : Leaf f.F → f.F → f.F → Result Trouble (ConditionResult f.F)
    against_baseline c value baseline_value =
        if f.eq baseline_value (f.of_int 0)
        then ok (not_breached value)
        else compared value value c.op (f.mul baseline_value c.baseline_multiple)

    unfoldable pub eval_relative :
        Option (Baseline f.F) → Leaf f.F → Result Trouble (ConditionResult f.F)
    eval_relative none c = ok (not_breached (f.of_int 0))
    eval_relative (some b) c = do
      value ←
          measure_with w.logs c
            (parse_duration_or w.clock.parse_duration b.window_duration w.check_window)
      against_baseline c value (baseline_value_for_metric b c.metric)

    -- The previous count, scaled to the length of the current window.
    abbrev scaled : Leaf f.F → ℕ → f.F → f.F
    scaled c compare_window previous =
        if is_count_metric c.metric
          && not (compare_window == w.check_window)
          && ltb 0 compare_window
        then f.mul previous
            (f.div (w.clock.seconds w.check_window) (w.clock.seconds compare_window))
        else previous

    abbrev delta_pct : f.F → f.F → f.F
    delta_pct current previous =
        f.mul (f.div (f.sub current previous) (f.abs previous)) (f.of_int 100)

    abbrev changed : Leaf f.F → f.F → f.F → Result Trouble (ConditionResult f.F)
    changed c current previous =
        if f.eq previous (f.of_int 0)
        then ok (not_breached current)
        else let pct = delta_pct current previous in compared pct (f.abs pct) c.op c.change_pct

    unfoldable pub eval_delta : Leaf f.F → Result Trouble (ConditionResult f.F)
    eval_delta c = do
      let compare_window = parse_duration_or w.clock.parse_duration c.compare_window w.check_window
      let current_start = w.clock.now - w.check_window
      current ← measure_range_with w.logs c current_start w.clock.now
      previous ← measure_range_with w.logs c (current_start - compare_window) current_start
      changed c current (scaled c compare_window previous)

    abbrev default_count_window : ℕ
    default_count_window = 3600 * 10 ^ 9

    abbrev count_params : Leaf f.F → CountParams
    count_params c = record {
      since = w.clock.now - parse_duration_or w.clock.parse_duration c.window default_count_window;
      until = w.clock.now;
      service = c.service;
      level = [];
      environment = w.environment;
    }

    abbrev count_distinct : LogStore f.F → Bytes → CountParams → Result Trouble ℕ
    count_distinct logs field params = do
      values ← map_err store_error (logs.distinct_values field params)
      ok (length values)

    abbrev sum_counts : List (Bytes × ℕ) → ℕ
    sum_counts [] = 0
    sum_counts ((level, count) ∷ counts) = count + sum_counts counts

    abbrev count_plain : LogStore f.F → CountParams → Result Trouble ℕ
    count_plain logs params = do
      counts ← map_err store_error (logs.count_by_level params)
      ok (sum_counts counts)

    abbrev count_matching : LogStore f.F → Leaf f.F → CountParams → Result Trouble ℕ
    count_matching logs c params =
        if c.distinct && non_empty c.field
        then count_distinct logs c.field params
        else count_plain logs params

    unfoldable pub eval_count :
        Option (LogStore f.F) → Leaf f.F → Result Trouble (ConditionResult f.F)
    eval_count none c = err (store_error (codes "LogStore not available for count condition"))
    eval_count (some logs) c = do
      filter ← parse_count_query w.texts c.query c.service
      count ← count_matching logs c (apply_filter filter (count_params c))
      compared (f.of_int count) (f.of_int count) c.op c.value

    unfoldable pub eval_leaf : Leaf f.F → Result Trouble (ConditionResult f.F)
    eval_leaf c =
        if bytes_eq c.kind (codes "threshold")
        then eval_threshold c
        else if bytes_eq c.kind (codes "relative")
        then eval_relative w.baseline c
        else if bytes_eq c.kind (codes "delta")
        then eval_delta c
        else if bytes_eq c.kind (codes "count")
        then eval_count w.logs c
        else err invalid_config
