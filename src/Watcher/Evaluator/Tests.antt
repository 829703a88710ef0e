-- ===== src/Watcher/Evaluator/Tests.antt =====
-- A watch of internal/watcher that is evaluated on concrete logs.
use opentrace.Base.{
  ℕ, ◌≡◌, refl, List, [], ◌∷◌, Bytes, codes, bytes_eq, true, max, Option, none, some, if◌then◌else◌,
}
use opentrace.TextIndex.Tokenizer.{is_seen}
use opentrace.Watcher.Metrics.{measure_range, measure, measure_error_count}
use opentrace.Watcher.Condition.{Condition}
use opentrace.Watcher.Condition.Leaves.{compare, eval_leaf, eval_threshold}
use opentrace.Watcher.Condition.Tree.{evaluate_condition}
use opentrace.Watcher.Evaluator.{
  active, resolved, Watch, Check, evaluate, evaluate_locked, measured, parse_condition,
  record_failed_check,
}
use opentrace.Watcher.Evaluator.Alerts.{alerts, Fired, evaluate-alert}
use opentrace.Watcher.Evaluator.Checks.{observations, fired}
use opentrace.Watcher.Evaluator.Streak.{has_streak, fired-has_streak}
use opentrace.Watcher.Tests.{whole, ascii, noon, holding, some_counts, between_bounds}

abbrev read_rule : Bytes → Option (Condition ℕ)
read_rule s = if bytes_eq s (codes "rule") then some between_bounds else none

abbrev watch : Watch ℕ
watch = record {
  rule = record {
    conditions = codes "rule";
    environment = codes "prod";
    check_interval = codes "30s";
    min_consecutive = 2;
    baseline = none;
  };
  status = active;
  consecutive_breaches = 0;
  current_value = none;
  last_checked_at = none;
  next_check_at = none;
}

abbrev check : List (Bytes × ℕ) → Check whole
check counts = record {
  texts = ascii;
  clock = noon;
  logs = some (holding counts);
  read_fault = none;
  update_fault = none;
  status_fault = none;
  failed_check_fault = none;
}

abbrev few_counts : List (Bytes × ℕ)
few_counts = (codes "error", 2) ∷ []

abbrev checks : List (Check whole)
checks =
    check some_counts
    ∷ check few_counts
    ∷ record (check some_counts) { logs = none }
    ∷ check some_counts
    ∷ check some_counts
    ∷ check some_counts
    ∷ []

evaluate-alert_example :
    Fired whole read_rule
      (check some_counts)
      (record watch { consecutive_breaches = 1 })
      (evaluate whole read_rule (check some_counts) (record watch { consecutive_breaches = 1 })).0
unfolding evaluate evaluate_locked measured parse_condition bytes_eq evaluate_condition eval_leaf
    eval_threshold measure measure_range measure_error_count compare
evaluate-alert_example =
    evaluate-alert whole read_rule (check some_counts) (record watch { consecutive_breaches = 1 })
      refl

fired_run : fired whole read_rule checks watch ≡ 1
unfolding evaluate evaluate_locked measured parse_condition bytes_eq evaluate_condition eval_leaf
    eval_threshold measure measure_range measure_error_count compare is_seen record_failed_check
fired_run = refl

fired-has_streak_example :
    fired whole read_rule checks watch
    ≡ (if has_streak (max 1 2) (observations whole read_rule watch.rule checks) then 1 else 0)
unfolding measured parse_condition bytes_eq evaluate_condition eval_leaf eval_threshold measure
    measure_range measure_error_count compare is_seen
fired-has_streak_example = fired-has_streak whole read_rule checks watch refl refl (
  (refl, refl, refl, refl),
  (
    (refl, refl, refl, refl),
    (
      (refl, refl, refl, refl),
      ((refl, refl, refl, refl), ((refl, refl, refl, refl), ((refl, refl, refl, refl), tt))),
    ),
  ),
)

-- A watch that was resolved after it was listed as due is triggered and alerts.
resolved_alerts :
    alerts whole read_rule
      (evaluate whole read_rule
        (check some_counts)
        (record watch { status = resolved; consecutive_breaches = 1 })).1
    ≡ true
unfolding evaluate evaluate_locked measured parse_condition bytes_eq evaluate_condition eval_leaf
    eval_threshold measure measure_range measure_error_count compare
resolved_alerts = refl
