-- ===== src/Watcher/Evaluator.antt =====
-- watch_evaluator.go: Evaluate on the row of one watch, which its caller holds locked.
mod Tests
pub mod Checks
pub mod Streak
pub mod Alerts
use opentrace.Base.{
  ℕ, ◌+◌, ◌*◌, ◌^◌, List, [], ◌∷◌, Bytes, Bool, true, false, not, ltb, Option, none, some, Result,
  err, ok, ◌>>=◌, map_err, if◌then◌else◌,
}
use opentrace.Watcher.Store.{
  Floats, Clock, LogStore, Trouble, invalid_config, store_error, nil_pointer, parse_duration_or,
}
use opentrace.Watcher.CountQuery.{Texts}
use opentrace.Watcher.Condition.{Baseline, Condition, ConditionResult, World}
use opentrace.Watcher.Condition.Tree.{evaluate_condition}

pub data WatchStatus : Type 0 where
  active : WatchStatus
  triggered : WatchStatus
  resolved : WatchStatus
  expired : WatchStatus

abbrev pub is_triggered : WatchStatus → Bool
is_triggered active = false
is_triggered triggered = true
is_triggered resolved = false
is_triggered expired = false

-- The columns of a watch that no evaluation writes.
pub record Rule (F : Type 0) : Type 0 where
  pub conditions : Bytes
  pub environment : Bytes
  pub check_interval : Bytes
  pub min_consecutive : ℕ
  pub baseline : Option (Baseline F)

pub record Watch (F : Type 0) : Type 0 where
  pub rule : Rule F
  pub status : WatchStatus
  pub consecutive_breaches : ℕ
  pub current_value : Option F
  pub last_checked_at : Option ℕ
  pub next_check_at : Option ℕ

-- WatchEvalResult without its summary.
pub record WatchEvalResult (F : Type 0) : Type 0 where
  pub value : F
  pub breached : Bool
  pub has_alert : Bool

-- What one evaluation meets: the time, the logs, and the failures of its calls of the watch store.
pub record Check (f : Floats) : Type 0 where
  pub texts : Texts
  pub clock : Clock f.F
  pub logs : Option (LogStore f.F)
  -- GetByID, UpdateAfterCheck and UpdateStatus in the evaluation
  pub read_fault : Option Bytes
  pub update_fault : Option Bytes
  pub status_fault : Option Bytes
  -- The one update after a failed evaluation.
  pub failed_check_fault : Option Bytes

abbrev default_check_interval : ℕ
default_check_interval = 30 * 10 ^ 9

-- json.Unmarshal into a Condition is a parameter.
module _ (f : Floats) (unmarshal : Bytes → Option (Condition f.F)) where
  abbrev pub unmarshalled : Option (Condition f.F) → Result Trouble (Condition f.F)
  unmarshalled none = err invalid_config
  unmarshalled (some c) = ok c

  unfoldable pub parse_condition : Bytes → Result Trouble (Condition f.F)
  parse_condition [] = err invalid_config
  parse_condition (b ∷ bs) = unmarshalled (unmarshal (b ∷ bs))

  module _ (c : Check f) where
    abbrev pub check_window : Rule f.F → ℕ
    check_window r =
        parse_duration_or c.clock.parse_duration r.check_interval default_check_interval

    unfoldable pub measured : Rule f.F → Result Trouble (ConditionResult f.F)
    measured r = do
      cond ← parse_condition r.conditions
      evaluate_condition f
          (record {
            texts = c.texts;
            clock = c.clock;
            logs = c.logs;
            baseline = r.baseline;
            environment = r.environment;
            check_window = check_window r;
          })
          cond

    -- A write that may fail, in which case it changes nothing.
    abbrev pub written : {A : Type 0} → Option Bytes → A → A → A
    written none new old = new
    written (some e) new old = old

    -- The row after UpdateAfterCheck (adapter/sqlite/watch_store.go), which stores its times in whole
    -- seconds; here they are kept as they are.
    abbrev pub update_after_check : Watch f.F → f.F → ℕ → Watch f.F
    update_after_check row value breaches = record row {
      current_value = some value;
      consecutive_breaches = breaches;
      last_checked_at = some c.clock.now;
      next_check_at = some (c.clock.now + check_window row.rule);
    }

    abbrev pub update_status : Watch f.F → WatchStatus → Watch f.F
    update_status row status = record row { status = status }

    abbrev pub result_of : ConditionResult f.F → Bool → WatchEvalResult f.F
    result_of r has_alert = record { value = r.value; breached = r.breached; has_alert = has_alert }

    abbrev pub fire :
        Option Bytes
        → Watch f.F
        → ConditionResult f.F
        → Watch f.F × Result Trouble (WatchEvalResult f.F)
    fire none row r = (update_status row triggered, ok (result_of r true))
    fire (some e) row r = (row, err (store_error e))

    -- From the breach test to the end; `row` is the row as UpdateAfterCheck left it.
    abbrev pub transition :
        Watch f.F → ConditionResult f.F → Watch f.F × Result Trouble (WatchEvalResult f.F)
    transition row r =
        if not r.breached
        then (row, ok (result_of r false))
        else if ltb row.consecutive_breaches row.rule.min_consecutive
        then (row, ok (result_of r false))
        else if is_triggered row.status
        then (row, ok (result_of r false))
        else fire c.status_fault row r

    abbrev pub breaches_after : Watch f.F → Bool → ℕ
    breaches_after w breached = if breached then w.consecutive_breaches + 1 else 0

    abbrev pub persist :
        Option Bytes
        → Watch f.F
        → ConditionResult f.F
        → Watch f.F × Result Trouble (WatchEvalResult f.F)
    persist none w r = transition (update_after_check w r.value (breaches_after w r.breached)) r
    persist (some e) w r = (w, err (store_error e))

    abbrev pub continue_with :
        Result Trouble (ConditionResult f.F)
        → Watch f.F
        → Watch f.F × Result Trouble (WatchEvalResult f.F)
    continue_with (err e) w = (w, err e)
    continue_with (ok r) w = persist c.update_fault w r

    unfoldable pub evaluate_locked : Watch f.F → Watch f.F × Result Trouble (WatchEvalResult f.F)
    evaluate_locked w = continue_with (measured w.rule) w

    abbrev pub value_or_zero : Option f.F → f.F
    value_or_zero none = f.of_int 0
    value_or_zero (some v) = v

    -- The row `row` after the error `e`, where the evaluation had read `w`. A panic passes it by.
    unfoldable pub record_failed_check : Watch f.F → Trouble → Watch f.F → Watch f.F
    record_failed_check w invalid_config row =
        written c.failed_check_fault (update_status row expired) row
    record_failed_check w (store_error e) row =
        written c.failed_check_fault
          (update_after_check row (value_or_zero w.current_value) w.consecutive_breaches) row
    record_failed_check w nil_pointer row = row

    abbrev pub settle :
        Watch f.F
        → Watch f.F × Result Trouble (WatchEvalResult f.F)
        → Watch f.F × Result Trouble (WatchEvalResult f.F)
    settle w (row, ok r) = (row, ok r)
    settle w (row, err e) = (record_failed_check w e row, err e)

    abbrev pub with_row :
        Option Bytes → Watch f.F → Watch f.F × Result Trouble (WatchEvalResult f.F)
    with_row none w = settle w (evaluate_locked w)
    with_row (some e) w = (w, err (store_error e))

    unfoldable pub evaluate : Watch f.F → Watch f.F × Result Trouble (WatchEvalResult f.F)
    evaluate w = with_row c.read_fault w
