-- ===== src/Watcher/Evaluator/Alerts.antt =====
-- When a watch alerts (internal/watcher/watch_evaluator.go): one evaluation, and a sequence of them.
use opentrace.Base.{
  ◌+◌, ◌≤◌, ◌≡◌, inl, inr, refl, arith, Bytes, Bool, true, false, ltb, Option, none, some, Result,
  err, ok, Bool-cases,
}
use opentrace.Watcher.Store.{Floats, Trouble}
use opentrace.Watcher.Condition.{Condition, ConditionResult}
use opentrace.Watcher.Evaluator.{
  triggered, is_triggered, Watch, WatchEvalResult, Check, measured, update_after_check, fire,
  transition, breaches_after, persist, continue_with, evaluate_locked, settle, with_row, evaluate,
}

module _ (f : Floats) (unmarshal : Bytes → Option (Condition f.F)) where
  abbrev pub alerts : Result Trouble (WatchEvalResult f.F) → Bool
  alerts (err e) = false
  alerts (ok r) = r.has_alert

  module _ (c : Check f) where
    -- What an alert goes with: the row was not triggered and is now, and enough breaches in a row.
    abbrev pub Fired : Watch f.F → Watch f.F → Type 0
    Fired w w' =
        (is_triggered w.status ≡ false)
        × (w'.status ≡ triggered)
        × (w'.consecutive_breaches ≡ w.consecutive_breaches + 1)
        × (w.rule.min_consecutive ≤ w'.consecutive_breaches)

    abbrev FiresIfAlerts : Watch f.F → Watch f.F × Result Trouble (WatchEvalResult f.F) → Type 0
    FiresIfAlerts w p = alerts p.1 ≡ true → Fired w p.0

    settle-FiresIfAlerts :
        (w : Watch f.F) (p : Watch f.F × Result Trouble (WatchEvalResult f.F))
        → FiresIfAlerts w p
        → FiresIfAlerts w (settle f unmarshal c w p)
    settle-FiresIfAlerts w (row, ok r) h e = h e
    settle-FiresIfAlerts w (row, err x) h e = absurd cc

    abbrev pub outcome : f.F → Bool → ConditionResult f.F
    outcome value breached = record { breached = breached; value = value }

    fire-FiresIfAlerts :
        (w : Watch f.F) (value : f.F) (fault : Option Bytes)
        → is_triggered w.status ≡ false
        → w.rule.min_consecutive ≤ w.consecutive_breaches + 1
        → FiresIfAlerts w (
            fire f unmarshal c fault
              (update_after_check f unmarshal c w value (w.consecutive_breaches + 1))
              (outcome value true))
    fire-FiresIfAlerts w value none quiet enough e = (quiet, refl, refl, enough)
    fire-FiresIfAlerts w value (some x) quiet enough e = absurd cc

    transition-FiresIfAlerts :
        (w : Watch f.F) (value : f.F) (breached : Bool)
        → FiresIfAlerts w (
            transition f unmarshal c
              (update_after_check f unmarshal c w value (breaches_after f unmarshal c w breached))
              (outcome value breached))
    transition-FiresIfAlerts w value false = λ e. absurd cc
    transition-FiresIfAlerts w value true =
        elim (Bool-cases (ltb (w.consecutive_breaches + 1) w.rule.min_consecutive)) [
          | inl few ↦ rw few (λ e. absurd cc)
          | inr enough ↦ elim (Bool-cases (is_triggered w.status)) [
            | inl again ↦ rw (enough, again) (λ e. absurd cc)
            | inr quiet ↦
                rw (enough, quiet)
                  (let passed : w.rule.min_consecutive ≤ w.consecutive_breaches + 1 =
                      ground arith in
                    rw quiet at (fire-FiresIfAlerts w value c.status_fault quiet passed))
          ]
        ]

    persist-FiresIfAlerts :
        (w : Watch f.F) (r : ConditionResult f.F) (fault : Option Bytes)
        → FiresIfAlerts w (persist f unmarshal c fault w r)
    persist-FiresIfAlerts w r none = transition-FiresIfAlerts w r.value r.breached
    persist-FiresIfAlerts w r (some x) = λ e. absurd cc

    continue-FiresIfAlerts :
        (w : Watch f.F) (m : Result Trouble (ConditionResult f.F))
        → FiresIfAlerts w (continue_with f unmarshal c m w)
    continue-FiresIfAlerts w (err x) = λ e. absurd cc
    continue-FiresIfAlerts w (ok r) = persist-FiresIfAlerts w r c.update_fault

    with_row-FiresIfAlerts :
        (w : Watch f.F) (fault : Option Bytes) → FiresIfAlerts w (with_row f unmarshal c fault w)
    unfolding evaluate_locked
    with_row-FiresIfAlerts w none =
        settle-FiresIfAlerts w (evaluate_locked f unmarshal c w)
          (continue-FiresIfAlerts w (measured f unmarshal c w.rule))
    with_row-FiresIfAlerts w (some x) = λ e. absurd cc

    -- Whatever calls of the watch store fail: if an evaluation alerts, the row it read was not
    -- triggered, the row it leaves is triggered and has one breach more, and min_consecutive is at
    -- most that.
    pub evaluate-alert :
        (w : Watch f.F)
        → alerts (evaluate f unmarshal c w).1 ≡ true
        → Fired w (evaluate f unmarshal c w).0
    unfolding evaluate
    evaluate-alert w = with_row-FiresIfAlerts w c.read_fault
