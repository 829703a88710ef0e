-- ===== src/Watcher/Evaluator/Checks.antt =====
-- What one evaluation of a watch leaves for the next (internal/watcher/watch_evaluator.go).
use opentrace.Base.{
  ℕ, ◌+◌, ◌≡◌, ◌⊎◌, inl, inr, refl, List, [], ◌∷◌, Bytes, Bool, true, false, not, ◌&&◌, ltb, Option,
  none, Result, err, ok, if◌then◌else◌, Bool-cases, Option-cases,
}
use opentrace.Watcher.Store.{Floats, Trouble, invalid_config, store_error, nil_pointer}
use opentrace.Watcher.Condition.{Condition, ConditionResult}
use opentrace.Watcher.Evaluator.{
  WatchStatus, triggered, is_triggered, Rule, Watch, WatchEvalResult, Check, measured,
  continue_with, evaluate_locked, record_failed_check, settle, evaluate,
}
use opentrace.Watcher.Evaluator.Alerts.{alerts, outcome}

module _ (f : Floats) (unmarshal : Bytes → Option (Condition f.F)) where
  abbrev pub not_config_error : Result Trouble (ConditionResult f.F) → Bool
  not_config_error (err invalid_config) = false
  not_config_error (err (store_error e)) = true
  not_config_error (err nil_pointer) = true
  not_config_error (ok r) = true

  -- A check in which the watch store works, and the rule is a valid one.
  abbrev pub Works : Rule f.F → Check f → Type 0
  Works r c =
      (c.read_fault ≡ none)
      × (c.update_fault ≡ none)
      × (c.status_fault ≡ none)
      × (not_config_error (measured f unmarshal c r) ≡ true)

  abbrev pub observe : Result Trouble (ConditionResult f.F) → List Bool → List Bool
  observe (err e) bs = bs
  observe (ok r) bs = r.breached ∷ bs

  -- The verdicts of the checks that could measure.
  abbrev pub observations : Rule f.F → List (Check f) → List Bool
  observations r [] = []
  observations r (c ∷ cs) = observe (measured f unmarshal c r) (observations r cs)

  -- The number of alerts of checks one after the other.
  abbrev pub fired : List (Check f) → Watch f.F → ℕ
  fired [] w = 0
  fired (c ∷ cs) w =
      let (w', r) = evaluate f unmarshal c w in
      (if alerts f unmarshal r then 1 else 0) + fired cs w'

  abbrev pub fires : Watch f.F → Bool
  fires w =
      not (ltb (w.consecutive_breaches + 1) w.rule.min_consecutive) && not (is_triggered w.status)

  -- The parts of a row after a check that later checks read.
  abbrev pub Next :
      Watch f.F → Watch f.F × Result Trouble (WatchEvalResult f.F) → WatchStatus → ℕ → Bool → Type 0
  Next w p status breaches alert =
      (p.0.rule ≡ w.rule)
      × (p.0.status ≡ status)
      × (p.0.consecutive_breaches ≡ breaches)
      × (alerts f unmarshal p.1 ≡ alert)

  module _ (c : Check f) (w : Watch f.F) where
    abbrev after_measuring :
        Result Trouble (ConditionResult f.F) → Watch f.F × Result Trouble (WatchEvalResult f.F)
    after_measuring m = settle f unmarshal c w (continue_with f unmarshal c m w)

    evaluate_works :
        c.read_fault ≡ none
        → evaluate f unmarshal c w ≡ after_measuring (measured f unmarshal c w.rule)
    unfolding evaluate evaluate_locked
    evaluate_works h = rw h refl

    written-Next :
        (e : Bytes)
        → Next w
            (record_failed_check f unmarshal c w (store_error e) w, err (store_error e))
            w.status
            w.consecutive_breaches
            false
    unfolding record_failed_check
    written-Next e = elim (Option-cases c.failed_check_fault) [
      | inl works ↦ rw works (refl, refl, refl, refl)
      | inr (x, fails) ↦ rw fails (refl, refl, refl, refl)
    ]

    failed-Next :
        (e : Trouble)
        → not_config_error (err e) ≡ true
        → Next w (after_measuring (err e)) w.status w.consecutive_breaches false
    unfolding record_failed_check
    failed-Next invalid_config h = absurd cc
    failed-Next (store_error e) h = written-Next e
    failed-Next nil_pointer h = (refl, refl, refl, refl)

    calm-Next :
        (value : f.F)
        → c.update_fault ≡ none
        → Next w (after_measuring (ok (outcome f unmarshal c value false))) w.status 0 false
    calm-Next value h = rw h (refl, refl, refl, refl)

    breach-Next :
        (value : f.F)
        → c.update_fault ≡ none
        → c.status_fault ≡ none
        → Next w
            (after_measuring (ok (outcome f unmarshal c value true)))
            (if fires w then triggered else w.status)
            (w.consecutive_breaches + 1)
            (fires w)
    breach-Next value h h' =
        elim (Bool-cases (ltb (w.consecutive_breaches + 1) w.rule.min_consecutive)) [
          | inl few ↦ rw (h, few) (refl, refl, refl, refl)
          | inr enough ↦ elim (Bool-cases (is_triggered w.status)) [
            | inl again ↦ rw (h, enough, again) (refl, refl, refl, refl)
            | inr quiet ↦ rw (h, enough, quiet, h') (refl, refl, refl, refl)
          ]
        ]

    -- The three ways of a check: it cannot measure, it is calm, or it is a breach.
    abbrev pub Ways :
        Result Trouble (ConditionResult f.F)
        → Watch f.F × Result Trouble (WatchEvalResult f.F)
        → Type 0
    Ways m p =
        (Next w p w.status w.consecutive_breaches false × ((bs : List Bool) → observe m bs ≡ bs))
        ⊎ (Next w p w.status 0 false × ((bs : List Bool) → observe m bs ≡ false ∷ bs))
        ⊎ (Next w p (if fires w then triggered else w.status) (w.consecutive_breaches + 1) (fires w)
            × ((bs : List Bool) → observe m bs ≡ true ∷ bs))

    Ways-verdict :
        (value : f.F) (breached : Bool)
        → c.update_fault ≡ none
        → c.status_fault ≡ none
        → Ways
            (ok (outcome f unmarshal c value breached))
            (after_measuring (ok (outcome f unmarshal c value breached)))
    Ways-verdict value false u s = inr (inl (calm-Next value u, λ bs. refl))
    Ways-verdict value true u s = inr (inr (breach-Next value u s, λ bs. refl))

    Ways-measured :
        (m : Result Trouble (ConditionResult f.F))
        → c.update_fault ≡ none
        → c.status_fault ≡ none
        → not_config_error m ≡ true
        → Ways m (after_measuring m)
    Ways-measured (err e) u s v = inl (failed-Next e v, λ bs. refl)
    Ways-measured (ok r) u s v = Ways-verdict r.value r.breached u s

    pub ways : Works w.rule c → Ways (measured f unmarshal c w.rule) (evaluate f unmarshal c w)
    ways h = rw (evaluate_works h.0) (Ways-measured (measured f unmarshal c w.rule) h.1 h.2 h.3)
