-- ===== src/Watcher/Evaluator/Streak.antt =====
-- A watch over a sequence of evaluations (internal/watcher/watch_evaluator.go): it alerts on a streak of breaches.
use opentrace.Base.{
  ℕ, zero, suc, ◌+◌, ◌-◌, ◌≤◌, ◌≡◌, inl, inr, refl, sym, ap, subst, ◌∙◌, arith, List, [], ◌∷◌,
  Bytes, All, Bool, true, false, ◌&&◌, ◌||◌, max, Option, Result, if◌then◌else◌,
}
use opentrace.Watcher.Store.{Floats, Trouble}
use opentrace.Watcher.Condition.{Condition, ConditionResult}
use opentrace.Watcher.Evaluator.{
  active, triggered, is_triggered, Rule, Watch, WatchEvalResult, Check, measured, evaluate,
}
use opentrace.Watcher.Evaluator.Alerts.{alerts}
use opentrace.Watcher.Evaluator.Checks.{Works, observations, fired, fires, Next, Ways, ways}

-- Whether the first `n` checks are there and breached.
abbrev pub leads : ℕ → List Bool → Bool
leads zero bs = true
leads (suc n) [] = false
leads (suc n) (b ∷ bs) = b && leads n bs

-- Whether `n` checks in a row breached.
abbrev pub has_streak : ℕ → List Bool → Bool
has_streak n [] = false
has_streak n (b ∷ bs) = leads n (b ∷ bs) || has_streak n bs

leads-le : (m n : ℕ) (bs : List Bool) → m ≤ n → leads n bs ≡ true → leads m bs ≡ true
leads-le zero n bs h e = refl
leads-le (suc m) zero bs h e = absurd (omega arith)
leads-le (suc m) (suc n) [] h e = absurd cc
leads-le (suc m) (suc n) (b ∷ bs) h e = ground (arith, leads-le m n bs)

leads-has_streak : (k : ℕ) (bs : List Bool) → leads (suc k) bs ≡ true → has_streak (suc k) bs ≡ true
leads-has_streak k [] h = absurd cc
leads-has_streak k (b ∷ bs) h = rw h refl

own_streak :
    (k : ℕ) (bs : List Bool) → (leads (suc k) bs || has_streak (suc k) bs) ≡ has_streak (suc k) bs
own_streak k bs = ground (arith, leads-has_streak k bs)

calm_streak :
    (k d : ℕ) (bs : List Bool)
    → (leads (suc d) (false ∷ bs) || has_streak (suc k) (false ∷ bs))
      ≡ (leads (suc k) bs || has_streak (suc k) bs)
calm_streak k d bs = ground (arith, leads-has_streak k bs)

breach_streak :
    (k d : ℕ) (bs : List Bool)
    → suc d ≤ k
    → (leads (suc (suc d)) (true ∷ bs) || has_streak (suc k) (true ∷ bs))
      ≡ (leads (suc d) bs || has_streak (suc k) bs)
breach_streak k d bs h = ground (arith, leads-le (suc d) k bs h)

module _ (f : Floats) (unmarshal : Bytes → Option (Condition f.F)) where
  abbrev one_if : Bool → ℕ
  one_if b = if b then 1 else 0

  stays_triggered :
      (c : Check f) (w : Watch f.F) (m : Result Trouble (ConditionResult f.F))
      (p : Watch f.F × Result Trouble (WatchEvalResult f.F))
      → w.status ≡ triggered
      → Ways f unmarshal c w m p
      → (p.0.rule ≡ w.rule) × (p.0.status ≡ triggered) × (alerts f unmarshal p.1 ≡ false)
  stays_triggered c w m p t (inl ((rule, status, breaches, alert), same)) =
      (rule, status ∙ t, alert)
  stays_triggered c w m p t (inr (inl ((rule, status, breaches, alert), same))) =
      (rule, status ∙ t, alert)
  stays_triggered c w m p t (inr (inr ((rule, status, breaches, alert), same))) =
      let silent : fires f unmarshal w ≡ false = rw t (ground arith) in
      (rule, status ∙ rw (silent, t) refl, alert ∙ silent)

  Works-subst :
      (r r' : Rule f.F) (cs : List (Check f))
      → r' ≡ r
      → All (Works f unmarshal r) cs
      → All (Works f unmarshal r') cs
  Works-subst r r' cs h = subst (λ x. All (Works f unmarshal x) cs) (sym h)

  -- A triggered watch stays so without an alert.
  fired_none :
      (r : Rule f.F) (cs : List (Check f)) (w : Watch f.F)
      → w.rule ≡ r
      → w.status ≡ triggered
      → All (Works f unmarshal r) cs
      → fired f unmarshal cs w ≡ 0
  fired_none r [] w h t works = refl
  fired_none r (c ∷ cs) w h t (works, rest) =
      let p = evaluate f unmarshal c w in
      let (rule, status, alert) =
        stays_triggered c w (measured f unmarshal c w.rule) p t
          (ways f unmarshal c w (subst (λ x. Works f unmarshal x c) (sym h) works)) in
      rw (alert, fired_none r cs p.0 (rule ∙ h) status rest) refl

  abbrev in_a_row : Rule f.F → ℕ
  in_a_row r = max 1 r.min_consecutive

  fired-leads :
      (r : Rule f.F) (cs : List (Check f)) (w : Watch f.F) (k d : ℕ)
      → w.rule ≡ r
      → suc k ≡ in_a_row r
      → is_triggered w.status ≡ false
      → suc d + w.consecutive_breaches ≡ suc k
      → All (Works f unmarshal r) cs
      → fired f unmarshal cs w
        ≡ one_if (
            leads (suc d) (observations f unmarshal r cs)
            || has_streak (suc k) (observations f unmarshal r cs))
  fired-leads r [] w k d h m t near works = refl
  fired-leads r (c ∷ cs) w k d h m t near (works, rest) =
      elim (ways f unmarshal c w (subst (λ x. Works f unmarshal x c) (sym h) works)) [
        | inl ((rule, status, breaches, alert), same) ↦
            let ih =
              fired-leads r cs p.0 k d (rule ∙ h) m (rw (sym status) at t) (omega arith) rest in
            rw (alert, rw h at (same obs)) (omega (arith, ih))
        | inr (inl ((rule, status, breaches, alert), same)) ↦
            let ih =
              fired-leads r cs p.0 k k (rule ∙ h) m (rw (sym status) at t) (omega arith) rest in
            rw (alert, rw h at (same obs), calm_streak k d obs) (omega (arith, ih))
        | inr (inr (next, same)) ↦ rw (rw h at (same obs)) (
            breach d near next
              (λ d' t' near'. fired-leads r cs p.0 k d' (next.0 ∙ h) m t' near' rest))
      ]
    where
      p : Watch f.F × Result Trouble (WatchEvalResult f.F)
      p = evaluate f unmarshal c w

      obs : List Bool
      obs = observations f unmarshal r cs

      minimum : w.rule.min_consecutive ≡ r.min_consecutive
      minimum = ap (λ (x : Rule f.F). x.min_consecutive) h

      breach :
          (d : ℕ)
          → suc d + w.consecutive_breaches ≡ suc k
          → Next f unmarshal w p
              (if fires f unmarshal w then triggered else w.status)
              (w.consecutive_breaches + 1)
              (fires f unmarshal w)
          → ((d' : ℕ)
              → is_triggered p.0.status ≡ false
              → suc d' + p.0.consecutive_breaches ≡ suc k
              → fired f unmarshal cs p.0 ≡ one_if (leads (suc d') obs || has_streak (suc k) obs))
          → one_if (alerts f unmarshal p.1) + fired f unmarshal cs p.0
            ≡ one_if (leads (suc d) (true ∷ obs) || has_streak (suc k) (true ∷ obs))
      breach zero near (rule, status, breaches, alert) ih =
          let now : fires f unmarshal w ≡ true = ground arith in
          let none_after = fired_none r cs p.0 (rule ∙ h) (status ∙ rw now refl) rest in
          rw (alert, now) (omega (arith, none_after))
      breach (suc d) near (rule, status, breaches, alert) ih =
          let later : fires f unmarshal w ≡ false = ground arith in
          let same_status : p.0.status ≡ w.status = status ∙ rw later refl in
          rw (alert, later, breach_streak k d obs (omega arith))
            (omega (arith, ih d (rw (sym same_status) at t) (omega arith)))

  -- Starting from an active watch without breaches, over any evaluations in a row in which the
  -- watch store works and the rule is not found invalid, the number of alerts is one if some of the
  -- verdicts, those of failed measurements left out, are min_consecutive breaches in a row (one if
  -- that is 0), and otherwise none.
  pub fired-has_streak :
      (cs : List (Check f)) (w : Watch f.F)
      → w.status ≡ active
      → w.consecutive_breaches ≡ 0
      → All (Works f unmarshal w.rule) cs
      → fired f unmarshal cs w ≡ (
          if has_streak (max 1 w.rule.min_consecutive) (observations f unmarshal w.rule cs)
          then 1
          else 0)
  fired-has_streak cs w s b works =
      let k = in_a_row w.rule - 1 in
      let m : suc k ≡ in_a_row w.rule = omega arith in
      let counted = fired-leads w.rule cs w k k refl m (rw s refl) (omega arith) works in
      rw m at (counted ∙ ap one_if (own_streak k (observations f unmarshal w.rule cs)))
