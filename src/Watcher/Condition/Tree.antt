-- ===== src/Watcher/Condition/Tree.antt =====
-- watch_conditions.go: EvaluateCondition, evalAll and evalAny.
use opentrace.Base.{Bool, true, false, not, Result, err, ok, ◌>>=◌, if◌then◌else◌}
use opentrace.Watcher.Store.{Floats, Trouble, nil_pointer}
use opentrace.Watcher.Condition.{
  Condition, node, Conditions, end, next, OptCondition, absent, present, has_any, has_condition,
  ConditionResult, World,
}
use opentrace.Watcher.Condition.Leaves.{eval_leaf}

module _ (f : Floats) (w : World f) where
  abbrev pub negated : Result Trouble (ConditionResult f.F) → Result Trouble (ConditionResult f.F)
  negated r = do x ← r; ok (record { breached = not x.breached; value = x.value })

  abbrev pub combined : Result Trouble Bool → Result Trouble (ConditionResult f.F)
  combined r = do breached ← r; ok (record { breached = breached; value = f.of_int 0 })

  unfoldable mutual
    pub evaluate_condition : Condition f.F → Result Trouble (ConditionResult f.F)
    evaluate_condition (node every some_of inner c) =
        let in_all = combined (eval_all every true) in
        let in_any = combined (eval_any some_of false) in
        let in_not = negated (evaluate_pointer inner) in
        if has_any every
        then in_all
        else if has_any some_of
        then in_any
        else if has_condition inner
        then in_not
        else eval_leaf f w c

    -- A nil pointer is dereferenced.
    pub evaluate_pointer : OptCondition f.F → Result Trouble (ConditionResult f.F)
    evaluate_pointer absent = err nil_pointer
    evaluate_pointer (present c) = evaluate_condition c

    -- The loop of evalAll, with its flag.
    pub eval_all : Conditions f.F → Bool → Result Trouble Bool
    eval_all end all_breached = ok all_breached
    eval_all (next c cs) all_breached = do
      r ← evaluate_pointer c
      eval_all cs (if not r.breached then false else all_breached)

    -- The loop of evalAny.
    pub eval_any : Conditions f.F → Bool → Result Trouble Bool
    eval_any end any_breached = ok any_breached
    eval_any (next c cs) any_breached = do
      r ← evaluate_pointer c
      eval_any cs (if r.breached then true else any_breached)
