-- ===== src/Watcher/Condition/Truth.antt =====
-- What a rule means (internal/watcher/watch_conditions.go): the truth of its tree, and which leaves it needs.
use opentrace.Base.{
  ◌≡◌, refl, ap, ◌∙◌, arith, List, [], ◌∷◌, ◌++◌, Bool, true, false, not, ◌&&◌, ◌||◌, Option, none,
  some, Result, err, ok, ◌>>=◌, if◌then◌else◌, Bool-cases, inl, inr,
}
use opentrace.Watcher.Store.{Floats, Trouble, nil_pointer}
use opentrace.Watcher.Condition.{
  Condition, node, Conditions, end, next, OptCondition, absent, present, ConditionResult, Leaf,
  World, has_any, has_condition,
}
use opentrace.Watcher.Condition.Leaves.{eval_leaf}
use opentrace.Watcher.Condition.Tree.{
  evaluate_condition, evaluate_pointer, eval_all, eval_any, combined, negated,
}

-- The result of a computation that may be in trouble.
abbrev pub after : Option Trouble → Bool → Result Trouble Bool
after none b = ok b
after (some e) b = err e

abbrev pub first : Option Trouble → Option Trouble → Option Trouble
first none e = e
first (some e) e' = some e

abbrev pub trouble : {V : Type 0} → Result Trouble V → Option Trouble
trouble (err e) = some e
trouble (ok v) = none

module _ (f : Floats) (w : World f) where
  abbrev pub breached_if_ok : Result Trouble (ConditionResult f.F) → Bool
  breached_if_ok (err e) = false
  breached_if_ok (ok r) = r.breached

  abbrev pub leaf_trouble : Option (Leaf f.F) → Option Trouble
  leaf_trouble none = some nil_pointer
  leaf_trouble (some c) = trouble (eval_leaf f w c)

  abbrev pub verdict : Result Trouble (ConditionResult f.F) → Result Trouble Bool
  verdict (err e) = err e
  verdict (ok r) = ok r.breached

  abbrev pub first_trouble : List (Option (Leaf f.F)) → Option Trouble
  first_trouble [] = none
  first_trouble (c ∷ cs) = first (leaf_trouble c) (first_trouble cs)

  -- The leaves that a rule needs, in order; a nil pointer among them is `none`.
  unfoldable mutual
    pub leaves : Condition f.F → List (Option (Leaf f.F))
    leaves (node every some_of inner c) =
        let of_every = leaves_of_all every in
        let of_some = leaves_of_all some_of in
        let of_inner = leaves_at inner in
        if has_any every
        then of_every
        else if has_any some_of
        then of_some
        else if has_condition inner
        then of_inner
        else some c ∷ []

    pub leaves_at : OptCondition f.F → List (Option (Leaf f.F))
    leaves_at absent = none ∷ []
    leaves_at (present c) = leaves c

    pub leaves_of_all : Conditions f.F → List (Option (Leaf f.F))
    leaves_of_all end = []
    leaves_of_all (next c cs) = leaves_at c ++ leaves_of_all cs

  -- The truth of the tree over its leaves.
  unfoldable mutual
    pub holds : Condition f.F → Bool
    holds (node every some_of inner c) =
        let in_all = every_holds every in
        let in_any = some_holds some_of in
        let in_not = holds_at inner in
        if has_any every
        then in_all
        else if has_any some_of
        then in_any
        else if has_condition inner
        then not in_not
        else breached_if_ok (eval_leaf f w c)

    pub holds_at : OptCondition f.F → Bool
    holds_at absent = false
    holds_at (present c) = holds c

    pub every_holds : Conditions f.F → Bool
    every_holds end = true
    every_holds (next c cs) = holds_at c && every_holds cs

    pub some_holds : Conditions f.F → Bool
    some_holds end = false
    some_holds (next c cs) = holds_at c || some_holds cs

  first_trouble-append :
      (xs ys : List (Option (Leaf f.F)))
      → first_trouble (xs ++ ys) ≡ first (first_trouble xs) (first_trouble ys)
  first_trouble-append [] ys = refl
  first_trouble-append (x ∷ xs) ys = rw (first_trouble-append xs ys) (first_assoc (leaf_trouble x))
    where
      first_assoc :
          (e : Option Trouble)
          → first e (first (first_trouble xs) (first_trouble ys))
            ≡ first (first e (first_trouble xs)) (first_trouble ys)
      first_assoc none = refl
      first_assoc (some e) = refl

  verdict-eval_leaf :
      (r : Result Trouble (ConditionResult f.F))
      → verdict r ≡ after (first (trouble r) none) (breached_if_ok r)
  verdict-eval_leaf (err e) = refl
  verdict-eval_leaf (ok r) = refl

  verdict-combined : (r : Result Trouble Bool) → verdict (combined f w r) ≡ r
  verdict-combined (err e) = refl
  verdict-combined (ok b) = refl

  verdict-negated :
      (r : Result Trouble (ConditionResult f.F)) (e : Option Trouble) (b : Bool)
      → verdict r ≡ after e b
      → verdict (negated f w r) ≡ after e (not b)
  verdict-negated (err e) none b h = absurd cc
  verdict-negated (err e) (some e') b h = cc
  verdict-negated (ok r) none b h = cc
  verdict-negated (ok r) (some e') b h = absurd cc

  step-eval_all :
      (p : Result Trouble (ConditionResult f.F)) (cs : Conditions f.F) (flag b bs : Bool)
      (e e' : Option Trouble)
      → verdict p ≡ after e b
      → ((g : Bool) → eval_all f w cs g ≡ after e' (g && bs))
      → (p >>= λ r. eval_all f w cs (if not r.breached then false else flag))
        ≡ after (first e e') (flag && (b && bs))
  step-eval_all (err x) cs flag b bs none e' h rest = absurd cc
  step-eval_all (err x) cs flag b bs (some e) e' h rest = cc
  step-eval_all (ok r) cs flag b bs none e' h rest =
      rest (if not r.breached then false else flag) ∙ ap (after e') (ground arith)
  step-eval_all (ok r) cs flag b bs (some e) e' h rest = absurd cc

  step-eval_any :
      (p : Result Trouble (ConditionResult f.F)) (cs : Conditions f.F) (flag b bs : Bool)
      (e e' : Option Trouble)
      → verdict p ≡ after e b
      → ((g : Bool) → eval_any f w cs g ≡ after e' (g || bs))
      → (p >>= λ r. eval_any f w cs (if r.breached then true else flag))
        ≡ after (first e e') (flag || (b || bs))
  step-eval_any (err x) cs flag b bs none e' h rest = absurd cc
  step-eval_any (err x) cs flag b bs (some e) e' h rest = cc
  step-eval_any (ok r) cs flag b bs none e' h rest =
      rest (if r.breached then true else flag) ∙ ap (after e') (ground arith)
  step-eval_any (ok r) cs flag b bs (some e) e' h rest = absurd cc

  mutual
    unfolding evaluate_condition leaves holds

    evaluate_lem :
        (c : Condition f.F)
        → verdict (evaluate_condition f w c) ≡ after (first_trouble (leaves c)) (holds c)
    evaluate_lem (node every some_of inner c) =
        let in_every = eval_all_lem every true in
        let in_some = eval_any_lem some_of false in
        let in_not = evaluate_pointer_lem inner in
        elim (Bool-cases (has_any every)) [
          | inl e ↦ rw (e, verdict-combined (eval_all f w every true)) in_every
          | inr e ↦ elim (Bool-cases (has_any some_of)) [
            | inl e' ↦ rw (e, e', verdict-combined (eval_any f w some_of false)) in_some
            | inr e' ↦ elim (Bool-cases (has_condition inner)) [
              | inl e'' ↦
                  rw (e, e', e'')
                    (verdict-negated (evaluate_pointer f w inner) (first_trouble (leaves_at inner))
                      (holds_at inner) in_not)
              | inr e'' ↦ rw (e, e', e'') (verdict-eval_leaf (eval_leaf f w c))
            ]
          ]
        ]

    evaluate_pointer_lem :
        (c : OptCondition f.F)
        → verdict (evaluate_pointer f w c) ≡ after (first_trouble (leaves_at c)) (holds_at c)
    evaluate_pointer_lem absent = refl
    evaluate_pointer_lem (present c) = evaluate_lem c

    eval_all_lem :
        (cs : Conditions f.F) (flag : Bool)
        → eval_all f w cs flag ≡ after (first_trouble (leaves_of_all cs)) (flag && every_holds cs)
    eval_all_lem end flag = ground arith
    eval_all_lem (next c cs) flag = rw (first_trouble-append (leaves_at c) (leaves_of_all cs)) (
        step-eval_all (evaluate_pointer f w c) cs flag (holds_at c) (every_holds cs)
          (first_trouble (leaves_at c)) (first_trouble (leaves_of_all cs)) (evaluate_pointer_lem c)
          (eval_all_lem cs))

    eval_any_lem :
        (cs : Conditions f.F) (flag : Bool)
        → eval_any f w cs flag ≡ after (first_trouble (leaves_of_all cs)) (flag || some_holds cs)
    eval_any_lem end flag = ground arith
    eval_any_lem (next c cs) flag = rw (first_trouble-append (leaves_at c) (leaves_of_all cs)) (
        step-eval_any (evaluate_pointer f w c) cs flag (holds_at c) (some_holds cs)
          (first_trouble (leaves_at c)) (first_trouble (leaves_of_all cs)) (evaluate_pointer_lem c)
          (eval_any_lem cs))

  -- For every tree of conditions, with whatever combinators its nodes have set and nil pointers in
  -- its lists, and every store of logs: the verdict of EvaluateCondition is the first failure among
  -- the leaves that the tree needs, in their order, and if none fails it is the truth of the tree
  -- over its leaves.
  pub evaluate_condition_lem :
      (c : Condition f.F)
      → verdict (evaluate_condition f w c) ≡ after (first_trouble (leaves c)) (holds c)
  evaluate_condition_lem c = evaluate_lem c
