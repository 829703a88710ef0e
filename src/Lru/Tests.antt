-- ===== src/Lru/Tests.antt =====
-- A cache (Lru.antt) on concrete keys, which are numbers.
use opentrace.Base.{ℕ, ◌+◌, ◌≡◌, refl, List, [], ◌∷◌, arith, inl, inr, ◌==◌, ==_iff}
use opentrace.Lru.{Eq, Item, Cache, new_cache, get, put, take_out, evict, oldest}
use opentrace.Lru.Evict.{total, keep}
use opentrace.Lru.Invariant.{IsWithin, Op, run_ops, run_ops-IsWithin, put-keep, Distinct, holds}

instance abbrev number_eq : Eq ℕ
number_eq = record { same = λ a b. a == b; same_iff = ==_iff }

abbrev item : ℕ → ℕ → Item ℕ ℕ
item k size = record { key = k; value = k; bytes = size }

abbrev three : Cache ℕ ℕ
three = record { budget = 100; used = 60; items = item 1 20 ∷ item 2 25 ∷ item 3 15 ∷ [] }

abbrev empty : Cache ℕ ℕ
empty = record { budget = 100; used = 0; items = [] }

abbrev some_ops : List (Op ℕ ℕ)
some_ops =
    inr (1, 1, 25) ∷ inr (2, 2, 30) ∷ inl 1 ∷ inr (3, 3, 25) ∷ inr (4, 4, 20) ∷ inr (5, 5, 25) ∷ []

-- A value over its share is not kept, and the one used last is evicted last.
some_ops_run :
    run_ops 4 some_ops empty
    ≡ record { budget = 100; used = 95; items = item 5 25 ∷ item 4 20 ∷ item 3 25 ∷ item 1 25 ∷ [] }
unfolding get put take_out evict oldest
some_ops_run = refl

run_ops-IsWithin_example : IsWithin (run_ops 4 some_ops empty)
unfolding new_cache
run_ops-IsWithin_example = run_ops-IsWithin 4 100 some_ops empty refl

three-IsWithin : IsWithin three
unfolding total Distinct holds
three-IsWithin = record {
  used_total = refl;
  in_budget = omega arith;
  distinct = (refl, (refl, (refl, tt)));
}

put-keep_example : put 2 9 9 50 three ≡ (
    let kept = keep 50 three.items in
    record three { items = item 9 50 ∷ kept; used = total kept + 50 })
unfolding get take_out
put-keep_example = put-keep 2 9 9 50 three (omega arith) (omega arith) three-IsWithin refl
