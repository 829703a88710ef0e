-- ===== src/Watcher/Tests.antt =====
-- Rules and watches of internal/watcher on concrete logs, with whole numbers for float64.
use opentrace.Base.{
  ℕ, ◌+◌, ◌-◌, ◌*◌, ◌/◌, ◌≡◌, refl, List, [], ◌∷◌, Bytes, codes, bytes_eq, map, leb, ltb, ◌==◌,
  true, false, ◌&&◌, none, some, err, ok, if◌then◌else◌,
}
use opentrace.Guardrail.Unicode.{is_space, decode_rune, trim_space}
use opentrace.TextIndex.Tokenizer.{fields_func}
use opentrace.Watcher.Store.{Floats, Clock, CountParams, LogStore, invalid_config, nil_pointer}
use opentrace.Watcher.Metrics.{measure_range, measure, measure_error_count}
use opentrace.Watcher.Metrics.Totals.{Totals, measure_error_rate_lem}
use opentrace.Watcher.CountQuery.{
  Texts, CountQueryFilter, parse_count_query, apply_filter, cut_colon, level_lookup,
  normalize_query_level, parse_cut, parse_field, parse_terms,
}
use opentrace.Watcher.CountQuery.Scope.{InScope, AllSupported, parse_count_query-InScope}
use opentrace.Watcher.Condition.{Condition, node, end, next, absent, present, Leaf, World}
use opentrace.Watcher.Condition.Leaves.{compare, eval_leaf, eval_threshold}
use opentrace.Watcher.Condition.Tree.{evaluate_condition}
use opentrace.Watcher.Condition.Truth.{
  verdict, after, first_trouble, leaves, holds, evaluate_condition_lem,
}

abbrev pub whole : Floats
whole = record {
  F = ℕ;
  gt = λ a b. ltb b a;
  ge = λ a b. leb b a;
  lt = ltb;
  le = leb;
  eq = λ a b. a == b;
  sub = λ a b. a - b;
  mul = λ a b. a * b;
  div = λ a b. a / b;
  abs = λ a. a;
  of_int = λ n. n;
  ceil_int = λ n. n;
  p95 = 1;
  tenth = 0;
  sort_floats = λ xs. xs;
}

abbrev lower_byte : ℕ → ℕ
lower_byte b = if leb b'A' b && leb b b'Z' then b + 32 else b

abbrev pub ascii : Texts
ascii = record {
  to_lower = λ s. map lower_byte s;
  equal_fold = λ s t. bytes_eq (map lower_byte s) (map lower_byte t);
}

abbrev pub noon : Clock ℕ
noon = record {
  now = 5000000000000;
  parse_duration = λ s. none;
  seconds = λ d. d / 1000000000;
  seconds_between = λ a b. (a - b) / 1000000000;
}

-- A store that answers every count with the same levels.
abbrev pub holding : List (Bytes × ℕ) → LogStore ℕ
holding counts = record {
  count_by_level = λ p. ok counts;
  distinct_values = λ field p. ok [];
  aggregate_request_summaries = λ p. err (codes "busy");
  search_request_summaries = λ p. ok [];
  search_logs = λ p. ok [];
}

abbrev pub some_counts : List (Bytes × ℕ)
some_counts = (codes "info", 90) ∷ (codes "ERROR", 7) ∷ (codes "fatal", 3) ∷ []

abbrev at_noon : Bytes → CountParams
at_noon service = record {
  since = 4000000000000;
  until = 5000000000000;
  service = service;
  level = [];
  environment = codes "prod";
}

measure_error_rate_lem_example :
    (errors : ℕ) × (total : ℕ) × Totals ascii.to_lower some_counts errors total
    × (measure_range whole ascii.to_lower
          (holding some_counts)
          noon
          (codes "error_count")
          (codes "api")
          []
          (codes "prod")
          4000000000000
          5000000000000
        ≡ ok errors)
    × (measure_range whole ascii.to_lower
          (holding some_counts)
          noon
          (codes "log_count")
          (codes "api")
          []
          (codes "prod")
          4000000000000
          5000000000000
        ≡ ok total)
    × (measure_range whole ascii.to_lower
          (holding some_counts)
          noon
          (codes "error_rate")
          (codes "api")
          []
          (codes "prod")
          4000000000000
          5000000000000
        ≡ ok (if total == 0 then 0 else errors / total))
measure_error_rate_lem_example =
    measure_error_rate_lem whole ascii.to_lower (holding some_counts) noon (codes "api") []
      (codes "prod") 4000000000000 5000000000000 some_counts refl

parse_run :
    parse_count_query ascii (codes " level:Warning  SERVICE:api") []
    ≡ ok (record { level = codes "warn"; service = codes "api" })
unfolding parse_count_query parse_terms fields_func is_space decode_rune parse_cut cut_colon
    parse_field bytes_eq normalize_query_level level_lookup trim_space
parse_run = refl

parse_free_text : parse_count_query ascii (codes "timeout") [] ≡ err invalid_config
unfolding parse_count_query parse_terms fields_func is_space decode_rune parse_cut cut_colon
parse_free_text = refl

abbrev accepted : CountQueryFilter
accepted = record { level = codes "warn"; service = codes "api" }

parse_count_query-InScope_example :
    InScope ascii (codes "API") accepted
    × AllSupported ascii
        (codes "API")
        accepted
        (fields_func is_space (codes "level:warning service:api"))
    × ((apply_filter accepted (at_noon (codes "web"))).environment ≡ codes "prod")
    × ((apply_filter accepted (at_noon (codes "web"))).since ≡ (at_noon []).since)
    × ((apply_filter accepted (at_noon (codes "web"))).until ≡ (at_noon []).until)
unfolding parse_count_query parse_terms fields_func is_space decode_rune parse_cut cut_colon
    parse_field bytes_eq normalize_query_level level_lookup trim_space
parse_count_query-InScope_example =
    parse_count_query-InScope ascii (codes "level:warning service:api") (codes "API") accepted
      (at_noon (codes "web")) refl

abbrev too_many : ℕ → Leaf ℕ
too_many n = record {
  kind = codes "threshold";
  metric = codes "error_count";
  op = codes "gt";
  service = codes "api";
  endpoint = [];
  value = n;
  baseline_multiple = 0;
  change_pct = 0;
  compare_window = [];
  field = [];
  distinct = false;
  query = [];
  window = [];
}

abbrev leaf : Leaf ℕ → Condition ℕ
leaf c = node end end absent c

abbrev no_leaf : Leaf ℕ
no_leaf = record (too_many 0) { kind = [] }

-- {"all": [errors > 5, {"not": errors > 50}]}
abbrev pub between_bounds : Condition ℕ
between_bounds =
    node
      (next (present (leaf (too_many 5)))
        (next (present (node end end (present (leaf (too_many 50))) no_leaf)) end))
      end absent no_leaf

abbrev world : World whole
world = record {
  texts = ascii;
  clock = noon;
  logs = some (holding some_counts);
  baseline = none;
  environment = codes "prod";
  check_window = 30000000000;
}

condition_run :
    evaluate_condition whole world between_bounds ≡ ok (record { breached = true; value = 0 })
unfolding evaluate_condition eval_leaf bytes_eq eval_threshold measure measure_range
    measure_error_count compare
condition_run = refl

-- `{"all": [null]}`
condition_nil :
    evaluate_condition whole world (node (next absent end) end absent no_leaf) ≡ err nil_pointer
unfolding evaluate_condition
condition_nil = refl

evaluate_condition_lem_example :
    verdict whole world (evaluate_condition whole world between_bounds)
    ≡ after
        (first_trouble whole world (leaves whole world between_bounds))
        (holds whole world between_bounds)
evaluate_condition_lem_example = evaluate_condition_lem whole world between_bounds
