-- ===== src/Watcher/Condition.antt =====
-- watch_conditions.go: the tree of a rule, and what its evaluation is given.
pub mod Leaves
pub mod Tree
pub mod Truth
use opentrace.Base.{
  ℕ, ◌-◌, ◌*◌, ◌^◌, List, [], ◌∷◌, Bytes, codes, bytes_eq, length, Bool, true, false, not, ◌&&◌,
  ◌||◌, ltb, ◌==◌, Option, none, some, Result, err, ok, ◌>>=◌, map_err, if◌then◌else◌,
}
use opentrace.Watcher.Store.{
  Floats, Clock, CountParams, LogStore, Trouble, invalid_config, store_error, nil_pointer,
  parse_duration_or,
}
use opentrace.TextIndex.Tokenizer.{is_seen}
use opentrace.Watcher.Metrics.{measure, measure_range, total_count}
use opentrace.Watcher.CountQuery.{Texts, parse_count_query, apply_filter, non_empty}

-- The fields of store.WatchBaseline that conditions read.
pub record Baseline (F : Type 0) : Type 0 where
  pub error_rate : F
  pub avg_response_ms : F
  pub p95_response_ms : F
  pub log_count : ℕ
  pub error_count : ℕ
  pub sql_count : F
  pub cache_hit_rate : F
  pub window_duration : Bytes

-- The fields of a node other than `All`, `Any` and `Not`.
pub record Leaf (F : Type 0) : Type 0 where
  pub kind : Bytes
  pub metric : Bytes
  pub op : Bytes
  pub service : Bytes
  pub endpoint : Bytes
  pub value : F
  pub baseline_multiple : F
  pub change_pct : F
  pub compare_window : Bytes
  pub field : Bytes
  pub distinct : Bool
  pub query : Bytes
  pub window : Bytes

-- A node has all of its fields, whichever are used; a list may hold nil pointers.
mutual
  pub data Condition (F : Type 0) : Type 0 where
    node : Conditions F → Conditions F → OptCondition F → Leaf F → Condition F

  pub data Conditions (F : Type 0) : Type 0 where
    end : Conditions F
    next : OptCondition F → Conditions F → Conditions F

  pub data OptCondition (F : Type 0) : Type 0 where
    absent : OptCondition F
    present : Condition F → OptCondition F

-- `len(c.All) > 0`
abbrev pub has_any : {F : Type 0} → Conditions F → Bool
has_any end = false
has_any (next c cs) = true

-- `c.Not != nil`
abbrev pub has_condition : {F : Type 0} → OptCondition F → Bool
has_condition absent = false
has_condition (present c) = true

-- ConditionResult without its summary.
pub record ConditionResult (F : Type 0) : Type 0 where
  pub breached : Bool
  pub value : F

-- What every evaluation is given.
pub record World (f : Floats) : Type 0 where
  pub texts : Texts
  pub clock : Clock f.F
  -- nil, or the store of WatchMetrics
  pub logs : Option (LogStore f.F)
  pub baseline : Option (Baseline f.F)
  pub environment : Bytes
  pub check_window : ℕ
