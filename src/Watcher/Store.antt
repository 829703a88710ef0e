-- ===== src/Watcher/Store.antt =====
-- What internal/watcher takes from elsewhere: Go's float64, time.ParseDuration, and the log store.
use opentrace.Base.{
  ℕ, ◌^◌, List, [], ◌∷◌, Bytes, Bool, ◌&&◌, ltb, Option, none, some, Result, if◌then◌else◌,
}

-- The operations of float64 that the watches use.
pub record Floats : Type 1 where
  pub F : Type 0
  -- `>`, `>=`, `<`, `<=`, `==`
  pub gt : F → F → Bool
  pub ge : F → F → Bool
  pub lt : F → F → Bool
  pub le : F → F → Bool
  pub eq : F → F → Bool
  pub sub : F → F → F
  pub mul : F → F → F
  pub div : F → F → F
  -- math.Abs
  pub abs : F → F
  -- float64(n)
  pub of_int : ℕ → F
  -- int(math.Ceil(x)), for x of at least zero
  pub ceil_int : F → ℕ
  -- The constants 0.95 and 0.10.
  pub p95 : F
  pub tenth : F
  -- sort.Float64s
  pub sort_floats : List F → List F

-- Times are nanoseconds since the year 1, durations nanoseconds in 64 bits.
pub record Clock (F : Type 0) : Type 0 where
  pub now : ℕ
  -- time.ParseDuration
  pub parse_duration : Bytes → Option ℕ
  -- Duration.Seconds
  pub seconds : ℕ → F
  -- t.Sub(u).Seconds()
  pub seconds_between : ℕ → ℕ → F

-- store.LogCountParams
pub record CountParams : Type 0 where
  pub since : ℕ
  pub until : ℕ
  pub service : Bytes
  pub level : Bytes
  pub environment : Bytes

-- The fields of a search, for log entries or for request summaries, that the metrics set.
pub record SearchParams : Type 0 where
  pub start : ℕ
  pub finish : ℕ
  pub service : Bytes
  pub path : Bytes
  pub environment : Bytes
  pub sort_by : Bytes
  pub limit : ℕ

pub record RequestSummary (F : Type 0) : Type 0 where
  pub service : Bytes
  pub duration_ms : F

pub record Aggregates (F : Type 0) : Type 0 where
  pub count : ℕ
  pub avg_duration : F
  pub avg_sql_count : F

-- The methods of store.LogStore that are called. A failure is its text.
pub record LogStore (F : Type 0) : Type 0 where
  -- The entries of the map, in the order of one iteration.
  pub count_by_level : CountParams → Result Bytes (List (Bytes × ℕ))
  pub distinct_values : Bytes → CountParams → Result Bytes (List Bytes)
  pub aggregate_request_summaries : SearchParams → Result Bytes (Aggregates F)
  pub search_request_summaries : SearchParams → Result Bytes (List (RequestSummary F))
  -- The timestamps of the entries found.
  pub search_logs : SearchParams → Result Bytes (List ℕ)

-- How an evaluation fails: ErrInvalidWatchConfig, an error of the store, or a nil pointer.
pub data Trouble : Type 0 where
  invalid_config : Trouble
  store_error : Bytes → Trouble
  nil_pointer : Trouble

-- watch_helpers.go: parseDurationOr. An int64 is positive if it is below 2^63 and not 0.
abbrev pub positive_or : ℕ → Option ℕ → ℕ
positive_or default none = default
positive_or default (some d) = if ltb 0 d && ltb d (2 ^ 63) then d else default

abbrev pub parse_duration_or : (Bytes → Option ℕ) → Bytes → ℕ → ℕ
parse_duration_or parse [] default = default
parse_duration_or parse (b ∷ bs) default = positive_or default (parse (b ∷ bs))
