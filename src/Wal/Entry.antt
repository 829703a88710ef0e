-- ===== src/Wal/Entry.antt =====
-- chunk/schema.go: the log entry, its fields grouped as the struct's comments group them. A string
-- is the list of its bytes, an int64 or int its two's complement word, a nil body an empty one.
use opentrace.Base.{ℕ, Bool, Option, none, Bytes, []}

-- "Common context"
pub record Context : Type 0 where
  pub env : Bytes
  pub version : Bytes
  pub host : Bytes
  pub kind : Bytes
  pub event_type : Bytes
  pub trace_id : Bytes
  pub span_id : Bytes
  pub parent_span_id : Bytes
  pub request_id : Bytes
  pub user_id : Bytes
  pub tenant_id : Bytes
  pub session_id : Bytes

-- "HTTP request"
pub record HttpInfo : Type 0 where
  pub method : Bytes
  pub path : Bytes
  pub route : Bytes
  pub handler : Bytes
  pub status : ℕ
  pub duration_ms : ℕ

-- "Performance"
pub record PerfInfo : Type 0 where
  pub db_ms : ℕ
  pub db_count : ℕ
  pub cache_ms : ℕ
  pub cache_hits : ℕ
  pub cache_misses : ℕ
  pub ext_ms : ℕ
  pub ext_count : ℕ
  pub render_ms : ℕ
  pub alloc_count : ℕ
  pub mem_delta_mb : ℕ
  pub n_plus_one : Option Bool
  pub slow_queries : ℕ
  pub dup_queries : ℕ

-- "Error tracking"
pub record ErrorInfo : Type 0 where
  pub error_class : Bytes
  pub error_message : Bytes
  pub source_file : Bytes
  pub source_line : ℕ
  pub error_fingerprint : Bytes

-- "Job"
pub record JobInfo : Type 0 where
  pub job_class : Bytes
  pub job_queue : Bytes
  pub job_id : Bytes
  pub queue_ms : ℕ

pub record Entry : Type 0 where
  pub id : ℕ
  pub ts : ℕ
  pub received_at : ℕ
  pub level : Bytes
  pub service : Bytes
  pub message : Bytes
  pub context : Context
  pub http : HttpInfo
  pub perf : PerfInfo
  pub failure : ErrorInfo
  pub job : JobInfo
  pub body : Bytes

-- The zero value.
abbrev pub no_entry : Entry
no_entry = record {
  id = 0;
  ts = 0;
  received_at = 0;
  level = [];
  service = [];
  message = [];
  context = record {
    env = [];
    version = [];
    host = [];
    kind = [];
    event_type = [];
    trace_id = [];
    span_id = [];
    parent_span_id = [];
    request_id = [];
    user_id = [];
    tenant_id = [];
    session_id = [];
  };
  http = record { method = []; path = []; route = []; handler = []; status = 0; duration_ms = 0 };
  perf = record {
    db_ms = 0;
    db_count = 0;
    cache_ms = 0;
    cache_hits = 0;
    cache_misses = 0;
    ext_ms = 0;
    ext_count = 0;
    render_ms = 0;
    alloc_count = 0;
    mem_delta_mb = 0;
    n_plus_one = none;
    slow_queries = 0;
    dup_queries = 0;
  };
  failure = record {
    error_class = [];
    error_message = [];
    source_file = [];
    source_line = 0;
    error_fingerprint = [];
  };
  job = record { job_class = []; job_queue = []; job_id = []; queue_ms = 0 };
  body = [];
}
