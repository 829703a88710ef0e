-- ===== src/Wal/Group/RoundTrip.antt =====
-- Each group of optional fields is read back as it is stored: strings cut at MaxFieldBytes, ints
-- that are not positive as 0, the status as a uint16.
use opentrace.Base.{
  ℕ, ◌≤◌, ◌≡◌, List, ◌++◌, arith, Bytes, Bool, ok, All, length, append_assoc, length-append,
}
use opentrace.Encoding.Framing.{len_extended}
use opentrace.Wal.Entry.{Context, HttpInfo, PerfInfo, ErrorInfo, JobInfo}
use opentrace.Wal.Flags.{has}
use opentrace.Wal.Field.{truncate_field}
use opentrace.Wal.Field.Laws.{
  stored_int, stored_status, r_str-write_str, r_uvar-write_uvar, r_uint16-write_uint16,
  r_bool-write_bool, length-write_str, length-write_uvar, length-write_uint16, length-write_bool,
}
use opentrace.Wal.Group.{
  context_flags, context_bytes, read_context, http_flags, http_bytes, read_http, perf_flags,
  perf_bytes, read_perf, failure_flags, failure_bytes, read_failure, job_flags, job_bytes, read_job,
}

-- A flag word agrees with a list of conditions.
abbrev pub Agrees : ℕ → List (ℕ × Bool) → Type 0
Agrees flags l = All (λ (p : ℕ × Bool). has flags p.0 ≡ p.1) l

abbrev pub stored_context : Context → Context
stored_context g = record {
  env = truncate_field g.env;
  version = truncate_field g.version;
  host = truncate_field g.host;
  kind = truncate_field g.kind;
  event_type = truncate_field g.event_type;
  trace_id = truncate_field g.trace_id;
  span_id = truncate_field g.span_id;
  parent_span_id = truncate_field g.parent_span_id;
  request_id = truncate_field g.request_id;
  user_id = truncate_field g.user_id;
  tenant_id = truncate_field g.tenant_id;
  session_id = truncate_field g.session_id;
}

pub read_context_lem :
    (flags : ℕ) (g : Context) (rest : Bytes)
    → Agrees flags (context_flags g)
    → read_context len_extended flags (context_bytes flags g ++ rest) ≡ ok (stored_context g, rest)
unfolding read_context context_bytes
read_context_lem flags g rest h = simp (
  append_assoc,
  λ (rest : Bytes). r_str-write_str flags 0 g.env rest h.0,
  λ (rest : Bytes). r_str-write_str flags 1 g.version rest h.1.0,
  λ (rest : Bytes). r_str-write_str flags 2 g.host rest h.1.1.0,
  λ (rest : Bytes). r_str-write_str flags 3 g.kind rest h.1.1.1.0,
  λ (rest : Bytes). r_str-write_str flags 4 g.event_type rest h.1.1.1.1.0,
  λ (rest : Bytes). r_str-write_str flags 5 g.trace_id rest h.1.1.1.1.1.0,
  λ (rest : Bytes). r_str-write_str flags 6 g.span_id rest h.1.1.1.1.1.1.0,
  λ (rest : Bytes). r_str-write_str flags 7 g.parent_span_id rest h.1.1.1.1.1.1.1.0,
  λ (rest : Bytes). r_str-write_str flags 8 g.request_id rest h.1.1.1.1.1.1.1.1.0,
  λ (rest : Bytes). r_str-write_str flags 9 g.user_id rest h.1.1.1.1.1.1.1.1.1.0,
  λ (rest : Bytes). r_str-write_str flags 10 g.tenant_id rest h.1.1.1.1.1.1.1.1.1.1.0,
  λ (rest : Bytes). r_str-write_str flags 11 g.session_id rest h.1.1.1.1.1.1.1.1.1.1.1.0,
)

pub length-context_bytes : (flags : ℕ) (g : Context) → length (context_bytes flags g) ≤ 12582984
unfolding context_bytes
length-context_bytes flags g = simp length-append (
    omega (
      arith,
      length-write_str flags 0 g.env,
      length-write_str flags 1 g.version,
      length-write_str flags 2 g.host,
      length-write_str flags 3 g.kind,
      length-write_str flags 4 g.event_type,
      length-write_str flags 5 g.trace_id,
      length-write_str flags 6 g.span_id,
      length-write_str flags 7 g.parent_span_id,
      length-write_str flags 8 g.request_id,
      length-write_str flags 9 g.user_id,
      length-write_str flags 10 g.tenant_id,
      length-write_str flags 11 g.session_id,
    ))

abbrev pub stored_http : HttpInfo → HttpInfo
stored_http g = record {
  method = truncate_field g.method;
  path = truncate_field g.path;
  route = truncate_field g.route;
  handler = truncate_field g.handler;
  status = stored_status g.status;
  duration_ms = stored_int g.duration_ms;
}

pub read_http_lem :
    (flags : ℕ) (g : HttpInfo) (rest : Bytes)
    → Agrees flags (http_flags g)
    → read_http len_extended flags (http_bytes flags g ++ rest) ≡ ok (stored_http g, rest)
unfolding read_http http_bytes
read_http_lem flags g rest h = simp (
  append_assoc,
  λ (rest : Bytes). r_str-write_str flags 12 g.method rest h.0,
  λ (rest : Bytes). r_str-write_str flags 13 g.path rest h.1.0,
  λ (rest : Bytes). r_str-write_str flags 14 g.route rest h.1.1.0,
  λ (rest : Bytes). r_str-write_str flags 15 g.handler rest h.1.1.1.0,
  λ (rest : Bytes). r_uint16-write_uint16 flags 16 g.status rest h.1.1.1.1.0,
  λ (rest : Bytes). r_uvar-write_uvar flags 17 g.duration_ms rest h.1.1.1.1.1.0,
)

pub length-http_bytes : (flags : ℕ) (g : HttpInfo) → length (http_bytes flags g) ≤ 4194340
unfolding http_bytes
length-http_bytes flags g = simp length-append (
    omega (
      arith,
      length-write_str flags 12 g.method,
      length-write_str flags 13 g.path,
      length-write_str flags 14 g.route,
      length-write_str flags 15 g.handler,
      length-write_uint16 flags 16 g.status,
      length-write_uvar flags 17 g.duration_ms,
    ))

abbrev pub stored_perf : PerfInfo → PerfInfo
stored_perf g = record {
  db_ms = stored_int g.db_ms;
  db_count = stored_int g.db_count;
  cache_ms = stored_int g.cache_ms;
  cache_hits = stored_int g.cache_hits;
  cache_misses = stored_int g.cache_misses;
  ext_ms = stored_int g.ext_ms;
  ext_count = stored_int g.ext_count;
  render_ms = stored_int g.render_ms;
  alloc_count = stored_int g.alloc_count;
  mem_delta_mb = stored_int g.mem_delta_mb;
  n_plus_one = g.n_plus_one;
  slow_queries = stored_int g.slow_queries;
  dup_queries = stored_int g.dup_queries;
}

pub read_perf_lem :
    (flags : ℕ) (g : PerfInfo) (rest : Bytes)
    → Agrees flags (perf_flags g)
    → read_perf flags (perf_bytes flags g ++ rest) ≡ ok (stored_perf g, rest)
unfolding read_perf perf_bytes
read_perf_lem flags g rest h = simp (
  append_assoc,
  λ (rest : Bytes). r_uvar-write_uvar flags 18 g.db_ms rest h.0,
  λ (rest : Bytes). r_uvar-write_uvar flags 19 g.db_count rest h.1.0,
  λ (rest : Bytes). r_uvar-write_uvar flags 20 g.cache_ms rest h.1.1.0,
  λ (rest : Bytes). r_uvar-write_uvar flags 21 g.cache_hits rest h.1.1.1.0,
  λ (rest : Bytes). r_uvar-write_uvar flags 22 g.cache_misses rest h.1.1.1.1.0,
  λ (rest : Bytes). r_uvar-write_uvar flags 23 g.ext_ms rest h.1.1.1.1.1.0,
  λ (rest : Bytes). r_uvar-write_uvar flags 24 g.ext_count rest h.1.1.1.1.1.1.0,
  λ (rest : Bytes). r_uvar-write_uvar flags 25 g.render_ms rest h.1.1.1.1.1.1.1.0,
  λ (rest : Bytes). r_uvar-write_uvar flags 26 g.alloc_count rest h.1.1.1.1.1.1.1.1.0,
  λ (rest : Bytes). r_uvar-write_uvar flags 27 g.mem_delta_mb rest h.1.1.1.1.1.1.1.1.1.0,
  λ (rest : Bytes). r_bool-write_bool flags 28 g.n_plus_one rest h.1.1.1.1.1.1.1.1.1.1.0,
  λ (rest : Bytes). r_uvar-write_uvar flags 29 g.slow_queries rest h.1.1.1.1.1.1.1.1.1.1.1.0,
  λ (rest : Bytes). r_uvar-write_uvar flags 30 g.dup_queries rest h.1.1.1.1.1.1.1.1.1.1.1.1.0,
)

pub length-perf_bytes : (flags : ℕ) (g : PerfInfo) → length (perf_bytes flags g) ≤ 121
unfolding perf_bytes
length-perf_bytes flags g = simp length-append (
    omega (
      arith,
      length-write_uvar flags 18 g.db_ms,
      length-write_uvar flags 19 g.db_count,
      length-write_uvar flags 20 g.cache_ms,
      length-write_uvar flags 21 g.cache_hits,
      length-write_uvar flags 22 g.cache_misses,
      length-write_uvar flags 23 g.ext_ms,
      length-write_uvar flags 24 g.ext_count,
      length-write_uvar flags 25 g.render_ms,
      length-write_uvar flags 26 g.alloc_count,
      length-write_uvar flags 27 g.mem_delta_mb,
      length-write_bool flags 28 g.n_plus_one,
      length-write_uvar flags 29 g.slow_queries,
      length-write_uvar flags 30 g.dup_queries,
    ))

abbrev pub stored_failure : ErrorInfo → ErrorInfo
stored_failure g = record {
  error_class = truncate_field g.error_class;
  error_message = truncate_field g.error_message;
  source_file = truncate_field g.source_file;
  source_line = stored_int g.source_line;
  error_fingerprint = truncate_field g.error_fingerprint;
}

pub read_failure_lem :
    (flags : ℕ) (g : ErrorInfo) (rest : Bytes)
    → Agrees flags (failure_flags g)
    → read_failure len_extended flags (failure_bytes flags g ++ rest) ≡ ok (stored_failure g, rest)
unfolding read_failure failure_bytes
read_failure_lem flags g rest h = simp (
  append_assoc,
  λ (rest : Bytes). r_str-write_str flags 31 g.error_class rest h.0,
  λ (rest : Bytes). r_str-write_str flags 32 g.error_message rest h.1.0,
  λ (rest : Bytes). r_str-write_str flags 33 g.source_file rest h.1.1.0,
  λ (rest : Bytes). r_uvar-write_uvar flags 34 g.source_line rest h.1.1.1.0,
  λ (rest : Bytes). r_str-write_str flags 35 g.error_fingerprint rest h.1.1.1.1.0,
)

pub length-failure_bytes : (flags : ℕ) (g : ErrorInfo) → length (failure_bytes flags g) ≤ 4194338
unfolding failure_bytes
length-failure_bytes flags g = simp length-append (
    omega (
      arith,
      length-write_str flags 31 g.error_class,
      length-write_str flags 32 g.error_message,
      length-write_str flags 33 g.source_file,
      length-write_uvar flags 34 g.source_line,
      length-write_str flags 35 g.error_fingerprint,
    ))

abbrev pub stored_job : JobInfo → JobInfo
stored_job g = record {
  job_class = truncate_field g.job_class;
  job_queue = truncate_field g.job_queue;
  job_id = truncate_field g.job_id;
  queue_ms = stored_int g.queue_ms;
}

pub read_job_lem :
    (flags : ℕ) (g : JobInfo) (rest : Bytes)
    → Agrees flags (job_flags g)
    → read_job len_extended flags (job_bytes flags g ++ rest) ≡ ok (stored_job g, rest)
unfolding read_job job_bytes
read_job_lem flags g rest h = simp (
  append_assoc,
  λ (rest : Bytes). r_str-write_str flags 36 g.job_class rest h.0,
  λ (rest : Bytes). r_str-write_str flags 37 g.job_queue rest h.1.0,
  λ (rest : Bytes). r_str-write_str flags 38 g.job_id rest h.1.1.0,
  λ (rest : Bytes). r_uvar-write_uvar flags 39 g.queue_ms rest h.1.1.1.0,
)

pub length-job_bytes : (flags : ℕ) (g : JobInfo) → length (job_bytes flags g) ≤ 3145756
unfolding job_bytes
length-job_bytes flags g = simp length-append (
    omega (
      arith,
      length-write_str flags 36 g.job_class,
      length-write_str flags 37 g.job_queue,
      length-write_str flags 38 g.job_id,
      length-write_uvar flags 39 g.queue_ms,
    ))
