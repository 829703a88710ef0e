-- ===== src/Wal/Group.antt =====
-- wal/binary.go: the flags, the writer and the reader of each group of optional fields, in the
-- order of AppendEntry and UnmarshalEntryInto.
pub mod RoundTrip
use opentrace.Base.{ℕ, ◌≡◌, List, [], ◌∷◌, ◌++◌, Bytes, Bool, Result, ok, ◌>>=◌, All}
use opentrace.Encoding.Framing.{LenFormat}
use opentrace.Wal.Entry.{Context, HttpInfo, PerfInfo, ErrorInfo, JobInfo}
use opentrace.Wal.Field.{
  WalError, is_present, is_positive, is_non_nil, write_str, write_uvar, write_uint16, write_bool,
  r_str, r_uvar, r_uint16, r_bool,
}

-- Common context.
abbrev pub context_flags : Context → List (ℕ × Bool)
context_flags g =
    (0, is_present g.env)
    ∷ (1, is_present g.version)
    ∷ (2, is_present g.host)
    ∷ (3, is_present g.kind)
    ∷ (4, is_present g.event_type)
    ∷ (5, is_present g.trace_id)
    ∷ (6, is_present g.span_id)
    ∷ (7, is_present g.parent_span_id)
    ∷ (8, is_present g.request_id)
    ∷ (9, is_present g.user_id)
    ∷ (10, is_present g.tenant_id)
    ∷ (11, is_present g.session_id)
    ∷ []

unfoldable pub context_bytes : ℕ → Context → Bytes
context_bytes flags g =
    write_str flags 0 g.env
    ++ (write_str flags 1 g.version
        ++ (write_str flags 2 g.host
            ++ (write_str flags 3 g.kind
                ++ (write_str flags 4 g.event_type
                    ++ (write_str flags 5 g.trace_id
                        ++ (write_str flags 6 g.span_id
                            ++ (write_str flags 7 g.parent_span_id
                                ++ (write_str flags 8 g.request_id
                                    ++ (write_str flags 9 g.user_id
                                        ++ (write_str flags 10 g.tenant_id
                                            ++ (write_str flags 11 g.session_id)))))))))))

unfoldable pub read_context : LenFormat → ℕ → Bytes → Result WalError (Context × Bytes)
read_context fmt flags bs = do
  (v0, r1) ← r_str fmt flags 0 bs
  (v1, r2) ← r_str fmt flags 1 r1
  (v2, r3) ← r_str fmt flags 2 r2
  (v3, r4) ← r_str fmt flags 3 r3
  (v4, r5) ← r_str fmt flags 4 r4
  (v5, r6) ← r_str fmt flags 5 r5
  (v6, r7) ← r_str fmt flags 6 r6
  (v7, r8) ← r_str fmt flags 7 r7
  (v8, r9) ← r_str fmt flags 8 r8
  (v9, r10) ← r_str fmt flags 9 r9
  (v10, r11) ← r_str fmt flags 10 r10
  (v11, r12) ← r_str fmt flags 11 r11
  ok (
    record {
      env = v0;
      version = v1;
      host = v2;
      kind = v3;
      event_type = v4;
      trace_id = v5;
      span_id = v6;
      parent_span_id = v7;
      request_id = v8;
      user_id = v9;
      tenant_id = v10;
      session_id = v11;
    },
    r12,
  )

-- HTTP request.
abbrev pub http_flags : HttpInfo → List (ℕ × Bool)
http_flags g =
    (12, is_present g.method)
    ∷ (13, is_present g.path)
    ∷ (14, is_present g.route)
    ∷ (15, is_present g.handler)
    ∷ (16, is_positive g.status)
    ∷ (17, is_positive g.duration_ms)
    ∷ []

unfoldable pub http_bytes : ℕ → HttpInfo → Bytes
http_bytes flags g =
    write_str flags 12 g.method
    ++ (write_str flags 13 g.path
        ++ (write_str flags 14 g.route
            ++ (write_str flags 15 g.handler
                ++ (write_uint16 flags 16 g.status ++ (write_uvar flags 17 g.duration_ms)))))

unfoldable pub read_http : LenFormat → ℕ → Bytes → Result WalError (HttpInfo × Bytes)
read_http fmt flags bs = do
  (v0, r1) ← r_str fmt flags 12 bs
  (v1, r2) ← r_str fmt flags 13 r1
  (v2, r3) ← r_str fmt flags 14 r2
  (v3, r4) ← r_str fmt flags 15 r3
  (v4, r5) ← r_uint16 flags 16 r4
  (v5, r6) ← r_uvar flags 17 r5
  ok (
    record { method = v0; path = v1; route = v2; handler = v3; status = v4; duration_ms = v5 },
    r6,
  )

-- Performance.
abbrev pub perf_flags : PerfInfo → List (ℕ × Bool)
perf_flags g =
    (18, is_positive g.db_ms)
    ∷ (19, is_positive g.db_count)
    ∷ (20, is_positive g.cache_ms)
    ∷ (21, is_positive g.cache_hits)
    ∷ (22, is_positive g.cache_misses)
    ∷ (23, is_positive g.ext_ms)
    ∷ (24, is_positive g.ext_count)
    ∷ (25, is_positive g.render_ms)
    ∷ (26, is_positive g.alloc_count)
    ∷ (27, is_positive g.mem_delta_mb)
    ∷ (28, is_non_nil g.n_plus_one)
    ∷ (29, is_positive g.slow_queries)
    ∷ (30, is_positive g.dup_queries)
    ∷ []

unfoldable pub perf_bytes : ℕ → PerfInfo → Bytes
perf_bytes flags g =
    write_uvar flags 18 g.db_ms
    ++ (write_uvar flags 19 g.db_count
        ++ (write_uvar flags 20 g.cache_ms
            ++ (write_uvar flags 21 g.cache_hits
                ++ (write_uvar flags 22 g.cache_misses
                    ++ (write_uvar flags 23 g.ext_ms
                        ++ (write_uvar flags 24 g.ext_count
                            ++ (write_uvar flags 25 g.render_ms
                                ++ (write_uvar flags 26 g.alloc_count
                                    ++ (write_uvar flags 27 g.mem_delta_mb
                                        ++ (write_bool flags 28 g.n_plus_one
                                            ++ (write_uvar flags 29 g.slow_queries
                                                ++ (write_uvar flags 30 g.dup_queries))))))))))))

unfoldable pub read_perf : ℕ → Bytes → Result WalError (PerfInfo × Bytes)
read_perf flags bs = do
  (v0, r1) ← r_uvar flags 18 bs
  (v1, r2) ← r_uvar flags 19 r1
  (v2, r3) ← r_uvar flags 20 r2
  (v3, r4) ← r_uvar flags 21 r3
  (v4, r5) ← r_uvar flags 22 r4
  (v5, r6) ← r_uvar flags 23 r5
  (v6, r7) ← r_uvar flags 24 r6
  (v7, r8) ← r_uvar flags 25 r7
  (v8, r9) ← r_uvar flags 26 r8
  (v9, r10) ← r_uvar flags 27 r9
  (v10, r11) ← r_bool flags 28 r10
  (v11, r12) ← r_uvar flags 29 r11
  (v12, r13) ← r_uvar flags 30 r12
  ok (
    record {
      db_ms = v0;
      db_count = v1;
      cache_ms = v2;
      cache_hits = v3;
      cache_misses = v4;
      ext_ms = v5;
      ext_count = v6;
      render_ms = v7;
      alloc_count = v8;
      mem_delta_mb = v9;
      n_plus_one = v10;
      slow_queries = v11;
      dup_queries = v12;
    },
    r13,
  )

-- Error tracking.
abbrev pub failure_flags : ErrorInfo → List (ℕ × Bool)
failure_flags g =
    (31, is_present g.error_class)
    ∷ (32, is_present g.error_message)
    ∷ (33, is_present g.source_file)
    ∷ (34, is_positive g.source_line)
    ∷ (35, is_present g.error_fingerprint)
    ∷ []

unfoldable pub failure_bytes : ℕ → ErrorInfo → Bytes
failure_bytes flags g =
    write_str flags 31 g.error_class
    ++ (write_str flags 32 g.error_message
        ++ (write_str flags 33 g.source_file
            ++ (write_uvar flags 34 g.source_line ++ (write_str flags 35 g.error_fingerprint))))

unfoldable pub read_failure : LenFormat → ℕ → Bytes → Result WalError (ErrorInfo × Bytes)
read_failure fmt flags bs = do
  (v0, r1) ← r_str fmt flags 31 bs
  (v1, r2) ← r_str fmt flags 32 r1
  (v2, r3) ← r_str fmt flags 33 r2
  (v3, r4) ← r_uvar flags 34 r3
  (v4, r5) ← r_str fmt flags 35 r4
  ok (
    record {
      error_class = v0;
      error_message = v1;
      source_file = v2;
      source_line = v3;
      error_fingerprint = v4;
    },
    r5,
  )

-- Job.
abbrev pub job_flags : JobInfo → List (ℕ × Bool)
job_flags g =
    (36, is_present g.job_class)
    ∷ (37, is_present g.job_queue)
    ∷ (38, is_present g.job_id)
    ∷ (39, is_positive g.queue_ms)
    ∷ []

unfoldable pub job_bytes : ℕ → JobInfo → Bytes
job_bytes flags g =
    write_str flags 36 g.job_class
    ++ (write_str flags 37 g.job_queue
        ++ (write_str flags 38 g.job_id ++ (write_uvar flags 39 g.queue_ms)))

unfoldable pub read_job : LenFormat → ℕ → Bytes → Result WalError (JobInfo × Bytes)
read_job fmt flags bs = do
  (v0, r1) ← r_str fmt flags 36 bs
  (v1, r2) ← r_str fmt flags 37 r1
  (v2, r3) ← r_str fmt flags 38 r2
  (v3, r4) ← r_uvar flags 39 r3
  ok (record { job_class = v0; job_queue = v1; job_id = v2; queue_ms = v3 }, r4)
