-- ===== src/Wal/Tests.antt =====
-- Records and files of internal/logstore/wal at a concrete entry.
use opentrace.Base.{
  ℕ, zero, suc, ap, length-append, ◌^◌, ◌≤◌, ◌<◌, ◌≡◌, refl, [], ◌∷◌, ◌++◌, arith, Bytes, true,
  length, take, drop, get_or, map, some, ok, codes, bytes_eq,
}
use opentrace.Encoding.Word.{le_bytes, length-le_bytes}
use opentrace.Encoding.Zstd.Plain.{plain, plain-IsLossless}
use opentrace.Wal.Entry.{Entry}
use opentrace.Wal.Flags.{has, flag_extended_strings}
use opentrace.Wal.Level.{level_to_enum}
use opentrace.Wal.Record.{payload, unmarshal_entry, min_record_bytes, max_record_bytes}
use opentrace.Wal.Record.RoundTrip.{IsStorable, stored_entry, unmarshal_entry-payload}
use opentrace.Wal.Record.Shape.{append_entry_lem, length-payload}
use opentrace.Wal.Scanner.{read_entries_from}
use opentrace.Wal.Scanner.Frames.{scanning, append_entries, torn_error}
use opentrace.Wal.Scanner.Resume.{read_entries_from_torn, read_entries_from_resume}

abbrev checkout : Entry
checkout = record {
  id = 7;
  ts = 1_700_000_000_000;
  received_at = 1_700_000_000_250;
  level = codes "warning";
  service = codes "api";
  message = codes "slow";
  context = record {
    env = codes "prod";
    version = [];
    host = [];
    kind = [];
    event_type = [];
    trace_id = codes "t1";
    span_id = [];
    parent_span_id = [];
    request_id = [];
    user_id = [];
    tenant_id = [];
    session_id = [];
  };
  http = record {
    method = codes "GET";
    path = codes "/";
    route = [];
    handler = [];
    status = 200;
    duration_ms = 30;
  };
  perf = record {
    db_ms = 0;
    db_count = 0;
    cache_ms = 0;
    cache_hits = 0;
    cache_misses = 0;
    ext_ms = 0;
    ext_count = 0;
    render_ms = 0;
    alloc_count = 0;
    mem_delta_mb = 0;
    n_plus_one = some true;
    slow_queries = 0;
    dup_queries = 0;
  };
  failure = record {
    error_class = [];
    error_message = [];
    source_file = [];
    source_line = 0;
    error_fingerprint = [];
  };
  job = record { job_class = []; job_queue = []; job_id = []; queue_ms = 0 };
  body = codes "{}";
}

checkout-IsStorable : IsStorable checkout
checkout-IsStorable = record {
  id_word = omega arith;
  ts_word = omega arith;
  received_word = omega arith;
  body_fits = omega arith;
}

unmarshal_entry-payload_example :
    unmarshal_entry plain (payload plain true checkout) ≡ ok (stored_entry plain true checkout)
unmarshal_entry-payload_example =
    unmarshal_entry-payload plain plain-IsLossless true checkout checkout-IsStorable

length-payload_example :
    (min_record_bytes ≤ length (payload plain true checkout))
    × (length (payload plain true checkout) ≤ max_record_bytes)
length-payload_example = length-payload plain true checkout

warning_known : level_to_enum (codes "warning") ≡ some 3
unfolding level_to_enum bytes_eq
warning_known = refl

extended : has (2 ^ 63) flag_extended_strings ≡ true
unfolding has
extended = refl

-- A list around one of its places.
cut_at : (xs : Bytes) (i : ℕ) → i < length xs → xs ≡ take i xs ++ (get_or xs i 0 ∷ drop (suc i) xs)
cut_at [] i h = absurd (omega arith)
cut_at (x ∷ xs) zero h = refl
cut_at (x ∷ xs) (suc i) h = ap (λ t. x ∷ t) (cut_at xs i (omega arith))

abbrev checkout_record : Bytes
checkout_record = append_entries plain true [] (checkout ∷ [])

checkout_record_long : 10 < length checkout_record
unfolding append_entries
checkout_record_long =
    let p = payload plain true checkout in
    rw (append_entry_lem plain true [] checkout) (
      omega (
        arith,
        length-append (le_bytes 4 (length p)) p,
        length-le_bytes 4 (length p),
        (length-payload plain true checkout).0,
      ))

-- The first ten bytes of a record, as a crash may leave them.
abbrev torn : Bytes
torn = take 10 checkout_record

read_entries_from_torn_example :
    read_entries_from plain (append_entries plain true [] (checkout ∷ []) ++ torn) ≡ (
      map (stored_entry plain true) (checkout ∷ []),
      record (scanning [] (length (append_entries plain true [] (checkout ∷ [])))) {
        error = torn_error torn;
      },
    )
read_entries_from_torn_example =
    read_entries_from_torn plain plain-IsLossless true (checkout ∷ []) checkout torn
      (get_or checkout_record 10 0) (drop 11 checkout_record) (checkout-IsStorable, tt)
      (cut_at checkout_record 10 checkout_record_long)

read_entries_from_resume_example :
    let offset =
      (read_entries_from plain (append_entries plain true [] (checkout ∷ []) ++ torn)).1.consumed in
    let later =
      append_entries plain true (append_entries plain true [] (checkout ∷ [])) (checkout ∷ []) in
    (read_entries_from plain (drop offset later)).0 ≡ map (stored_entry plain true) (checkout ∷ [])
read_entries_from_resume_example =
    read_entries_from_resume plain plain-IsLossless true (checkout ∷ []) [] checkout torn
      (get_or checkout_record 10 0) (drop 11 checkout_record) (checkout-IsStorable, tt)
      (checkout-IsStorable, tt) (cut_at checkout_record 10 checkout_record_long)
